-- ===== src/Value.antt =====
-- runtime/value/value.hpp and value.cpp: the tagged union of a register or a local.
-- The union is its eight bytes, as a number below 2^64 with the lowest byte first in memory: a
-- member shorter than that reads and writes the low bytes and leaves the others as they are.
-- Doubles, `std::to_string` and `std::hash` are not code of the repository and enter as `Libc`.
pub mod Laws
use mylamina.Base.{
  ◌||◌, Option, none, some, ◌>>=◌, ℕ, ◌+◌, ◌*◌, ◌/◌, ◌%◌, Bool, true, false, not, List, [], ◌∷◌,
  ◌==◌,
}
use mylamina.Base.{text_eq, if◌then◌else◌, ℤ, signed64, pattern64, eqb_ℤ}
use Prim.Native.Nat.{bit_xor}

-- `enum ValueType`
pub data ValueType : Type 0 where
  bool int float str ptr null no_enum_value : ValueType

pub record Value : Type 0 where
  pub type : ValueType
  pub bits : ℕ

-- `Value::Value()`
abbrev pub default_value : Value
default_value = record { type = ptr; bits = 0 }

-- The members `b` and `i64` of the union.
abbrev pub as_bool : Value → Bool
as_bool v = not (v.bits % 256 == 0)

abbrev pub as_i64 : Value → ℤ
as_i64 v = signed64 v.bits

-- `v.b = b`, with no change of the tag.
unfoldable pub set_bool : Value → Bool → Value
set_bool v b = record v { bits = v.bits / 256 * 256 + (if b then 1 else 0) }

-- The assignment operators.
unfoldable pub assign_ptr : Value → ℕ → Value
assign_ptr v p = record { type = ptr; bits = p }

unfoldable pub assign_bool : Value → Bool → Value
unfolding set_bool
assign_bool v b = record (set_bool v b) { type = bool }

unfoldable pub assign_str : Value → ℕ → Value
assign_str v p = record { type = str; bits = p }

unfoldable pub assign_i64 : Value → ℤ → Value
assign_i64 v n = record { type = int; bits = pattern64 n }

unfoldable pub assign_f64 : Value → ℕ → Value
assign_f64 v x = record { type = float; bits = x }

unfoldable pub assign_u8 : Value → ℕ → Value
assign_u8 v n = record { type = int; bits = v.bits / 256 * 256 + n % 256 }

unfoldable pub assign_u64 : Value → ℕ → Value
assign_u64 v n = record { type = int; bits = n }

-- The `switch` of `operator=(const Value&)`, on the new tag: what the bytes become.
unfoldable pub copy_bits : ValueType → ℕ → ℕ → ℕ
copy_bits int old new = new
copy_bits float old new = new
copy_bits str old new = new
copy_bits bool old new = old / 256 * 256 + new % 256
copy_bits ptr old new = new
copy_bits null old new = 0
copy_bits no_enum_value old new = old

unfoldable pub assign_copy : Value → Value → Value
unfolding copy_bits
assign_copy v rhs = record { type = rhs.type; bits = copy_bits rhs.type v.bits rhs.bits }

-- What the model takes from the C++ library.
pub record Libc : Type 0 where
  pub f64_pow : ℕ → ℕ → ℕ
  pub f64_eq : ℕ → ℕ → Bool
  pub int_text : ℤ → List ℕ
  pub f64_text : ℕ → List ℕ
  pub hash_int : ℕ → ℕ
  pub hash_u64 : ℕ → ℕ
  pub hash_f64 : ℕ → ℕ
  pub hash_ptr : ℕ → ℕ
  pub hash_bool : Bool → ℕ
  pub hash_text : List ℕ → ℕ

module _ (libc : Libc) (text_at : ℕ → List ℕ) where
  -- `strcmp(v.str, w.str) == 0`, which is undefined on a null pointer; `text_at` is the memory
  -- that it reads.
  abbrev same_text : Value → Value → Option Bool
  same_text v w =
      if v.bits == 0 || w.bits == 0 then none else some (text_eq (text_at v.bits) (text_at w.bits))

  abbrev opposite : Option Bool → Option Bool
  opposite o = do b ← o; some (not b)

  -- `operator==`, by the tag of the left operand.
  unfoldable pub eq_as : ValueType → Value → Value → Option Bool
  eq_as int v w = some (eqb_ℤ (as_i64 v) (as_i64 w))
  eq_as float v w = some (libc.f64_eq v.bits w.bits)
  eq_as str v w = same_text v w
  eq_as bool v w = some (if as_bool v then as_bool w else not (as_bool w))
  eq_as ptr v w = some (v.bits == w.bits)
  eq_as null v w = some true
  eq_as no_enum_value v w = some false

  unfoldable pub value_eq : Value → Value → Option Bool
  unfolding eq_as
  value_eq v w = eq_as v.type v w

  -- `operator!=`, a second `switch` with the tests turned round.
  unfoldable pub ne_as : ValueType → Value → Value → Option Bool
  ne_as int v w = some (not (eqb_ℤ (as_i64 v) (as_i64 w)))
  ne_as float v w = some (not (libc.f64_eq v.bits w.bits))
  ne_as str v w = opposite (same_text v w)
  ne_as bool v w = some (if as_bool v then not (as_bool w) else as_bool w)
  ne_as ptr v w = some (not (v.bits == w.bits))
  ne_as null v w = some false
  ne_as no_enum_value v w = some true

  unfoldable pub value_ne : Value → Value → Option Bool
  unfolding ne_as
  value_ne v w = ne_as v.type v w

  -- `Value::to_string`; a pointer that is not null falls through to the empty text, and a
  -- `std::string` of a null `str` cannot be made.
  text_as : ValueType → Value → Option (List ℕ)
  text_as int v = some (libc.int_text (as_i64 v))
  text_as bool v =
      some (
        if as_bool v then b't' ∷ b'r' ∷ b'u' ∷ b'e' ∷ [] else b'f' ∷ b'a' ∷ b'l' ∷ b's' ∷ b'e' ∷ [])
  text_as str v = if v.bits == 0 then none else some (text_at v.bits)
  text_as float v = some (libc.f64_text v.bits)
  text_as null v = some (b'n' ∷ b'u' ∷ b'l' ∷ b'l' ∷ [])
  text_as ptr v = some (if v.bits == 0 then b'n' ∷ b'u' ∷ b'l' ∷ b'l' ∷ [] else [])
  text_as no_enum_value v = some []

  unfoldable pub to_string : Value → Option (List ℕ)
  unfolding text_as
  to_string v = text_as v.type v

  -- The number of a tag, `static_cast<int>(v.type)`.
  abbrev tag_number : ValueType → ℕ
  tag_number bool = 0
  tag_number int = 1
  tag_number float = 2
  tag_number str = 3
  tag_number ptr = 4
  tag_number null = 5
  tag_number no_enum_value = 6

  hash_as : ValueType → Value → ℕ → ℕ
  hash_as bool v seed = bit_xor seed (libc.hash_bool (as_bool v))
  hash_as int v seed = bit_xor seed (libc.hash_u64 v.bits)
  hash_as float v seed = bit_xor seed (libc.hash_f64 v.bits)
  hash_as null v seed = bit_xor seed 0xdeadbeef
  hash_as ptr v seed = bit_xor seed (libc.hash_ptr v.bits)
  hash_as str v seed =
      if v.bits == 0
      then bit_xor seed 0xcafebabe
      else bit_xor seed (libc.hash_text (text_at v.bits))
  hash_as no_enum_value v seed = seed

  -- `ValueHasher`
  unfoldable pub value_hash : Value → ℕ
  unfolding hash_as
  value_hash v = hash_as v.type v (libc.hash_int (tag_number v.type))
