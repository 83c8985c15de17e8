-- ===== src/Generator/State.antt =====
-- The members of `Generator`, and its computations: `none` is a crash of the compiler (a null
-- pointer, an uncaught exception of `std::stoll` or an undefined access).
pub mod Laws
use mylamina.Base.{ℕ, zero, suc, ◌+◌, ◌-◌, ◌*◌, ◌%◌, ◌^◌, Bool, true, false, ◌&&◌, List, []}
use mylamina.Base.{◌∷◌, ◌++◌, Option, none, some, leb, if◌then◌else◌, length, get_elem?}
use mylamina.Base.{set, Text, lookup, insert, le_bytes}
use mylamina.Opcode.{copy_operands}
use mylamina.Emit.{Emitter, nothing}
use mylamina.Alloc.{Allocator, new_allocator, alloc, free}
use mylamina.Scope.{CompilingFrame, new_compiling_frame, find_var, new_var, new_var_at, is_some}
use mylamina.Scope.{index_var}
use mylamina.Ast.{TypeNode}

-- What `error` is called with.
pub data GenError : Type 0 where
  redefined_var redefined_function argument_defined not_mutable var_not_found : Text → GenError
  function_not_defined operator_not_defined unary_not_defined vmc_index : Text → GenError
  args_mismatch : ℕ → ℕ → Text → GenError
  no_loop_body expected_block unknown_node : GenError

-- `errors` is non-empty or was cleared exactly where `node_has_error` has been set.
pub record Generator : Type 0 where
  pub emitter : Emitter
  pub regs : Allocator
  pub constant_pool : List ℕ
  pub cur : List CompilingFrame
  pub funcs : List (Text × (ℕ × ℕ))
  pub extern_funcs : List (Text × (ℕ × List TypeNode))
  pub modules : List Text
  pub using_modules : List Text
  -- the text of the `stringstream`, and whether its state is good
  pub cur_module : Text
  pub module_stream_good : Bool
  pub break_points : List ℕ
  pub continue_points : List ℕ
  pub expr_release : Bool
  pub errors : List GenError
  pub node_has_error : Bool

-- `Generator::Generator()` in a fresh process: one frame, `global`.
unfoldable pub new_generator : Generator
new_generator = record {
  emitter = record { ops = []; ret_type = nothing };
  regs = new_allocator;
  constant_pool = [];
  cur = new_compiling_frame (b'g' ∷ b'l' ∷ b'o' ∷ b'b' ∷ b'a' ∷ b'l' ∷ []) ∷ [];
  funcs = [];
  extern_funcs = [];
  modules = [];
  using_modules = [];
  cur_module = [];
  module_stream_good = true;
  break_points = [];
  continue_points = [];
  expr_release = false;
  errors = [];
  node_has_error = false;
}

abbrev pub Gen : Type 0 → Type 0
Gen A = Generator → Option (A × Generator)

abbrev pub and_then : {A B : Type 0} → Option (A × Generator) → (A → Gen B) → Option (B × Generator)
and_then none f = none
and_then (some (a, g)) f = f a g

infixl 5 ◌>>=◌ ◌>>◌
abbrev pub ◌>>=◌ : {A B : Type 0} → Gen A → (A → Gen B) → Gen B
◌>>=◌ m f g = and_then (m g) f

abbrev pub ◌>>◌ : {B : Type 0} → Gen (Unit {0}) → Gen B → Gen B
m >> k = m >>= λ _. k

abbrev pub return : {A : Type 0} → A → Gen A
return a g = some (a, g)

abbrev pub crash : {A : Type 0} → Gen A
crash g = none

abbrev pub gets : {A : Type 0} → (Generator → A) → Gen A
gets f g = some (f g, g)

abbrev pub modify : (Generator → Generator) → Gen (Unit {0})
modify f g = some (tt, f g)

abbrev pub emit : (Emitter → Emitter) → Gen (Unit {0})
emit f g = some (tt, record g { emitter = f g.emitter })

-- For the two emitters that read `ops.back()`.
abbrev pub emitted : Option Emitter → Gen (Unit {0})
emitted none g = none
emitted (some e) g = some (tt, record g { emitter = e })

abbrev pub emit_opt : (Emitter → Option Emitter) → Gen (Unit {0})
emit_opt f g = emitted (f g.emitter) g

-- `static void error(msg)`
abbrev pub error : GenError → Gen (Unit {0})
error e g = some (tt, record g { errors = g.errors ++ (e ∷ []); node_has_error = true })

-- `tagging()` and `togging()`
abbrev pub tagging : Gen ℕ
tagging = gets (λ g. length g.emitter.ops)

abbrev pub alloc_reg : Gen ℕ
alloc_reg g = let (r, bits) = alloc g.regs in some (r, record g { regs = bits })

abbrev pub free_reg : ℕ → Gen (Unit {0})
free_reg r = modify (λ g. record g { regs = free r g.regs })

-- `if (expr_release) regs.free(r)`
abbrev pub release_reg : ℕ → Gen (Unit {0})
release_reg r = modify (λ g. if g.expr_release then record g { regs = free r g.regs } else g)

abbrev pub set_release : Gen (Unit {0})
set_release = modify (λ g. record g { expr_release = true })

-- The conversion of a `size_t` argument to `uint8_t` and to `uint16_t`.
abbrev pub u8 : ℕ → ℕ
u8 n = n % 256

abbrev pub u16 : ℕ → ℕ
u16 n = n % 2 ^ 16

-- `memcpy(ops[at].operands + offset, &target, 8)`
unfoldable pub patch : ℕ → ℕ → ℕ → Gen (Unit {0})
patch at offset target g = elim (get_elem? g.emitter.ops at) [
  | none ↦ none
  | some o ↦ some (
    tt,
    record g {
      emitter = record (g.emitter) {
        ops = set g.emitter.ops at (copy_operands o offset (le_bytes 8 target));
      };
    },
  )
]

-- `std::stoll` on a run of digits: the value, if it fits `max`. A text with no digit throws.
abbrev is_digit : ℕ → Bool
is_digit c = leb b'0' c && leb c b'9'

digits_value : ℕ → Text → ℕ
digits_value acc [] = acc
digits_value acc (c ∷ cs) =
    let rest = digits_value (acc * 10 + (c - b'0')) cs in if is_digit c then rest else acc

starts_with_digit : Text → Bool
starts_with_digit [] = false
starts_with_digit (c ∷ cs) = is_digit c

unfoldable pub sto : ℕ → Text → Option ℕ
unfolding digits_value starts_with_digit
sto max s =
    if starts_with_digit s && leb (digits_value 0 s) max then some (digits_value 0 s) else none

abbrev pub from_option : {A : Type 0} → Option A → Gen A
from_option none g = none
from_option (some a) g = some (a, g)

-- `find_var` on the frames of the generator.
abbrev pub find : Text → Gen (ℕ × (Bool × ℕ))
find n = gets (λ g. find_var n g.cur)

-- A `new_var…` of `cur.back()`: the address, with the error for a name that is taken.
unfoldable pub declare_with :
    (CompilingFrame → CompilingFrame × ℕ × Bool) → Text → List CompilingFrame → Gen ℕ
declare_with op n [] g = none
declare_with op n (f ∷ fs) g =
    let (f', addr, fresh) = op f in
    let g' = record g { cur = f' ∷ fs } in
    if fresh
    then some (addr, g')
    else some
        (addr, record g' { errors = g.errors ++ (redefined_var n ∷ []); node_has_error = true })

unfoldable pub declare : Text → Bool → Gen ℕ
unfolding declare_with
declare n is_mut g = declare_with (new_var n is_mut) n g.cur g

unfoldable pub declare_at : Text → Bool → ℕ → Gen ℕ
unfolding declare_with
declare_at n is_mut addr g = declare_with (new_var_at n is_mut addr) n g.cur g

-- `new_func(name, size)` at the present end of the program; `size` is a `uint8_t`.
unfoldable pub new_func : Text → ℕ → Gen (Unit {0})
new_func name size g =
    if is_some (lookup name g.funcs)
    then error (redefined_function name) g
    else some (tt, record g { funcs = insert name (u8 size, length g.emitter.ops) g.funcs })

-- `cur[i]->locals[n].second`
unfoldable pub index : Text → ℕ → Gen ℕ
index n i g = elim (index_var n i g.cur) [
  | none ↦ none
  | some (a, cur) ↦ some (a, record g { cur = cur })
]
