-- ===== src/Opcode/Codes.antt =====
-- include/opcode.hpp: the byte of each enumerator, in the order of the declaration.
use mylamina.Base.{ℕ, ◌≡◌, refl, List, [], ◌∷◌, get_or}
use mylamina.Opcode.{
  Opcode, mov_ri, mov_rm, mov_rr, mov_rc, mov_mi, mov_mm, mov_mr, mov_mc, add, sub, mul, div,
  mod_op, pow, halt, fcall, fret, debug_log, jmp, cmp_ge, cmp_lt, cmp_le, cmp_gt, cmp_eq, cmp_ne,
  if_true, if_false, func_create, func_end, local_get, local_set, and_op, or_op, vmc, dec, invalid,
}

-- `static_cast<uint8_t>(op.op)`
unfoldable pub byte_of : Opcode → ℕ
byte_of mov_ri = 0
byte_of mov_rm = 1
byte_of mov_rr = 2
byte_of mov_rc = 3
byte_of mov_mi = 4
byte_of mov_mm = 5
byte_of mov_mr = 6
byte_of mov_mc = 7
byte_of add = 8
byte_of sub = 9
byte_of mul = 10
byte_of div = 11
byte_of mod_op = 12
byte_of pow = 13
byte_of halt = 14
byte_of fcall = 15
byte_of fret = 16
byte_of debug_log = 17
byte_of jmp = 18
byte_of cmp_ge = 19
byte_of cmp_lt = 20
byte_of cmp_le = 21
byte_of cmp_gt = 22
byte_of cmp_eq = 23
byte_of cmp_ne = 24
byte_of if_true = 25
byte_of if_false = 26
byte_of func_create = 27
byte_of func_end = 28
byte_of local_get = 29
byte_of local_set = 30
byte_of and_op = 31
byte_of or_op = 32
byte_of vmc = 33
byte_of dec = 34
byte_of (invalid b) = b

abbrev enumerators : List Opcode
enumerators =
    mov_ri ∷ mov_rm ∷ mov_rr ∷ mov_rc ∷ mov_mi ∷ mov_mm ∷ mov_mr ∷ mov_mc ∷ add ∷ sub ∷ mul ∷ div
    ∷ mod_op ∷ pow ∷ halt ∷ fcall ∷ fret ∷ debug_log ∷ jmp ∷ cmp_ge ∷ cmp_lt ∷ cmp_le ∷ cmp_gt
    ∷ cmp_eq ∷ cmp_ne ∷ if_true ∷ if_false ∷ func_create ∷ func_end ∷ local_get ∷ local_set ∷ and_op
    ∷ or_op ∷ vmc ∷ dec ∷ []

-- `static_cast<Opcode>(b)`
unfoldable pub of_byte : ℕ → Opcode
of_byte b = get_or enumerators b (invalid b)

-- An opcode that the generator can write: an enumerator.
abbrev pub IsEnumerator : Opcode → Type 0
IsEnumerator (invalid b) = ⊥
IsEnumerator _ = Unit {0}

-- The byte of every enumerator is read as that enumerator.
pub of_byte-byte_of : (o : Opcode) → IsEnumerator o → of_byte (byte_of o) ≡ o
unfolding of_byte byte_of
of_byte-byte_of (invalid b) h = absurd h
of_byte-byte_of _ h = refl
