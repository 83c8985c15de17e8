-- ===== src/Generator/Arith/Meaning.antt =====
-- What the texts of the arithmetic operators stand for on `int64_t`, without the generator's table
-- of opcodes and without the machine.
use mylamina.Base.{◌≡◌, refl, true, false, [], ◌∷◌, Option, none, some, Text, text_eq}
use mylamina.Base.{if◌then◌else◌, ℤ, pos, ◌+ℤ◌, ◌-ℤ◌, ◌*ℤ◌, quot, rem, fits64}
use mylamina.Base.{eqb_ℤ}
use mylamina.Opcode.{Opcode, add, sub, mul, div, mod_op}
use mylamina.Vm.Steps.{arith64}
use mylamina.Vm.Effects.{is_arith}
use mylamina.Generator.Expr.{operator, is_pipe}

-- The integer itself where `int64_t` has it.
abbrev pub in_range : ℤ → Option ℤ
in_range z = if fits64 z then some z else none

-- The quotient rounds to zero, the remainder has the sign of the dividend, and neither is defined
-- on a divisor 0 or where the quotient does not fit.
abbrev pub meaning : Text → ℤ → ℤ → Option ℤ
meaning op x y =
    if text_eq op (b'+' ∷ [])
    then in_range (x +ℤ y)
    else if text_eq op (b'-' ∷ [])
    then in_range (x -ℤ y)
    else if text_eq op (b'*' ∷ [])
    then in_range (x *ℤ y)
    else if text_eq op (b'/' ∷ [])
    then (if eqb_ℤ y (pos 0) then none else in_range (quot x y))
    else if text_eq op (b'%' ∷ [])
    then (if eqb_ℤ y (pos 0)
        then none
        else (if fits64 (quot x y) then in_range (rem x y) else none))
    else none

-- The texts that have a meaning.
pub data IsOperator : Text → Type 0 where
  plus : IsOperator (b'+' ∷ [])
  hyphen : IsOperator (b'-' ∷ [])
  star : IsOperator (b'*' ∷ [])
  slash : IsOperator (b'/' ∷ [])
  percent : IsOperator (b'%' ∷ [])

-- The opcode that the generator takes for a text, where the machine computes with it what the
-- text means.
pub record Realised (op : Text) : Type 0 where
  pub o : Opcode
  pub found : operator op ≡ some o
  pub arith_op : is_arith o ≡ true
  pub no_pipe : is_pipe op ≡ false
  pub agrees : (x y v : ℤ) → meaning op x y ≡ some v → arith64 o x y ≡ some v

pub IsOperator-Realised : (op : Text) → IsOperator op → Realised op
unfolding operator arith64
IsOperator-Realised _ plus = record {
  o = add;
  found = refl;
  arith_op = refl;
  no_pipe = refl;
  agrees = λ x y v h. h;
}
IsOperator-Realised _ hyphen = record {
  o = sub;
  found = refl;
  arith_op = refl;
  no_pipe = refl;
  agrees = λ x y v h. h;
}
IsOperator-Realised _ star = record {
  o = mul;
  found = refl;
  arith_op = refl;
  no_pipe = refl;
  agrees = λ x y v h. h;
}
IsOperator-Realised _ slash = record {
  o = div;
  found = refl;
  arith_op = refl;
  no_pipe = refl;
  agrees = λ x y v h. h;
}
IsOperator-Realised _ percent = record {
  o = mod_op;
  found = refl;
  arith_op = refl;
  no_pipe = refl;
  agrees = λ x y v h. h;
}
