-- ===== src/Generator/Expr/Operators.antt =====
-- The opcodes that compiler/generator/generator.cpp gives to operators.
use mylamina.Base.{
  Bool, true, false, Option, none, some, if◌then◌else◌, Text, text_eq, All, List, [], ◌∷◌, ◌≡◌,
  refl,
}
use mylamina.Opcode.{Opcode}
use mylamina.Opcode.Codes.{IsEnumerator}
use mylamina.Loader.{is_halt}
use mylamina.Generator.Expr.{find_operator, operator, operators}

abbrev pub GoesOn : Option Opcode → Type 0
GoesOn none = Unit
GoesOn (some o) = IsEnumerator o × (is_halt o ≡ false)

GoesOn-if : (b : Bool) (x y : Option Opcode) → GoesOn x → GoesOn y → GoesOn (if b then x else y)
GoesOn-if true x y h k = h
GoesOn-if false x y h k = k

find_operator-GoesOn :
    (op : Text) (l : List (Text × Opcode))
    → All (λ (p : Text × Opcode). GoesOn (some p.1)) l
    → GoesOn (find_operator op l)
unfolding find_operator
find_operator-GoesOn op [] h = tt
find_operator-GoesOn op ((t, o) ∷ l) (p, ps) =
    GoesOn-if (text_eq op t) (some o) _ p (find_operator-GoesOn op l ps)

pub operator-GoesOn : (op : Text) → GoesOn (operator op)
unfolding operator
operator-GoesOn op =
    let p : Unit {0} × (false ≡ false) = (tt, refl) in
    find_operator-GoesOn op operators
      (p, (p, (p, (p, (p, (p, (p, (p, (p, (p, (p, (p, (p, (p, tt))))))))))))))
