-- ===== src/Generator/Arith/Operators.antt =====
-- What `gen_binary` emits for an operator, from what its operands emit.
use mylamina.Base.{ℕ, ◌<◌, ◌≡◌, ◌≢◌, refl, Bool, true, false, List, []}
use mylamina.Base.{◌∷◌, ◌++◌, Option, some, append_assoc, arith, sym, ◌∙◌, ap, if◌then◌else◌}
use mylamina.Base.{Text}
use mylamina.Opcode.{Op, Opcode, operand, set_operand}
use mylamina.Emit.{op_regs, emit_regs}
use mylamina.Alloc.{Allocator, set_bit}
use mylamina.Alloc.Laws.{Allocates, free-set_bit, free-set_bit_other, pos_of_free}
use mylamina.Generator.State.{Generator, Gen, ◌>>=◌, ◌>>◌, alloc_reg}
use mylamina.Generator.State.Laws.{bind_some}
use mylamina.Generator.Expr.{
  operator, is_pipe, pipe, combine, move_release, apply_operator, gen_binary,
}
use mylamina.Generator.Arith.{full, extended}
use mylamina.Generator.Arith.Steps.{u8_small, alloc_reg_lem, move_release_lem, released}
use mylamina.Generator.Arith.Steps.{taken_free}

-- One operand that has been compiled with register `r`, last instruction `last`.
pub record Operand (m : Gen ℕ) (g : Generator) (r : ℕ) (init : List Op) (last : Op) : Type 0 where
  pub was_free : g.regs r ≡ false
  pub in_range : r < 255
  pub target : operand last 0 ≡ r
  pub result : m g ≡ some (r, extended g r (init ++ (last ∷ [])))

regroup : (a b c d : List Op) → ((a ++ b) ++ c) ++ d ≡ a ++ ((b ++ c) ++ d)
regroup a b c d = simp append_assoc

pub zero_stays : (t : ℕ) (bits : Allocator) → bits 0 ≡ true → set_bit t true bits 0 ≡ true
zero_stays t bits h = ground arith

module _ (g : Generator) (zero_taken : g.regs 0 ≡ true) (o : Opcode) (op : Text)
    (call : Gen ℕ) where
  -- the registers with the first operand's taken, and the generator that has moved it there
  abbrev pub taken : ℕ → Allocator
  taken t1 = set_bit t1 true g.regs

  -- The end: the instruction of the operator, and the operands' registers given back.
  combine_lem :
      (ops : List Op) (t1 t2 r : ℕ)
      → g.regs t1 ≡ false
      → t1 < 255
      → taken t1 t2 ≡ false
      → t2 < 255
      → Allocates (set_bit t2 true (taken t1)) r
      → combine (some o) op r t1 t2 (full g ops (set_bit r true (set_bit t2 true (taken t1))))
        ≡ some (r, full g (ops ++ (op_regs o r t1 t2 ∷ [])) (set_bit r true g.regs))
  unfolding combine emit_regs
  combine_lem ops t1 t2 r f1 h1 f2 h2 a =
      rw
        (
          u8_small r a.in_range,
          u8_small t1 h1,
          u8_small t2 h2,
          released g.regs t1 t2 r (pos_of_free t1 g.regs zero_taken f1) h1 f1
              (pos_of_free t2 (taken t1) (zero_stays t1 g.regs zero_taken) f2) h2 f2 a.was_free,
        )
        refl

  -- The second half of `gen_binary`: the right operand, its move, and the operator.
  apply_operator_lem :
      (right : Gen ℕ) (ops init : List Op) (t1 t2 r r2 : ℕ) (last : Op)
      → operator op ≡ some o
      → g.regs t1 ≡ false
      → t1 < 255
      → Operand right (full g ops (taken t1)) r2 init last
      → Allocates (set_bit r2 true (taken t1)) t2
      → Allocates (set_bit t2 true (taken t1)) r
      → apply_operator t1 right op (full g ops (taken t1))
        ≡ some (
          r,
          full g
              ((ops ++ (init ++ (set_operand last 0 t2 ∷ []))) ++ (op_regs o r t1 t2 ∷ []))
              (set_bit r true g.regs),
        )
  apply_operator_lem right ops init t1 t2 r r2 last eo f1 h1 R a2 a =
      let zero1 = zero_stays t1 g.regs zero_taken in
      let (f2, ne) = taken_free (taken t1) r2 t2 a2.was_free in
      let code : List Op = init ++ (last ∷ []) in
      let moved : List Op = ops ++ (init ++ (set_operand last 0 t2 ∷ [])) in
      let bits2 = set_bit t2 true (set_bit r2 true (taken t1)) in
      let ne' : t2 ≢ r2 = λ e. ne (sym e) in
      let move : move_release t2 r2 (full g (ops ++ code) bits2)
          ≡ some (tt, full g moved (set_bit t2 true (taken t1))) =
        rw
          (← free-set_bit_other r2 t2 (taken t1) (pos_of_free r2 (taken t1) zero1 R.was_free)
            R.in_range R.was_free ne')
          (move_release_lem g ops init last bits2 t2 r2 a2.in_range R.in_range ne' R.target) in
      bind_some right _ (full g ops (taken t1)) R.result
      ∙ bind_some alloc_reg
          (λ t. move_release t r2 >> (alloc_reg >>= λ q. combine (operator op) op q t1 t))
          (full g (ops ++ code) (set_bit r2 true (taken t1)))
          (alloc_reg_lem (full g (ops ++ code) (set_bit r2 true (taken t1))) t2 a2.result)
      ∙ bind_some (move_release t2 r2) (λ _. alloc_reg >>= λ q. combine (operator op) op q t1 t2)
          (full g (ops ++ code) bits2) move
      ∙ bind_some alloc_reg (λ q. combine (operator op) op q t1 t2)
          (full g moved (set_bit t2 true (taken t1)))
          (alloc_reg_lem (full g moved (set_bit t2 true (taken t1))) r a.result)
      ∙ ap
          (λ (q : Option Opcode).
            combine q op r t1 t2 (full g moved (set_bit r true (set_bit t2 true (taken t1)))))
          eo
      ∙ combine_lem moved t1 t2 r f1 h1 f2 a2.in_range a

  -- `gen_binary`: the left operand comes to a register of its own first.
  pub gen_binary_lem :
      (left right : Gen ℕ) (t1 t2 r r1 r2 : ℕ) (i1 i2 : List Op) (l1 l2 : Op)
      → operator op ≡ some o
      → is_pipe op ≡ false
      → Allocates g.regs t1
      → Operand left (record g { regs = taken t1 }) r1 i1 l1
      → Operand right
          (full g (g.emitter.ops ++ (i1 ++ (set_operand l1 0 t1 ∷ []))) (taken t1))
          r2
          i2
          l2
      → Allocates (set_bit r2 true (taken t1)) t2
      → Allocates (set_bit t2 true (taken t1)) r
      → gen_binary left right call op g
        ≡ some (
          r,
          extended g r (
              ((i1 ++ (set_operand l1 0 t1 ∷ [])) ++ (i2 ++ (set_operand l2 0 t2 ∷ [])))
              ++ (op_regs o r t1 t2 ∷ [])),
        )
  unfolding gen_binary
  gen_binary_lem left right t1 t2 r r1 r2 i1 i2 l1 l2 eo np a1 L R a2 a =
      let ops = g.emitter.ops in
      let zero1 = zero_stays t1 g.regs zero_taken in
      let (f1, ne) = taken_free g.regs t1 r1 L.was_free in
      let mid : List Op = ops ++ (i1 ++ (set_operand l1 0 t1 ∷ [])) in
      let move : move_release t1 r1 (extended (record g { regs = taken t1 }) r1 (i1 ++ (l1 ∷ [])))
          ≡ some (tt, full g mid (taken t1)) =
        move_release_lem g ops i1 l1 (set_bit r1 true (taken t1)) t1 r1 a1.in_range L.in_range ne
          L.target
        ∙ ap {B = Option (Unit {0} × Generator)} (λ (b : Allocator). some (tt, full g mid b))
            (free-set_bit r1 (taken t1) (pos_of_free r1 (taken t1) zero1 L.was_free) L.in_range
              L.was_free) in
      bind_some alloc_reg
        (λ t. left >>= λ lr.
          move_release t lr >> (if is_pipe op then pipe t call else apply_operator t right op))
        g (alloc_reg_lem g t1 a1.result)
      ∙ bind_some left
          (λ lr.
            move_release t1 lr >> (if is_pipe op then pipe t1 call else apply_operator t1 right op))
          (record g { regs = taken t1 }) L.result
      ∙ bind_some (move_release t1 r1)
          (λ _. if is_pipe op then pipe t1 call else apply_operator t1 right op)
          (extended (record g { regs = taken t1 }) r1 (i1 ++ (l1 ∷ []))) move
      ∙ ap
          (λ (b : Bool).
            (if b then pipe t1 call else apply_operator t1 right op) (full g mid (taken t1)))
          np
      ∙ apply_operator_lem right mid i2 t1 t2 r r2 l2 eo a1.was_free a1.in_range R a2 a
      ∙ ap (λ (q : List Op). some (r, full g q (set_bit r true g.regs)))
          (regroup ops (i1 ++ (set_operand l1 0 t1 ∷ [])) (i2 ++ (set_operand l2 0 t2 ∷ []))
            (op_regs o r t1 t2 ∷ []))
