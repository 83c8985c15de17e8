-- ===== src/Generator/Arith/Unary.antt =====
-- The unary minus.
use mylamina.Base.{ℕ, ◌<◌, ◌≡◌, ◌≢◌, refl, true, false}
use mylamina.Base.{List, [], ◌∷◌, ◌++◌, Option, some, arith, sym, ◌∙◌, ap, ℤ, pos, ◌-ℤ◌}
use mathlib.Core.Path.{subst}
use mylamina.Base.{fits64, append_assoc}
use Prim.Native.Nat.{max}
use mylamina.Opcode.{Op, sub, set_operand, new_op}
use mylamina.Emit.{op_mov_ri, op_regs, emit_mov_ri, emit_regs}
use mylamina.Vm.State.{VirtualCore, StackFrame, Host}
use mylamina.Vm.Steps.{arith64, checked}
use mylamina.Vm.Straight.{is_straight, IsStraight-append}
use mylamina.Vm.Effects.{execute-arith64, checked-fits64}
use mylamina.Alloc.{Allocator, set_bit, free}
use mylamina.Alloc.Laws.{
  Allocates, alloc-Allocates, free_count-set_bit, free-set_bit, free-set_bit_other, pos_of_free,
}
use mylamina.Scope.{CompilingFrame}
use mylamina.Generator.State.{
  Generator, Gen, u8, ◌>>=◌, ◌>>◌, alloc_reg, emit, free_reg, release_reg, set_release, return,
}
use mylamina.Generator.State.Laws.{bind_some}
use mylamina.Generator.Expr.{gen_unary, unary_op}
use mylamina.Generator.Arith.{full, extended, Compiles, Puts, minus, minus_inv}
use mylamina.Generator.Arith.Steps.{u8_small, taken_free}
use mylamina.Generator.Arith.Operators.{zero_stays}
use mylamina.Generator.Arith.Leaves.{num_computes}
use mylamina.Generator.Arith.Code.{Puts-two, set_operand_self}

module _ (host : Host) (frames : List CompilingFrame) where
  -- The registers of `gen_unary`: the operand's is given back, the result's stays.
  unary_bits :
      (bits : Allocator) (r1 t : ℕ)
      → bits 0 ≡ true
      → bits r1 ≡ false
      → r1 < 255
      → set_bit r1 true bits t ≡ false
      → free r1 (set_bit t true (set_bit r1 true bits)) ≡ set_bit t true bits
  unary_bits bits r1 t z f h ft =
      free-set_bit_other r1 t bits (pos_of_free r1 bits z f) h f
        (λ e. (taken_free bits r1 t ft).1 (sym e))

  -- what `gen_unary` does behind its operand
  abbrev behind_operand : ℕ → Gen ℕ
  behind_operand r = do
    tmp ← alloc_reg
    emit (emit_mov_ri (u8 tmp) 0)
    free_reg tmp
    result ← alloc_reg
    unary_op (b'-' ∷ []) result r tmp
    release_reg r
    set_release
    return result

  negated :
      (g : Generator) (ops : List Op) (r1 t : ℕ)
      → g.regs 0 ≡ true
      → g.regs r1 ≡ false
      → r1 < 255
      → Allocates (set_bit r1 true g.regs) t
      → behind_operand r1 (full g ops (set_bit r1 true g.regs))
        ≡ some (
          t,
          full g
              ((ops ++ (op_mov_ri t 0 ∷ [])) ++ (op_regs sub t t r1 ∷ []))
              (set_bit t true g.regs),
        )
  unfolding unary_op emit_mov_ri emit_regs
  negated g ops r1 t z f h a =
      let bits1 = set_bit r1 true g.regs in
      rw
        (
          a.result,
          u8_small t a.in_range,
          free-set_bit t bits1 (pos_of_free t bits1 (zero_stays r1 g.regs z) a.was_free) a.in_range
              a.was_free,
          a.result,
          u8_small t a.in_range,
          u8_small r1 h,
          unary_bits g.regs r1 t z f h a.was_free,
        )
        refl

  regroup3 : (a b c d : List Op) → ((a ++ b) ++ c) ++ d ≡ a ++ ((b ++ c) ++ d)
  regroup3 a b c d = simp append_assoc

  unary_result :
      (m : Gen ℕ) (g : Generator) (r1 t : ℕ) (i1 : List Op) (l1 : Op)
      → g.regs 0 ≡ true
      → g.regs r1 ≡ false
      → r1 < 255
      → m g ≡ some (r1, extended g r1 (i1 ++ (l1 ∷ [])))
      → Allocates (set_bit r1 true g.regs) t
      → gen_unary (b'-' ∷ []) m g
        ≡ some (
          t,
          extended g t (((i1 ++ (l1 ∷ [])) ++ (op_mov_ri t 0 ∷ [])) ++ (op_regs sub t t r1 ∷ [])),
        )
  unfolding gen_unary
  unary_result m g r1 t i1 l1 z f h e a =
      bind_some m behind_operand g e
      ∙ negated g (g.emitter.ops ++ (i1 ++ (l1 ∷ []))) r1 t z f h a
      ∙ ap {B = Option (ℕ × Generator)}
          (λ (q : List Op). some (t, full g q (set_bit t true g.regs)))
          (regroup3 g.emitter.ops (i1 ++ (l1 ∷ [])) (op_mov_ri t 0 ∷ []) (op_regs sub t t r1 ∷ []))

  minus_fits : (a : ℤ) {v : ℤ} → checked (pos 0 -ℤ a) ≡ some v → fits64 v ≡ true
  minus_fits a e = checked-fits64 (pos 0 -ℤ a) e

  was_taken : (bits : Allocator) (r i : ℕ) → set_bit r true bits i ≡ true → i ≢ r → bits i ≡ true
  was_taken bits r i h ne = ground arith

  Puts-self :
      (bits : Allocator) (c : List Op) (r : ℕ) (s : VirtualCore) {a : ℤ}
      → Puts host bits c s r a
      → Puts host (set_bit r true bits) c s r a
  Puts-self bits c r s (regs, e, h, k) =
      (regs, e, h, λ i taken ne. k i (was_taken bits r i taken ne) ne)

  -- The constant 0, then the subtraction of the operand's register.
  unary_computes :
      (bits : Allocator) (c1 : List Op) (r1 t d : ℕ) (s : VirtualCore) {a v : ℤ}
      → bits r1 ≡ false
      → r1 < 255
      → set_bit r1 true bits t ≡ false
      → t < 255
      → d < 255
      → Puts host bits c1 s r1 a
      → checked (pos 0 -ℤ a) ≡ some v
      → Puts host bits
          ((c1 ++ (op_mov_ri t 0 ∷ [])) ++ (set_operand (op_regs sub t t r1) 0 d ∷ []))
          s
          d
          v
  unfolding new_op arith64
  unary_computes bits c1 r1 t d s {a} {v} f1 h1 f2 h2 hd P e =
      Puts-two host bits (set_operand (op_regs sub t t r1) 0 d) c1 (op_mov_ri t 0 ∷ []) r1 t d s f1
        f2 (Puts-self bits c1 r1 s P)
        (λ s1 eq. num_computes host frames (set_bit r1 true bits) t 0 t s1 h2 (omega arith))
        (λ s2 ea eb. execute-arith64 host sub t t r1 d s2 refl h2 h1 hd eb ea e) (minus_fits a e)

  pub gen_unary-Compiles :
      (n : ℕ) (value : List StackFrame → Option ℤ) (m : Gen ℕ)
      → Compiles host frames n value m
      → Compiles host frames (max n 2) (λ stack. minus (value stack)) (gen_unary (b'-' ∷ []) m)
  unfolding new_op is_straight
  gen_unary-Compiles n value m c g cur z enough =
      let L = c g cur z (omega arith) in
      let (t, a) =
        alloc-Allocates (set_bit L.r true g.regs)
          (omega (arith, free_count-set_bit L.r g.regs L.in_range L.was_free)) in
      record {
        r = t;
        init = (L.init ++ (L.last ∷ [])) ++ (op_mov_ri t 0 ∷ []);
        last = op_regs sub t t L.r;
        was_free = (taken_free g.regs L.r t a.was_free).0;
        in_range = a.in_range;
        target = refl;
        result = unary_result m g L.r t L.init L.last z L.was_free L.in_range L.result a;
        straight =
            IsStraight-append (L.init ++ (L.last ∷ [])) (op_mov_ri t 0 ∷ [])
              (IsStraight-append L.init (L.last ∷ []) L.straight (L.last_straight, tt)) (refl, tt);
        last_straight = refl;
        computes = λ s d {v} hd ev.
            let (w, ew, e) = minus_inv (value s.cur) ev in
            unary_computes g.regs (L.init ++ (L.last ∷ [])) L.r t d s L.was_free L.in_range
              a.was_free a.in_range hd
              (subst (λ (o : Op). Puts host g.regs (L.init ++ (o ∷ [])) s L.r w)
                (set_operand_self L.last L.r L.target) (L.computes s L.r L.in_range ew))
              e;
      }
