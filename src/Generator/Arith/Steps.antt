-- ===== src/Generator/Arith/Steps.antt =====
-- The parts of `gen_binary`, on a generator where an operand has just been compiled.
use mylamina.Base.{ℕ, ◌<◌, ◌≡◌, ◌≢◌, refl, true, false, List, []}
use mylamina.Base.{◌∷◌, ◌++◌, some, append_assoc, arith}
use mylamina.Opcode.{Op, operand, set_operand}
use mylamina.Emit.{reg, emit_mov_rr}
use mylamina.Emit.Peephole.{emit_mov_rr-retargets}
use mylamina.Alloc.{Allocator, set_bit, alloc, free}
use mylamina.Generator.State.{Generator, alloc_reg, u8, emit_opt, release_reg}
use mylamina.Generator.State.Laws.{bind_some, emit_opt-some}
use mylamina.Generator.Expr.{move_release}
use mylamina.Generator.Arith.{full}
use mathlib.Core.Path.{fun_ext}

pub u8_small : (r : ℕ) → r < 255 → u8 r ≡ r
u8_small r h = omega arith

pub alloc_reg_lem :
    (g : Generator) (r : ℕ)
    → alloc g.regs ≡ (r, set_bit r true g.regs)
    → alloc_reg g ≡ some (r, record g { regs = set_bit r true g.regs })
alloc_reg_lem g r e = rw e refl

moved :
    (ops init : List Op) (last : Op) (t r : ℕ)
    → t ≢ r
    → operand last 0 ≡ r
    → emit_mov_rr t r (record { ops = ops ++ (init ++ (last ∷ [])); ret_type = reg })
      ≡ some (record { ops = ops ++ (init ++ (set_operand last 0 t ∷ [])); ret_type = reg })
moved ops init last t r ne e =
    rw (append_assoc ops init (last ∷ []), append_assoc ops init (set_operand last 0 t ∷ [])) at
      (emit_mov_rr-retargets (ops ++ init) last t r ne e)

-- The move of the operand in `r` to `t` only retargets the operand's last instruction, and
-- `r` is given back.
pub move_release_lem :
    (g : Generator) (ops init : List Op) (last : Op) (bits : Allocator) (t r : ℕ)
    → t < 255
    → r < 255
    → t ≢ r
    → operand last 0 ≡ r
    → move_release t r (full g (ops ++ (init ++ (last ∷ []))) bits)
      ≡ some (tt, full g (ops ++ (init ++ (set_operand last 0 t ∷ []))) (free r bits))
move_release_lem g ops init last bits t r ht hr ne e =
    let h : Generator = full g (ops ++ (init ++ (last ∷ []))) bits in
    rw (u8_small t ht, u8_small r hr)
      (bind_some (emit_opt (emit_mov_rr t r)) (λ _. release_reg r) h
        (emit_opt-some (emit_mov_rr t r) h (moved ops init last t r ne e)))

-- The last registers of `gen_binary`: the two operands are given back and the result stays.
pub released :
    (bits : Allocator) (t1 t2 r : ℕ)
    → 0 < t1
    → t1 < 255
    → bits t1 ≡ false
    → 0 < t2
    → t2 < 255
    → set_bit t1 true bits t2 ≡ false
    → set_bit t2 true (set_bit t1 true bits) r ≡ false
    → free t2 (free t1 (set_bit r true (set_bit t2 true (set_bit t1 true bits))))
      ≡ set_bit r true bits
unfolding free
released bits t1 t2 r p1 l1 f1 p2 l2 f2 fr = fun_ext λ j. ground arith

-- The result's register was free before, and is none of the operands'.
pub result_free :
    (bits : Allocator) (t1 t2 r : ℕ)
    → set_bit t2 true (set_bit t1 true bits) r ≡ false
    → bits r ≡ false
result_free bits t1 t2 r h = ground arith

pub taken_free :
    (bits : Allocator) (t r : ℕ) → set_bit t true bits r ≡ false → (bits r ≡ false) × (t ≢ r)
taken_free bits t r h = (ground arith, ground arith)
