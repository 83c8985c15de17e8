-- ===== src/Emit/Peephole.antt =====
-- `emit_mov_rr` after an instruction that wrote the source register.
use mylamina.Base.{ℕ, ◌≡◌, ◌≢◌, refl, ◌++◌, List, [], ◌∷◌, some, arith, ◌==◌}
use mylamina.Base.{get_last?-concat, set_last-concat}
use mylamina.Base.{false, ==_refl}
use mylamina.Opcode.{Op, operand, set_operand}
use mylamina.Emit.{reg, emit_mov_rr}

eqb_ne : (a b : ℕ) → a ≢ b → (a == b) ≡ false
eqb_ne a b h = ground arith

-- If the last emitter left a register behind, the last instruction has the first operand r, and t
-- is not r, the move of r to t emits nothing and sets the first operand of that instruction to t.
pub emit_mov_rr-retargets :
    (ops : List Op) (last : Op) (t r : ℕ)
    → t ≢ r
    → operand last 0 ≡ r
    → emit_mov_rr t r (record { ops = ops ++ (last ∷ []); ret_type = reg })
      ≡ some (record { ops = ops ++ (set_operand last 0 t ∷ []); ret_type = reg })
unfolding emit_mov_rr
emit_mov_rr-retargets ops last t r ne e =
    rw (eqb_ne t r ne, get_last?-concat ops last, e, ==_refl r, set_last-concat ops last) refl
