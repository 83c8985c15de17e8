-- ===== src/Emit/Decode.antt =====
-- The operands of compiler/generator/emit.cpp as runtime/vm.cpp reads them.
use mylamina.Base.{ℕ, ◌^◌, ◌<◌, ◌≡◌, refl, arith, of_le-le_bytes, le_bytes}
use mylamina.Opcode.{Opcode, operand, read_imm, set_operand, new_op}
use mylamina.Emit.{op_mov_ri, op_local_get, op_local_set, op_jmp, op_if, op_fcall}

-- `r1` may have been overwritten by a later `emit_mov_rr`: `d` is what stands there now.
pub decode_mov_ri :
    (r1 d imm : ℕ) → imm < 2 ^ 64 → read_imm 8 (set_operand (op_mov_ri r1 imm) 0 d) 1 ≡ imm
unfolding new_op le_bytes
decode_mov_ri r1 d imm h = of_le-le_bytes 8 imm (omega arith)

pub decode_local_get :
    (r1 s idx d : ℕ)
    → idx < 2 ^ 16
    → (operand (set_operand (op_local_get r1 s idx) 0 d) 1 ≡ s)
      × (read_imm 2 (set_operand (op_local_get r1 s idx) 0 d) 2 ≡ idx)
unfolding new_op le_bytes
decode_local_get r1 s idx d h = (refl, of_le-le_bytes 2 idx (omega arith))

pub decode_local_set :
    (s idx r2 : ℕ)
    → idx < 2 ^ 16
    → (operand (op_local_set s idx r2) 0 ≡ s)
      × (read_imm 2 (op_local_set s idx r2) 1 ≡ idx)
      × (operand (op_local_set s idx r2) 3 ≡ r2)
unfolding new_op le_bytes
decode_local_set s idx r2 h = (refl, of_le-le_bytes 2 idx (omega arith), refl)

pub decode_jmp : (idx : ℕ) → idx < 2 ^ 64 → read_imm 8 (op_jmp idx) 0 ≡ idx
unfolding new_op le_bytes
decode_jmp idx h = of_le-le_bytes 8 idx (omega arith)

pub decode_if :
    (o : Opcode) (r idx : ℕ)
    → idx < 2 ^ 64
    → (operand (op_if o r idx) 0 ≡ r) × (read_imm 8 (op_if o r idx) 1 ≡ idx)
unfolding new_op le_bytes
decode_if o r idx h = (refl, of_le-le_bytes 8 idx (omega arith))

pub decode_fcall :
    (idx ac : ℕ)
    → idx < 2 ^ 64
    → (read_imm 8 (op_fcall idx ac) 0 ≡ idx) × (operand (op_fcall idx ac) 8 ≡ ac)
unfolding new_op le_bytes
decode_fcall idx ac h = (of_le-le_bytes 8 idx (omega arith), refl)
