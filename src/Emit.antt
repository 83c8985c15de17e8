-- ===== src/Emit.antt =====
-- compiler/generator/emit.cpp: `LMXOpcodeEmitter`, which appends instructions to a program.
-- `ret_type`, a static of the class, is a field beside the vector `ops` that the calls share.
-- An immediate is the bit pattern of its integer, so `std::bit_cast<int64_t>(idx)` is `idx`.
-- `none` is the undefined `ops.back()` of an empty vector.
pub mod Decode
pub mod Peephole
pub mod Shape
use mylamina.Base.{ℕ, ◌+◌, List, [], ◌∷◌, ◌++◌, Option, some, ◌==◌}
use mylamina.Base.{if◌then◌else◌, get_last?, set_last, le_bytes, ◌>>=◌}
use mylamina.Opcode.{
  Op, Opcode, mov_ri, mov_rr, mov_rc, halt, fcall, fret, debug_log, jmp, if_true, if_false,
  func_create, func_end, local_get, local_set, vmc, dec, new_op, operand, set_operand,
  copy_operands,
}

-- `enum Ret_Type { None, Reg, Addr }`
pub data RetType : Type 0 where
  nothing reg addr : RetType

pub record Emitter : Type 0 where
  pub ops : List Op
  pub ret_type : RetType

-- `write_imm` for a 64-bit and a 16-bit immediate.
abbrev pub write_imm64 : Op → ℕ → ℕ → Op
write_imm64 o offset imm = copy_operands o offset (le_bytes 8 imm)

abbrev pub write_imm16 : Op → ℕ → ℕ → Op
write_imm16 o offset imm = copy_operands o offset (le_bytes 2 imm)

-- `write_regs(op.operands, r1, r2, r3)`
abbrev pub write_regs : Op → List ℕ → Op
write_regs o rs = copy_operands o 0 rs

-- `ops.push_back(op); ret_type = t;`
abbrev push : Op → RetType → Emitter → Emitter
push o t e = record { ops = e.ops ++ (o ∷ []); ret_type = t }

abbrev pub op_mov_ri : ℕ → ℕ → Op
op_mov_ri r1 imm = write_imm64 (set_operand (new_op mov_ri) 0 r1) 1 imm

abbrev pub op_mov_rr : ℕ → ℕ → Op
op_mov_rr r1 r2 = set_operand (set_operand (new_op mov_rr) 0 r1) 1 r2

-- An instruction with three registers.
abbrev pub op_regs : Opcode → ℕ → ℕ → ℕ → Op
op_regs o r1 r2 r3 = write_regs (new_op o) (r1 ∷ r2 ∷ r3 ∷ [])

abbrev pub op_local_get : ℕ → ℕ → ℕ → Op
op_local_get r1 s idx = write_imm16 (set_operand (set_operand (new_op local_get) 0 r1) 1 s) 2 idx

abbrev pub op_local_set : ℕ → ℕ → ℕ → Op
op_local_set s idx r2 = set_operand (write_imm16 (set_operand (new_op local_set) 0 s) 1 idx) 3 r2

abbrev pub op_jmp : ℕ → Op
op_jmp idx = write_imm64 (new_op jmp) 0 idx

-- `IF_TRUE` and `IF_FALSE`: a register, then the target.
abbrev pub op_if : Opcode → ℕ → ℕ → Op
op_if o r idx = write_imm64 (set_operand (new_op o) 0 r) 1 idx

abbrev pub op_fcall : ℕ → ℕ → Op
op_fcall idx ac = set_operand (write_imm64 (new_op fcall) 0 idx) 8 ac

abbrev pub op_dec : ℕ → Op
op_dec r = set_operand (new_op dec) 0 r

unfoldable pub emit_mov_ri : ℕ → ℕ → Emitter → Emitter
emit_mov_ri r1 imm = push (op_mov_ri r1 imm) reg

-- the comparison with the last instruction, which has been found
retarget : ℕ → ℕ → Emitter → Op → Emitter
retarget r1 r2 e last =
    if operand last 0 == r2
    then record e { ops = set_last e.ops (set_operand last 0 r1) }
    else push (op_mov_rr r1 r2) reg e

mov_rr_on : RetType → ℕ → ℕ → Emitter → Option Emitter
mov_rr_on reg r1 r2 e = do last ← get_last? e.ops; some (retarget r1 r2 e last)
mov_rr_on _ r1 r2 e = some (push (op_mov_rr r1 r2) reg e)

-- With `ret_type == Reg` and the source as the first operand of the last instruction, that
-- instruction gets the new target and nothing is appended.
unfoldable pub emit_mov_rr : ℕ → ℕ → Emitter → Option Emitter
unfolding retarget mov_rr_on
emit_mov_rr r1 r2 e = if r1 == r2 then some e else mov_rr_on e.ret_type r1 r2 e

-- `emit_add`, `emit_sub`, `emit_mul`, `emit_div`, `emit_mod`, `emit_pow`, the six `emit_cmp_…`,
-- `emit_and` and `emit_or`: one body, with the opcode as an argument.
unfoldable pub emit_regs : Opcode → ℕ → ℕ → ℕ → Emitter → Emitter
emit_regs o r1 r2 r3 = push (op_regs o r1 r2 r3) reg

unfoldable pub emit_fcall : ℕ → ℕ → Emitter → Emitter
emit_fcall idx ac = push (op_fcall idx ac) nothing

unfoldable pub emit_halt : Emitter → Emitter
emit_halt = push (new_op halt) nothing

fret_after : Opcode → Emitter → Emitter
fret_after fret e = e
fret_after _ e = push (new_op fret) reg e

unfoldable pub emit_fret : Emitter → Option Emitter
unfolding fret_after
emit_fret e = do last ← get_last? e.ops; some (fret_after last.op e)

unfoldable pub emit_debug_log : ℕ → Emitter → Emitter
emit_debug_log idx = push (write_imm64 (new_op debug_log) 0 idx) nothing

unfoldable pub emit_jmp : ℕ → Emitter → Emitter
emit_jmp idx = push (op_jmp idx) nothing

unfoldable pub emit_if_true : ℕ → ℕ → Emitter → Emitter
emit_if_true r idx = push (op_if if_true r idx) nothing

unfoldable pub emit_if_false : ℕ → ℕ → Emitter → Emitter
emit_if_false r idx = push (op_if if_false r idx) nothing

unfoldable pub emit_func_create : Emitter → Emitter
emit_func_create = push (new_op func_create) nothing

unfoldable pub emit_func_end : Emitter → Emitter
emit_func_end = push (new_op func_end) nothing

-- `getter_opt_code` is empty, since `SHOULD_OPT` is false.
unfoldable pub emit_local_get : ℕ → ℕ → ℕ → Emitter → Emitter
emit_local_get r1 s idx = push (op_local_get r1 s idx) reg

unfoldable pub emit_local_set : ℕ → ℕ → ℕ → Emitter → Emitter
emit_local_set s idx r2 = push (op_local_set s idx r2) addr

unfoldable pub emit_vmc : ℕ → Emitter → Emitter
emit_vmc idx = push (write_imm16 (new_op vmc) 0 idx) nothing

-- These two leave `ret_type` as it was.
unfoldable pub emit_mov_rc : ℕ → ℕ → Emitter → Emitter
emit_mov_rc r1 idx e = push (write_imm64 (set_operand (new_op mov_rc) 0 r1) 1 idx) e.ret_type e

unfoldable pub emit_dec : ℕ → Emitter → Emitter
emit_dec r e = push (op_dec r) e.ret_type e
