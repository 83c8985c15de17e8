-- ===== src/Vm.antt =====
-- runtime/vm.hpp, vm.cpp and vmcall.cpp: the virtual core and its dispatch loop.
-- The registers are a function of the index; an index of 255 or more, a frame or a local that is
-- not there, a pop of an empty stack, the text of a null string, a `pc` outside the program, signed overflow and division
-- by zero are undefined in C++, and `fault` here. Both stacks are lists, last pushed first.
pub mod State
pub mod Steps
pub mod Straight
pub mod Effects
pub mod Calls
pub mod Locals
pub mod Blind
pub mod Trimmed
use mylamina.Base.{ℕ, zero, suc, ◌+◌, ◌%◌, true, false, ◌&&◌, ◌||◌}
use mylamina.Base.{◌∷◌, ◌++◌, Option, none, some, ◌>>=◌}
use mylamina.Base.{get_elem?}
use mylamina.Opcode.{
  Op, Opcode, mov_ri, mov_rm, mov_rr, mov_rc, mov_mi, mov_mm, mov_mr, mov_mc, add, sub, mul, div,
  mod_op, pow, halt, fcall, fret, debug_log, jmp, cmp_ge, cmp_lt, cmp_le, cmp_gt, cmp_eq, cmp_ne,
  if_true, if_false, func_create, func_end, local_get, local_set, and_op, or_op, vmc, dec, invalid,
  read_imm,
}
use mylamina.Value.{Value, assign_str, to_string}
use mylamina.Vm.State.{
  VirtualCore, Outcome, Host, update_reg, write, next, or_fault, running, returned, exited, fault,
}
use mylamina.Vm.Steps.{
  step_arith, step_compare, step_logic, step_pow, step_mov_ri, step_mov_rr, step_mov_rc, step_dec,
  step_if, step_local_get, step_local_set, step_fcall, step_fret, step_func_create,
}

-- `get_register(REG_COUNT_INDEX_MAX).i32`, as the exit status of the process: its low byte.
abbrev exit_status : Value → ℕ
exit_status v = v.bits % 256

module _ (host : Host) where
  -- `VMCall::vmcall_table[idx](this)`, then `pc++`.
  vmcall : ℕ → VirtualCore → Outcome
  vmcall zero s = or_fault (do
    t ← to_string host.libc s.text_at (s.regs 254)
    some (next (record s { out = s.out ++ t })))
  vmcall (suc zero) s =
      let (p, mem) = host.fgets s (s.regs 0).bits in
      running
        (next (record s { text_at = mem; regs = update_reg s.regs 0 (assign_str (s.regs 0) p) }))
  vmcall (suc (suc zero)) s = exited (exit_status (s.regs 254)) s
  vmcall (suc (suc (suc zero))) s = elim (host.load_library s (s.regs 254).bits) [
    | none ↦ exited 1 s
    | some p ↦ running (next (write s 0 (record (s.regs 0) { bits = p })))
  ]
  vmcall (suc (suc (suc (suc zero)))) s = elim (host.set_function s) [
    | none ↦ exited 1 s
    | some s' ↦ running (next s')
  ]
  vmcall (suc (suc (suc (suc (suc zero))))) s =
      or_fault (do s' ← host.call_function s; some (next s'))
  vmcall _ s = fault

  -- The `switch` of `VirtualCore::run`.
  unfoldable pub execute : Opcode → Op → VirtualCore → Outcome
  unfolding vmcall
  execute mov_ri o s = or_fault (step_mov_ri o s)
  execute mov_rm o s = running (next s)
  execute mov_rr o s = or_fault (step_mov_rr o s)
  execute mov_rc o s = or_fault (step_mov_rc o s)
  execute mov_mi o s = running (next s)
  execute mov_mm o s = running (next s)
  execute mov_mr o s = running (next s)
  execute mov_mc o s = running (next s)
  execute add o s = or_fault (step_arith o s)
  execute sub o s = or_fault (step_arith o s)
  execute mul o s = or_fault (step_arith o s)
  execute div o s = or_fault (step_arith o s)
  execute mod_op o s = or_fault (step_arith o s)
  execute pow o s = or_fault (step_pow host.libc o s)
  execute fcall o s = running (step_fcall o s)
  execute fret o s = or_fault (step_fret s)
  execute halt o s = returned 0 s
  execute debug_log o s =
      running (next (record s { log = s.text_at (s.const_pool_top + read_imm 8 o 0) ∷ s.log }))
  execute jmp o s = running (record s { pc = read_imm 8 o 0 })
  execute cmp_ge o s = or_fault (step_compare o s)
  execute cmp_lt o s = or_fault (step_compare o s)
  execute cmp_le o s = or_fault (step_compare o s)
  execute cmp_gt o s = or_fault (step_compare o s)
  execute cmp_eq o s = or_fault (step_compare o s)
  execute cmp_ne o s = or_fault (step_compare o s)
  execute if_true o s = or_fault (step_if true o s)
  execute if_false o s = or_fault (step_if false o s)
  execute func_create o s = or_fault (step_func_create s)
  execute func_end o s = running (next s)
  execute local_get o s = or_fault (step_local_get o s)
  execute local_set o s = or_fault (step_local_set o s)
  execute and_op o s = or_fault (step_logic ◌&&◌ o s)
  execute or_op o s = or_fault (step_logic ◌||◌ o s)
  execute vmc o s = vmcall (read_imm 2 o 0) s
  execute dec o s = or_fault (step_dec o s)
  execute (invalid b) o s = returned 1 s

  -- One pass of the loop.
  unfoldable pub step : VirtualCore → Outcome
  step s = elim (get_elem? s.program s.pc) [ none ↦ fault | some o ↦ execute o.op o s ]

  -- `VirtualCore::run` for at most `fuel` instructions; `none` when they are used up.
  unfoldable pub run : ℕ → VirtualCore → Option Outcome
  run zero s = none
  run (suc fuel) s = elim (step s) [
    | running t ↦ run fuel t
    | returned c t ↦ some (returned c t)
    | exited c t ↦ some (exited c t)
    | fault ↦ some fault
  ]
