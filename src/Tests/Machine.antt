-- ===== src/Tests/Machine.antt =====
-- Calls and values at concrete states.
use mylamina.Base.{ℕ, ◌+◌, ◌-◌, ◌<◌, ◌≤◌, ◌≡◌, refl, true, List, [], ◌∷◌, ◌++◌, some, pos}
use mylamina.Base.{
  ℤ, negsuc, quot, rem, none, ◌^◌, ◌>>=◌, of_le, ◌+ℤ◌, signed64, arith, not, length,
}
use mylamina.Opcode.{
  Op, add, mov_rr, fcall, local_get, func_create, func_end, halt, new_op, operand, set_operand,
  read_imm,
}
use mylamina.Emit.{op_regs}
use mylamina.Value.{Value, int, default_value, assign_i64, assign_copy, value_eq, value_ne}
use mylamina.Vm.{execute, run}
use mylamina.Vm.State.{VirtualCore, running, reg_count_index_max}
use mylamina.Vm.Steps.{step_fcall, step_fret, step_local_get, step_func_create, step_mov_rr}
use mylamina.Vm.Effects.{execute-arith, wrote}
use mylamina.Vm.Straight.{run_straight, execs, is_straight}
use mylamina.Vm.Calls.{step_fcall-step_fret, step_fcall-local_get, step_func_create-skips, is_whole}
use mylamina.Value.Laws.{value_eq-assign_copy, value_ne-value_eq}
use mylamina.Vm.Locals.{local_of, step_local_set-local_get}
use mylamina.Opcode.{local_set}
use mylamina.Vm.State.{StackFrame}
use mylamina.Vm.Steps.{step_local_set}
use mylamina.Base.{◌≢◌}
use mylamina.Tests.Hosts.{plain_libc, plain_host}
use mylamina.Generator.Arith.Meaning.{meaning}

abbrev five : Value
five = record { type = int; bits = 5 }

-- All registers hold 5.
abbrev core : VirtualCore
core = record {
  pc = 0;
  regs = λ i. five;
  ret_addr_stack = [];
  program = new_op func_create ∷ new_op add ∷ new_op func_end ∷ [];
  cur = record { locals = default_value ∷ []; save_regs = [] } ∷ [];
  const_pool_top = 0;
  text_at = λ p. [];
  out = [];
  log = [];
}

-- A call of address 1 with one argument.
abbrev call_op : Op
call_op = set_operand (set_operand (new_op fcall) 0 1) 8 1

-- The state of the callee when it has overwritten its registers.
abbrev callee : VirtualCore
callee = record (step_fcall call_op core) { pc = 2; regs = λ i. default_value }

step_fcall-step_fret_example :
    (u : VirtualCore) × (step_fret callee ≡ some u)
    × (u.pc ≡ core.pc + 1)
    × (u.cur ≡ core.cur)
    × (u.ret_addr_stack ≡ core.ret_addr_stack)
    × ((i : ℕ) → 0 < i → i ≤ 3 → is_whole (core.regs i).type ≡ true → u.regs i ≡ core.regs i)
    × ((i : ℕ) → 3 < i → u.regs i ≡ callee.regs i)
    × (u.regs 0 ≡ callee.regs 0)
unfolding step_fcall new_op
step_fcall-step_fret_example = step_fcall-step_fret call_op core callee _ refl refl

abbrev get_op : Op
get_op = set_operand (new_op local_get) 0 9

step_fcall-local_get_example :
    (t : VirtualCore) × (step_local_get get_op (step_fcall call_op core) ≡ some t)
    × (t.regs (operand get_op 0) ≡ core.regs (reg_count_index_max - read_imm 2 get_op 2))
    × (t.pc ≡ (step_fcall call_op core).pc + 1)
    × (t.cur ≡ (step_fcall call_op core).cur)
unfolding new_op of_le
step_fcall-local_get_example =
    step_fcall-local_get call_op get_op core (omega arith) refl (omega arith) refl

step_func_create-skips_example :
    step_func_create core
    ≡ some (record core { pc = 0 + length (new_op func_create ∷ new_op add ∷ []) + 1 })
unfolding new_op
step_func_create-skips_example =
    step_func_create-skips core [] (new_op func_create ∷ new_op add ∷ []) (new_op func_end) [] refl
      refl (refl, (refl, tt)) refl

execute-arith_example :
    execute plain_host add (set_operand (op_regs add 3 1 2) 0 4) core
    ≡ running (wrote core 4 (assign_i64 (core.regs 4) (pos 10)))
unfolding ◌+ℤ◌ signed64
execute-arith_example =
    execute-arith plain_host add 3 1 2 4 core (some (pos 10)) refl (omega arith) (omega arith)
      (omega arith) refl refl (refl, refl)

-- Two moves and a HALT, and the first state without a place on the stack.
abbrev moves : List Op
moves = new_op mov_rr ∷ new_op mov_rr ∷ []

abbrev at_moves : VirtualCore
at_moves = record core { program = [] ++ (moves ++ (new_op halt ∷ [])) }

abbrev moved : VirtualCore
moved = wrote (wrote at_moves 0 five) 0 five

run_straight_example :
    (run plain_host (length moves + 1) at_moves ≡ run plain_host 1 moved)
    × (moved.pc ≡ 0 + length moves)
    × (moved.program ≡ at_moves.program)
unfolding new_op execs execute step_mov_rr assign_copy is_straight
run_straight_example =
    run_straight plain_host moves [] (new_op halt ∷ []) 1 at_moves (refl, (refl, tt)) refl refl refl

value_eq-assign_copy_example :
    value_eq plain_libc (λ p. []) (assign_copy default_value five) five ≡ some true
value_eq-assign_copy_example =
    value_eq-assign_copy plain_libc (λ p. []) default_value five (λ e. cc) (λ e. cc) (λ e. cc)

value_ne-value_eq_example :
    value_ne plain_libc (λ p. []) five default_value
    ≡ (do b ← value_eq plain_libc (λ p. []) five default_value; some (not b))
value_ne-value_eq_example = value_ne-value_eq plain_libc (λ p. []) five default_value

abbrev put_op : Op
put_op = set_operand (new_op local_set) 3 2

abbrev only_frame : StackFrame
only_frame = record { locals = default_value ∷ []; save_regs = [] }

step_local_set-local_get_example :
    (t : VirtualCore) × (u : VirtualCore) × (step_local_set put_op core ≡ some t)
    × (step_local_get get_op t ≡ some u)
    × (u.regs (operand get_op 0) ≡ core.regs (operand put_op 3))
    × ((k : ℕ)
        → read_imm 2 put_op 1 ≢ k
        → local_of u.cur (operand put_op 0) k ≡ local_of core.cur (operand put_op 0) k)
unfolding new_op of_le
step_local_set-local_get_example =
    step_local_set-local_get put_op get_op core only_frame default_value refl refl (omega arith)
      (omega arith) refl refl refl

-- -7 / 2 is -3, -7 % 2 is -1 and 7 / -2 is -3; nothing is divided by 0, and the smallest integer has
-- no quotient by -1.
meaning_rounds : meaning (b'/' ∷ []) (negsuc 6) (pos 2) ≡ some (negsuc 2)
unfolding quot
meaning_rounds = refl

meaning_rounds_up : meaning (b'/' ∷ []) (pos 7) (negsuc 1) ≡ some (negsuc 2)
unfolding quot
meaning_rounds_up = refl

meaning_keeps_sign : meaning (b'%' ∷ []) (negsuc 6) (pos 2) ≡ some (negsuc 0)
unfolding quot rem
meaning_keeps_sign = refl

meaning_of_zero : (x : ℤ) → meaning (b'/' ∷ []) x (pos 0) ≡ none
meaning_of_zero x = refl

meaning_overflows : meaning (b'%' ∷ []) (negsuc (2 ^ 63 - 1)) (negsuc 0) ≡ none
unfolding quot
meaning_overflows = refl
