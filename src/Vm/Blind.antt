-- ===== src/Vm/Blind.antt =====
-- runtime/vm.cpp: what a pass of the machine does with another program in the same state.
use mylamina.Base.{
  ◌>>=◌, ◌++◌, ℕ, zero, suc, ◌≡◌, refl, List, Option, none, some, arith, length, drop,
}
use mylamina.Opcode.{Op, Opcode, mov_ri, vmc, func_create, read_imm, opcode_len}
use mylamina.Vm.{execute, vmcall}
use mylamina.Value.{to_string}
use mylamina.Vm.State.{or_fault, next, VirtualCore, Host, Outcome, running, returned, exited, fault}
use mylamina.Vm.Steps.{
  step_arith, step_compare, step_logic, step_pow, step_mov_ri, step_mov_rr, step_mov_rc, step_dec,
  step_local_get, step_local_set, step_if, step_fcall, step_fret, step_func_create, after_func_end,
}

-- The state with another program.
abbrev pub with_program : List Op → VirtualCore → VirtualCore
with_program p s = record s { program = p }

unfoldable pub outcome_with : List Op → Outcome → Outcome
outcome_with p (running s) = running (with_program p s)
outcome_with p (returned c s) = returned c (with_program p s)
outcome_with p (exited c s) = exited c (with_program p s)
outcome_with p fault = fault

unfoldable pub stopped_with : List Op → Option Outcome → Option Outcome
stopped_with p none = none
stopped_with p (some r) = some (outcome_with p r)

-- 12 operand bytes.
abbrev pub IsTwelve : Op → Type 0
IsTwelve o = length o.operands ≡ 12

abbrev core_with : List Op → Option VirtualCore → Option VirtualCore
core_with p none = none
core_with p (some s) = some (with_program p s)

-- What the host does neither depends on the program nor changes it.
pub record IsBlind (host : Host) : Type 0 where
  pub reads :
      (p : List Op) (s : VirtualCore) (i : ℕ) → host.fgets (with_program p s) i ≡ host.fgets s i
  pub loads :
      (p : List Op) (s : VirtualCore) (i : ℕ)
      → host.load_library (with_program p s) i ≡ host.load_library s i
  pub sets :
      (p : List Op) (s : VirtualCore)
      → host.set_function (with_program p s) ≡ core_with p (host.set_function s)
  pub calls :
      (p : List Op) (s : VirtualCore)
      → host.call_function (with_program p s) ≡ core_with p (host.call_function s)

module _ (host : Host) (blind : IsBlind host) where
  shown-with :
      (p : List Op) (s : VirtualCore) (o : Option (List ℕ))
      → or_fault (do t ← o; some (next (record (with_program p s) { out = s.out ++ t })))
        ≡ outcome_with p (or_fault (do t ← o; some (next (record s { out = s.out ++ t }))))
  unfolding outcome_with
  shown-with p s none = refl
  shown-with p s (some t) = refl

  vmcall-with :
      (i : ℕ) (p : List Op) (s : VirtualCore)
      → vmcall host i (with_program p s) ≡ outcome_with p (vmcall host i s)
  unfolding vmcall outcome_with
  vmcall-with zero p s = shown-with p s (to_string host.libc s.text_at (s.regs 254))
  vmcall-with (suc zero) p s = rw (blind.reads p s (s.regs 0).bits) refl
  vmcall-with (suc (suc zero)) p s = refl
  vmcall-with (suc (suc (suc zero))) p s = ground (arith, blind.loads p s (s.regs 254).bits)
  vmcall-with (suc (suc (suc (suc zero)))) p s = ground (arith, blind.sets p s)
  vmcall-with (suc (suc (suc (suc (suc zero))))) p s = ground (arith, blind.calls p s)
  vmcall-with _ p s = refl

  -- A function ends where it ended.
  pub execute-with :
      (c : Opcode) (o : Op) (p : List Op) (s : VirtualCore)
      → after_func_end (drop s.pc p) s.pc ≡ after_func_end (drop s.pc s.program) s.pc
      → execute host c o (with_program p s) ≡ outcome_with p (execute host c o s)
  unfolding opcode_len execute outcome_with step_arith step_compare step_logic step_pow step_mov_ri
      step_mov_rr step_mov_rc step_dec step_local_get step_local_set step_if step_fcall step_fret
      step_func_create
  execute-with func_create o p s h = ground (arith, h)
  execute-with vmc o p s h = vmcall-with (read_imm 2 o 0) p s
  execute-with mov_ri o p s h = ground arith
  execute-with _ o p s h = ground arith
