-- ===== src/Vm/Trimmed.antt =====
-- The instructions of runtime/vm.cpp read no operand that a binary file does not keep.
use mathlib.Core.Option.{some-injective, none-ne-some}
use mylamina.Base.{
  ℕ, zero, suc, ◌+◌, ◌≡◌, refl, List, [], ◌∷◌, map, Option, none, some, arith, sym, ◌∙◌, ap, length,
  drop, get_elem?, All, get_elem?-map, drop-map,
}
use mylamina.Opcode.{Op, Opcode, mov_ri, opcode_len}
use mylamina.Loader.Trim.{trimmed}
use mylamina.Vm.Blind.{with_program, outcome_with, stopped_with, IsTwelve, IsBlind, execute-with}
use mylamina.Vm.{execute, step, run}
use mylamina.Vm.State.{VirtualCore, Host, Outcome, running, returned, exited, fault}
use mylamina.Vm.Steps.{
  step_arith, step_compare, step_logic, step_pow, step_mov_ri, step_mov_rr, step_mov_rc, step_dec,
  step_local_get, step_local_set, step_if, step_fcall, after_func_end,
}

module _ (host : Host) where
  execute-trimmed_bytes :
      (c : Opcode) (b0 b1 b2 b3 b4 b5 b6 b7 b8 b9 b10 b11 : ℕ) (s : VirtualCore)
      → (let o : Op = record {
        op = c;
        operands = b0 ∷ b1 ∷ b2 ∷ b3 ∷ b4 ∷ b5 ∷ b6 ∷ b7 ∷ b8 ∷ b9 ∷ b10 ∷ b11 ∷ [];
      } in
          execute host c (trimmed o) s ≡ execute host c o s)
  unfolding opcode_len execute step_arith step_compare step_logic step_pow step_mov_ri step_mov_rr
      step_mov_rc step_dec step_local_get step_local_set step_if step_fcall
  execute-trimmed_bytes mov_ri b0 b1 b2 b3 b4 b5 b6 b7 b8 b9 b10 b11 s = refl
  execute-trimmed_bytes _ b0 b1 b2 b3 b4 b5 b6 b7 b8 b9 b10 b11 s = refl

  -- By the length of the operands.
  execute-twelve :
      (c : Opcode) (l : List ℕ) (s : VirtualCore)
      → length l ≡ 12
      → (let o : Op = record { op = c; operands = l } in
          execute host c (trimmed o) s ≡ execute host c o s)
  execute-twelve c (b0 ∷ b1 ∷ b2 ∷ b3 ∷ b4 ∷ b5 ∷ b6 ∷ b7 ∷ b8 ∷ b9 ∷ b10 ∷ b11 ∷ []) s h =
      execute-trimmed_bytes c b0 b1 b2 b3 b4 b5 b6 b7 b8 b9 b10 b11 s
  execute-twelve c [] s h = absurd (omega (arith, h))
  execute-twelve c (b0 ∷ []) s h = absurd (omega (arith, h))
  execute-twelve c (b0 ∷ b1 ∷ []) s h = absurd (omega (arith, h))
  execute-twelve c (b0 ∷ b1 ∷ b2 ∷ []) s h = absurd (omega (arith, h))
  execute-twelve c (b0 ∷ b1 ∷ b2 ∷ b3 ∷ []) s h = absurd (omega (arith, h))
  execute-twelve c (b0 ∷ b1 ∷ b2 ∷ b3 ∷ b4 ∷ []) s h = absurd (omega (arith, h))
  execute-twelve c (b0 ∷ b1 ∷ b2 ∷ b3 ∷ b4 ∷ b5 ∷ []) s h = absurd (omega (arith, h))
  execute-twelve c (b0 ∷ b1 ∷ b2 ∷ b3 ∷ b4 ∷ b5 ∷ b6 ∷ []) s h = absurd (omega (arith, h))
  execute-twelve c (b0 ∷ b1 ∷ b2 ∷ b3 ∷ b4 ∷ b5 ∷ b6 ∷ b7 ∷ []) s h = absurd (omega (arith, h))
  execute-twelve c (b0 ∷ b1 ∷ b2 ∷ b3 ∷ b4 ∷ b5 ∷ b6 ∷ b7 ∷ b8 ∷ []) s h = absurd (omega (arith, h))
  execute-twelve c (b0 ∷ b1 ∷ b2 ∷ b3 ∷ b4 ∷ b5 ∷ b6 ∷ b7 ∷ b8 ∷ b9 ∷ []) s h =
      absurd (omega (arith, h))
  execute-twelve c (b0 ∷ b1 ∷ b2 ∷ b3 ∷ b4 ∷ b5 ∷ b6 ∷ b7 ∷ b8 ∷ b9 ∷ b10 ∷ []) s h =
      absurd (omega (arith, h))
  execute-twelve c (b0 ∷ b1 ∷ b2 ∷ b3 ∷ b4 ∷ b5 ∷ b6 ∷ b7 ∷ b8 ∷ b9 ∷ b10 ∷ b11 ∷ b12 ∷ l) s h =
      absurd (omega (arith, h))

after_func_end-map : (p : List Op) (i : ℕ) → after_func_end (map trimmed p) i ≡ after_func_end p i
unfolding after_func_end
after_func_end-map [] i = refl
after_func_end-map (o ∷ os) i = rw (after_func_end-map os (i + 1)) refl

IsTwelve-get_elem? :
    (p : List Op) (i : ℕ) (o : Op) → All IsTwelve p → get_elem? p i ≡ some o → IsTwelve o
IsTwelve-get_elem? [] i o h e = absurd (none-ne-some o e)
IsTwelve-get_elem? (x ∷ xs) zero o (h, hs) e = rw (sym (some-injective x o e)) h
IsTwelve-get_elem? (x ∷ xs) (suc i) o (h, hs) e = IsTwelve-get_elem? xs i o hs e

-- The program behind a pass that goes on.
program_of : List Op → Outcome → List Op
program_of p (running t) = t.program
program_of p _ = p

abbrev executed : Host → VirtualCore → Option Op → Outcome
executed host s none = fault
executed host s (some o) = execute host o.op o s

step_of :
    (host : Host) (s : VirtualCore) (x : Option Op)
    → elim x as (λ _. Outcome) [ none ↦ fault | some o ↦ execute host o.op o s ] ≡ executed host s x
step_of host s none = refl
step_of host s (some o) = refl

step_lem :
    (host : Host) (s : VirtualCore) → step host s ≡ executed host s (get_elem? s.program s.pc)
unfolding step
step_lem host s = step_of host s (get_elem? s.program s.pc)

abbrev going_on : Host → ℕ → Outcome → Option Outcome
going_on host fuel (running t) = run host fuel t
going_on host fuel (returned c t) = some (returned c t)
going_on host fuel (exited c t) = some (exited c t)
going_on host fuel fault = some fault

run_of :
    (host : Host) (fuel : ℕ) (r : Outcome)
    → elim r as (λ _. Option Outcome) [
      | running t ↦ run host fuel t
      | returned c t ↦ some (returned c t)
      | exited c t ↦ some (exited c t)
      | fault ↦ some fault
    ]
      ≡ going_on host fuel r
run_of host fuel (running t) = refl
run_of host fuel (returned c t) = refl
run_of host fuel (exited c t) = refl
run_of host fuel fault = refl

run_lem :
    (host : Host) (fuel : ℕ) (s : VirtualCore)
    → run host (suc fuel) s ≡ going_on host fuel (step host s)
unfolding run
run_lem host fuel s = run_of host fuel (step host s)

module _ (host : Host) (blind : IsBlind host) where
  execute_keeps :
      (c : Opcode) (o : Op) (s t : VirtualCore)
      → execute host c o s ≡ running t
      → t.program ≡ s.program
  unfolding program_of outcome_with
  execute_keeps c o s t e =
      ap (program_of [])
        (sym e ∙ execute-with host blind c o s.program s refl ∙ ap (outcome_with s.program) e)

  executed_keeps :
      (s t : VirtualCore) (x : Option Op) → executed host s x ≡ running t → t.program ≡ s.program
  executed_keeps s t none e = cc
  executed_keeps s t (some o) e = execute_keeps o.op o s t e

  fetched :
      (s : VirtualCore) (x : Option Op)
      → ((o : Op) → x ≡ some o → IsTwelve o)
      → executed host
          (with_program (map trimmed s.program) s)
          (elim x [ none ↦ none | some o ↦ some (trimmed o) ])
        ≡ outcome_with (map trimmed s.program) (executed host s x)
  unfolding outcome_with
  fetched s none h = refl
  fetched s (some o) h =
      execute-twelve host o.op o.operands (with_program (map trimmed s.program) s) (h o refl)
      ∙ execute-with host blind o.op o (map trimmed s.program) s (
          ap (λ (l : List Op). after_func_end l s.pc) (drop-map trimmed s.pc s.program)
          ∙ after_func_end-map (drop s.pc s.program) s.pc)

  step-trimmed :
      (s : VirtualCore)
      → All IsTwelve s.program
      → step host (with_program (map trimmed s.program) s)
        ≡ outcome_with (map trimmed s.program) (step host s)
  step-trimmed s h =
      let t = with_program (map trimmed s.program) s in
      step_lem host t
      ∙ ap (executed host t) (get_elem?-map trimmed s.program s.pc)
      ∙ fetched s (get_elem? s.program s.pc) (λ o e. IsTwelve-get_elem? s.program s.pc o h e)
      ∙ ap (outcome_with (map trimmed s.program)) (sym (step_lem host s))

  going_on-with :
      (p : List Op) (fuel : ℕ) (r : Outcome)
      → ((t : VirtualCore)
          → r ≡ running t
          → run host fuel (with_program p t) ≡ stopped_with p (run host fuel t))
      → going_on host fuel (outcome_with p r) ≡ stopped_with p (going_on host fuel r)
  unfolding outcome_with stopped_with
  going_on-with p fuel (running t) h = h t refl
  going_on-with p fuel (returned c t) h = refl
  going_on-with p fuel (exited c t) h = refl
  going_on-with p fuel fault h = refl

  runs_of :
      (p : List Op) (fuel : ℕ) (s : VirtualCore)
      → All IsTwelve p
      → s.program ≡ p
      → run host fuel (with_program (map trimmed p) s)
        ≡ stopped_with (map trimmed p) (run host fuel s)
  unfolding run stopped_with
  runs_of p zero s h e = refl
  runs_of p (suc fuel) s h e =
      run_lem host fuel (with_program (map trimmed p) s)
      ∙ ap (going_on host fuel) (
          ap (λ (q : List Op). step host (with_program (map trimmed q) s)) (sym e)
          ∙ step-trimmed s (rw e h)
          ∙ ap (λ (q : List Op). outcome_with (map trimmed q) (step host s)) e)
      ∙ going_on-with (map trimmed p) fuel (step host s) (λ t q.
        runs_of p fuel t h
          (executed_keeps s t (get_elem? s.program s.pc) (sym (step_lem host s) ∙ q) ∙ e))
      ∙ ap (stopped_with (map trimmed p)) (sym (run_lem host fuel s))

  -- For a host that neither reads nor changes the program, and a program whose instructions have 12
  -- operand bytes each: with 0 in the operand bytes that a file does not keep, the machine ends as it
  -- does without, after the same number of instructions.
  pub run-trimmed :
      (fuel : ℕ) (s : VirtualCore)
      → All IsTwelve s.program
      → run host fuel (with_program (map trimmed s.program) s)
        ≡ stopped_with (map trimmed s.program) (run host fuel s)
  run-trimmed fuel s h = runs_of s.program fuel s h refl
