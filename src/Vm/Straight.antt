-- ===== src/Vm/Straight.antt =====
-- Runs of instructions that neither jump nor stop, apart from the program that holds them.
use mylamina.Base.{ℕ, suc, ◌+◌, ◌≡◌, refl, List, [], ◌∷◌, ◌++◌, Option, none, some, arith}
use mylamina.Base.{length, get_elem?, get_elem?-append_length, append_assoc, ◌>>=◌, sym, ap, ◌∙◌}
use mylamina.Base.{Bool, true, false, All, length-append, bind_assoc, bind_congr, >>=-eq-some}
use Prim.Native.Nat.add
use mylamina.Opcode.{
  Op, Opcode, mov_ri, mov_rr, mov_rc, add, sub, mul, div, mod_op, pow, cmp_ge, cmp_lt, cmp_le,
  cmp_gt, cmp_eq, cmp_ne, local_get, local_set, and_op, or_op, dec,
}
use mylamina.Vm.{execute, step, run}
use mylamina.Vm.State.{VirtualCore, Host, Outcome, running, returned, exited, fault}
use mylamina.Vm.Steps.{
  step_arith, step_compare, step_logic, step_pow, step_mov_ri, step_mov_rr, step_mov_rc, step_dec,
  step_local_get, step_local_set,
}
use native.Mathlib.Nat.{add-zero}

abbrev pub continuing : Outcome → Option VirtualCore
continuing (running t) = some t
continuing (returned c t) = none
continuing (exited c t) = none
continuing fault = none

-- The opcodes that go on with the next instruction.
unfoldable pub is_straight : Opcode → Bool
is_straight mov_ri = true
is_straight mov_rr = true
is_straight mov_rc = true
is_straight add = true
is_straight sub = true
is_straight mul = true
is_straight div = true
is_straight mod_op = true
is_straight cmp_ge = true
is_straight cmp_lt = true
is_straight cmp_le = true
is_straight cmp_gt = true
is_straight cmp_eq = true
is_straight cmp_ne = true
is_straight and_op = true
is_straight or_op = true
is_straight pow = true
is_straight local_get = true
is_straight local_set = true
is_straight dec = true
is_straight _ = false

abbrev pub IsStraight : List Op → Type 0
IsStraight code = All (λ o. is_straight o.op ≡ true) code

pub IsStraight-append : (a b : List Op) → IsStraight a → IsStraight b → IsStraight (a ++ b)
IsStraight-append [] b ha hb = hb
IsStraight-append (o ∷ os) b (h, ha) hb = (h, IsStraight-append os b ha hb)

module _ (host : Host) where
  -- The instructions one after the other; `none` if one of them stops.
  unfoldable pub execs : List Op → VirtualCore → Option VirtualCore
  execs [] s = some s
  execs (o ∷ os) s = continuing (execute host o.op o s) >>= execs os

  pub execs-append : (a b : List Op) (s : VirtualCore) → execs (a ++ b) s ≡ (execs a s >>= execs b)
  unfolding execs
  execs-append [] b s = refl
  execs-append (o ∷ os) b s =
      bind_congr (continuing (execute host o.op o s)) (λ t. execs-append os b t)
      ∙ sym (bind_assoc (continuing (execute host o.op o s)) (execs os) (execs b))

  straight_advances :
      (c : Opcode) (o : Op) (s t : VirtualCore)
      → is_straight c ≡ true
      → execute host c o s ≡ running t
      → (t.pc ≡ s.pc + 1) × (t.program ≡ s.program)
  unfolding is_straight execute step_arith step_compare step_logic step_pow step_mov_ri step_mov_rr
      step_mov_rc step_dec step_local_get step_local_set
  straight_advances mov_ri o s t h e = ground arith
  straight_advances _ o s t h e = ground arith

  run_step :
      (fuel : ℕ) (s t : VirtualCore) (o : Op)
      → get_elem? s.program s.pc ≡ some o
      → execute host o.op o s ≡ running t
      → run host (suc fuel) s ≡ run host fuel t
  unfolding run step
  run_step fuel s t o p e = ground (arith, p, e)

  continuing_inv : (r : Outcome) {t : VirtualCore} → continuing r ≡ some t → r ≡ running t
  continuing_inv (running u) h = ground arith
  continuing_inv (returned c u) h = cc
  continuing_inv (exited c u) h = cc
  continuing_inv fault h = cc

  fetch :
      (pre post : List Op) (o : Op) (s : VirtualCore)
      → s.program ≡ pre ++ (o ∷ post)
      → s.pc ≡ length pre
      → get_elem? s.program s.pc ≡ some o
  fetch pre post o s p q = rw (p, q) (rw add-zero at (get_elem?-append_length pre (o ∷ post) 0))

  -- Where the program has, at `pc`, instructions that go on with the next one, and these executed one
  -- after the other give the state t, the machine with a pass for each of them and `fuel` more does
  -- what it does from t with `fuel`; t stands behind these instructions in the same program.
  pub run_straight :
      (code pre post : List Op) (fuel : ℕ) (s : VirtualCore) {t : VirtualCore}
      → IsStraight code
      → s.program ≡ pre ++ (code ++ post)
      → s.pc ≡ length pre
      → execs code s ≡ some t
      → (run host (length code + fuel) s ≡ run host fuel t)
        × (t.pc ≡ length pre + length code)
        × (t.program ≡ s.program)
  unfolding execs
  run_straight [] pre post fuel s h p q e = ground (arith, add.zero fuel)
  run_straight (o ∷ os) pre post fuel s {t} (h, hs) p q e =
      let (u, r, e') = >>=-eq-some (continuing (execute host o.op o s)) (execs os) e in
      let r' = continuing_inv (execute host o.op o s) r in
      let (q', p') = straight_advances o.op o s u h r' in
      let (i, j, k) =
        run_straight os (pre ++ (o ∷ [])) post fuel u hs
          (p' ∙ p ∙ sym (append_assoc pre (o ∷ []) (os ++ post)))
          (q' ∙ ap (λ (n : ℕ). n + 1) q ∙ sym (length-append pre (o ∷ []))) e' in
      (
        rw add.suc (run_step (length os + fuel) s u o (fetch pre (os ++ post) o s p q) r' ∙ i),
        j ∙ omega (arith, length-append pre (o ∷ [])),
        k ∙ p',
      )
