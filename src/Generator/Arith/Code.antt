-- ===== src/Generator/Arith/Code.antt =====
-- What the code of an expression does, put together from the code of its parts.
use mylamina.Base.{ℕ, ◌+◌, ◌≡◌, ◌≢◌, refl, true, false, List, [], ◌∷◌, ◌++◌, ◌>>=◌}
use mylamina.Base.{some, arith, ◌∙◌, ap, length, length-append, ℤ}
use mylamina.Base.{set, get_or, fits64}
use mylamina.Opcode.{Op, operand, set_operand}
use mylamina.Value.{Value, assign_i64, as_i64}
use mylamina.Vm.{execute}
use mylamina.Vm.State.{VirtualCore, Host, running, update_reg}
use mylamina.Vm.Straight.{execs, execs-append, continuing}
use mylamina.Vm.Effects.{HoldsInt, wrote, update_reg_self, assign_i64-HoldsInt}
use mylamina.Alloc.{Allocator, set_bit}
use mylamina.Generator.Arith.{Puts}

-- Which registers differ, by whether they are taken.
taken_ne : (bits : Allocator) (t1 t2 : ℕ) → set_bit t1 true bits t2 ≡ false → t1 ≢ t2
taken_ne bits t1 t2 h = ground arith

taken_ne' :
    (bits : Allocator) (t1 t2 i : ℕ) → set_bit t1 true bits t2 ≡ false → bits i ≡ true → i ≡ t2 → ⊥
taken_ne' bits t1 t2 i f h q = ground arith

free_ne : (bits : Allocator) (t i : ℕ) → bits t ≡ false → bits i ≡ true → i ≡ t → ⊥
free_ne bits t i f h q = cc

stays_taken : (bits : Allocator) (t i : ℕ) → bits i ≡ true → set_bit t true bits i ≡ true
stays_taken bits t i h = ground arith

self_taken : (bits : Allocator) (t : ℕ) → set_bit t true bits t ≡ true
self_taken bits t = ground arith

module _ (host : Host) where
  other_reg : (regs : ℕ → Value) (d i : ℕ) (v : Value) → i ≢ d → update_reg regs d v i ≡ regs i
  other_reg regs d i v h = ground arith

  -- One instruction that writes register `d`.
  pub Puts-one :
      (used : Allocator) (o : Op) (s : VirtualCore) (d : ℕ) (w : Value) {v : ℤ}
      → execute host o.op o s ≡ running (wrote s d w)
      → HoldsInt w v
      → Puts host used (o ∷ []) s d v
  unfolding execs
  Puts-one used o s d w e h = (
    update_reg s.regs d w,
    ap (λ r. continuing r >>= execs host []) e,
    rw update_reg_self h,
    λ i taken ne. other_reg s.regs d i w ne,
  )

  -- Code that leaves the registers of `used` alone, before code that puts a value.
  pub Puts-after :
      (used more : Allocator) (a b : List Op) (s : VirtualCore) (d : ℕ) (regs : ℕ → Value) {v : ℤ}
      → ((i : ℕ) → used i ≡ true → more i ≡ true)
      → execs host a s ≡ some (record s { pc = s.pc + length a; regs = regs })
      → ((i : ℕ) → used i ≡ true → regs i ≡ s.regs i)
      → Puts host more b (record s { pc = s.pc + length a; regs = regs }) d v
      → Puts host used (a ++ b) s d v
  Puts-after used more a b s d regs {v} sub e keep (regs', e', h, keep') = (
    regs',
    execs-append host a b s
        ∙ ap (λ o. o >>= execs host b) e
        ∙ e'
        ∙ ap (λ (n : ℕ). some (record s { pc = n; regs = regs' }))
            (omega (arith, length-append a b)),
    h,
    λ i taken ne. keep' i (sub i taken) ne ∙ keep i taken,
  )

  -- Two operands in registers of their own, then an instruction that reads both.
  pub Puts-two :
      (bits : Allocator) (o : Op) (c1 c2 : List Op) (t1 t2 d : ℕ) (s : VirtualCore) {a b v : ℤ}
      → bits t1 ≡ false
      → set_bit t1 true bits t2 ≡ false
      → Puts host (set_bit t1 true bits) c1 s t1 a
      → ((s1 : VirtualCore) → s1.cur ≡ s.cur → Puts host (set_bit t1 true bits) c2 s1 t2 b)
      → ((s2 : VirtualCore)
          → as_i64 (s2.regs t1) ≡ a
          → as_i64 (s2.regs t2) ≡ b
          → execute host o.op o s2 ≡ running (wrote s2 d (assign_i64 (s2.regs d) v)))
      → fits64 v ≡ true
      → Puts host bits ((c1 ++ c2) ++ (o ∷ [])) s d v
  Puts-two bits o c1 c2 t1 t2 d s {a} {b} {v} f1 f2 (regs1, e1, v1, k1) P2 fin fits =
      let s1 : VirtualCore = record s { pc = s.pc + length c1; regs = regs1 } in
      let (regs2, e2, v2, k2) = P2 s1 refl in
      let s2 : VirtualCore = record s { pc = s.pc + length (c1 ++ c2); regs = regs2 } in
      let ne : t1 ≢ t2 = taken_ne bits t1 t2 f2 in
      let both : execs host (c1 ++ c2) s ≡ some s2 =
        execs-append host c1 c2 s
        ∙ ap (λ o. o >>= execs host c2) e1
        ∙ e2
        ∙ ap (λ (n : ℕ). some (record s { pc = n; regs = regs2 }))
            (omega (arith, length-append c1 c2)) in
      Puts-after bits bits (c1 ++ c2) (o ∷ []) s d regs2 (λ i h. h) both
        (λ i h.
          k2 i (stays_taken bits t1 i h) (λ q. taken_ne' bits t1 t2 i f2 h q)
          ∙ k1 i (stays_taken bits t1 i h) (λ q. free_ne bits t1 i f1 h q))
        (Puts-one bits o s2 d (assign_i64 (regs2 d) v)
          (fin s2 (ap as_i64 (k2 t1 (self_taken bits t1) ne) ∙ v1.value) v2.value)
          (assign_i64-HoldsInt (regs2 d) v fits))

-- An instruction keeps its target.
pub set_operand_self : (o : Op) (r : ℕ) → operand o 0 ≡ r → set_operand o 0 r ≡ o
set_operand_self o r e = rw (← e) (ap (λ (l : List ℕ). record o { operands = l }) (go o.operands))
  where
    go : (l : List ℕ) → set l 0 (get_or l 0 0) ≡ l
    go [] = refl
    go (x ∷ xs) = refl
