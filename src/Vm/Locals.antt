-- ===== src/Vm/Locals.antt =====
-- runtime/vm.cpp: LOCAL_SET and LOCAL_GET on the locals of a frame.
use mylamina.Base.{ℕ, zero, suc, ◌<◌, ◌≡◌, ◌≢◌, refl, true, List, [], ◌∷◌}
use mylamina.Base.{Option, none, some, get_elem?, set, lt→ltb, sym, ap, ◌∙◌}
use mylamina.Opcode.{Op, operand, read_imm}
use mylamina.Value.{Value, assign_copy}
use mylamina.Vm.State.{VirtualCore, StackFrame, next}
use mylamina.Vm.Steps.{step_local_get, step_local_set}
use mylamina.Vm.Effects.{wrote, update_reg_self, step_local_get_lem}
use mylamina.Vm.Calls.{is_whole, assign_copy_whole}

module _ {ℓ} {A : Type ℓ} where
  pub get_elem?-set_self :
      (l : List A) (i : ℕ) (a : A) {b : A}
      → get_elem? l i ≡ some b
      → get_elem? (set l i a) i ≡ some a
  get_elem?-set_self [] i a h = cc
  get_elem?-set_self (x ∷ xs) zero a h = refl
  get_elem?-set_self (x ∷ xs) (suc i) a h = get_elem?-set_self xs i a h

  pub get_elem?-set_ne :
      (l : List A) (i j : ℕ) (a : A) → i ≢ j → get_elem? (set l i a) j ≡ get_elem? l j
  get_elem?-set_ne [] i j a h = refl
  get_elem?-set_ne (x ∷ xs) zero zero a h = absurd (h refl)
  get_elem?-set_ne (x ∷ xs) zero (suc j) a h = refl
  get_elem?-set_ne (x ∷ xs) (suc i) zero a h = refl
  get_elem?-set_ne (x ∷ xs) (suc i) (suc j) a h = get_elem?-set_ne xs i j a (λ e. h (ap suc e))

abbrev pub local_in : Option StackFrame → ℕ → Option Value
local_in none k = none
local_in (some f) k = get_elem? f.locals k

-- The local `k` of frame `n`.
abbrev pub local_of : List StackFrame → ℕ → ℕ → Option Value
local_of cur n k = local_in (get_elem? cur n) k

-- The state behind the LOCAL_SET.
abbrev pub stored : VirtualCore → ℕ → StackFrame → ℕ → Value → VirtualCore
stored s n f k v = next (record s { cur = set s.cur n (record f { locals = set f.locals k v }) })

pub step_local_set_lem :
    (o : Op) (s : VirtualCore) {f : StackFrame} {old : Value}
    → get_elem? s.cur (operand o 0) ≡ some f
    → get_elem? f.locals (read_imm 2 o 1) ≡ some old
    → operand o 3 < 255
    → step_local_set o s
      ≡ some (stored s (operand o 0) f (read_imm 2 o 1) (assign_copy old (s.regs (operand o 3))))
unfolding step_local_set
step_local_set_lem o s {f} {old} hf hv hr = rw (hf, hv, lt→ltb _ _ hr) refl

-- A LOCAL_SET of an existing local from an existing register that holds an int, a float, a text or a
-- pointer, and then a LOCAL_GET of the same frame and local to an existing register: both succeed, the
-- destination holds the value, and the other locals of the frame are as before.
pub step_local_set-local_get :
    (o p : Op) (s : VirtualCore) (f : StackFrame) (old : Value)
    → get_elem? s.cur (operand o 0) ≡ some f
    → get_elem? f.locals (read_imm 2 o 1) ≡ some old
    → operand o 3 < 255
    → operand p 0 < 255
    → operand p 1 ≡ operand o 0
    → read_imm 2 p 2 ≡ read_imm 2 o 1
    → is_whole (s.regs (operand o 3)).type ≡ true
    → (t : VirtualCore) × (u : VirtualCore) × (step_local_set o s ≡ some t)
      × (step_local_get p t ≡ some u)
      × (u.regs (operand p 0) ≡ s.regs (operand o 3))
      × ((k : ℕ)
          → read_imm 2 o 1 ≢ k
          → local_of u.cur (operand o 0) k ≡ local_of s.cur (operand o 0) k)
step_local_set-local_get o p s f old hf hv hr hd ef ek w =
    let n = operand o 0 in
    let k = read_imm 2 o 1 in
    let v : Value = assign_copy old (s.regs (operand o 3)) in
    let f' : StackFrame = record f { locals = set f.locals k v } in
    let t : VirtualCore = stored s n f k v in
    let at : get_elem? t.cur n ≡ some f' = get_elem?-set_self s.cur n f' hf in
    (
      t,
      wrote t (operand p 0) (assign_copy (t.regs (operand p 0)) v),
      step_local_set_lem o s hf hv hr,
      step_local_get_lem p t n k hd ef ek at (get_elem?-set_self f.locals k v hv),
      update_reg_self s.regs (operand p 0) (assign_copy (s.regs (operand p 0)) v)
          ∙ ap (λ (x : Value). assign_copy (s.regs (operand p 0)) x)
              (assign_copy_whole old (s.regs (operand o 3)) w)
          ∙ assign_copy_whole (s.regs (operand p 0)) (s.regs (operand o 3)) w,
      λ j ne.
          ap (λ (q : Option StackFrame). local_in q j) at
          ∙ get_elem?-set_ne f.locals k j v ne
          ∙ sym (ap (λ (q : Option StackFrame). local_in q j) hf),
    )
