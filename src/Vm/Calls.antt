-- ===== src/Vm/Calls.antt =====
-- runtime/vm.cpp: FCALL, FRET and FUNC_CREATE, what a call keeps and what it hands over.
use mylamina.Base.{
  ℕ, zero, suc, ◌+◌, ◌-◌, ◌<◌, ◌≤◌, ◌≡◌, refl, Bool, true, false, List, [], ◌∷◌, ◌++◌,
}
use mylamina.Base.{Option, some, get_elem?, arith, ap, ◌∙◌}
use mylamina.Base.{==_refl, length, All, drop-append_length}
use mylamina.Opcode.{Op, operand, read_imm}
use mylamina.Value.{
  Value, ValueType, default_value, assign_copy, copy_bits, bool, int, float, str, ptr, null,
  no_enum_value,
}
use mylamina.Vm.Effects.{wrote, step_local_get_lem}
use mylamina.Vm.State.{VirtualCore, reg_count, reg_count_index_max}
use mylamina.Vm.Steps.{
  arguments, saved, restored, return_to, step_fcall, step_fret, step_local_get, step_func_create,
  after_func_end, is_func_end,
}

-- The types whose values an assignment copies as they are.
abbrev pub is_whole : ValueType → Bool
is_whole int = true
is_whole float = true
is_whole str = true
is_whole ptr = true
is_whole _ = false

copy_once : (t : ValueType) (old b : ℕ) → is_whole t ≡ true → copy_bits t old b ≡ b
unfolding copy_bits
copy_once int old b h = refl
copy_once float old b h = refl
copy_once str old b h = refl
copy_once ptr old b h = refl
copy_once bool old b h = cc
copy_once null old b h = cc
copy_once no_enum_value old b h = cc

copy_whole : (t : ValueType) (old b : ℕ) → is_whole t ≡ true → copy_bits t old (copy_bits t 0 b) ≡ b
unfolding copy_bits
copy_whole int old b h = refl
copy_whole float old b h = refl
copy_whole str old b h = refl
copy_whole ptr old b h = refl
copy_whole bool old b h = cc
copy_whole null old b h = cc
copy_whole no_enum_value old b h = cc

-- Such a value is copied as it is.
pub assign_copy_whole : (v w : Value) → is_whole w.type ≡ true → assign_copy v w ≡ w
unfolding assign_copy
assign_copy_whole v w h =
    ap (λ (b : ℕ). record { type = w.type; bits = b }) (copy_once w.type v.bits w.bits h)

copy_back : (v w : Value) → is_whole w.type ≡ true → assign_copy v (assign_copy default_value w) ≡ w
unfolding assign_copy
copy_back v w h =
    ap (λ (b : ℕ). record { type = w.type; bits = b }) (copy_whole w.type v.bits w.bits h)

restored_lem :
    (regs old : ℕ → Value) (i : ℕ)
    → 0 < i
    → i ≤ 3
    → restored (saved old) regs i ≡ assign_copy (regs i) (assign_copy default_value (old i))
restored_lem regs old i lo hi = ground arith

-- A state t whose return addresses are those behind the call, and whose top frame holds the
-- registers that the call saved, above the caller's frames: FRET succeeds on it and goes on
-- behind the FCALL with the caller's frames and return addresses. A register 1, 2 or 3 that held
-- an int, a float, a text or a pointer at the call holds it again; register 0 and those from 4 on
-- are as they were in t.
pub step_fcall-step_fret :
    (o : Op) (s t : VirtualCore) (locals : List Value)
    → t.ret_addr_stack ≡ (step_fcall o s).ret_addr_stack
    → t.cur ≡ record { locals = locals; save_regs = saved s.regs } ∷ s.cur
    → (u : VirtualCore) × (step_fret t ≡ some u)
      × (u.pc ≡ s.pc + 1)
      × (u.cur ≡ s.cur)
      × (u.ret_addr_stack ≡ s.ret_addr_stack)
      × ((i : ℕ) → 0 < i → i ≤ 3 → is_whole (s.regs i).type ≡ true → u.regs i ≡ s.regs i)
      × ((i : ℕ) → 3 < i → u.regs i ≡ t.regs i)
      × (u.regs 0 ≡ t.regs 0)
unfolding step_fret return_to step_fcall
step_fcall-step_fret o s t locals hr hc = (
  record t {
    pc = s.pc + 1;
    ret_addr_stack = s.ret_addr_stack;
    regs = restored (saved s.regs) t.regs;
    cur = s.cur;
  },
  rw (hr, hc) refl,
  refl,
  refl,
  refl,
  λ i lo hi w. restored_lem t.regs s.regs i lo hi ∙ copy_back (t.regs i) (s.regs i) w,
  λ i h. ground arith,
  refl,
)

abbrev argument : (ℕ → Value) → ℕ → Option Value
argument regs k = some (assign_copy default_value (regs (reg_count_index_max - k)))

get_elem?-arguments :
    (regs : ℕ → Value) (rest : List Value) (k i j : ℕ)
    → j < k
    → get_elem? (arguments regs i k ++ rest) j
      ≡ some (assign_copy default_value (regs (reg_count_index_max - (i + j))))
unfolding arguments
get_elem?-arguments regs rest zero i j h = absurd (omega arith)
get_elem?-arguments regs rest (suc k) i zero h = ap (argument regs) (omega arith)
get_elem?-arguments regs rest (suc k) i (suc j) h =
    get_elem?-arguments regs rest k (i + 1) j (omega arith) ∙ ap (argument regs) (omega arith)

-- Behind a call, a LOCAL_GET of frame 0 to an existing register, of a local below the number of
-- arguments, succeeds, goes on with the next instruction and keeps the frames. If the argument
-- register of that local held an int, a float, a text or a pointer, the destination holds it now.
pub step_fcall-local_get :
    (o p : Op) (s : VirtualCore)
    → operand p 0 < reg_count
    → operand p 1 ≡ 0
    → read_imm 2 p 2 < operand o 8
    → is_whole (s.regs (reg_count_index_max - read_imm 2 p 2)).type ≡ true
    → (t : VirtualCore) × (step_local_get p (step_fcall o s) ≡ some t)
      × (t.regs (operand p 0) ≡ s.regs (reg_count_index_max - read_imm 2 p 2))
      × (t.pc ≡ (step_fcall o s).pc + 1)
      × (t.cur ≡ (step_fcall o s).cur)
unfolding step_fcall step_local_get
step_fcall-local_get o p s hd hf ha w =
    let c = step_fcall o s in
    let a = reg_count_index_max - read_imm 2 p 2 in
    let v : Value = assign_copy default_value (s.regs a) in
    let unshifted : 0 + read_imm 2 p 2 ≡ read_imm 2 p 2 = omega arith in
    let got = get_elem?-arguments s.regs (default_value ∷ []) (operand o 8) 0 (read_imm 2 p 2) ha in
    (
      wrote c (operand p 0) (assign_copy (c.regs (operand p 0)) v),
      step_local_get_lem p c 0 (read_imm 2 p 2) hd hf refl refl
          (got ∙ ap (argument s.regs) unshifted),
      rw (==_refl (operand p 0)) (copy_back (s.regs (operand p 0)) (s.regs a) w),
      refl,
      refl,
    )

-- FUNC_CREATE goes on behind the FUNC_END that follows a body without one.
after_func_end_lem :
    (body : List Op) (e : Op) (post : List Op) (pc : ℕ)
    → All (λ b. is_func_end b.op ≡ false) body
    → is_func_end e.op ≡ true
    → after_func_end (body ++ (e ∷ post)) pc ≡ some (pc + length body + 1)
unfolding after_func_end
after_func_end_lem [] e post pc n h = rw h (ap some (omega arith))
after_func_end_lem (b ∷ bs) e post pc (n, ns) h =
    rw n (after_func_end_lem bs e post (pc + 1) ns h ∙ ap some (omega arith))

-- In a program that has at `pc` instructions without FUNC_END and then a FUNC_END, FUNC_CREATE sets
-- `pc` behind that FUNC_END and changes nothing else.
pub step_func_create-skips :
    (s : VirtualCore) (pre body : List Op) (e : Op) (post : List Op)
    → s.program ≡ pre ++ (body ++ (e ∷ post))
    → s.pc ≡ length pre
    → All (λ b. is_func_end b.op ≡ false) body
    → is_func_end e.op ≡ true
    → step_func_create s ≡ some (record s { pc = length pre + length body + 1 })
unfolding step_func_create
step_func_create-skips s pre body e post hp hc n h =
    rw
      (
        hp,
        hc,
        drop-append_length pre (body ++ (e ∷ post)),
        after_func_end_lem body e post (length pre) n h,
      )
      refl
