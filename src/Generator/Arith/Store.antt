-- ===== src/Generator/Arith/Store.antt =====
-- Code that computes an integer, and then a LOCAL_SET of it.
use mylamina.Base.{
  ℕ, ◌+◌, ◌^◌, ◌<◌, ◌≡◌, ◌≢◌, refl, true, false, List, [], ◌∷◌, ◌++◌, length, get_elem?,
}
use mylamina.Base.{Option, some, ◌>>=◌, sym, ◌∙◌, ap, ℤ, set}
use mylamina.Opcode.{Op, new_op, operand, read_imm}
use mylamina.Emit.{op_local_set}
use mylamina.Emit.Decode.{decode_local_set}
use mylamina.Value.{Value, assign_copy, as_i64}
use mylamina.Vm.{execute}
use mylamina.Vm.State.{VirtualCore, Host, StackFrame, or_fault}
use mylamina.Vm.Steps.{step_local_set}
use mylamina.Vm.Straight.{execs, continuing, execs-append}
use mylamina.Vm.Effects.{HoldsInt}
use mylamina.Vm.Locals.{
  stored, step_local_set_lem, get_elem?-set_self, get_elem?-set_ne, local_of, local_in,
}
use mylamina.Vm.Calls.{assign_copy_whole}
use mylamina.Alloc.{Allocator}
use mylamina.Alloc.Laws.{ne_of_free}
use mylamina.Generator.Arith.{Puts, local_int, local_at, int_of}

local_int_lem :
    (stack : List StackFrame) (n k : ℕ) (v : Value) (z : ℤ)
    → local_at stack n k ≡ some v
    → HoldsInt v z
    → local_int stack n k ≡ some z
local_int_lem stack n k v z h holds =
    ap (λ (q : Option Value). q >>= λ v. int_of v.type (as_i64 v)) h
    ∙ rw holds.tag (ap some holds.value)

step_at :
    (o : Op) (s : VirtualCore) (a r : ℕ) (fr : StackFrame) (old : Value)
    → operand o 0 ≡ 0
    → read_imm 2 o 1 ≡ a
    → operand o 3 ≡ r
    → r < 255
    → get_elem? s.cur 0 ≡ some fr
    → get_elem? fr.locals a ≡ some old
    → step_local_set o s ≡ some (stored s 0 fr a (assign_copy old (s.regs r)))
step_at o s a r fr old e0 e1 e3 hr hfr ho =
    step_local_set_lem o s {f = fr} {old = old} (rw e0 hfr) (rw e1 ho) (rw e3 hr)
    ∙ rw (e0, e1, e3) refl

module _ (host : Host) (a r : ℕ) where
  -- The state of the locals and of the registers behind the LOCAL_SET.
  pub record Stores (used : Allocator) (code : List Op) (s : VirtualCore) (v : ℤ) : Type 0 where
    pub t : VirtualCore
    pub runs : execs host (code ++ (op_local_set 0 a r ∷ [])) s ≡ some t
    pub local : local_int t.cur 0 a ≡ some v
    pub others : (k : ℕ) → a ≢ k → local_of t.cur 0 k ≡ local_of s.cur 0 k
    pub kept : (i : ℕ) → used i ≡ true → t.regs i ≡ s.regs i

module _ (host : Host) (a r : ℕ) (ha : a < 2 ^ 16) (hr : r < 255) where
  store :
      (s : VirtualCore) (fr : StackFrame) (old : Value)
      → get_elem? s.cur 0 ≡ some fr
      → get_elem? fr.locals a ≡ some old
      → execs host (op_local_set 0 a r ∷ []) s ≡ some (stored s 0 fr a (assign_copy old (s.regs r)))
  unfolding execs execute new_op
  store s fr old hfr ho =
      let (e0, e1, e3) = decode_local_set 0 a r ha in
      ap (λ (q : Option VirtualCore). continuing (or_fault q) >>= execs host [])
        (step_at (op_local_set 0 a r) s a r fr old e0 e1 e3 hr hfr ho)

  pub Puts-Stores :
      (used : Allocator) (code : List Op) (s : VirtualCore) (v : ℤ) (fr : StackFrame) (old : Value)
      → used r ≡ false
      → Puts host used code s r v
      → get_elem? s.cur 0 ≡ some fr
      → get_elem? fr.locals a ≡ some old
      → Stores host a r used code s v
  Puts-Stores used code s v fr old free (regs, run, holds, keep) hfr ho =
      let s' : VirtualCore = record s { pc = s.pc + length code; regs = regs } in
      let w : Value = assign_copy old (regs r) in
      let same : w ≡ regs r = assign_copy_whole old (regs r) (rw holds.tag refl) in
      let fr' : StackFrame = record fr { locals = set fr.locals a w } in
      let at : get_elem? (set s.cur 0 fr') 0 ≡ some fr' = get_elem?-set_self s.cur 0 fr' hfr in
      record {
        t = stored s' 0 fr a w;
        runs =
            execs-append host code (op_local_set 0 a r ∷ []) s
            ∙ ap (λ (q : Option VirtualCore). q >>= execs host (op_local_set 0 a r ∷ [])) run
            ∙ store s' fr old hfr ho;
        local =
            local_int_lem _ 0 a (regs r) v
              (ap (λ (q : Option StackFrame). q >>= λ f. get_elem? f.locals a) at
                ∙ get_elem?-set_self fr.locals a w ho
                ∙ ap some same)
              holds;
        others = λ k ne.
            ap (λ (q : Option StackFrame). local_in q k) at
            ∙ get_elem?-set_ne fr.locals a k w ne
            ∙ sym (ap (λ (q : Option StackFrame). local_in q k) hfr);
        kept = λ i taken. keep i taken (ne_of_free r i used free taken);
      }
