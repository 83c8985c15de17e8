-- ===== src/Generator/Arith/Let.antt =====
-- The declaration of a variable with an integer expression, from its code to the local it fills.
use mylamina.Base.{◌≤◌, ◌≡◌, refl, Bool, true, List, [], ◌∷◌, ◌++◌}
use mylamina.Base.{Option, none, some, arith, ◌∙◌, ℤ, Text, lookup, get_elem?, append_assoc}
use mylamina.Opcode.{Op}
use mylamina.Emit.{op_local_set, emit_local_set, addr}
use mylamina.Vm.State.{VirtualCore, Host, StackFrame}
use mylamina.Base.{ℕ, ◌≢◌}
use mathlib.Core.Path.{subst}
use mylamina.Value.{Value}
use mylamina.Vm.Straight.{execs}
use mylamina.Vm.Locals.{local_of}
use mylamina.Scope.Laws.{find_var-declared}
use mylamina.Generator.Tree.{sub_gen}
use mylamina.Generator.Arith.Code.{set_operand_self}
use mylamina.Generator.Arith.Correct.{sub_gen-Compiles}
use mylamina.Generator.Arith.Store.{Stores, Puts-Stores}
use mylamina.Generator.Arith.{Puts, IsArith, need, eval}
use mylamina.Alloc.{size_max}
use mylamina.Alloc.Laws.{free_count, free-set_bit, pos_of_free}
use mylamina.Scope.{CompilingFrame, find_var, uint16_max}
use mylamina.Scope.Laws.{next_address, declared, new_var_lem}
use mylamina.Ast.{Node}
use mylamina.Generator.State.{
  Generator, Gen, ◌>>=◌, ◌>>◌, return, declare, declare_with, emit, u8, u16, free_reg,
}
use mylamina.Generator.State.Laws.{bind_some}
use mylamina.Generator.Stmt.{gen_assign, declare_new}
use mylamina.Generator.Arith.{Compiled, extended, local_int}

-- The generator behind the declaration of `name` with code for its value.
abbrev pub after_let :
    Generator → CompilingFrame → List CompilingFrame → Text → Bool → List Op → Generator
after_let g f fs name is_mut code = record g {
  emitter = record { ops = g.emitter.ops ++ code; ret_type = addr };
  cur = declared name is_mut f ∷ fs;
  expr_release = true;
}

module _ (host : Host) (value : List StackFrame → Option ℤ) (m : Gen ℕ) (g : Generator)
    (f : CompilingFrame) (fs : List CompilingFrame) (hf : g.cur ≡ f ∷ fs)
    (C : Compiled host value m g) (name : Text) (is_mut : Bool)
    (fresh : lookup name f.locals ≡ none) (taken : g.regs 0 ≡ true) where
  abbrev pub code : List Op
  code = C.init ++ (C.last ∷ [])

  abbrev pub let_code : List Op
  let_code = code ++ (op_local_set 0 (next_address f) C.r ∷ [])

  declare_lem :
      declare name is_mut (extended g C.r code)
      ≡ some (next_address f, record (extended g C.r code) { cur = declared name is_mut f ∷ fs })
  unfolding declare declare_with
  declare_lem = rw (hf, new_var_lem name is_mut f fresh) refl

  wide : u16 (next_address f) ≡ next_address f
  wide = omega arith

  narrow : u8 C.r ≡ C.r
  narrow = let lt = C.in_range in omega (arith, lt)

  declare_new_lem :
      declare_new name is_mut m g
      ≡ some (
        C.r,
        record (extended g C.r code) {
          emitter = record {
            ops = (g.emitter.ops ++ code) ++ (op_local_set 0 (next_address f) C.r ∷ []);
            ret_type = addr;
          };
          cur = declared name is_mut f ∷ fs;
        },
      )
  unfolding declare_new emit_local_set
  declare_new_lem =
      bind_some m
        (λ r. do a ← declare name is_mut; emit (emit_local_set 0 (u16 a) (u8 r)); return r) g
        C.result
      ∙ bind_some (declare name is_mut)
          (λ a. do emit (emit_local_set 0 (u16 a) (u8 C.r)); return C.r) (extended g C.r code)
          declare_lem
      ∙ rw (wide, narrow) refl

  let_branch :
      (find_var name g.cur).1.1 ≡ uint16_max
      → gen_assign name m is_mut g
        ≡ (declare_new name is_mut m >>= (λ r. free_reg r >> return size_max)) g
  unfolding gen_assign
  let_branch unknown = rw unknown refl

  pub gen_assign_lem :
      (find_var name g.cur).1.1 ≡ uint16_max
      → gen_assign name m is_mut g ≡ some (size_max, after_let g f fs name is_mut let_code)
  gen_assign_lem unknown =
      let_branch unknown
      ∙ bind_some (declare_new name is_mut m) (λ r. free_reg r >> return size_max) g declare_new_lem
      ∙ rw
          (
            free-set_bit C.r g.regs (pos_of_free C.r g.regs taken C.was_free) C.in_range C.was_free,
            append_assoc g.emitter.ops code (op_local_set 0 (next_address f) C.r ∷ []),
          )
          refl

  pub let_runs :
      (s : VirtualCore) (fr : StackFrame) (old : Value) (v : ℤ)
      → get_elem? s.cur 0 ≡ some fr
      → get_elem? fr.locals (next_address f) ≡ some old
      → value s.cur ≡ some v
      → Stores host (next_address f) C.r g.regs code s v
  let_runs s fr old v hfr ho ev =
      Puts-Stores host (next_address f) C.r (omega arith) C.in_range g.regs code s v fr old
        C.was_free
        (subst (λ (o : Op). Puts host g.regs (C.init ++ (o ∷ [])) s C.r v)
          (set_operand_self C.last C.r C.target) (C.computes s C.r C.in_range ev))
        hfr ho

module _ (host : Host) where
  -- The declaration of a variable, whose name is in no frame, with an integer expression for which
  -- enough registers are free: `gen_assign` succeeds, appends code, gives back all registers, and the
  -- variable is found in the innermost frame at the next address. Where the machine's top frame has that
  -- local and the expression has a value, the code runs and leaves the value in the local, with the
  -- other locals of the frame and the registers that the generator had taken as before.
  pub gen_let :
      (c : Text → Gen ℕ) (e : Node) (name : Text) (is_mut : Bool) (g : Generator)
      (f : CompilingFrame) (fs : List CompilingFrame)
      → g.cur ≡ f ∷ fs
      → IsArith g.cur e
      → g.regs 0 ≡ true
      → need e ≤ free_count g.regs
      → lookup name f.locals ≡ none
      → (find_var name g.cur).1.1 ≡ uint16_max
      → (code : List Op) × (g' : Generator) × (gen_assign name (sub_gen c e) is_mut g
          ≡ some (size_max, g'))
        × (g'.emitter.ops ≡ g.emitter.ops ++ code)
        × (g'.regs ≡ g.regs)
        × (find_var name g'.cur ≡ (0, (is_mut, next_address f)))
        × ((s : VirtualCore) (fr : StackFrame) (old : Value) (v : ℤ)
            → get_elem? s.cur 0 ≡ some fr
            → get_elem? fr.locals (next_address f) ≡ some old
            → eval g.cur s.cur e ≡ some v
            → (t : VirtualCore) × (execs host code s ≡ some t)
              × (local_int t.cur 0 (next_address f) ≡ some v)
              × ((k : ℕ) → next_address f ≢ k → local_of t.cur 0 k ≡ local_of s.cur 0 k)
              × ((i : ℕ) → g.regs i ≡ true → t.regs i ≡ s.regs i))
  gen_let c e name is_mut g f fs hf h z enough fresh unknown =
      let C = sub_gen-Compiles host g.cur c e h g refl z enough in
      let value : List StackFrame → Option ℤ = λ stack. eval g.cur stack e in
      let m : Gen ℕ = sub_gen c e in
      (
        let_code host value m g f fs hf C name is_mut fresh z,
        after_let g f fs name is_mut (let_code host value m g f fs hf C name is_mut fresh z),
        gen_assign_lem host value m g f fs hf C name is_mut fresh z unknown,
        refl,
        refl,
        find_var-declared name is_mut f fs,
        λ s fr old v hfr ho ev.
            let S = let_runs host value m g f fs hf C name is_mut fresh z s fr old v hfr ho ev in
            (S.t, S.runs, S.local, S.others, S.kept),
      )
