-- ===== src/Generator/Keeps/Stmt.antt =====
-- compiler/generator/generator.cpp: what the functions for statements keep of the program.
use mylamina.Base.{
  set, ◌≤◌, ℕ, ◌+◌, Bool, true, false, Option, none, some, Text, List, [], ◌∷◌, ◌≡◌,
}
use mylamina.Ast.{TypeNode, ExternFunc}
use mylamina.Generator.State.{Generator, Gen}
use mylamina.Generator.Keeps.{Keeps, Keeps-return, Keeps-crash, Emitted-if, KeepsAll, keeps, emits}
use mylamina.Base.{set, ◌≤◌, ◌++◌, get_elem?, refl, le_bytes, if◌then◌else◌, arith}
use mylamina.Emit.Shape.{Emitted, IsEmitted, IsEmitted-copy_operands, All-set, All-get_elem?}
use mylamina.Generator.State.{patch, declare_with, declare, declare_at, new_func, index}
use mylamina.Generator.Keeps.Expr.{gen_string-KeepsAll}
use mylamina.Scope.{CompilingFrame, index_var}
use mylamina.Opcode.{Op, copy_operands}
use mylamina.Generator.Stmt.{
  assign_found, declare_new, gen_assign, gen_return, gen_block, gen_if, patch_all, close_loop,
  gen_loop, gen_continue, gen_break, check_args, bind_args, gen_function, declare_externs,
  qualified_name, load_module, add_constant, ret_type_name, gen_module,
}

-- A jump's target lies inside the operands.
patched :
    (at offset target : ℕ)
    → offset ≤ 4
    → (g : Generator) → Emitted g.emitter.ops
    → (x : Option Op) → ((o : Op) → x ≡ some o → IsEmitted o)
    → Keeps {A = Unit {0}} (elim x [
      | none ↦ none
      | some o ↦ some (
        tt,
        record g {
          emitter = record (g.emitter) {
            ops = set g.emitter.ops at (copy_operands o offset (le_bytes 8 target));
          };
        },
      )
    ])
unfolding le_bytes
patched at offset target b g h none w = Keeps-crash
patched at offset target b g h (some o) w = Keeps-return tt _ (record {
  each =
      All-set g.emitter.ops at _ h.each
        (IsEmitted-copy_operands o offset (le_bytes 8 target) (omega (arith, b)) (w o refl));
})

patch-KeepsAll : (at offset target : ℕ) → offset ≤ 4 → KeepsAll (patch at offset target)
unfolding patch
patch-KeepsAll at offset target b g h =
    patched at offset target b g h (get_elem? g.emitter.ops at)
      (λ o e. All-get_elem? g.emitter.ops at h.each e)

declare_with-KeepsAll :
    (op : CompilingFrame → CompilingFrame × ℕ × Bool) (n : Text) (fs : List CompilingFrame)
    → KeepsAll (declare_with op n fs)
unfolding declare_with
declare_with-KeepsAll op n [] g h = search (keeps) depth 14
declare_with-KeepsAll op n (f ∷ fs) g h = search (keeps) depth 14

declare-KeepsAll : (n : Text) (m : Bool) → KeepsAll (declare n m)
unfolding declare
declare-KeepsAll n m g h = search (keeps, declare_with-KeepsAll) depth 14

declare_at-KeepsAll : (n : Text) (m : Bool) (a : ℕ) → KeepsAll (declare_at n m a)
unfolding declare_at
declare_at-KeepsAll n m a g h = search (keeps, declare_with-KeepsAll) depth 14

new_func-KeepsAll : (n : Text) (size : ℕ) → KeepsAll (new_func n size)
unfolding new_func
new_func-KeepsAll n size g h = search (keeps) depth 14

indexed :
    (g : Generator) (x : Option (ℕ × List CompilingFrame))
    → Emitted g.emitter.ops
    → Keeps {A = ℕ} (elim x [ none ↦ none | some (a, cur) ↦ some (a, record g { cur = cur }) ])
indexed g none h = Keeps-crash
indexed g (some (a, cur)) h = Keeps-return a _ h

index-KeepsAll : (n : Text) (i : ℕ) → KeepsAll (index n i)
unfolding index
index-KeepsAll n i g h = indexed g (index_var n i g.cur) h

module _ (value : Gen ℕ) (v : KeepsAll value) where
  assign_found-KeepsAll : (b : Bool) (f : ℕ) (n : Text) → KeepsAll (assign_found b f n value)
  unfolding assign_found
  assign_found-KeepsAll true f n g h = search (keeps, emits, v, index-KeepsAll) depth 14
  assign_found-KeepsAll false f n g h = search (keeps, emits) depth 14

  declare_new-KeepsAll : (n : Text) (m : Bool) → KeepsAll (declare_new n m value)
  unfolding declare_new
  declare_new-KeepsAll n m g h = search (keeps, emits, v, declare-KeepsAll) depth 14

  pub gen_assign-KeepsAll : (n : Text) (m : Bool) → KeepsAll (gen_assign n value m)
  unfolding gen_assign
  gen_assign-KeepsAll n m g h =
      search (keeps, emits, assign_found-KeepsAll, declare_new-KeepsAll) depth 14

  pub gen_return-KeepsAll : KeepsAll (gen_return value)
  unfolding gen_return
  gen_return-KeepsAll g h = search (keeps, emits, v) depth 14

  pub gen_block-KeepsAll : KeepsAll (gen_block value)
  unfolding gen_block
  gen_block-KeepsAll g h = search (keeps, emits, v) depth 14

patch_jump-KeepsAll : (at target : ℕ) → KeepsAll (patch at 0 target)
patch_jump-KeepsAll at target = patch-KeepsAll at 0 target (omega arith)

patch_if-KeepsAll : (at target : ℕ) → KeepsAll (patch at 1 target)
patch_if-KeepsAll at target = patch-KeepsAll at 1 target (omega arith)

patch_all-KeepsAll : (ps : List ℕ) (target : ℕ) → KeepsAll (patch_all ps target)
unfolding patch_all
patch_all-KeepsAll [] target g h = search (keeps) depth 14
patch_all-KeepsAll (p ∷ ps) target g h =
    search (keeps, patch_jump-KeepsAll, patch_all-KeepsAll ps target) depth 14

close_loop-KeepsAll : (l b c e : ℕ) → KeepsAll (close_loop l b c e)
unfolding close_loop
close_loop-KeepsAll l b c e g h = search (keeps, patch_if-KeepsAll, patch_all-KeepsAll) depth 24

module _ (condition then_block : Gen ℕ) (c : KeepsAll condition) (t : KeepsAll then_block) where
  pub gen_if-KeepsAll : (els : Gen ℕ) → KeepsAll els → KeepsAll (gen_if condition then_block els)
  unfolding gen_if
  gen_if-KeepsAll els e g h =
      search (keeps, emits, c, t, e, patch_jump-KeepsAll, patch_if-KeepsAll) depth 24

  pub gen_loop-KeepsAll : (b : Option Bool) → KeepsAll (gen_loop condition b then_block)
  unfolding gen_loop
  gen_loop-KeepsAll b g h = search (keeps, emits, c, t, close_loop-KeepsAll) depth 24

pub gen_continue-KeepsAll : KeepsAll gen_continue
unfolding gen_continue
gen_continue-KeepsAll g h = search (keeps, emits) depth 14

pub gen_break-KeepsAll : KeepsAll gen_break
unfolding gen_break
gen_break-KeepsAll g h = search (keeps, emits) depth 14

check_args-KeepsAll : (as' : List Text) → KeepsAll (check_args as')
unfolding check_args
check_args-KeepsAll [] g h = search (keeps) depth 14
check_args-KeepsAll (a ∷ as') g h = search (keeps, check_args-KeepsAll as') depth 14

bind_args-KeepsAll : (i : ℕ) (as' : List Text) → KeepsAll (bind_args i as')
unfolding bind_args
bind_args-KeepsAll i [] g h = search (keeps) depth 14
bind_args-KeepsAll i (a ∷ as') g h =
    search (keeps, emits, declare_at-KeepsAll, bind_args-KeepsAll (i + 1) as') depth 14

pub gen_function-KeepsAll :
    (n : Text) (as' : List Text) (b : Bool) (body : Gen ℕ)
    → KeepsAll body
    → KeepsAll (gen_function n as' b body)
unfolding gen_function
gen_function-KeepsAll n as' b body k g h =
    search (keeps, emits, k, check_args-KeepsAll, bind_args-KeepsAll, new_func-KeepsAll) depth 24

ret_type_name-KeepsAll : (t : Option TypeNode) → KeepsAll (ret_type_name t)
unfolding ret_type_name
ret_type_name-KeepsAll none g h = search (keeps) depth 14
ret_type_name-KeepsAll (some t) g h = search (keeps) depth 14

declare_externs-KeepsAll : (m : Text) (fs : List ExternFunc) → KeepsAll (declare_externs m fs)
unfolding declare_externs add_constant
declare_externs-KeepsAll m [] g h = search (keeps) depth 14
declare_externs-KeepsAll m (f ∷ fs) g h =
    search (keeps, emits, ret_type_name-KeepsAll, declare_externs-KeepsAll m fs) depth 24

qualified_name-KeepsAll : (n : Text) → KeepsAll (qualified_name n)
unfolding qualified_name
qualified_name-KeepsAll n g h =
    elim g.cur_module
      as (λ (m : Text).
        let r : Option (Text × Generator) = elim m [
          | [] ↦ some (n, if g.module_stream_good then record g { cur_module = n } else g)
          | c ∷ cs ↦ some ((c ∷ cs) ++ (b'.' ∷ n), g)
        ] in
        Keeps r) [
          | [] ↦
              Keeps-return n _ (Emitted-if g.module_stream_good (record g { cur_module = n }) g h h)
          | c ∷ cs ↦ Keeps-return _ g h
        ]

load_module-KeepsAll : (b : Bool) (l : Option Text) → KeepsAll (load_module b l)
unfolding load_module
load_module-KeepsAll false l g h = search (keeps) depth 14
load_module-KeepsAll true none g h = search (keeps) depth 14
load_module-KeepsAll true (some l) g h = search (keeps, emits, gen_string-KeepsAll) depth 14

pub gen_module-KeepsAll :
    (n : Text) (d : Bool) (l : Option Text) (fs : List ExternFunc) → KeepsAll (gen_module n d l fs)
unfolding gen_module
gen_module-KeepsAll n d l fs g h =
    search
      (
        keeps, emits, load_module-KeepsAll, qualified_name-KeepsAll, declare-KeepsAll,
        declare_externs-KeepsAll,
      )
      depth 24
