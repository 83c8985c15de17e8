-- ===== src/Tests/Compile.antt =====
-- The generator, its registers and its names at concrete inputs.
use mylamina.Base.{ℕ, ◌≡◌, ◌≢◌, refl, Bool, true, false, [], ◌∷◌, ◌++◌, ℤ}
use mylamina.Base.{none, some, Text, length, arith, lookup, insert, text_eq}
use mylamina.Opcode.{Op}
use mylamina.Alloc.{Allocator, new_allocator, alloc, free, set_bit}
use mylamina.Alloc.Laws.{free_count, alloc-free}
use mylamina.Scope.{CompilingFrame, new_compiling_frame, new_var, find_var, index_var}
use mylamina.Scope.Laws.{
  find_var-new_var, new_var-IsPacked, IsPacked, next_address, index_var-outermost,
}
use mylamina.Ast.{Node, num_literal, unary, binary}
use mylamina.Vm.{run}
use mylamina.Vm.State.{VirtualCore, returned}
use mylamina.Vm.Effects.{HoldsInt}
use mylamina.Generator.State.{Generator, Gen, new_generator, sto}
use mylamina.Generator.Expr.{operator}
use mylamina.Generator.Tree.{gen}
use mylamina.Generator.Arith.{need, eval}
use mylamina.Generator.Arith.Meaning.{plus, star}
use mylamina.Generator.Arith.Run.{gen_runs}
use mylamina.Base.{get_elem?, List}
use mylamina.Alloc.{size_max}
use mylamina.Value.{Value}
use mylamina.Vm.State.{StackFrame}
use mylamina.Vm.Straight.{execs}
use mylamina.Vm.Locals.{local_of}
use mylamina.Generator.Stmt.{gen_assign}
use mylamina.Generator.Tree.{sub_gen}
use mylamina.Generator.Arith.{local_int}
use mylamina.Generator.Arith.Let.{gen_let}
use mylamina.Tests.Hosts.{plain_host}

abbrev empty_global : CompilingFrame
empty_global = record {
  name = b'g' ∷ b'l' ∷ b'o' ∷ b'b' ∷ b'a' ∷ b'l' ∷ [];
  locals = [];
  local_count = 0xffff;
}

abbrev number : ℕ → Node
number c = num_literal (c ∷ [])

-- 2 + 3 * -4
abbrev sum : Node
sum =
    binary (number b'2') (binary (number b'3') (unary (b'-' ∷ []) (number b'4')) (b'*' ∷ []))
      (b'+' ∷ [])

abbrev no_file : Text → Gen ℕ
no_file path g = none

gen_runs_example :
    (r : ℕ) × (g' : Generator) × (gen no_file sum new_generator ≡ some (r, g'))
    × ((s : VirtualCore) (v : ℤ)
        → s.program ≡ g'.emitter.ops
        → s.pc ≡ length new_generator.emitter.ops
        → eval new_generator.cur s.cur sum ≡ some v
        → (fuel : ℕ) × (t : VirtualCore) × (run plain_host fuel s ≡ some (returned 0 t))
          × HoldsInt (t.regs r) v
          × ((i : ℕ) → new_generator.regs i ≡ true → t.regs i ≡ s.regs i)
          × (t.cur ≡ s.cur))
unfolding new_generator operator sto new_allocator need free_count
gen_runs_example =
    gen_runs plain_host no_file sum new_generator
      (plus, (2, refl), (star, (3, refl), (refl, (4, refl)))) refl (omega arith)

-- Registers 0 and 2 are taken.
abbrev two_taken : Allocator
two_taken = set_bit 2 true (set_bit 0 true (λ i. false))

alloc-free_example :
    (r : ℕ) × (two_taken r ≡ false)
    × (alloc two_taken ≡ (r, set_bit r true two_taken))
    × (free r (set_bit r true two_taken) ≡ two_taken)
unfolding free_count
alloc-free_example = alloc-free two_taken refl (omega arith)

abbrev x : Text
x = b'x' ∷ []

abbrev y : Text
y = b'y' ∷ []

-- A frame with the variable x at the address 0.
abbrev with_x : CompilingFrame
with_x = record { name = []; locals = (x, (true, 0)) ∷ []; local_count = 0 }

abbrev empty_frame : CompilingFrame
empty_frame = record { name = []; locals = []; local_count = 0xffff }

find_var-new_var_example :
    (f' : CompilingFrame) × (new_var y true with_x ≡ (f', next_address with_x, true))
    × (find_var y (f' ∷ []) ≡ (0, (true, next_address with_x)))
    × ((m : Text) → text_eq y m ≡ false → find_var m (f' ∷ []) ≡ find_var m (with_x ∷ []))
unfolding lookup
find_var-new_var_example = find_var-new_var y true with_x [] refl

empty_frame-IsPacked : IsPacked empty_frame
unfolding lookup
empty_frame-IsPacked = record { bounded = λ n m a e. cc }

new_var-IsPacked_example :
    (f' : CompilingFrame) × (new_var y true empty_frame ≡ (f', next_address empty_frame, true))
    × IsPacked f'
    × ((m : Text) (b : Bool) (a : ℕ)
        → lookup m empty_frame.locals ≡ some (b, a)
        → a ≢ next_address empty_frame)
unfolding lookup
new_var-IsPacked_example =
    new_var-IsPacked y true empty_frame empty_frame-IsPacked refl (omega arith)

-- x stands at the address 1 of the innermost frame.
abbrev second : CompilingFrame
second = record { name = []; locals = (y, (true, 0)) ∷ (x, (true, 1)) ∷ []; local_count = 1 }

index_var-outermost_example :
    (find_var x (second ∷ ([] ++ (empty_frame ∷ []))) ≡ (0, (true, 1)))
    × (index_var x 0 (second ∷ ([] ++ (empty_frame ∷ [])))
        ≡ some (0, second ∷ ([] ++ (record empty_frame { locals = insert x (false, 0) [] } ∷ []))))
unfolding lookup
index_var-outermost_example = index_var-outermost x true 1 second empty_frame [] refl refl

-- let x = 2 + 3 * -4
gen_let_example :
    (code : List Op) × (g' : Generator) × (gen_assign x (sub_gen no_file sum) true new_generator
      ≡ some (size_max, g'))
    × (g'.emitter.ops ≡ new_generator.emitter.ops ++ code)
    × (g'.regs ≡ new_generator.regs)
    × (find_var x g'.cur ≡ (0, (true, next_address empty_global)))
    × ((s : VirtualCore) (fr : StackFrame) (old : Value) (v : ℤ)
        → get_elem? s.cur 0 ≡ some fr
        → get_elem? fr.locals (next_address empty_global) ≡ some old
        → eval new_generator.cur s.cur sum ≡ some v
        → (t : VirtualCore) × (execs plain_host code s ≡ some t)
          × (local_int t.cur 0 (next_address empty_global) ≡ some v)
          × ((k : ℕ) → next_address empty_global ≢ k → local_of t.cur 0 k ≡ local_of s.cur 0 k)
          × ((i : ℕ) → new_generator.regs i ≡ true → t.regs i ≡ s.regs i))
unfolding new_generator operator sto new_allocator need free_count new_compiling_frame find_var
    lookup
gen_let_example =
    gen_let plain_host no_file sum x true new_generator empty_global [] refl
      (plus, (2, refl), (star, (3, refl), (refl, (4, refl)))) refl (omega arith) refl refl
