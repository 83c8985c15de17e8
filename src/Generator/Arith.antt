-- ===== src/Generator/Arith.antt =====
-- Integer expressions: what the code of `gen_num`, `gen_var_ref`, `gen_unary` and `gen_binary` is
-- to compute, and what it means that it does.
mod Steps
mod Operators
pub mod Meaning
mod Variables
mod Code
mod Unary
mod Leaves
mod Store
pub mod Correct
pub mod Run
pub mod Let
use mylamina.Base.{ℕ, suc, ◌+◌, ◌^◌, ◌-◌, ◌<◌, ◌≤◌, ◌≡◌, ◌≢◌, refl, true, false, List, []}
use mylamina.Base.{◌∷◌, ◌++◌, Option, none, some, ◌>>=◌, if◌then◌else◌, get_elem?, length}
use mylamina.Base.{ℤ, pos, ◌-ℤ◌}
use mylamina.Base.{>>=-eq-some, Text, lookup}
use Prim.Native.Nat.{max}
use mylamina.Opcode.{Op, Opcode, operand, set_operand}
use mylamina.Emit.{reg}
use mylamina.Value.{Value, ValueType, int, as_i64}
use mylamina.Vm.State.{VirtualCore, StackFrame, Host}
use mylamina.Vm.Straight.{execs, is_straight, IsStraight}
use mylamina.Vm.Effects.{HoldsInt}
use mylamina.Alloc.{Allocator, set_bit}
use mylamina.Alloc.Laws.{free_count}
use mylamina.Scope.{CompilingFrame, find_var, uint16_max}
use mylamina.Ast.{Node, num_literal, var_ref, unary, binary}
use mylamina.Generator.State.{Generator, Gen, sto}
use mylamina.Generator.Arith.Meaning.{meaning, in_range, IsOperator}

-- The integer in a local: `none` for a value of another type or a local that is not there.
abbrev int_of : ValueType → ℤ → Option ℤ
int_of int n = some n
int_of _ n = none

abbrev pub local_at : List StackFrame → ℕ → ℕ → Option Value
local_at stack frame addr = do f ← get_elem? stack frame; get_elem? f.locals addr

abbrev pub local_int : List StackFrame → ℕ → ℕ → Option ℤ
local_int stack frame addr = do v ← local_at stack frame addr; int_of v.type (as_i64 v)

abbrev pub minus : Option ℤ → Option ℤ
minus o = do a ← o; in_range (pos 0 -ℤ a)

pub minus_inv :
    (o : Option ℤ) {v : ℤ}
    → minus o ≡ some v
    → (a : ℤ) × (o ≡ some a) × (in_range (pos 0 -ℤ a) ≡ some v)
minus_inv o h = >>=-eq-some o (λ a. in_range (pos 0 -ℤ a)) h

abbrev pub apply2 : (ℤ → ℤ → Option ℤ) → Option ℤ → Option ℤ → Option ℤ
apply2 f x y = do a ← x; b ← y; f a b

pub apply2_inv :
    (f : ℤ → ℤ → Option ℤ) (x y : Option ℤ) {v : ℤ}
    → apply2 f x y ≡ some v
    → (a : ℤ) × (b : ℤ) × (x ≡ some a) × (y ≡ some b) × (f a b ≡ some v)
apply2_inv f none y h = cc
apply2_inv f (some a) none h = cc
apply2_inv f (some a) (some b) h = (a, b, refl, refl, h)

-- The integer in the innermost variable of a name: the generator's frames name the machine's, one
-- by one from the innermost.
unfoldable pub var_value : Text → List CompilingFrame → List StackFrame → Option ℤ
var_value n (f ∷ fs) (s ∷ ss) = elim (lookup n f.locals) [
  | some (m, a) ↦ (do v ← get_elem? s.locals a; int_of v.type (as_i64 v))
  | none ↦ var_value n fs ss
]
var_value n [] ss = none
var_value n (f ∷ fs) [] = none

-- The value of an expression in exact `int64_t` arithmetic: `none` where an operation overflows or
-- divides by zero. The operators have the `meaning` of their texts, and the variables are those of the
-- machine's frames, each the innermost of its name.
unfoldable pub eval : List CompilingFrame → List StackFrame → Node → Option ℤ
eval frames stack (num_literal t) = do n ← sto (2 ^ 63 - 1) t; some (pos n)
eval frames stack (var_ref n) = var_value n frames stack
eval frames stack (unary op e) = minus (eval frames stack e)
eval frames stack (binary l r op) = apply2 (meaning op) (eval frames stack l) (eval frames stack r)
eval frames stack _ = none

-- The expressions of numerals that fit, known variables, `-`, and the five operators.
abbrev pub IsArith : List CompilingFrame → Node → Type 0
IsArith frames (num_literal t) = (n : ℕ) × (sto (2 ^ 63 - 1) t ≡ some n)
IsArith frames (var_ref n) = ((find_var n frames).1.1 < uint16_max) × ((find_var n frames).0 < 256)
IsArith frames (unary op e) = (op ≡ b'-' ∷ []) × IsArith frames e
IsArith frames (binary l r op) = IsOperator op × IsArith frames l × IsArith frames r
IsArith frames _ = ⊥

-- How many registers the code of an expression holds at a time.
unfoldable pub need : Node → ℕ
need (unary op e) = max (need e) 2
need (binary l r op) = suc (max (need l) (max (need r) 3))
need _ = 1

-- `code` puts the integer `v` into register `d`, and leaves those of `used` and all else alone.
abbrev pub Puts : Host → Allocator → List Op → VirtualCore → ℕ → ℤ → Type 0
Puts host used code s d v =
    (regs : ℕ → Value) × (execs host code s
      ≡ some (record s { pc = s.pc + length code; regs = regs }))
    × HoldsInt (regs d) v
    × ((i : ℕ) → used i ≡ true → i ≢ d → regs i ≡ s.regs i)

-- The generator with a program that ends with a register instruction, and with these registers.
abbrev pub full : Generator → List Op → Allocator → Generator
full g ops bits = record g {
  emitter = record { ops = ops; ret_type = reg };
  regs = bits;
  expr_release = true;
}

-- The generator behind `code`, which ends with an instruction on the newly taken register `r`.
abbrev pub extended : Generator → ℕ → List Op → Generator
extended g r code = full g (g.emitter.ops ++ code) (set_bit r true g.regs)

-- The run of `m` on `g` takes one free register, appends straight code that ends with a write of
-- that register, and the code computes `value` into it, or into any register that takes its place
-- as the target of the last instruction.
pub record Compiled (host : Host) (value : List StackFrame → Option ℤ) (m : Gen ℕ) (g : Generator)
    : Type 0 where
  pub r : ℕ
  pub init : List Op
  pub last : Op
  pub was_free : g.regs r ≡ false
  pub in_range : r < 255
  pub target : operand last 0 ≡ r
  pub result : m g ≡ some (r, extended g r (init ++ (last ∷ [])))
  pub straight : IsStraight init
  pub last_straight : is_straight last.op ≡ true
  pub computes :
      (s : VirtualCore) (d : ℕ) {v : ℤ}
      → d < 255
      → value s.cur ≡ some v
      → Puts host g.regs (init ++ (set_operand last 0 d ∷ [])) s d v

-- `m` compiles wherever `need` registers are free.
abbrev pub Compiles : Host → List CompilingFrame → ℕ → (List StackFrame → Option ℤ) → Gen ℕ → Type 0
Compiles host frames need value m =
    (g : Generator)
    → g.cur ≡ frames
    → g.regs 0 ≡ true
    → need ≤ free_count g.regs
    → Compiled host value m g
