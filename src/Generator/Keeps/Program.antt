-- ===== src/Generator/Keeps/Program.antt =====
-- compiler/generator/generator.cpp: the program that `gen` leaves.
use mylamina.Base.{ℕ, ◌≡◌, refl, List, [], ◌∷◌, ◌++◌, some, none, All, Text, Option}
use mathlib.Core.Path.{subst}
use mylamina.Opcode.{Op, halt, new_op}
use mylamina.Emit.{emit_halt}
use mylamina.Emit.Shape.{IsEmitted, Emitted}
use mylamina.Ast.{Node}
use mylamina.Generator.State.{Generator, Gen, and_then}
use mylamina.Generator.Tree.{sub_gen, gen}
use mylamina.Generator.Keeps.{Keeps, KeepsAll}
use mylamina.Generator.Keeps.Tree.{sub_gen-KeepsAll}

-- Emitted instructions, and a HALT behind them.
pub record IsProgram (ops : List Op) : Type 0 where
  pub body : List Op
  pub each : All IsEmitted body
  pub ends : ops ≡ body ++ (new_op halt ∷ [])

abbrev Ends : Option (ℕ × Generator) → Type 0
Ends none = Unit
Ends (some (r, g)) = IsProgram g.emitter.ops

ended :
    (x : Option (ℕ × Generator))
    → Keeps x
    → Ends (and_then x (λ r g. some (r, record g { errors = []; emitter = emit_halt (g.emitter) })))
unfolding emit_halt
ended none k = tt
ended (some (r, g)) k = record { body = g.emitter.ops; each = k.fine.each; ends = refl }

-- Where the compilation of other files keeps a program of emitted instructions one, `gen` on such a
-- program, for any tree, crashes or leaves emitted instructions with one HALT behind them: an
-- enumerator for an opcode, no HALT, and 12 operand bytes in each.
pub gen-IsProgram :
    (c : Text → Gen ℕ) (n : Node) (g : Generator) {r : ℕ} {g' : Generator}
    → ((path : Text) → KeepsAll (c path))
    → Emitted g.emitter.ops
    → gen c n g ≡ some (r, g')
    → IsProgram g'.emitter.ops
unfolding gen
gen-IsProgram c n g k h e = subst Ends e (ended (sub_gen c n g) (sub_gen-KeepsAll c k n g h))
