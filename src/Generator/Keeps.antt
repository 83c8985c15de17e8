-- ===== src/Generator/Keeps.antt =====
-- compiler/generator/generator.cpp: what a computation of the generator keeps of the program.
pub mod Expr
pub mod Stmt
pub mod Tree
pub mod Program
use mylamina.Base.{Bool, true, false, Option, none, some, if◌then◌else◌, refl}
use mylamina.Emit.{Emitter}
use mylamina.Emit.Shape.{
  Emitted, EmittedBy, emit_mov_ri-Emitted, emit_regs-Emitted, emit_fcall-Emitted, emit_jmp-Emitted,
  emit_if_true-Emitted, emit_if_false-Emitted, emit_func_create-Emitted, emit_func_end-Emitted,
  emit_local_get-Emitted, emit_local_set-Emitted, emit_vmc-Emitted, emit_mov_rc-Emitted,
  emit_dec-Emitted, emit_mov_rr-EmittedBy, emit_fret-EmittedBy,
}
use mylamina.Base.{[], ◌∷◌}
use mylamina.Generator.State.{Generator, Gen, and_then, emitted, from_option}

abbrev Fine : {A : Type 0} → Option (A × Generator) → Type 0
Fine none = Unit
Fine (some (a, g)) = Emitted g.emitter.ops

-- The computation crashes, or leaves a program of emitted instructions.
pub record Keeps {A : Type 0} (x : Option (A × Generator)) : Type 0 where
  pub fine : Fine x

module _ {A : Type 0} where
  pub Keeps-return : (a : A) (g : Generator) → Emitted g.emitter.ops → Keeps (some (a, g))
  Keeps-return a g h = record { fine = h }

  pub Keeps-crash : Keeps {A = A} none
  Keeps-crash = record { fine = tt }

  pub Keeps-if :
      (b : Bool) (x y : Option (A × Generator)) → Keeps x → Keeps y → Keeps (if b then x else y)
  Keeps-if true x y h k = h
  Keeps-if false x y h k = k

  pub Keeps-choose :
      (b : Bool) (p q : Gen A) (g : Generator)
      → Keeps (p g)
      → Keeps (q g)
      → Keeps ((if b then p else q) g)
  Keeps-choose true p q g h k = h
  Keeps-choose false p q g h k = k

  pub Keeps-then :
      {B : Type 0} (x : Option (B × Generator)) (f : B → Gen A)
      → Keeps x
      → ((b : B) (g : Generator) → Emitted g.emitter.ops → Keeps (f b g))
      → Keeps (and_then x f)
  Keeps-then none f h k = record { fine = tt }
  Keeps-then (some (b, g)) f h k = k b g h.fine

pub Keeps-emit_opt : (r : Option Emitter) (g : Generator) → EmittedBy r → Keeps (emitted r g)
Keeps-emit_opt none g h = record { fine = tt }
Keeps-emit_opt (some e) g h = record { fine = h.by e refl }

pub Keeps-from_option :
    {A : Type 0} (o : Option A) (g : Generator) → Emitted g.emitter.ops → Keeps (from_option o g)
Keeps-from_option none g h = record { fine = tt }
Keeps-from_option (some a) g h = record { fine = h }

pub Emitted-if :
    (b : Bool) (g g' : Generator)
    → Emitted g.emitter.ops
    → Emitted g'.emitter.ops
    → Emitted (if b then g else g').emitter.ops
Emitted-if true g g' h k = h
Emitted-if false g g' h k = k

pub ruleset keeps = (
  Keeps-choose, Emitted-if, Keeps-return, Keeps-crash, Keeps-if, Keeps-then, Keeps-emit_opt,
  Keeps-from_option,
)

pub ruleset emits = (
  emit_mov_ri-Emitted, emit_regs-Emitted, emit_fcall-Emitted, emit_jmp-Emitted,
  emit_if_true-Emitted, emit_if_false-Emitted, emit_func_create-Emitted, emit_func_end-Emitted,
  emit_local_get-Emitted, emit_local_set-Emitted, emit_vmc-Emitted, emit_mov_rc-Emitted,
  emit_dec-Emitted, emit_mov_rr-EmittedBy, emit_fret-EmittedBy,
)

abbrev pub KeepsAll : {A : Type 0} → Gen A → Type 0
KeepsAll m = (g : Generator) → Emitted g.emitter.ops → Keeps (m g)
