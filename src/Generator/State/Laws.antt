-- ===== src/Generator/State/Laws.antt =====
-- Rules for the computations of the generator.
use mylamina.Base.{◌≡◌, ap, Option, some}
use mylamina.Emit.{Emitter}
use mylamina.Generator.State.{Generator, Gen, ◌>>=◌, emit_opt, and_then, emitted}

pub bind_some :
    {A B : Type 0} (m : Gen A) (f : A → Gen B) (g : Generator) {a : A} {g' : Generator}
    → m g ≡ some (a, g')
    → (m >>= f) g ≡ f a g'
bind_some m f g p = ap (λ o. and_then o f) p

pub emit_opt-some :
    (f : Emitter → Option Emitter) (g : Generator) {e : Emitter}
    → f g.emitter ≡ some e
    → emit_opt f g ≡ some (tt, record g { emitter = e })
emit_opt-some f g p = ap (λ o. emitted o g) p
