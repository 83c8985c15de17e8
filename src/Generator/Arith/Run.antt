-- ===== src/Generator/Arith/Run.antt =====
-- The machine on a generated program, from the first instruction to HALT.
use mylamina.Base.{ℕ, ◌+◌, ◌≤◌, ◌<◌, ◌≡◌, refl, true, false, List, [], ◌∷◌}
use mylamina.Base.{◌++◌, some, arith, sym, ◌∙◌, ℤ, Text, length, get_elem?}
use mylamina.Base.{append_assoc, length-append, get_elem?-append_length}
use native.Mathlib.Nat.{add-zero}
use mylamina.Opcode.{Op, new_op, halt}
use mylamina.Emit.{emit_halt, nothing}
use mylamina.Value.{Value}
use mylamina.Vm.{run, step, execute}
use mylamina.Vm.State.{VirtualCore, Host, returned}
use mylamina.Vm.Straight.{IsStraight, IsStraight-append, execs, run_straight}
use mylamina.Vm.Effects.{HoldsInt}
use mylamina.Alloc.{Allocator}
use mylamina.Alloc.Laws.{free_count}
use mylamina.Ast.{Node}
use mylamina.Generator.State.{Generator, Gen, ◌>>◌, return, modify, emit}
use mylamina.Generator.State.Laws.{bind_some}
use mylamina.Generator.Tree.{sub_gen, gen}
use mylamina.Generator.Arith.{extended, Puts, IsArith, need, eval}
use mathlib.Core.Path.{subst}
use mylamina.Generator.Arith.Code.{set_operand_self}
use mylamina.Generator.Arith.Correct.{sub_gen-Compiles}

apart : (bits : Allocator) (r i : ℕ) → bits r ≡ false → bits i ≡ true → i ≡ r → ⊥
apart bits r i f t e = cc

module _ (host : Host) where
  run_halt :
      (pre : List Op) (t : VirtualCore)
      → t.program ≡ pre ++ (new_op halt ∷ [])
      → t.pc ≡ length pre
      → run host 1 t ≡ some (returned 0 t)
  unfolding run step execute new_op
  run_halt pre t p q =
      let f : get_elem? t.program t.pc ≡ some (new_op halt) =
        rw (p, q) (rw add-zero at (get_elem?-append_length pre (new_op halt ∷ []) 0)) in
      ground (arith, f)

  -- Straight code, then HALT.
  run_code :
      (pre code : List Op) (s t : VirtualCore)
      → IsStraight code
      → s.program ≡ (pre ++ code) ++ (new_op halt ∷ [])
      → s.pc ≡ length pre
      → execs host code s ≡ some t
      → run host (length code + 1) s ≡ some (returned 0 t)
  run_code pre code s t st p q e =
      let (i, j, k) =
        run_straight host code pre (new_op halt ∷ []) 1 s st
          (p ∙ append_assoc pre code (new_op halt ∷ [])) q e in
      i ∙ run_halt (pre ++ code) t (k ∙ p) (j ∙ sym (length-append pre code))

  -- The generator behind `gen`.
  abbrev pub ended : Generator → Generator
  ended g = record g {
    errors = [];
    emitter = record { ops = g.emitter.ops ++ (new_op halt ∷ []); ret_type = nothing };
  }

  gen_lem :
      (c : Text → Gen ℕ) (e : Node) (g g' : Generator) (r : ℕ)
      → sub_gen c e g ≡ some (r, g')
      → gen c e g ≡ some (r, ended g')
  unfolding gen emit_halt
  gen_lem c e g g' r p =
      bind_some (sub_gen c e)
        (λ r. do modify (λ g. record g { errors = [] }); emit emit_halt; return r) g p

  -- The register, the code and the run of it, exactly.
  pub gen_exact :
      (c : Text → Gen ℕ) (e : Node) (g : Generator)
      → IsArith g.cur e
      → g.regs 0 ≡ true
      → need e ≤ free_count g.regs
      → (r : ℕ) × (code : List Op) × (r < 255)
        × (g.regs r ≡ false)
        × (gen c e g ≡ some (r, ended (extended g r code)))
        × ((s : VirtualCore) (v : ℤ)
            → s.program ≡ (g.emitter.ops ++ code) ++ (new_op halt ∷ [])
            → s.pc ≡ length g.emitter.ops
            → eval g.cur s.cur e ≡ some v
            → (regs : ℕ → Value) × (run host (length code + 1) s
                ≡ some (returned 0 (record s { pc = s.pc + length code; regs = regs })))
              × HoldsInt (regs r) v
              × ((i : ℕ) → g.regs i ≡ true → regs i ≡ s.regs i))
  gen_exact c e g h z enough =
      let C = sub_gen-Compiles host g.cur c e h g refl z enough in
      let code : List Op = C.init ++ (C.last ∷ []) in
      (
        C.r,
        code,
        C.in_range,
        C.was_free,
        gen_lem c e g (extended g C.r code) C.r C.result,
        λ s v p q ev.
            let (regs, run, holds, keep) =
              subst (λ (o : Op). Puts host g.regs (C.init ++ (o ∷ [])) s C.r v)
                (set_operand_self C.last C.r C.target) (C.computes s C.r C.in_range ev) in
            (
              regs,
              run_code g.emitter.ops code s (record s { pc = s.pc + length code; regs = regs })
                  (IsStraight-append C.init (C.last ∷ []) C.straight (C.last_straight, tt)) p q run,
              holds,
              λ i taken. keep i taken (λ e. apart g.regs C.r i C.was_free taken e),
            ),
      )

  -- For an expression of numerals that fit, variables in sight, unary minus and the five operators, with
  -- register 0 taken and as many registers free as the expression needs, `gen` succeeds. If the
  -- expression has a value (the operators by the `meaning` of their texts, without overflow, and with int
  -- variables), the machine that starts at the new
  -- code halts with the value in the register that `gen` returned, with the registers that the
  -- generator had taken and the frames as before.
  pub gen_runs :
      (c : Text → Gen ℕ) (e : Node) (g : Generator)
      → IsArith g.cur e
      → g.regs 0 ≡ true
      → need e ≤ free_count g.regs
      → (r : ℕ) × (g' : Generator) × (gen c e g ≡ some (r, g'))
        × ((s : VirtualCore) (v : ℤ)
            → s.program ≡ g'.emitter.ops
            → s.pc ≡ length g.emitter.ops
            → eval g.cur s.cur e ≡ some v
            → (fuel : ℕ) × (t : VirtualCore) × (run host fuel s ≡ some (returned 0 t))
              × HoldsInt (t.regs r) v
              × ((i : ℕ) → g.regs i ≡ true → t.regs i ≡ s.regs i)
              × (t.cur ≡ s.cur))
  gen_runs c e g h z enough =
      let (r, code, small, free, result, runs) = gen_exact c e g h z enough in
      (
        r,
        ended (extended g r code),
        result,
        λ s v p q ev.
            let (regs, run, holds, keep) = runs s v p q ev in
            (
              length code + 1,
              record s { pc = s.pc + length code; regs = regs },
              run,
              holds,
              keep,
              refl,
            ),
      )
