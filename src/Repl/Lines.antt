-- ===== src/Repl/Lines.antt =====
-- tools/lm/common/repl.cpp: the loop over lines of input, where each is an integer expression.
use mathlib.Core.Path.{subst}
use mylamina.Base.{ℕ, suc, ◌≤◌, ◌≡◌, refl, false, List, [], ◌∷◌, ◌++◌, some, sym, ap, ◌∙◌, Text, ℤ}
use mylamina.Lexer.{Token, Pos, end_of_file}
use mylamina.Lexer.Next.{Tokens, tokenize}
use mylamina.Alloc.{Allocator}
use mylamina.Alloc.Laws.{free_count}
use mylamina.Scope.{CompilingFrame}
use mylamina.Parser.Grammar.{Syntax, tokens, node, size, IsWf}
use mylamina.Generator.State.{Gen}
use mylamina.Generator.Arith.{IsArith, need, eval}
use mylamina.Vm.State.{Host, StackFrame}
use mylamina.Repl.{Repl, goes_on, Memory, repl_line}
use mylamina.Repl.Session.{IsReady, is_command, repl_line-arith}

-- The rounds of the loop on some lines, each with a number of passes of the machine.
pub data Rounds (host : Host) (c : Text → Gen ℕ) (memory : Memory) (k : ℕ)
    : Repl → List Text → Repl → Type 0 where
  stay : (r : Repl) → Rounds host c memory k r [] r
  round :
      {r s t : Repl} {input : Text} {inputs : List Text} (passes : ℕ)
      → repl_line host c memory k passes input r ≡ goes_on s
      → Rounds host c memory k s inputs t
      → Rounds host c memory k r (input ∷ inputs) t

-- What the lexer makes of a line, which number it may have: an expression with this value.
pub record Expression (names : List CompilingFrame) (stack : List StackFrame) (regs : Allocator)
    (k : ℕ) (input : Text) (v : ℤ) (line : ℕ) : Type 0 where
  pub e : Syntax
  pub fin : Token
  pub end_pos : Pos
  pub lexed : tokenize input line ≡ (Tokens.done (tokens e ++ (fin ∷ [])) end_pos, false)
  pub wf : IsWf e
  pub fuel : suc (size e) ≤ k
  pub closes : fin.type ≡ end_of_file
  pub arith_ok : IsArith names (node e)
  pub enough : need (node e) ≤ free_count regs
  pub value : eval names stack (node e) ≡ some v

abbrev pub AllLines :
    List CompilingFrame → List StackFrame → Allocator → ℕ → List (Text × ℤ) → Type 0
AllLines names stack regs k [] = Unit
AllLines names stack regs k ((input, v) ∷ ls) =
    (is_command input ≡ false)
    × ((line : ℕ) → Expression names stack regs k input v line)
    × AllLines names stack regs k ls

abbrev pub shown_after : List (Text × ℤ) → List ℤ → List ℤ
shown_after [] shown = shown
shown_after ((input, v) ∷ ls) shown = shown_after ls (v ∷ shown)

abbrev pub texts : List (Text × ℤ) → List Text
texts [] = []
texts ((input, v) ∷ ls) = input ∷ texts ls

module _ (host : Host) (c : Text → Gen ℕ) (memory : Memory) (k : ℕ) (names : List CompilingFrame)
    (stack : List StackFrame) (regs : Allocator) where
  -- From a loop that is ready, with these names, frames and registers: lines that are no commands,
  -- and each of which the lexer reads, at whatever line number, as an `Expression` with a value. The
  -- loop takes a round for each, for some numbers of passes of the machine; then the values have been
  -- shown one after the other, and the loop is ready again.
  pub Rounds-arith :
      (ls : List (Text × ℤ)) (r : Repl)
      → IsReady r
      → r.generator.cur ≡ names
      → r.core.cur ≡ stack
      → r.generator.regs ≡ regs
      → AllLines names stack regs k ls
      → (t : Repl) × Rounds host c memory (suc k) r (texts ls) t
        × (t.shown ≡ shown_after ls r.shown)
        × IsReady t
  Rounds-arith [] r ready same_names same_stack same_regs all = (r, stay r, refl, ready)
  Rounds-arith ((input, v) ∷ ls) r ready same_names same_stack same_regs (source, read, all) =
      let x = read r.line in
      let value : eval r.generator.cur r.core.cur (node x.e) ≡ some v =
        ap (λ fs. eval fs r.core.cur (node x.e)) same_names
        ∙ ap (λ st. eval names st (node x.e)) same_stack
        ∙ x.value in
      let (passes, a) =
        repl_line-arith host c memory input x.e x.fin x.end_pos k r v source x.lexed x.wf x.fuel
          x.closes ready (subst (λ fs. IsArith fs (node x.e)) (sym same_names) x.arith_ok)
          (subst (λ (b : Allocator). need (node x.e) ≤ free_count b) (sym same_regs) x.enough)
          value in
      let (t, rounds, shown, ready') =
        Rounds-arith ls a.after a.ready (a.names ∙ same_names) (a.frames ∙ same_stack)
          (a.registers ∙ same_regs) all in
      (t, round passes a.result rounds, shown ∙ ap (shown_after ls) a.shown, ready')
