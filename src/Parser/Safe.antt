-- ===== src/Parser/Safe.antt =====
-- compiler/parser.cpp: what every function of the parser keeps.
use mylamina.Base.{ℕ, zero, suc, ◌+◌, ◌-◌, ◌≤◌, ◌≡◌, refl, Bool, true, false, length, if◌then◌else◌}
use mylamina.Base.{arith, ◌∙◌}
use mylamina.Lexer.{comment, unknown}
use mylamina.Parser.State.{
  ParserState, ParseError, Parsing, Parse, parsed, thrown, stopped, undefined, no_fuel, and_then,
  cur, match, advance_within, advance, advance_back, unknown_token,
}

-- From one state to a later one: the tokens stay, the position is not moved behind them, and
-- without an error no message is printed.
pub record Later (s t : ParserState) : Type 0 where
  pub same : t.tokens ≡ s.tokens
  pub within : s.pos ≤ length s.tokens → t.pos ≤ length t.tokens
  pub quiet : t.has_err ≡ false → (s.has_err ≡ false) × (t.messages ≡ s.messages)

-- An error is thrown behind `has_err = true`.
abbrev pub Fine : {A : Type 0} → Parsing A → ParserState → Type 0
Fine (parsed a t) s = Later s t
Fine (thrown e t) s = Later s t × (t.has_err ≡ true)
Fine stopped s = Unit
Fine undefined s = Unit
Fine no_fuel s = Unit

pub record Safe {A : Type 0} (x : Parsing A) (s : ParserState) : Type 0 where
  pub fine : Fine x s

Later-refl : (s : ParserState) → Later s s
Later-refl s = record { same = refl; within = λ h. h; quiet = λ h. (h, refl) }

Later-trans : {s t u : ParserState} → Later s t → Later t u → Later s u
Later-trans p q = record {
  same = q.same ∙ p.same;
  within = λ h. q.within (p.within h);
  quiet = λ h. let (a, b) = q.quiet h in let (c, d) = p.quiet a in (c, b ∙ d);
}

module _ {A : Type 0} where
  Safe-later : (x : Parsing A) {s t : ParserState} → Later s t → Safe x t → Safe x s
  Safe-later (parsed a u) p q = record { fine = Later-trans p q.fine }
  Safe-later (thrown e u) p q = record { fine = (Later-trans p q.fine.0, q.fine.1) }
  Safe-later stopped p q = record { fine = tt }
  Safe-later undefined p q = record { fine = tt }
  Safe-later no_fuel p q = record { fine = tt }

  pub Safe-then :
      {B : Type 0} (x : Parsing B) (f : B → Parse A) (s : ParserState)
      → Safe x s
      → ((b : B) (t : ParserState) → Safe (f b t) t)
      → Safe (and_then x f) s
  Safe-then (parsed b t) f s h k = Safe-later (f b t) h.fine (k b t)
  Safe-then (thrown e t) f s h k = record { fine = h.fine }
  Safe-then stopped f s h k = record { fine = tt }
  Safe-then undefined f s h k = record { fine = tt }
  Safe-then no_fuel f s h k = record { fine = tt }

  pub Safe-if :
      (b : Bool) (x y : Parsing A) (s : ParserState)
      → Safe x s
      → Safe y s
      → Safe (if b then x else y) s
  Safe-if true x y s p q = p
  Safe-if false x y s p q = q

  pub Safe-return : (a : A) (s : ParserState) → Safe (parsed a s) s
  Safe-return a s = record { fine = Later-refl s }

  pub Safe-error :
      (e : ParseError) (s : ParserState) → Safe {A = A} (thrown e (record s { has_err = true })) s
  Safe-error e s = record {
    fine = (record { same = refl; within = λ h. h; quiet = λ h. cc }, refl);
  }

  pub Safe-no_fuel : (s : ParserState) → Safe {A = A} no_fuel s
  Safe-no_fuel s = record { fine = tt }

  pub Safe-undefined : (s : ParserState) → Safe {A = A} undefined s
  Safe-undefined s = record { fine = tt }

pub ruleset safe = (Safe-then, Safe-if, Safe-return, Safe-error, Safe-no_fuel, Safe-undefined)

moved :
    (s : ParserState) (p : ℕ)
    → (s.pos ≤ length s.tokens → p ≤ length s.tokens)
    → Later s (record s { pos = p })
moved s p h = record { same = refl; within = h; quiet = λ h. (h, refl) }

advance_within-Safe :
    (n : ℕ) (s : ParserState) → n ≤ length s.tokens - s.pos → Safe (advance_within n s) s
unfolding advance_within
advance_within-Safe zero s h = record { fine = tt }
advance_within-Safe (suc n) s h =
    let t : ParserState = record s { pos = s.pos + 1 } in
    let p : Later s t = moved s (s.pos + 1) (λ _. omega (arith, h)) in
    Safe-if (match comment t) (advance_within n t) _ s
      (Safe-later (advance_within n t) p (advance_within-Safe n t (omega (arith, h))))
      (Safe-if (match unknown t) _ (parsed tt t) s
        (Safe-later _ p (Safe-error (unknown_token (cur t).text) t)) (record { fine = p }))

pub advance-Safe : (s : ParserState) → Safe (advance s) s
unfolding advance
advance-Safe s = advance_within-Safe (length s.tokens - s.pos) s (omega arith)

pub advance_back-Safe : (s : ParserState) → Safe (advance_back s) s
unfolding advance_back
advance_back-Safe s =
    let t : ParserState = record s { pos = s.pos - 1 } in
    let p : Later s t = moved s (s.pos - 1) (λ h. omega (arith, h)) in
    Safe-if (match comment t) (advance t) _ s (Safe-later (advance t) p (advance-Safe t)) (
      Safe-if (match unknown t) _ (parsed tt t) s
        (Safe-later _ p (Safe-error (unknown_token (cur t).text) t)) (record { fine = p }))
