-- ===== src/Parser/Caught.antt =====
-- compiler/parser.cpp: where the errors of the parser end.
use mylamina.Base.{ℕ, zero, suc, Bool, true, false, ◌≢◌, refl, if◌then◌else◌}
use mylamina.Ast.{Node}
use mylamina.Parser.State.{
  ParserState, ParseError, Parsing, Parse, parsed, thrown, stopped, undefined, no_fuel, and_then,
}
use mylamina.Parser.Stmt.{statements, caught, parse, parse_program}

-- No error is on its way.
record NoThrow {A : Type 0} (x : Parsing A) : Type 0 where
  calm : (e : ParseError) (t : ParserState) → x ≢ thrown e t

module _ {A : Type 0} where
  NoThrow-then :
      {B : Type 0} (x : Parsing B) (f : B → Parse A)
      → NoThrow x
      → ((b : B) (t : ParserState) → NoThrow (f b t))
      → NoThrow (and_then x f)
  NoThrow-then (parsed b t) f h k = k b t
  NoThrow-then (thrown e t) f h k = absurd (h.calm e t refl)
  NoThrow-then stopped f h k = record { calm = λ e t p. cc }
  NoThrow-then undefined f h k = record { calm = λ e t p. cc }
  NoThrow-then no_fuel f h k = record { calm = λ e t p. cc }

  NoThrow-if : (b : Bool) (x y : Parsing A) → NoThrow x → NoThrow y → NoThrow (if b then x else y)
  NoThrow-if true x y p q = p
  NoThrow-if false x y p q = q

  NoThrow-parsed : (a : A) (t : ParserState) → NoThrow (parsed a t)
  NoThrow-parsed a t = record { calm = λ e u p. cc }

  NoThrow-no_fuel : NoThrow {A = A} no_fuel
  NoThrow-no_fuel = record { calm = λ e u p. cc }

NoThrow-caught : (x : Parsing Node) → NoThrow (caught x)
NoThrow-caught (parsed a s) = NoThrow-parsed a s
NoThrow-caught (thrown e s) = NoThrow-parsed _ _
NoThrow-caught stopped = record { calm = λ e t p. cc }
NoThrow-caught undefined = record { calm = λ e t p. cc }
NoThrow-caught no_fuel = NoThrow-no_fuel

NoThrow-parse : (f : ℕ) (s : ParserState) → NoThrow (parse f s)
unfolding parse
NoThrow-parse zero s = NoThrow-no_fuel
NoThrow-parse (suc f) s = NoThrow-caught _

NoThrow-statements :
    (p : Parse Node)
    → ((s : ParserState) → NoThrow (p s))
    → (k : ℕ) (s : ParserState) → NoThrow (statements p k s)
unfolding statements
NoThrow-statements p h zero s = NoThrow-no_fuel
NoThrow-statements p h (suc k) s =
    search (NoThrow-if, NoThrow-then, NoThrow-parsed, h, NoThrow-statements p h k) depth 12

-- No `ParserError` leaves `parse_program`, and so none reaches its `catch`.
pub parse_program-NoThrow :
    (f : ℕ) (s t : ParserState) (e : ParseError) → parse_program f s ≢ thrown e t
unfolding parse_program
parse_program-NoThrow f s t e =
    let x : NoThrow (parse_program f s) =
      search (NoThrow-then, NoThrow-parsed, NoThrow-statements (parse f) (NoThrow-parse f) f) depth
        12 in
    x.calm e t
