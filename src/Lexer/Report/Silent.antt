-- ===== src/Lexer/Report/Silent.antt =====
-- compiler/lexer.cpp: when `Lexer::error` has nothing to say.
use mylamina.Base.{
  Option, none, some, ◌>>=◌, ◌++◌, sym, not, ℕ, ◌≡◌, ◌↔◌, refl, Bool, true, false, ◌||◌, ◌==◌, List,
  [], ◌∷◌, if◌then◌else◌, Text, ◌∙◌, ap, length, arith,
}
use mylamina.Lexer.{Token}
use mylamina.Lexer.Next.{is_unknown, has_unknown}
use mylamina.Lexer.Report.{
  LineErrors, push_col, collect, caret_line, line_text, line_message, messages, error,
}

is_nil : {A : Type 0} → List A → Bool
is_nil [] = true
is_nil (x ∷ xs) = false

nil-if :
    {A : Type 0} (b : Bool) (x y : List A)
    → is_nil x ≡ false
    → is_nil y ≡ false
    → is_nil (if b then x else y) ≡ false
nil-if true x y h k = h
nil-if false x y h k = k

is_nil-eq : {A : Type 0} (l : List A) → is_nil l ≡ true → l ≡ []
unfolding is_nil
is_nil-eq [] h = refl
is_nil-eq (x ∷ xs) h = cc

push_col-kept : (l c : ℕ) (m : LineErrors) → is_nil (push_col l c m) ≡ false
unfolding push_col is_nil
push_col-kept l c [] = refl
push_col-kept l c ((k, cols) ∷ m) = nil-if (k == l) _ _ refl refl

collect-kept : (ts : List Token) (m : LineErrors) → is_nil m ≡ false → is_nil (collect ts m) ≡ false
unfolding collect
collect-kept [] m h = h
collect-kept (t ∷ ts) m h =
    collect-kept ts _ (nil-if (is_unknown t.type) _ _ (push_col-kept t.line t.col m) h)

-- The lines with errors are none where no token is unknown.
collected :
    (t : Token) (ts : List Token) (b : Bool)
    → is_nil (collect ts []) ≡ not (has_unknown ts)
    → is_nil (collect ts (if b then push_col t.line t.col [] else [])) ≡ not (b || has_unknown ts)
collected t ts true h = collect-kept ts _ (push_col-kept t.line t.col [])
collected t ts false h = h

collect-has_unknown : (ts : List Token) → is_nil (collect ts []) ≡ not (has_unknown ts)
unfolding collect has_unknown is_nil
collect-has_unknown [] = refl
collect-has_unknown (t ∷ ts) = collected t ts (is_unknown t.type) (collect-has_unknown ts)

length-is_nil : (a b : LineErrors) → length a ≡ length b → is_nil a ≡ is_nil b
unfolding is_nil
length-is_nil [] [] h = refl
length-is_nil [] (y ∷ b) h = absurd (omega (arith, h))
length-is_nil (x ∷ a) [] h = absurd (omega (arith, h))
length-is_nil (x ∷ a) (y ∷ b) h = refl

is_false : (b : Bool) → not b ≡ true → b ≡ false
is_false true h = cc
is_false false h = refl

-- Whether a message is there and says nothing.
says_nothing : Option Text → Bool
says_nothing none = false
says_nothing (some t) = is_nil t

says_nothing-eq : (o : Option Text) → says_nothing o ≡ true → o ≡ some []
unfolding says_nothing
says_nothing-eq none h = cc
says_nothing-eq (some t) h = ap some (is_nil-eq t h)

-- A line's message is not empty, whatever comes behind it.
line_says :
    (content filename : Text) (origin line : ℕ) (carets ms : Option Text)
    → says_nothing (do
      m ← (do c ← carets; some (line_text content filename origin line c))
      r ← ms
      some (m ++ r))
      ≡ false
unfolding says_nothing is_nil line_text
line_says content filename origin line none ms = refl
line_says content filename origin line (some c) none = refl
line_says content filename origin line (some c) (some r) = refl

module _ (max_size : ℕ) where
  messages-nil :
      (content filename : Text) (origin : ℕ) (m : LineErrors)
      → says_nothing (messages max_size content filename origin m) ≡ is_nil m
  unfolding messages is_nil line_message says_nothing
  messages-nil content filename origin [] = refl
  messages-nil content filename origin ((line, cols) ∷ es) =
      line_says content filename origin line (caret_line max_size cols)
        (messages max_size content filename origin es)

  error-nil :
      (order : LineErrors → LineErrors) (content filename : Text) (ts : List Token) (origin : ℕ)
      → ((m : LineErrors) → length (order m) ≡ length m)
      → says_nothing (error max_size order content filename ts origin) ≡ not (has_unknown ts)
  unfolding error
  error-nil order content filename ts origin h =
      messages-nil content filename origin (order (collect ts []))
      ∙ length-is_nil (order (collect ts [])) (collect ts []) (h (collect ts []))
      ∙ collect-has_unknown ts

  -- For a walk through the map that meets as many lines as the map has: `error` returns the empty message
  -- if and only if no token is unknown. Otherwise it returns another message,
  -- or is undefined or throws.
  pub error-has_unknown :
      (order : LineErrors → LineErrors) (content filename : Text) (ts : List Token) (origin : ℕ)
      → ((m : LineErrors) → length (order m) ≡ length m)
      → (error max_size order content filename ts origin ≡ some []) ↔ (has_unknown ts ≡ false)
  unfolding is_nil says_nothing
  error-has_unknown order content filename ts origin h =
      let e = error-nil order content filename ts origin h in
      (
        λ p. is_false (has_unknown ts) (sym e ∙ ap says_nothing p),
        λ p. says_nothing-eq _ (e ∙ ap not p),
      )
