-- ===== src/Lexer/Literals.antt =====
-- compiler/lexer.cpp: string literals, and how a source text writes the characters of a string.
use mylamina.Base.{ℕ, ◌≡◌, refl, false, List, [], ◌∷◌, ◌++◌, sym, ap}
use mylamina.Base.{
  some, ◌==◌, if◌then◌else◌, Text, append_assoc, append-nil, Bool-cases, inl, inr, ==→eq,
}
use mathlib.Core.Path.{subst}
use mylamina.Lexer.{string_literal, Pos, step_pos, Lexed, skip_space, read_string, escape}
use mylamina.Lexer.Next.{lex_string, lex_rest, lex_other, lex_token, single, double, next}

-- How a source text writes a character of a string.
unfoldable pub quoted : ℕ → List ℕ
quoted c =
    if c == b'"'
    then b'\\' ∷ b'"' ∷ []
    else if c == b'\\'
    then b'\\' ∷ b'\\' ∷ []
    else if c == 10
    then b'\\' ∷ b'n' ∷ []
    else if c == 9
    then b'\\' ∷ b't' ∷ []
    else c ∷ []

unfoldable pub quote_body : Text → List ℕ
quote_body [] = []
quote_body (c ∷ cs) = quoted c ++ quote_body cs

unfoldable pub quote : Text → List ℕ
quote s = b'"' ∷ (quote_body s ++ (b'"' ∷ []))

-- What a reader of a string finds.
pub record Finds (s : Text) (rest : List ℕ) (l : Lexed) : Type 0 where
  pub type : l.token.type ≡ string_literal
  pub text : l.token.text ≡ s
  pub left : l.rest ≡ rest

read_string-quoted :
    (c : ℕ) (cs : List ℕ) (p : Pos) (str : Text)
    → (q : Pos) × (read_string false (quoted c ++ cs) p str
        ≡ read_string false cs q (str ++ (c ∷ [])))
unfolding read_string quoted escape
read_string-quoted c cs p str =
    let P : ℕ → Type 0 = λ d.
      (q : Pos) × (read_string false (quoted d ++ cs) p str
        ≡ read_string false cs q (str ++ (d ∷ []))) in
    elim (Bool-cases (c == b'"')) [
      | inl h ↦ subst P (sym (==→eq c b'"' h)) (step_pos cs (step_pos (b'"' ∷ cs) p), refl)
      | inr h1 ↦ elim (Bool-cases (c == b'\\')) [
        | inl h ↦ subst P (sym (==→eq c b'\\' h)) (step_pos cs (step_pos (b'\\' ∷ cs) p), refl)
        | inr h2 ↦ elim (Bool-cases (c == 10)) [
          | inl h ↦ subst P (sym (==→eq c 10 h)) (step_pos cs (step_pos (b'n' ∷ cs) p), refl)
          | inr h3 ↦ elim (Bool-cases (c == 9)) [
            | inl h ↦ subst P (sym (==→eq c 9 h)) (step_pos cs (step_pos (b't' ∷ cs) p), refl)
            | inr h4 ↦ (step_pos cs p, rw (h1, h2, h3, h4, h1, h2) refl)
          ]
        ]
      ]
    ]

read_string-quote_body :
    (s : Text) (rest : List ℕ) (p : Pos) (str : Text)
    → Finds (str ++ s) rest (read_string false (quote_body s ++ (b'"' ∷ rest)) p str)
unfolding read_string quote_body
read_string-quote_body [] rest p str = record {
  type = refl;
  text = sym (append-nil str);
  left = refl;
}
read_string-quote_body (c ∷ cs) rest p str =
    let tail : List ℕ = quote_body cs ++ (b'"' ∷ rest) in
    let (q, e) = read_string-quoted c tail p str in
    let all = append_assoc (quoted c) (quote_body cs) (b'"' ∷ rest) in
    subst (λ (t : List ℕ). Finds (str ++ (c ∷ cs)) rest (read_string false t p str)) (sym all)
      (subst (λ (l : Lexed). Finds (str ++ (c ∷ cs)) rest l) (sym e)
        (subst (λ (t : Text). Finds t rest (read_string false tail q (str ++ (c ∷ []))))
          (append_assoc str (c ∷ []) cs) (read_string-quote_body cs rest q (str ++ (c ∷ [])))))

lex_string_lem :
    (xs : List ℕ) (c : ℕ) (rest : List ℕ) (p : Pos)
    → lex_string (xs ++ (c ∷ rest)) p ≡ read_string false (xs ++ (c ∷ rest)) p []
unfolding lex_string
lex_string_lem [] c rest p = refl
lex_string_lem (x ∷ xs) c rest p = refl

-- Any text, written between quotes with its quotes, backslashes, newlines and tabs escaped: `next` gives
-- one string token with the text, and leaves what stands behind the closing quote.
pub next-quote :
    (s : Text) (rest : List ℕ) (p : Pos)
    → (l : Lexed) × (next (quote s ++ rest) p ≡ some l) × Finds s rest l
unfolding next lex_token skip_space lex_rest lex_other single double quote
next-quote s rest p =
    let body : List ℕ = quote_body s ++ (b'"' ∷ rest) in
    (
      lex_string body (step_pos body p),
      ap (λ (b : List ℕ). some (lex_string b (step_pos b p)))
          (append_assoc (quote_body s) (b'"' ∷ []) rest),
      subst (λ l. Finds s rest l) (sym (lex_string_lem (quote_body s) b'"' rest (step_pos body p)))
          (read_string-quote_body s rest (step_pos body p) []),
    )
