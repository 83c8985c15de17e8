-- ===== src/Lexer/Progress.antt =====
-- compiler/lexer.cpp: how many characters the parts of `next` leave, and the passes of `tokenize`.
use mylamina.Base.{
  ℕ, zero, suc, ◌-◌, ◌<◌, ◌≤◌, ◌≡◌, get_last?, ◌≢◌, refl, Bool, true, false, List, [], ◌∷◌, ◌++◌,
}
use mylamina.Base.{
  Option, none, some, if◌then◌else◌, length, Text, arith, inl, inr, ◌⊎◌, sym, ap, ◌∙◌,
}
use mylamina.Lexer.{
  escape, TokenType, Token, Pos, step_pos, Lexed, skip_space, skip_comment, read_string,
  read_number, read_ident, is_digit, is_ident,
}
use mylamina.Lexer.Next.{
  single, double, lex_double, lex_bar, lex_amp, lex_string, lex_number, lex_word, lex_other,
  lex_rest, lex_token, next, Tokens, done, out_of_bounds, out_of_fuel, tokens_from, add_end, reject,
  tokenize, ends, has_unknown,
}

Option-cases : (o : Option Lexed) → (o ≡ none) ⊎ ((l : Lexed) × (o ≡ some l))
Option-cases none = inl refl
Option-cases (some l) = inr (l, refl)

skip_space-length : (cs : List ℕ) (p : Pos) → length (skip_space cs p).0 ≤ length cs
unfolding skip_space
skip_space-length [] p = omega arith
skip_space-length (c ∷ cs) p = ground (arith, skip_space-length cs (step_pos cs p))

skip_comment-length :
    (cs : List ℕ) (p : Pos) (l : Lexed) → skip_comment cs p ≡ some l → length l.rest < length cs
unfolding skip_comment
skip_comment-length [] p l h = cc
skip_comment-length (c ∷ cs) p l h = ground (arith, skip_comment-length cs (step_pos cs p) l)

read_string-length :
    (e : Bool) (cs : List ℕ) (p : Pos) (str : Text)
    → length (read_string e cs p str).rest ≤ length cs
unfolding read_string
read_string-length true [] p str = omega arith
read_string-length false [] p str = omega arith
read_string-length true (c ∷ cs) p str =
    let h = read_string-length false cs (step_pos cs p) (str ++ (escape c ∷ [])) in omega (arith, h)
read_string-length false (c ∷ cs) p str = ground (
  arith,
  read_string-length true cs (step_pos cs p) str,
  read_string-length false cs (step_pos cs p) (str ++ (c ∷ [])),
)

read_number-length :
    (cs : List ℕ) (p : Pos) (num : Text) → length (read_number cs p num).1 ≤ length cs
unfolding read_number
read_number-length [] p num = omega arith
read_number-length (c ∷ cs) p num = ground (
  arith,
  read_number-length cs (step_pos cs p) num,
  read_number-length cs (step_pos cs p) (num ++ (c ∷ [])),
)

read_ident-length : (cs : List ℕ) (p : Pos) (id : Text) → length (read_ident cs p id).1 ≤ length cs
unfolding read_ident
read_ident-length [] p id = omega arith
read_ident-length (c ∷ cs) p id =
    ground (arith, read_ident-length cs (step_pos cs p) (id ++ (c ∷ [])))

lex_double-length :
    (c d : ℕ) (both one : TokenType) (cs : List ℕ) (p : Pos)
    → length (lex_double c d both one cs p).rest ≤ length cs
unfolding lex_double
lex_double-length c d both one [] p = omega arith
lex_double-length c d both one (e ∷ cs) p = ground arith

lex_bar-length : (cs : List ℕ) (p : Pos) → length (lex_bar cs p).rest ≤ length cs
unfolding lex_bar
lex_bar-length [] p = omega arith
lex_bar-length (e ∷ cs) p = ground arith

lex_amp-length : (cs : List ℕ) (p : Pos) → length (lex_amp cs p).rest ≤ length cs
unfolding lex_amp
lex_amp-length [] p = omega arith
lex_amp-length (e ∷ cs) p = ground arith

lex_string-length : (cs : List ℕ) (p : Pos) → length (lex_string cs p).rest ≤ length cs
unfolding lex_string
lex_string-length [] p = omega arith
lex_string-length (e ∷ cs) p = read_string-length false (e ∷ cs) p []

lex_number-length :
    (c : ℕ) (cs : List ℕ) (p : Pos)
    → is_digit c ≡ true
    → length (lex_number c cs p).rest ≤ length cs
unfolding lex_number read_number
lex_number-length c cs p h = ground (
  arith,
  read_number-length cs (step_pos cs p) [],
  read_number-length cs (step_pos cs p) (c ∷ []),
)

lex_word-length :
    (c : ℕ) (cs : List ℕ) (p : Pos) → is_ident c ≡ true → length (lex_word c cs p).rest ≤ length cs
unfolding lex_word read_ident
lex_word-length c cs p h = ground (arith, read_ident-length cs (step_pos cs p) (c ∷ []))

lex_other-length :
    (c : ℕ) (cs : List ℕ) (p : Pos) (l : Lexed)
    → lex_other c cs p ≡ some l
    → length l.rest ≤ length cs
unfolding lex_other
lex_other-length c cs p l h = ground (
  arith,
  skip_comment-length (c ∷ cs) p l,
  lex_string-length cs (step_pos cs p),
  lex_bar-length cs (step_pos cs p),
  lex_amp-length cs (step_pos cs p),
  lex_number-length c cs p,
  lex_word-length c cs p,
)

lex_rest-length :
    (t : Option (TokenType × Text)) (d : Option (ℕ × TokenType × TokenType)) (c : ℕ) (cs : List ℕ)
    (p : Pos) (l : Lexed)
    → lex_rest t d c cs p ≡ some l
    → length l.rest ≤ length cs
unfolding lex_rest
lex_rest-length (some (t, s)) d c cs p l h = ground arith
lex_rest-length none (some (d, both, one)) c cs p l h =
    ground (arith, lex_double-length c d both one cs (step_pos cs p))
lex_rest-length none none c cs p l h = lex_other-length c cs p l h

lex_token-length :
    (cs : List ℕ) (p : Pos) (l : Lexed) → lex_token cs p ≡ some l → length l.rest ≤ length cs - 1
unfolding lex_token
lex_token-length [] p l h = ground arith
lex_token-length (c ∷ cs) p l h =
    let b = lex_rest-length (single c) (double c) c cs p l h in omega (arith, b)

-- A token that `next` gives on a text that is not empty leaves fewer characters than the text has.
pub next-length :
    (c : ℕ) (cs : List ℕ) (p : Pos) (l : Lexed)
    → next (c ∷ cs) p ≡ some l
    → length l.rest ≤ length cs
unfolding next
next-length c cs p l h =
    let a = skip_space-length (c ∷ cs) p in
    let b = lex_token-length (skip_space (c ∷ cs) p).0 (skip_space (c ∷ cs) p).1 l h in
    omega (arith, a, b)

abbrev after : ℕ → List Token → Option Lexed → Tokens
after fuel tokens none = out_of_bounds
after fuel tokens (some l) = tokens_from fuel l.rest l.pos (tokens ++ (l.token ∷ []))

-- A pass for each character is enough for the loop of `tokenize`.
pub tokens_from-enough :
    (fuel : ℕ) (cs : List ℕ) (p : Pos) (tokens : List Token)
    → length cs ≤ fuel
    → tokens_from fuel cs p tokens ≢ out_of_fuel
unfolding tokens_from
tokens_from-enough fuel [] p tokens h = λ e. cc
tokens_from-enough zero (c ∷ cs) p tokens h = absurd (omega arith)
tokens_from-enough (suc fuel) (c ∷ cs) p tokens h = elim (Option-cases (next (c ∷ cs) p)) [
  | inl n ↦ λ e. cc (ap (after fuel tokens) n, e)
  | inr (l, s) ↦ λ e.
      let b = next-length c cs p l s in
      tokens_from-enough fuel l.rest l.pos (tokens ++ (l.token ∷ [])) (omega (arith, b, h))
        (sym (ap (after fuel tokens) s) ∙ e)
]

rejected :
    (u : Bool) (tokens : List Token) (p : Pos)
    → (if◌then◌else◌ {A = Tokens × Bool} u (done [] p, true) (done tokens p, false)).0 ≢ out_of_fuel
rejected true tokens p = λ e. cc
rejected false tokens p = λ e. cc

reject-done : (tokens : List Token) (p : Pos) → (reject (done tokens p)).0 ≢ out_of_fuel
unfolding reject
reject-done tokens p = rejected (has_unknown tokens) tokens p

ended :
    (b : Bool) (t u : List Token) (p : Pos)
    → (reject (if b then done t p else done u p)).0 ≢ out_of_fuel
ended true t u p = reject-done t p
ended false t u p = reject-done u p

reject-add_end : (r : Tokens) → r ≢ out_of_fuel → (reject (add_end r)).0 ≢ out_of_fuel
unfolding reject add_end
reject-add_end (done tokens p) n = ended (ends (get_last? tokens)) tokens _ p
reject-add_end out_of_bounds n = λ e. cc
reject-add_end out_of_fuel n = absurd (n refl)

-- `tokenize` does not run out of passes, on any text and from any line.
pub tokenize-ends : (code : List ℕ) (line : ℕ) → (tokenize code line).0 ≢ out_of_fuel
unfolding tokenize
tokenize-ends code line =
    reject-add_end _ (tokens_from-enough (length code) code _ [] (omega arith))
