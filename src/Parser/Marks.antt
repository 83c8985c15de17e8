-- ===== src/Parser/Marks.antt =====
-- Which tokens may begin an expression, and which may stand behind an operand.
use mylamina.Base.{ℕ, zero, suc, ◌≤◌, ◌≡◌, refl, Bool, true, false, not, ◌||◌, List, ◌∷◌, ◌++◌}
use mylamina.Base.{arith, ◌∙◌, Bool-cases, inl, inr, append_assoc}
use mylamina.Lexer.{
  TokenType, oper_plus, oper_minus, oper_mul, oper_div, oper_mod, oper_pow, lparen, rparen, eq, ne,
  lt, gt, le, ge, or_tok, and_tok, dot, comment, unknown, Token, comma,
}
use mylamina.Parser.State.{same_type}
use mylamina.Parser.Reads.{is_plain}
use mylamina.Parser.Grammar.{
  Syntax, number, variable, text, parens, call, machine, minus, chain, compare, tokens, tail_tokens,
  is_op, IsWf, IsStop, IsEnd,
}

-- The rank of a binary operator, 0 for the other tokens.
unfoldable pub op_rank : TokenType → ℕ
op_rank oper_mul = 1
op_rank oper_div = 1
op_rank oper_mod = 1
op_rank oper_pow = 1
op_rank oper_plus = 2
op_rank oper_minus = 2
op_rank eq = 3
op_rank ne = 3
op_rank lt = 3
op_rank gt = 3
op_rank le = 3
op_rank ge = 3
op_rank or_tok = 4
op_rank and_tok = 5
op_rank _ = 0

pub op_rank-is_op : (i : ℕ) (t : TokenType) → is_op i t ≡ true → op_rank t ≡ i
unfolding op_rank
op_rank-is_op zero t h = cc
op_rank-is_op (suc zero) oper_mul h = refl
op_rank-is_op (suc zero) oper_div h = refl
op_rank-is_op (suc zero) oper_mod h = refl
op_rank-is_op (suc zero) oper_pow h = refl
op_rank-is_op (suc (suc zero)) oper_plus h = refl
op_rank-is_op (suc (suc zero)) oper_minus h = refl
op_rank-is_op (suc (suc (suc zero))) eq h = refl
op_rank-is_op (suc (suc (suc zero))) ne h = refl
op_rank-is_op (suc (suc (suc zero))) lt h = refl
op_rank-is_op (suc (suc (suc zero))) gt h = refl
op_rank-is_op (suc (suc (suc zero))) le h = refl
op_rank-is_op (suc (suc (suc zero))) ge h = refl
op_rank-is_op (suc (suc (suc (suc zero)))) or_tok h = refl
op_rank-is_op (suc (suc (suc (suc (suc zero))))) and_tok h = refl
op_rank-is_op _ _ h = cc

-- Neither a comment, an unknown token, a dot nor an opening parenthesis.
abbrev goes_on : TokenType → Bool
goes_on t =
    not (same_type t comment || same_type t unknown || same_type t dot || same_type t lparen)

goes_on-op_rank : (n : ℕ) (t : TokenType) → op_rank t ≡ suc n → goes_on t ≡ true
unfolding op_rank
goes_on-op_rank n oper_mul h = refl
goes_on-op_rank n oper_div h = refl
goes_on-op_rank n oper_mod h = refl
goes_on-op_rank n oper_pow h = refl
goes_on-op_rank n oper_plus h = refl
goes_on-op_rank n oper_minus h = refl
goes_on-op_rank n eq h = refl
goes_on-op_rank n ne h = refl
goes_on-op_rank n lt h = refl
goes_on-op_rank n gt h = refl
goes_on-op_rank n le h = refl
goes_on-op_rank n ge h = refl
goes_on-op_rank n or_tok h = refl
goes_on-op_rank n and_tok h = refl
goes_on-op_rank n _ h = cc

goes_on_inv :
    (t : Token)
    → goes_on t.type ≡ true
    → (is_plain t ≡ true) × (same_type t.type dot ≡ false) × (same_type t.type lparen ≡ false)
goes_on_inv t h = (ground arith, ground arith, ground arith)

-- An operator ends the operand on its left.
pub IsStop-op : (n : ℕ) (t : Token) → is_op (suc n) t.type ≡ true → IsStop n t
IsStop-op n t h =
    let e = op_rank-is_op (suc n) t.type h in
    let (p, d, l) = goes_on_inv t (goes_on-op_rank n t.type e) in
    record {
      plain = p;
      no_dot = d;
      no_lparen = l;
      no_op = λ i le. elim (Bool-cases (is_op i t.type)) [
        | inr f ↦ f
        | inl f ↦ let e' = op_rank-is_op i t.type f in absurd (omega (arith, le, e, e'))
      ];
    }

pub IsStop-weaken : (n m : ℕ) (t : Token) → n ≤ m → IsStop m t → IsStop n t
IsStop-weaken n m t h s = record {
  plain = s.plain;
  no_dot = s.no_dot;
  no_lparen = s.no_lparen;
  no_op = λ i le. s.no_op i (omega (arith, h, le));
}

-- A closing parenthesis or a comma ends an expression.
abbrev is_closing : TokenType → Bool
is_closing rparen = true
is_closing comma = true
is_closing _ = false

no_op_closing : (i : ℕ) (t : TokenType) → is_closing t ≡ true → is_op i t ≡ false
no_op_closing zero t h = refl
no_op_closing (suc zero) rparen h = refl
no_op_closing (suc zero) comma h = refl
no_op_closing (suc (suc zero)) rparen h = refl
no_op_closing (suc (suc zero)) comma h = refl
no_op_closing (suc (suc (suc zero))) rparen h = refl
no_op_closing (suc (suc (suc zero))) comma h = refl
no_op_closing (suc (suc (suc (suc zero)))) rparen h = refl
no_op_closing (suc (suc (suc (suc zero)))) comma h = refl
no_op_closing (suc (suc (suc (suc (suc zero))))) rparen h = refl
no_op_closing (suc (suc (suc (suc (suc zero))))) comma h = refl
no_op_closing (suc (suc (suc (suc (suc (suc i)))))) t h = refl
no_op_closing _ _ h = cc

pub IsEnd-rparen : (t : Token) → t.type ≡ rparen → IsEnd t
IsEnd-rparen t h = record {
  stop = record {
    plain = rw h refl;
    no_dot = rw h refl;
    no_lparen = rw h refl;
    no_op = λ i le. no_op_closing i t.type (rw h refl);
  };
  no_pipe = rw h refl;
  no_colon = rw h refl;
}

pub IsEnd-comma : (t : Token) → t.type ≡ comma → IsEnd t
IsEnd-comma t h = record {
  stop = record {
    plain = rw h refl;
    no_dot = rw h refl;
    no_lparen = rw h refl;
    no_op = λ i le. no_op_closing i t.type (rw h refl);
  };
  no_pipe = rw h refl;
  no_colon = rw h refl;
}

-- The token that an expression begins with.
unfoldable pub head_token : Syntax → Token
head_token (number t) = t
head_token (variable t) = t
head_token (text t) = t
head_token (parens l e r) = l
head_token (call n l as') = n
head_token (machine k i l as') = k
head_token (minus m e) = m
head_token (chain n first tail) = head_token first
head_token (compare a op b) = head_token a

pub tokens-head_token :
    (e : Syntax) (rest : List Token)
    → (others : List Token) × (tokens e ++ rest ≡ head_token e ∷ others)
unfolding tokens head_token
tokens-head_token (chain n first tail) rest =
    let (o, h) = tokens-head_token first (tail_tokens tail ++ rest) in
    (o, append_assoc (tokens first) (tail_tokens tail) rest ∙ h)
tokens-head_token (compare a op b) rest =
    let (o, h) = tokens-head_token a (op ∷ (tokens b ++ rest)) in
    (o, append_assoc (tokens a) (op ∷ tokens b) rest ∙ h)
tokens-head_token (number t) rest = (_, refl)
tokens-head_token (variable t) rest = (_, refl)
tokens-head_token (text t) rest = (_, refl)
tokens-head_token (parens l e r) rest = (_, refl)
tokens-head_token (call n l as') rest = (_, refl)
tokens-head_token (machine k i l as') rest = (_, refl)
tokens-head_token (minus m e) rest = (_, refl)

-- Such a token is neither passed over nor a closing parenthesis.
abbrev begins : Token → Bool
begins t = not (same_type t.type comment || same_type t.type unknown || same_type t.type rparen)

begins-head_token : (e : Syntax) → IsWf e → begins (head_token e) ≡ true
unfolding head_token IsWf
begins-head_token (number t) w = rw w refl
begins-head_token (variable t) w = rw w refl
begins-head_token (text t) w = rw w refl
begins-head_token (parens l e r) w = rw w.0 refl
begins-head_token (call n l as') w = rw w.0 refl
begins-head_token (machine k i l as') w = rw w.0 refl
begins-head_token (minus m e) w = rw w.0 refl
begins-head_token (chain zero first tail) w = absurd w
begins-head_token (chain (suc n) first tail) w = begins-head_token first w.0
begins-head_token (compare a op b) w = begins-head_token a w.0

begins_inv : (t : Token) → begins t ≡ true → (is_plain t ≡ true) × (same_type t.type rparen ≡ false)
begins_inv t h = (ground arith, ground arith)

pub head_token_marks :
    (e : Syntax)
    → IsWf e
    → (is_plain (head_token e) ≡ true) × (same_type (head_token e).type rparen ≡ false)
head_token_marks e w = begins_inv (head_token e) (begins-head_token e w)
