-- ===== src/Parser/Ends.antt =====
-- Which tokens end a statement, begin one, and stand second in one.
use mylamina.Base.{ℕ, zero, suc, ◌≡◌, refl, Bool, true, false, not, ◌||◌, ◌&&◌, ◌==◌, leb}
use mylamina.Base.{arith, Bool-cases, inl, inr}
use mylamina.Lexer.{
  TokenType, Token, end_of_file, oper_plus, oper_minus, oper_mul, oper_div, oper_mod, oper_pow,
  lparen, rparen, lbrace, rbrace, comma, colon, assign, eq, ne, lt, gt, le, ge, or_tok, and_tok,
  pipe, identifier, kw_let, kw_func, kw_return, kw_loop, kw_break, kw_continue, kw_if, kw_else,
  kw_vmc, dot, comment, unknown,
}
use mylamina.Parser.State.{same_type, type_number}
use mylamina.Parser.Grammar.{
  Syntax, number, variable, text, parens, call, machine, minus, chain, compare, is_op, IsWf, IsEnd,
}
use mylamina.Parser.Marks.{op_rank, op_rank-is_op, head_token}
use mylamina.Parser.Forms.{ends}

abbrev after_mark : TokenType → Bool
after_mark t = not (
    same_type t comment
    || same_type t unknown
    || same_type t dot
    || same_type t lparen
    || same_type t pipe
    || same_type t colon
    || same_type t assign
    || same_type t kw_else)

ends_inv : (t : TokenType) → ends t ≡ true → (op_rank t ≡ 0) × (after_mark t ≡ true)
unfolding op_rank
ends_inv end_of_file h = (refl, refl)
ends_inv rparen h = (refl, refl)
ends_inv lbrace h = (refl, refl)
ends_inv rbrace h = (refl, refl)
ends_inv comma h = (refl, refl)
ends_inv identifier h = (refl, refl)
ends_inv TokenType.num_literal h = (refl, refl)
ends_inv TokenType.string_literal h = (refl, refl)
ends_inv kw_let h = (refl, refl)
ends_inv kw_func h = (refl, refl)
ends_inv kw_return h = (refl, refl)
ends_inv kw_loop h = (refl, refl)
ends_inv kw_break h = (refl, refl)
ends_inv kw_continue h = (refl, refl)
ends_inv kw_if h = (refl, refl)
ends_inv kw_vmc h = (refl, refl)
ends_inv _ h = cc

after_mark_inv :
    (t : TokenType)
    → after_mark t ≡ true
    → (not (same_type t comment || same_type t unknown) ≡ true)
      × (same_type t dot ≡ false)
      × (same_type t lparen ≡ false)
      × (same_type t pipe ≡ false)
      × (same_type t colon ≡ false)
      × (same_type t assign ≡ false)
      × (same_type t kw_else ≡ false)
after_mark_inv t h = (
  ground arith,
  ground arith,
  ground arith,
  ground arith,
  ground arith,
  ground arith,
  ground arith,
)

no_op : (i : ℕ) (t : TokenType) → op_rank t ≡ 0 → is_op i t ≡ false
no_op zero t h = refl
no_op (suc i) t h = elim (Bool-cases (is_op (suc i) t)) [
  | inr f ↦ f
  | inl f ↦ let e = op_rank-is_op (suc i) t f in absurd (omega (arith, e, h))
]

pub IsEnd-ends : (t : Token) → ends t.type ≡ true → IsEnd t
IsEnd-ends t h =
    let (rank0, mark) = ends_inv t.type h in
    let (plain, no_dot, no_lparen, no_pipe, no_colon, _, _) = after_mark_inv t.type mark in
    record {
      stop = record {
        plain = plain;
        no_dot = no_dot;
        no_lparen = no_lparen;
        no_op = λ i le. no_op i t.type rank0;
      };
      no_pipe = no_pipe;
      no_colon = no_colon;
    }

pub ends-no_assign : (t : TokenType) → ends t ≡ true → same_type t assign ≡ false
ends-no_assign t h =
    let (_, _, _, _, _, no_assign, _) = after_mark_inv t (ends_inv t h).1 in no_assign

pub ends-no_else : (t : TokenType) → ends t ≡ true → same_type t kw_else ≡ false
ends-no_else t h = let (_, _, _, _, _, _, no_else) = after_mark_inv t (ends_inv t h).1 in no_else

op_rank-no_assign : (n : ℕ) (t : TokenType) → op_rank t ≡ suc n → same_type t assign ≡ false
unfolding op_rank
op_rank-no_assign n oper_plus h = refl
op_rank-no_assign n oper_minus h = refl
op_rank-no_assign n oper_mul h = refl
op_rank-no_assign n oper_div h = refl
op_rank-no_assign n oper_mod h = refl
op_rank-no_assign n oper_pow h = refl
op_rank-no_assign n eq h = refl
op_rank-no_assign n ne h = refl
op_rank-no_assign n lt h = refl
op_rank-no_assign n gt h = refl
op_rank-no_assign n le h = refl
op_rank-no_assign n ge h = refl
op_rank-no_assign n or_tok h = refl
op_rank-no_assign n and_tok h = refl
op_rank-no_assign n _ h = cc

pub op-no_assign : (n : ℕ) (t : TokenType) → is_op (suc n) t ≡ true → same_type t assign ≡ false
op-no_assign n t h = op_rank-no_assign n t (op_rank-is_op (suc n) t h)

-- The numbers of the tokens that `parse` and `parse_block` look for.
abbrev pub is_form : ℕ → Bool
is_form n = (n == 16) || (n == 17) || (leb 32 n && not (n == 38))

-- A token that is none of them is another one.
pub other_form :
    (t u : TokenType)
    → is_form (type_number t) ≡ false
    → is_form (type_number u) ≡ true
    → same_type t u ≡ false
other_form t u h h' = elim (Bool-cases (same_type t u)) [
  | inr f ↦ f
  | inl f ↦ ground (arith, f, h, h')
]

pub is_form-head_token : (e : Syntax) → IsWf e → is_form (type_number (head_token e).type) ≡ false
unfolding head_token IsWf
is_form-head_token (number t) w = rw w refl
is_form-head_token (variable t) w = rw w refl
is_form-head_token (text t) w = rw w refl
is_form-head_token (parens l e r) w = rw w.0 refl
is_form-head_token (call n l as') w = rw w.0 refl
is_form-head_token (machine k i l as') w = rw w.0 refl
is_form-head_token (minus m e) w = rw w.0 refl
is_form-head_token (chain zero first tail) w = absurd w
is_form-head_token (chain (suc n) first tail) w = is_form-head_token first w.0
is_form-head_token (compare a op b) w = is_form-head_token a w.0
