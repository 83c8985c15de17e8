-- ===== src/Parser/Ranks.antt =====
-- The ranks and sizes of expressions, and the tokens that they begin with.
use mylamina.Base.{ℕ, zero, suc, ◌≤◌, ◌≡◌, refl, true, List, [], ◌∷◌, ◌++◌}
use mylamina.Base.{arith, sym, ap, ◌∙◌, append_assoc}
use mylamina.Lexer.{Token}
use mylamina.Parser.Reads.{is_plain}
use mylamina.Parser.Grammar.{
  Syntax, Tail, Args, number, variable, text, parens, call, machine, minus, chain, compare, end,
  link, close, last_arg, next_arg, tokens, tail_tokens, args_tokens, rank, IsWf, IsWfTail, IsWfArgs,
  size, IsStop,
}
use mylamina.Parser.Marks.{
  IsStop-op, IsStop-weaken, head_token, tokens-head_token, head_token_marks,
}

-- The rank that an expression is read at.
unfoldable pub low : Syntax → ℕ
low (compare a op b) = 3
low (chain n first tail) = n
low _ = 0

pub low-rank : (e : Syntax) → low e ≤ rank e
unfolding low rank
low-rank (number t) = omega arith
low-rank (variable t) = omega arith
low-rank (text t) = omega arith
low-rank (parens l e r) = omega arith
low-rank (call n l as') = omega arith
low-rank (machine k i l as') = omega arith
low-rank (minus m e) = omega arith
low-rank (chain n first tail) = omega arith
low-rank (compare a op b) = omega arith

pub append-cons :
    (l : List Token) (w : Token) (ws : List Token)
    → (x : Token) × (xs : List Token) × (l ++ (w ∷ ws) ≡ x ∷ xs)
append-cons [] w ws = (w, ws, refl)
append-cons (x ∷ l) w ws = (x, l ++ (w ∷ ws), refl)

-- The first two tokens, where one follows the expression.
pub tokens-front :
    (e : Syntax) (w : Token) (ws : List Token)
    → (x : Token) × (xs : List Token) × (tokens e ++ (w ∷ ws) ≡ head_token e ∷ x ∷ xs)
tokens-front e w ws =
    let (o, h) = tokens-head_token e [] in
    let (x, xs, h') = append-cons o w ws in
    (
      x,
      xs,
      sym (append_assoc (tokens e) [] (w ∷ ws))
          ∙ ap (λ l. l ++ (w ∷ ws)) h
          ∙ ap (λ l. head_token e ∷ l) h',
    )

-- What follows an operand in a chain.
pub tail-front :
    (n : ℕ) (tail : Tail) (u : Token) (us : List Token)
    → IsWfTail n tail
    → IsStop (suc n) u
    → (w : Token) × (ws : List Token) × (tail_tokens tail ++ (u ∷ us) ≡ w ∷ ws) × IsStop n w
unfolding tail_tokens IsWfTail
tail-front n end u us wf stop = (u, us, refl, IsStop-weaken n (suc n) u (omega arith) stop)
tail-front n (link op e tail) u us wf stop =
    (op, (tokens e ++ tail_tokens tail) ++ (u ∷ us), refl, IsStop-op n op wf.0)

pub args-front :
    (as' : Args) (us : List Token)
    → IsWfArgs as'
    → (w : Token) × (ws : List Token) × (args_tokens as' ++ us ≡ w ∷ ws) × (is_plain w ≡ true)
unfolding args_tokens IsWfArgs
args-front (close r) us wf = (r, us, refl, rw wf refl)
args-front (last_arg e r) us wf =
    let (o, h) = tokens-head_token e (r ∷ us) in
    (head_token e, o, append_assoc (tokens e) (r ∷ []) us ∙ h, (head_token_marks e wf.0).0)
args-front (next_arg e c as') us wf =
    let (o, h) = tokens-head_token e (c ∷ (args_tokens as' ++ us)) in
    (
      head_token e,
      o,
      append_assoc (tokens e) (c ∷ args_tokens as') us ∙ h,
      (head_token_marks e wf.0).0,
    )

pub low_bound : (e : Syntax) → IsWf e → low e ≤ 5
unfolding low IsWf
low_bound (number t) w = omega arith
low_bound (variable t) w = omega arith
low_bound (text t) w = omega arith
low_bound (parens l e r) w = omega arith
low_bound (call n l as') w = omega arith
low_bound (machine k i l as') w = omega arith
low_bound (minus m e) w = omega arith
low_bound (chain zero first tail) w = absurd w
low_bound (chain (suc n) first tail) w = let (_, _, _, lt, _) = w in omega (arith, lt)
low_bound (compare a op b) w = omega arith

pub size-positive : (e : Syntax) → 1 ≤ size e
unfolding size
size-positive (number t) = omega arith
size-positive (variable t) = omega arith
size-positive (text t) = omega arith
size-positive (parens l e r) = omega arith
size-positive (call n l as') = omega arith
size-positive (machine k i l as') = omega arith
size-positive (minus m e) = omega arith
size-positive (chain n first tail) = omega arith
size-positive (compare a op b) = omega arith
