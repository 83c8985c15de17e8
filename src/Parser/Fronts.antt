-- ===== src/Parser/Fronts.antt =====
-- The first tokens of statements.
use mylamina.Base.{zero, suc, ◌≡◌, refl, Bool, true, false, List, [], ◌∷◌, ◌++◌}
use mylamina.Base.{ap, ◌∙◌, append_assoc}
use mylamina.Lexer.{Token, rbrace, assign, identifier}
use mylamina.Parser.State.{same_type}
use mylamina.Parser.Grammar.{
  Syntax, number, variable, text, parens, call, machine, minus, chain, compare, end, link, tokens,
  tail_tokens, args_tokens, IsWf, IsWfTail,
}
use mylamina.Parser.Reads.{is_plain}
use mylamina.Parser.Marks.{head_token_marks, head_token, tokens-head_token}
use mylamina.Parser.Ranks.{append-cons, tokens-front}
use mylamina.Parser.Forms.{
  Stmt, Stmts, let_in, assigned, alone, returned, leave, go_on, while, forever, choice, function,
  done, next, stmt_tokens, choice_tokens, block_tokens, stmts_tokens, stmt_head, ends, Follows,
  IsStmt,
}
use mylamina.Parser.Ends.{op-no_assign, other_form, is_form-head_token}

-- An expression is no assignment: an identifier in front of it is not followed by `=`.
pub tokens-second :
    (e : Syntax) (w : Token) (ws : List Token)
    → IsWf e
    → same_type w.type assign ≡ false
    → (x : Token) × (xs : List Token) × (tokens e ++ (w ∷ ws) ≡ head_token e ∷ x ∷ xs)
      × (same_type (head_token e).type identifier ≡ true → same_type x.type assign ≡ false)
unfolding tokens tail_tokens head_token IsWf IsWfTail
tokens-second (number t) w ws wf h = (w, ws, refl, λ _. h)
tokens-second (variable t) w ws wf h = (w, ws, refl, λ _. h)
tokens-second (text t) w ws wf h = (w, ws, refl, λ _. h)
tokens-second (parens l e r) w ws wf h =
    let (o, front) = tokens-head_token e (r ∷ w ∷ ws) in
    let not_name : same_type l.type identifier ≡ false = rw wf.0 refl in
    (head_token e, o, ap (λ y. l ∷ y) (append_assoc (tokens e) (r ∷ []) (w ∷ ws) ∙ front), λ i. cc)
tokens-second (call n l as') w ws wf h = (l, args_tokens as' ++ (w ∷ ws), refl, λ _. rw wf.1 refl)
tokens-second (machine k i l as') w ws wf h =
    (i, l ∷ (args_tokens as' ++ (w ∷ ws)), refl, λ _. rw wf.1 refl)
tokens-second (minus m e) w ws wf h =
    let (o, front) = tokens-head_token e (w ∷ ws) in
    let not_name : same_type m.type identifier ≡ false = rw wf.0 refl in
    (head_token e, o, ap (λ y. m ∷ y) front, λ i. cc)
tokens-second (chain zero first tail) w ws wf h = absurd wf
tokens-second (chain (suc n) first end) w ws wf h =
    let (x, xs, front, out) = tokens-second first w ws wf.0 h in
    (x, xs, append_assoc (tokens first) [] (w ∷ ws) ∙ front, out)
tokens-second (chain (suc n) first (link op e tail)) w ws wf h =
    let (wf1, _, wft, _, _) = wf in
    let others = (tokens e ++ tail_tokens tail) ++ (w ∷ ws) in
    let (x, xs, front, out) = tokens-second first op others wf1 (op-no_assign n op.type wft.0) in
    (x, xs, append_assoc (tokens first) (op ∷ (tokens e ++ tail_tokens tail)) (w ∷ ws) ∙ front, out)
tokens-second (compare a op b) w ws wf h =
    let (wfa, _, rel, _) = wf in
    let (x, xs, front, out) =
      tokens-second a op (tokens b ++ (w ∷ ws)) wfa (op-no_assign 2 op.type rel) in
    (x, xs, append_assoc (tokens a) (op ∷ tokens b) (w ∷ ws) ∙ front, out)

keyword-front :
    (k : Token) (l : List Token) (w : Token) (ws : List Token)
    → (x : Token) × (xs : List Token) × ((k ∷ l) ++ (w ∷ ws) ≡ k ∷ x ∷ xs)
keyword-front k l w ws = let (x, xs, h) = append-cons l w ws in (x, xs, ap (λ y. k ∷ y) h)

-- The first two tokens, where one follows the statement.
pub stmt-front :
    (st : Stmt) (w : Token) (ws : List Token)
    → (x : Token) × (xs : List Token) × (stmt_tokens st ++ (w ∷ ws) ≡ stmt_head st ∷ x ∷ xs)
unfolding stmt_tokens stmt_head
stmt-front (let_in k n a e) w ws = keyword-front k (n ∷ a ∷ tokens e) w ws
stmt-front (assigned n a e) w ws = keyword-front n (a ∷ tokens e) w ws
stmt-front (alone e) w ws = tokens-front e w ws
stmt-front (returned k e) w ws = keyword-front k (tokens e) w ws
stmt-front (leave k) w ws = keyword-front k [] w ws
stmt-front (go_on k) w ws = keyword-front k [] w ws
stmt-front (while k c b) w ws = keyword-front k (tokens c ++ block_tokens b) w ws
stmt-front (forever k b) w ws = keyword-front k (block_tokens b) w ws
stmt-front (choice k c) w ws = keyword-front k (choice_tokens c) w ws
stmt-front (function k n l ps r b) w ws =
    keyword-front k (n ∷ l ∷ (ps ++ (r ∷ block_tokens b))) w ws

-- It begins with a token that `advance` stops at, and not with a closing brace.
pub stmt_head-marks :
    (fn lp : Bool) (st : Stmt)
    → IsStmt fn lp st
    → (is_plain (stmt_head st) ≡ true) × (same_type (stmt_head st).type rbrace ≡ false)
unfolding stmt_head IsStmt
stmt_head-marks fn lp (let_in k n a e) wf = (rw wf.0 refl, rw wf.0 refl)
stmt_head-marks fn lp (assigned n a e) wf = (rw wf.0 refl, rw wf.0 refl)
stmt_head-marks fn lp (alone e) wf =
    let f = is_form-head_token e wf in
    ((head_token_marks e wf).0, other_form (head_token e).type rbrace f refl)
stmt_head-marks fn lp (returned k e) wf = (rw wf.1 refl, rw wf.1 refl)
stmt_head-marks fn lp (leave k) wf = (rw wf.1 refl, rw wf.1 refl)
stmt_head-marks fn lp (go_on k) wf = (rw wf.1 refl, rw wf.1 refl)
stmt_head-marks fn lp (while k c b) wf = (rw wf.1 refl, rw wf.1 refl)
stmt_head-marks fn lp (forever k b) wf = (rw wf.1 refl, rw wf.1 refl)
stmt_head-marks fn lp (choice k c) wf = (rw wf.0 refl, rw wf.0 refl)
stmt_head-marks fn lp (function k n l ps r b) wf = (rw wf.1 refl, rw wf.1 refl)

-- What follows a statement ends it.
pub stmts-front :
    (ss : Stmts) (u : Token) (us : List Token)
    → Follows ss
    → ends u.type ≡ true
    → (w : Token) × (ws : List Token) × (stmts_tokens ss ++ (u ∷ us) ≡ w ∷ ws)
      × (ends w.type ≡ true)
unfolding stmts_tokens
stmts-front done u us f h = (u, us, refl, h)
stmts-front (next st ss) u us f h =
    let (y, ys, e) = append-cons (stmts_tokens ss) u us in
    let (x, xs, front) = stmt-front st y ys in
    (
      stmt_head st,
      x ∷ xs,
      append_assoc (stmt_tokens st) (stmts_tokens ss) (u ∷ us)
          ∙ ap (λ z. stmt_tokens st ++ z) e
          ∙ front,
      f,
    )
