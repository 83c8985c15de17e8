-- ===== src/Parser/RoundTrip.antt =====
-- compiler/parser.cpp, `parse_expr`: the tokens of an expression are read as its tree.
use mathlib.Core.Path.{subst}
use mylamina.Base.{ℕ, zero, suc, ◌≤◌, ◌<◌, ◌≡◌, ◌≢◌, refl, true, List, [], ◌∷◌, ◌++◌}
use mylamina.Base.{arith, sym, ap, ◌∙◌, append_assoc}
use mylamina.Lexer.{Token}
use mylamina.Ast.{Node, binary}
use mylamina.Parser.State.{ParserState, Parse}
use mylamina.Parser.Expr.{args_loop, binary_loop, parse_expr}
use mylamina.Parser.Reads.{goto, At, Reads, is_plain}
use mylamina.Parser.Grammar.{
  Syntax, Tail, Args, number, variable, text, parens, call, machine, minus, chain, compare, end,
  link, close, last_arg, next_arg, tokens, tail_tokens, args_tokens, node, tail_node, args_nodes,
  is_op, rank, IsWf, IsWfTail, IsWfArgs, size, tail_size, args_size, IsStop, IsEnd,
}
use mylamina.Parser.Marks.{
  IsStop-op, IsStop-weaken, IsEnd-rparen, IsEnd-comma, head_token, tokens-head_token,
  head_token_marks,
}
use mylamina.Parser.Climb.{
  reader, operand, reader-suc-Reads, operand-reader, binary_loop-stop, binary_loop-link, climb,
  parse_expr-Reads,
}
use mylamina.Parser.Arguments.{args_loop-close, args_loop-last, args_loop-next}
use mylamina.Parser.Operand.{
  factor-number, factor-string, factor-minus, factor-parens, factor-variable, factor-call,
  factor-machine,
}
use mylamina.Parser.Ranks.{
  low, low-rank, tokens-front, tail-front, args-front, low_bound, size-positive,
}

-- The loop ends in front of a token that is none of its operators, if it may take a round.
loop-stop :
    (n k : ℕ) (p : Parse Node) (acc : Node) (s : ParserState) {u : Token} {us : List Token}
    → 1 ≤ k
    → At s (u ∷ us)
    → IsStop n u
    → Reads (binary_loop (is_op n) p k acc) s acc (u ∷ us)
loop-stop n zero p acc s h at stop = absurd (omega (arith, h))
loop-stop n (suc k) p acc s h at stop =
    binary_loop-stop (is_op n) p k acc s at (stop.no_op n (omega arith))

-- What reads this expression at any rank from its own on.
abbrev Readable : Syntax → Type 0
Readable e =
    (r f : ℕ) (s : ParserState) (u : Token) (us : List Token)
    → IsWf e
    → low e ≤ r
    → r ≤ 5
    → size e ≤ suc f
    → IsStop r u
    → (rank e ≡ 6 → IsEnd u)
    → At s (tokens e ++ (u ∷ us))
    → Reads (reader (parse_expr (suc f)) (suc f) r) s (node e) (u ∷ us)

-- It is read as a whole expression then.
whole-Reads :
    (e : Syntax)
    → Readable e
    → (g : ℕ) (s : ParserState) {u : Token} {us : List Token} → IsWf e
    → size e ≤ g
    → IsEnd u
    → At s (tokens e ++ (u ∷ us))
    → Reads (parse_expr (suc g)) s (node e) (u ∷ us)
whole-Reads e reads zero s wf sz closed h = absurd (omega (arith, sz, size-positive e))
whole-Reads e reads (suc f) s wf sz closed h =
    parse_expr-Reads f s closed
      (reads 5 f s _ _ wf (low_bound e wf) (omega arith) sz closed.stop (λ _. closed) h)

mutual
  unfolding low rank size tail_size args_size tokens tail_tokens args_tokens node tail_node
      args_nodes IsWf IsWfTail IsWfArgs

  -- At any rank from its own on.
  reader-Reads : (e : Syntax) → Readable e
  reader-Reads (number t) r f s u us wf lo hi sz stop ended h =
      climb (parse_expr (suc f)) f 0 r s (omega arith) hi stop
        (factor-number (parse_expr (suc f)) (suc f) s wf h stop.plain)
  reader-Reads (variable t) r f s u us wf lo hi sz stop ended h =
      climb (parse_expr (suc f)) f 0 r s (omega arith) hi stop
        (factor-variable (parse_expr (suc f)) f s wf h stop.plain stop.no_dot stop.no_lparen)
  reader-Reads (text t) r f s u us wf lo hi sz stop ended h =
      climb (parse_expr (suc f)) f 0 r s (omega arith) hi stop
        (factor-string (parse_expr (suc f)) (suc f) s wf h stop.plain)
  reader-Reads (parens l e c) r f s u us wf lo hi sz stop ended h =
      let (o, front) = tokens-head_token e (c ∷ u ∷ us) in
      let here : At s (l ∷ head_token e ∷ o) =
        h ∙ ap (λ x. l ∷ x) (append_assoc (tokens e) (c ∷ []) (u ∷ us) ∙ front) in
      climb (parse_expr (suc f)) f 0 r s (omega arith) hi stop (
        factor-parens (parse_expr (suc f)) (suc f) s wf.0 wf.2 here (head_token_marks e wf.1).0
          stop.plain
          (λ q hq.
            whole-Reads e (reader-Reads e) f (goto q s) wf.1 (omega (arith, sz))
              (IsEnd-rparen c wf.2) (hq ∙ sym front)))
  reader-Reads (call n l as') r f s u us wf lo hi sz stop ended h =
      let (w, ws, front, plain) = args-front as' (u ∷ us) wf.2 in
      climb (parse_expr (suc f)) f 0 r s (omega arith) hi stop (
        factor-call (parse_expr (suc f)) (suc f) s wf.0 wf.1 (h ∙ ap (λ x. n ∷ l ∷ x) front) plain
          (λ q hq.
            args-Reads as' f (suc f) (goto q s) wf.2 (omega (arith, sz)) (omega (arith, sz))
              stop.plain (hq ∙ sym front)))
  reader-Reads (machine v i l as') r f s u us wf lo hi sz stop ended h =
      let (is_vmc, is_number, is_lparen, wfa) = wf in
      let (w, ws, front, plain) = args-front as' (u ∷ us) wfa in
      climb (parse_expr (suc f)) f 0 r s (omega arith) hi stop (
        factor-machine (parse_expr (suc f)) (suc f) s is_vmc is_number is_lparen
          (h ∙ ap (λ x. v ∷ i ∷ l ∷ x) front) plain
          (λ q hq.
            args-Reads as' f (suc f) (goto q s) wfa (omega (arith, sz)) (omega (arith, sz))
              stop.plain (hq ∙ sym front)))
  reader-Reads (minus m e) r f s u us wf lo hi sz stop ended h =
      let (o, front) = tokens-head_token e (u ∷ us) in
      climb (parse_expr (suc f)) f 0 r s (omega arith) hi stop (
        factor-minus (parse_expr (suc f)) (suc f) s wf.0 (h ∙ ap (λ x. m ∷ x) front)
          (head_token_marks e wf.1).0
          (λ q hq.
            whole-Reads e (reader-Reads e) f (goto q s) wf.1 (omega (arith, sz)) (ended refl)
              (hq ∙ sym front)))
  reader-Reads (chain zero first tail) r f s u us wf lo hi sz stop ended h = absurd wf
  reader-Reads (chain (suc n) first tail) r f s u us wf lo hi sz stop ended h =
      let (wf1, rank1, wft, lt, ne2) = wf in
      let weak = IsStop-weaken (suc n) r u lo stop in
      let (w, ws, front, stop') = tail-front n tail u us wft weak in
      let low1 = low-rank first in
      climb (parse_expr (suc f)) f (suc n) r s lo hi stop (
        reader-suc-Reads (parse_expr (suc f)) (suc f) n s lt
          (reader-Reads first n f s _ _ wf1 (omega (arith, low1, rank1)) (omega (arith, lt))
            (omega (arith, sz)) stop' (λ six. absurd (omega (arith, six, rank1, lt)))
            (h
              ∙ append_assoc (tokens first) (tail_tokens tail) (u ∷ us)
              ∙ ap (λ x. tokens first ++ x) front))
          (λ q hq.
            tail-Reads tail n f (suc f) (node first) (goto q s) wft lt ne2
              (omega (arith, sz, size-positive first)) (omega (arith, sz)) weak (hq ∙ sym front)))
  reader-Reads (compare a op b) r f s u us wf lo hi sz stop ended h =
      let (wfa, ranka, rel, wfb) = wf in
      let lowa = low-rank a in
      let (x, xs, front) = tokens-front b u us in
      climb (parse_expr (suc f)) f 3 r s lo hi stop (
        reader-suc-Reads (parse_expr (suc f)) (suc f) 2 s (omega arith)
          (reader-Reads a 2 f s _ _ wfa (omega (arith, lowa, ranka)) (omega arith)
            (omega (arith, sz)) (IsStop-op 2 op rel) (λ six. absurd (omega (arith, six, ranka)))
            (h ∙ append_assoc (tokens a) (op ∷ tokens b) (u ∷ us)))
          (λ q hq.
            binary_loop-link (is_op 3) (parse_expr (suc f)) f (node a) (goto q s)
              (hq ∙ ap (λ y. op ∷ y) front) rel (head_token_marks b wfb).0
              (λ q' h'.
                whole-Reads b (reader-Reads b) f (goto q' s) wfb (omega (arith, sz)) (ended refl)
                  (h' ∙ sym front))
              (λ q' h'.
                loop-stop 3 f (parse_expr (suc f)) (binary (node a) (node b) op.text) (goto q' s)
                  (omega (arith, sz)) h' (IsStop-weaken 3 r u lo stop))))

  -- The operators and operands behind the first.
  tail-Reads :
      (tail : Tail) (n f j : ℕ) (acc : Node) (s : ParserState) {u : Token} {us : List Token}
      → IsWfTail n tail
      → n < 5
      → n ≢ 2
      → tail_size tail < j
      → tail_size tail ≤ suc f
      → IsStop (suc n) u
      → At s (tail_tokens tail ++ (u ∷ us))
      → Reads
          (binary_loop (is_op (suc n)) (operand (parse_expr (suc f)) (suc f) n) j acc)
          s
          (tail_node acc tail)
          (u ∷ us)
  tail-Reads end n f j acc s wf lt ne2 few sz stop h =
      loop-stop (suc n) j _ acc s (omega (arith, few)) h stop
  tail-Reads (link op e tail) n f zero acc s wf lt ne2 few sz stop h = absurd (omega (arith, few))
  tail-Reads (link op e tail) n f (suc j) acc s {u} {us} wf lt ne2 few sz stop h =
      let (is_op', wfe, ranke, wft) = wf in
      let (w, ws, front, stop') = tail-front n tail u us wft stop in
      let (x, xs, front') = tokens-front e w ws in
      let split : (tokens e ++ tail_tokens tail) ++ (u ∷ us) ≡ tokens e ++ (w ∷ ws) =
        append_assoc (tokens e) (tail_tokens tail) (u ∷ us) ∙ ap (λ y. tokens e ++ y) front in
      let lowe = low-rank e in
      binary_loop-link (is_op (suc n)) (operand (parse_expr (suc f)) (suc f) n) j acc s
        (h ∙ ap (λ y. op ∷ y) (split ∙ front')) is_op' (head_token_marks e wfe).0
        (λ q hq.
          subst (λ (p : Parse Node). Reads p (goto q s) (node e) (w ∷ ws))
            (sym (operand-reader (parse_expr (suc f)) (suc f) n ne2))
            (reader-Reads e n f (goto q s) _ _ wfe (omega (arith, lowe, ranke)) (omega (arith, lt))
              (omega (arith, sz)) stop' (λ six. absurd (omega (arith, six, ranke, lt)))
              (hq ∙ sym front')))
        (λ q hq.
          tail-Reads tail n f j (binary acc (node e) op.text) (goto q s) wft lt ne2
            (omega (arith, few)) (omega (arith, sz)) stop (hq ∙ sym front))

  -- The arguments of a call.
  args-Reads :
      (as' : Args) (f j : ℕ) (s : ParserState) {u : Token} {us : List Token}
      → IsWfArgs as'
      → args_size as' ≤ f
      → args_size as' ≤ j
      → is_plain u ≡ true
      → At s (args_tokens as' ++ (u ∷ us))
      → Reads (args_loop (parse_expr (suc f)) j) s (args_nodes as') (u ∷ us)
  args-Reads (close r) f zero s wf sz few plain h = absurd (omega (arith, few))
  args-Reads (last_arg e r) f zero s wf sz few plain h = absurd (omega (arith, few))
  args-Reads (next_arg e c as') f zero s wf sz few plain h = absurd (omega (arith, few))
  args-Reads (close r) f (suc j) s wf sz few plain h =
      args_loop-close (parse_expr (suc f)) j s wf h plain
  args-Reads (last_arg e r) f (suc j) s {u} {us} wf sz few plain h =
      let (o, front) = tokens-head_token e (r ∷ u ∷ us) in
      let here = h ∙ append_assoc (tokens e) (r ∷ []) (u ∷ us) in
      args_loop-last (parse_expr (suc f)) j s (here ∙ front) (head_token_marks e wf.0).1
        (whole-Reads e (reader-Reads e) f s wf.0 (omega (arith, sz)) (IsEnd-rparen r wf.1) here)
        wf.1 plain
  args-Reads (next_arg e c as') f (suc j) s {u} {us} wf sz few plain h =
      let (o, front) = tokens-head_token e (c ∷ (args_tokens as' ++ (u ∷ us))) in
      let (w, ws, front', plain') = args-front as' (u ∷ us) wf.2 in
      let here = h ∙ append_assoc (tokens e) (c ∷ args_tokens as') (u ∷ us) in
      args_loop-next (parse_expr (suc f)) j s (here ∙ front) (head_token_marks e wf.0).1
        (whole-Reads e (reader-Reads e) f s wf.0 (omega (arith, sz)) (IsEnd-comma c wf.1)
          (here ∙ ap (λ y. tokens e ++ (c ∷ y)) front'))
        wf.1 plain'
        (λ q hq.
          args-Reads as' f j (goto q s) wf.2 (omega (arith, sz)) (omega (arith, few)) plain
            (hq ∙ sym front'))

-- The tokens of a well-formed expression, in front of a token that ends it: `parse_expr`, with calls
-- of itself as deep as the size of the expression, succeeds with its tree and stands in front of
-- that token then. Operators group by rank and to the left; a comparison takes a whole expression
-- on its right, and a minus sign stands in front of a whole expression.
pub parse_expr-tokens :
    (e : Syntax) (g : ℕ) (s : ParserState) {u : Token} {us : List Token}
    → IsWf e
    → size e ≤ g
    → IsEnd u
    → At s (tokens e ++ (u ∷ us))
    → Reads (parse_expr (suc g)) s (node e) (u ∷ us)
parse_expr-tokens e g s wf fuel closed h = whole-Reads e (reader-Reads e) g s wf fuel closed h
