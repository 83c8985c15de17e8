-- ===== src/Parser/Statements.antt =====
-- compiler/parser.cpp, `parse`: the tokens of a statement are read as its tree.
use mylamina.Base.{ℕ, zero, suc, ◌≤◌, ◌≡◌, refl, true, List, [], ◌∷◌, ◌++◌}
use mylamina.Base.{arith, sym, ap, ◌∙◌, append_assoc}
use mylamina.Lexer.{Token, lbrace, comment}
use mylamina.Ast.{break_node, continue_node}
use mylamina.Parser.State.{ParserState, expected_break, expected_continue}
use mylamina.Parser.Stmt.{statements, parse_block, parse_if, parse}
use mylamina.Parser.Reads.{goto, At, Reads, is_plain}
use mylamina.Parser.Operand.{Reads-then}
use mylamina.Parser.Grammar.{tokens}
use mylamina.Parser.Marks.{head_token, tokens-head_token, head_token_marks}
use mylamina.Parser.Forms.{
  Stmt, Choice, Block, Stmts, let_in, assigned, alone, returned, leave, go_on, while, forever,
  choice, function, when, either, else_if, block, done, next, stmt_tokens, choice_tokens,
  block_tokens, stmts_tokens, stmt_node, choice_node, block_node, stmts_nodes, ends, stmt_head,
  IsStmt, IsChoice, IsBlock, AreStmts, stmt_size, choice_size, block_size, stmts_size,
}
use mylamina.Parser.Ends.{ends-no_else, ends-no_assign, other_form, is_form-head_token}
use mylamina.Parser.Fronts.{tokens-second, stmt-front, stmts-front}
use mylamina.Parser.Branch.{
  parse-dispatch, dispatch-let, dispatch-return, dispatch-loop, dispatch-break, dispatch-continue,
  dispatch-if, dispatch-default, parse_let-Reads, parse_default-assigns, parse_default-expr,
  parse_return-Reads, in_loop_only-Reads,
}
use mylamina.Parser.Compound.{
  at_end, statements-end, statements-next, parse_block-Reads, parse_loop-while, parse_loop-forever,
}
use mylamina.Parser.Choices.{no_else, else_block, else_choice}
use mylamina.Parser.Params.{parse_func_decl-Reads, dispatch-func}
use mylamina.Parser.Entry.{
  stmt_node-is_null, inner-expr, ends-plain, not-at_end, block-front, choice-front, stmts-begin,
  rbrace-at_end, choice-then,
}

block_size-positive : (b : Block) → 1 ≤ block_size b
unfolding block_size stmts_size
block_size-positive (block l done r) = omega arith
block_size-positive (block l (next st ss) r) = omega arith

mutual
  unfolding stmt_tokens choice_tokens block_tokens stmts_tokens stmt_node choice_node block_node
      stmts_nodes stmt_head IsStmt IsChoice IsBlock AreStmts stmt_size choice_size block_size
      stmts_size

  pub stmt-Reads :
      (st : Stmt) (f : ℕ) (s : ParserState) (u : Token) (us : List Token)
      → IsStmt s.in_func s.in_loop st
      → stmt_size st ≤ suc f
      → ends u.type ≡ true
      → At s (stmt_tokens st ++ (u ∷ us))
      → Reads (parse (suc f)) s (stmt_node st) (u ∷ us)
  stmt-Reads (let_in k n a e) f s u us wf fuel ended h =
      let (is_let, is_name, is_assign, wfe) = wf in
      let (o, front) = tokens-head_token e (u ∷ us) in
      parse-dispatch f s h (rw is_let refl) (
        dispatch-let (parse f) f s h is_let (
          parse_let-Reads f s (h ∙ ap (λ z. k ∷ n ∷ a ∷ z) front) is_name is_assign
            (head_token_marks e wfe).0
            (λ q hq. inner-expr e f (goto q s) wfe (omega (arith, fuel)) ended (hq ∙ sym front))))
  stmt-Reads (assigned n a e) f s u us wf fuel ended h =
      let (is_name, is_assign, wfe) = wf in
      let (o, front) = tokens-head_token e (u ∷ us) in
      parse-dispatch f s h (rw is_name refl) (
        dispatch-default (parse f) f s h (rw is_name refl) (
          parse_default-assigns f s (h ∙ ap (λ z. n ∷ a ∷ z) front) is_name is_assign
            (head_token_marks e wfe).0
            (λ q hq. inner-expr e f (goto q s) wfe (omega (arith, fuel)) ended (hq ∙ sym front))))
  stmt-Reads (alone e) f s u us wf fuel ended h =
      let (x, xs, front, second) = tokens-second e u us wf (ends-no_assign u.type ended) in
      let not_form = is_form-head_token e wf in
      parse-dispatch f s (h ∙ front) (other_form (head_token e).type comment not_form refl) (
        dispatch-default (parse f) f s (h ∙ front) not_form (
          parse_default-expr f s (h ∙ front) second
            (λ q hq. inner-expr e f (goto q s) wf (omega (arith, fuel)) ended (hq ∙ sym front))))
  stmt-Reads (returned k e) f s u us wf fuel ended h =
      let (inside, is_return, same_line, wfe) = wf in
      let (o, front) = tokens-head_token e (u ∷ us) in
      parse-dispatch f s h (rw is_return refl) (
        dispatch-return (parse f) f s h is_return (
          parse_return-Reads f s (h ∙ ap (λ z. k ∷ z) front) inside (head_token_marks e wfe).0
            same_line
            (λ q hq. inner-expr e f (goto q s) wfe (omega (arith, fuel)) ended (hq ∙ sym front))))
  stmt-Reads (leave k) f s u us wf fuel ended h = parse-dispatch f s h (rw wf.1 refl) (
      dispatch-break (parse f) f s h wf.1
        (in_loop_only-Reads expected_break break_node s h wf.0 (ends-plain u ended)))
  stmt-Reads (go_on k) f s u us wf fuel ended h = parse-dispatch f s h (rw wf.1 refl) (
      dispatch-continue (parse f) f s h wf.1
        (in_loop_only-Reads expected_continue continue_node s h wf.0 (ends-plain u ended)))
  stmt-Reads (while k c b) f s u us wf fuel ended h =
      let (outside, is_loop, wfc, wfb) = wf in
      let (o, front) = tokens-head_token c (block_tokens b ++ (u ∷ us)) in
      let (l, ls, bfront, brace) = block-front b (u ∷ us) in
      let opens = brace s.in_func true wfb in
      parse-dispatch f s h (rw is_loop refl) (
        dispatch-loop (parse f) f s h is_loop (
          parse_loop-while (parse f) f s outside
            (h ∙ ap (λ z. k ∷ z) (append_assoc (tokens c) (block_tokens b) (u ∷ us) ∙ front))
            (head_token_marks c wfc).0
            (other_form (head_token c).type lbrace (is_form-head_token c wfc) refl)
            (λ q hq.
              inner-expr c f (goto q s) wfc (omega (arith, fuel)) (rw opens refl)
                (hq ∙ sym front ∙ ap (λ z. tokens c ++ z) bfront))
            (λ q hq.
              block-Reads b f (record (goto q s) { in_loop = true }) u us wfb (omega (arith, fuel))
                (ends-plain u ended) (hq ∙ sym bfront))))
  stmt-Reads (forever k b) f s u us wf fuel ended h =
      let (outside, is_loop, wfb) = wf in
      let (l, ls, bfront, brace) = block-front b (u ∷ us) in
      parse-dispatch f s h (rw is_loop refl) (
        dispatch-loop (parse f) f s h is_loop (
          parse_loop-forever (parse f) f s outside (h ∙ ap (λ z. k ∷ z) bfront)
            (brace s.in_func true wfb)
            (λ q hq.
              block-Reads b f (record (goto q s) { in_loop = true }) u us wfb (omega (arith, fuel))
                (ends-plain u ended) (hq ∙ sym bfront))))
  stmt-Reads (choice k c) f s u us wf fuel ended h =
      let (l, ls, front, paren) = choice-front c (u ∷ us) in
      parse-dispatch f s h (rw wf.0 refl) (
        dispatch-if (parse f) f s h wf.0 (
          Reads-then (parse_if (parse f) f f) s (h ∙ ap (λ z. k ∷ z) front)
            (rw (paren s.in_func s.in_loop wf.1) refl)
            (λ q hq.
              choice-Reads c f f (goto q s) u us wf.1 (omega (arith, fuel)) (omega (arith, fuel))
                ended (hq ∙ sym front))))
  stmt-Reads (function k n l ps r b) f s u us wf fuel ended h =
      let (outside, is_func, is_name, opens, wfp, closes, wfb) = wf in
      let (bl, bls, bfront, brace) = block-front b (u ∷ us) in
      let here : At s (k ∷ n ∷ l ∷ (ps ++ (r ∷ bl ∷ bls))) =
        h
        ∙ ap (λ z. k ∷ n ∷ l ∷ z)
            (append_assoc ps (r ∷ block_tokens b) (u ∷ us) ∙ ap (λ z. ps ++ (r ∷ z)) bfront) in
      parse-dispatch f s h (rw is_func refl) (
        dispatch-func (parse f) f s here is_func (rw is_name refl) outside (λ q hq.
          parse_func_decl-Reads (parse f) f (record (goto q s) { in_func = true }) ps r hq is_name
            opens wfp (omega (arith, fuel, block_size-positive b)) closes (brace true s.in_loop wfb)
            (λ q' h'.
              block-Reads b f (record (goto q' s) { in_func = true }) u us wfb (omega (arith, fuel))
                (ends-plain u ended) (h' ∙ sym bfront))))

  choice-Reads :
      (c : Choice) (f d : ℕ) (s : ParserState) (u : Token) (us : List Token)
      → IsChoice s.in_func s.in_loop c
      → choice_size c ≤ f
      → choice_size c ≤ d
      → ends u.type ≡ true
      → At s (choice_tokens c ++ (u ∷ us))
      → Reads (parse_if (parse f) f d) s (choice_node c) (u ∷ us)
  choice-Reads (when l c r b) f zero s u us wf fuel few ended h = absurd (omega (arith, few))
  choice-Reads (either l c r b e b') f zero s u us wf fuel few ended h = absurd (omega (arith, few))
  choice-Reads (else_if l c r b e k more) f zero s u us wf fuel few ended h =
      absurd (omega (arith, few))
  choice-Reads (when l c r b) f (suc d) s u us wf fuel few ended h =
      let (opens, wfc, closes, wfb) = wf in
      choice-then c b f d s l r (u ∷ us)
        (h ∙ ap (λ z. l ∷ z) (append_assoc (tokens c) (r ∷ block_tokens b) (u ∷ us))) opens wfc
        (omega (arith, fuel)) closes wfb
        (λ q hq. block-Reads b f (goto q s) u us wfb (omega (arith, fuel)) (ends-plain u ended) hq)
        (λ q hq. no_else _ (goto q s) hq (ends-no_else u.type ended))
  choice-Reads (either l c r b e b') f (suc d) s u us wf fuel few ended h =
      let (opens, wfc, closes, wfb, is_else, wfb') = wf in
      let (bl, bls, bfront, brace) = block-front b' (u ∷ us) in
      let others = block_tokens b' ++ (u ∷ us) in
      choice-then c b f d s l r (e ∷ others)
        (h
          ∙ ap (λ z. l ∷ z)
              (append_assoc (tokens c) (r ∷ (block_tokens b ++ (e ∷ block_tokens b'))) (u ∷ us)
                ∙ ap (λ z. tokens c ++ (r ∷ z))
                    (append_assoc (block_tokens b) (e ∷ block_tokens b') (u ∷ us))))
        opens wfc (omega (arith, fuel)) closes wfb
        (λ q hq. block-Reads b f (goto q s) e others wfb (omega (arith, fuel)) (rw is_else refl) hq)
        (λ q hq.
          else_block (parse_block (parse f) f) (parse_if (parse f) f d) (goto q s)
            (hq ∙ ap (λ z. e ∷ z) bfront) is_else (brace s.in_func s.in_loop wfb')
            (λ q' h'.
              block-Reads b' f (goto q' s) u us wfb' (omega (arith, fuel)) (ends-plain u ended)
                (h' ∙ sym bfront)))
  choice-Reads (else_if l c r b e k more) f (suc d) s u us wf fuel few ended h =
      let (opens, wfc, closes, wfb, is_else, is_if, wfm) = wf in
      let (ml, mls, front, paren) = choice-front more (u ∷ us) in
      let others = k ∷ (choice_tokens more ++ (u ∷ us)) in
      choice-then c b f d s l r (e ∷ others)
        (h
          ∙ ap (λ z. l ∷ z)
              (append_assoc (tokens c) (r ∷ (block_tokens b ++ (e ∷ k ∷ choice_tokens more)))
                  (u ∷ us)
                ∙ ap (λ z. tokens c ++ (r ∷ z))
                    (append_assoc (block_tokens b) (e ∷ k ∷ choice_tokens more) (u ∷ us))))
        opens wfc (omega (arith, fuel)) closes wfb
        (λ q hq. block-Reads b f (goto q s) e others wfb (omega (arith, fuel)) (rw is_else refl) hq)
        (λ q hq.
          else_choice (parse_block (parse f) f) (parse_if (parse f) f d) (goto q s)
            (hq ∙ ap (λ z. e ∷ k ∷ z) front) is_else is_if (rw (paren s.in_func s.in_loop wfm) refl)
            (λ q' h'.
              choice-Reads more f d (goto q' s) u us wfm (omega (arith, fuel)) (omega (arith, few))
                ended (h' ∙ sym front)))

  block-Reads :
      (b : Block) (f : ℕ) (s : ParserState) (u : Token) (us : List Token)
      → IsBlock s.in_func s.in_loop b
      → block_size b ≤ f
      → is_plain u ≡ true
      → At s (block_tokens b ++ (u ∷ us))
      → Reads (parse_block (parse f) f) s (block_node b) (u ∷ us)
  block-Reads (block l ss r) f s u us wf fuel plain h =
      let (opens, wfs, closes) = wf in
      let (y, ys, front, plain') =
        stmts-begin s.in_func s.in_loop ss r (u ∷ us) wfs (rw closes refl) in
      parse_block-Reads (parse f) f s
        (h ∙ ap (λ z. l ∷ z) (append_assoc (stmts_tokens ss) (r ∷ []) (u ∷ us) ∙ front)) opens
        plain'
        (λ q hq.
          stmts-Reads ss f f (goto q s) r (u ∷ us) wfs fuel fuel (rw closes refl)
            (λ q' h'. rbrace-at_end (goto q' s) r closes h') (hq ∙ sym front))
        closes plain

  pub stmts-Reads :
      (ss : Stmts) (f j : ℕ) (s : ParserState) (u : Token) (us : List Token)
      → AreStmts s.in_func s.in_loop ss
      → stmts_size ss ≤ f
      → stmts_size ss ≤ j
      → ends u.type ≡ true
      → ((q : ℕ) → At (goto q s) (u ∷ us) → at_end (goto q s) ≡ true)
      → At s (stmts_tokens ss ++ (u ∷ us))
      → Reads (statements (parse f) j) s (stmts_nodes ss) (u ∷ us)
  stmts-Reads done f zero s u us wf fuel few ended stop h = absurd (omega (arith, few))
  stmts-Reads done f (suc j) s u us wf fuel few ended stop h =
      statements-end (parse f) j s h (stop s.pos h)
  stmts-Reads (next st ss) zero j s u us wf fuel few ended stop h = absurd (omega (arith, fuel))
  stmts-Reads (next st ss) (suc f) zero s u us wf fuel few ended stop h =
      absurd (omega (arith, few))
  stmts-Reads (next st ss) (suc f) (suc j) s u us wf fuel few ended stop h =
      let (wst, follows, wss) = wf in
      let (w, ws, front, ended') = stmts-front ss u us follows ended in
      let (x, xs, front') = stmt-front st w ws in
      let here : At s (stmt_tokens st ++ (w ∷ ws)) =
        h
        ∙ append_assoc (stmt_tokens st) (stmts_tokens ss) (u ∷ us)
        ∙ ap (λ z. stmt_tokens st ++ z) front in
      statements-next (parse (suc f)) j s (not-at_end s.in_func s.in_loop st s wst (here ∙ front'))
        (stmt_node-is_null st) (stmt-Reads st f s w ws wst (omega (arith, fuel)) ended' here)
        (λ q hq.
          stmts-Reads ss (suc f) j (goto q s) u us wss (omega (arith, fuel)) (omega (arith, few))
            ended stop (hq ∙ sym front))
