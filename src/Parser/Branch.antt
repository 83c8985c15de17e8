-- ===== src/Parser/Branch.antt =====
-- How `parse` chooses by the first token of a statement, and what it reads of the short ones.
use mylamina.Base.{ℕ, suc, ◌+◌, ◌≡◌, refl, true, false, List, ◌∷◌, ltb, if◌then◌else◌}
use mylamina.Base.{ap, ◌∙◌, Bool-cases, inl, inr}
use mylamina.Lexer.{
  TokenType, Token, assign, comment, identifier, kw_let, kw_func, kw_return, kw_loop, kw_break,
  kw_continue, kw_if, kw_module, kw_use,
}
use mylamina.Ast.{Node, var_decl, return_stmt, break_node, continue_node, null_node}
use mylamina.Parser.State.{
  same_type, type_number, ParserState, ParseError, Parse, parsed, ◌>>=◌, ◌>>◌, return, cur, advance,
  text, error, require, peek_match, expected_identifier, expected_assignment, expected_break,
  expected_continue, expected_return,
}
use mylamina.Parser.Expr.{parse_expr}
use mylamina.Parser.Stmt.{
  dispatch, parse, caught, parse_default, parse_let, parse_return, parse_loop, in_loop_only,
  parse_if,
}
use mylamina.Parser.Reads.{
  goto, At, Reads, is_plain, cur-At, drop-next, get_elem?-drop, Reads-return, Reads-bind, Reads-if,
  Reads-else, Reads-text, Reads-advance, Reads-require, on-true, on-false,
}
use mylamina.Parser.Operand.{Reads-then}
use mylamina.Parser.Ends.{is_form, other_form}

-- No error, no comment: `parse` gives what the branch gives.
pub parse-dispatch :
    (f : ℕ) (s : ParserState) {t : Token} {ts rest : List Token} {a : Node}
    → At s (t ∷ ts)
    → same_type t.type comment ≡ false
    → Reads (dispatch (parse f) f) s a rest
    → Reads (parse (suc f)) s a rest
unfolding parse
parse-dispatch f s h plain r =
    let x = on-false comment (advance >> dispatch (parse f) f) (dispatch (parse f) f) s h plain r in
    record { stop = x.stop; result = ap caught x.result; left = x.left }

-- The branches.
module _ (p : Parse Node) (k : ℕ) (s : ParserState) {t : Token} {ts rest : List Token} {a : Node}
    (h : At s (t ∷ ts)) where
  pub dispatch-let : t.type ≡ kw_let → Reads (parse_let k) s a rest → Reads (dispatch p k) s a rest
  unfolding dispatch
  dispatch-let e r = on-true kw_let _ _ s h (rw e refl) r

  pub dispatch-return :
      t.type ≡ kw_return → Reads (parse_return k) s a rest → Reads (dispatch p k) s a rest
  unfolding dispatch
  dispatch-return e r =
      on-false kw_let _ _ s h (rw e refl)
        (on-false kw_func _ _ s h (rw e refl) (on-true kw_return _ _ s h (rw e refl) r))

  pub dispatch-loop :
      t.type ≡ kw_loop → Reads (parse_loop p k) s a rest → Reads (dispatch p k) s a rest
  unfolding dispatch
  dispatch-loop e r = on-false kw_let _ _ s h (rw e refl) (
      on-false kw_func _ _ s h (rw e refl)
        (on-false kw_return _ _ s h (rw e refl) (on-true kw_loop _ _ s h (rw e refl) r)))

  pub dispatch-break :
      t.type ≡ kw_break
      → Reads (in_loop_only expected_break break_node) s a rest
      → Reads (dispatch p k) s a rest
  unfolding dispatch
  dispatch-break e r = on-false kw_let _ _ s h (rw e refl) (
      on-false kw_func _ _ s h (rw e refl) (
        on-false kw_return _ _ s h (rw e refl)
          (on-false kw_loop _ _ s h (rw e refl) (on-true kw_break _ _ s h (rw e refl) r))))

  pub dispatch-continue :
      t.type ≡ kw_continue
      → Reads (in_loop_only expected_continue continue_node) s a rest
      → Reads (dispatch p k) s a rest
  unfolding dispatch
  dispatch-continue e r = on-false kw_let _ _ s h (rw e refl) (
      on-false kw_func _ _ s h (rw e refl) (
        on-false kw_return _ _ s h (rw e refl) (
          on-false kw_loop _ _ s h (rw e refl)
            (on-false kw_break _ _ s h (rw e refl) (on-true kw_continue _ _ s h (rw e refl) r)))))

  pub dispatch-if :
      t.type ≡ kw_if → Reads (advance >> parse_if p k k) s a rest → Reads (dispatch p k) s a rest
  unfolding dispatch
  dispatch-if e r = on-false kw_let _ _ s h (rw e refl) (
      on-false kw_func _ _ s h (rw e refl) (
        on-false kw_return _ _ s h (rw e refl) (
          on-false kw_loop _ _ s h (rw e refl) (
            on-false kw_break _ _ s h (rw e refl)
              (on-false kw_continue _ _ s h (rw e refl) (on-true kw_if _ _ s h (rw e refl) r))))))

  pub dispatch-default :
      is_form (type_number t.type) ≡ false
      → Reads (parse_default k) s a rest
      → Reads (dispatch p k) s a rest
  unfolding dispatch
  dispatch-default e r =
      let not_form =
        λ (u : TokenType) (i : is_form (type_number u) ≡ true). other_form t.type u e i in
      on-false kw_let _ _ s h (not_form kw_let refl) (
        on-false kw_func _ _ s h (not_form kw_func refl) (
          on-false kw_return _ _ s h (not_form kw_return refl) (
            on-false kw_loop _ _ s h (not_form kw_loop refl) (
              on-false kw_break _ _ s h (not_form kw_break refl) (
                on-false kw_continue _ _ s h (not_form kw_continue refl) (
                  on-false kw_if _ _ s h (not_form kw_if refl) (
                    on-false kw_module _ _ s h (not_form kw_module refl)
                      (on-false kw_use _ _ s h (not_form kw_use refl) r))))))))

-- A declaration with `let`.
pub parse_let-Reads :
    (k : ℕ) (s : ParserState) {l n a t : Token} {ts rest : List Token} {e : Node}
    → At s (l ∷ n ∷ a ∷ t ∷ ts)
    → n.type ≡ identifier
    → a.type ≡ assign
    → is_plain t ≡ true
    → ((q : ℕ) → At (goto q s) (t ∷ ts) → Reads (parse_expr k) (goto q s) e rest)
    → Reads (parse_let k) s (var_decl n.text e false) rest
unfolding parse_let
parse_let-Reads k s {n = n} {e = e} h is_name is_assign plain r =
    Reads-bind advance _ s (Reads-advance s h (rw is_name refl)) (λ q1 h1.
      Reads-bind (require identifier expected_identifier) _ (goto q1 s)
        (Reads-require identifier expected_identifier (goto q1 s) h1 (rw is_name refl))
        (λ q2 h2.
          Reads-bind text
            (λ x.
              advance
              >> (require assign expected_assignment
                  >> (advance >> (parse_expr k >>= λ v. return (var_decl x v false)))))
            (goto q2 s) (Reads-text (goto q2 s) h2)
            (λ q3 h3.
              Reads-bind advance _ (goto q3 s) (Reads-advance (goto q3 s) h3 (rw is_assign refl))
                (λ q4 h4.
                  Reads-bind (require assign expected_assignment) _ (goto q4 s)
                    (Reads-require assign expected_assignment (goto q4 s) h4 (rw is_assign refl))
                    (λ q5 h5.
                      Reads-bind advance _ (goto q5 s) (Reads-advance (goto q5 s) h5 plain)
                        (λ q6 h6.
                          Reads-bind (parse_expr k) (λ v. return (var_decl n.text v false))
                            (goto q6 s) (r q6 h6)
                            (λ q7 h7. Reads-return (goto q7 s) (var_decl n.text e false) h7)))))))

peek_match-Reads :
    (ty : TokenType) (s : ParserState) {t x : Token} {ts : List Token}
    → At s (t ∷ x ∷ ts)
    → Reads (peek_match ty) s (same_type x.type ty) (t ∷ x ∷ ts)
peek_match-Reads ty s h = record {
  stop = s.pos;
  result = rw (peek_match, get_elem?-drop (s.pos + 1) s.tokens (drop-next s.pos s.tokens h)) refl;
  left = h;
}

-- An assignment.
pub parse_default-assigns :
    (k : ℕ) (s : ParserState) {n a t : Token} {ts rest : List Token} {e : Node}
    → At s (n ∷ a ∷ t ∷ ts)
    → n.type ≡ identifier
    → a.type ≡ assign
    → is_plain t ≡ true
    → ((q : ℕ) → At (goto q s) (t ∷ ts) → Reads (parse_expr k) (goto q s) e rest)
    → Reads (parse_default k) s (var_decl n.text e true) rest
unfolding parse_default
parse_default-assigns k s {n = n} {a} {e = e} h is_name is_assign plain r =
    let other = parse_expr k in
    on-true identifier _ _ s h (rw is_name refl) (
      Reads-bind (peek_match assign) _ s {a = same_type a.type assign} (peek_match-Reads assign s h)
        (λ q1 h1. rw is_assign (
          Reads-bind text
            (λ x. advance >> (advance >> (parse_expr k >>= λ v. return (var_decl x v true))))
            (goto q1 s) (Reads-text (goto q1 s) h1)
            (λ q3 h3.
              Reads-bind advance _ (goto q3 s) (Reads-advance (goto q3 s) h3 (rw is_assign refl))
                (λ q5 h5.
                  Reads-bind advance _ (goto q5 s) (Reads-advance (goto q5 s) h5 plain) (λ q6 h6.
                    Reads-bind (parse_expr k) (λ v. return (var_decl n.text v true)) (goto q6 s)
                      (r q6 h6)
                      (λ q7 h7. Reads-return (goto q7 s) (var_decl n.text e true) h7)))))))

-- An expression that does not begin like an assignment.
pub parse_default-expr :
    (k : ℕ) (s : ParserState) {t x : Token} {ts rest : List Token} {e : Node}
    → At s (t ∷ x ∷ ts)
    → (same_type t.type identifier ≡ true → same_type x.type assign ≡ false)
    → ((q : ℕ) → At (goto q s) (t ∷ x ∷ ts) → Reads (parse_expr k) (goto q s) e rest)
    → Reads (parse_default k) s e rest
unfolding parse_default
parse_default-expr k s {t} {x} h second r = elim (Bool-cases (same_type t.type identifier)) [
  | inr f ↦ on-false identifier _ _ s h f (r s.pos h)
  | inl f ↦ on-true identifier _ _ s h f (
      Reads-bind (peek_match assign) _ s {a = same_type x.type assign} (peek_match-Reads assign s h)
        (λ q1 h1. rw (second f) (r q1 h1)))
]

pub parse_return-Reads :
    (k : ℕ) (s : ParserState) {l t : Token} {ts rest : List Token} {e : Node}
    → At s (l ∷ t ∷ ts)
    → s.in_func ≡ true
    → is_plain t ≡ true
    → ltb l.line t.line ≡ false
    → ((q : ℕ) → At (goto q s) (t ∷ ts) → Reads (parse_expr k) (goto q s) e rest)
    → Reads (parse_return k) s (return_stmt e) rest
unfolding parse_return
parse_return-Reads k s {l} {t} {e = e} h inside plain same_line r =
    let value = parse_expr k >>= λ x. return (return_stmt x) in
    let late = λ (v w : ParserState). ltb (cur v).line (cur w).line in
    let body = λ (v : ParserState) (w : ParserState).
      if late v w then parsed (return_stmt null_node) w else value w in
    let x = Reads-then (body s) s h plain (λ q hq.
      Reads-else (late s) (return (return_stmt null_node)) value (goto q s)
        (ap (λ (c : Token). ltb c.line (cur (goto q s)).line) (cur-At s h)
          ∙ ap (λ (c : Token). ltb l.line c.line) (cur-At (goto q s) hq)
          ∙ same_line)
        (Reads-bind (parse_expr k) (λ x. return (return_stmt x)) (goto q s) (r q hq)
          (λ q' h'. Reads-return (goto q' s) (return_stmt e) h'))) in
    Reads-if (λ v. v.in_func) (λ v. (advance >> body v) v) (error expected_return) s inside
      (record { stop = x.stop; result = x.result; left = x.left })

-- `break` and `continue` in a loop.
pub in_loop_only-Reads :
    (e : ParseError) (n : Node) (s : ParserState) {l u : Token} {us : List Token}
    → At s (l ∷ u ∷ us)
    → s.in_loop ≡ true
    → is_plain u ≡ true
    → Reads (in_loop_only e n) s n (u ∷ us)
unfolding in_loop_only
in_loop_only-Reads e n s h inside plain =
    Reads-then (λ v. if v.in_loop then parsed n v else error e v) s h plain
      (λ q hq.
        Reads-if (λ v. v.in_loop) (return n) (error e) (goto q s) inside
          (Reads-return (goto q s) n hq))
