-- ===== src/Parser/Stuck.antt =====
-- compiler/parser.cpp, `parse` and the loop of `parse_program` in front of a token that no
-- statement begins with.
use mylamina.Base.{ℕ, zero, suc, ◌≡◌, refl, Bool, true, false, not, ◌||◌, ◌&&◌, ◌==◌, leb}
use mylamina.Base.{arith, ap, ◌∙◌, inl, inr, Bool-cases}
use mylamina.Lexer.{
  TokenType, end_of_file, oper_minus, lparen, rbrace, true_literal, false_literal, identifier,
  kw_vmc, kw_let, kw_func, kw_return, kw_loop, kw_break, kw_continue, kw_if, kw_module, kw_use,
  comment,
}
use mylamina.Ast.{Node, null_node, program}
use mylamina.Parser.State.{
  type_number, ParserState, Parse, Parsing, parsed, thrown, no_fuel, and_then, ◌>>=◌, ◌>>◌, return,
  cur, match, is_eof, on, advance, unknown_token, print_error, ParseError,
}
use mylamina.Parser.Expr.{
  binary_loop, pipe_loop, is_and, is_or, is_relation, is_term_op, is_factor_op, factor, term, expr,
  parse_relational, parse_logical_or, parse_logical_and, expr_body, parse_expr, chain,
}
use mylamina.Parser.Types.{check_type}
use mylamina.Parser.Stmt.{dispatch, parse, caught, parse_default, statements, parse_program}

-- The numbers of the tokens that a statement begins with, that are passed over, or that end the loop.
abbrev pub is_start : ℕ → Bool
is_start n =
    (n == 0)
    || (n == 2)
    || (n == 12)
    || (n == 17)
    || (leb 27 n && not ((n == 34) || (n == 36) || (n == 41)))

-- What `p` gives.
record Gives {A : Type 0} (p : Parse A) (s : ParserState) (x : Parsing A) : Type 0 where
  outcome : p s ≡ x

no_start :
    (s : ParserState) (u : TokenType)
    → is_start (type_number (cur s).type) ≡ false
    → is_start (type_number u) ≡ true
    → match u s ≡ false
no_start s u h i = elim (Bool-cases (match u s)) [ inr f ↦ f | inl f ↦ ground (arith, f, h, i) ]

pass :
    {A : Type 0} (s : ParserState) (h : is_start (type_number (cur s).type) ≡ false) (u : TokenType)
    (p q : Parse A) {x : Parsing A}
    → is_start (type_number u) ≡ true
    → Gives q s x
    → Gives (on u p q) s x
pass s h u p q i g = let e = no_start s u h i in record { outcome = rw e g.outcome }

-- The state that the error is thrown in.
abbrev failed : ParserState → ParserState
failed s = record s { has_err = true }

factor-stuck :
    (pe : Parse Node) (k : ℕ) (s : ParserState)
    → is_start (type_number (cur s).type) ≡ false
    → Gives (factor pe k) s (thrown (unknown_token (cur s).text) (failed s))
unfolding factor
factor-stuck pe k s h = pass s h TokenType.num_literal _ _ refl (
    pass s h lparen _ _ refl (
      pass s h oper_minus _ _ refl (
        pass s h identifier _ _ refl (
          pass s h true_literal _ _ refl (
            pass s h false_literal _ _ refl (
              pass s h end_of_file _ _ refl (
                pass s h TokenType.string_literal _ _ refl
                  (pass s h kw_vmc _ _ refl (record { outcome = refl })))))))))

-- An error goes through a chain of operators.
chain-thrown :
    (ops : TokenType → Bool) (first operand : Parse Node) (k : ℕ) (s t : ParserState)
    (e : ParseError)
    → first s ≡ thrown e t
    → chain ops first operand k s ≡ thrown e t
unfolding chain
chain-thrown ops first operand k s t e h = ap (λ x. and_then x (binary_loop ops operand k)) h

parse_expr-stuck :
    (k : ℕ) (s : ParserState)
    → is_start (type_number (cur s).type) ≡ false
    → parse_expr (suc k) s ≡ thrown (unknown_token (cur s).text) (failed s)
unfolding parse_expr expr_body parse_logical_and parse_logical_or parse_relational expr term
parse_expr-stuck k s h =
    let pe = parse_expr k in
    let t = failed s in
    let e = unknown_token (cur s).text in
    ap
      (λ x. and_then x (λ first. do
        node ← pipe_loop (parse_logical_and pe k) k first
        _ ← check_type k
        return node))
      (chain-thrown is_and (parse_logical_or pe k) (parse_logical_or pe k) k s t e (
        chain-thrown is_or (parse_relational pe k) (parse_relational pe k) k s t e (
          chain-thrown is_relation (expr pe k) pe k s t e (
            chain-thrown is_term_op (term pe k) (term pe k) k s t e (
              chain-thrown is_factor_op (factor pe k) (factor pe k) k s t e
                (factor-stuck pe k s h).outcome)))))

dispatch-stuck :
    (p : Parse Node) (k : ℕ) (s : ParserState)
    → is_start (type_number (cur s).type) ≡ false
    → Gives (dispatch p k) s (parse_expr k s)
unfolding dispatch parse_default
dispatch-stuck p k s h = pass s h kw_let _ _ refl (
    pass s h kw_func _ _ refl (
      pass s h kw_return _ _ refl (
        pass s h kw_loop _ _ refl (
          pass s h kw_break _ _ refl (
            pass s h kw_continue _ _ refl (
              pass s h kw_if _ _ refl (
                pass s h kw_module _ _ refl (
                  pass s h kw_use _ _ refl
                    (pass s h identifier _ _ refl (record { outcome = refl }))))))))))

commented :
    (p : Parse Node) (k : ℕ) (s : ParserState)
    → is_start (type_number (cur s).type) ≡ false
    → Gives (on comment (advance >> dispatch p k) (dispatch p k)) s (parse_expr k s)
commented p k s h =
    pass s h comment (advance >> dispatch p k) (dispatch p k) refl (dispatch-stuck p k s h)

-- The error is printed, and nothing else has changed.
abbrev reported : ParserState → ParserState
reported s = print_error (unknown_token (cur s).text) (failed s)

-- `parse` gives a null pointer and has not moved.
pub parse-stuck :
    (f : ℕ) (s : ParserState)
    → is_start (type_number (cur s).type) ≡ false
    → parse (suc (suc f)) s ≡ parsed null_node (reported s)
unfolding parse
parse-stuck f s h =
    ap caught ((commented (parse (suc f)) (suc f) s h).outcome ∙ parse_expr-stuck f s h)

parse-one : (s : ParserState) → is_start (type_number (cur s).type) ≡ false → parse 1 s ≡ no_fuel
unfolding parse parse_expr
parse-one s h = ap caught (commented (parse 0) 0 s h).outcome

statements-stuck :
    (f j : ℕ) (s : ParserState)
    → is_start (type_number (cur s).type) ≡ false
    → is_eof s ≡ false
    → statements (parse f) j s ≡ no_fuel
unfolding statements parse
statements-stuck f zero s h e = refl
statements-stuck zero (suc j) s h e = let r = no_start s rbrace h refl in rw (r, e) refl
statements-stuck (suc zero) (suc j) s h e =
    let r = no_start s rbrace h refl in rw (r, e, parse-one s h) refl
statements-stuck (suc (suc f)) (suc j) s h e =
    let r = no_start s rbrace h refl in
    rw (r, e, parse-stuck f s h, statements-stuck (suc (suc f)) j (reported s) h e) refl

-- In front of a token that no statement begins with, and that is not the last one, the loop of
-- `parse_program` comes to no end, whatever number of rounds it may take.
pub parse_program-stuck :
    (f : ℕ) (s : ParserState)
    → is_start (type_number (cur s).type) ≡ false
    → is_eof s ≡ false
    → parse_program f s ≡ no_fuel
unfolding parse_program
parse_program-stuck f s h e =
    ap (λ x. and_then x (λ ns. return (program ns))) (statements-stuck f f s h e)
