-- ===== src/Tests/Parse.antt =====
-- The parser at concrete token lists.
use mylamina.Base.{ℕ, ◌≡◌, ◌≢◌, refl, false, true, List, [], ◌∷◌, ◌++◌, Text, some, arith}
use mylamina.Lexer.{
  TokenType, Token, end_of_file, oper_plus, oper_mul, assign, comma, lparen, rparen, lbrace, rbrace,
  lt, identifier, kw_let, kw_func, kw_return, kw_loop, kw_break, kw_if, kw_else,
}
use mylamina.Ast.{Node, nil, cons, program}
use mylamina.Parser.State.{
  ParserState, parsed, thrown, no_fuel, new_parser, expected_break, advance, advance_within,
}
use mylamina.Parser.Types.{check_type}
use mylamina.Parser.Expr.{
  factor, term, expr, parse_relational, parse_logical_or, parse_logical_and, chain as parse_chain,
  binary_loop, pipe_loop, expr_body, parse_expr,
}
use mylamina.Parser.Stmt.{statements, dispatch, parse, parse_default, in_loop_only, parse_program}
use mylamina.Parser.Reads.{Reads}
use mylamina.Parser.Grammar.{
  Syntax, number, variable, chain, compare, end, link, tokens, tail_tokens, node, rank, size,
  tail_size, IsWf, IsWfTail,
}
use mylamina.Parser.Forms.{
  Stmts, let_in, assigned, returned, leave, while, choice, function, either, block, done, next,
  stmts_tokens, stmt_head, stmts_nodes, stmts_size, stmt_size, choice_size, block_size, AreStmts,
  IsStmt, IsChoice, IsBlock, AllParams,
}
use mylamina.Parser.Marks.{head_token}
use mylamina.Parser.Ends.{IsEnd-ends}
use mylamina.Parser.RoundTrip.{parse_expr-tokens}
use mylamina.Parser.Program.{parse_program-tokens}
use mylamina.Parser.Stuck.{parse_program-stuck}
use mylamina.Parser.Safe.{Later}
use mylamina.Parser.SafeStmt.{parse_program-Later}
use mylamina.Parser.Caught.{parse_program-NoThrow}

abbrev token : TokenType → Text → Token
token t s = record { type = t; text = s; line = 1; col = 1 }

abbrev digit : ℕ → Token
digit c = token TokenType.num_literal (c ∷ [])

abbrev name : ℕ → Token
name c = token identifier (c ∷ [])

abbrev sign : TokenType → Token
sign t = token t []

abbrev end_token : Token
end_token = sign end_of_file

abbrev started : List Token → ParserState
started ts = record {
  tokens = ts;
  back = end_token;
  pos = 0;
  has_err = false;
  in_module = false;
  in_func = false;
  in_loop = false;
  messages = [];
}

-- 1 + 2 * 3
abbrev sum : Syntax
sum = chain 2 (number (digit b'1')) (
    link (token oper_plus (b'+' ∷ []))
      (chain 1 (number (digit b'2')) (link (token oper_mul (b'*' ∷ [])) (number (digit b'3')) end))
      end)

sum-IsWf : IsWf sum
unfolding IsWf IsWfTail rank
sum-IsWf = (
  refl,
  omega arith,
  (
    refl,
    (refl, omega arith, (refl, refl, omega arith, tt), omega arith, λ e. absurd (omega (arith, e))),
    omega arith,
    tt,
  ),
  omega arith,
  λ e. absurd (omega (arith, e)),
)

abbrev sum_tokens : List Token
sum_tokens =
    digit b'1'
    ∷ token oper_plus (b'+' ∷ [])
    ∷ digit b'2'
    ∷ token oper_mul (b'*' ∷ [])
    ∷ digit b'3'
    ∷ end_token
    ∷ []

parse_expr-tokens_example : Reads (parse_expr 21) (started sum_tokens) (node sum) (end_token ∷ [])
unfolding tokens tail_tokens size tail_size
parse_expr-tokens_example =
    parse_expr-tokens sum 20 (started sum_tokens) {u = end_token} {us = []} sum-IsWf (omega arith)
      (IsEnd-ends end_token refl) refl

-- let a = 1  loop a < 3 { if (a) { break } else { a = 2 } }  func f(x, y) { return x }
abbrev script : Stmts
script = next (let_in (sign kw_let) (name b'a') (sign assign) (number (digit b'1'))) (
    next
      (while (sign kw_loop) (compare (variable (name b'a')) (sign lt) (number (digit b'3'))) (
        block (sign lbrace)
          (next
            (choice (sign kw_if) (
              either (sign lparen) (variable (name b'a')) (sign rparen)
                (block (sign lbrace) (next (leave (sign kw_break)) done) (sign rbrace))
                (sign kw_else)
                (block (sign lbrace)
                  (next (assigned (name b'a') (sign assign) (number (digit b'2'))) done)
                  (sign rbrace))))
            done)
          (sign rbrace)))
      (next
        (function (sign kw_func) (name b'f') (sign lparen) (name b'x' ∷ sign comma ∷ name b'y' ∷ [])
          (sign rparen)
          (block (sign lbrace) (next (returned (sign kw_return) (variable (name b'x'))) done)
            (sign rbrace)))
        done))

script-AreStmts : AreStmts false false script
unfolding AreStmts IsStmt IsChoice IsBlock AllParams IsWf rank stmt_head head_token
script-AreStmts = (
  (refl, refl, refl, refl),
  refl,
  (
    (
      refl,
      refl,
      (refl, omega arith, refl, refl),
      (
        refl,
        (
          (
            refl,
            (
              refl,
              refl,
              refl,
              (refl, ((refl, refl), tt, tt), refl),
              refl,
              (refl, ((refl, refl, refl), tt, tt), refl),
            ),
          ),
          tt,
          tt,
        ),
        refl,
      ),
    ),
    refl,
    (
      (
        refl,
        refl,
        refl,
        refl,
        (refl, (refl, (refl, tt))),
        refl,
        (refl, ((refl, refl, refl, refl), tt, tt), refl),
      ),
      tt,
      tt,
    ),
  ),
)

parse_program-tokens_example :
    (s : ParserState) × (new_parser false false (stmts_tokens script ++ (end_token ∷ [])) ≡ some s)
    × Reads (parse_program 60) s (program (stmts_nodes script)) (end_token ∷ [])
unfolding stmts_size stmt_size choice_size block_size size
parse_program-tokens_example =
    parse_program-tokens false false script 60 end_token script-AreStmts (omega arith) refl

-- )
abbrev stray : ParserState
stray = started (sign rparen ∷ end_token ∷ [])

parse_program-stuck_example : parse_program 100 stray ≡ no_fuel
parse_program-stuck_example = parse_program-stuck 100 stray refl refl

-- break 1
abbrev broken : ParserState
broken = started (sign kw_break ∷ digit b'1' ∷ end_token ∷ [])

abbrev broken_end : ParserState
broken_end = record broken { pos = 2; has_err = true; messages = (expected_break, 1, 1) ∷ [] }

broken_run :
    parse_program 4 broken ≡ parsed (program (cons (Node.num_literal (b'1' ∷ [])) nil)) broken_end
unfolding parse_program statements parse dispatch parse_default in_loop_only parse_expr expr_body
    parse_logical_and parse_logical_or parse_relational expr term factor parse_chain binary_loop
    pipe_loop check_type advance advance_within
broken_run = refl

parse_program-Later_example : Later broken broken_end
parse_program-Later_example =
    parse_program-Later 4 broken broken_end (program (cons (Node.num_literal (b'1' ∷ [])) nil))
      broken_run

parse_program-NoThrow_example : parse_program 4 broken ≢ thrown expected_break broken
parse_program-NoThrow_example = parse_program-NoThrow 4 broken broken expected_break
