-- ===== src/Parser/Choices.antt =====
-- What `parse_if` reads, given what its blocks are read as.
use mylamina.Base.{ℕ, suc, ◌≡◌, refl, true, false, List, ◌∷◌}
use mylamina.Lexer.{Token, lparen, rparen, lbrace, kw_else, kw_if}
use mylamina.Ast.{Node, nil, cons, null_node, if_stmt, block_stmt}
use mylamina.Parser.State.{
  same_type, ParserState, Parse, ◌>>=◌, ◌>>◌, return, advance, on, require, expected_lparen,
  expected_rparen,
}
use mylamina.Parser.Expr.{parse_expr}
use mylamina.Parser.Stmt.{parse_block, parse_if}
use mylamina.Parser.Reads.{
  goto, At, Reads, is_plain, Reads-return, Reads-bind, Reads-require, on-true, on-false,
}
use mylamina.Parser.Operand.{Reads-then}

-- `if`: the condition, its block, and what stands behind.
pub parse_if-then :
    (p : Parse Node) (k d : ℕ) (s : ParserState) {l t r b : Token} {ts bs mid rest : List Token}
    {c th el : Node}
    → At s (l ∷ t ∷ ts)
    → l.type ≡ lparen
    → is_plain t ≡ true
    → ((q : ℕ) → At (goto q s) (t ∷ ts) → Reads (parse_expr k) (goto q s) c (r ∷ b ∷ bs))
    → r.type ≡ rparen
    → is_plain b ≡ true
    → ((q : ℕ) → At (goto q s) (b ∷ bs) → Reads (parse_block p k) (goto q s) th mid)
    → ((q : ℕ)
        → At (goto q s) mid
        → Reads
            (on kw_else
              (do
                advance
                on kw_if
                    (do advance; n ← parse_if p k d; return (block_stmt (cons n nil)))
                    (parse_block p k))
              (return null_node))
            (goto q s)
            el
            rest)
    → Reads (parse_if p k (suc d)) s (if_stmt c th el) rest
unfolding parse_if
parse_if-then p k d s {c = c} {th} {el} h opens plain cond closes plain' body others =
    let rest_of : Parse Node =
      on kw_else
        (do
          advance
          on kw_if (do advance; n ← parse_if p k d; return (block_stmt (cons n nil)))
              (parse_block p k))
        (return null_node) in
    let x =
      Reads-bind (require lparen expected_lparen) _ s
        (Reads-require lparen expected_lparen s h (rw opens refl))
        (λ q1 h1. Reads-then _ (goto q1 s) h1 plain (λ q2 h2.
          Reads-bind (parse_expr k)
            (λ c.
              require rparen expected_rparen
              >> (advance
                  >> (parse_block p k >>= λ th. rest_of >>= λ el. return (if_stmt c th el))))
            (goto q2 s) (cond q2 h2)
            (λ q3 h3.
              Reads-bind (require rparen expected_rparen) _ (goto q3 s)
                (Reads-require rparen expected_rparen (goto q3 s) h3 (rw closes refl))
                (λ q4 h4.
                  Reads-then (parse_block p k >>= λ th. rest_of >>= λ el. return (if_stmt c th el))
                    (goto q4 s) h4 plain'
                    (λ q5 h5.
                      Reads-bind (parse_block p k)
                        (λ th. rest_of >>= λ el. return (if_stmt c th el)) (goto q5 s) (body q5 h5)
                        (λ q6 h6.
                          Reads-bind rest_of (λ el. return (if_stmt c th el)) (goto q6 s)
                            (others q6 h6)
                            (λ q7 h7. Reads-return (goto q7 s) (if_stmt c th el) h7))))))) in
    record { stop = x.stop; result = x.result; left = x.left }

-- No `else`.
pub no_else :
    (p : Parse Node) (s : ParserState) {u : Token} {us : List Token}
    → At s (u ∷ us)
    → same_type u.type kw_else ≡ false
    → Reads (on kw_else p (return null_node)) s null_node (u ∷ us)
no_else p s h e = on-false kw_else p (return null_node) s h e (Reads-return s null_node h)

-- An `else` with a block.
pub else_block :
    (p again : Parse Node) (s : ParserState) {l t : Token} {ts rest : List Token} {b : Node}
    → At s (l ∷ t ∷ ts)
    → l.type ≡ kw_else
    → t.type ≡ lbrace
    → ((q : ℕ) → At (goto q s) (t ∷ ts) → Reads p (goto q s) b rest)
    → Reads
        (on kw_else
          (do advance; on kw_if (do advance; n ← again; return (block_stmt (cons n nil))) p)
          (return null_node))
        s
        b
        rest
else_block p again s h is_else opens body =
    on-true kw_else _ (return null_node) s h (rw is_else refl) (
      Reads-then _ s h (rw opens refl)
        (λ q hq. on-false kw_if _ p (goto q s) hq (rw opens refl) (body q hq)))

-- An `else if`.
pub else_choice :
    (p again : Parse Node) (s : ParserState) {l i t : Token} {ts rest : List Token} {n : Node}
    → At s (l ∷ i ∷ t ∷ ts)
    → l.type ≡ kw_else
    → i.type ≡ kw_if
    → is_plain t ≡ true
    → ((q : ℕ) → At (goto q s) (t ∷ ts) → Reads again (goto q s) n rest)
    → Reads
        (on kw_else
          (do advance; on kw_if (do advance; n ← again; return (block_stmt (cons n nil))) p)
          (return null_node))
        s
        (block_stmt (cons n nil))
        rest
else_choice p again s {n = n} h is_else is_if plain body =
    on-true kw_else _ (return null_node) s h (rw is_else refl) (
      Reads-then _ s h (rw is_if refl) (λ q hq. on-true kw_if _ p (goto q s) hq (rw is_if refl) (
        Reads-then (again >>= λ n. return (block_stmt (cons n nil))) (goto q s) hq plain (λ q' h'.
          Reads-bind again (λ n. return (block_stmt (cons n nil))) (goto q' s) (body q' h')
            (λ q2 h2. Reads-return (goto q2 s) (block_stmt (cons n nil)) h2)))))
