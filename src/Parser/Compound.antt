-- ===== src/Parser/Compound.antt =====
-- What `parse` reads of loops, conditions and functions, given what their blocks are read as.
use mathlib.Core.Path.{subst}
use mylamina.Base.{ℕ, suc, ◌≡◌, refl, Bool, true, false, ◌||◌, List, ◌∷◌}
use mylamina.Base.{sym, ap, ◌∙◌}
use mylamina.Lexer.{Token, lbrace, rbrace}
use mylamina.Ast.{Node, Nodes, nil, cons, null_node, loop_node, block_stmt, is_null}
use mylamina.Parser.State.{
  same_type, ParserState, Parse, parsed, and_then, ◌>>=◌, ◌>>◌, return, advance, on, require, match,
  is_eof, expected_lbrace, expected_rbrace,
}
use mylamina.Parser.Expr.{parse_expr}
use mylamina.Parser.Stmt.{keep, statements, parse_block, set_in_func, set_in_loop, parse_loop}
use mylamina.Parser.Reads.{
  goto, At, Reads, is_plain, Reads-return, Reads-bind, Reads-if, Reads-else, Reads-require, on-true,
  on-false,
}
use mylamina.Parser.Operand.{Reads-then}

-- Where the loop over statements ends.
abbrev pub at_end : ParserState → Bool
at_end s = match rbrace s || is_eof s

pub statements-end :
    (p : Parse Node) (k : ℕ) (s : ParserState) {ts : List Token}
    → At s ts
    → at_end s ≡ true
    → Reads (statements p (suc k)) s nil ts
unfolding statements
statements-end p k s h e = Reads-if at_end (return nil) _ s e (Reads-return s nil h)

pub statements-next :
    (p : Parse Node) (k : ℕ) (s : ParserState) {mid rest : List Token} {n : Node} {ns : Nodes}
    → at_end s ≡ false
    → is_null n ≡ false
    → Reads p s n mid
    → ((q : ℕ) → At (goto q s) mid → Reads (statements p k) (goto q s) ns rest)
    → Reads (statements p (suc k)) s (cons n ns) rest
unfolding statements
statements-next p k s {rest = rest} {n} {ns} e some_node r more =
    let kept : keep n ns ≡ cons n ns = rw some_node refl in
    Reads-else at_end (return nil) (p >>= λ x. statements p k >>= λ xs. return (keep x xs)) s e (
      Reads-bind p (λ x. statements p k >>= λ xs. return (keep x xs)) s r
        (λ q hq.
          Reads-bind (statements p k) (λ xs. return (keep n xs)) (goto q s) (more q hq)
            (λ q' h'.
              subst (λ z. Reads (return (keep n ns)) (goto q' s) z rest) kept
                (Reads-return (goto q' s) (keep n ns) h'))))

-- A block, with what the loop reads up to its closing brace.
pub parse_block-Reads :
    (p : Parse Node) (k : ℕ) (s : ParserState) {l t r u : Token} {ts us : List Token} {ns : Nodes}
    → At s (l ∷ t ∷ ts)
    → l.type ≡ lbrace
    → is_plain t ≡ true
    → ((q : ℕ) → At (goto q s) (t ∷ ts) → Reads (statements p k) (goto q s) ns (r ∷ u ∷ us))
    → r.type ≡ rbrace
    → is_plain u ≡ true
    → Reads (parse_block p k) s (block_stmt ns) (u ∷ us)
unfolding parse_block
parse_block-Reads p k s {ns = ns} h opens plain inner closes plain' =
    Reads-bind (require lbrace expected_lbrace) _ s
      (Reads-require lbrace expected_lbrace s h (rw opens refl))
      (λ q1 h1. Reads-then _ (goto q1 s) h1 plain (λ q2 h2.
        Reads-bind (statements p k)
          (λ xs. require rbrace expected_rbrace >> (advance >> return (block_stmt xs))) (goto q2 s)
          (inner q2 h2)
          (λ q3 h3.
            Reads-bind (require rbrace expected_rbrace) _ (goto q3 s)
              (Reads-require rbrace expected_rbrace (goto q3 s) h3 (rw closes refl))
              (λ q4 h4.
                Reads-then (return (block_stmt ns)) (goto q4 s) h4 plain'
                  (λ q5 h5. Reads-return (goto q5 s) (block_stmt ns) h5)))))

-- The flag of a loop or a function is set for its block, and cleared behind it.
in_loop-Reads :
    {A : Type 0} (p : Parse A) (g : A → Node) (s : ParserState) {a : A} {rest : List Token}
    → s.in_loop ≡ false
    → Reads p (record s { in_loop = true }) a rest
    → Reads (do set_in_loop true; x ← p; set_in_loop false; return (g x)) s (g a) rest
in_loop-Reads p g s {a} outside r = record {
  stop = r.stop;
  result =
      ap (λ z. and_then z (λ x. set_in_loop false >> return (g x))) r.result
      ∙ ap (λ l. parsed (g a) (record (goto r.stop s) { in_loop = l })) (sym outside);
  left = r.left;
}

pub in_func-Reads :
    (p : Parse Node) (s : ParserState) {a : Node} {rest : List Token}
    → s.in_func ≡ false
    → Reads p (record s { in_func = true }) a rest
    → Reads (do set_in_func true; x ← p; set_in_func false; return x) s a rest
in_func-Reads p s {a} outside r = record {
  stop = r.stop;
  result =
      ap (λ z. and_then z (λ x. set_in_func false >> return x)) r.result
      ∙ ap (λ l. parsed a (record (goto r.stop s) { in_func = l })) (sym outside);
  left = r.left;
}

-- A loop with a condition, and one without.
pub parse_loop-while :
    (p : Parse Node) (k : ℕ) (s : ParserState) {l t : Token} {ts mid rest : List Token} {c b : Node}
    → s.in_loop ≡ false
    → At s (l ∷ t ∷ ts)
    → is_plain t ≡ true
    → same_type t.type lbrace ≡ false
    → ((q : ℕ) → At (goto q s) (t ∷ ts) → Reads (parse_expr k) (goto q s) c mid)
    → ((q : ℕ)
        → At (goto q s) mid
        → Reads (parse_block p k) (record (goto q s) { in_loop = true }) b rest)
    → Reads (parse_loop p k) s (loop_node c b) rest
unfolding parse_loop
parse_loop-while p k s {c = c} outside h plain other r body = Reads-then _ s h plain (λ q hq.
    Reads-bind (on lbrace (return null_node) (parse_expr k)) _ (goto q s)
      (on-false lbrace (return null_node) (parse_expr k) (goto q s) hq other (r q hq))
      (λ q' h'.
        in_loop-Reads (parse_block p k) (λ x. loop_node c x) (goto q' s) outside (body q' h')))

pub parse_loop-forever :
    (p : Parse Node) (k : ℕ) (s : ParserState) {l t : Token} {ts rest : List Token} {b : Node}
    → s.in_loop ≡ false
    → At s (l ∷ t ∷ ts)
    → t.type ≡ lbrace
    → ((q : ℕ)
        → At (goto q s) (t ∷ ts)
        → Reads (parse_block p k) (record (goto q s) { in_loop = true }) b rest)
    → Reads (parse_loop p k) s (loop_node null_node b) rest
unfolding parse_loop
parse_loop-forever p k s outside h opens body = Reads-then _ s h (rw opens refl) (λ q hq.
    Reads-bind (on lbrace (return null_node) (parse_expr k)) _ (goto q s)
      (on-true lbrace (return null_node) (parse_expr k) (goto q s) hq (rw opens refl)
        (Reads-return (goto q s) null_node hq))
      (λ q' h'.
        in_loop-Reads (parse_block p k) (λ x. loop_node null_node x) (goto q' s) outside
          (body q' h')))
