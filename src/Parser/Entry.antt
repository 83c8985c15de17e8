-- ===== src/Parser/Entry.antt =====
-- What the statements of the language begin with, and that none of them is a null pointer.
use mylamina.Base.{
  ℕ, zero, suc, ◌≤◌, ◌≡◌, ◌-◌, refl, Bool, true, false, List, [], ◌∷◌, ◌++◌, length,
}
use mylamina.Base.{arith, sym, ap, ◌∙◌, append_assoc}
use mylamina.Lexer.{Token, rparen, lparen, lbrace, rbrace, kw_else, kw_if}
use mylamina.Ast.{Node, nil, cons, is_null, binary, block_stmt, null_node, if_stmt}
use mylamina.Parser.State.{same_type, ParserState, match, on, advance, return, ◌>>=◌, ◌>>◌}
use mylamina.Parser.Expr.{parse_expr}
use mylamina.Parser.Stmt.{parse_block, parse_if, parse}
use mylamina.Parser.Reads.{goto, At, Reads, is_plain, cur-At, length-drop}
use mylamina.Parser.Grammar.{
  Syntax, Tail, number, variable, text, parens, call, machine, minus, chain, compare, end, link,
  tokens, node, tail_node, size, IsWf,
}
use mylamina.Parser.Marks.{tokens-head_token, head_token_marks}
use mylamina.Parser.Ranks.{append-cons}
use mylamina.Parser.RoundTrip.{parse_expr-tokens}
use mylamina.Parser.Forms.{
  Stmt, Choice, Block, Stmts, let_in, assigned, alone, returned, leave, go_on, while, forever,
  choice, function, when, either, else_if, block, done, next, stmt_tokens, choice_tokens,
  block_tokens, stmts_tokens, stmt_node, choice_node, ends, stmt_head, IsStmt, IsChoice, IsBlock,
  AreStmts,
}
use mylamina.Parser.Ends.{IsEnd-ends}
use mylamina.Parser.Fronts.{stmt-front, stmt_head-marks}
use mylamina.Parser.Compound.{at_end}
use mylamina.Parser.Choices.{parse_if-then}

tail_node-is_null :
    (a : Node) (tail : Tail) → is_null a ≡ false → is_null (tail_node a tail) ≡ false
unfolding tail_node
tail_node-is_null a end h = h
tail_node-is_null a (link op e tail) h = tail_node-is_null (binary a (node e) op.text) tail refl

node-is_null : (e : Syntax) → is_null (node e) ≡ false
unfolding node
node-is_null (number t) = refl
node-is_null (variable t) = refl
node-is_null (text t) = refl
node-is_null (parens l e r) = node-is_null e
node-is_null (call n l as') = refl
node-is_null (machine k i l as') = refl
node-is_null (minus m e) = refl
node-is_null (chain n first tail) = tail_node-is_null (node first) tail (node-is_null first)
node-is_null (compare a op b) = refl

choice_node-is_null : (c : Choice) → is_null (choice_node c) ≡ false
unfolding choice_node
choice_node-is_null (when l c r b) = refl
choice_node-is_null (either l c r b e b') = refl
choice_node-is_null (else_if l c r b e k more) = refl

pub stmt_node-is_null : (st : Stmt) → is_null (stmt_node st) ≡ false
unfolding stmt_node
stmt_node-is_null (let_in k n a e) = refl
stmt_node-is_null (assigned n a e) = refl
stmt_node-is_null (alone e) = node-is_null e
stmt_node-is_null (returned k e) = refl
stmt_node-is_null (leave k) = refl
stmt_node-is_null (go_on k) = refl
stmt_node-is_null (while k c b) = refl
stmt_node-is_null (forever k b) = refl
stmt_node-is_null (choice k c) = choice_node-is_null c
stmt_node-is_null (function k n l ps r b) = refl

-- An expression inside a statement.
pub inner-expr :
    (e : Syntax) (f : ℕ) (s : ParserState) {u : Token} {us : List Token}
    → IsWf e
    → suc (size e) ≤ f
    → ends u.type ≡ true
    → At s (tokens e ++ (u ∷ us))
    → Reads (parse_expr f) s (node e) (u ∷ us)
inner-expr e zero s wf fuel ended h = absurd (omega (arith, fuel))
inner-expr e (suc g) s {u} wf fuel ended h =
    parse_expr-tokens e g s wf (omega (arith, fuel)) (IsEnd-ends u ended) h

pub ends-plain : (u : Token) → ends u.type ≡ true → is_plain u ≡ true
ends-plain u ended = (IsEnd-ends u ended).stop.plain

-- In front of a statement, the loop over statements goes on.
pub not-at_end :
    (fn lp : Bool) (st : Stmt) (s : ParserState) {x : Token} {xs : List Token}
    → IsStmt fn lp st
    → At s (stmt_head st ∷ x ∷ xs)
    → at_end s ≡ false
not-at_end fn lp st s {x} {xs} wf h =
    let m : match rbrace s ≡ false =
      ap (λ (t : Token). same_type t.type rbrace) (cur-At s h) ∙ (stmt_head-marks fn lp st wf).1 in
    let many : length s.tokens - s.pos ≡ suc (suc (length xs)) =
      sym (length-drop s.pos s.tokens) ∙ ap length h in
    ground (arith, m, many)

-- A block begins with its brace.
pub block-front :
    (b : Block) (us : List Token)
    → (l : Token) × (ls : List Token) × (block_tokens b ++ us ≡ l ∷ ls)
      × ((fn lp : Bool) → IsBlock fn lp b → l.type ≡ lbrace)
unfolding block_tokens IsBlock
block-front (block l ss r) us = (l, (stmts_tokens ss ++ (r ∷ [])) ++ us, refl, λ fn lp wf. wf.0)

pub choice-front :
    (c : Choice) (us : List Token)
    → (l : Token) × (ls : List Token) × (choice_tokens c ++ us ≡ l ∷ ls)
      × ((fn lp : Bool) → IsChoice fn lp c → l.type ≡ lparen)
unfolding choice_tokens IsChoice
choice-front (when l c r b) us =
    (l, (tokens c ++ (r ∷ block_tokens b)) ++ us, refl, λ fn lp wf. wf.0)
choice-front (either l c r b e b') us =
    (l, (tokens c ++ (r ∷ (block_tokens b ++ (e ∷ block_tokens b')))) ++ us, refl, λ fn lp wf. wf.0)
choice-front (else_if l c r b e k more) us = (
  l,
  (tokens c ++ (r ∷ (block_tokens b ++ (e ∷ k ∷ choice_tokens more)))) ++ us,
  refl,
  λ fn lp wf. wf.0,
)

-- The statements of a block begin with a token that `advance` stops at.
pub stmts-begin :
    (fn lp : Bool) (ss : Stmts) (u : Token) (us : List Token)
    → AreStmts fn lp ss
    → is_plain u ≡ true
    → (y : Token) × (ys : List Token) × (stmts_tokens ss ++ (u ∷ us) ≡ y ∷ ys) × (is_plain y ≡ true)
unfolding stmts_tokens AreStmts
stmts-begin fn lp done u us wf plain = (u, us, refl, plain)
stmts-begin fn lp (next st ss) u us wf plain =
    let (y, ys, e) = append-cons (stmts_tokens ss) u us in
    let (x, xs, front) = stmt-front st y ys in
    (
      stmt_head st,
      x ∷ xs,
      append_assoc (stmt_tokens st) (stmts_tokens ss) (u ∷ us)
          ∙ ap (λ z. stmt_tokens st ++ z) e
          ∙ front,
      (stmt_head-marks fn lp st wf.0).0,
    )

-- A closing brace ends the loop over statements.
pub rbrace-at_end :
    (s : ParserState) (r : Token) {us : List Token}
    → r.type ≡ rbrace
    → At s (r ∷ us)
    → at_end s ≡ true
rbrace-at_end s r e h =
    let m : match rbrace s ≡ true =
      ap (λ (t : Token). same_type t.type rbrace) (cur-At s h) ∙ rw e refl in
    ground (arith, m)

-- The condition and the first block of an `if`, given what the block and the rest are read as.
pub choice-then :
    (c : Syntax) (b : Block) (f d : ℕ) (s : ParserState) (l r : Token) (ts : List Token)
    {mid rest : List Token} {th el : Node}
    → At s (l ∷ (tokens c ++ (r ∷ (block_tokens b ++ ts))))
    → l.type ≡ lparen
    → IsWf c
    → suc (size c) ≤ f
    → r.type ≡ rparen
    → IsBlock s.in_func s.in_loop b
    → ((q : ℕ)
        → At (goto q s) (block_tokens b ++ ts)
        → Reads (parse_block (parse f) f) (goto q s) th mid)
    → ((q : ℕ)
        → At (goto q s) mid
        → Reads
            (on kw_else
              (do
                advance
                on kw_if
                    (do advance; n ← parse_if (parse f) f d; return (block_stmt (cons n nil)))
                    (parse_block (parse f) f))
              (return null_node))
            (goto q s)
            el
            rest)
    → Reads (parse_if (parse f) f (suc d)) s (if_stmt (node c) th el) rest
choice-then c b f d s l r ts h opens wf fuel closes wfb body others =
    let (o, front) = tokens-head_token c (r ∷ (block_tokens b ++ ts)) in
    let (bl, bls, bfront, brace) = block-front b ts in
    parse_if-then (parse f) f d s (h ∙ ap (λ z. l ∷ z) front) opens (head_token_marks c wf).0
      (λ q hq.
        inner-expr c f (goto q s) wf fuel (rw closes refl)
          (hq ∙ sym front ∙ ap (λ z. tokens c ++ (r ∷ z)) bfront))
      closes (rw (brace s.in_func s.in_loop wfb) refl) (λ q hq. body q (hq ∙ sym bfront)) others
