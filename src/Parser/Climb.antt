-- ===== src/Parser/Climb.antt =====
-- The readers of the ranks, and how an operand of a rank is one of the next.
use mathlib.Core.Path.{subst}
use mylamina.Parser.Marks.{IsStop-weaken}
use mylamina.Base.{◌-◌, ℕ, zero, suc, ◌+◌, ◌≤◌, ◌<◌, ◌≡◌, ◌≢◌, refl, Bool, true, false, List, ◌∷◌}
use mylamina.Base.{arith, sym, ap, ◌∙◌, none}
use mylamina.Lexer.{TokenType, Token, pipe, colon}
use mylamina.Ast.{Node, binary}
use mylamina.Parser.State.{
  same_type, ParserState, Parse, ◌>>=◌, ◌>>◌, return, cur, advance, alert_eof, text,
  expected_operand,
}
use mylamina.Parser.Types.{check_type}
use mylamina.Parser.Expr.{
  factor, term, expr, parse_relational, parse_logical_or, parse_logical_and, chain, binary_loop,
  pipe_loop, expr_body, parse_expr,
}
use mylamina.Parser.Reads.{
  goto, At, Reads, is_plain, cur-At, Reads-return, Reads-bind, Reads-if, on-false, Reads-alert_eof,
  Reads-text, Reads-advance,
}
use mylamina.Parser.Grammar.{is_op, IsStop, IsEnd}

-- What reads an expression of a rank.
abbrev pub reader : Parse Node → ℕ → ℕ → Parse Node
reader pe k zero = factor pe k
reader pe k (suc zero) = term pe k
reader pe k (suc (suc zero)) = expr pe k
reader pe k (suc (suc (suc zero))) = parse_relational pe k
reader pe k (suc (suc (suc (suc zero)))) = parse_logical_or pe k
reader pe k _ = parse_logical_and pe k

-- What reads the operands of a rank behind the first.
abbrev pub operand : Parse Node → ℕ → ℕ → Parse Node
operand pe k (suc (suc zero)) = pe
operand pe k n = reader pe k n

pub reader-suc :
    (pe : Parse Node) (k n : ℕ)
    → n < 5
    → reader pe k (suc n) ≡ chain (is_op (suc n)) (reader pe k n) (operand pe k n) k
unfolding term expr parse_relational parse_logical_or parse_logical_and
reader-suc pe k zero h = refl
reader-suc pe k (suc zero) h = refl
reader-suc pe k (suc (suc zero)) h = refl
reader-suc pe k (suc (suc (suc zero))) h = refl
reader-suc pe k (suc (suc (suc (suc zero)))) h = refl
reader-suc pe k (suc (suc (suc (suc (suc n))))) h = absurd (omega arith)

-- The loop ends in front of a token that is none of its operators.
pub binary_loop-stop :
    (f : TokenType → Bool) (p : Parse Node) (k : ℕ) (acc : Node) (s : ParserState) {u : Token}
    {us : List Token}
    → At s (u ∷ us)
    → f u.type ≡ false
    → Reads (binary_loop f p (suc k) acc) s acc (u ∷ us)
unfolding binary_loop
binary_loop-stop f p k acc s h e = record {
  stop = s.pos;
  result = rw (cur-At s h, e) refl;
  left = h;
}

-- The loop takes an operator and its right operand.
pub binary_loop-link :
    (f : TokenType → Bool) (p : Parse Node) (k : ℕ) (acc : Node) (s : ParserState) {op t u : Token}
    {ts us rest : List Token} {right all : Node}
    → At s (op ∷ t ∷ u ∷ us)
    → f op.type ≡ true
    → is_plain t ≡ true
    → ((q : ℕ) → At (goto q s) (t ∷ u ∷ us) → Reads p (goto q s) right ts)
    → ((q : ℕ)
        → At (goto q s) ts
        → Reads (binary_loop f p k (binary acc right op.text)) (goto q s) all rest)
    → Reads (binary_loop f p (suc k) acc) s all rest
unfolding binary_loop
binary_loop-link f p k acc s {op} {t} {u} {ts} {us} h e plain r more =
    Reads-if (λ t. f (cur t).type) _ (return acc) s (ap (λ (o : Token). f o.type) (cur-At s h) ∙ e)
      (Reads-bind text
        (λ o.
          advance
          >> (alert_eof expected_operand
              >> (p >>= λ right. binary_loop f p k (binary acc right o))))
        s (Reads-text s h)
        (λ q0 h0. Reads-bind advance _ (goto q0 s) (Reads-advance (goto q0 s) h0 plain) (λ q1 h1.
          Reads-bind (alert_eof expected_operand) _ (goto q1 s)
            (Reads-alert_eof expected_operand (goto q1 s) h1)
            (λ q2 h2. Reads-bind p _ (goto q2 s) (r q2 h2) more))))

-- The first operand of a rank, and then what the loop reads.
pub reader-suc-Reads :
    (pe : Parse Node) (k n : ℕ) (s : ParserState) {a b : Node} {mid rest : List Token}
    → n < 5
    → Reads (reader pe k n) s a mid
    → ((q : ℕ)
        → At (goto q s) mid
        → Reads (binary_loop (is_op (suc n)) (operand pe k n) k a) (goto q s) b rest)
    → Reads (reader pe k (suc n)) s b rest
unfolding chain
reader-suc-Reads pe k n s {b = b} {rest = rest} h r more =
    subst (λ (p : Parse Node). Reads p s b rest) (sym (reader-suc pe k n h))
      (Reads-bind (reader pe k n) (binary_loop (is_op (suc n)) (operand pe k n) k) s r more)

-- Only the right side of a comparison is read by another reader.
pub operand-reader : (pe : Parse Node) (k n : ℕ) → n ≢ 2 → operand pe k n ≡ reader pe k n
operand-reader pe k zero h = refl
operand-reader pe k (suc zero) h = refl
operand-reader pe k (suc (suc zero)) h = absurd (h refl)
operand-reader pe k (suc (suc (suc n))) h = refl

-- One rank up.
climb_one :
    (pe : Parse Node) (k n : ℕ) (s : ParserState) {a : Node} {u : Token} {us : List Token}
    → n < 5
    → is_op (suc n) u.type ≡ false
    → Reads (reader pe (suc k) n) s a (u ∷ us)
    → Reads (reader pe (suc k) (suc n)) s a (u ∷ us)
climb_one pe k n s {a} h e r =
    reader-suc-Reads pe (suc k) n s h r
      (λ q hq. binary_loop-stop (is_op (suc n)) (operand pe (suc k) n) k a (goto q s) hq e)

climb_by :
    (pe : Parse Node) (k d n : ℕ) (s : ParserState) {a : Node} {u : Token} {us : List Token}
    → d + n ≤ 5
    → IsStop (d + n) u
    → Reads (reader pe (suc k) n) s a (u ∷ us)
    → Reads (reader pe (suc k) (d + n)) s a (u ∷ us)
climb_by pe k zero n s {a} {u} {us} h stop r =
    let e : n ≡ 0 + n = omega arith in subst (λ m. Reads (reader pe (suc k) m) s a (u ∷ us)) e r
climb_by pe k (suc d) n s {a} {u} {us} h stop r =
    let e : suc (d + n) ≡ suc d + n = omega arith in
    subst (λ m. Reads (reader pe (suc k) m) s a (u ∷ us)) e
      (climb_one pe k (d + n) s (omega arith) (stop.no_op (suc (d + n)) (omega arith)) (
        climb_by pe k d n s (omega arith) (IsStop-weaken (d + n) (suc d + n) u (omega arith) stop)
          r))

-- An operand of a rank is one of each higher rank, in front of a token that ends it there.
pub climb :
    (pe : Parse Node) (k n m : ℕ) (s : ParserState) {a : Node} {u : Token} {us : List Token}
    → n ≤ m
    → m ≤ 5
    → IsStop m u
    → Reads (reader pe (suc k) n) s a (u ∷ us)
    → Reads (reader pe (suc k) m) s a (u ∷ us)
climb pe k n m s {a} {u} {us} lo hi stop r =
    let e : (m - n) + n ≡ m = omega (arith, lo) in
    subst (λ j. Reads (reader pe (suc k) j) s a (u ∷ us)) e
      (climb_by pe k (m - n) n s (omega (arith, e)) (subst (λ j. IsStop j u) (sym e) stop) r)

pipe_loop-stop :
    (p : Parse Node) (k : ℕ) (a : Node) (s : ParserState) {u : Token} {us : List Token}
    → At s (u ∷ us)
    → same_type u.type pipe ≡ false
    → Reads (pipe_loop p (suc k) a) s a (u ∷ us)
unfolding pipe_loop
pipe_loop-stop p k a s h e = on-false pipe _ (return a) s h e (Reads-return s a h)

pub check_type-none :
    (k : ℕ) (s : ParserState) {u : Token} {us : List Token}
    → At s (u ∷ us)
    → same_type u.type colon ≡ false
    → Reads (check_type k) s none (u ∷ us)
unfolding check_type
check_type-none k s h e = on-false colon _ (return none) s h e (Reads-return s none h)

expr_body-Reads :
    (pe : Parse Node) (k : ℕ) (s : ParserState) {a : Node} {u : Token} {us : List Token}
    → IsEnd u
    → Reads (reader pe (suc k) 5) s a (u ∷ us)
    → Reads (expr_body pe (suc k)) s a (u ∷ us)
unfolding expr_body
expr_body-Reads pe k s {a} end r =
    Reads-bind (parse_logical_and pe (suc k))
      (λ first. do
        node ← pipe_loop (parse_logical_and pe (suc k)) (suc k) first
        _ ← check_type (suc k)
        return node)
      s r
      (λ q0 h0.
        Reads-bind (pipe_loop (parse_logical_and pe (suc k)) (suc k) a)
          (λ node. do _ ← check_type (suc k); return node) (goto q0 s)
          (pipe_loop-stop _ k a (goto q0 s) h0 end.no_pipe)
          (λ q1 h1.
            Reads-bind (check_type (suc k)) (λ t. return a) (goto q1 s)
              (check_type-none (suc k) (goto q1 s) h1 end.no_colon)
              (λ q2 h2. Reads-return (goto q2 s) a h2)))

-- What the highest rank reads in front of the end of an expression is what `parse_expr` reads.
pub parse_expr-Reads :
    (f : ℕ) (s : ParserState) {a : Node} {u : Token} {us : List Token}
    → IsEnd u
    → Reads (reader (parse_expr (suc f)) (suc f) 5) s a (u ∷ us)
    → Reads (parse_expr (suc (suc f))) s a (u ∷ us)
unfolding parse_expr
parse_expr-Reads f s end r =
    let x = expr_body-Reads (parse_expr (suc f)) f s end r in
    record { stop = x.stop; result = x.result; left = x.left }
