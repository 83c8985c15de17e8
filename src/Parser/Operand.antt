-- ===== src/Parser/Operand.antt =====
-- What `factor` reads in front of each token that an operand begins with.
use mylamina.Base.{◌-◌, ℕ, suc, ◌+◌, ◌≡◌, refl, true, false, List, ◌∷◌}
use mylamina.Base.{arith, Text}
use mylamina.Lexer.{
  TokenType, Token, lparen, rparen, oper_minus, identifier, kw_vmc, dot, true_literal,
  false_literal, end_of_file,
}
use mylamina.Ast.{Node, Nodes, unary, var_ref, func_call_expr, vm_call}
use mylamina.Parser.State.{
  same_type, ParserState, Parse, parsed, ◌>>=◌, ◌>>◌, return, advance, advance_back, on, text,
  expected_string, require, missing_closing, error,
}
use mylamina.Parser.Expr.{
  args_loop, parse_args, parse_string, parse_func_call, name_loop, named, vm_call_of, factor,
}
use mylamina.Parser.Reads.{
  goto, At, Reads, is_plain, cur-At, drop-next, plain_inv, advance-At, Reads-return, Reads-bind,
  Reads-exact, Reads-text, Reads-advance, Reads-require, on-true, on-false,
}

-- A token that is taken for what its text says.
take_token :
    {A : Type 0} (g : Text → A) (s : ParserState) {t u : Token} {us : List Token}
    → At s (t ∷ u ∷ us)
    → is_plain u ≡ true
    → Reads (do x ← text; advance; return (g x)) s (g t.text) (u ∷ us)
take_token g s {t} h plain =
    Reads-bind text (λ x. advance >> return (g x)) s (Reads-text s h)
      (λ q0 h0.
        Reads-bind advance (λ _. return (g t.text)) (goto q0 s) (Reads-advance (goto q0 s) h0 plain)
          (λ q1 h1. Reads-return (goto q1 s) (g t.text) h1))

-- A step and then what `p` reads.
pub Reads-then :
    {A : Type 0} (p : Parse A) (s : ParserState) {t u : Token} {us rest : List Token} {a : A}
    → At s (t ∷ u ∷ us)
    → is_plain u ≡ true
    → ((q : ℕ) → At (goto q s) (u ∷ us) → Reads p (goto q s) a rest)
    → Reads (advance >> p) s a rest
Reads-then p s h plain r = Reads-bind advance (λ _. p) s (Reads-advance s h plain) r

pub factor-number :
    (pe : Parse Node) (k : ℕ) (s : ParserState) {t u : Token} {us : List Token}
    → t.type ≡ TokenType.num_literal
    → At s (t ∷ u ∷ us)
    → is_plain u ≡ true
    → Reads (factor pe k) s (Node.num_literal t.text) (u ∷ us)
unfolding factor
factor-number pe k s e h plain =
    on-true TokenType.num_literal _ _ s h (rw e refl) (take_token Node.num_literal s h plain)

pub factor-string :
    (pe : Parse Node) (k : ℕ) (s : ParserState) {t u : Token} {us : List Token}
    → t.type ≡ TokenType.string_literal
    → At s (t ∷ u ∷ us)
    → is_plain u ≡ true
    → Reads (factor pe k) s (Node.string_literal t.text) (u ∷ us)
unfolding factor parse_string
factor-string pe k s {t} {u} {us} e h plain = on-false TokenType.num_literal _ _ s h (rw e refl) (
    on-false lparen _ _ s h (rw e refl) (
      on-false oper_minus _ _ s h (rw e refl) (
        on-false identifier _ _ s h (rw e refl) (
          on-false true_literal _ _ s h (rw e refl) (
            on-false false_literal _ _ s h (rw e refl) (
              on-false end_of_file _ _ s h (rw e refl) (
                on-true TokenType.string_literal _ _ s h (rw e refl) (
                  Reads-bind parse_string (λ x. return (Node.string_literal x)) s {a = t.text}
                    {mid = u ∷ us}
                    (Reads-bind (require TokenType.string_literal expected_string) _ s
                      (Reads-require TokenType.string_literal expected_string s h (rw e refl))
                      (λ q h'. take_token (λ x. x) (goto q s) h' plain))
                    (λ q h'. Reads-return (goto q s) (Node.string_literal t.text) h')))))))))

-- A minus sign, with what `pe` reads behind it.
pub factor-minus :
    (pe : Parse Node) (k : ℕ) (s : ParserState) {m u : Token} {us rest : List Token} {a : Node}
    → m.type ≡ oper_minus
    → At s (m ∷ u ∷ us)
    → is_plain u ≡ true
    → ((q : ℕ) → At (goto q s) (u ∷ us) → Reads pe (goto q s) a rest)
    → Reads (factor pe k) s (unary m.text a) rest
unfolding factor
factor-minus pe k s {m} {a = a} e h plain r = on-false TokenType.num_literal _ _ s h (rw e refl) (
    on-false lparen _ _ s h (rw e refl) (
      on-true oper_minus _ _ s h (rw e refl) (
        Reads-bind text (λ op. advance >> (pe >>= λ x. return (unary op x))) s (Reads-text s h)
          (λ q h'. Reads-then (pe >>= λ x. return (unary m.text x)) (goto q s) h' plain (λ q1 h1.
            Reads-bind pe (λ x. return (unary m.text x)) (goto q1 s) (r q1 h1)
              (λ q2 h2. Reads-return (goto q2 s) (unary m.text a) h2))))))

-- An expression in parentheses.
pub factor-parens :
    (pe : Parse Node) (k : ℕ) (s : ParserState) {l r t u : Token} {ts us : List Token} {a : Node}
    → l.type ≡ lparen
    → r.type ≡ rparen
    → At s (l ∷ t ∷ ts)
    → is_plain t ≡ true
    → is_plain u ≡ true
    → ((q : ℕ) → At (goto q s) (t ∷ ts) → Reads pe (goto q s) a (r ∷ u ∷ us))
    → Reads (factor pe k) s a (u ∷ us)
unfolding factor
factor-parens pe k s {a = a} e c h plain plain' inner =
    on-false TokenType.num_literal _ _ s h (rw e refl) (
      on-true lparen _ _ s h (rw e refl) (
        Reads-then _ s h plain (λ q h'.
          Reads-bind pe (λ x. on rparen (do advance; return x) (error missing_closing)) (goto q s)
            (inner q h')
            (λ q1 h1.
              on-true rparen (do advance; return a) (error missing_closing) (goto q1 s) h1
                (rw c refl)
                (Reads-then (return a) (goto q1 s) h1 plain'
                  (λ q2 h2. Reads-return (goto q2 s) a h2))))))

-- A name that neither a dot nor a parenthesis follows.
pub factor-variable :
    (pe : Parse Node) (k : ℕ) (s : ParserState) {t u : Token} {us : List Token}
    → t.type ≡ identifier
    → At s (t ∷ u ∷ us)
    → is_plain u ≡ true
    → same_type u.type dot ≡ false
    → same_type u.type lparen ≡ false
    → Reads (factor pe (suc k)) s (var_ref t.text) (u ∷ us)
unfolding factor named name_loop
factor-variable pe k s {t} e h plain no_dot no_lparen =
    on-false TokenType.num_literal _ _ s h (rw e refl) (
      on-false lparen _ _ s h (rw e refl) (
        on-false oper_minus _ _ s h (rw e refl) (
          on-true identifier _ _ s h (rw e refl) (
            Reads-bind text (λ name. advance >> named pe (suc k) name) s (Reads-text s h)
              (λ q0 h0. Reads-then (named pe (suc k) t.text) (goto q0 s) h0 plain (λ q h'.
                on-false lparen _ _ (goto q s) h' no_lparen (
                  Reads-bind (name_loop (suc k) t.text) _ (goto q s)
                    (on-false dot _ (return t.text) (goto q s) h' no_dot
                      (Reads-return (goto q s) t.text h'))
                    (λ q1 h1.
                      on-false lparen _ (return (var_ref t.text)) (goto q1 s) h1 no_lparen
                        (Reads-return (goto q1 s) (var_ref t.text) h1)))))))))

-- The arguments, behind the opening parenthesis.
parse_args-Reads :
    (pe : Parse Node) (k : ℕ) (s : ParserState) {l t : Token} {ts rest : List Token} {a : Nodes}
    → l.type ≡ lparen
    → At s (l ∷ t ∷ ts)
    → is_plain t ≡ true
    → ((q : ℕ) → At (goto q s) (t ∷ ts) → Reads (args_loop pe k) (goto q s) a rest)
    → Reads (parse_args pe k) s a rest
unfolding parse_args
parse_args-Reads pe k s e h plain r =
    on-true lparen _ _ s h (rw e refl)
      (Reads-bind advance (λ _. args_loop pe k) s (Reads-advance s h plain) r)

-- The identifier of a call is left and taken back.
back-At :
    (s : ParserState) {n : Token} {ts : List Token}
    → At s (n ∷ ts)
    → is_plain n ≡ true
    → advance_back (goto (s.pos + 1) s) ≡ parsed tt s
unfolding advance_back
back-At s {n} h plain =
    let e : (s.pos + 1) - 1 ≡ s.pos = omega arith in
    let (c, u) = plain_inv n plain in rw (e, cur-At s h, c, u) refl

-- A call: the name, and what the loop over the arguments reads.
pub factor-call :
    (pe : Parse Node) (k : ℕ) (s : ParserState) {n l t : Token} {ts rest : List Token} {a : Nodes}
    → n.type ≡ identifier
    → l.type ≡ lparen
    → At s (n ∷ l ∷ t ∷ ts)
    → is_plain t ≡ true
    → ((q : ℕ) → At (goto q s) (t ∷ ts) → Reads (args_loop pe k) (goto q s) a rest)
    → Reads (factor pe k) s (func_call_expr n.text a) rest
unfolding factor named parse_func_call
factor-call pe k s {n} {l} {t} {ts} {a = a} e e' h plain r =
    let h1 : At (goto (s.pos + 1) s) (l ∷ t ∷ ts) = drop-next s.pos s.tokens h in
    on-false TokenType.num_literal _ _ s h (rw e refl) (
      on-false lparen _ _ s h (rw e refl) (
        on-false oper_minus _ _ s h (rw e refl) (
          on-true identifier _ _ s h (rw e refl) (
            Reads-exact text (λ name. advance >> named pe k name) s s.pos (rw (cur-At s h) refl)
              (Reads-exact advance (λ _. named pe k n.text) s (s.pos + 1)
                (advance-At s h (rw e' refl))
                (on-true lparen _ _ (goto (s.pos + 1) s) h1 (rw e' refl) (
                  Reads-exact advance_back (λ _. parse_func_call pe k) (goto (s.pos + 1) s) s.pos
                    (back-At s h (rw e refl))
                    (Reads-bind text
                      (λ name. advance >> (parse_args pe k >>= λ x. return (func_call_expr name x)))
                      s (Reads-text s h)
                      (λ q2 h2.
                        Reads-then (parse_args pe k >>= λ x. return (func_call_expr n.text x))
                          (goto q2 s) h2 (rw e' refl)
                          (λ q3 h3.
                            Reads-bind (parse_args pe k) (λ x. return (func_call_expr n.text x))
                              (goto q3 s) (parse_args-Reads pe k (goto q3 s) e' h3 plain r)
                              (λ q4 h4.
                                Reads-return (goto q4 s) (func_call_expr n.text a) h4)))))))))))

-- A call of the machine.
pub factor-machine :
    (pe : Parse Node) (k : ℕ) (s : ParserState) {v i l t : Token} {ts rest : List Token} {a : Nodes}
    → v.type ≡ kw_vmc
    → i.type ≡ TokenType.num_literal
    → l.type ≡ lparen
    → At s (v ∷ i ∷ l ∷ t ∷ ts)
    → is_plain t ≡ true
    → ((q : ℕ) → At (goto q s) (t ∷ ts) → Reads (args_loop pe k) (goto q s) a rest)
    → Reads (factor pe k) s (vm_call i.text a) rest
unfolding factor vm_call_of
factor-machine pe k s {v} {i} {l} {t} {ts} {a = a} e e' e'' h plain r =
    on-false TokenType.num_literal _ _ s h (rw e refl) (
      on-false lparen _ _ s h (rw e refl) (
        on-false oper_minus _ _ s h (rw e refl) (
          on-false identifier _ _ s h (rw e refl) (
            on-false true_literal _ _ s h (rw e refl) (
              on-false false_literal _ _ s h (rw e refl) (
                on-false end_of_file _ _ s h (rw e refl) (
                  on-false TokenType.string_literal _ _ s h (rw e refl) (
                    on-true kw_vmc _ _ s h (rw e refl) (
                      Reads-then (vm_call_of pe k) s h (rw e' refl) (λ q h0.
                        on-true TokenType.num_literal _ _ (goto q s) h0 (rw e' refl) (
                          Reads-bind text
                            (λ x. advance >> (parse_args pe k >>= λ y. return (vm_call x y)))
                            (goto q s) (Reads-text (goto q s) h0)
                            (λ q2 h2.
                              Reads-then (parse_args pe k >>= λ y. return (vm_call i.text y))
                                (goto q2 s) h2 (rw e'' refl)
                                (λ q3 h3.
                                  Reads-bind (parse_args pe k) (λ y. return (vm_call i.text y))
                                    (goto q3 s) (parse_args-Reads pe k (goto q3 s) e'' h3 plain r)
                                    (λ q4 h4.
                                      Reads-return (goto q4 s) (vm_call i.text a) h4))))))))))))))
