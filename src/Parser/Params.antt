-- ===== src/Parser/Params.antt =====
-- What `parse_func_decl` reads: the parameters up to the closing parenthesis, and the body.
use mylamina.Base.{
  ℕ, zero, suc, ◌<◌, ◌≡◌, refl, Bool, true, false, not, ◌||◌, List, [], ◌∷◌, ◌++◌, length,
}
use mylamina.Base.{arith, sym, ap, ◌∙◌, Option, none, some, Text, Bool-cases, inl, inr}
use mylamina.Lexer.{
  Token, comma, colon, lparen, rparen, lbrace, identifier, kw_func, kw_let, comment, unknown,
}
use mylamina.Ast.{Node, TypeNode, func_decl}
use mylamina.Parser.State.{
  same_type, ParserState, Parse, ◌>>=◌, ◌>>◌, return, advance, on, text, error, expected_lparen,
  expected_identifier,
}
use mylamina.Parser.Types.{check_type}
use mylamina.Parser.Stmt.{params_loop, func_tail, parse_func_decl, parse_block, dispatch}
use mylamina.Parser.Reads.{
  goto, At, Reads, is_plain, Reads-return, Reads-bind, Reads-text, Reads-advance, on-true, on-false,
}
use mylamina.Parser.Operand.{Reads-then}
use mylamina.Parser.Climb.{check_type-none}
use mylamina.Parser.Compound.{in_func-Reads}
use mylamina.Parser.Forms.{params, is_param, AllParams}

abbrev in_list : Token → Bool
in_list t = not (same_type t.type comment || same_type t.type unknown || same_type t.type colon)

is_param-in_list : (t : Token) → is_param t ≡ true → in_list t ≡ true
is_param-in_list t h = elim (Bool-cases (same_type t.type identifier)) [
  | inl f ↦ ground (arith, f)
  | inr f ↦ ground (arith, f, h)
]

in_list_inv :
    (t : Token) → in_list t ≡ true → (is_plain t ≡ true) × (same_type t.type colon ≡ false)
in_list_inv t h = (ground arith, ground arith)

comma_of :
    (t : Token)
    → is_param t ≡ true
    → same_type t.type identifier ≡ false
    → (same_type t.type rparen ≡ false) × (same_type t.type comma ≡ true)
comma_of t h e =
    let c : same_type t.type comma ≡ true = ground (arith, h, e) in (ground (arith, c), c)

-- The token behind each parameter.
params-front :
    (ps : List Token) (r : Token) (us : List Token)
    → AllParams ps
    → r.type ≡ rparen
    → (y : Token) × (ys : List Token) × (ps ++ (r ∷ us) ≡ y ∷ ys) × (in_list y ≡ true)
unfolding AllParams
params-front [] r us wf e = (r, us, refl, rw e refl)
params-front (x ∷ ps) r us wf e = (x, ps ++ (r ∷ us), refl, is_param-in_list x wf.0)

params_loop-Reads :
    (ps : List Token) (k : ℕ) (s : ParserState) (r : Token) {u : Token} {us : List Token}
    → AllParams ps
    → length ps < k
    → r.type ≡ rparen
    → is_plain u ≡ true
    → At s (ps ++ (r ∷ u ∷ us))
    → Reads (params_loop k) s (params ps, []) (u ∷ us)
unfolding params_loop params AllParams
params_loop-Reads [] zero s r wf few e plain h = absurd (omega (arith, few))
params_loop-Reads (x ∷ ps) zero s r wf few e plain h = absurd (omega (arith, few))
params_loop-Reads [] (suc k) s r wf few e plain h = on-false identifier _ _ s h (rw e refl) (
    on-true rparen _ _ s h (rw e refl) (
      Reads-bind advance (λ _. return ([], [])) s (Reads-advance s h plain)
        (λ q hq. Reads-return (goto q s) ([], []) hq)))
params_loop-Reads (x ∷ ps) (suc k) s r {u} {us} wf few e plain h =
    let (y, ys, front, mark) = params-front ps r (u ∷ us) wf.1 e in
    let (plain', no_colon) = in_list_inv y mark in
    let here : At s (x ∷ y ∷ ys) = h ∙ ap (λ z. x ∷ z) front in
    let rest = λ (q : ℕ) (hq : At (goto q s) (y ∷ ys)).
      params_loop-Reads ps k (goto q s) r wf.1 (omega (arith, few)) e plain (hq ∙ sym front) in
    let types_of : Option TypeNode → List TypeNode → List TypeNode =
      λ type ts. elim type [ none ↦ ts | some t ↦ t ∷ ts ] in
    let named : Text → Option TypeNode → Parse (List Text × List TypeNode) =
      λ name type. params_loop k >>= λ y. return (name ∷ y.0, types_of type y.1) in
    let typed : Text → Parse (List Text × List TypeNode) = λ name. check_type k >>= named name in
    elim (Bool-cases (same_type x.type identifier)) [
      | inl f ↦ rw f (
          on-true identifier (text >>= λ name. advance >> typed name) _ s here f (
            Reads-bind text (λ name. advance >> typed name) s (Reads-text s here)
              (λ q1 h1. Reads-then (typed x.text) (goto q1 s) h1 plain' (λ q2 h2.
                Reads-bind (check_type k) (named x.text) (goto q2 s)
                  (check_type-none k (goto q2 s) h2 no_colon)
                  (λ q3 h3.
                    Reads-bind (params_loop k) (λ y. return (x.text ∷ y.0, y.1)) (goto q3 s)
                      (rest q3 h3)
                      (λ q4 h4. Reads-return (goto q4 s) (x.text ∷ params ps, []) h4))))))
      | inr f ↦
          let (no_end, is_comma) = comma_of x wf.0 f in
          rw f (
            on-false identifier _ _ s here f (
              on-false rparen _ _ s here no_end (
                on-true comma _ _ s here is_comma
                  (Reads-bind advance (λ _. params_loop k) s (Reads-advance s here plain') rest))))
    ]

-- A function with its body; its parameters have no types.
pub parse_func_decl-Reads :
    (p : Parse Node) (k : ℕ) (s : ParserState) (ps : List Token) (r : Token) {n l b : Token}
    {bs rest : List Token} {body : Node}
    → At s (n ∷ l ∷ (ps ++ (r ∷ b ∷ bs)))
    → n.type ≡ identifier
    → l.type ≡ lparen
    → AllParams ps
    → length ps < k
    → r.type ≡ rparen
    → b.type ≡ lbrace
    → ((q : ℕ) → At (goto q s) (b ∷ bs) → Reads (parse_block p k) (goto q s) body rest)
    → Reads (parse_func_decl p k) s (func_decl n.text (params ps) [] none body) rest
unfolding parse_func_decl func_tail
parse_func_decl-Reads p k s ps r {n} {l} {b} {bs} {body = body} h is_name opens wf few closes brace
      inner =
    let (y, ys, front, mark) = params-front ps r (b ∷ bs) wf closes in
    let after_params : Text → List Text → List TypeNode → Parse Node =
      λ name names types. check_type k >>= λ ret_type. func_tail p k name names types ret_type in
    let listed : Text → Parse Node = λ name. params_loop k >>= λ x. after_params name x.0 x.1 in
    let bracket : Text → Parse Node =
      λ name. on lparen (advance >> listed name) (advance >> error expected_lparen) in
    on-true identifier _ (advance >> error expected_identifier) s h (rw is_name refl) (
      Reads-bind text (λ name. advance >> bracket name) s (Reads-text s h)
        (λ q1 h1. Reads-then (bracket n.text) (goto q1 s) h1 (rw opens refl) (λ q2 h2.
          on-true lparen (advance >> listed n.text) (advance >> error expected_lparen) (goto q2 s)
            h2 (rw opens refl)
            (Reads-then (listed n.text) (goto q2 s) (h2 ∙ ap (λ z. l ∷ z) front)
              (in_list_inv y mark).0
              (λ q3 h3.
                Reads-bind (params_loop k) (λ x. after_params n.text x.0 x.1) (goto q3 s)
                  (params_loop-Reads ps k (goto q3 s) r wf few closes (rw brace refl)
                    (h3 ∙ sym front))
                  (λ q4 h4.
                    Reads-bind (check_type k) (func_tail p k n.text (params ps) []) (goto q4 s)
                      (check_type-none k (goto q4 s) h4 (rw brace refl))
                      (λ q5 h5.
                        on-true lbrace
                          (parse_block p k >>= λ x. return (func_decl n.text (params ps) [] none x))
                          _ (goto q5 s) h5 (rw brace refl)
                          (Reads-bind (parse_block p k)
                            (λ x. return (func_decl n.text (params ps) [] none x)) (goto q5 s)
                            (inner q5 h5)
                            (λ q6 h6.
                              Reads-return (goto q6 s) (func_decl n.text (params ps) [] none body)
                                h6)))))))))

-- A function, behind its keyword.
pub dispatch-func :
    (p : Parse Node) (k : ℕ) (s : ParserState) {t u : Token} {ts rest : List Token} {a : Node}
    → At s (t ∷ u ∷ ts)
    → t.type ≡ kw_func
    → is_plain u ≡ true
    → s.in_func ≡ false
    → ((q : ℕ)
        → At (goto q s) (u ∷ ts)
        → Reads (parse_func_decl p k) (record (goto q s) { in_func = true }) a rest)
    → Reads (dispatch p k) s a rest
unfolding dispatch
dispatch-func p k s h e plain outside r = on-false kw_let _ _ s h (rw e refl) (
    on-true kw_func _ _ s h (rw e refl) (
      Reads-then _ s h plain
        (λ q hq. in_func-Reads (parse_func_decl p k) (goto q s) outside (r q hq))))
