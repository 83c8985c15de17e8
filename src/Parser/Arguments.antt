-- ===== src/Parser/Arguments.antt =====
-- What the loop over the arguments of a call reads.
use mylamina.Base.{ℕ, suc, ◌≡◌, refl, true, false, List, ◌∷◌}
use mylamina.Lexer.{Token, rparen, comma}
use mylamina.Ast.{Node, Nodes}
use mylamina.Parser.State.{same_type, ParserState, Parse, ◌>>=◌, return, advance}
use mylamina.Parser.Expr.{args_loop}
use mylamina.Parser.Reads.{
  goto, At, Reads, is_plain, Reads-return, Reads-bind, Reads-advance, on-true, on-false,
}

-- The loop over the arguments ends, or takes one.
pub args_loop-close :
    (pe : Parse Node) (k : ℕ) (s : ParserState) {r u : Token} {us : List Token}
    → r.type ≡ rparen
    → At s (r ∷ u ∷ us)
    → is_plain u ≡ true
    → Reads (args_loop pe (suc k)) s Nodes.nil (u ∷ us)
unfolding args_loop
args_loop-close pe k s e h plain = on-true rparen _ _ s h (rw e refl) (
    Reads-bind advance (λ _. return Nodes.nil) s (Reads-advance s h plain)
      (λ q h'. Reads-return (goto q s) Nodes.nil h'))

pub args_loop-last :
    (pe : Parse Node) (k : ℕ) (s : ParserState) {t r u : Token} {ts us : List Token} {a : Node}
    → At s (t ∷ ts)
    → same_type t.type rparen ≡ false
    → Reads pe s a (r ∷ u ∷ us)
    → r.type ≡ rparen
    → is_plain u ≡ true
    → Reads (args_loop pe (suc k)) s (Nodes.cons a Nodes.nil) (u ∷ us)
unfolding args_loop
args_loop-last pe k s {a = a} h other inner e plain = on-false rparen _ _ s h other (
    Reads-bind pe _ s inner (λ q h'. on-false comma _ _ (goto q s) h' (rw e refl) (
      on-true rparen _ _ (goto q s) h' (rw e refl) (
        Reads-bind advance (λ _. return (Nodes.cons a Nodes.nil)) (goto q s)
          (Reads-advance (goto q s) h' plain)
          (λ q' h''. Reads-return (goto q' s) (Nodes.cons a Nodes.nil) h'')))))

pub args_loop-next :
    (pe : Parse Node) (k : ℕ) (s : ParserState) {t c u : Token} {ts us rest : List Token} {a : Node}
    {more : Nodes}
    → At s (t ∷ ts)
    → same_type t.type rparen ≡ false
    → Reads pe s a (c ∷ u ∷ us)
    → c.type ≡ comma
    → is_plain u ≡ true
    → ((q : ℕ) → At (goto q s) (u ∷ us) → Reads (args_loop pe k) (goto q s) more rest)
    → Reads (args_loop pe (suc k)) s (Nodes.cons a more) rest
unfolding args_loop
args_loop-next pe k s {a = a} {more} h other inner e plain r = on-false rparen _ _ s h other (
    Reads-bind pe _ s inner (λ q h'. on-true comma _ _ (goto q s) h' (rw e refl) (
      Reads-bind advance (λ _. args_loop pe k >>= λ x. return (Nodes.cons a x)) (goto q s)
        (Reads-advance (goto q s) h' plain)
        (λ q' h''.
          Reads-bind (args_loop pe k) (λ x. return (Nodes.cons a x)) (goto q' s) (r q' h'')
            (λ q2 h2. Reads-return (goto q2 s) (Nodes.cons a more) h2)))))
