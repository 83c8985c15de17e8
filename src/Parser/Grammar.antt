-- ===== src/Parser/Grammar.antt =====
-- The expressions of the language, as the parser groups them: which tokens an expression is written
-- with, and which tree it stands for.
-- A binary chain has a rank: 1 for `* / % ^`, 2 for `+ -`, 4 for `||` and 5 for `&&`; rank 3 is
-- that of a comparison, whose right side is a whole expression. A unary minus, too, is in front of
-- a whole expression.
use mylamina.Base.{ℕ, zero, suc, ◌+◌, ◌≤◌, ◌<◌, ◌≡◌, ◌≢◌, Bool, true, false, List, [], ◌∷◌, ◌++◌}
use mylamina.Lexer.{
  TokenType, Token, lparen, rparen, comma, oper_minus, identifier, kw_vmc, dot, colon, pipe,
}
use mylamina.Ast.{Node, Nodes, nil, cons, binary, unary, var_ref, func_call_expr, vm_call}
use mylamina.Parser.State.{same_type}
use mylamina.Parser.Expr.{is_factor_op, is_term_op, is_relation, is_or, is_and}
use mylamina.Parser.Reads.{is_plain}

mutual
  pub data Syntax : Type 0 where
    number variable text : Token → Syntax
    parens : Token → Syntax → Token → Syntax
    call : Token → Token → Args → Syntax
    machine : Token → Token → Token → Args → Syntax
    minus : Token → Syntax → Syntax
    chain : ℕ → Syntax → Tail → Syntax
    compare : Syntax → Token → Syntax → Syntax

  pub data Tail : Type 0 where
    end : Tail
    link : Token → Syntax → Tail → Tail

  pub data Args : Type 0 where
    close : Token → Args
    last_arg : Syntax → Token → Args
    next_arg : Syntax → Token → Args → Args

unfoldable mutual
  pub tokens : Syntax → List Token
  tokens (number t) = t ∷ []
  tokens (variable t) = t ∷ []
  tokens (text t) = t ∷ []
  tokens (parens l e r) = l ∷ (tokens e ++ (r ∷ []))
  tokens (call n l as') = n ∷ l ∷ args_tokens as'
  tokens (machine k i l as') = k ∷ i ∷ l ∷ args_tokens as'
  tokens (minus m e) = m ∷ tokens e
  tokens (chain n first tail) = tokens first ++ tail_tokens tail
  tokens (compare a op b) = tokens a ++ (op ∷ tokens b)

  pub tail_tokens : Tail → List Token
  tail_tokens end = []
  tail_tokens (link op e tail) = op ∷ (tokens e ++ tail_tokens tail)

  pub args_tokens : Args → List Token
  args_tokens (close r) = r ∷ []
  args_tokens (last_arg e r) = tokens e ++ (r ∷ [])
  args_tokens (next_arg e c as') = tokens e ++ (c ∷ args_tokens as')

unfoldable mutual
  pub node : Syntax → Node
  node (number t) = Node.num_literal t.text
  node (variable t) = var_ref t.text
  node (text t) = Node.string_literal t.text
  node (parens l e r) = node e
  node (call n l as') = func_call_expr n.text (args_nodes as')
  node (machine k i l as') = vm_call i.text (args_nodes as')
  node (minus m e) = unary m.text (node e)
  node (chain n first tail) = tail_node (node first) tail
  node (compare a op b) = binary (node a) (node b) op.text

  -- The chains group to the left.
  pub tail_node : Node → Tail → Node
  tail_node acc end = acc
  tail_node acc (link op e tail) = tail_node (binary acc (node e) op.text) tail

  pub args_nodes : Args → Nodes
  args_nodes (close r) = nil
  args_nodes (last_arg e r) = cons (node e) nil
  args_nodes (next_arg e c as') = cons (node e) (args_nodes as')

-- The operators of a rank.
abbrev pub is_op : ℕ → TokenType → Bool
is_op zero t = false
is_op (suc zero) t = is_factor_op t
is_op (suc (suc zero)) t = is_term_op t
is_op (suc (suc (suc zero))) t = is_relation t
is_op (suc (suc (suc (suc zero)))) t = is_or t
is_op (suc (suc (suc (suc (suc zero))))) t = is_and t
is_op _ t = false

-- The rank of an expression that ends with its last operand; 6 stands for one that takes all that
-- follows.
unfoldable pub rank : Syntax → ℕ
rank (minus m e) = 6
rank (compare a op b) = 6
rank (chain n first tail) = n
rank _ = 0

-- Chains have a rank of their own, and operands of a lower one.
unfoldable mutual
  pub IsWf : Syntax → Type 0
  IsWf (number t) = t.type ≡ TokenType.num_literal
  IsWf (variable t) = t.type ≡ identifier
  IsWf (text t) = t.type ≡ TokenType.string_literal
  IsWf (parens l e r) = (l.type ≡ lparen) × IsWf e × (r.type ≡ rparen)
  IsWf (call n l as') = (n.type ≡ identifier) × (l.type ≡ lparen) × IsWfArgs as'
  IsWf (machine k i l as') =
      (k.type ≡ kw_vmc) × (i.type ≡ TokenType.num_literal) × (l.type ≡ lparen) × IsWfArgs as'
  IsWf (minus m e) = (m.type ≡ oper_minus) × IsWf e
  IsWf (chain zero first tail) = ⊥
  IsWf (chain (suc n) first tail) =
      IsWf first × (rank first ≤ n) × IsWfTail n tail × (n < 5) × (n ≢ 2)
  IsWf (compare a op b) = IsWf a × (rank a ≤ 2) × (is_relation op.type ≡ true) × IsWf b

  pub IsWfTail : ℕ → Tail → Type 0
  IsWfTail n end = Unit
  IsWfTail n (link op e tail) =
      (is_op (suc n) op.type ≡ true) × IsWf e × (rank e ≤ n) × IsWfTail n tail

  pub IsWfArgs : Args → Type 0
  IsWfArgs (close r) = r.type ≡ rparen
  IsWfArgs (last_arg e r) = IsWf e × (r.type ≡ rparen)
  IsWfArgs (next_arg e c as') = IsWf e × (c.type ≡ comma) × IsWfArgs as'

-- What the parser's recursion and loops have to be able to take.
unfoldable mutual
  pub size : Syntax → ℕ
  size (parens l e r) = suc (size e)
  size (call n l as') = suc (args_size as')
  size (machine k i l as') = suc (args_size as')
  size (minus m e) = suc (size e)
  size (chain n first tail) = suc (size first + tail_size tail)
  size (compare a op b) = suc (suc (size a + size b))
  size _ = 1

  pub tail_size : Tail → ℕ
  tail_size end = 0
  tail_size (link op e tail) = suc (size e + tail_size tail)

  pub args_size : Args → ℕ
  args_size (close r) = 1
  args_size (last_arg e r) = suc (size e)
  args_size (next_arg e c as') = suc (size e + args_size as')

-- What may stand behind an operand of a rank.
pub record IsStop (r : ℕ) (u : Token) : Type 0 where
  pub plain : is_plain u ≡ true
  pub no_dot : same_type u.type dot ≡ false
  pub no_lparen : same_type u.type lparen ≡ false
  pub no_op : (i : ℕ) → i ≤ r → is_op i u.type ≡ false

-- What may stand behind a whole expression.
pub record IsEnd (u : Token) : Type 0 where
  pub stop : IsStop 5 u
  pub no_pipe : same_type u.type pipe ≡ false
  pub no_colon : same_type u.type colon ≡ false
