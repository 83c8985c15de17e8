-- ===== src/Parser/Forms.antt =====
-- The statements of the language, as the parser reads them. No sign stands between two statements,
-- so a statement must not begin with a token that goes on the one in front of it, and a `return`
-- has its value on its own line. A loop in a loop and a function in a function are left out, since
-- the flags `in_loop` and `in_func` are cleared at the end of the inner one.
use mylamina.Base.{
  ℕ, suc, ◌+◌, ◌≡◌, Bool, true, false, ◌||◌, List, [], ◌∷◌, ◌++◌, ltb, if◌then◌else◌, length,
  Option, Text,
}
use mylamina.Lexer.{
  TokenType, Token, end_of_file, lparen, rparen, lbrace, rbrace, comma, assign, identifier, kw_let,
  kw_func, kw_return, kw_loop, kw_break, kw_continue, kw_if, kw_else, kw_vmc,
}
use mylamina.Ast.{
  Node, Nodes, null_node, nil, cons, var_decl, return_stmt, loop_node, break_node, continue_node,
  if_stmt, func_decl, block_stmt,
}
use mylamina.Parser.State.{same_type}
use mylamina.Parser.Grammar.{Syntax, tokens, node, size, IsWf}
use mylamina.Parser.Marks.{head_token}

mutual
  pub data Stmt : Type 0 where
    let_in : Token → Token → Token → Syntax → Stmt
    assigned : Token → Token → Syntax → Stmt
    alone : Syntax → Stmt
    returned : Token → Syntax → Stmt
    leave go_on : Token → Stmt
    while : Token → Syntax → Block → Stmt
    forever : Token → Block → Stmt
    choice : Token → Choice → Stmt
    function : Token → Token → Token → List Token → Token → Block → Stmt

  -- A condition and its blocks, behind the keyword.
  pub data Choice : Type 0 where
    when : Token → Syntax → Token → Block → Choice
    either : Token → Syntax → Token → Block → Token → Block → Choice
    else_if : Token → Syntax → Token → Block → Token → Token → Choice → Choice

  pub data Block : Type 0 where
    block : Token → Stmts → Token → Block

  pub data Stmts : Type 0 where
    done : Stmts
    next : Stmt → Stmts → Stmts

unfoldable mutual
  pub stmt_tokens : Stmt → List Token
  stmt_tokens (let_in k n a e) = k ∷ n ∷ a ∷ tokens e
  stmt_tokens (assigned n a e) = n ∷ a ∷ tokens e
  stmt_tokens (alone e) = tokens e
  stmt_tokens (returned k e) = k ∷ tokens e
  stmt_tokens (leave k) = k ∷ []
  stmt_tokens (go_on k) = k ∷ []
  stmt_tokens (while k c b) = k ∷ (tokens c ++ block_tokens b)
  stmt_tokens (forever k b) = k ∷ block_tokens b
  stmt_tokens (choice k c) = k ∷ choice_tokens c
  stmt_tokens (function k n l ps r b) = k ∷ n ∷ l ∷ (ps ++ (r ∷ block_tokens b))

  pub choice_tokens : Choice → List Token
  choice_tokens (when l c r b) = l ∷ (tokens c ++ (r ∷ block_tokens b))
  choice_tokens (either l c r b e b') =
      l ∷ (tokens c ++ (r ∷ (block_tokens b ++ (e ∷ block_tokens b'))))
  choice_tokens (else_if l c r b e k more) =
      l ∷ (tokens c ++ (r ∷ (block_tokens b ++ (e ∷ k ∷ choice_tokens more))))

  pub block_tokens : Block → List Token
  block_tokens (block l ss r) = l ∷ (stmts_tokens ss ++ (r ∷ []))

  pub stmts_tokens : Stmts → List Token
  stmts_tokens done = []
  stmts_tokens (next st ss) = stmt_tokens st ++ stmts_tokens ss

-- The names among the tokens of a parameter list.
unfoldable pub params : List Token → List Text
params [] = []
params (t ∷ ts) =
    let rest = params ts in if same_type t.type identifier then t.text ∷ rest else rest

unfoldable mutual
  pub stmt_node : Stmt → Node
  stmt_node (let_in k n a e) = var_decl n.text (node e) false
  stmt_node (assigned n a e) = var_decl n.text (node e) true
  stmt_node (alone e) = node e
  stmt_node (returned k e) = return_stmt (node e)
  stmt_node (leave k) = break_node
  stmt_node (go_on k) = continue_node
  stmt_node (while k c b) = loop_node (node c) (block_node b)
  stmt_node (forever k b) = loop_node null_node (block_node b)
  stmt_node (choice k c) = choice_node c
  stmt_node (function k n l ps r b) = func_decl n.text (params ps) [] Option.none (block_node b)

  pub choice_node : Choice → Node
  choice_node (when l c r b) = if_stmt (node c) (block_node b) null_node
  choice_node (either l c r b e b') = if_stmt (node c) (block_node b) (block_node b')
  choice_node (else_if l c r b e k more) =
      if_stmt (node c) (block_node b) (block_stmt (cons (choice_node more) nil))

  pub block_node : Block → Node
  block_node (block l ss r) = block_stmt (stmts_nodes ss)

  pub stmts_nodes : Stmts → Nodes
  stmts_nodes done = nil
  stmts_nodes (next st ss) = cons (stmt_node st) (stmts_nodes ss)

-- Tokens that end the statement in front of them.
abbrev pub ends : TokenType → Bool
ends end_of_file = true
ends rparen = true
ends lbrace = true
ends rbrace = true
ends comma = true
ends identifier = true
ends TokenType.num_literal = true
ends TokenType.string_literal = true
ends kw_let = true
ends kw_func = true
ends kw_return = true
ends kw_loop = true
ends kw_break = true
ends kw_continue = true
ends kw_if = true
ends kw_vmc = true
ends _ = false

unfoldable pub stmt_head : Stmt → Token
stmt_head (let_in k n a e) = k
stmt_head (assigned n a e) = n
stmt_head (alone e) = head_token e
stmt_head (returned k e) = k
stmt_head (leave k) = k
stmt_head (go_on k) = k
stmt_head (while k c b) = k
stmt_head (forever k b) = k
stmt_head (choice k c) = k
stmt_head (function k n l ps r b) = k

abbrev pub Follows : Stmts → Type 0
Follows done = Unit
Follows (next st ss) = ends (stmt_head st).type ≡ true

abbrev pub is_param : Token → Bool
is_param t = same_type t.type identifier || same_type t.type comma

unfoldable pub AllParams : List Token → Type 0
AllParams [] = Unit
AllParams (t ∷ ts) = (is_param t ≡ true) × AllParams ts

-- Well-formed under the flags `in_func` and `in_loop`.
unfoldable mutual
  pub IsStmt : Bool → Bool → Stmt → Type 0
  IsStmt fn lp (let_in k n a e) =
      (k.type ≡ kw_let) × (n.type ≡ identifier) × (a.type ≡ assign) × IsWf e
  IsStmt fn lp (assigned n a e) = (n.type ≡ identifier) × (a.type ≡ assign) × IsWf e
  IsStmt fn lp (alone e) = IsWf e
  IsStmt fn lp (returned k e) =
      (fn ≡ true) × (k.type ≡ kw_return) × (ltb k.line (head_token e).line ≡ false) × IsWf e
  IsStmt fn lp (leave k) = (lp ≡ true) × (k.type ≡ kw_break)
  IsStmt fn lp (go_on k) = (lp ≡ true) × (k.type ≡ kw_continue)
  IsStmt fn lp (while k c b) = (lp ≡ false) × (k.type ≡ kw_loop) × IsWf c × IsBlock fn true b
  IsStmt fn lp (forever k b) = (lp ≡ false) × (k.type ≡ kw_loop) × IsBlock fn true b
  IsStmt fn lp (choice k c) = (k.type ≡ kw_if) × IsChoice fn lp c
  IsStmt fn lp (function k n l ps r b) =
      (fn ≡ false)
      × (k.type ≡ kw_func)
      × (n.type ≡ identifier)
      × (l.type ≡ lparen)
      × AllParams ps
      × (r.type ≡ rparen)
      × IsBlock true lp b

  pub IsChoice : Bool → Bool → Choice → Type 0
  IsChoice fn lp (when l c r b) = (l.type ≡ lparen) × IsWf c × (r.type ≡ rparen) × IsBlock fn lp b
  IsChoice fn lp (either l c r b e b') =
      (l.type ≡ lparen)
      × IsWf c
      × (r.type ≡ rparen)
      × IsBlock fn lp b
      × (e.type ≡ kw_else)
      × IsBlock fn lp b'
  IsChoice fn lp (else_if l c r b e k more) =
      (l.type ≡ lparen)
      × IsWf c
      × (r.type ≡ rparen)
      × IsBlock fn lp b
      × (e.type ≡ kw_else)
      × (k.type ≡ kw_if)
      × IsChoice fn lp more

  pub IsBlock : Bool → Bool → Block → Type 0
  IsBlock fn lp (block l ss r) = (l.type ≡ lbrace) × AreStmts fn lp ss × (r.type ≡ rbrace)

  pub AreStmts : Bool → Bool → Stmts → Type 0
  AreStmts fn lp done = Unit
  AreStmts fn lp (next st ss) = IsStmt fn lp st × Follows ss × AreStmts fn lp ss

-- What the parser's recursion and loops have to be able to take.
unfoldable mutual
  pub stmt_size : Stmt → ℕ
  stmt_size (let_in k n a e) = suc (suc (size e))
  stmt_size (assigned n a e) = suc (suc (size e))
  stmt_size (alone e) = suc (suc (size e))
  stmt_size (returned k e) = suc (suc (size e))
  stmt_size (leave k) = 1
  stmt_size (go_on k) = 1
  stmt_size (while k c b) = suc (suc (size c + block_size b))
  stmt_size (forever k b) = suc (block_size b)
  stmt_size (choice k c) = suc (choice_size c)
  stmt_size (function k n l ps r b) = suc (suc (length ps + block_size b))

  pub choice_size : Choice → ℕ
  choice_size (when l c r b) = suc (size c + block_size b)
  choice_size (either l c r b e b') = suc (size c + (block_size b + block_size b'))
  choice_size (else_if l c r b e k more) = suc (size c + (block_size b + choice_size more))

  pub block_size : Block → ℕ
  block_size (block l ss r) = stmts_size ss

  pub stmts_size : Stmts → ℕ
  stmts_size done = 1
  stmts_size (next st ss) = suc (stmt_size st + stmts_size ss)
