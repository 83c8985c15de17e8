-- ===== src/Parser/Expr.antt =====
-- compiler/parser.cpp: expressions, from `factor` to `parse_expr`.
-- `pe` is `parse_expr` and `k` the rounds that a loop may take.
use mylamina.Base.{ℕ, zero, suc, Bool, true, false, ◌++◌, [], ◌∷◌, Text, text_eq, if◌then◌else◌}
use mylamina.Lexer.{
  TokenType, end_of_file, oper_plus, oper_minus, oper_mul, oper_div, oper_mod, oper_pow, lparen,
  rparen, comma, eq, ne, lt, gt, le, ge, pipe, or_tok, and_tok, true_literal, false_literal,
  identifier, kw_vmc, dot,
}
use mylamina.Ast.{
  Node, null_node, binary, unary, bool_literal, var_ref, func_call_expr, vm_call, Nodes, nil, cons,
}
use mylamina.Parser.State.{
  Parse, parsed, cur, ◌>>=◌, ◌>>◌, return, error, advance, advance_back, text, on, require,
  alert_eof, undefined, no_fuel, expected_lparen_got, missing_comma_or_rparen, missing_closing,
  expected_operand, expected_call, expected_number, expected_string, unknown_token,
}
use mylamina.Parser.Types.{check_type}

-- The loop of `parse_args`, behind the opening parenthesis.
unfoldable pub args_loop : Parse Node → ℕ → Parse Nodes
args_loop pe zero s = no_fuel
args_loop pe (suc k) s =
    let more = args_loop pe k in
    on rparen (do advance; return nil)
      (do
        a ← pe
        on comma (do advance; as' ← more; return (cons a as'))
            (on rparen (do advance; return (cons a nil)) (error missing_comma_or_rparen)))
      s

-- `parse_args`
unfoldable pub parse_args : Parse Node → ℕ → Parse Nodes
unfolding args_loop
parse_args pe k =
    on lparen (do advance; args_loop pe k) (do advance; got ← text; error (expected_lparen_got got))

-- `parse_string`
unfoldable pub parse_string : Parse Text
parse_string = do require TokenType.string_literal expected_string; str ← text; advance; return str

-- `parse_func_call`
unfoldable pub parse_func_call : Parse Node → ℕ → Parse Node
parse_func_call pe k = do
  func_name ← text
  advance
  args ← parse_args pe k
  return (func_call_expr func_name args)

-- The dots of a qualified name.
unfoldable pub name_loop : ℕ → Text → Parse Text
name_loop zero name s = no_fuel
name_loop (suc k) name s =
    let rest = name_loop k in
    on dot
      (do
        d ← text
        advance
        on identifier (do part ← text; advance; rest (name ++ (d ++ part))) (rest (name ++ d)))
      (return name) s

-- A variable or a call, behind its first identifier.
unfoldable pub named : Parse Node → ℕ → Text → Parse Node
named pe k name =
    on lparen (do advance_back; parse_func_call pe k)
      (do
        full ← name_loop k name
        on lparen (do args ← parse_args pe k; return (func_call_expr full args))
            (return (var_ref full)))

-- `__VMC`, behind the keyword.
unfoldable pub vm_call_of : Parse Node → ℕ → Parse Node
vm_call_of pe k =
    on TokenType.num_literal
      (do idx ← text; advance; args ← parse_args pe k; return (vm_call idx args))
      (do advance; error expected_number)

-- `cur().text == "true"`
abbrev pub is_true : Text → Bool
is_true t = text_eq t (b't' ∷ b'r' ∷ b'u' ∷ b'e' ∷ [])

abbrev bool_of : Parse Node
bool_of = do t ← text; advance; return (bool_literal (is_true t))

-- `factor`
unfoldable pub factor : Parse Node → ℕ → Parse Node
factor pe k =
    on TokenType.num_literal (do t ← text; advance; return (Node.num_literal t))
      (on lparen (do advance; e ← pe; on rparen (do advance; return e) (error missing_closing))
        (on oper_minus (do op ← text; advance; e ← pe; return (unary op e))
          (on identifier (do name ← text; advance; named pe k name)
            (on true_literal bool_of (
              on false_literal bool_of (
                on end_of_file (do advance; return null_node)
                  (on TokenType.string_literal (do t ← parse_string; return (Node.string_literal t))
                    (on kw_vmc (do advance; vm_call_of pe k)
                      (do t ← text; error (unknown_token t))))))))))

-- `while (match(…)) { … node = BinaryNode(node, operand(), op); }`
unfoldable pub binary_loop : (TokenType → Bool) → Parse Node → ℕ → Node → Parse Node
binary_loop is_op operand zero node s = no_fuel
binary_loop is_op operand (suc k) node s =
    let rest = binary_loop is_op operand k in
    if is_op (cur s).type
    then ((do
      op ← text
      advance
      alert_eof expected_operand
      right ← operand
      rest (binary node right op))
        s)
    else parsed node s

abbrev pub is_factor_op : TokenType → Bool
is_factor_op oper_mul = true
is_factor_op oper_div = true
is_factor_op oper_mod = true
is_factor_op oper_pow = true
is_factor_op _ = false

abbrev pub is_term_op : TokenType → Bool
is_term_op oper_plus = true
is_term_op oper_minus = true
is_term_op _ = false

abbrev pub is_relation : TokenType → Bool
is_relation eq = true
is_relation lt = true
is_relation gt = true
is_relation le = true
is_relation ge = true
is_relation ne = true
is_relation _ = false

abbrev pub is_or : TokenType → Bool
is_or or_tok = true
is_or _ = false

abbrev pub is_and : TokenType → Bool
is_and and_tok = true
is_and _ = false

-- `first` and then the loop.
unfoldable pub chain : (TokenType → Bool) → Parse Node → Parse Node → ℕ → Parse Node
chain is_op first operand k = do node ← first; binary_loop is_op operand k node

unfoldable pub term : Parse Node → ℕ → Parse Node
term pe k = chain is_factor_op (factor pe k) (factor pe k) k

unfoldable pub expr : Parse Node → ℕ → Parse Node
expr pe k = chain is_term_op (term pe k) (term pe k) k

-- The right operand of a comparison is a whole expression.
unfoldable pub parse_relational : Parse Node → ℕ → Parse Node
parse_relational pe k = chain is_relation (expr pe k) pe k

unfoldable pub parse_logical_or : Parse Node → ℕ → Parse Node
parse_logical_or pe k = chain is_or (parse_relational pe k) (parse_relational pe k) k

unfoldable pub parse_logical_and : Parse Node → ℕ → Parse Node
parse_logical_and pe k = chain is_and (parse_logical_or pe k) (parse_logical_or pe k) k

-- `if (n2->kind != FuncCallExpr) error(…);`
abbrev pub require_call : Node → Parse (Unit {0})
require_call null_node s = undefined
require_call (func_call_expr name args) s = parsed tt s
require_call _ s = error expected_call s

-- The loop of `parse_expr` over the pipes.
unfoldable pub pipe_loop : Parse Node → ℕ → Node → Parse Node
pipe_loop operand zero node s = no_fuel
pipe_loop operand (suc k) node s =
    let rest = pipe_loop operand k in
    on pipe
      (do
        op ← text
        advance
        alert_eof expected_operand
        n2 ← operand
        require_call n2
        rest (binary node n2 op))
      (return node) s

-- The body of `parse_expr`; the type behind a colon is read and dropped.
unfoldable pub expr_body : Parse Node → ℕ → Parse Node
expr_body pe k = do
  first ← parse_logical_and pe k
  node ← pipe_loop (parse_logical_and pe k) k first
  _ ← check_type k
  return node

-- `parse_expr`
unfoldable pub parse_expr : ℕ → Parse Node
parse_expr zero s = no_fuel
parse_expr (suc f) s = expr_body (parse_expr f) f s
