-- ===== src/Parser/Stmt.antt =====
-- compiler/parser.cpp: statements, functions, modules and the program.
-- `p` is `parse` and `k` the rounds that a loop and the depth that an expression may take.
use mylamina.Base.{ℕ, zero, suc, Bool, true, false, ◌||◌, List, [], ◌∷◌, Option, none, some}
use mylamina.Base.{ltb, if◌then◌else◌, Text}
use mylamina.Lexer.{
  TokenType, assign, colon, comma, lparen, rparen, lbrace, rbrace, identifier, kw_func, kw_return,
  kw_if, kw_else, kw_let, kw_module, kw_use, kw_loop, kw_break, kw_continue, comment,
}
use mylamina.Ast.{
  TypeNode, ExternFunc, Node, null_node, program, block_stmt, if_stmt, var_decl, func_decl,
  return_stmt, module_node, extern_func, loop_node, break_node, continue_node, Nodes, nil, cons,
  is_null,
}
use mylamina.Parser.State.{
  ParseError, Parse, Parsing, parsed, thrown, stopped, undefined, no_fuel, cur, ◌>>=◌, ◌>>◌, return,
  error, advance, text, on, match, require, is_eof, peek_match, print_error, expected_lbrace,
  expected_rbrace, expected_lparen, expected_rparen, expected_identifier, expected_assignment,
  expected_return, expected_break, expected_continue, only_declarations, expected_parameter,
  expected_string,
}
use mylamina.Parser.Types.{check_type}
use mylamina.Parser.Expr.{parse_expr, parse_string}

-- `if (stmt) stmts.push_back(stmt)` in front of the others.
abbrev pub keep : Node → Nodes → Nodes
keep n ns = if is_null n then ns else cons n ns

-- `while (!match(RBRACE) && !is_eof())`, of `parse_block` and of `parse_program`.
unfoldable pub statements : Parse Node → ℕ → Parse Nodes
statements p zero s = no_fuel
statements p (suc k) s =
    let rest = statements p k in
    if match rbrace s || is_eof s
    then parsed nil s
    else ((do n ← p; ns ← rest; return (keep n ns)) s)

-- `parse_block`
unfoldable pub parse_block : Parse Node → ℕ → Parse Node
parse_block p k = do
  require lbrace expected_lbrace
  advance
  stmts ← statements p k
  require rbrace expected_rbrace
  advance
  return (block_stmt stmts)

-- `parse_if`; `depth` is that of `else if`.
unfoldable pub parse_if : Parse Node → ℕ → ℕ → Parse Node
parse_if p k zero s = no_fuel
parse_if p k (suc depth) s =
    let again = parse_if p k depth in
    ((do
      require lparen expected_lparen
      advance
      condition ← parse_expr k
      require rparen expected_rparen
      advance
      then_block ← parse_block p k
      else_block ←
          on kw_else
            (do
              advance
              on kw_if (do advance; n ← again; return (block_stmt (cons n nil))) (parse_block p k))
            (return null_node)
      return (if_stmt condition then_block else_block))
      s)

-- The loop of `parse_func_decl` over the parameters and their types.
unfoldable pub params_loop : ℕ → Parse (List Text × List TypeNode)
params_loop zero s = no_fuel
params_loop (suc k) s =
    let rest = params_loop k in
    on identifier
      (do
        name ← text
        advance
        type ← check_type k
        (params, types) ← rest
        return (name ∷ params, elim type [ none ↦ types | some t ↦ t ∷ types ]))
      (on rparen (do advance; return ([], []))
        (on comma (do advance; rest) (do advance; error expected_parameter)))
      s

-- What may follow the parameters: a body, a foreign label, or nothing.
unfoldable pub func_tail :
    Parse Node → ℕ → Text → List Text → List TypeNode → Option TypeNode → Parse Node
func_tail p k name params args_type ret_type =
    on lbrace (do body ← parse_block p k; return (func_decl name params args_type ret_type body))
      (on assign
        (do
          advance
          require TokenType.string_literal expected_string
          label ← parse_string
          late ← check_type k
          return (
              extern_func (record {
                name = name;
                args = params;
                args_type = args_type;
                ret_type = elim late [ none ↦ ret_type | some t ↦ some t ];
                extern_label = label;
              })))
        (return (func_decl name params args_type ret_type null_node)))

-- `parse_func_decl`
unfoldable pub parse_func_decl : Parse Node → ℕ → Parse Node
parse_func_decl p k =
    on identifier
      (do
        name ← text
        advance
        on lparen
            (do
              advance
              (params, args_type) ← params_loop k
              ret_type ← check_type k
              func_tail p k name params args_type ret_type)
            (do advance; error expected_lparen))
      (do advance; error expected_identifier)

-- The members of a module, by kind.
pub record Members : Type 0 where
  pub vars : Nodes
  pub ord : Nodes
  pub dyn : List ExternFunc
  pub chd : Nodes

abbrev pub no_members : Members
no_members = record { vars = nil; ord = nil; dyn = []; chd = nil }

-- The `switch` on the kind of a member.
unfoldable pub add_member : Node → Members → Parse Members
add_member null_node m s = undefined
add_member (var_decl n v b) m s = parsed (record m { vars = cons (var_decl n v b) m.vars }) s
add_member (func_decl n as' ts r b) m s =
    parsed (record m { ord = cons (func_decl n as' ts r b) m.ord }) s
add_member (extern_func f) m s = parsed (record m { dyn = f ∷ m.dyn }) s
add_member (module_node n t l vs os ds cs) m s =
    parsed (record m { chd = cons (module_node n t l vs os ds cs) m.chd }) s
add_member _ m s = error only_declarations s

-- `add_member` for a member in front of the others, which are read when its kind has been seen.
unfoldable pub members : Parse Node → ℕ → Parse Members
members p zero s = no_fuel
members p (suc k) s =
    let rest = members p k in
    on rbrace (return no_members) (do n ← p; _ ← add_member n no_members; m ← rest; add_member n m)
      s

abbrev pub set_in_module : Bool → Parse (Unit {0})
set_in_module b s = parsed tt (record s { in_module = b })

abbrev pub set_in_func : Bool → Parse (Unit {0})
set_in_func b s = parsed tt (record s { in_func = b })

abbrev pub set_in_loop : Bool → Parse (Unit {0})
set_in_loop b s = parsed tt (record s { in_loop = b })

-- `parse_module`
unfoldable pub parse_module : Parse Node → ℕ → Parse Node
parse_module p k = do
  require identifier expected_identifier
  name ← text
  advance
  lib ← on colon (do advance; l ← text; advance; return (some l)) (return none)
  set_in_module true
  require lbrace expected_lbrace
  advance
  m ← members p k
  advance
  set_in_module false
  return (module_node name (elim lib [ none ↦ false | some l ↦ true ]) lib m.vars m.ord m.dyn m.chd)

-- `return`
unfoldable pub parse_return : ℕ → Parse Node
parse_return k s =
    if s.in_func
    then ((do
      advance
      (λ t.
          if ltb (cur s).line (cur t).line
          then parsed (return_stmt null_node) t
          else ((do e ← parse_expr k; return (return_stmt e)) t)))
        s)
    else error expected_return s

-- `loop`
unfoldable pub parse_loop : Parse Node → ℕ → Parse Node
parse_loop p k = do
  advance
  cond ← on lbrace (return null_node) (parse_expr k)
  set_in_loop true
  block ← parse_block p k
  set_in_loop false
  return (loop_node cond block)

-- `break` and `continue`
unfoldable pub in_loop_only : ParseError → Node → Parse Node
in_loop_only e n = do advance; (λ s. if s.in_loop then parsed n s else error e s)

-- The `default` of the `switch`: an assignment or an expression.
unfoldable pub parse_default : ℕ → Parse Node
parse_default k =
    on identifier
      (do
        is_assignment ← peek_match assign
        if is_assignment
            then (do
              name ← text
              advance
              advance
              value ← parse_expr k
              return (var_decl name value true))
            else parse_expr k)
      (parse_expr k)

-- `let`
unfoldable pub parse_let : ℕ → Parse Node
parse_let k = do
  advance
  require identifier expected_identifier
  name ← text
  advance
  require assign expected_assignment
  advance
  value ← parse_expr k
  return (var_decl name value false)

-- The `switch` of `parse`. Behind `advance` no token is a comment.
unfoldable pub dispatch : Parse Node → ℕ → Parse Node
dispatch p k = on kw_let (parse_let k) (
    on kw_func
      (do advance; set_in_func true; node ← parse_func_decl p k; set_in_func false; return node)
      (on kw_return (parse_return k) (
        on kw_loop (parse_loop p k) (
          on kw_break (in_loop_only expected_break break_node) (
            on kw_continue (in_loop_only expected_continue continue_node) (
              on kw_if (do advance; parse_if p k k)
                (on kw_module (do advance; parse_module p k)
                  (on kw_use (do advance; _ ← parse_string; return null_node)
                    (parse_default k)))))))))

-- The `catch` of `parse`: the error is printed and the result is a null pointer.
abbrev pub caught : Parsing Node → Parsing Node
caught (parsed n s) = parsed n s
caught (thrown e s) = parsed null_node (print_error e s)
caught stopped = stopped
caught undefined = undefined
caught no_fuel = no_fuel

-- `parse`
unfoldable pub parse : ℕ → Parse Node
parse zero s = no_fuel
parse (suc f) s = let p = parse f in caught (on comment (do advance; dispatch p f) (dispatch p f) s)

-- `parse_program`; nothing that it calls throws a `ParserError`, so its `catch` is not reached.
unfoldable pub parse_program : ℕ → Parse Node
parse_program f = do stmts ← statements (parse f) f; return (program stmts)
