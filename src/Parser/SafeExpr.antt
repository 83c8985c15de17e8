-- ===== src/Parser/SafeExpr.antt =====
-- compiler/parser.cpp: what the functions that read types and expressions keep.
use mylamina.Base.{ℕ, zero, suc, Bool, Text}
use mylamina.Lexer.{TokenType}
use mylamina.Ast.{Node, TypeNode}
use mylamina.Parser.State.{ParserState, Parse}
use mylamina.Parser.Types.{type_parts, parse_type, check_type}
use mylamina.Parser.Expr.{
  args_loop, parse_args, parse_string, parse_func_call, name_loop, named, vm_call_of, factor,
  binary_loop, chain, term, expr, parse_relational, parse_logical_or, parse_logical_and,
  require_call, pipe_loop, expr_body, parse_expr,
}
use mylamina.Parser.Safe.{
  Safe, Safe-return, Safe-error, Safe-no_fuel, Safe-undefined, advance-Safe, advance_back-Safe,
  safe,
}

abbrev pub IsSafe : {A : Type 0} → Parse A → Type 0
IsSafe p = (s : ParserState) → Safe (p s) s

pub parse_string-Safe : IsSafe parse_string
unfolding parse_string
parse_string-Safe s = search (safe, advance-Safe) depth 14

type_parts-Safe : (part : Parse TypeNode) → IsSafe part → (k : ℕ) → IsSafe (type_parts part k)
unfolding type_parts
type_parts-Safe part h zero s = Safe-no_fuel s
type_parts-Safe part h (suc k) s = search (safe, h, type_parts-Safe part h k, advance-Safe) depth 14

parse_type-Safe : (f : ℕ) → IsSafe (parse_type f)
unfolding parse_type
parse_type-Safe zero s = Safe-no_fuel s
parse_type-Safe (suc f) s =
    search (safe, type_parts-Safe (parse_type f) (parse_type-Safe f) f, advance-Safe) depth 14

pub check_type-Safe : (f : ℕ) → IsSafe (check_type f)
unfolding check_type
check_type-Safe f s = search (safe, advance-Safe, parse_type-Safe f) depth 14

module _ (pe : Parse Node) (h : IsSafe pe) where
  args_loop-Safe : (k : ℕ) → IsSafe (args_loop pe k)
  unfolding args_loop
  args_loop-Safe zero s = Safe-no_fuel s
  args_loop-Safe (suc k) s = search (safe, h, args_loop-Safe k, advance-Safe) depth 14

  parse_args-Safe : (k : ℕ) → IsSafe (parse_args pe k)
  unfolding parse_args
  parse_args-Safe k s = search (safe, args_loop-Safe k, advance-Safe) depth 14

  parse_func_call-Safe : (k : ℕ) → IsSafe (parse_func_call pe k)
  unfolding parse_func_call
  parse_func_call-Safe k s = search (safe, parse_args-Safe k, advance-Safe) depth 14

  name_loop-Safe : (k : ℕ) (name : Text) → IsSafe (name_loop k name)
  unfolding name_loop
  name_loop-Safe zero name s = Safe-no_fuel s
  name_loop-Safe (suc k) name s = search (safe, name_loop-Safe k, advance-Safe) depth 14

  named-Safe : (k : ℕ) (name : Text) → IsSafe (named pe k name)
  unfolding named
  named-Safe k name s =
      search (safe, name_loop-Safe k, parse_args-Safe k, parse_func_call-Safe k, advance_back-Safe)
        depth 14

  vm_call_of-Safe : (k : ℕ) → IsSafe (vm_call_of pe k)
  unfolding vm_call_of
  vm_call_of-Safe k s = search (safe, parse_args-Safe k, advance-Safe) depth 14

  factor-Safe : (k : ℕ) → IsSafe (factor pe k)
  unfolding factor
  factor-Safe k s =
      search (safe, h, named-Safe k, vm_call_of-Safe k, parse_string-Safe, advance-Safe) depth 24

binary_loop-Safe :
    (ops : TokenType → Bool) (operand : Parse Node)
    → IsSafe operand
    → (k : ℕ) (node : Node) → IsSafe (binary_loop ops operand k node)
unfolding binary_loop
binary_loop-Safe ops operand h zero node s = Safe-no_fuel s
binary_loop-Safe ops operand h (suc k) node s =
    search (safe, h, binary_loop-Safe ops operand h k, advance-Safe) depth 14

chain-Safe :
    (ops : TokenType → Bool) (first operand : Parse Node) (k : ℕ)
    → IsSafe first
    → IsSafe operand
    → IsSafe (chain ops first operand k)
unfolding chain
chain-Safe ops first operand k h h' s = search (safe, h, binary_loop-Safe ops operand h' k) depth 14

parse_logical_and-Safe : (pe : Parse Node) → IsSafe pe → (k : ℕ) → IsSafe (parse_logical_and pe k)
unfolding parse_logical_and parse_logical_or parse_relational expr term
parse_logical_and-Safe pe h k =
    let t = chain-Safe _ (factor pe k) (factor pe k) k (factor-Safe pe h k) (factor-Safe pe h k) in
    let e = chain-Safe _ (term pe k) (term pe k) k t t in
    let r = chain-Safe _ (expr pe k) pe k e h in
    let o = chain-Safe _ (parse_relational pe k) (parse_relational pe k) k r r in
    chain-Safe _ (parse_logical_or pe k) (parse_logical_or pe k) k o o

require_call-Safe : (n : Node) → IsSafe (require_call n)
require_call-Safe Node.null_node s = Safe-undefined s
require_call-Safe (Node.func_call_expr name as') s = Safe-return tt s
require_call-Safe (Node.program _) s = Safe-error _ s
require_call-Safe (Node.binary _ _ _) s = Safe-error _ s
require_call-Safe (Node.unary _ _) s = Safe-error _ s
require_call-Safe (Node.num_literal _) s = Safe-error _ s
require_call-Safe (Node.string_literal _) s = Safe-error _ s
require_call-Safe (Node.bool_literal _) s = Safe-error _ s
require_call-Safe (Node.block_stmt _) s = Safe-error _ s
require_call-Safe (Node.if_stmt _ _ _) s = Safe-error _ s
require_call-Safe (Node.var_decl _ _ _) s = Safe-error _ s
require_call-Safe (Node.var_ref _) s = Safe-error _ s
require_call-Safe (Node.func_decl _ _ _ _ _) s = Safe-error _ s
require_call-Safe (Node.return_stmt _) s = Safe-error _ s
require_call-Safe (Node.vm_call _ _) s = Safe-error _ s
require_call-Safe (Node.module_node _ _ _ _ _ _ _) s = Safe-error _ s
require_call-Safe (Node.use_node _) s = Safe-error _ s
require_call-Safe (Node.extern_func _) s = Safe-error _ s
require_call-Safe (Node.loop_node _ _) s = Safe-error _ s
require_call-Safe Node.break_node s = Safe-error _ s
require_call-Safe Node.continue_node s = Safe-error _ s

pipe_loop-Safe : (p : Parse Node) → IsSafe p → (k : ℕ) (node : Node) → IsSafe (pipe_loop p k node)
unfolding pipe_loop
pipe_loop-Safe p h zero node s = Safe-no_fuel s
pipe_loop-Safe p h (suc k) node s =
    search (safe, h, pipe_loop-Safe p h k, require_call-Safe, advance-Safe) depth 14

pub parse_expr-Safe : (f : ℕ) → IsSafe (parse_expr f)
unfolding parse_expr expr_body
parse_expr-Safe zero s = Safe-no_fuel s
parse_expr-Safe (suc f) s =
    let a = parse_logical_and-Safe (parse_expr f) (parse_expr-Safe f) f in
    search (safe, a, pipe_loop-Safe (parse_logical_and (parse_expr f) f) a f, check_type-Safe f)
      depth 14
