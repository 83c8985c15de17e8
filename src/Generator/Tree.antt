-- ===== src/Generator/Tree.antt =====
-- compiler/generator/generator.cpp: `sub_gen`, the dispatch on the kind of a node, and `gen`.
-- A `use` compiles another file: what that does is the argument `c` (`gen_use` of Generator/Use).
-- The parser makes no such node.
use mylamina.Base.{some, none, ℕ, ◌+◌, [], ltb}
use mylamina.Base.{if◌then◌else◌, Text}
use mylamina.Emit.{emit_halt}
use mylamina.Alloc.{size_max}
use mylamina.Ast.{
  Node, null_node, program, binary, unary, num_literal, string_literal, bool_literal, block_stmt,
  if_stmt, var_decl, var_ref, func_decl, func_call_expr, return_stmt, vm_call, module_node,
  use_node, extern_func, loop_node, break_node, continue_node, Nodes, nil, cons, size, is_null,
  is_block,
}
use mylamina.Generator.State.{Gen, ◌>>=◌, ◌>>◌, return, crash, modify, emit, error, unknown_node}
use mylamina.Generator.Expr.{gen_num, gen_bool, gen_string, gen_var_ref, gen_binary, gen_unary}
use mylamina.Generator.Call.{pass_arg, basic_gen_func_call, gen_vmc}
use mylamina.Generator.Stmt.{
  gen_assign, gen_return, gen_block, gen_if, gen_loop, gen_continue, gen_break, gen_function,
  gen_module,
}

unfoldable mutual
  -- `sub_gen`
  pub sub_gen : (Text → Gen ℕ) → Node → Gen ℕ
  sub_gen c null_node = crash
  sub_gen c (program ns) = basic_gen_block c 0 ns
  sub_gen c (binary l r op) = gen_binary (sub_gen c l) (sub_gen c r) (gen_pipe_call c r) op
  sub_gen c (unary op operand) = gen_unary op (sub_gen c operand)
  sub_gen c (num_literal num) = gen_num num
  sub_gen c (string_literal s) = gen_string s
  sub_gen c (bool_literal b) = gen_bool b
  sub_gen c (block_stmt ns) = gen_block (basic_gen_block c 0 ns)
  sub_gen c (if_stmt cond then_block else_block) =
      gen_if (sub_gen c cond) (sub_gen c then_block)
        (if is_null else_block then return size_max else sub_gen c else_block)
  sub_gen c (var_decl name value is_mut) = gen_assign name (sub_gen c value) is_mut
  sub_gen c (var_ref name) = gen_var_ref name
  sub_gen c (func_decl name args args_type ret_type body) =
      gen_function name args (is_block body) (gen_body c body)
  sub_gen c (func_call_expr name args) =
      basic_gen_func_call name (size args) 0 (basic_gen_pass_args c 0 0 args)
  sub_gen c (return_stmt expr) = gen_return (sub_gen c expr)
  sub_gen c (vm_call idx args) = gen_vmc idx (basic_gen_pass_args c 0 0 args)
  sub_gen c (module_node name is_dyn lib vars ord dyn chd) = gen_module name is_dyn lib dyn
  sub_gen c (use_node path) = do _ ← c path; return size_max
  sub_gen c (extern_func f) = do error unknown_node; return size_max
  sub_gen c (loop_node cond body) =
      gen_loop (if is_null cond then return size_max else sub_gen c cond)
        (if is_null body then none else some (is_block body)) (sub_gen c body)
  sub_gen c break_node = gen_break
  sub_gen c continue_node = gen_continue

  -- The loop of `gen_program` and of `basic_gen_block`: the result of the last child.
  pub basic_gen_block : (Text → Gen ℕ) → ℕ → Nodes → Gen ℕ
  basic_gen_block c last nil = return last
  basic_gen_block c last (cons n ns) = do r ← sub_gen c n; basic_gen_block c r ns

  -- `basic_gen_block(node->body)` of a function, which casts the body to a block.
  pub gen_body : (Text → Gen ℕ) → Node → Gen ℕ
  gen_body c (block_stmt ns) = basic_gen_block c 0 ns
  gen_body c _ = crash

  -- `basic_gen_func_call(node->right, 1)`, which casts the right operand to a call.
  pub gen_pipe_call : (Text → Gen ℕ) → Node → Gen ℕ
  gen_pipe_call c (func_call_expr name args) =
      basic_gen_func_call name (size args) 1 (basic_gen_pass_args c 0 1 args)
  gen_pipe_call c _ = crash

  -- `basic_gen_pass_args`: the loop starts at `args_idx`, so that it skips that many of `args`.
  pub basic_gen_pass_args : (Text → Gen ℕ) → ℕ → ℕ → Nodes → Gen (Unit {0})
  basic_gen_pass_args c i args_idx nil = return tt
  basic_gen_pass_args c i args_idx (cons n ns) = do
    if ltb i args_idx then return tt else pass_arg i (sub_gen c n)
    basic_gen_pass_args c (i + 1) args_idx ns

-- `Generator::gen`: the messages are printed and forgotten, and a HALT ends the program.
unfoldable pub gen : (Text → Gen ℕ) → Node → Gen ℕ
gen c n = do r ← sub_gen c n; modify (λ g. record g { errors = [] }); emit emit_halt; return r
