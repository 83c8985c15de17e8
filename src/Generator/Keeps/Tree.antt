-- ===== src/Generator/Keeps/Tree.antt =====
-- compiler/generator/generator.cpp: what `sub_gen` keeps of the program, for every tree.
use mylamina.Base.{some, none, ℕ, ◌+◌, if◌then◌else◌, Bool, Text}
use mylamina.Ast.{
  Node, null_node, program, binary, unary, num_literal, string_literal, bool_literal, block_stmt,
  if_stmt, var_decl, var_ref, func_decl, func_call_expr, return_stmt, vm_call, module_node,
  use_node, extern_func, loop_node, break_node, continue_node, Nodes, nil, cons, size, is_null,
  is_block,
}
use mylamina.Alloc.{size_max}
use mylamina.Generator.State.{Gen, ◌>>=◌, ◌>>◌, crash, return, error, unknown_node}
use mylamina.Generator.Tree.{sub_gen, basic_gen_block, gen_body, gen_pipe_call, basic_gen_pass_args}
use mylamina.Generator.Keeps.{Keeps-return, Keeps-crash, Keeps-then, Keeps-choose, KeepsAll, keeps}
use mylamina.Generator.Keeps.Expr.{
  gen_num-KeepsAll, gen_bool-KeepsAll, gen_string-KeepsAll, gen_var_ref-KeepsAll,
  gen_binary-KeepsAll, gen_unary-KeepsAll, pass_arg-KeepsAll, basic_gen_func_call-KeepsAll,
  gen_vmc-KeepsAll,
}
use mylamina.Generator.Keeps.Stmt.{
  gen_assign-KeepsAll, gen_return-KeepsAll, gen_block-KeepsAll, gen_if-KeepsAll, gen_loop-KeepsAll,
  gen_continue-KeepsAll, gen_break-KeepsAll, gen_function-KeepsAll, gen_module-KeepsAll,
}

absent-KeepsAll : (b : Bool) (m : Gen ℕ) → KeepsAll m → KeepsAll (if b then return size_max else m)
absent-KeepsAll b m k g h = Keeps-choose b (return size_max) m g (Keeps-return size_max g h) (k g h)

crash-KeepsAll : KeepsAll {A = ℕ} crash
crash-KeepsAll g h = Keeps-crash

unknown-KeepsAll : KeepsAll (do error unknown_node; return size_max)
unknown-KeepsAll g h = search (keeps) depth 14

used-KeepsAll : (m : Gen ℕ) → KeepsAll m → KeepsAll (do _ ← m; return size_max)
used-KeepsAll m k g h = search (keeps, k) depth 14

module _ (c : Text → Gen ℕ) (k : (path : Text) → KeepsAll (c path)) where
  mutual
    unfolding sub_gen basic_gen_block gen_body gen_pipe_call basic_gen_pass_args

    pub sub_gen-KeepsAll : (n : Node) → KeepsAll (sub_gen c n)
    sub_gen-KeepsAll null_node = crash-KeepsAll
    sub_gen-KeepsAll (program ns) = block-KeepsAll 0 ns
    sub_gen-KeepsAll (binary l r op) =
        gen_binary-KeepsAll (sub_gen c l) (sub_gen c r) (gen_pipe_call c r) (sub_gen-KeepsAll l)
          (sub_gen-KeepsAll r) (pipe_call-KeepsAll r) op
    sub_gen-KeepsAll (unary op operand) =
        gen_unary-KeepsAll op (sub_gen c operand) (sub_gen-KeepsAll operand)
    sub_gen-KeepsAll (num_literal num) = gen_num-KeepsAll num
    sub_gen-KeepsAll (string_literal s) = gen_string-KeepsAll s
    sub_gen-KeepsAll (bool_literal b) = gen_bool-KeepsAll b
    sub_gen-KeepsAll (block_stmt ns) =
        gen_block-KeepsAll (basic_gen_block c 0 ns) (block-KeepsAll 0 ns)
    sub_gen-KeepsAll (if_stmt cond then_block else_block) =
        gen_if-KeepsAll (sub_gen c cond) (sub_gen c then_block) (sub_gen-KeepsAll cond)
          (sub_gen-KeepsAll then_block) _
          (absent-KeepsAll (is_null else_block) _ (sub_gen-KeepsAll else_block))
    sub_gen-KeepsAll (var_decl name value is_mut) =
        gen_assign-KeepsAll (sub_gen c value) (sub_gen-KeepsAll value) name is_mut
    sub_gen-KeepsAll (var_ref name) = gen_var_ref-KeepsAll name
    sub_gen-KeepsAll (func_decl name args args_type ret_type body) =
        gen_function-KeepsAll name args (is_block body) (gen_body c body) (body-KeepsAll body)
    sub_gen-KeepsAll (func_call_expr name args) =
        basic_gen_func_call-KeepsAll (size args) 0 name (basic_gen_pass_args c 0 0 args)
          (pass_args-KeepsAll 0 0 args)
    sub_gen-KeepsAll (return_stmt expr) =
        gen_return-KeepsAll (sub_gen c expr) (sub_gen-KeepsAll expr)
    sub_gen-KeepsAll (vm_call idx args) =
        gen_vmc-KeepsAll idx (basic_gen_pass_args c 0 0 args) (pass_args-KeepsAll 0 0 args)
    sub_gen-KeepsAll (module_node name is_dyn lib vars ord dyn chd) =
        gen_module-KeepsAll name is_dyn lib dyn
    sub_gen-KeepsAll (use_node path) = used-KeepsAll (c path) (k path)
    sub_gen-KeepsAll (extern_func f) = unknown-KeepsAll
    sub_gen-KeepsAll (loop_node cond body) =
        gen_loop-KeepsAll _ (sub_gen c body)
          (absent-KeepsAll (is_null cond) _ (sub_gen-KeepsAll cond)) (sub_gen-KeepsAll body)
          (if is_null body then none else some (is_block body))
    sub_gen-KeepsAll break_node = gen_break-KeepsAll
    sub_gen-KeepsAll continue_node = gen_continue-KeepsAll

    block-KeepsAll : (last : ℕ) (ns : Nodes) → KeepsAll (basic_gen_block c last ns)
    block-KeepsAll last nil g h = Keeps-return last g h
    block-KeepsAll last (cons n ns) g h =
        Keeps-then (sub_gen c n g) (λ r. basic_gen_block c r ns) (sub_gen-KeepsAll n g h)
          (λ r. block-KeepsAll r ns)

    body-KeepsAll : (n : Node) → KeepsAll (gen_body c n)
    body-KeepsAll (block_stmt ns) = block-KeepsAll 0 ns
    body-KeepsAll _ = crash-KeepsAll

    pipe_call-KeepsAll : (n : Node) → KeepsAll (gen_pipe_call c n)
    pipe_call-KeepsAll (func_call_expr name args) =
        basic_gen_func_call-KeepsAll (size args) 1 name (basic_gen_pass_args c 0 1 args)
          (pass_args-KeepsAll 0 1 args)
    pipe_call-KeepsAll _ = crash-KeepsAll

    pass_args-KeepsAll :
        (i args_idx : ℕ) (ns : Nodes) → KeepsAll (basic_gen_pass_args c i args_idx ns)
    pass_args-KeepsAll i args_idx nil g h = Keeps-return tt g h
    pass_args-KeepsAll i args_idx (cons n ns) g h =
        search
          (
            keeps,
            pass_arg-KeepsAll i (sub_gen c n) (sub_gen-KeepsAll n),
            pass_args-KeepsAll (i + 1) args_idx ns,
          )
          depth 14
