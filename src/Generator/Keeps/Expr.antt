-- ===== src/Generator/Keeps/Expr.antt =====
-- compiler/generator/generator.cpp: what the functions for expressions and calls keep of the program.
use mylamina.Base.{ℕ, Bool, true, false, Option, none, some, Text, List}
use mylamina.Opcode.{Opcode}
use mylamina.Ast.{TypeNode}
use mylamina.Generator.State.{Gen}
use mylamina.Generator.Keeps.{KeepsAll, keeps, emits}
use mylamina.Generator.Expr.Operators.{GoesOn, operator-GoesOn}
use mylamina.Generator.Expr.{
  load_var, operator, combine, unary_op, gen_num, gen_bool, gen_string, gen_var_ref, gen_binary,
  gen_unary,
}
use mylamina.Generator.Call.{
  pass_arg, call_function, call_extern, call_found, basic_gen_func_call, gen_vmc,
}

pub gen_num-KeepsAll : (t : Text) → KeepsAll (gen_num t)
unfolding gen_num
gen_num-KeepsAll t g h = search (keeps, emits) depth 14

pub gen_bool-KeepsAll : (b : Bool) → KeepsAll (gen_bool b)
unfolding gen_bool
gen_bool-KeepsAll b g h = search (keeps, emits) depth 14

pub gen_string-KeepsAll : (t : Text) → KeepsAll (gen_string t)
unfolding gen_string
gen_string-KeepsAll t g h = search (keeps, emits) depth 14

load_var-KeepsAll : (r : ℕ) (b : Bool) (t : Text) (f a : ℕ) → KeepsAll (load_var r b t f a)
unfolding load_var
load_var-KeepsAll r true t f a g h = search (keeps, emits) depth 14
load_var-KeepsAll r false t f a g h = search (keeps, emits) depth 14

pub gen_var_ref-KeepsAll : (t : Text) → KeepsAll (gen_var_ref t)
unfolding gen_var_ref
gen_var_ref-KeepsAll t g h = search (keeps, emits, load_var-KeepsAll) depth 14

combine-KeepsAll :
    (o : Option Opcode) (op : Text) (r lr rr : ℕ) → GoesOn o → KeepsAll (combine o op r lr rr)
unfolding combine
combine-KeepsAll none op r lr rr w g h = search (keeps, emits) depth 14
combine-KeepsAll (some o) op r lr rr (en, go) g h = search (keeps, emits, en, go) depth 14

combine-operator-KeepsAll : (op : Text) (r lr rr : ℕ) → KeepsAll (combine (operator op) op r lr rr)
combine-operator-KeepsAll op r lr rr =
    combine-KeepsAll (operator op) op r lr rr (operator-GoesOn op)

unary_op-KeepsAll : (op : Text) (a b c : ℕ) → KeepsAll (unary_op op a b c)
unfolding unary_op
unary_op-KeepsAll op a b c g h = search (keeps, emits) depth 14

module _ (left right call : Gen ℕ) (l : KeepsAll left) (r : KeepsAll right)
    (c : KeepsAll call) where
  pub gen_binary-KeepsAll : (op : Text) → KeepsAll (gen_binary left right call op)
  unfolding gen_binary
  gen_binary-KeepsAll op g h = search (keeps, emits, l, r, c, combine-operator-KeepsAll) depth 14

pub gen_unary-KeepsAll :
    (op : Text) (operand : Gen ℕ) → KeepsAll operand → KeepsAll (gen_unary op operand)
unfolding gen_unary
gen_unary-KeepsAll op operand k g h = search (keeps, emits, k, unary_op-KeepsAll) depth 14

pub pass_arg-KeepsAll : (i : ℕ) (arg : Gen ℕ) → KeepsAll arg → KeepsAll (pass_arg i arg)
unfolding pass_arg
pass_arg-KeepsAll i arg a g h = search (keeps, emits, a) depth 14

module _ (count args_idx : ℕ) (name : Text) (pass : Gen (Unit {0})) (p : KeepsAll pass) where
  call_found-KeepsAll :
      (f : Option (ℕ × ℕ)) (e : Option (ℕ × List TypeNode))
      → KeepsAll (call_found f e count args_idx name pass)
  unfolding call_found call_function call_extern
  call_found-KeepsAll (some f) e g h = search (keeps, emits, p) depth 14
  call_found-KeepsAll none (some e) g h = search (keeps, emits, p) depth 14
  call_found-KeepsAll none none g h = search (keeps, emits) depth 14

  pub basic_gen_func_call-KeepsAll : KeepsAll (basic_gen_func_call name count args_idx pass)
  unfolding basic_gen_func_call
  basic_gen_func_call-KeepsAll g h = search (keeps, emits, call_found-KeepsAll) depth 14

pub gen_vmc-KeepsAll :
    (idx : Text) (pass : Gen (Unit {0})) → KeepsAll pass → KeepsAll (gen_vmc idx pass)
unfolding gen_vmc
gen_vmc-KeepsAll idx pass p g h = search (keeps, emits, p) depth 14
