-- ===== src/Generator/Expr.antt =====
-- compiler/generator/generator.cpp: literals, variables, unary and binary operators.
pub mod Operators
use mylamina.Base.{ℕ, ◌-◌, ◌^◌, Bool, true, false, List, [], ◌∷◌, ◌++◌, Option, none, some}
use mylamina.Base.{◌==◌, if◌then◌else◌, length, Text, text_eq}
use mylamina.Opcode.{
  Opcode, add, sub, mul, div, mod_op, pow, cmp_ge, cmp_lt, cmp_le, cmp_gt, cmp_eq, cmp_ne, and_op,
  or_op,
}
use mylamina.Emit.{emit_mov_ri, emit_mov_rr, emit_mov_rc, emit_regs, emit_local_get}
use mylamina.Alloc.{size_max}
use mylamina.Scope.{uint16_max}
use mylamina.Generator.State.{
  Gen, ◌>>=◌, ◌>>◌, return, gets, modify, emit, emit_opt, error, alloc_reg, free_reg, release_reg,
  set_release, u8, u16, sto, from_option, find, var_not_found, operator_not_defined,
  unary_not_defined,
}
use mylamina.Vm.State.{reg_count_index_max}

-- `gen_num`
unfoldable pub gen_num : Text → Gen ℕ
gen_num num = do
  r ← alloc_reg
  set_release
  n ← from_option (sto (2 ^ 63 - 1) num)
  emit (emit_mov_ri (u8 r) n)
  return r

-- `gen_bool`
unfoldable pub gen_bool : Bool → Gen ℕ
gen_bool b = do r ← alloc_reg; emit (emit_mov_ri (u8 r) (if b then 1 else 0)); set_release; return r

-- `gen_string`: the bytes and a NUL go to the pool. `expr_release` is left as it was.
unfoldable pub gen_string : Text → Gen ℕ
gen_string s = do
  offset ← gets (λ g. length g.constant_pool)
  modify (λ g. record g { constant_pool = g.constant_pool ++ (s ++ (0 ∷ [])) })
  r ← alloc_reg
  emit (emit_mov_rc (u8 r) offset)
  return r

unfoldable pub load_var : ℕ → Bool → Text → ℕ → ℕ → Gen ℕ
load_var r true name frame addr = do
  free_reg r
  error (var_not_found name)
  set_release
  return size_max
load_var r false name frame addr = do
  emit (emit_local_get (u8 r) (u8 frame) (u16 addr))
  set_release
  return r

-- `gen_var_ref`
unfoldable pub gen_var_ref : Text → Gen ℕ
unfolding load_var
gen_var_ref name = do v ← find name; r ← alloc_reg; load_var r (v.1.1 == uint16_max) name v.0 v.1.1

-- The chain of comparisons with `node->op`, the pipe apart.
abbrev operators : List (Text × Opcode)
operators =
    (b'!' ∷ b'=' ∷ [], cmp_ne)
    ∷ (b'<' ∷ b'=' ∷ [], cmp_le)
    ∷ (b'>' ∷ b'=' ∷ [], cmp_ge)
    ∷ (b'=' ∷ b'=' ∷ [], cmp_eq)
    ∷ (b'<' ∷ [], cmp_lt)
    ∷ (b'>' ∷ [], cmp_gt)
    ∷ (b'+' ∷ [], add)
    ∷ (b'-' ∷ [], sub)
    ∷ (b'*' ∷ [], mul)
    ∷ (b'/' ∷ [], div)
    ∷ (b'%' ∷ [], mod_op)
    ∷ (b'^' ∷ [], pow)
    ∷ (b'|' ∷ b'|' ∷ [], or_op)
    ∷ (b'&' ∷ b'&' ∷ [], and_op)
    ∷ []

find_operator : Text → List (Text × Opcode) → Option Opcode
find_operator op [] = none
find_operator op ((t, o) ∷ rest) = if text_eq op t then some o else find_operator op rest

unfoldable pub operator : Text → Option Opcode
unfolding find_operator
operator op = find_operator op operators

abbrev pub is_pipe : Text → Bool
is_pipe op = text_eq op (b'|' ∷ b'>' ∷ [])

-- The instruction of the operator, on the registers of its operands.
unfoldable pub combine : Option Opcode → Text → ℕ → ℕ → ℕ → Gen ℕ
combine none op r lr rr = do error (operator_not_defined op); return size_max
combine (some o) op r lr rr = do
  emit (emit_regs o (u8 r) (u8 lr) (u8 rr))
  free_reg lr
  free_reg rr
  set_release
  return r

-- An operand is moved to a register that was or is allocated for it.
abbrev pub move_release : ℕ → ℕ → Gen (Unit {0})
move_release tmp r = do emit_opt (emit_mov_rr (u8 tmp) (u8 r)); release_reg r

-- `node->op == "|>"`: the left value is the first argument of the call on the right.
abbrev pub pipe : ℕ → Gen ℕ → Gen ℕ
pipe lr call = do
  emit_opt (emit_mov_rr reg_count_index_max (u8 lr))
  r ← call
  set_release
  return r

abbrev pub apply_operator : ℕ → Gen ℕ → Text → Gen ℕ
apply_operator lr right op = do
  rr ← right
  tmp ← alloc_reg
  move_release tmp rr
  r ← alloc_reg
  combine (operator op) op r lr tmp

-- `gen_binary`; `call` is `basic_gen_func_call(node->right, 1)`.
unfoldable pub gen_binary : Gen ℕ → Gen ℕ → Gen ℕ → Text → Gen ℕ
unfolding combine
gen_binary left right call op = do
  tmp ← alloc_reg
  lr ← left
  move_release tmp lr
  if is_pipe op then pipe tmp call else apply_operator tmp right op

unfoldable pub unary_op : Text → ℕ → ℕ → ℕ → Gen (Unit {0})
unary_op op result r tmp =
    if text_eq op (b'!' ∷ [])
    then emit (emit_regs cmp_eq (u8 result) (u8 r) (u8 tmp))
    else if text_eq op (b'-' ∷ [])
    then emit (emit_regs sub (u8 result) (u8 tmp) (u8 r))
    else error (unary_not_defined op)

-- `gen_unary`: the register of the constant 0 is freed and taken again for the result.
unfoldable pub gen_unary : Text → Gen ℕ → Gen ℕ
unfolding unary_op
gen_unary op operand = do
  r ← operand
  tmp ← alloc_reg
  emit (emit_mov_ri (u8 tmp) 0)
  free_reg tmp
  result ← alloc_reg
  unary_op op result r tmp
  release_reg r
  set_release
  return result
