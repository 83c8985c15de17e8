-- ===== src/Generator/Stmt.antt =====
-- compiler/generator/generator.cpp: statements.
use mylamina.Base.{ℕ, ◌+◌, ◌-◌, Bool, true, false, not, List, [], ◌∷◌, ◌++◌, Option}
use mylamina.Base.{none, some, ◌==◌, if◌then◌else◌, length, Text, insert, text_eq, map}
use mylamina.Emit.{
  emit_mov_ri, emit_mov_rr, emit_mov_rc, emit_fret, emit_jmp, emit_if_true, emit_if_false,
  emit_func_create, emit_func_end, emit_local_get, emit_local_set, emit_vmc, emit_dec,
}
use mylamina.Alloc.{size_max}
use mylamina.Ast.{TypeNode, type_name, ExternFunc}
use mylamina.Scope.{uint16_max, CompilingFrame, Locals, new_compiling_frame}
use mylamina.Vm.State.{reg_count_index_max}
use mylamina.Generator.State.{
  Gen, ◌>>=◌, ◌>>◌, return, crash, gets, modify, emit, emit_opt, error, free_reg, release_reg, u8,
  u16, patch, tagging, from_option, find, declare, declare_at, new_func, index, not_mutable,
  argument_defined, no_loop_body, expected_block,
}
use mylamina.Generator.Expr.{gen_string}

-- `gen_assign` on the variable that `find_var` gave: its frame counted from the innermost one.
unfoldable pub assign_found : Bool → ℕ → Text → Gen ℕ → Gen ℕ
assign_found true frame name value = do
  r ← value
  addr ← index name frame
  emit (emit_local_set (u8 frame) (u16 addr) (u8 r))
  return r
assign_found false frame name value = do error (not_mutable name); return 0

unfoldable pub declare_new : Text → Bool → Gen ℕ → Gen ℕ
declare_new name is_mut value = do
  r ← value
  addr ← declare name is_mut
  emit (emit_local_set 0 (u16 addr) (u8 r))
  return r

unfoldable pub gen_assign : Text → Gen ℕ → Bool → Gen ℕ
unfolding assign_found declare_new
gen_assign name value is_mut = do
  v ← find name
  r ←
      if not (v.1.1 == uint16_max)
      then assign_found v.1.0 v.0 name value
      else declare_new name is_mut value
  free_reg r
  return size_max

-- `gen_return`
unfoldable pub gen_return : Gen ℕ → Gen ℕ
gen_return expr = do
  r ← expr
  emit_opt (emit_mov_rr 0 (u8 r))
  emit_opt emit_fret
  release_reg r
  return 0

-- `gen_block`: the names of the block are forgotten, the addresses are not used again.
abbrev pub locals_of : List CompilingFrame → Option Locals
locals_of [] = none
locals_of (f ∷ fs) = some f.locals

pub restore_locals : Locals → List CompilingFrame → List CompilingFrame
restore_locals save [] = []
restore_locals save (f ∷ fs) = record f { locals = save } ∷ fs

unfoldable pub gen_block : Gen ℕ → Gen ℕ
unfolding restore_locals
gen_block children = do
  save ← λ g. from_option (locals_of g.cur) g
  r ← children
  modify (λ g. record g { cur = restore_locals save g.cur })
  return r

-- `gen_if`; an absent `else` block emits nothing.
unfoldable pub gen_if : Gen ℕ → Gen ℕ → Gen ℕ → Gen ℕ
gen_if condition then_block else_block = do
  cond ← condition
  the ← tagging
  emit (emit_if_true (u8 cond) 0)
  els ← tagging
  emit (emit_jmp 0)
  then_start ← tagging
  patch the 1 then_start
  _ ← then_block
  then_end ← tagging
  emit (emit_jmp 0)
  else_start ← tagging
  patch els 0 else_start
  _ ← else_block
  if_end ← tagging
  patch then_end 0 if_end
  free_reg cond
  return size_max

unfoldable pub patch_all : List ℕ → ℕ → Gen (Unit {0})
patch_all [] target = return tt
patch_all (p ∷ ps) target = do patch p 0 target; patch_all ps target

-- What the loop's end writes: every pending `break` and `continue` of the object, then the exit of
-- the condition, if there is one.
unfoldable pub close_loop : ℕ → ℕ → ℕ → ℕ → Gen (Unit {0})
unfolding patch_all
close_loop loop_cond break_cond continue_point break_point = do
  breaks ← gets (λ g. g.break_points)
  continues ← gets (λ g. g.continue_points)
  patch_all breaks break_point
  patch_all continues continue_point
  if loop_cond == size_max then return tt else patch break_cond 1 break_point
  modify (λ g. record g { break_points = []; continue_points = [] })
  free_reg loop_cond

-- `gen_loop`; without a condition the first argument is `return size_max`, and without a body the
-- second is `none`: `node->body->kind` is then read through a null pointer.
unfoldable pub gen_loop : Gen ℕ → Option Bool → Gen ℕ → Gen ℕ
gen_loop condition body_is_block body = do
  loop_cond ← condition
  loop_start ← tagging
  if loop_cond == size_max then return tt else emit (emit_if_false (u8 loop_cond) 0)
  is_block ← from_option body_is_block
  if is_block
      then (do
        _ ← body
        continue_point ← tagging
        if loop_cond == size_max then return tt else emit (emit_dec (u8 loop_cond))
        emit (emit_jmp loop_start)
        break_point ← tagging
        close_loop loop_cond loop_start continue_point break_point
        return size_max)
      else (do error no_loop_body; return size_max)

unfoldable pub gen_continue : Gen ℕ
gen_continue = do
  at ← tagging
  modify (λ g. record g { continue_points = g.continue_points ++ (at ∷ []) })
  emit (emit_jmp 0)
  return size_max

unfoldable pub gen_break : Gen ℕ
gen_break = do
  at ← tagging
  modify (λ g. record g { break_points = g.break_points ++ (at ∷ []) })
  emit (emit_jmp 0)
  return size_max

-- The first loop of `gen_function`: an argument may not have the name of any variable in sight.
unfoldable pub check_args : List Text → Gen (Unit {0})
check_args [] = return tt
check_args (a ∷ as') = do
  v ← find a
  if v.0 == size_max then return tt else error (argument_defined a)
  check_args as'

-- The second loop: argument `i` goes from register 254 - i to local `i`.
unfoldable pub bind_args : ℕ → List Text → Gen (Unit {0})
bind_args i [] = return tt
bind_args i (a ∷ as') = do
  emit (emit_local_set 0 (u16 i) (u8 (reg_count_index_max + 256 - u8 i)))
  _ ← declare_at a true (u16 i)
  bind_args (i + 1) as'

abbrev pop_frame : List CompilingFrame → List CompilingFrame
pop_frame [] = []
pop_frame (f ∷ fs) = fs

-- `gen_function`; `body` is `basic_gen_block(node->body)`, a crash where the body is no block.
unfoldable pub gen_function : Text → List Text → Bool → Gen ℕ → Gen ℕ
unfolding check_args bind_args
gen_function name args body_is_block body = do
  emit emit_func_create
  modify (λ g. record g { cur = new_compiling_frame name ∷ g.cur })
  check_args args
  new_func name (length args)
  bind_args 0 args
  if body_is_block then return tt else error expected_block
  _ ← body
  emit_opt emit_fret
  emit emit_func_end
  modify (λ g. record g { cur = pop_frame g.cur })
  return size_max

-- `lmtype2ctype`: the numbers of `Void`, `Bool`, `LongLong`, `Ptr` and `NO_ENUM_VALUE`.
unfoldable pub lmtype2ctype : Text → ℕ
lmtype2ctype [] = 0
lmtype2ctype t =
    if text_eq t (b'b' ∷ b'o' ∷ b'o' ∷ b'l' ∷ [])
    then 8
    else if text_eq t (b'n' ∷ b'u' ∷ b'm' ∷ [])
    then 4
    else if text_eq t (b't' ∷ b'e' ∷ b'x' ∷ b't' ∷ [])
    then 7
    else if text_eq t (b'n' ∷ b'u' ∷ b'l' ∷ b'l' ∷ [])
    then 0
    else 9

-- Bytes appended to the pool, with the offset at which they stand.
unfoldable pub add_constant : List ℕ → Gen ℕ
add_constant bytes g =
    some (length g.constant_pool, record g { constant_pool = g.constant_pool ++ bytes })

unfoldable pub ret_type_name : Option TypeNode → Gen Text
ret_type_name none = crash
ret_type_name (some t) = return (type_name t)

-- One `VMC_dyn_set` for each foreign function of a module.
unfoldable pub declare_externs : Text → List ExternFunc → Gen (Unit {0})
declare_externs module_name [] = return tt
declare_externs module_name (df ∷ rest) = do
  v ← find module_name
  emit (emit_local_get 254 (u8 v.0) (u16 v.1.1))
  f_name_ti ← add_constant (df.extern_label ++ (0 ∷ []))
  emit (emit_mov_rc 253 f_name_ti)
  args_ti ← add_constant (map (λ a. lmtype2ctype (type_name a)) df.args_type)
  emit (emit_mov_rc 252 args_ti)
  emit (emit_mov_ri 251 (length df.args))
  ret ← ret_type_name df.ret_type
  ret_ti ← add_constant (lmtype2ctype ret ∷ [])
  emit (emit_mov_rc 250 ret_ti)
  emit (emit_vmc 4)
  modify (λ g. record g {
    extern_funcs =
        insert (module_name ++ (b'.' ∷ df.name)) (f_name_ti, df.args_type) g.extern_funcs;
  })
  declare_externs module_name rest

-- The qualified name. The first module's name stays in `cur_module`: `>>` reads to its end, and
-- the stream is no longer good for the next `<<`.
unfoldable pub qualified_name : Text → Gen Text
qualified_name name g = elim g.cur_module [
  | [] ↦ some (name, if g.module_stream_good then record g { cur_module = name } else g)
  | c ∷ cs ↦ some ((c ∷ cs) ++ (b'.' ∷ name), g)
]

mem_text : Text → List Text → Bool
mem_text t [] = false
mem_text t (u ∷ us) = if text_eq u t then true else mem_text t us

unfoldable pub load_module : Bool → Option Text → Gen (Unit {0})
load_module false lib = return tt
load_module true none = crash
load_module true (some lib) = do
  r ← gen_string lib
  emit (emit_mov_rc 254 (if r == 0 then size_max else r - 1))
  emit (emit_vmc 3)

-- `gen_module`: of the members only the foreign functions are generated.
unfoldable pub gen_module : Text → Bool → Option Text → List ExternFunc → Gen ℕ
unfolding mem_text load_module qualified_name declare_externs add_constant ret_type_name
gen_module name is_dyn lib dyn = do
  known ← gets (λ g. g.modules)
  if mem_text name known then return size_max else (do
    load_module is_dyn lib
    tmp ← qualified_name name
    depth ← gets (λ g. length g.cur)
    addr ← declare tmp false
    emit (emit_local_set (u8 (depth - 1)) (u16 addr) 0)
    modify (λ g. record g {
      modules = g.modules ++ (tmp ∷ []);
      using_modules = g.using_modules ++ (tmp ∷ []);
    })
    declare_externs tmp dyn
    modify (λ g. record g { module_stream_good = false })
    return size_max)
