-- ===== src/Generator/Call.antt =====
-- compiler/generator/generator.cpp: calls of functions, foreign functions and the machine.
use mylamina.Base.{ℕ, ◌+◌, ◌-◌, ◌^◌, Bool, false, List, [], ◌∷◌, Option, none, some, ◌==◌}
use mylamina.Base.{◌||◌, ltb, if◌then◌else◌, Text, lookup, length}
use mylamina.Emit.{emit_mov_rr, emit_mov_rc, emit_fcall, emit_vmc, emit_local_get}
use mylamina.Alloc.{size_max}
use mylamina.Ast.{TypeNode}
use mylamina.Vm.State.{reg_count_index_max}
use mylamina.Generator.State.{
  Gen, ◌>>=◌, ◌>>◌, return, gets, emit, emit_opt, error, release_reg, u8, u16, sto, from_option,
  find, args_mismatch, function_not_defined, vmc_index,
}

-- One round of the loop of `basic_gen_pass_args`: argument `i` goes to register 254 - i.
-- `REG_COUNT_INDEX_MAX - i` is unsigned, so it wraps for i > 254.
unfoldable pub pass_arg : ℕ → Gen ℕ → Gen (Unit {0})
pass_arg i arg = do
  r ← arg
  emit_opt (emit_mov_rr (u8 (reg_count_index_max + 256 - u8 i)) (u8 r))
  release_reg r

unfoldable pub call_function : ℕ → ℕ → Text → Gen (Unit {0}) → (ℕ × ℕ) → Gen ℕ
call_function count args_idx name pass (tar_ac, addr) =
    if count + args_idx == tar_ac
    then (do pass; emit (emit_fcall addr tar_ac); return 0)
    else (do error (args_mismatch count tar_ac name); return size_max)

-- `substr(0, find_last_of('.'))`: what stands before the last dot, or the whole text.
unfoldable pub has_dot : Text → Bool
has_dot [] = false
has_dot (c ∷ cs) = c == b'.' || has_dot cs

unfoldable pub module_part : Text → Text
unfolding has_dot
module_part [] = []
module_part (c ∷ cs) =
    let rest = c ∷ module_part cs in if has_dot cs then rest else (if c == b'.' then [] else rest)

-- A call through a module's library: the library to register 0, the function's name to 1.
unfoldable pub call_extern : ℕ → ℕ → Text → Gen (Unit {0}) → (ℕ × List TypeNode) → Gen ℕ
call_extern count args_idx name pass (label, ts) =
    if count + args_idx == length ts
    then (do
      pass
      m ← find (module_part name)
      emit (emit_local_get 0 (u8 m.0) (u16 m.1.1))
      emit (emit_mov_rc 1 label)
      emit (emit_vmc 5)
      return 0)
    else (do error (args_mismatch count (length ts) name); return size_max)

unfoldable pub call_found :
    Option (ℕ × ℕ) → Option (ℕ × List TypeNode) → ℕ → ℕ → Text → Gen (Unit {0}) → Gen ℕ
call_found (some f) e count args_idx name pass = call_function count args_idx name pass f
call_found none (some e) count args_idx name pass = call_extern count args_idx name pass e
call_found none none count args_idx name pass = do error (function_not_defined name); return 0

-- `basic_gen_func_call(n, args_idx)` for a call of `name` with `count` arguments, which `pass` puts
-- in place.
unfoldable pub basic_gen_func_call : Text → ℕ → ℕ → Gen (Unit {0}) → Gen ℕ
unfolding call_found call_function call_extern module_part
basic_gen_func_call name count args_idx pass = do
  f ← gets (λ g. lookup name g.funcs)
  e ← gets (λ g. lookup name g.extern_funcs)
  call_found f e count args_idx name pass

-- `gen_vmc`; `VMCALL_INDEX_MAX` is `UINT16_MAX`, and a run of digits is not negative.
unfoldable pub gen_vmc : Text → Gen (Unit {0}) → Gen ℕ
gen_vmc idx pass = do
  pass
  i ← from_option (sto (2 ^ 31 - 1) idx)
  if ltb 0xffff i
      then (do error (vmc_index idx); return size_max)
      else (do emit (emit_vmc i); return 0)
