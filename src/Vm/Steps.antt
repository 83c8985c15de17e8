-- ===== src/Vm/Steps.antt =====
-- runtime/vm.cpp: the instructions, one function for each body of the `switch`.
use mylamina.Base.{ℕ, zero, suc, ◌+◌, ◌-◌, ◌%◌, ◌^◌, Bool, true, false, not}
use mylamina.Base.{List, [], ◌∷◌, ◌++◌, Option, none, some, ◌==◌, if◌then◌else◌, ◌>>=◌}
use mylamina.Base.{get_elem?, get_or, set, drop, ℤ, pos}
use mylamina.Base.{◌+ℤ◌, ◌-ℤ◌, ◌*ℤ◌, quot, rem, fits64, ltb_ℤ, leb_ℤ, eqb_ℤ}
use mylamina.Opcode.{
  Op, Opcode, add, sub, mul, div, mod_op, cmp_ge, cmp_lt, cmp_le, cmp_gt, cmp_eq, func_end, operand,
  read_imm,
}
use mylamina.Base.{signed64}
use mylamina.Value.{
  Value, default_value, as_bool, as_i64, set_bool, assign_str, assign_i64, assign_f64, assign_copy,
  Libc,
}
use mylamina.Vm.State.{reg_count_index_max, StackFrame, VirtualCore, read, write, next}

-- `int64_t` results that do not fit are undefined.
abbrev pub checked : ℤ → Option ℤ
checked z = if fits64 z then some z else none

unfoldable pub div64 : ℤ → ℤ → Option ℤ
div64 a b = if eqb_ℤ b (pos 0) then none else checked (quot a b)

unfoldable pub mod64 : ℤ → ℤ → Option ℤ
mod64 a b =
    if eqb_ℤ b (pos 0) then none else (if fits64 (quot a b) then checked (rem a b) else none)

unfoldable pub arith64 : Opcode → ℤ → ℤ → Option ℤ
unfolding div64 mod64
arith64 add a b = checked (a +ℤ b)
arith64 sub a b = checked (a -ℤ b)
arith64 mul a b = checked (a *ℤ b)
arith64 div a b = div64 a b
arith64 mod_op a b = mod64 a b
arith64 _ a b = none

unfoldable pub compare64 : Opcode → ℤ → ℤ → Bool
compare64 cmp_ge a b = leb_ℤ b a
compare64 cmp_lt a b = ltb_ℤ a b
compare64 cmp_le a b = leb_ℤ a b
compare64 cmp_gt a b = ltb_ℤ b a
compare64 cmp_eq a b = eqb_ℤ a b
compare64 _ a b = not (eqb_ℤ a b)

-- `ADD` to `MOD`: `regs[op0] = regs[op1].i64 ⊕ regs[op2].i64; pc++`
unfoldable pub step_arith : Op → VirtualCore → Option VirtualCore
step_arith o s = do
  a ← read s (operand o 1)
  b ← read s (operand o 2)
  d ← read s (operand o 0)
  v ← arith64 o.op (as_i64 a) (as_i64 b)
  some (next (write s (operand o 0) (assign_i64 d v)))

-- The comparisons write the member `b` and nothing else.
unfoldable pub step_compare : Op → VirtualCore → Option VirtualCore
step_compare o s = do
  a ← read s (operand o 1)
  b ← read s (operand o 2)
  d ← read s (operand o 0)
  some (next (write s (operand o 0) (set_bool d (compare64 o.op (as_i64 a) (as_i64 b)))))

unfoldable pub step_logic : (Bool → Bool → Bool) → Op → VirtualCore → Option VirtualCore
step_logic f o s = do
  a ← read s (operand o 1)
  b ← read s (operand o 2)
  d ← read s (operand o 0)
  some (next (write s (operand o 0) (set_bool d (f (as_bool a) (as_bool b)))))

unfoldable pub step_pow : Libc → Op → VirtualCore → Option VirtualCore
step_pow libc o s = do
  a ← read s (operand o 1)
  b ← read s (operand o 2)
  d ← read s (operand o 0)
  some (next (write s (operand o 0) (assign_f64 d (libc.f64_pow a.bits b.bits))))

unfoldable pub step_mov_ri : Op → VirtualCore → Option VirtualCore
step_mov_ri o s = do
  d ← read s (operand o 0)
  some (next (write s (operand o 0) (assign_i64 d (signed64 (read_imm 8 o 1)))))

unfoldable pub step_mov_rr : Op → VirtualCore → Option VirtualCore
step_mov_rr o s = do
  a ← read s (operand o 1)
  d ← read s (operand o 0)
  some (next (write s (operand o 0) (assign_copy d a)))

unfoldable pub step_mov_rc : Op → VirtualCore → Option VirtualCore
step_mov_rc o s = do
  d ← read s (operand o 0)
  some (next (write s (operand o 0) (assign_str d ((s.const_pool_top + read_imm 8 o 1) % 2 ^ 64))))

unfoldable pub step_dec : Op → VirtualCore → Option VirtualCore
step_dec o s = do
  d ← read s (operand o 0)
  v ← checked (as_i64 d -ℤ pos 1)
  some (next (write s (operand o 0) (record (assign_i64 d v) { type = d.type })))

-- `IF_TRUE` and `IF_FALSE` jump on the given value of the member `b`.
unfoldable pub step_if : Bool → Op → VirtualCore → Option VirtualCore
step_if on o s = do
  r ← read s (operand o 0)
  some (
      if (if on then as_bool r else not (as_bool r))
      then record s { pc = read_imm 8 o 1 }
      else next s)

-- `LOCAL_GET`: frame `op1` below the top, local `op2..3`.
unfoldable pub step_local_get : Op → VirtualCore → Option VirtualCore
step_local_get o s = do
  d ← read s (operand o 0)
  frame ← get_elem? s.cur (operand o 1)
  v ← get_elem? frame.locals (read_imm 2 o 2)
  some (next (write s (operand o 0) (assign_copy d v)))

unfoldable pub step_local_set : Op → VirtualCore → Option VirtualCore
step_local_set o s = do
  frame ← get_elem? s.cur (operand o 0)
  old ← get_elem? frame.locals (read_imm 2 o 1)
  r ← read s (operand o 3)
  let frame' = record frame { locals = set frame.locals (read_imm 2 o 1) (assign_copy old r) }
  some (next (record s { cur = set s.cur (operand o 0) frame' }))

-- `save_regs[i] = regs[i]` for i = 1, 2, 3 in a new frame.
abbrev pub saved : (ℕ → Value) → List Value
saved regs =
    default_value
    ∷ assign_copy default_value (regs 1)
    ∷ assign_copy default_value (regs 2)
    ∷ assign_copy default_value (regs 3)
    ∷ []

-- `locals[i] = regs[REG_COUNT_INDEX_MAX - i]` for i < count, from i on.
unfoldable pub arguments : (ℕ → Value) → ℕ → ℕ → List Value
arguments regs i zero = []
arguments regs i (suc k) =
    assign_copy default_value (regs (reg_count_index_max - i)) ∷ arguments regs (i + 1) k

unfoldable pub step_fcall : Op → VirtualCore → VirtualCore
unfolding arguments
step_fcall o s = record s {
  ret_addr_stack = (s.pc + 1) ∷ s.ret_addr_stack;
  pc = read_imm 8 o 0;
  cur =
      record {
        locals = arguments s.regs 0 (operand o 8) ++ (default_value ∷ []);
        save_regs = saved s.regs;
      }
      ∷ s.cur;
}

-- `regs[i] = save_regs[i]` for i = 1, 2, 3.
abbrev pub restored : List Value → (ℕ → Value) → ℕ → Value
restored saves regs i =
    if i == 1
    then assign_copy (regs 1) (get_or saves 1 default_value)
    else if i == 2
    then assign_copy (regs 2) (get_or saves 2 default_value)
    else if i == 3
    then assign_copy (regs 3) (get_or saves 3 default_value)
    else regs i

unfoldable pub return_to : List ℕ → List StackFrame → VirtualCore → Option VirtualCore
return_to [] frames s = none
return_to (a ∷ as') [] s = none
return_to (a ∷ as') (f ∷ fs) s =
    some (record s { pc = a; ret_addr_stack = as'; regs = restored f.save_regs s.regs; cur = fs })

unfoldable pub step_fret : VirtualCore → Option VirtualCore
unfolding return_to
step_fret s = return_to s.ret_addr_stack s.cur s

-- The `while` of `FUNC_CREATE`, on the program from `pc` on: the index behind the first FUNC_END.
abbrev pub is_func_end : Opcode → Bool
is_func_end func_end = true
is_func_end _ = false

unfoldable pub after_func_end : List Op → ℕ → Option ℕ
after_func_end [] pc = none
after_func_end (o ∷ os) pc = if is_func_end o.op then some (pc + 1) else after_func_end os (pc + 1)

unfoldable pub step_func_create : VirtualCore → Option VirtualCore
step_func_create s = do pc ← after_func_end (drop s.pc s.program) s.pc; some (record s { pc = pc })
