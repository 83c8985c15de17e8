-- ===== src/Vm/Effects.antt =====
-- One instruction at a time, as the emitter writes it: what it does to the machine.
-- `d` is the target register after a possible `emit_mov_rr` onto the instruction.
use mylamina.Base.{
  Option, none, ◌>>=◌, Bool-cases, inl, inr, ℕ, ◌+◌, ◌^◌, ◌<◌, ◌≡◌, refl, Bool, true, false, some,
}
use mylamina.Base.{eqb_ℤ, arith, get_elem?, ℤ, pos, signed64, fits64}
use mylamina.Base.{signed64-pattern64, ap, lt→ltb, ◌+ℤ◌, ◌-ℤ◌, ◌*ℤ◌, quot, rem}
use mylamina.Opcode.{
  Op, Opcode, mov_ri, add, sub, mul, div, mod_op, local_get, operand, read_imm, set_operand, new_op,
}
use mylamina.Emit.{op_mov_ri, op_regs, op_local_get}
use mylamina.Emit.Decode.{decode_mov_ri, decode_local_get}
use mylamina.Value.{Value, int, as_i64, assign_i64, assign_copy}
use mylamina.Vm.{execute}
use mylamina.Vm.State.{VirtualCore, StackFrame, Host, running, fault, update_reg, or_fault}
use mylamina.Vm.Steps.{step_arith, step_mov_ri, step_local_get, arith64, checked}

-- The opcodes that compute an `int64_t` from two.
abbrev pub is_arith : Opcode → Bool
is_arith add = true
is_arith sub = true
is_arith mul = true
is_arith div = true
is_arith mod_op = true
is_arith _ = false

pub record HoldsInt (v : Value) (n : ℤ) : Type 0 where
  pub tag : v.type ≡ int
  pub value : as_i64 v ≡ n

-- The state behind an instruction that writes one register.
abbrev pub wrote : VirtualCore → ℕ → Value → VirtualCore
wrote s d v = record s { pc = s.pc + 1; regs = update_reg s.regs d v }

pub update_reg_self : (regs : ℕ → Value) (d : ℕ) (v : Value) → update_reg regs d v d ≡ v
update_reg_self regs d v = ground arith

pub assign_i64-HoldsInt : (v : Value) (n : ℤ) → fits64 n ≡ true → HoldsInt (assign_i64 v n) n
unfolding assign_i64
assign_i64-HoldsInt v n h = record { tag = refl; value = signed64-pattern64 n h }

pub checked-fits64 : (z : ℤ) {v : ℤ} → checked z ≡ some v → fits64 v ≡ true
checked-fits64 z h = ground arith

pub arith64-fits64 : (o : Opcode) (a b : ℤ) {v : ℤ} → arith64 o a b ≡ some v → fits64 v ≡ true
unfolding arith64
arith64-fits64 add a b h = checked-fits64 (a +ℤ b) h
arith64-fits64 sub a b h = checked-fits64 (a -ℤ b) h
arith64-fits64 mul a b h = checked-fits64 (a *ℤ b) h
arith64-fits64 div a b h = ground (arith, checked-fits64 (quot a b))
arith64-fits64 mod_op a b h = ground (arith, checked-fits64 (rem a b))
arith64-fits64 _ a b h = cc

pub signed64_small : (n : ℕ) → n < 2 ^ 63 → signed64 n ≡ pos n
unfolding signed64
signed64_small n h = ground arith

step_mov_ri_lem :
    (o : Op) (s : VirtualCore) (n : ℕ)
    → operand o 0 < 255
    → read_imm 8 o 1 ≡ n
    → n < 2 ^ 63
    → step_mov_ri o s ≡ some (wrote s (operand o 0) (assign_i64 (s.regs (operand o 0)) (pos n)))
unfolding step_mov_ri
step_mov_ri_lem o s n hd e hn = rw (lt→ltb _ _ hd, e, signed64_small n hn) refl

pub step_local_get_lem :
    (o : Op) (s : VirtualCore) (frame idx : ℕ) {f : StackFrame} {v : Value}
    → operand o 0 < 255
    → operand o 1 ≡ frame
    → read_imm 2 o 2 ≡ idx
    → get_elem? s.cur frame ≡ some f
    → get_elem? f.locals idx ≡ some v
    → step_local_get o s ≡ some (wrote s (operand o 0) (assign_copy (s.regs (operand o 0)) v))
unfolding step_local_get
step_local_get_lem o s frame idx {f} {v} hd e1 e2 ef ev = rw (lt→ltb _ _ hd, e1, ef, e2, ev) refl

-- `MOV_RI` with a number of at most 63 bits.
pub execute-mov_ri :
    (host : Host) (r d n : ℕ) (s : VirtualCore)
    → d < 255
    → n < 2 ^ 63
    → (execute host mov_ri (set_operand (op_mov_ri r n) 0 d) s
        ≡ running (wrote s d (assign_i64 (s.regs d) (pos n))))
unfolding execute new_op
execute-mov_ri host r d n s hd hn = ap or_fault (
    step_mov_ri_lem (set_operand (op_mov_ri r n) 0 d) s n hd (decode_mov_ri r d n (omega arith)) hn)

-- An arithmetic instruction where the machine's arithmetic gives a result.
pub execute-arith64 :
    (host : Host) (o : Opcode) (r a b d : ℕ) (s : VirtualCore) {x y v : ℤ}
    → is_arith o ≡ true
    → a < 255
    → b < 255
    → d < 255
    → as_i64 (s.regs a) ≡ x
    → as_i64 (s.regs b) ≡ y
    → arith64 o x y ≡ some v
    → (execute host o (set_operand (op_regs o r a b) 0 d) s
        ≡ running (wrote s d (assign_i64 (s.regs d) v)))
unfolding execute step_arith new_op
execute-arith64 host add r a b d s h ha hb hd ex ey e = ground (arith, ex, ey, e)
execute-arith64 host sub r a b d s h ha hb hd ex ey e = ground (arith, ex, ey, e)
execute-arith64 host mul r a b d s h ha hb hd ex ey e = ground (arith, ex, ey, e)
execute-arith64 host div r a b d s h ha hb hd ex ey e = ground (arith, ex, ey, e)
execute-arith64 host mod_op r a b d s h ha hb hd ex ey e = ground (arith, ex, ey, e)
execute-arith64 host _ r a b d s h ha hb hd ex ey e = cc

-- `v` is what the opcode is to compute of `x` and `y`: the sum, the difference, the product, the
-- quotient rounded to zero, or the remainder with the sign of `x`. There is no quotient and no
-- remainder by 0, and no remainder where the quotient does not fit.
abbrev pub IsResult : Opcode → ℤ → ℤ → ℤ → Type 0
IsResult add x y v = x +ℤ y ≡ v
IsResult sub x y v = x -ℤ y ≡ v
IsResult mul x y v = x *ℤ y ≡ v
IsResult div x y v = (eqb_ℤ y (pos 0) ≡ false) × (quot x y ≡ v)
IsResult mod_op x y v = (eqb_ℤ y (pos 0) ≡ false) × (fits64 (quot x y) ≡ true) × (rem x y ≡ v)
IsResult _ x y v = ⊥

-- An arithmetic instruction where it gives none.
execute-undefined :
    (host : Host) (o : Opcode) (r a b d : ℕ) (s : VirtualCore) {x y : ℤ}
    → is_arith o ≡ true
    → a < 255
    → b < 255
    → d < 255
    → as_i64 (s.regs a) ≡ x
    → as_i64 (s.regs b) ≡ y
    → arith64 o x y ≡ none
    → (execute host o (set_operand (op_regs o r a b) 0 d) s ≡ fault)
unfolding execute step_arith new_op
execute-undefined host add r a b d s h ha hb hd ex ey e = ground (arith, ex, ey, e)
execute-undefined host sub r a b d s h ha hb hd ex ey e = ground (arith, ex, ey, e)
execute-undefined host mul r a b d s h ha hb hd ex ey e = ground (arith, ex, ey, e)
execute-undefined host div r a b d s h ha hb hd ex ey e = ground (arith, ex, ey, e)
execute-undefined host mod_op r a b d s h ha hb hd ex ey e = ground (arith, ex, ey, e)
execute-undefined host _ r a b d s h ha hb hd ex ey e = cc

-- The result that the opcode has of `x` and `y`, or that none fits `int64_t`.
abbrev pub HasResult : Opcode → ℤ → ℤ → Option ℤ → Type 0
HasResult o x y (some v) = IsResult o x y v × (fits64 v ≡ true)
HasResult o x y none = (v : ℤ) → IsResult o x y v → fits64 v ≡ false

checked-none : (z : ℤ) → fits64 z ≡ false → checked z ≡ none
checked-none z h = ground arith

none-arith64 :
    (o : Opcode) (x y : ℤ)
    → is_arith o ≡ true
    → ((v : ℤ) → IsResult o x y v → fits64 v ≡ false)
    → arith64 o x y ≡ none
unfolding arith64
none-arith64 add x y a h = checked-none (x +ℤ y) (h _ refl)
none-arith64 sub x y a h = checked-none (x -ℤ y) (h _ refl)
none-arith64 mul x y a h = checked-none (x *ℤ y) (h _ refl)
none-arith64 div x y a h = elim (Bool-cases (eqb_ℤ y (pos 0))) [
  | inl z ↦ ground (arith, z)
  | inr z ↦ ground (arith, z, checked-none (quot x y) (h (quot x y) (z, refl)))
]
none-arith64 mod_op x y a h = elim (Bool-cases (eqb_ℤ y (pos 0))) [
  | inl z ↦ ground (arith, z)
  | inr z ↦ elim (Bool-cases (fits64 (quot x y))) [
    | inl f ↦ ground (arith, z, f, checked-none (rem x y) (h (rem x y) (z, f, refl)))
    | inr f ↦ ground (arith, z, f)
  ]
]
none-arith64 _ x y a h = cc

HasResult-arith64 :
    (o : Opcode) (x y : ℤ) (w : Option ℤ)
    → is_arith o ≡ true
    → HasResult o x y w
    → arith64 o x y ≡ w
unfolding arith64
HasResult-arith64 o x y none a h = none-arith64 o x y a h
HasResult-arith64 add x y (some v) a (e, h) = ground (arith, e)
HasResult-arith64 sub x y (some v) a (e, h) = ground (arith, e)
HasResult-arith64 mul x y (some v) a (e, h) = ground (arith, e)
HasResult-arith64 div x y (some v) a ((z, e), h) = ground (arith, e)
HasResult-arith64 mod_op x y (some v) a ((z, f, e), h) = ground (arith, e)
HasResult-arith64 _ x y (some v) a h = cc

-- ADD, SUB, MUL, DIV and MOD on two registers a and b below 255 that hold the integers x and y, with
-- a destination d below 255. Where the sum, the difference, the product, the quotient rounded to
-- zero or the remainder with the sign of x fits `int64_t`, the instruction writes it to d and goes
-- on with the next one. Where it does not fit, where y is 0 under DIV or MOD, or where the quotient
-- of a MOD does not fit, the behaviour is undefined.
pub execute-arith :
    (host : Host) (o : Opcode) (r a b d : ℕ) (s : VirtualCore) {x y : ℤ} (w : Option ℤ)
    → is_arith o ≡ true
    → a < 255
    → b < 255
    → d < 255
    → as_i64 (s.regs a) ≡ x
    → as_i64 (s.regs b) ≡ y
    → HasResult o x y w
    → execute host o (set_operand (op_regs o r a b) 0 d) s
      ≡ or_fault (do v ← w; some (wrote s d (assign_i64 (s.regs d) v)))
execute-arith host o r a b d s {x} {y} none ho ha hb hd ex ey h =
    execute-undefined host o r a b d s ho ha hb hd ex ey (HasResult-arith64 o x y none ho h)
execute-arith host o r a b d s {x} {y} (some v) ho ha hb hd ex ey h =
    execute-arith64 host o r a b d s ho ha hb hd ex ey (HasResult-arith64 o x y (some v) ho h)

-- `LOCAL_GET` of a local that is there.
pub execute-local_get :
    (host : Host) (r frame idx d : ℕ) (s : VirtualCore) {f : StackFrame} {v : Value}
    → d < 255
    → idx < 2 ^ 16
    → get_elem? s.cur frame ≡ some f
    → get_elem? f.locals idx ≡ some v
    → (execute host local_get (set_operand (op_local_get r frame idx) 0 d) s
        ≡ running (wrote s d (assign_copy (s.regs d) v)))
unfolding execute new_op
execute-local_get host r frame idx d s hd hi ef ev =
    let (e1, e2) = decode_local_get r frame idx d hi in
    ap or_fault
      (step_local_get_lem (set_operand (op_local_get r frame idx) 0 d) s frame idx hd e1 e2 ef ev)
