-- ===== src/Emit/Shape.antt =====
-- The shape of the instructions that compiler/generator/emit.cpp appends.
use mathlib.Core.Option.{some-injective}
use mylamina.Base.{length-set, length-drop, length-take, sym, get_elem?, if◌then◌else◌, ◌>>=◌}
use mylamina.Emit.{retarget, mov_rr_on, fret_after}
use mylamina.Base.{
  ℕ, zero, suc, ◌∙◌, ◌+◌, ◌≤◌, ◌≡◌, refl, Bool, true, false, List, [], ◌∷◌, ◌++◌, Option, none,
  some, arith, length, take, drop, set, set_last, get_last?, ◌==◌, if◌then◌else◌, length-append,
  le_bytes, All,
}
use mylamina.Opcode.{Op, Opcode, new_op, copy_operands, set_operand, operand, fret}
use mylamina.Base.{◌>>=◌}
use mylamina.Opcode.Codes.{IsEnumerator}
use mylamina.Loader.{is_halt}
use mylamina.Emit.{
  Emitter, RetType, reg, emit_mov_ri, emit_mov_rr, emit_regs, emit_fcall, emit_fret, emit_jmp,
  emit_if_true, emit_if_false, emit_func_create, emit_func_end, emit_local_get, emit_local_set,
  emit_vmc, emit_mov_rc, emit_dec,
}

-- The opcode is an enumerator and not HALT, and there are 12 operand bytes.
pub record IsEmitted (o : Op) : Type 0 where
  pub enumerator : IsEnumerator o.op
  pub goes_on : is_halt o.op ≡ false
  pub full : length o.operands ≡ 12

pub record Emitted (ops : List Op) : Type 0 where
  pub each : All IsEmitted ops

IsEmitted-set_operand : (o : Op) (i v : ℕ) → IsEmitted o → IsEmitted (set_operand o i v)
IsEmitted-set_operand o i v h = record {
  enumerator = h.enumerator;
  goes_on = h.goes_on;
  full = length-set o.operands i v ∙ h.full;
}

-- A write of bytes inside the operands.
pub IsEmitted-copy_operands :
    (o : Op) (offset : ℕ) (bytes : List ℕ)
    → offset + length bytes ≤ 12
    → IsEmitted o
    → IsEmitted (copy_operands o offset bytes)
IsEmitted-copy_operands o offset bytes b h =
    let l : List ℕ = o.operands in
    let e : length l ≡ 12 = h.full in
    record {
      enumerator = h.enumerator;
      goes_on = h.goes_on;
      full = omega (
        arith,
        b,
        e,
        length-append (take offset l) (bytes ++ drop (offset + length bytes) l),
        length-append bytes (drop (offset + length bytes) l),
        length-drop l (offset + length bytes),
        length-take l offset (omega (arith, b, e)),
      );
    }

All-append : (a : List Op) (o : Op) → All IsEmitted a → IsEmitted o → All IsEmitted (a ++ (o ∷ []))
All-append [] o hs h = (h, tt)
All-append (x ∷ xs) o (p, ps) h = (p, All-append xs o ps h)

All-get_last? : (a : List Op) {o : Op} → All IsEmitted a → get_last? a ≡ some o → IsEmitted o
All-get_last? [] h e = cc
All-get_last? (x ∷ []) {o} (p, ps) e = rw (sym (some-injective x o e)) p
All-get_last? (x ∷ y ∷ ys) (p, ps) e = All-get_last? (y ∷ ys) ps e

All-set_last : (a : List Op) (o : Op) → All IsEmitted a → IsEmitted o → All IsEmitted (set_last a o)
All-set_last [] o hs h = tt
All-set_last (x ∷ []) o (p, ps) h = (h, tt)
All-set_last (x ∷ y ∷ ys) o (p, ps) h = (p, All-set_last (y ∷ ys) o ps h)

pub All-set :
    (a : List Op) (i : ℕ) (o : Op) → All IsEmitted a → IsEmitted o → All IsEmitted (set a i o)
All-set [] i o hs h = tt
All-set (x ∷ xs) zero o (p, ps) h = (h, ps)
All-set (x ∷ xs) (suc i) o (p, ps) h = (p, All-set xs i o ps h)

pub All-get_elem? :
    (a : List Op) (i : ℕ) {o : Op} → All IsEmitted a → get_elem? a i ≡ some o → IsEmitted o
All-get_elem? [] i hs e = cc
All-get_elem? (x ∷ xs) zero {o} (p, ps) e = rw (sym (some-injective x o e)) p
All-get_elem? (x ∷ xs) (suc i) (p, ps) e = All-get_elem? xs i ps e

push-Emitted : (ops : List Op) (o : Op) → Emitted ops → IsEmitted o → Emitted (ops ++ (o ∷ []))
push-Emitted ops o h w = record { each = All-append ops o h.each w }

-- For the two emitters that read `ops.back()`.
pub record EmittedBy (r : Option Emitter) : Type 0 where
  pub by : (e : Emitter) → r ≡ some e → Emitted e.ops

Emitted-if :
    (b : Bool) (x y : Emitter) → Emitted x.ops → Emitted y.ops → Emitted (if b then x else y).ops
Emitted-if true x y h h' = h
Emitted-if false x y h h' = h'

EmittedBy-if :
    (b : Bool) (x y : Option Emitter) → EmittedBy x → EmittedBy y → EmittedBy (if b then x else y)
EmittedBy-if true x y h h' = h
EmittedBy-if false x y h h' = h'

module _ (e : Emitter) (h : Emitted e.ops) where
  appended :
      (o : Op)
      → IsEnumerator o.op
      → is_halt o.op ≡ false
      → length o.operands ≡ 12
      → Emitted (e.ops ++ (o ∷ []))
  appended o en g f = push-Emitted e.ops o h (record { enumerator = en; goes_on = g; full = f })

  pub emit_mov_ri-Emitted : (r imm : ℕ) → Emitted (emit_mov_ri r imm e).ops
  unfolding emit_mov_ri new_op le_bytes
  emit_mov_ri-Emitted r imm = appended _ tt refl refl

  pub emit_regs-Emitted :
      (o : Opcode) (a b c : ℕ)
      → IsEnumerator o
      → is_halt o ≡ false
      → Emitted (emit_regs o a b c e).ops
  unfolding emit_regs new_op
  emit_regs-Emitted o a b c en g = appended _ en g refl

  pub emit_fcall-Emitted : (i n : ℕ) → Emitted (emit_fcall i n e).ops
  unfolding emit_fcall new_op le_bytes
  emit_fcall-Emitted i n = appended _ tt refl refl

  pub emit_jmp-Emitted : (i : ℕ) → Emitted (emit_jmp i e).ops
  unfolding emit_jmp new_op le_bytes
  emit_jmp-Emitted i = appended _ tt refl refl

  pub emit_if_true-Emitted : (r i : ℕ) → Emitted (emit_if_true r i e).ops
  unfolding emit_if_true new_op le_bytes
  emit_if_true-Emitted r i = appended _ tt refl refl

  pub emit_if_false-Emitted : (r i : ℕ) → Emitted (emit_if_false r i e).ops
  unfolding emit_if_false new_op le_bytes
  emit_if_false-Emitted r i = appended _ tt refl refl

  pub emit_func_create-Emitted : Emitted (emit_func_create e).ops
  unfolding emit_func_create new_op le_bytes
  emit_func_create-Emitted = appended _ tt refl refl

  pub emit_func_end-Emitted : Emitted (emit_func_end e).ops
  unfolding emit_func_end new_op le_bytes
  emit_func_end-Emitted = appended _ tt refl refl

  pub emit_local_get-Emitted : (r f i : ℕ) → Emitted (emit_local_get r f i e).ops
  unfolding emit_local_get new_op le_bytes
  emit_local_get-Emitted r f i = appended _ tt refl refl

  pub emit_local_set-Emitted : (f i r : ℕ) → Emitted (emit_local_set f i r e).ops
  unfolding emit_local_set new_op le_bytes
  emit_local_set-Emitted f i r = appended _ tt refl refl

  pub emit_vmc-Emitted : (i : ℕ) → Emitted (emit_vmc i e).ops
  unfolding emit_vmc new_op le_bytes
  emit_vmc-Emitted i = appended _ tt refl refl

  pub emit_mov_rc-Emitted : (r i : ℕ) → Emitted (emit_mov_rc r i e).ops
  unfolding emit_mov_rc new_op le_bytes
  emit_mov_rc-Emitted r i = appended _ tt refl refl

  pub emit_dec-Emitted : (r : ℕ) → Emitted (emit_dec r e).ops
  unfolding emit_dec new_op le_bytes
  emit_dec-Emitted r = appended _ tt refl refl

  some-EmittedBy : (e' : Emitter) → Emitted e'.ops → EmittedBy (some e')
  some-EmittedBy e' w = record { by = λ e2 q. rw (sym (some-injective e' e2 q)) w }

  retarget-Emitted : (a b : ℕ) (o : Op) → IsEmitted o → Emitted (retarget a b e o).ops
  unfolding retarget new_op
  retarget-Emitted a b o w =
      Emitted-if (operand o 0 == b) _ _
        (record { each = All-set_last e.ops _ h.each (IsEmitted-set_operand o 0 a w) })
        (appended _ tt refl refl)

  retarget_last :
      (a b : ℕ) (l : Option Op)
      → ((o : Op) → l ≡ some o → IsEmitted o)
      → EmittedBy (l >>= λ o. some (retarget a b e o))
  retarget_last a b none w = record { by = λ e' q. cc }
  retarget_last a b (some o) w = some-EmittedBy _ (retarget-Emitted a b o (w o refl))

  mov_rr_on-EmittedBy : (t : RetType) (a b : ℕ) → EmittedBy (mov_rr_on t a b e)
  unfolding mov_rr_on new_op
  mov_rr_on-EmittedBy reg a b =
      retarget_last a b (get_last? e.ops) (λ o q. All-get_last? e.ops h.each q)
  mov_rr_on-EmittedBy _ a b = some-EmittedBy _ (appended _ tt refl refl)

  pub emit_mov_rr-EmittedBy : (a b : ℕ) → EmittedBy (emit_mov_rr a b e)
  unfolding emit_mov_rr
  emit_mov_rr-EmittedBy a b =
      EmittedBy-if (a == b) (some e) _ (some-EmittedBy e h) (mov_rr_on-EmittedBy e.ret_type a b)

  fret_after-Emitted : (o : Opcode) → Emitted (fret_after o e).ops
  unfolding fret_after new_op
  fret_after-Emitted fret = h
  fret_after-Emitted _ = appended _ tt refl refl

  fret_last : (l : Option Op) → EmittedBy (l >>= λ o. some (fret_after o.op e))
  fret_last none = record { by = λ e' q. cc }
  fret_last (some o) = some-EmittedBy _ (fret_after-Emitted o.op)

  pub emit_fret-EmittedBy : EmittedBy (emit_fret e)
  unfolding emit_fret
  emit_fret-EmittedBy = fret_last (get_last? e.ops)
