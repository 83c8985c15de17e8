-- ===== src/Generator/Arith/Leaves.antt =====
-- Numerals, variables and the unary minus.
use mylamina.Base.{ℕ, ◌-◌, ◌^◌, ◌<◌, ◌≤◌, ◌≡◌, refl, true, false}
use mylamina.Base.{List, [], ◌∷◌, ◌++◌, ◌>>=◌, Option, none, some, arith, ◌∙◌, ap, ℤ, pos}
use mathlib.Core.Option.{some-injective}
use mathlib.Core.Path.{subst}
use mylamina.Base.{>>=-eq-some, fits64, Text, ◌==◌, get_elem?}
use mylamina.Opcode.{set_operand, new_op}
use mylamina.Emit.{op_mov_ri, op_local_get, emit_mov_ri, emit_local_get}
use mylamina.Value.{Value, as_i64, assign_i64, assign_copy}
use mylamina.Vm.State.{VirtualCore, StackFrame, Host}
use mylamina.Vm.Straight.{is_straight}
use mylamina.Vm.Effects.{HoldsInt, assign_i64-HoldsInt, execute-mov_ri, execute-local_get}
use mylamina.Alloc.{Allocator, set_bit}
use mylamina.Alloc.Laws.{alloc-Allocates}
use mylamina.Scope.{CompilingFrame, find_var, uint16_max}
use mylamina.Generator.State.{Generator, sto, u8, u16}
use mylamina.Generator.Expr.{gen_num, gen_var_ref, load_var}
use mylamina.Generator.Arith.{full, Compiles, Puts, local_int, local_at, int_of}
use mylamina.Generator.Arith.Steps.{u8_small}
use mylamina.Generator.Arith.Code.{Puts-one}

sto-le : (m : ℕ) (t : Text) {n : ℕ} → sto m t ≡ some n → n ≤ m
unfolding sto
sto-le m t h = ground arith

fits_small : (n : ℕ) → n ≤ 2 ^ 63 - 1 → fits64 (pos n) ≡ true
fits_small n h = ground arith

not_max : (a : ℕ) → a < uint16_max → (a == uint16_max) ≡ false
not_max a h = ground arith

small8 : (a : ℕ) → a < 256 → u8 a ≡ a
small8 a h = omega arith

small16 : (a : ℕ) → a < uint16_max → u16 a ≡ a
small16 a h = omega arith

module _ (host : Host) (frames : List CompilingFrame) where
  pub num_computes :
      (used : Allocator) (r n d : ℕ) (s : VirtualCore)
      → d < 255
      → n ≤ 2 ^ 63 - 1
      → Puts host used (set_operand (op_mov_ri r n) 0 d ∷ []) s d (pos n)
  unfolding new_op
  num_computes used r n d s hd hn =
      Puts-one host used (set_operand (op_mov_ri r n) 0 d) s d (assign_i64 (s.regs d) (pos n))
        (execute-mov_ri host r d n s hd (omega arith))
        (assign_i64-HoldsInt (s.regs d) (pos n) (fits_small n hn))

  pub gen_num-Compiles :
      (t : Text) {n : ℕ}
      → sto (2 ^ 63 - 1) t ≡ some n
      → Compiles host frames 1 (λ _. some (pos n)) (gen_num t)
  unfolding gen_num emit_mov_ri new_op is_straight
  gen_num-Compiles t {n} e g cur zero_taken enough =
      let (r, a) = alloc-Allocates g.regs enough in
      record {
        r = r;
        init = [];
        last = op_mov_ri r n;
        was_free = a.was_free;
        in_range = a.in_range;
        target = refl;
        result = rw (a.result, e, u8_small r a.in_range) refl;
        straight = tt;
        last_straight = refl;
        computes = λ s d {v} hd ev.
            subst (λ v. Puts host g.regs (set_operand (op_mov_ri r n) 0 d ∷ []) s d v)
              (some-injective (pos n) v ev)
              (num_computes g.regs r n d s hd (sto-le (2 ^ 63 - 1) t e));
      }

  -- A local that holds an integer, copied to a register.
  copy_holds :
      (o : Option Value) (old : Value) {v : ℤ}
      → (o >>= λ w. int_of w.type (as_i64 w)) ≡ some v
      → (w : Value) × (o ≡ some w) × HoldsInt (assign_copy old w) v
  unfolding assign_copy
  copy_holds none old h = cc
  copy_holds (some w) old h = (w, refl, record { tag = ground arith; value = ground arith })

  local_inv :
      (stack : List StackFrame) (frame addr : ℕ) {w : Value}
      → local_at stack frame addr ≡ some w
      → (f : StackFrame) × (get_elem? stack frame ≡ some f) × (get_elem? f.locals addr ≡ some w)
  local_inv stack frame addr h =
      >>=-eq-some (get_elem? stack frame) (λ f. get_elem? f.locals addr) h

  var_computes :
      (used : Allocator) (r frame addr d : ℕ) (s : VirtualCore) {v : ℤ}
      → d < 255
      → addr < 2 ^ 16
      → local_int s.cur frame addr ≡ some v
      → Puts host used (set_operand (op_local_get r frame addr) 0 d ∷ []) s d v
  unfolding new_op
  var_computes used r frame addr d s hd ha e =
      let (w, p, h) = copy_holds (local_at s.cur frame addr) (s.regs d) e in
      let (f, pf, pw) = local_inv s.cur frame addr p in
      Puts-one host used (set_operand (op_local_get r frame addr) 0 d) s d
        (assign_copy (s.regs d) w) (execute-local_get host r frame addr d s hd ha pf pw) h

  load_found :
      (g : Generator) (n : Text) (r frame addr : ℕ) (bits : Allocator)
      → r < 255
      → frame < 256
      → addr < uint16_max
      → load_var r (addr == uint16_max) n frame addr (record g { regs = bits })
        ≡ some (r, full g (g.emitter.ops ++ (op_local_get r frame addr ∷ [])) bits)
  unfolding load_var emit_local_get
  load_found g n r frame addr bits hr hf ha =
      rw (not_max addr ha, u8_small r hr, small8 frame hf, small16 addr ha) refl

  pub gen_var_ref-Compiles :
      (n : Text)
      → (find_var n frames).1.1 < uint16_max
      → (find_var n frames).0 < 256
      → Compiles host frames 1
          (λ stack. local_int stack (find_var n frames).0 (find_var n frames).1.1)
          (gen_var_ref n)
  unfolding gen_var_ref load_var emit_local_get new_op is_straight
  gen_var_ref-Compiles n known near g cur zero_taken enough =
      let (r, a) = alloc-Allocates g.regs enough in
      let frame = (find_var n frames).0 in
      let addr = (find_var n frames).1.1 in
      record {
        r = r;
        init = [];
        last = op_local_get r frame addr;
        was_free = a.was_free;
        in_range = a.in_range;
        target = refl;
        result = rw a.result (
            ap
              (λ (fr : List CompilingFrame).
                load_var r ((find_var n fr).1.1 == uint16_max) n (find_var n fr).0
                  (find_var n fr).1.1 (record g { regs = set_bit r true g.regs }))
              cur
            ∙ load_found g n r frame addr (set_bit r true g.regs) a.in_range near known);
        straight = tt;
        last_straight = refl;
        computes = λ s d {v} hd ev. var_computes g.regs r frame addr d s hd (omega arith) ev;
      }
