-- ===== src/Generator/Arith/Correct.antt =====
-- The code of `sub_gen` for the whole of an integer expression.
use mylamina.Base.{ℕ, suc, ◌<◌, ◌≤◌, ◌≡◌, refl, true, false, List, []}
use mylamina.Base.{◌∷◌, ◌++◌, Option, some, arith, sym, ◌∙◌, ap, ℤ, pos, Text}
use mylamina.Base.{◌>>=◌}
use Prim.Native.Nat.{max}
use mathlib.Core.Path.{subst}
use mylamina.Opcode.{Op, Opcode, add, sub, mul, div, mod_op, operand, set_operand, new_op}
use mylamina.Emit.{op_regs}
use mylamina.Vm.State.{VirtualCore, StackFrame, Host}
use mylamina.Vm.Steps.{arith64}
use mylamina.Vm.Straight.{is_straight, IsStraight-append}
use mylamina.Vm.Effects.{is_arith, execute-arith64, arith64-fits64}
use mylamina.Alloc.{Allocator, set_bit}
use mylamina.Alloc.Laws.{alloc-Allocates, free_count, free_count-set_bit}
use mylamina.Scope.{CompilingFrame, find_var}
use mylamina.Ast.{Node, num_literal, var_ref, unary, binary}
use mylamina.Generator.State.{Gen}
use mylamina.Generator.Expr.{operator, is_pipe, gen_num, gen_var_ref, gen_unary, gen_binary}
use mylamina.Generator.Tree.{sub_gen, gen_pipe_call}
use mylamina.Generator.Arith.{
  full, Compiles, minus, Puts, apply2, apply2_inv, IsArith, need, eval, var_value, local_int,
}
use mylamina.Generator.Arith.Meaning.{meaning, IsOperator-Realised}
use mylamina.Generator.Arith.Steps.{taken_free, result_free}
use mylamina.Generator.Arith.Operators.{zero_stays, gen_binary_lem}
use mylamina.Generator.Arith.Code.{Puts-two}
use mylamina.Generator.Arith.Leaves.{gen_num-Compiles, gen_var_ref-Compiles}
use mylamina.Generator.Arith.Variables.{find_var-value, Compiles-less}
use mylamina.Generator.Arith.Unary.{gen_unary-Compiles}

module _ (host : Host) (frames : List CompilingFrame) where
  -- The registers that `gen_binary` asks for, one after the other, are there.
  one_fewer :
      (bits : Allocator) (r n : ℕ)
      → suc n ≤ free_count bits
      → r < 255
      → bits r ≡ false
      → n ≤ free_count (set_bit r true bits)
  one_fewer bits r n h hr f = omega (arith, free_count-set_bit r bits hr f)

  straight_op :
      (o : Opcode) (r a b : ℕ) → is_arith o ≡ true → is_straight (op_regs o r a b).op ≡ true
  unfolding is_straight new_op
  straight_op add r a b h = refl
  straight_op sub r a b h = refl
  straight_op mul r a b h = refl
  straight_op div r a b h = refl
  straight_op mod_op r a b h = refl
  straight_op _ r a b h = cc

  op_target : (o : Opcode) (r a b : ℕ) → operand (op_regs o r a b) 0 ≡ r
  unfolding new_op
  op_target o r a b = refl

  binary_computes :
      (o : Opcode) (bits : Allocator) (c1 c2 : List Op) (t1 t2 r d : ℕ) (s : VirtualCore)
      {a b v : ℤ}
      → is_arith o ≡ true
      → bits t1 ≡ false
      → set_bit t1 true bits t2 ≡ false
      → t1 < 255
      → t2 < 255
      → d < 255
      → Puts host (set_bit t1 true bits) c1 s t1 a
      → ((s1 : VirtualCore) → s1.cur ≡ s.cur → Puts host (set_bit t1 true bits) c2 s1 t2 b)
      → arith64 o a b ≡ some v
      → Puts host bits ((c1 ++ c2) ++ (set_operand (op_regs o r t1 t2) 0 d ∷ [])) s d v
  unfolding new_op
  binary_computes o bits c1 c2 t1 t2 r d s {a} {b} ho f1 f2 h1 h2 hd P1 P2 e =
      Puts-two host bits (set_operand (op_regs o r t1 t2) 0 d) c1 c2 t1 t2 d s f1 f2 P1 P2
        (λ s2 ea eb. execute-arith64 host o r t1 t2 d s2 ho h1 h2 hd ea eb e)
        (arith64-fits64 o a b e)

  gen_binary-Compiles :
      (o : Opcode) (op : Text) (n1 n2 : ℕ) (v1 v2 : List StackFrame → Option ℤ)
      (left right call : Gen ℕ) (f : ℤ → ℤ → Option ℤ)
      → ((x y v : ℤ) → f x y ≡ some v → arith64 o x y ≡ some v)
      → operator op ≡ some o
      → is_arith o ≡ true
      → is_pipe op ≡ false
      → Compiles host frames n1 v1 left
      → Compiles host frames n2 v2 right
      → Compiles host frames
          (suc (max n1 (max n2 3)))
          (λ stack. apply2 f (v1 stack) (v2 stack))
          (gen_binary left right call op)
  gen_binary-Compiles o op n1 n2 v1 v2 left right call f agrees eo ho np c1 c2 g cur z enough =
      let (t1, a1) = alloc-Allocates g.regs (omega arith) in
      let bits1 = set_bit t1 true g.regs in
      let z1 = zero_stays t1 g.regs z in
      let room = one_fewer g.regs t1 (max n1 (max n2 3)) enough a1.in_range a1.was_free in
      let L = c1 (record g { regs = bits1 }) cur z1 (omega arith) in
      let code1 : List Op = L.init ++ (set_operand L.last 0 t1 ∷ []) in
      let R = c2 (full g (g.emitter.ops ++ code1) bits1) cur z1 (omega arith) in
      let room2 = one_fewer bits1 R.r 2 (omega arith) R.in_range R.was_free in
      let (t2, a2) = alloc-Allocates (set_bit R.r true bits1) (omega arith) in
      let (f2, ne2) = taken_free bits1 R.r t2 a2.was_free in
      let room3 = one_fewer bits1 t2 2 (omega arith) a2.in_range f2 in
      let (r, a) = alloc-Allocates (set_bit t2 true bits1) (omega arith) in
      let code2 : List Op = R.init ++ (set_operand R.last 0 t2 ∷ []) in
      record {
        r = r;
        init = code1 ++ code2;
        last = op_regs o r t1 t2;
        was_free = result_free g.regs t1 t2 r a.was_free;
        in_range = a.in_range;
        target = op_target o r t1 t2;
        result =
            gen_binary_lem g z o op call left right t1 t2 r L.r R.r L.init R.init L.last R.last eo
              np a1
              (record {
                was_free = L.was_free;
                in_range = L.in_range;
                target = L.target;
                result = L.result;
              })
              (record {
                was_free = R.was_free;
                in_range = R.in_range;
                target = R.target;
                result = R.result;
              })
              a2 a;
        straight =
            IsStraight-append code1 code2
              (IsStraight-append L.init (set_operand L.last 0 t1 ∷ []) L.straight
                (L.last_straight, tt))
              (IsStraight-append R.init (set_operand R.last 0 t2 ∷ []) R.straight
                (R.last_straight, tt));
        last_straight = straight_op o r t1 t2 ho;
        computes = λ s d {v} hd ev.
            let (x, y, ex, ey, e) = apply2_inv f (v1 s.cur) (v2 s.cur) ev in
            binary_computes o g.regs code1 code2 t1 t2 r d s ho a1.was_free f2 a1.in_range
              a2.in_range hd (L.computes s t1 a1.in_range ex)
              (λ s1 q. R.computes s1 t2 a2.in_range (ap v2 q ∙ ey)) (agrees x y v e);
      }

  -- Every integer expression compiles, in as many registers as `need` says.
  pub sub_gen-Compiles :
      (c : Text → Gen ℕ) (e : Node)
      → IsArith frames e
      → Compiles host frames (need e) (λ stack. eval frames stack e) (sub_gen c e)
  unfolding sub_gen eval need
  sub_gen-Compiles c (num_literal t) (n, h) =
      subst (λ (q : Option ℕ). Compiles host frames 1 (λ _. q >>= λ n. some (pos n)) (gen_num t))
        (sym h) (gen_num-Compiles host frames t h)
  sub_gen-Compiles c (var_ref n) (known, near) =
      Compiles-less host frames 1 (λ stack. var_value n frames stack)
        (λ stack. local_int stack (find_var n frames).0 (find_var n frames).1.1) (gen_var_ref n)
        (λ stack v e. find_var-value n frames stack v e)
        (gen_var_ref-Compiles host frames n known near)
  sub_gen-Compiles c (unary op e) (h, ha) =
      subst
        (λ (q : Text).
          Compiles host frames (max (need e) 2) (λ stack. minus (eval frames stack e))
            (gen_unary q (sub_gen c e)))
        (sym h)
        (gen_unary-Compiles host frames (need e) (λ stack. eval frames stack e) (sub_gen c e)
          (sub_gen-Compiles c e ha))
  sub_gen-Compiles c (binary l r op) (h, hl, hr) =
      let R = IsOperator-Realised op h in
      gen_binary-Compiles R.o op (need l) (need r) (λ stack. eval frames stack l)
        (λ stack. eval frames stack r) (sub_gen c l) (sub_gen c r) (gen_pipe_call c r) (meaning op)
        R.agrees R.found R.arith_op R.no_pipe (sub_gen-Compiles c l hl) (sub_gen-Compiles c r hr)
  sub_gen-Compiles c _ h = absurd h
