-- ===== src/Generator/Arith/Variables.antt =====
-- The frame and the address that `find_var` gives for a variable are those of its value.
use mylamina.Base.{
  ℕ, suc, ◌+◌, ◌≡◌, Bool, List, [], ◌∷◌, Option, none, some, get_elem?, ◌>>=◌, ap, ◌∙◌, ℤ, Text,
  lookup, arith,
}
use mylamina.Value.{as_i64}
use mylamina.Vm.State.{StackFrame, Host}
use mylamina.Scope.{CompilingFrame, find_var, find_var_from}
use mylamina.Generator.State.{Gen}
use mylamina.Generator.Arith.{local_int, int_of, var_value, Compiles}

-- `ss` is what stands in `stack` from `i` on.
abbrev Behind : List StackFrame → ℕ → List StackFrame → Type 0
Behind stack i ss = (k : ℕ) → get_elem? stack (i + k) ≡ get_elem? ss k

Behind-suc :
    (stack : List StackFrame) (i : ℕ) (s : StackFrame) (ss : List StackFrame)
    → Behind stack i (s ∷ ss)
    → Behind stack (i + 1) ss
Behind-suc stack i s ss h k = ap (get_elem? stack) (omega arith) ∙ h (suc k)

abbrev found_in : Text → ℕ → List CompilingFrame → Option (Bool × ℕ) → ℕ × (Bool × ℕ)
found_in n i fs o = elim o [ some l ↦ (i, l) | none ↦ find_var_from n (i + 1) fs ]

value_at :
    (stack : List StackFrame) (i a : ℕ) (s : StackFrame) (ss : List StackFrame)
    → Behind stack i (s ∷ ss)
    → local_int stack i a ≡ (do v ← get_elem? s.locals a; int_of v.type (as_i64 v))
value_at stack i a s ss h =
    ap
      (λ (q : Option StackFrame).
        (do f ← q; get_elem? f.locals a) >>= λ v. int_of v.type (as_i64 v))
      (ap (get_elem? stack) (omega arith) ∙ h 0)

found_in-value :
    (n : Text) (fs : List CompilingFrame) (ss stack : List StackFrame) (i : ℕ) (s : StackFrame)
    (o : Option (Bool × ℕ)) {v : ℤ}
    → Behind stack i (s ∷ ss)
    → (var_value n fs ss ≡ some v
        → local_int stack (find_var_from n (i + 1) fs).0 (find_var_from n (i + 1) fs).1.1 ≡ some v)
    → (elim o [
      | some (m, a) ↦ (do v ← get_elem? s.locals a; int_of v.type (as_i64 v))
      | none ↦ var_value n fs ss
    ])
      ≡ some v
    → local_int stack (found_in n i fs o).0 (found_in n i fs o).1.1 ≡ some v
found_in-value n fs ss stack i s none h ih e = ih e
found_in-value n fs ss stack i s (some (m, a)) h ih e = value_at stack i a s ss h ∙ e

find_var_from-value :
    (n : Text) (fs : List CompilingFrame) (ss stack : List StackFrame) (i : ℕ) {v : ℤ}
    → Behind stack i ss
    → var_value n fs ss ≡ some v
    → local_int stack (find_var_from n i fs).0 (find_var_from n i fs).1.1 ≡ some v
unfolding find_var_from var_value
find_var_from-value n [] ss stack i h e = cc
find_var_from-value n (f ∷ fs) [] stack i h e = cc
find_var_from-value n (f ∷ fs) (s ∷ ss) stack i h e =
    found_in-value n fs ss stack i s (lookup n f.locals) h
      (find_var_from-value n fs ss stack (i + 1) (Behind-suc stack i s ss h)) e

pub find_var-value :
    (n : Text) (frames : List CompilingFrame) (stack : List StackFrame) (v : ℤ)
    → var_value n frames stack ≡ some v
    → local_int stack (find_var n frames).0 (find_var n frames).1.1 ≡ some v
unfolding find_var
find_var-value n frames stack v e =
    find_var_from-value n frames stack stack 0 (λ k. ap (get_elem? stack) (omega arith)) e

-- Code that computes a value computes one that is defined less often.
pub Compiles-less :
    (host : Host) (frames : List CompilingFrame) (n : ℕ) (u w : List StackFrame → Option ℤ)
    (m : Gen ℕ)
    → ((stack : List StackFrame) (v : ℤ) → u stack ≡ some v → w stack ≡ some v)
    → Compiles host frames n w m
    → Compiles host frames n u m
Compiles-less host frames n u w m less c g cur z enough =
    let C = c g cur z enough in
    record {
      r = C.r;
      init = C.init;
      last = C.last;
      was_free = C.was_free;
      in_range = C.in_range;
      target = C.target;
      result = C.result;
      straight = C.straight;
      last_straight = C.last_straight;
      computes = λ s d {v} hd ev. C.computes s d hd (less s.cur v ev);
    }
