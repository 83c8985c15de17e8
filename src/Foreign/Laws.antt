-- ===== src/Foreign/Laws.antt =====
-- runtime/libloader.cpp: what is registered is what is called.
use mylamina.Base.{
  ℕ, zero, suc, ◌+◌, ◌-◌, ◌<◌, ◌≤◌, ◌≡◌, ◌≢◌, refl, List, [], ◌∷◌, ◌++◌, Option, none, some, Text,
  length, get_elem?, arith, lt→ltb, ◌%◌, ap, ◌∙◌,
}
use mylamina.Scope.{is_some}
use mathlib.Core.Option.{some-injective}
use mylamina.Value.{Value}
use mylamina.Vm.State.{VirtualCore, reg_count_index_max}
use mylamina.Foreign.{
  CBasicTypes, DynFunc, DynLib, Platform, arg_of, args_from, reg_before, Arg, find_func, find,
  contain, set_func,
}

-- The function that `set_func` makes of a symbol.
abbrev pub registered : ℕ → List CBasicTypes → CBasicTypes → DynFunc
registered fp args ret = record {
  func = fp;
  ret_type = ret;
  arg_count = length args % 256;
  arg_type = args;
}

find_func-append :
    (n : ℕ) (f : DynFunc) (fs : List (ℕ × DynFunc))
    → find_func n fs ≡ none
    → find_func n (fs ++ ((n, f) ∷ [])) ≡ some f
unfolding find_func
find_func-append n f [] h = ground arith
find_func-append n f ((k, g) ∷ fs) h = ground (arith, h, find_func-append n f fs)

find_func-append_ne :
    (m n : ℕ) (f : DynFunc) (fs : List (ℕ × DynFunc))
    → m ≢ n
    → find_func m (fs ++ ((n, f) ∷ [])) ≡ find_func m fs
unfolding find_func
find_func-append_ne m n f [] e = ground (arith, e)
find_func-append_ne m n f ((k, g) ∷ fs) e = ground (arith, find_func-append_ne m n f fs e)

contain-find :
    (n : ℕ) (lib : DynLib) {f : Option DynFunc} → find n lib ≡ f → contain n lib ≡ is_some f
unfolding contain
contain-find n lib e = ap is_some e

-- Where the symbol at an address is found and no function is registered for it, `set_func` registers
-- the symbol with the given types: `find` gives it for this address and what it gave for the
-- others, and another `set_func` for the address changes nothing.
pub find-set_func :
    (p : Platform) (n fp : ℕ) (text : Text) (args : List CBasicTypes) (ret : CBasicTypes)
    (lib : DynLib)
    → p.dlsym lib.handle text ≡ some fp
    → find n lib ≡ none
    → (lib' : DynLib) × (set_func p n text args ret lib ≡ some lib')
      × (find n lib' ≡ some (registered fp args ret))
      × ((m : ℕ) → m ≢ n → find m lib' ≡ find m lib)
      × ((args' : List CBasicTypes) (ret' : CBasicTypes)
          → set_func p n text args' ret' lib' ≡ some lib')
unfolding set_func find
find-set_func p n fp text args ret lib d h =
    let f = registered fp args ret in
    let there = find_func-append n f lib.funcs h in
    let lib' : DynLib = record lib { funcs = lib.funcs ++ ((n, f) ∷ []) } in
    (
      lib',
      rw (d, contain-find n lib h) refl,
      there,
      λ m e. find_func-append_ne m n f lib.funcs e,
      λ args' ret'. rw (d, contain-find n lib' there) refl,
    )

-- An argument more.
put :
    (reg : ℕ) (t : CBasicTypes) (ts : List CBasicTypes) (s : VirtualCore) {as' : List Arg} {r : ℕ}
    → reg < 255
    → args_from (reg_before reg) ts s ≡ some (as', r)
    → args_from reg (t ∷ ts) s ≡ some (arg_of t (s.regs reg) ∷ as', r)
unfolding args_from
put reg t ts s h e = rw (lt→ltb reg 255 h, e) refl

in_range :
    (ts : List CBasicTypes) (i : ℕ) {t : CBasicTypes} → get_elem? ts i ≡ some t → i < length ts
in_range [] i e = cc
in_range (t ∷ ts) zero e = omega arith
in_range (t ∷ ts) (suc i) e = omega (arith, in_range ts i e)

-- Argument `i`, from those behind the first.
nth :
    (reg : ℕ) (t : CBasicTypes) (ts : List CBasicTypes) (regs : ℕ → Value) (as' : List Arg)
    → length (t ∷ ts) ≤ reg + 1
    → reg < 255
    → ((i : ℕ) (u : CBasicTypes)
        → get_elem? ts i ≡ some u
        → get_elem? as' i ≡ some (arg_of u (regs (reg_before reg - i))))
    → (i : ℕ) (u : CBasicTypes) → get_elem? (t ∷ ts) i ≡ some u
    → get_elem? (arg_of t (regs reg) ∷ as') i ≡ some (arg_of u (regs (reg - i)))
nth reg t ts regs as' h k each zero u g =
    let e : reg ≡ reg - 0 = omega arith in
    ap (λ (x : CBasicTypes). some (arg_of x (regs reg))) (some-injective t u g)
    ∙ ap (λ (j : ℕ). some (arg_of u (regs j))) e
nth reg t ts regs as' h k each (suc i) u g =
    let small = in_range ts i g in
    let e : reg_before reg - i ≡ reg - suc i = omega (arith, h, k, small) in
    each i u g ∙ ap (λ (j : ℕ). some (arg_of u (regs j))) e

from_register :
    (ts : List CBasicTypes) (reg : ℕ) (s : VirtualCore)
    → length ts ≤ reg + 1
    → (0 < length ts → reg < 255)
    → (as' : List Arg) × (r : ℕ) × (args_from reg ts s ≡ some (as', r))
      × (length as' ≡ length ts)
      × ((i : ℕ) (t : CBasicTypes)
          → get_elem? ts i ≡ some t
          → get_elem? as' i ≡ some (arg_of t (s.regs (reg - i))))
unfolding args_from
from_register [] reg s h k = ([], reg, refl, refl, λ i t e. cc)
from_register (t ∷ ts) reg s h k =
    let small : reg < 255 = k (omega arith) in
    let (as', r, e, l, each) =
      from_register ts (reg_before reg) s (omega (arith, h, small))
        (λ z. omega (arith, h, small, z)) in
    (
      arg_of t (s.regs reg) ∷ as',
      r,
      put reg t ts s small e,
      ap suc l,
      nth reg t ts s.regs as' h small each,
    )

-- For up to 255 types the arguments are read, and argument i is register 254 - i as its type has it.
pub args_from-registers :
    (ts : List CBasicTypes) (s : VirtualCore)
    → length ts ≤ 255
    → (as' : List Arg) × (reg : ℕ) × (args_from reg_count_index_max ts s ≡ some (as', reg))
      × (length as' ≡ length ts)
      × ((i : ℕ) (t : CBasicTypes)
          → get_elem? ts i ≡ some t
          → get_elem? as' i ≡ some (arg_of t (s.regs (reg_count_index_max - i))))
args_from-registers ts s h =
    from_register ts reg_count_index_max s (omega (arith, h)) (λ z. omega arith)
