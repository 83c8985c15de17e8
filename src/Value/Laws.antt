-- ===== src/Value/Laws.antt =====
-- runtime/value/value.cpp: the operators of `Value` on each other's results.
use mylamina.Base.{
  ℕ, ◌+◌, ◌*◌, ◌/◌, ◌%◌, ◌≡◌, ◌≢◌, refl, Bool, true, false, not, List, arith, text_eq_refl, ◌==◌,
}
use mylamina.Base.{some, ◌>>=◌, ap, if◌then◌else◌, ℤ, eqb_ℤ, signed64, ==_refl}
use mylamina.Value.{
  Value, ValueType, bool, int, float, str, ptr, null, no_enum_value, copy_bits, assign_copy, Libc,
  eq_as, value_eq, ne_as, value_ne,
}

eqb_ℤ_refl : (z : ℤ) → eqb_ℤ z z ≡ true
eqb_ℤ_refl z = ==_refl _

if_self : (b : Bool) → (if b then b else not b) ≡ true
if_self true = refl
if_self false = refl

module _ (libc : Libc) (text_at : ℕ → List ℕ) where
  ne_as_lem :
      (t : ValueType) (v w : Value)
      → ne_as libc text_at t v w ≡ (do b ← eq_as libc text_at t v w; some (not b))
  unfolding ne_as eq_as
  ne_as_lem int v w = refl
  ne_as_lem float v w = refl
  ne_as_lem str v w = refl
  ne_as_lem bool v w = ground arith
  ne_as_lem ptr v w = refl
  ne_as_lem null v w = refl
  ne_as_lem no_enum_value v w = refl

  -- `operator!=` is the negation of `operator==` for all types of the two values, and one is undefined
  -- where the other is.
  pub value_ne-value_eq :
      (v w : Value) → value_ne libc text_at v w ≡ (do b ← value_eq libc text_at v w; some (not b))
  unfolding value_ne value_eq
  value_ne-value_eq v w = ne_as_lem v.type v w

  copy_eq :
      (t : ValueType) (old b : ℕ)
      → (t ≡ float → libc.f64_eq b b ≡ true)
      → (t ≡ str → b ≢ 0)
      → t ≢ no_enum_value
      → eq_as libc text_at t
          (record { type = t; bits = copy_bits t old b })
          (record { type = t; bits = b })
        ≡ some true
  unfolding eq_as copy_bits
  copy_eq int old b hf hs h = ap some (eqb_ℤ_refl (signed64 b))
  copy_eq float old b hf hs h = ap some (hf refl)
  copy_eq str old b hf hs h = ground (arith, hs refl, text_eq_refl (text_at b))
  copy_eq bool old b hf hs h =
      let low : (old / 256 * 256 + b % 256) % 256 ≡ b % 256 = omega arith in
      ap some (rw low (if_self (not (b % 256 == 0))))
  copy_eq ptr old b hf hs h = ap some (==_refl b)
  copy_eq null old b hf hs h = refl
  copy_eq no_enum_value old b hf hs h = absurd (h refl)

  -- After the assignment of w to any value v, the two are equal: `operator==` is defined and true, if w
  -- has one of the six types, is not a NaN where it is a float, and not a null pointer where it
  -- is a string.
  pub value_eq-assign_copy :
      (v w : Value)
      → (w.type ≡ float → libc.f64_eq w.bits w.bits ≡ true)
      → (w.type ≡ str → w.bits ≢ 0)
      → w.type ≢ no_enum_value
      → value_eq libc text_at (assign_copy v w) w ≡ some true
  unfolding value_eq assign_copy
  value_eq-assign_copy v w hf hs h = copy_eq w.type v.bits w.bits hf hs h
