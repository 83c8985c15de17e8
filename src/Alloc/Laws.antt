-- ===== src/Alloc/Laws.antt =====
-- What `alloc` and `free` do to the set of registers that are taken.
use mylamina.Base.{ℕ, zero, suc, ◌+◌, ◌<◌, ◌≤◌, ◌≡◌, ◌≢◌, refl, Bool, true, false}
use mylamina.Base.{if◌then◌else◌, arith, Bool-cases, ◌⊎◌, inl, inr}
use mathlib.Core.Path.{fun_ext}
use mylamina.Vm.State.{reg_count}
use mylamina.Alloc.{Allocator, set_bit, alloc_from, alloc, free}

-- How many of the registers `i`, …, `i + left - 1` are free.
unfoldable pub free_from : ℕ → ℕ → Allocator → ℕ
free_from zero i bits = 0
free_from (suc left) i bits =
    let rest = free_from left (i + 1) bits in if bits i then rest else suc rest

unfoldable pub free_count : Allocator → ℕ
unfolding free_from
free_count = free_from reg_count 0

-- `alloc` found register `r`: it was free and exists, and only its bit has changed.
pub record Allocates (bits : Allocator) (r : ℕ) : Type 0 where
  pub was_free : bits r ≡ false
  pub in_range : r < reg_count
  pub result : alloc bits ≡ (r, set_bit r true bits)

alloc_from_finds :
    (left i : ℕ) (bits : Allocator)
    → 0 < free_from left i bits
    → (r : ℕ) × (bits r ≡ false)
      × (i ≤ r)
      × (r < i + left)
      × (alloc_from left i bits ≡ (r, set_bit r true bits))
unfolding alloc_from free_from
alloc_from_finds zero i bits h = absurd (omega arith)
alloc_from_finds (suc left) i bits h = elim (Bool-cases (bits i)) [
  | inl taken ↦
      let (r, f, lo, hi, e) = alloc_from_finds left (i + 1) bits (rw taken at h) in
      (r, f, omega arith, omega arith, rw taken e)
  | inr here ↦ (i, here, omega arith, omega arith, rw here)
]

pub alloc-Allocates : (bits : Allocator) → 0 < free_count bits → (r : ℕ) × Allocates bits r
unfolding alloc free_count
alloc-Allocates bits h =
    let (r, f, lo, hi, e) = alloc_from_finds reg_count 0 bits h in
    (r, record { was_free = f; in_range = omega arith; result = e })

free_from-set_bit_out :
    (left i r : ℕ) (b : Bool) (bits : Allocator)
    → (r < i) ⊎ (i + left ≤ r)
    → free_from left i (set_bit r b bits) ≡ free_from left i bits
unfolding free_from
free_from-set_bit_out zero i r b bits h = refl
free_from-set_bit_out (suc left) i r b bits h =
    ground (arith, free_from-set_bit_out left (i + 1) r b bits)

free_from-set_bit :
    (left i r : ℕ) (bits : Allocator)
    → i ≤ r
    → r < i + left
    → bits r ≡ false
    → free_from left i bits ≡ suc (free_from left i (set_bit r true bits))
unfolding free_from
free_from-set_bit zero i r bits lo hi h = absurd (omega arith)
free_from-set_bit (suc left) i r bits lo hi h =
    ground
      (arith, free_from-set_bit left (i + 1) r bits, free_from-set_bit_out left (i + 1) r true bits)

-- Setting the bit of a free register below 255 leaves one free register fewer.
pub free_count-set_bit :
    (r : ℕ) (bits : Allocator)
    → r < reg_count
    → bits r ≡ false
    → free_count bits ≡ suc (free_count (set_bit r true bits))
unfolding free_count
free_count-set_bit r bits hi h = free_from-set_bit reg_count 0 r bits (omega arith) hi h

-- Giving back what was just taken restores the bits.
pub free-set_bit :
    (r : ℕ) (bits : Allocator)
    → 0 < r
    → r < reg_count
    → bits r ≡ false
    → free r (set_bit r true bits) ≡ bits
unfolding free
free-set_bit r bits lo hi h = fun_ext λ j. ground arith

-- `free` on a set that holds `r` and a later one.
pub free-set_bit_other :
    (r q : ℕ) (bits : Allocator)
    → 0 < r
    → r < reg_count
    → bits r ≡ false
    → q ≢ r
    → free r (set_bit q true (set_bit r true bits)) ≡ set_bit q true bits
unfolding free
free-set_bit_other r q bits lo hi h ne = fun_ext λ j. ground arith

pub pos_of_free : (r : ℕ) (bits : Allocator) → bits 0 ≡ true → bits r ≡ false → 0 < r
pos_of_free zero bits taken h = cc
pos_of_free (suc r) bits taken h = omega arith

pub ne_of_free : (r q : ℕ) (bits : Allocator) → bits r ≡ false → bits q ≡ true → q ≢ r
ne_of_free r q bits f t e = cc

-- If register 0 is taken and a register is free, `alloc` gives a free register and sets its bit alone,
-- and `free` of that register restores the bits.
pub alloc-free :
    (bits : Allocator)
    → bits 0 ≡ true
    → 0 < free_count bits
    → (r : ℕ) × (bits r ≡ false)
      × (alloc bits ≡ (r, set_bit r true bits))
      × (free r (set_bit r true bits) ≡ bits)
alloc-free bits taken h =
    let (r, a) = alloc-Allocates bits h in
    (
      r,
      a.was_free,
      a.result,
      free-set_bit r bits (pos_of_free r bits taken a.was_free) a.in_range a.was_free,
    )
