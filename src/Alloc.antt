-- ===== src/Alloc.antt =====
-- compiler/generator/generator.cpp: `Allocator`, a bit for each of the 255 registers.
pub mod Laws
use mylamina.Base.{ℕ, zero, suc, ◌+◌, ◌-◌, ◌^◌, Bool, true, false, ◌&&◌, ◌==◌, ltb, leb}
use mylamina.Base.{if◌then◌else◌}
use mylamina.Vm.State.{reg_count, reg_count_index_max}

-- `SIZE_MAX`, which the sources also write as -1.
abbrev pub size_max : ℕ
size_max = 2 ^ 64 - 1

-- The bit of each register; those from 255 on do not exist.
abbrev pub Allocator : Type 0
Allocator = ℕ → Bool

-- `bitset.set(i)` and `bitset.reset(i)`
abbrev pub set_bit : ℕ → Bool → Allocator → Allocator
set_bit i b bitset j = if j == i then b else bitset j

-- `Allocator::Allocator()`: register 0 is taken.
unfoldable pub new_allocator : Allocator
new_allocator = set_bit 0 true (λ i. false)

-- The loop of `alloc()`, with the rounds left and the index reached.
unfoldable pub alloc_from : ℕ → ℕ → Allocator → ℕ × Allocator
alloc_from zero i bitset = (size_max, bitset)
alloc_from (suc left) i bitset =
    let rest = alloc_from left (i + 1) bitset in
    if bitset i then rest else (i, set_bit i true bitset)

unfoldable pub alloc : Allocator → ℕ × Allocator
unfolding alloc_from
alloc = alloc_from reg_count 0

-- `alloc(size_t i)`
unfoldable pub alloc_at : ℕ → Allocator → ℕ × Allocator
alloc_at i bitset = (i, set_bit i true bitset)

unfoldable pub free : ℕ → Allocator → Allocator
free i bitset =
    if ltb 0 i && leb i reg_count_index_max && bitset i then set_bit i false bitset else bitset

-- `is_free`, which answers the bit itself: true for a register that is taken.
unfoldable pub is_free : ℕ → Allocator → Bool
is_free i bitset = bitset i
