-- ===== src/Scope.antt =====
-- compiler/generator/generator.hpp: `CompilingFrame` and the lookup of variables.
-- The stack of frames is a list with the innermost frame first; a frame's map is an association
-- list. 16-bit addresses wrap.
pub mod Laws
use mylamina.Base.{ℕ, suc, ◌+◌, ◌-◌, ◌%◌, ◌^◌, Bool, true, false, ◌||◌, List, [], ◌∷◌}
use mylamina.Base.{Option, none, some, ◌==◌, ltb, if◌then◌else◌, length, get_elem?, set}
use mylamina.Base.{Text, lookup, insert}
use mylamina.Alloc.{size_max}

abbrev pub uint16_max : ℕ
uint16_max = 0xffff

-- name ↦ (mutable, address)
abbrev pub Locals : Type 0
Locals = List (Text × (Bool × ℕ))

pub record CompilingFrame : Type 0 where
  pub name : Text
  pub locals : Locals
  pub local_count : ℕ

-- `CompilingFrame(name)`: `local_count` is `(uint16_t)-1`.
unfoldable pub new_compiling_frame : Text → CompilingFrame
new_compiling_frame name = record { name = name; locals = []; local_count = uint16_max }

-- `contains`
abbrev pub is_some {ℓ} : {A : Type ℓ} → Option A → Bool
is_some none = false
is_some (some a) = true

-- `new_var(n, is_mut, addr)`: the frame, `local_count`, and whether the name was free.
unfoldable pub new_var_at : Text → Bool → ℕ → CompilingFrame → CompilingFrame × ℕ × Bool
new_var_at n is_mut addr f =
    if is_some (lookup n f.locals)
    then (f, f.local_count, false)
    else let count =
        if ltb f.local_count addr || f.local_count == uint16_max then addr else f.local_count in
      (record f { locals = insert n (is_mut, addr) f.locals; local_count = count }, count, true)

-- `new_var(n, is_mut)`: `++local_count` comes first.
unfoldable pub new_var : Text → Bool → CompilingFrame → CompilingFrame × ℕ × Bool
unfolding new_var_at
new_var n is_mut f =
    let addr = (f.local_count + 1) % 2 ^ 16 in
    new_var_at n is_mut addr (record f { local_count = addr })

-- `find_var`: the number of frames up, and what the frame's map holds.
unfoldable pub find_var_from : Text → ℕ → List CompilingFrame → ℕ × (Bool × ℕ)
find_var_from n i [] = (size_max, (false, uint16_max))
find_var_from n i (f ∷ fs) = elim (lookup n f.locals) [
  | some l ↦ (i, l)
  | none ↦ find_var_from n (i + 1) fs
]

unfoldable pub find_var : Text → List CompilingFrame → ℕ × (Bool × ℕ)
unfolding find_var_from
find_var n = find_var_from n 0

-- `cur[i]->locals[n].second`: `cur` counts from the outermost frame, and `operator[]` puts the pair
-- (false, 0) there for a missing name.
unfoldable pub index_frame :
    Text → ℕ → List CompilingFrame → CompilingFrame → ℕ × List CompilingFrame
index_frame n i cur f = elim (lookup n f.locals) [
  | some (m, a) ↦ (a, cur)
  | none ↦ (0, set cur i (record f { locals = insert n (false, 0) f.locals }))
]

unfoldable pub index_var : Text → ℕ → List CompilingFrame → Option (ℕ × List CompilingFrame)
unfolding index_frame
index_var n i cur = elim (get_elem? cur (length cur - 1 - i)) [
  | none ↦ none
  | some f ↦ some (index_frame n (length cur - 1 - i) cur f)
]
