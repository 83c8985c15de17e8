-- ===== src/Scope/Laws.antt =====
-- compiler/generator/generator.hpp: `new_var`, `find_var` and `cur[i]` on each other's frames.
use mylamina.Base.{ℕ, suc, ◌+◌, ◌-◌, ◌%◌, ◌^◌, ◌<◌, ◌≡◌, ◌≢◌, refl, Bool, true, false, List, []}
use mylamina.Base.{◌∷◌, ◌++◌, Option, none, some, length, get_elem?, set, arith}
use mylamina.Base.{
  Text, text_eq, lookup, insert, lookup-insert_self, lookup-insert_ne, text_eq→eq, Bool-cases, ◌⊎◌,
  inl, inr, sym, ◌∙◌, ap, length-append,
}
use mylamina.Scope.{
  uint16_max, CompilingFrame, new_var_at, new_var, find_var_from, find_var, index_frame, index_var,
}

-- The address that the next variable gets.
abbrev pub next_address : CompilingFrame → ℕ
next_address f = (f.local_count + 1) % 2 ^ 16

-- The frame that a declaration leaves.
abbrev pub declared : Text → Bool → CompilingFrame → CompilingFrame
declared n is_mut f = record f {
  locals = insert n (is_mut, next_address f) f.locals;
  local_count = next_address f;
}

pub new_var_lem :
    (n : Text) (is_mut : Bool) (f : CompilingFrame)
    → lookup n f.locals ≡ none
    → new_var n is_mut f ≡ (declared n is_mut f, next_address f, true)
unfolding new_var new_var_at
new_var_lem n is_mut f h = rw h (ground arith)

pub find_var-declared :
    (n : Text) (is_mut : Bool) (f : CompilingFrame) (fs : List CompilingFrame)
    → find_var n (declared n is_mut f ∷ fs) ≡ (0, (is_mut, next_address f))
unfolding find_var find_var_from
find_var-declared n is_mut f fs =
    rw (find_var, find_var_from, lookup-insert_self n (is_mut, next_address f) f.locals) refl

-- A name that the innermost frame does not have is declared there with the next address: it is then
-- found in frame 0 with its mutability and that address, and every name with another text is found
-- where it was.
pub find_var-new_var :
    (n : Text) (is_mut : Bool) (f : CompilingFrame) (fs : List CompilingFrame)
    → lookup n f.locals ≡ none
    → (f' : CompilingFrame) × (new_var n is_mut f ≡ (f', next_address f, true))
      × (find_var n (f' ∷ fs) ≡ (0, (is_mut, next_address f)))
      × ((m : Text) → text_eq n m ≡ false → find_var m (f' ∷ fs) ≡ find_var m (f ∷ fs))
unfolding find_var find_var_from
find_var-new_var n is_mut f fs h = (
  declared n is_mut f,
  new_var_lem n is_mut f h,
  rw (find_var, find_var_from, lookup-insert_self n (is_mut, next_address f) f.locals) refl,
  λ m d.
      rw (find_var, find_var_from, lookup-insert_ne n m (is_mut, next_address f) f.locals d) refl,
)

-- The addresses in use are below the next one.
pub record IsPacked (f : CompilingFrame) : Type 0 where
  pub bounded :
      (n : Text) (is_mut : Bool) (a : ℕ) → lookup n f.locals ≡ some (is_mut, a) → a < next_address f

lookup-declared :
    (n : Text) (is_mut : Bool) (f : CompilingFrame) (m : Text) (b : Bool) (a : ℕ)
    → lookup m (declared n is_mut f).locals ≡ some (b, a)
    → (a ≡ next_address f) ⊎ (lookup m f.locals ≡ some (b, a))
lookup-declared n is_mut f m b a e = elim (Bool-cases (text_eq n m)) [
  | inl t ↦ inl (cc (lookup-insert_self n (is_mut, next_address f) f.locals, text_eq→eq n m t, e))
  | inr d ↦ inr (sym (lookup-insert_ne n m (is_mut, next_address f) f.locals d) ∙ e)
]

declared-bounded :
    (n : Text) (is_mut : Bool) (f : CompilingFrame)
    → IsPacked f
    → next_address f < uint16_max
    → (m : Text) (b : Bool) (a : ℕ) → lookup m (declared n is_mut f).locals ≡ some (b, a)
    → a < next_address (declared n is_mut f)
declared-bounded n is_mut f packed room m b a e = elim (lookup-declared n is_mut f m b a e) [
  | inl q ↦ omega arith
  | inr q ↦ let lt = packed.bounded m b a q in omega arith
]

-- In a frame whose addresses are all below the next one, with the next one below 65535, the
-- declaration of a name that the frame does not have gives the next address, which no variable of the
-- frame has, and the new frame's addresses are all below its next one.
pub new_var-IsPacked :
    (n : Text) (is_mut : Bool) (f : CompilingFrame)
    → IsPacked f
    → lookup n f.locals ≡ none
    → next_address f < uint16_max
    → (f' : CompilingFrame) × (new_var n is_mut f ≡ (f', next_address f, true))
      × IsPacked f'
      × ((m : Text) (b : Bool) (a : ℕ) → lookup m f.locals ≡ some (b, a) → a ≢ next_address f)
new_var-IsPacked n is_mut f packed h room = (
  declared n is_mut f,
  new_var_lem n is_mut f h,
  record { bounded = declared-bounded n is_mut f packed room },
  λ m b a e. let lt = packed.bounded m b a e in omega arith,
)

set-append_length :
    (a : List CompilingFrame) (g h : CompilingFrame)
    → set (a ++ (g ∷ [])) (length a) h ≡ a ++ (h ∷ [])
set-append_length [] g h = refl
set-append_length (x ∷ xs) g h = ap (λ l. x ∷ l) (set-append_length xs g h)

get_last_frame :
    (a : List CompilingFrame) (g : CompilingFrame) → get_elem? (a ++ (g ∷ [])) (length a) ≡ some g
get_last_frame [] g = refl
get_last_frame (x ∷ xs) g = get_last_frame xs g

last_index :
    (a : List CompilingFrame) (g : CompilingFrame) → length (a ++ (g ∷ [])) - 1 - 0 ≡ length a
last_index a g = rw (length-append a (g ∷ [])) (omega arith)

index_var_lem :
    (n : Text) (i : ℕ) (cur : List CompilingFrame) (k : ℕ) (f : CompilingFrame)
    → length cur - 1 - i ≡ k
    → get_elem? cur k ≡ some f
    → index_var n i cur ≡ some (index_frame n k cur f)
unfolding index_var
index_var_lem n i cur k f hk hf = rw (index_var, hk, hf, hk) refl

index_frame_none :
    (n : Text) (k : ℕ) (cur : List CompilingFrame) (g : CompilingFrame)
    → lookup n g.locals ≡ none
    → Path
        (Option (ℕ × List CompilingFrame))
        (some (index_frame n k cur g))
        (some (0, set cur k (record g { locals = insert n (false, 0) g.locals })))
unfolding index_frame
index_frame_none n k cur g h = rw (index_frame, h) refl

-- For a variable of the innermost frame `find_var` gives the frame number 0, and the address that
-- an assignment reads through `cur[0]` is that of the outermost frame: if the outermost frame has no
-- variable of that name, the address is 0 whatever the variable's own address is, and the outermost
-- frame gets an immutable variable of that name.
pub index_var-outermost :
    (n : Text) (is_mut : Bool) (a : ℕ) (f g : CompilingFrame) (fs : List CompilingFrame)
    → lookup n f.locals ≡ some (is_mut, a)
    → lookup n g.locals ≡ none
    → (find_var n (f ∷ (fs ++ (g ∷ []))) ≡ (0, (is_mut, a)))
      × (index_var n 0 (f ∷ (fs ++ (g ∷ [])))
          ≡ some (0, f ∷ (fs ++ (record g { locals = insert n (false, 0) g.locals } ∷ []))))
unfolding find_var find_var_from index_var index_frame
index_var-outermost n is_mut a f g fs hf hg = (
  rw (find_var, find_var_from, hf) refl,
  index_var_lem n 0 (f ∷ (fs ++ (g ∷ []))) (suc (length fs)) g (last_index (f ∷ fs) g)
        (get_last_frame fs g)
      ∙ index_frame_none n (suc (length fs)) (f ∷ (fs ++ (g ∷ []))) g hg
      ∙ ap (λ (l : List CompilingFrame). some (0, f ∷ l)) (set-append_length fs g _),
)

-- With one frame the address of an assignment is the variable's own.
pub index_var-single :
    (n : Text) (is_mut : Bool) (a : ℕ) (f : CompilingFrame)
    → lookup n f.locals ≡ some (is_mut, a)
    → index_var n 0 (f ∷ []) ≡ some (a, f ∷ [])
unfolding index_var index_frame
index_var-single n is_mut a f h =
    index_var_lem n 0 (f ∷ []) 0 f refl refl ∙ rw (index_frame, h) refl
