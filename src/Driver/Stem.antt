-- ===== src/Driver/Stem.antt =====
-- tools/lm/common/file_run.cpp and compiler/generator/generator.cpp: what `substr(0,
-- find_last_of('.'))` leaves of a path.
use mylamina.Base.{
  ℕ, ◌≡◌, refl, Bool, true, false, ◌==◌, ◌||◌, [], ◌∷◌, ◌++◌, if◌then◌else◌, Text, ap, sym, arith,
  ==→eq,
}
use mathlib.Core.Path.{subst}
use mylamina.Generator.Call.{module_part, has_dot}

-- Whether a dot stands in a text.
abbrev pub dotted : Text → Bool
dotted [] = false
dotted (c ∷ cs) = c == b'.' || dotted cs

-- What stands before the last dot of a path, or the whole of a path without a dot.
pub data IsStem : Text → Text → Type 0 where
  whole : (name : Text) → dotted name ≡ false → IsStem name name
  cut : (stem ext : Text) → dotted ext ≡ false → IsStem (stem ++ (b'.' ∷ ext)) stem

has_dot-dotted : (t : Text) → has_dot t ≡ dotted t
unfolding has_dot
has_dot-dotted [] = refl
has_dot-dotted (c ∷ cs) = ap (λ b. c == b'.' || b) (has_dot-dotted cs)

module_part-whole : (t : Text) → dotted t ≡ false → module_part t ≡ t
unfolding module_part
module_part-whole [] h = refl
module_part-whole (c ∷ cs) h = ground (arith, module_part-whole cs, has_dot-dotted cs)

IsStem-step : (c : ℕ) (t stem : Text) → IsStem t stem → dotted t ≡ true → IsStem (c ∷ t) (c ∷ stem)
IsStem-step c _ _ (whole name h) e = cc
IsStem-step c _ _ (cut stem ext h) e = cut (c ∷ stem) ext h

no_dot : (c : ℕ) (t : Text) → (c == b'.') ≡ false → dotted t ≡ false → dotted (c ∷ t) ≡ false
no_dot c t h k = ground arith

IsStem-if :
    (c : ℕ) (cs : Text) (inner here : Bool)
    → IsStem cs (module_part cs)
    → dotted cs ≡ inner
    → (c == b'.') ≡ here
    → IsStem
        (c ∷ cs)
        (if inner then c ∷ module_part cs else (if here then [] else c ∷ module_part cs))
IsStem-if c cs true here ih e h = IsStem-step c cs (module_part cs) ih e
IsStem-if c cs false true ih e h =
    subst (λ d. IsStem (d ∷ cs) []) (sym (==→eq c b'.' h)) (cut [] cs e)
IsStem-if c cs false false ih e h =
    subst (λ t. IsStem (c ∷ cs) (c ∷ t)) (sym (module_part-whole cs e))
      (whole (c ∷ cs) (no_dot c cs h e))

pub module_part-IsStem : (t : Text) → IsStem t (module_part t)
unfolding module_part
module_part-IsStem [] = whole [] refl
module_part-IsStem (c ∷ cs) =
    IsStem-if c cs (has_dot cs) (c == b'.') (module_part-IsStem cs) (sym (has_dot-dotted cs)) refl
