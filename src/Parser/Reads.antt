-- ===== src/Parser/Reads.antt =====
-- Runs of the parser that read the tokens in front of it and change nothing but its position.
use mylamina.Base.{ℕ, zero, suc, ◌+◌, ◌-◌, ◌≡◌, refl, Bool, true, false, List, [], ◌∷◌}
use mylamina.Base.{some, arith, sym, ap, ◌∙◌, length, drop, get_or, get_elem?, not, ◌||◌}
use mylamina.Base.{if◌then◌else◌}
use mylamina.Lexer.{TokenType, comment, unknown, Token}
use mylamina.Parser.State.{
  same_type, ParserState, ParseError, parsed, Parse, and_then, ◌>>=◌, return, cur, match,
  advance_within, advance, text, on, require, alert_eof,
}

abbrev pub goto : ℕ → ParserState → ParserState
goto q s = record s { pos = q }

-- The parser stands in front of these tokens.
abbrev pub At : ParserState → List Token → Type 0
At s ts = drop s.pos s.tokens ≡ ts

-- `p` gives `a` and stands in front of `rest` then.
pub record Reads {ℓ} {A : Type ℓ} (p : Parse A) (s : ParserState) (a : A) (rest : List Token)
    : Type ℓ where
  pub stop : ℕ
  pub result : p s ≡ parsed a (goto stop s)
  pub left : drop stop s.tokens ≡ rest

-- Tokens that `advance` stops at.
abbrev pub is_plain : Token → Bool
is_plain t = not (same_type t.type comment || same_type t.type unknown)

module _ {ℓ} {A : Type ℓ} where
  get_or-drop :
      (n : ℕ) (l : List A) (d : A) {t : A} {ts : List A} → drop n l ≡ t ∷ ts → get_or l n d ≡ t
  get_or-drop zero [] d h = cc
  get_or-drop (suc n) [] d h = cc
  get_or-drop zero (x ∷ xs) d h = cc
  get_or-drop (suc n) (x ∷ xs) d h = get_or-drop n xs d h

  pub get_elem?-drop :
      (n : ℕ) (l : List A) {t : A} {ts : List A} → drop n l ≡ t ∷ ts → get_elem? l n ≡ some t
  get_elem?-drop zero [] h = cc
  get_elem?-drop (suc n) [] h = cc
  get_elem?-drop zero (x ∷ xs) h = cc
  get_elem?-drop (suc n) (x ∷ xs) h = get_elem?-drop n xs h

  drop-suc : (n : ℕ) (l : List A) {t : A} {ts : List A} → drop n l ≡ t ∷ ts → drop (suc n) l ≡ ts
  drop-suc zero [] h = cc
  drop-suc (suc n) [] h = cc
  drop-suc zero (x ∷ xs) h = cc
  drop-suc (suc n) (x ∷ xs) h = drop-suc n xs h

  pub drop-next :
      (n : ℕ) (l : List A) {t : A} {ts : List A} → drop n l ≡ t ∷ ts → drop (n + 1) l ≡ ts
  drop-next n l h =
      let e : n + 1 ≡ suc n = omega arith in ap (λ (k : ℕ). drop k l) e ∙ drop-suc n l h

  pub length-drop : (n : ℕ) (l : List A) → length (drop n l) ≡ length l - n
  length-drop zero l = omega arith
  length-drop (suc n) [] = omega arith
  length-drop (suc n) (x ∷ xs) = length-drop n xs ∙ omega arith

pub cur-At : (s : ParserState) {t : Token} {ts : List Token} → At s (t ∷ ts) → cur s ≡ t
cur-At s h = get_or-drop s.pos s.tokens s.back h

pub plain_inv :
    (t : Token)
    → is_plain t ≡ true
    → (same_type t.type comment ≡ false) × (same_type t.type unknown ≡ false)
plain_inv t h = (ground arith, ground arith)

-- `advance` onto a plain token.
pub advance-At :
    (s : ParserState) {t u : Token} {ts : List Token}
    → At s (t ∷ u ∷ ts)
    → is_plain u ≡ true
    → advance s ≡ parsed tt (goto (s.pos + 1) s)
unfolding advance advance_within
advance-At s {t} {u} {ts} h plain =
    let many : length s.tokens - s.pos ≡ suc (suc (length ts)) =
      sym (length-drop s.pos s.tokens) ∙ ap length h in
    let here : cur (goto (s.pos + 1) s) ≡ u =
      cur-At (goto (s.pos + 1) s) (drop-next s.pos s.tokens h) in
    let (c, k) = plain_inv u plain in ap (λ n. advance_within n s) many ∙ rw (here, c, k) refl

module _ {ℓ} {A : Type ℓ} where
  pub Reads-return : (s : ParserState) (a : A) {ts : List Token} → At s ts → Reads (return a) s a ts
  Reads-return s a h = record { stop = s.pos; result = refl; left = h }

  pub Reads-bind {κ} :
      {B : Type κ} (m : Parse A) (f : A → Parse B) (s : ParserState) {a : A} {b : B}
      {mid rest : List Token}
      → Reads m s a mid
      → ((q : ℕ) → At (goto q s) mid → Reads (f a) (goto q s) b rest)
      → Reads (m >>= f) s b rest
  Reads-bind m f s {a} r k =
      let r' = k r.stop r.left in
      record {
        stop = r'.stop;
        result = ap (λ x. and_then x f) r.result ∙ r'.result;
        left = r'.left;
      }

  -- A test that comes out true, or false.
  pub Reads-if :
      (b : ParserState → Bool) (p q : Parse A) (s : ParserState) {a : A} {rest : List Token}
      → b s ≡ true
      → Reads p s a rest
      → Reads (λ s. if b s then p s else q s) s a rest
  Reads-if b p q s e r = record { stop = r.stop; result = rw e r.result; left = r.left }

  pub Reads-else :
      (b : ParserState → Bool) (p q : Parse A) (s : ParserState) {a : A} {rest : List Token}
      → b s ≡ false
      → Reads q s a rest
      → Reads (λ s. if b s then p s else q s) s a rest
  Reads-else b p q s e r = record { stop = r.stop; result = rw e r.result; left = r.left }

  pub on-true :
      (ty : TokenType) (p q : Parse A) (s : ParserState) {t : Token} {ts : List Token} {a : A}
      {rest : List Token}
      → At s (t ∷ ts)
      → same_type t.type ty ≡ true
      → Reads p s a rest
      → Reads (on ty p q) s a rest
  on-true ty p q s h e r =
      Reads-if (match ty) p q s (ap (λ (t : Token). same_type t.type ty) (cur-At s h) ∙ e) r

  pub on-false :
      (ty : TokenType) (p q : Parse A) (s : ParserState) {t : Token} {ts : List Token} {a : A}
      {rest : List Token}
      → At s (t ∷ ts)
      → same_type t.type ty ≡ false
      → Reads q s a rest
      → Reads (on ty p q) s a rest
  on-false ty p q s h e r =
      Reads-else (match ty) p q s (ap (λ (t : Token). same_type t.type ty) (cur-At s h) ∙ e) r

  -- A step whose end is known exactly.
  pub Reads-exact {κ} :
      {B : Type κ} (m : Parse A) (f : A → Parse B) (s : ParserState) (q : ℕ) {a : A} {b : B}
      {rest : List Token}
      → m s ≡ parsed a (goto q s)
      → Reads (f a) (goto q s) b rest
      → Reads (m >>= f) s b rest
  Reads-exact m f s q e r = record {
    stop = r.stop;
    result = ap (λ x. and_then x f) e ∙ r.result;
    left = r.left;
  }

-- `alert_eof` in front of a token that is not the last one.
pub Reads-alert_eof :
    (e : ParseError) (s : ParserState) {t u : Token} {ts : List Token}
    → At s (t ∷ u ∷ ts)
    → Reads (alert_eof e) s tt (t ∷ u ∷ ts)
Reads-alert_eof e s {t} {u} {ts} h = record {
  stop = s.pos;
  result =
      let many : length s.tokens - s.pos ≡ suc (suc (length ts)) =
        sym (length-drop s.pos s.tokens) ∙ ap length h in
      ground (arith, many);
  left = h;
}

pub Reads-text :
    (s : ParserState) {t : Token} {ts : List Token} → At s (t ∷ ts) → Reads text s t.text (t ∷ ts)
Reads-text s h = record { stop = s.pos; result = rw (cur-At s h) refl; left = h }

pub Reads-advance :
    (s : ParserState) {t u : Token} {ts : List Token}
    → At s (t ∷ u ∷ ts)
    → is_plain u ≡ true
    → Reads advance s tt (u ∷ ts)
Reads-advance s h plain = record {
  stop = s.pos + 1;
  result = advance-At s h plain;
  left = drop-next s.pos s.tokens h;
}

pub Reads-require :
    (ty : TokenType) (e : ParseError) (s : ParserState) {t : Token} {ts : List Token}
    → At s (t ∷ ts)
    → same_type t.type ty ≡ true
    → Reads (require ty e) s tt (t ∷ ts)
Reads-require ty e s h m = record { stop = s.pos; result = rw (cur-At s h, m) refl; left = h }
