-- ===== src/Base/Digits.antt =====
-- The digits of a number, as `printf` and `std::format` write them.
use Prim.Native.Nat.{ℕ, zero, suc, ◌+◌, ◌-◌, ◌*◌, ◌/◌, ◌%◌, ◌^◌, ◌<◌}
use mathlib.Core.Path.{◌≡◌, refl}
use mathlib.Core.Bool.{Bool, true, false}
use mathlib.Core.List.{[], ◌∷◌, ◌++◌}
use native.Mathlib.Omega.{arith}
use mylamina.Base.Tests.{ltb, if◌then◌else◌}
use mylamina.Base.Texts.{Text}

abbrev digit : ℕ → ℕ
digit d = if ltb d 10 then d + b'0' else d - 10 + b'a'

abbrev digit_value : ℕ → ℕ
digit_value c = if ltb c b'a' then c - b'0' else c - b'a' + 10

-- At most `k` digits, without leading zeros.
unfoldable pub dec_digits : ℕ → ℕ → Text
dec_digits zero n = []
dec_digits (suc k) n =
    let rest = dec_digits k (n / 10) in
    if ltb n 10 then digit n ∷ [] else rest ++ (digit (n % 10) ∷ [])

unfoldable pub hex_digits : ℕ → ℕ → Text
hex_digits zero n = []
hex_digits (suc k) n =
    let rest = hex_digits k (n / 16) in
    if ltb n 16 then digit n ∷ [] else rest ++ (digit (n % 16) ∷ [])

-- The texts of a number below 2 ^ 64.
abbrev pub dec_text : ℕ → Text
dec_text n = dec_digits 20 n

abbrev pub hex_text : ℕ → Text
hex_text n = hex_digits 16 n

-- The number that digits to the base 16 stand for.
unfoldable pub hex_value : Text → ℕ → ℕ
hex_value [] acc = acc
hex_value (c ∷ cs) acc = hex_value cs (acc * 16 + digit_value c)

hex_value-append :
    (a : Text) (c acc : ℕ) → hex_value (a ++ (c ∷ [])) acc ≡ hex_value a acc * 16 + digit_value c
unfolding hex_value
hex_value-append [] c acc = refl
hex_value-append (x ∷ a) c acc = hex_value-append a c (acc * 16 + digit_value x)

digit_value-digit : (d : ℕ) → d < 16 → digit_value (digit d) ≡ d
digit_value-digit d h = ground (arith, h)

hex_digits_step :
    (n : ℕ) (rest : Text)
    → hex_value rest 0 ≡ n / 16
    → (b : Bool) → ltb n 16 ≡ b
    → hex_value (if b then digit n ∷ [] else rest ++ (digit (n % 16) ∷ [])) 0 ≡ n
unfolding hex_value
hex_digits_step n rest q true e = omega (arith, digit_value-digit n (ground (arith, e)))
hex_digits_step n rest q false e =
    omega
      (arith, q, hex_value-append rest (digit (n % 16)) 0, digit_value-digit (n % 16) (omega arith))

pub hex_value-hex_digits : (k n : ℕ) → n < 16 ^ k → hex_value (hex_digits k n) 0 ≡ n
unfolding hex_value hex_digits
hex_value-hex_digits zero n h = omega (arith, h)
hex_value-hex_digits (suc k) n h =
    let e : 16 ^ suc k ≡ 16 * 16 ^ k = omega arith in
    hex_digits_step n (hex_digits k (n / 16))
      (hex_value-hex_digits k (n / 16) (omega (arith, h, e))) (ltb n 16) refl
