-- ===== src/Base/Scan.antt =====
-- `fmt.Sscanf` with a format of literal text and one `%d` of a uint64.
use spree.Base.Tests.{ltb, leb, if◌then◌else◌, if_cases, nat_beq, ltb→lt}
use spree.Base.Words.{Bytes, u64_mod}
use spree.Base.Text.{decimal, decimal_digits}
use Prim.Native.Nat.{ℕ, zero, suc, ◌+◌, ◌-◌, ◌*◌, ◌/◌, ◌%◌, ◌<◌}
use mathlib.Core.Path.{◌≡◌, refl, ap, sym, ◌∙◌}
use mathlib.Core.Bool.{Bool, true, false, ◌&&◌, ◌||◌}
use mathlib.Core.Option.{Option, none, some}
use mathlib.Core.List.{[], ◌∷◌, ◌++◌}
use native.Mathlib.Omega.{arith}

abbrev is_digit : ℕ → Bool
is_digit c = leb b'0' c && leb c b'9'

-- The value of the digits at the front, after those of `v`.
abbrev scan_digits : Bytes → ℕ → ℕ
scan_digits [] v = v
scan_digits (c ∷ cs) v =
    let more = scan_digits cs (10 * v + (c - b'0')) in if is_digit c then more else v

-- Spaces before a number are skipped.
abbrev skip_space : Bytes → Bytes
skip_space [] = []
skip_space (c ∷ cs) =
    let rest = skip_space cs in if nat_beq c b' ' || nat_beq c 9 then rest else c ∷ cs

abbrev scan_number : Bytes → Option ℕ
scan_number [] = none
scan_number (c ∷ cs) =
    let v = scan_digits (c ∷ cs) 0 in if is_digit c && ltb v u64_mod then some v else none

-- What follows the literal text.
abbrev after_text : Bytes → Bytes → Option Bytes
after_text [] key = some key
after_text (c ∷ cs) [] = none
after_text (c ∷ cs) (d ∷ ds) = let rest = after_text cs ds in if nat_beq c d then rest else none

abbrev scan_rest : Option Bytes → Option ℕ
scan_rest none = none
scan_rest (some rest) = scan_number (skip_space rest)

-- `fmt.Sscanf(key, text + "%d", &n)`: `none` is an error
unfoldable pub scan_after : Bytes → Bytes → Option ℕ
scan_after text key = scan_rest (after_text text key)

abbrev pow10 : ℕ → ℕ
pow10 zero = 1
pow10 (suc k) = 10 * pow10 k

digit_is : (d : ℕ) → d < 10 → is_digit (48 + d) ≡ true
digit_is d h = ground arith

scan_digit :
    (d v : ℕ) (acc : Bytes) → d < 10 → scan_digits ((48 + d) ∷ acc) v ≡ scan_digits acc (10 * v + d)
scan_digit d v acc h =
    let same : 10 * v + (48 + d - 48) ≡ 10 * v + d = omega arith in
    if_cases (λ r. r ≡ scan_digits acc (10 * v + d)) (is_digit (48 + d)) _ _
      (λ y. ap (scan_digits acc) same) (λ n. absurd (ground arith))

scan_digits-decimal_digits :
    (fuel n : ℕ) (acc : Bytes)
    → n < pow10 fuel
    → scan_digits (decimal_digits fuel n acc) 0 ≡ scan_digits acc n
unfolding decimal_digits
scan_digits-decimal_digits zero n acc h = ap (scan_digits acc) (omega arith)
scan_digits-decimal_digits (suc fuel) n acc h =
    if_cases (λ ds. scan_digits ds 0 ≡ scan_digits acc n) (ltb n 10) _ _
      (λ small.
        scan_digit (n % 10) 0 acc (omega arith)
        ∙ ap (scan_digits acc) (omega (arith, ltb→lt n 10 small)))
      (λ big.
        scan_digits-decimal_digits fuel (n / 10) ((48 + n % 10) ∷ acc) (omega arith)
        ∙ scan_digit (n % 10) (n / 10) acc (omega arith)
        ∙ ap (scan_digits acc) (omega arith))

-- The first character that is written is a digit.
StartsWithDigit : Bytes → Type 0
StartsWithDigit ds = (c : ℕ) × (cs : Bytes) × (ds ≡ c ∷ cs) × (is_digit c ≡ true)

decimal_digits-start :
    (fuel n : ℕ) (acc : Bytes) → StartsWithDigit acc → StartsWithDigit (decimal_digits fuel n acc)
unfolding decimal_digits StartsWithDigit
decimal_digits-start zero n acc h = h
decimal_digits-start (suc fuel) n acc h =
    let d : is_digit (48 + n % 10) ≡ true = digit_is (n % 10) (omega arith) in
    if_cases StartsWithDigit (ltb n 10) _ _ (λ y. (48 + n % 10, acc, refl, d))
      (λ z. decimal_digits-start fuel (n / 10) ((48 + n % 10) ∷ acc) (48 + n % 10, acc, refl, d))

decimal-start : (n : ℕ) → StartsWithDigit (decimal n)
unfolding decimal decimal_digits StartsWithDigit
decimal-start n =
    let d : is_digit (48 + n % 10) ≡ true = digit_is (n % 10) (omega arith) in
    if_cases StartsWithDigit (ltb n 10) _ _ (λ y. (48 + n % 10, [], refl, d))
      (λ z. decimal_digits-start 19 (n / 10) ((48 + n % 10) ∷ []) (48 + n % 10, [], refl, d))

fits_not :
    (c : ℕ) (cs : Bytes) (n : ℕ)
    → is_digit c ≡ true
    → scan_digits (c ∷ cs) 0 ≡ n
    → n < u64_mod
    → (is_digit c && ltb (scan_digits (c ∷ cs) 0) u64_mod) ≡ false
    → ⊥
fits_not c cs n d v b = go (scan_digits (c ∷ cs) 0) v
  where
    go : (m : ℕ) → m ≡ n → (is_digit c && ltb m u64_mod) ≡ false → ⊥
    go m e f = ground arith

scan_number-digits :
    (c : ℕ) (cs : Bytes) (n : ℕ)
    → is_digit c ≡ true
    → scan_digits (c ∷ cs) 0 ≡ n
    → n < u64_mod
    → scan_number (skip_space (c ∷ cs)) ≡ some n
scan_number-digits c cs n d v b =
    if_cases (λ r. scan_number r ≡ some n) (nat_beq c b' ' || nat_beq c 9) _ _
      (λ space. absurd (ground arith))
      (λ other.
        if_cases (λ r. r ≡ some n) (is_digit c && ltb (scan_digits (c ∷ cs) 0) u64_mod) _ _
          (λ fits. ap some v) (λ big. absurd (fits_not c cs n d v b big)))

after_text-append : (text rest : Bytes) → after_text text (text ++ rest) ≡ some rest
after_text-append [] rest = refl
after_text-append (c ∷ cs) rest = ground (arith, after_text-append cs rest)

-- A number that is printed after a text is scanned back.
pub scan_after-decimal :
    (text : Bytes) (n : ℕ) → n < u64_mod → scan_after text (text ++ decimal n) ≡ some n
unfolding scan_after decimal StartsWithDigit
scan_after-decimal text n h =
    let (c, cs, e, d) = decimal-start n in
    let v = scan_digits-decimal_digits 20 n [] (omega arith) in
    ap scan_rest (after_text-append text (decimal n))
    ∙ ap (λ ds. scan_number (skip_space ds)) e
    ∙ scan_number-digits c cs n d (ap (λ ds. scan_digits ds 0) (sym e) ∙ v) h
