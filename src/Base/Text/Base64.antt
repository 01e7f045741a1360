-- ===== src/Base/Text/Base64.antt =====
-- What is encoded in base64 is decoded again.
use spree.Base.Tests.{nat_beq}
use spree.Base.Words.{Bytes}
use spree.Base.Lists.{All}
use spree.Base.Text.{
  base64_char, base64_value, base64_encode, base64_decode, decode_two, decode_three, decode_four,
  decode_groups, is_nil, without_newlines,
}
use Prim.Native.Nat.{ℕ, ◌+◌, ◌*◌, ◌/◌, ◌%◌, ◌<◌}
use mathlib.Core.Path.{◌≡◌, refl, ap, ◌∙◌}
use mathlib.Core.Bool.{false, ◌||◌}
use mathlib.Core.Option.{some}
use mathlib.Core.List.{[], ◌∷◌}
use native.Mathlib.Omega.{arith}

base64_value-char : (x : ℕ) → x < 64 → base64_value (base64_char x) ≡ some x
unfolding base64_value base64_char
base64_value-char x h = ground arith

-- No character of the alphabet is a newline or the padding.
base64_char-plain :
    (x : ℕ)
    → x < 64
    → (nat_beq (base64_char x) 10 || nat_beq (base64_char x) 13 ≡ false)
      × (nat_beq (base64_char x) b'=' ≡ false)
unfolding base64_char
base64_char-plain x h = (ground arith, ground arith)

without_newlines-char :
    (x : ℕ) (cs : Bytes)
    → x < 64
    → without_newlines (base64_char x ∷ cs) ≡ base64_char x ∷ without_newlines cs
unfolding without_newlines
without_newlines-char x cs h = rw ((base64_char-plain x h).0)

no_newlines : without_newlines [] ≡ []
unfolding without_newlines
no_newlines = refl

padding_stays :
    (without_newlines (b'=' ∷ b'=' ∷ []) ≡ b'=' ∷ b'=' ∷ [])
    × (without_newlines (b'=' ∷ []) ≡ b'=' ∷ [])
unfolding without_newlines
padding_stays = (refl, refl)

one_byte : {a p : ℕ} → p ≡ a → some (p ∷ []) ≡ some (a ∷ [])
one_byte e = ap (λ x. some (x ∷ [])) e

two_bytes : {a b p q : ℕ} → p ≡ a → q ≡ b → some (p ∷ q ∷ []) ≡ some (a ∷ b ∷ [])
two_bytes e f = cc

three_bytes :
    {a b c p q r : ℕ} (rest : Bytes)
    → p ≡ a
    → q ≡ b
    → r ≡ c
    → some (p ∷ q ∷ r ∷ rest) ≡ some (a ∷ b ∷ c ∷ rest)
three_bytes rest e f g = cc

IsByte : ℕ → Type 0
IsByte b = b < 256

without_newlines-encode :
    (bs : Bytes) → All IsByte bs → without_newlines (base64_encode bs) ≡ base64_encode bs
unfolding base64_encode IsByte
without_newlines-encode [] h = no_newlines
without_newlines-encode (a ∷ []) h =
    without_newlines-char (a / 4) _ (omega arith)
    ∙ ap (λ cs. base64_char (a / 4) ∷ cs)
        (without_newlines-char (a % 4 * 16) _ (omega arith)
          ∙ ap (λ cs. base64_char (a % 4 * 16) ∷ cs) padding_stays.0)
without_newlines-encode (a ∷ b ∷ []) h =
    without_newlines-char (a / 4) _ (omega arith)
    ∙ ap (λ cs. base64_char (a / 4) ∷ cs)
        (without_newlines-char (a % 4 * 16 + b / 16) _ (omega arith)
          ∙ ap (λ cs. base64_char (a % 4 * 16 + b / 16) ∷ cs)
              (without_newlines-char (b % 16 * 4) _ (omega arith)
                ∙ ap (λ cs. base64_char (b % 16 * 4) ∷ cs) padding_stays.1))
without_newlines-encode (a ∷ b ∷ c ∷ rest) h =
    without_newlines-char (a / 4) _ (omega arith)
    ∙ ap (λ cs. base64_char (a / 4) ∷ cs)
        (without_newlines-char (a % 4 * 16 + b / 16) _ (omega arith)
          ∙ ap (λ cs. base64_char (a % 4 * 16 + b / 16) ∷ cs)
              (without_newlines-char (b % 16 * 4 + c / 64) _ (omega arith)
                ∙ ap (λ cs. base64_char (b % 16 * 4 + c / 64) ∷ cs)
                    (without_newlines-char (c % 64) _ (omega arith)
                      ∙ ap (λ cs. base64_char (c % 64) ∷ cs)
                          (without_newlines-encode rest h.1.1.1))))

decode_groups-encode : (bs : Bytes) → All IsByte bs → decode_groups (base64_encode bs) ≡ some bs
unfolding base64_encode decode_groups decode_two decode_three decode_four is_nil IsByte
decode_groups-encode [] h = refl
decode_groups-encode (a ∷ []) h =
    rw (base64_value-char (a / 4) (omega arith), base64_value-char (a % 4 * 16) (omega arith))
      (one_byte (omega arith))
decode_groups-encode (a ∷ b ∷ []) h =
    rw
      (
        (base64_char-plain (b % 16 * 4) (omega arith)).1,
        base64_value-char (a / 4) (omega arith),
        base64_value-char (a % 4 * 16 + b / 16) (omega arith),
        base64_value-char (b % 16 * 4) (omega arith),
      )
      (two_bytes (omega arith) (omega arith))
decode_groups-encode (a ∷ b ∷ c ∷ rest) h =
    rw
      (
        (base64_char-plain (c % 64) (omega arith)).1,
        base64_value-char (a / 4) (omega arith),
        base64_value-char (a % 4 * 16 + b / 16) (omega arith),
        base64_value-char (b % 16 * 4 + c / 64) (omega arith),
        base64_value-char (c % 64) (omega arith),
        decode_groups-encode rest h.1.1.1,
      )
      (three_bytes rest (omega arith) (omega arith) (omega arith))

-- Bytes that are encoded are decoded again.
pub base64_decode-encode :
    (bs : Bytes) → All (λ b. b < 256) bs → base64_decode (base64_encode bs) ≡ some bs
unfolding base64_decode IsByte
base64_decode-encode bs h =
    ap decode_groups (without_newlines-encode bs h) ∙ decode_groups-encode bs h
