-- ===== src/Base/Text.antt =====
-- The text of the standard library's `fmt` and `encoding/base64` that the program uses.
pub mod Base64
use spree.Base.Tests.{ltb, leb, if◌then◌else◌, nat_beq}
use spree.Base.Words.{Bytes, codes}
use Prim.Native.Nat.{ℕ, zero, suc, ◌+◌, ◌-◌, ◌*◌, ◌/◌, ◌%◌}
use mathlib.Core.Bool.{Bool, true, false, ◌&&◌, ◌||◌}
use mathlib.Core.Option.{Option, none, some}
use mathlib.Core.List.{List, [], ◌∷◌, ◌++◌}

-- `%d` of a uint64, which has at most 20 digits: `acc` holds those after the ones of `n`.
unfoldable pub decimal_digits : ℕ → ℕ → Bytes → Bytes
decimal_digits zero n acc = acc
decimal_digits (suc fuel) n acc =
    let rest = decimal_digits fuel (n / 10) ((48 + n % 10) ∷ acc) in
    if ltb n 10 then (48 + n % 10) ∷ acc else rest

unfoldable pub decimal : ℕ → Bytes
unfolding decimal_digits
decimal n = decimal_digits 20 n []

join_words : List Bytes → Bytes
join_words [] = []
join_words (w ∷ []) = w
join_words (w ∷ ws) = w ++ (codes " " ++ join_words ws)

-- `%v` of a []string
unfoldable pub show_strings : List Bytes → Bytes
unfolding join_words
show_strings ws = codes "[" ++ (join_words ws ++ codes "]")

-- The character of a 6-bit value in base64.StdEncoding.
pub base64_char : ℕ → ℕ
base64_char x =
    if ltb x 26
    then b'A' + x
    else if ltb x 52
    then b'a' + (x - 26)
    else if ltb x 62
    then b'0' + (x - 52)
    else if nat_beq x 62
    then b'+'
    else b'/'

pub base64_value : ℕ → Option ℕ
base64_value c =
    if leb b'A' c && leb c b'Z'
    then some (c - b'A')
    else if leb b'a' c && leb c b'z'
    then some (c - b'a' + 26)
    else if leb b'0' c && leb c b'9'
    then some (c - b'0' + 52)
    else if nat_beq c b'+'
    then some 62
    else if nat_beq c b'/'
    then some 63
    else none

-- `base64.StdEncoding.EncodeToString`
unfoldable pub base64_encode : Bytes → Bytes
unfolding base64_char
base64_encode [] = []
base64_encode (a ∷ []) = base64_char (a / 4) ∷ base64_char (a % 4 * 16) ∷ b'=' ∷ b'=' ∷ []
base64_encode (a ∷ b ∷ []) =
    base64_char (a / 4) ∷ base64_char (a % 4 * 16 + b / 16) ∷ base64_char (b % 16 * 4) ∷ b'=' ∷ []
base64_encode (a ∷ b ∷ c ∷ rest) =
    base64_char (a / 4)
    ∷ base64_char (a % 4 * 16 + b / 16)
    ∷ base64_char (b % 16 * 4 + c / 64)
    ∷ base64_char (c % 64)
    ∷ base64_encode rest

-- The bytes of the values of four characters, those of a group with two, three or four values.
decode_two : Option ℕ → Option ℕ → Option Bytes
decode_two (some p) (some q) = some ((p * 4 + q / 16) ∷ [])
decode_two _ _ = none

decode_three : Option ℕ → Option ℕ → Option ℕ → Option Bytes
decode_three (some p) (some q) (some r) = some ((p * 4 + q / 16) ∷ (q % 16 * 16 + r / 4) ∷ [])
decode_three _ _ _ = none

decode_four : Option ℕ → Option ℕ → Option ℕ → Option ℕ → Option Bytes → Option Bytes
decode_four (some p) (some q) (some r) (some t) (some rest) =
    some ((p * 4 + q / 16) ∷ (q % 16 * 16 + r / 4) ∷ (r % 4 * 64 + t) ∷ rest)
decode_four _ _ _ _ _ = none

is_nil : Bytes → Bool
is_nil [] = true
is_nil _ = false

without_newlines : Bytes → Bytes
without_newlines [] = []
without_newlines (c ∷ cs) =
    let rest = without_newlines cs in if nat_beq c 10 || nat_beq c 13 then rest else c ∷ rest

decode_groups : Bytes → Option Bytes
unfolding base64_value decode_two decode_three decode_four is_nil
decode_groups [] = some []
decode_groups (a ∷ b ∷ c ∷ d ∷ rest) =
    if nat_beq d b'=' && is_nil rest
    then (if nat_beq c b'='
        then decode_two (base64_value a) (base64_value b)
        else decode_three (base64_value a) (base64_value b) (base64_value c))
    else decode_four (base64_value a) (base64_value b) (base64_value c) (base64_value d)
        (decode_groups rest)
decode_groups _ = none

-- `base64.StdEncoding.DecodeString`; `none` is an error
unfoldable pub base64_decode : Bytes → Option Bytes
unfolding decode_groups without_newlines
base64_decode s = decode_groups (without_newlines s)
