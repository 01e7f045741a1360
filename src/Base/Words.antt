-- ===== src/Base/Words.antt =====
-- Go's `uint64` arithmetic, with its wrap-around, and Go strings as lists of bytes.
use Prim.Native.Nat.{ℕ, ◌+◌, ◌-◌, ◌*◌, ◌%◌, ◌^◌, ◌≤◌, ◌<◌}
use mathlib.Core.Path.{◌≡◌}
use native.Mathlib.Omega.{arith}
use Prim.Native.Char.{code}
use Prim.Native.String.{String}
use mathlib.Core.List.{List, [], ◌∷◌}

abbrev pub u64_mod : ℕ
u64_mod = 2 ^ 64

abbrev pub add64 : ℕ → ℕ → ℕ
add64 a b = (a + b) % u64_mod

abbrev pub sub64 : ℕ → ℕ → ℕ
sub64 a b = (a + u64_mod - b) % u64_mod

abbrev pub mul64 : ℕ → ℕ → ℕ
mul64 a b = (a * b) % u64_mod

-- A `[]byte` or a `string`.
abbrev pub Bytes : Type 0
Bytes = List ℕ

-- The bytes of an ASCII literal.
abbrev pub codes : String → Bytes
codes String.[] = []
codes (String.◌∷◌ first rest) = code first ∷ codes rest

-- Where nothing wraps round, the operations are those of the numbers.
pub add64-small : (a b : ℕ) → a + b < u64_mod → add64 a b ≡ a + b
add64-small a b h = omega arith

pub sub64-small : (a b : ℕ) → b ≤ a → a < u64_mod → sub64 a b ≡ a - b
sub64-small a b h l = omega arith

pub sub64-wrap : (a b : ℕ) → a < b → b < u64_mod → sub64 a b ≡ a + u64_mod - b
sub64-wrap a b h l = omega arith
