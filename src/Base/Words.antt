-- ===== src/Base/Words.antt =====
-- Bytes and machine words: a w-bit integer is a native number below 2 ^ w, wrapped by `%`; the
-- little-endian accessors of sys/nio.c (`put_u16le`, `put_u32le`, `get_u16le`, `get_u32le`).
use Prim.Native.Nat.{ℕ, ◌+◌, ◌*◌, ◌/◌, ◌%◌, ◌<◌}
use mathlib.Core.Path.{◌≡◌}
use mathlib.Core.List.{List, [], ◌∷◌, ◌++◌}
use native.Mathlib.Omega.{arith}
use fujinet_msdos.Base.Lists.{get_or}

abbrev pub Bytes : Type 0
Bytes = List ℕ

abbrev pub IsByte : ℕ → Type 0
IsByte b = b < 256

abbrev pub AllBytes : Bytes → Type 0
AllBytes [] = Unit {0}
AllBytes (b ∷ bs) = IsByte b × AllBytes bs

abbrev pub u8 : ℕ → ℕ
u8 n = n % 256

abbrev pub u16 : ℕ → ℕ
u16 n = n % 65536

abbrev pub u32 : ℕ → ℕ
u32 n = n % 4294967296

unfoldable pub put_u16le : ℕ → Bytes
put_u16le v = (v % 256) ∷ (v / 256 % 256) ∷ []

unfoldable pub put_u32le : ℕ → Bytes
put_u32le v = (v % 256) ∷ (v / 256 % 256) ∷ (v / 65536 % 256) ∷ (v / 16777216 % 256) ∷ []

-- The bits of the summands are apart, so `|` is `+`.
unfoldable pub get_u16le : Bytes → ℕ → ℕ
get_u16le p i = get_or p i 0 + get_or p (i + 1) 0 * 256

unfoldable pub get_u32le : Bytes → ℕ → ℕ
get_u32le p i =
    get_or p i 0
    + get_or p (i + 1) 0 * 256
    + get_or p (i + 2) 0 * 65536
    + get_or p (i + 3) 0 * 16777216

-- A 16-bit value survives the wire.
pub get-put_u16le : (v : ℕ) (rest : Bytes) → v < 65536 → get_u16le (put_u16le v ++ rest) 0 ≡ v
unfolding get_u16le put_u16le
get-put_u16le v rest h = omega arith

-- A 32-bit value survives the wire.
pub get-put_u32le : (v : ℕ) (rest : Bytes) → v < 4294967296 → get_u32le (put_u32le v ++ rest) 0 ≡ v
unfolding get_u32le put_u32le
get-put_u32le v rest h = omega arith
