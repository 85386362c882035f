-- ===== src/Prelude/Bytes.antt =====
-- Little-endian machine words in a byte buffer. A byte is its unsigned value; a fixed-width signed
-- integer is its bit pattern. A read past the end of the list gives 0 here: the models that use
-- these reads test the length first, as the code does.
use Prim.Native.Nat.{ℕ, ◌+◌, ◌*◌, ◌/◌, ◌%◌, ◌^◌, ◌≤◌, ◌<◌}
use mathlib.Core.Path.{◌≡◌}
use mathlib.Core.List.{List, [], ◌∷◌, ◌++◌}
use native.Mathlib.Omega.{arith}
use upzp_game_process.Prelude.Lists.{get_or, length, get_or-append}

abbrev pub byte_at : List ℕ → ℕ → ℕ
byte_at buffer i = get_or buffer i 0

abbrev pub u16_at : List ℕ → ℕ → ℕ
u16_at buffer i = byte_at buffer i + 256 * byte_at buffer (i + 1)

abbrev pub u32_at : List ℕ → ℕ → ℕ
u32_at buffer i =
    byte_at buffer i
    + 256 * byte_at buffer (i + 1)
    + 65536 * byte_at buffer (i + 2)
    + 16777216 * byte_at buffer (i + 3)

abbrev pub le16 : ℕ → List ℕ
le16 v = (v % 256) ∷ (v / 256 % 256) ∷ []

abbrev pub le32 : ℕ → List ℕ
le32 v = (v % 256) ∷ (v / 256 % 256) ∷ (v / 65536 % 256) ∷ (v / 16777216 % 256) ∷ []

pub u16_at-le16 : (v : ℕ) → u16_at (le16 v) 0 ≡ v % 2 ^ 16
u16_at-le16 v = omega arith

pub u32_at-le32 : (v : ℕ) → u32_at (le32 v) 0 ≡ v % 2 ^ 32
u32_at-le32 v = omega arith

-- Bytes added behind the buffer do not change a read inside it.
pub byte_at-append : (xs ys : List ℕ) (i : ℕ) → i < length xs → byte_at (xs ++ ys) i ≡ byte_at xs i
byte_at-append xs ys i h = get_or-append xs ys i 0 h

pub u16_at-append : (xs ys : List ℕ) (i : ℕ) → i + 2 ≤ length xs → u16_at (xs ++ ys) i ≡ u16_at xs i
u16_at-append xs ys i h =
    rw (byte_at-append xs ys i (omega arith), byte_at-append xs ys (i + 1) (omega arith))

pub u32_at-append : (xs ys : List ℕ) (i : ℕ) → i + 4 ≤ length xs → u32_at (xs ++ ys) i ≡ u32_at xs i
u32_at-append xs ys i h = rw (
  byte_at-append xs ys i (omega arith),
  byte_at-append xs ys (i + 1) (omega arith),
  byte_at-append xs ys (i + 2) (omega arith),
  byte_at-append xs ys (i + 3) (omega arith),
)
