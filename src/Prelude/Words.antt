-- ===== src/Prelude/Words.antt =====
-- Rust's fixed-width integers as natural numbers, and their little-endian bytes. `u64` and `usize`
-- are 64 bits wide.
use Prim.Native.Nat.{ℕ, zero, suc, ◌+◌, ◌-◌, ◌*◌, ◌/◌, ◌%◌, ◌^◌, ◌≤◌, ◌<◌}
use mathlib.Core.Path.{◌≡◌, refl, ap}
use mathlib.Core.List.{List, [], ◌∷◌}
use mathlib.Core.Option.{Option, none, some}
use native.Mathlib.Omega.{arith}
use durable_actors.Prelude.Tests.{ltb, leb, if◌then◌else◌}
use durable_actors.Prelude.Lists.{length, All}

abbrev pub u32_mod : ℕ
u32_mod = 2 ^ 32

abbrev pub u64_mod : ℕ
u64_mod = 2 ^ 64

-- `a.checked_add(b)` on u64 and usize.
abbrev pub checked_add : ℕ → ℕ → Option ℕ
checked_add a b = if ltb (a + b) u64_mod then some (a + b) else none

-- `a.checked_sub(b)`
abbrev pub checked_sub : ℕ → ℕ → Option ℕ
checked_sub a b = if leb b a then some (a - b) else none

-- `a.saturating_add(b)` on u64.
abbrev pub saturating_add : ℕ → ℕ → ℕ
saturating_add a b = if ltb (a + b) u64_mod then a + b else u64_mod - 1

-- `u32::try_from(n).ok()`
abbrev pub to_u32 : ℕ → Option ℕ
to_u32 n = if ltb n u32_mod then some n else none

abbrev pub IsByte : ℕ → Type 0
IsByte b = b < 256

-- The `w` low bytes, the lowest first, and the number that such bytes stand for.
abbrev pub to_le_bytes : ℕ → ℕ → List ℕ
to_le_bytes zero n = []
to_le_bytes (suc w) n = (n % 256) ∷ to_le_bytes w (n / 256)

abbrev pub from_le_bytes : List ℕ → ℕ
from_le_bytes [] = 0
from_le_bytes (b ∷ bs) = b + 256 * from_le_bytes bs

pub length-to_le_bytes : (w n : ℕ) → length (to_le_bytes w n) ≡ w
length-to_le_bytes zero n = refl
length-to_le_bytes (suc w) n = ap suc (length-to_le_bytes w (n / 256))

pub to_le_bytes-IsByte : (w n : ℕ) → All IsByte (to_le_bytes w n)
to_le_bytes-IsByte zero n = tt
to_le_bytes-IsByte (suc w) n = (omega arith, to_le_bytes-IsByte w (n / 256))

pub from_le_bytes-to_u32 : (n : ℕ) → n < u32_mod → from_le_bytes (to_le_bytes 4 n) ≡ n
from_le_bytes-to_u32 n h = omega arith

pub from_le_bytes-to_u64 : (n : ℕ) → n < u64_mod → from_le_bytes (to_le_bytes 8 n) ≡ n
from_le_bytes-to_u64 n h = omega arith

pub to_le_bytes-from :
    (bs : List ℕ) → All IsByte bs → to_le_bytes (length bs) (from_le_bytes bs) ≡ bs
to_le_bytes-from [] h = refl
to_le_bytes-from (b ∷ bs) h =
    let low : (b + 256 * from_le_bytes bs) % 256 ≡ b = omega arith in
    let high : (b + 256 * from_le_bytes bs) / 256 ≡ from_le_bytes bs = omega arith in
    rw (low, high, to_le_bytes-from bs h.1)

pub from_le_bytes-lt_u32 :
    (bs : List ℕ) → length bs ≡ 4 → All IsByte bs → from_le_bytes bs < u32_mod
from_le_bytes-lt_u32 (a ∷ b ∷ c ∷ d ∷ []) e h = omega arith
from_le_bytes-lt_u32 [] e h = absurd (omega arith)
from_le_bytes-lt_u32 (a ∷ []) e h = absurd (omega arith)
from_le_bytes-lt_u32 (a ∷ b ∷ []) e h = absurd (omega arith)
from_le_bytes-lt_u32 (a ∷ b ∷ c ∷ []) e h = absurd (omega arith)
from_le_bytes-lt_u32 (a ∷ b ∷ c ∷ d ∷ f ∷ r) e h = absurd (omega arith)

pub checked_add_fits : (a b : ℕ) → a + b < u64_mod → checked_add a b ≡ some (a + b)
checked_add_fits a b fits = ground (arith, fits)

pub checked_sub_fits : (a b : ℕ) → b ≤ a → checked_sub a b ≡ some (a - b)
checked_sub_fits a b fits = ground (arith, fits)
