-- ===== src/Prelude/Bits.antt =====
-- `|` on words whose bits do not overlap, by evaluation over the ranges that the program uses.
use Prim.Native.Nat.{ℕ, zero, suc, ◌+◌, ◌*◌, ◌^◌, ◌<◌, bit_or}
use mathlib.Core.Path.{◌≡◌, refl}
use mathlib.Core.Bool.{Bool, true, false}
use native.Mathlib.Omega.{arith}
use fdc_sds_pio.Prelude.Tests.{◌==◌, ==_iff, if◌then◌else◌}

-- The test passes at every number under `count`.
unfoldable pub every : (ℕ → Bool) → ℕ → Bool
every test zero = true
every test (suc count) = let rest = every test count in if test count then rest else false

pub every-under :
    (test : ℕ → Bool) (count : ℕ) → every test count ≡ true → (i : ℕ) → i < count → test i ≡ true
unfolding every
every-under test zero passed i under = absurd (omega arith)
every-under test (suc count) passed i under =
    ground (arith, every-under test count (ground (arith, passed)) i, passed)

abbrev or_is_plus : ℕ → ℕ → Bool
or_is_plus high low = bit_or low (high * 2 ^ 8) == low + high * 256

bytes_table : every (λ high. every (or_is_plus high) 256) 256 ≡ true
unfolding every
bytes_table = refl

-- `lo | hi << 8` is the word with these bytes.
pub bit_or_bytes : (lo hi : ℕ) → lo < 256 → hi < 256 → bit_or lo (hi * 2 ^ 8) ≡ lo + hi * 256
bit_or_bytes lo hi low high =
    let row = every-under (λ h. every (or_is_plus h) 256) 256 bytes_table hi high in
    (==_iff _ _).0 (every-under (or_is_plus hi) 256 row lo low)
