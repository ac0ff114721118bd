-- ===== src/Protocol/Bitmap.antt =====
-- include/protocol.h: the mount bitmap of STAT.
use fdc_sds_pio.Prelude.{
  ==_iff, Bool, arith, every, every-under, false, if◌then◌else◌, ltb, refl, suc, true, zero, ℕ, ◌%◌,
  ◌&&◌, ◌/◌, ◌<◌, ◌==◌, ◌^◌, ◌∙◌, ◌≡◌,
}
use fdc_sds_pio.Protocol.{status_bitmap_of}

-- Bit `i` of a word.
abbrev pub bit : ℕ → ℕ → ℕ
bit word i = word / 2 ^ i % 2

-- A flag as a bit.
abbrev pub to_bit : Bool → ℕ
to_bit b = if b then 1 else 0

-- The same four flags as a function on drive numbers.
abbrev pub flags : Bool → Bool → Bool → Bool → ℕ → Bool
flags a b c d zero = a
flags a b c d (suc zero) = b
flags a b c d (suc (suc zero)) = c
flags a b c d (suc (suc (suc zero))) = d
flags a b c d _ = false

-- Every bit of every word that four drives can give, by evaluation.
bitmap_agrees : Bool → Bool → Bool → Bool → Bool
bitmap_agrees a b c d =
    every (λ i. bit (status_bitmap_of (flags a b c d) 4) i == to_bit (flags a b c d i)) 16

bitmap_agrees_always : (a b c d : Bool) → bitmap_agrees a b c d ≡ true
unfolding bitmap_agrees status_bitmap_of every
bitmap_agrees_always true true true true = refl
bitmap_agrees_always true true true false = refl
bitmap_agrees_always true true false true = refl
bitmap_agrees_always true true false false = refl
bitmap_agrees_always true false true true = refl
bitmap_agrees_always true false true false = refl
bitmap_agrees_always true false false true = refl
bitmap_agrees_always true false false false = refl
bitmap_agrees_always false true true true = refl
bitmap_agrees_always false true true false = refl
bitmap_agrees_always false true false true = refl
bitmap_agrees_always false true false false = refl
bitmap_agrees_always false false true true = refl
bitmap_agrees_always false false true false = refl
bitmap_agrees_always false false false true = refl
bitmap_agrees_always false false false false = refl

bitmap_flags :
    (a b c d : Bool) (i : ℕ)
    → i < 16
    → bit (status_bitmap_of (flags a b c d) 4) i ≡ to_bit (flags a b c d i)
unfolding bitmap_agrees
bitmap_flags a b c d i h = (==_iff _ _).0 (
    every-under (λ i. bit (status_bitmap_of (flags a b c d) 4) i == to_bit (flags a b c d i)) 16
      (bitmap_agrees_always a b c d) i h)

-- With four drives the bitmap has bit `i` set exactly when `i` is a drive and it is mounted.
pub status_bitmap_of-bit :
    (mounted : ℕ → Bool) (i : ℕ)
    → i < 16
    → bit (status_bitmap_of mounted 4) i ≡ to_bit (ltb i 4 && mounted i)
unfolding status_bitmap_of
status_bitmap_of-bit mounted i h =
    bitmap_flags (mounted 0) (mounted 1) (mounted 2) (mounted 3) i h ∙ below i
  where
    below :
        (i : ℕ)
        → to_bit (flags (mounted 0) (mounted 1) (mounted 2) (mounted 3) i)
          ≡ to_bit (ltb i 4 && mounted i)
    below zero = refl
    below (suc zero) = refl
    below (suc (suc zero)) = refl
    below (suc (suc (suc zero))) = refl
    below (suc (suc (suc (suc i)))) = ground arith
