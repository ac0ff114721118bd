-- ===== src/Wildcard/Partial.antt =====
-- The match in progress since the last star: `p` and `ss` have been consumed in step down to `pat`
-- and `str`, over no other star.
use fdc_sds_pio.Prelude.{Bytes, [], arith, length, refl, true, ℕ, ◌∷◌, ◌≡◌, ◌≢◌, ◌≤◌}
use fdc_sds_pio.Wildcard.Reference.{After, glob, next, skip}

pub data Partial (p ss : Bytes) : Bytes → Bytes → Type 0 where
  start : Partial p ss p ss
  step :
      {a c : ℕ} {pat str : Bytes}
      → Partial p ss (a ∷ pat) (c ∷ str)
      → a ≢ b'*'
      → Partial p ss pat str

After-tail : {d : ℕ} {t s : Bytes} → After (d ∷ t) s → After t s
After-tail (next e) = skip (rw (← e) (next refl))
After-tail (skip a) = skip (After-tail a)

After-step : {d c : ℕ} {t s : Bytes} → After (d ∷ t) (c ∷ s) → After t s
After-step (next e) = rw (← e) (next refl)
After-step (skip a) = After-tail a

glob_step :
    (a : ℕ) (pat t : Bytes) {c : ℕ} {str : Bytes}
    → a ≢ b'*'
    → After t (c ∷ str)
    → glob (a ∷ pat) t ≡ true
    → (u : Bytes) × After u str × (glob pat u ≡ true)
unfolding glob
glob_step a pat [] ne af h = absurd (ground arith)
glob_step a pat (d ∷ u) ne af h = (u, After-step af, ground arith)

-- A later attempt at `p` is a later attempt at what is left of it.
pub Partial-After :
    {p ss pat str : Bytes} (t : Bytes)
    → Partial p ss pat str
    → After t ss
    → glob p t ≡ true
    → (u : Bytes) × After u str × (glob pat u ≡ true)
Partial-After t start a h = (t, a, h)
Partial-After t (step {a = b} {pat = q} m ne) a h =
    let (u, au, g) = Partial-After t m a h in glob_step b q u ne au g

pub Partial-length : {p ss pat str : Bytes} → Partial p ss pat str → length str ≤ length ss
Partial-length start = omega arith
Partial-length (step m ne) = omega (arith, Partial-length m)
