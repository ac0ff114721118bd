-- ===== src/Wildcard/Reference.antt =====
-- What a glob means: a star stands for any run of characters, so some suffix matches what follows it.
use fdc_sds_pio.Prelude.{
  Bool, Bool-cases, Bytes, [], ap, arith, false, if◌then◌else◌, inl, inr, refl, true, ℕ, ◌&&◌, ◌==◌,
  ◌||◌, ◌∷◌, ◌≡◌, ◌≢◌,
}
use fdc_sds_pio.Wildcard.{only_stars, same_char}

unfoldable pub any_suffix : (Bytes → Bool) → Bytes → Bool
any_suffix f [] = f []
any_suffix f (c ∷ s) = f (c ∷ s) || any_suffix f s

abbrev pub match_head : ℕ → (Bytes → Bool) → Bytes → Bool
match_head a f [] = false
match_head a f (c ∷ s) = same_char a c && f s

abbrev pub is_empty : Bytes → Bool
is_empty [] = true
is_empty (_ ∷ _) = false

unfoldable pub glob : Bytes → Bytes → Bool
glob [] s = is_empty s
glob (a ∷ p) s = if a == b'*' then any_suffix (glob p) s else match_head a (glob p) s

-- No character of the name is a star.
abbrev pub NoStar : Bytes → Type 0
NoStar [] = Unit {0}
NoStar (c ∷ s) = (c ≢ b'*') × NoStar s

-- `t` is what is left of `s` after one character or more.
pub data After (t : Bytes) : Bytes → Type 0 where
  next : {c : ℕ} {s : Bytes} → t ≡ s → After t (c ∷ s)
  skip : {c : ℕ} {s : Bytes} → After t s → After t (c ∷ s)

pub any_suffix-After :
    (f : Bytes → Bool) {t : Bytes} (s : Bytes) → After t s → f t ≡ true → any_suffix f s ≡ true
unfolding any_suffix
any_suffix-After f [] a h = elim a [ ]
any_suffix-After f (c ∷ []) (next e) h = ground (arith, ap f e)
any_suffix-After f (c ∷ d ∷ s) (next e) h = ground (arith, ap f e)
any_suffix-After f (c ∷ s) (skip a) h = ground (arith, any_suffix-After f s a h)

pub After-any_suffix :
    (f : Bytes → Bool) (c : ℕ) (s : Bytes)
    → any_suffix f s ≡ true
    → (t : Bytes) × After t (c ∷ s) × (f t ≡ true)
unfolding any_suffix
After-any_suffix f c [] h = ([], next refl, h)
After-any_suffix f c (d ∷ s) h = elim (Bool-cases (f (d ∷ s))) [
  | inl here ↦ (d ∷ s, next refl, here)
  | inr later ↦ let (t, a, e) = After-any_suffix f d s (ground arith) in (t, skip a, e)
]

pub only_stars-glob : (p : Bytes) → glob p [] ≡ only_stars p
unfolding glob only_stars any_suffix
only_stars-glob [] = refl
only_stars-glob (a ∷ p) = ground (arith, only_stars-glob p)
