-- ===== src/Wildcard/Correct.antt =====
-- include/wildcard.h: the loop against the glob, and its fuel.
use fdc_sds_pio.Prelude.{
  ==_iff, Bool, Bool-cases, Bytes, [], ap, arith, false, inl, inr, length, none, refl, some, suc,
  true, zero, ℕ, ◌&&◌, ◌*◌, ◌+◌, ◌<◌, ◌==◌, ◌||◌, ◌∙◌, ◌∷◌, ◌≡◌, ◌≢◌, ◌≤◌,
}
use fdc_sds_pio.Wildcard.{match_loop, same_char, tolower, wildcard_match_ci}
use fdc_sds_pio.Wildcard.Reference.{
  After, After-any_suffix, NoStar, any_suffix, glob, next, only_stars-glob, skip,
}
use fdc_sds_pio.Wildcard.Partial.{Partial, Partial-After, Partial-length, start, step}

mul_mono : (a b m : ℕ) → a ≤ b → a * m ≤ b * m
mul_mono a b m h = grind arith

any_suffix_unfold :
    (f : Bytes → Bool) (c : ℕ) (s : Bytes) → any_suffix f (c ∷ s) ≡ (f (c ∷ s) || any_suffix f s)
unfolding any_suffix
any_suffix_unfold f c s = refl

any_suffix-lift :
    (f : Bytes → Bool) {t : Bytes} (s : Bytes)
    → After t s
    → any_suffix f t ≡ true
    → any_suffix f s ≡ true
any_suffix-lift f [] a h = elim a [ ]
any_suffix-lift f (c ∷ s) (next e) h = ground (arith, any_suffix_unfold f c s, ap (any_suffix f) e)
any_suffix-lift f (c ∷ s) (skip a) h =
    ground (arith, any_suffix_unfold f c s, any_suffix-lift f s a h)

-- The later places where the text after the last star may still match.
abbrev alts : Bytes → Bytes → Bool
alts p [] = false
alts p (x ∷ ss) = any_suffix (glob p) ss

alts_unfold : (p ss : Bytes) → any_suffix (glob p) ss ≡ (glob p ss || alts p ss)
unfolding any_suffix
alts_unfold p [] = ground arith
alts_unfold p (x ∷ ss) = refl

alts_later :
    (p ss : Bytes) {pat str : Bytes}
    → Partial p ss pat str
    → alts p ss ≡ true
    → (u : Bytes) × After u str × (glob pat u ≡ true)
alts_later p [] m h = absurd (ground arith)
alts_later p (x ∷ ss) m h =
    let (t, a, e) = After-any_suffix (glob p) x ss h in Partial-After t m a e

alts_end : (p ss : Bytes) {pat : Bytes} → Partial p ss pat [] → alts p ss ≡ false
alts_end p ss m = elim (Bool-cases (alts p ss)) [
  | inl h ↦ let (u, a, e) = alts_later p ss m h in elim a [ ]
  | inr h ↦ h
]

-- A new star makes the places of the old one superfluous.
alts_star :
    (p ss : Bytes) {a : ℕ} {pat str : Bytes}
    → Partial p ss (a ∷ pat) str
    → a ≡ b'*'
    → alts p ss ≡ true
    → any_suffix (glob pat) str ≡ true
unfolding glob
alts_star p ss {a} {pat} {str} m e h =
    let (u, af, g) = alts_later p ss m h in any_suffix-lift (glob pat) str af (ground arith)

glob_star : (a : ℕ) (pat s : Bytes) → a ≡ b'*' → glob (a ∷ pat) s ≡ any_suffix (glob pat) s
unfolding glob
glob_star a pat s e = ground arith

glob_char :
    (a c : ℕ) (pat s : Bytes) → a ≢ b'*' → glob (a ∷ pat) (c ∷ s) ≡ (same_char a c && glob pat s)
unfolding glob
glob_char a c pat s e = ground arith

star_not_same : (a c : ℕ) → c ≢ b'*' → same_char a c ≡ true → a ≢ b'*'
unfolding same_char tolower
star_not_same a c ne h e = ground arith

Partial-NoStar : {p ss pat str : Bytes} → Partial p ss pat str → NoStar ss → NoStar str
Partial-NoStar start h = h
Partial-NoStar (step m ne) h = (Partial-NoStar m h).1

Partial-length_pat : {p ss pat str : Bytes} → Partial p ss pat str → length pat ≤ length p
Partial-length_pat start = omega arith
Partial-length_pat (step m ne) = omega (arith, Partial-length_pat m)

-- Under a star the first place and the later ones make up the whole search.
star_join :
    (a c : ℕ) (pat str : Bytes) (old : Bool)
    → a ≡ b'*'
    → (old ≡ true → any_suffix (glob pat) (c ∷ str) ≡ true)
    → (glob pat (c ∷ str) || any_suffix (glob pat) str) ≡ (glob (a ∷ pat) (c ∷ str) || old)
star_join a c pat str true e h =
    ground (arith, h refl, glob_star a pat (c ∷ str) e, any_suffix_unfold (glob pat) c str)
star_join a c pat str false e h =
    ground (arith, glob_star a pat (c ∷ str) e, any_suffix_unfold (glob pat) c str)

other_char :
    (a c : ℕ) (pat str : Bytes)
    → (a == b'*') ≡ false
    → same_char a c ≡ false
    → glob (a ∷ pat) (c ∷ str) ≡ false
other_char a c pat str h d = ground (arith, glob_char a c pat str)

-- The loop after a star has been seen.
loop_star :
    (b f : ℕ) (pat str p ss : Bytes)
    → Partial p ss pat str
    → NoStar ss
    → length p ≤ b
    → length ss * (b + 1) + length pat < f
    → match_loop f pat str (some (p, ss)) ≡ some (glob pat str || alts p ss)
unfolding match_loop
loop_star b zero pat str p ss m ns lp lt = elim lt [ ]
loop_star b (suc f) [] [] p ss m ns lp lt = ground (arith, alts_end p ss m, only_stars-glob [])
loop_star b (suc f) (a ∷ pat) [] p ss m ns lp lt =
    ground (arith, alts_end p ss m, only_stars-glob (a ∷ pat))
loop_star b (suc f) [] (c ∷ str) p [] m ns lp lt = absurd (omega (arith, Partial-length m))
loop_star b (suc f) [] (c ∷ str) p (x ∷ ss) m ns lp lt =
    loop_star b f p ss p ss start ns.1 lp (omega arith) ∙ rw (← alts_unfold) (unfold glob in refl)
loop_star b (suc f) (a ∷ pat) (c ∷ str) p [] m ns lp lt = absurd (omega (arith, Partial-length m))
loop_star b (suc f) (a ∷ pat) (c ∷ str) p (x ∷ ss) m ns lp lt = elim (Bool-cases (same_char a c)) [
  | inl same ↦
      let ne : a ≢ b'*' = star_not_same a c (Partial-NoStar m ns).0 same in
      let ih = loop_star b f pat str p (x ∷ ss) (step m ne) ns lp (omega arith) in
      rw same (ih ∙ rw (glob_char a c pat str ne) (rw same))
  | inr differ ↦ elim (Bool-cases (a == b'*')) [
    | inl star ↦
        let e : a ≡ b'*' = (==_iff _ _).0 star in
        let fits : length (c ∷ str) ≤ length (x ∷ ss) = Partial-length m in
        let ih =
          loop_star b f pat (c ∷ str) pat (c ∷ str) start (Partial-NoStar m ns)
            (omega (arith, Partial-length_pat m))
            (omega (arith, mul_mono (length (c ∷ str)) (length (x ∷ ss)) (b + 1) fits)) in
        rw (differ, star)
          (ih ∙ ap some (star_join a c pat str (alts p (x ∷ ss)) e (alts_star p (x ∷ ss) m e)))
    | inr char ↦
        let ih = loop_star b f p ss p ss start ns.1 lp (omega arith) in
        let fails : glob (a ∷ pat) (c ∷ str) ≡ false = other_char a c pat str char differ in
        rw (differ, char) (ih ∙ rw (← alts_unfold) (rw fails))
  ]
]

-- The loop before any star, within its fuel.
loop_plain :
    (b f : ℕ) (pat str : Bytes)
    → NoStar str
    → length pat ≤ b
    → (length str + 1) * (b + 1) + length pat < f
    → match_loop f pat str none ≡ some (glob pat str)
unfolding match_loop
loop_plain b zero pat str ns lp lt = elim lt [ ]
loop_plain b (suc f) [] [] ns lp lt = ground (arith, only_stars-glob [])
loop_plain b (suc f) (a ∷ pat) [] ns lp lt = ground (arith, only_stars-glob (a ∷ pat))
loop_plain b (suc f) [] (c ∷ str) ns lp lt = unfold glob in refl
loop_plain b (suc f) (a ∷ pat) (c ∷ str) ns lp lt = elim (Bool-cases (same_char a c)) [
  | inl same ↦
      let ne : a ≢ b'*' = star_not_same a c ns.0 same in
      rw same (
        loop_plain b f pat str ns.1 (omega arith) (omega arith)
        ∙ rw (glob_char a c pat str ne) (rw same))
  | inr differ ↦ elim (Bool-cases (a == b'*')) [
    | inl star ↦
        let e : a ≡ b'*' = (==_iff _ _).0 star in
        let ih = loop_star b f pat (c ∷ str) pat (c ∷ str) start ns (omega arith) (omega arith) in
        rw (differ, star) (ih ∙ rw (glob_star a pat (c ∷ str) e) (rw any_suffix_unfold))
    | inr char ↦ rw (differ, char) (rw (other_char a c pat str char differ))
  ]
]

-- Within its fuel the backtracking matcher always answers, and the answer is that of the reference
-- reading of the pattern, for every pattern and every name in which no character is a star.
pub wildcard_match_ci-glob :
    (pat str : Bytes) → NoStar str → wildcard_match_ci pat str ≡ some (glob pat str)
unfolding wildcard_match_ci
wildcard_match_ci-glob pat str ns =
    loop_plain (length pat) ((length str + 2) * (length pat + 1)) pat str ns (omega arith)
      (omega arith)
