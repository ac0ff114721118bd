-- ===== src/TnfsServer/Paths/Jail.antt =====
-- src/net/tnfs_server.c: the paths of a request and the mount of its session.
use fdc_sds_pio.TnfsServer.State.{Session, abs_cap}
use fdc_sds_pio.Sd.Contained.{IsContained, components, sd_path-IsContained}
use fdc_sds_pio.Prelude.{
  Bool-cases, Bytes, List, Option-cases, [], ap, arith, codes, false, inl, inr, length, refl, some,
  strlcpy, suc, take, zero, ℕ, ◌++◌, ◌-◌, ◌<◌, ◌==◌, ◌∷◌, ◌≡◌, ◌≢◌, ◌≤◌, ◌⊎◌,
}
use fdc_sds_pio.Sd.{first_is, mount_point, sd_path}
use fdc_sds_pio.TnfsServer.Paths.{
  jail, join_root, or_einval, resolve_path, skip_slashes, trim_at, trim_slashes, trimmed,
}

-- Every part is a name: it is not empty and not the parent directory.
abbrev pub IsInside : List Bytes → Type 0
IsInside [] = Unit {0}
IsInside (seg ∷ segs) = (seg ≢ codes "..") × (seg ≢ []) × IsInside segs

-- The path is the mount of the session, or lies below it.
abbrev pub IsUnder : Bytes → Bytes → Type 0
IsUnder root rel = (root ≡ []) ⊎ (rel ≡ root) ⊎ ((r : Bytes) × (rel ≡ root ++ b'/' ∷ r))

-- The trimmed text has no slash at its end.
abbrev pub IsTrimmed : Bytes → Type 0
IsTrimmed [] = Unit {0}
IsTrimmed (c ∷ []) = (c == b'/') ≡ false
IsTrimmed (c ∷ d ∷ s) = IsTrimmed (d ∷ s)

trim_at-IsTrimmed : (c : ℕ) (s : Bytes) → IsTrimmed s → IsTrimmed (trim_at c s)
unfolding trim_at
trim_at-IsTrimmed c [] h = elim (Bool-cases (c == b'/')) [ inl e ↦ rw e tt | inr e ↦ rw e e ]
trim_at-IsTrimmed c (x ∷ s) h = h

pub trim_slashes-IsTrimmed : (s : Bytes) → IsTrimmed (trim_slashes s)
unfolding trim_slashes
trim_slashes-IsTrimmed [] = tt
trim_slashes-IsTrimmed (c ∷ s) = trim_at-IsTrimmed c (trim_slashes s) (trim_slashes-IsTrimmed s)

trimmed_stays : (s : Bytes) → IsTrimmed s → trim_slashes s ≡ s
unfolding trim_slashes trim_at
trimmed_stays [] h = refl
trimmed_stays (c ∷ []) h = ground arith
trimmed_stays (c ∷ d ∷ s) h = rw (trimmed_stays (d ∷ s) h) refl

-- Where there is more than slashes behind, the trim leaves what stands in front.
trim_behind :
    (s t : Bytes) (c : ℕ) (u : Bytes) → trim_slashes t ≡ c ∷ u → trim_slashes (s ++ t) ≡ s ++ c ∷ u
unfolding trim_slashes trim_at
trim_behind [] t c u h = h
trim_behind (x ∷ []) t c u h = rw h refl
trim_behind (x ∷ y ∷ s) t c u h = rw (trim_behind (y ∷ s) t c u h) refl

trim_name : (c : ℕ) (s : Bytes) → (c == b'/') ≡ false → (u : Bytes) × (trim_slashes (c ∷ s) ≡ c ∷ u)
unfolding trim_slashes
trim_name c s h = at (trim_slashes s)
  where
    at : (t : Bytes) → (u : Bytes) × (trim_at c t ≡ c ∷ u)
    at [] = ([], ground arith)
    at (x ∷ t) = (x ∷ t, refl)

skip_slashes_lem : (s : Bytes) → first_is b'/' (skip_slashes s) ≡ false
unfolding skip_slashes
skip_slashes_lem [] = refl
skip_slashes_lem (c ∷ s) = ground (arith, skip_slashes_lem s)

components_some : (seg p : Bytes) → components seg p ≢ []
components_some seg [] h = absurd (cc)
components_some seg (c ∷ p) h = elim (Bool-cases (c == b'/')) [
  | inl e ↦ absurd (ground (arith, h))
  | inr e ↦ components_some (seg ++ c ∷ []) p (ground (arith, h))
]

append_some : (seg : Bytes) (c : ℕ) → seg ++ c ∷ [] ≢ []
append_some [] c h = absurd (cc)
append_some (x ∷ seg) c h = absurd (cc)

filled : (seg : Bytes) (segs : List Bytes) → segs ≢ [] → (segs ≡ []) ⊎ (seg ≢ []) → seg ≢ []
filled seg segs n (inl e) = absurd (n e)
filled seg segs n (inr k) = k

inside :
    (seg p : Bytes)
    → IsTrimmed p
    → (p ≡ [] → seg ≢ [])
    → IsContained (components seg p)
    → IsInside (components seg p)
inside seg [] t n h = (h.0, n refl, tt)
inside seg (c ∷ []) t n h = rw t ((rw t at h).0, append_some seg c, tt)
inside seg (c ∷ d ∷ p) t n h = elim (Bool-cases (c == b'/')) [
  | inl e ↦
      let k : IsContained (seg ∷ components [] (d ∷ p)) = rw e at h in
      rw e (
        k.0,
        filled seg (components [] (d ∷ p)) (components_some [] (d ∷ p)) k.1,
        inside [] (d ∷ p) t (λ q. absurd (cc)) k.2,
      )
  | inr e ↦ rw e (inside (seg ++ c ∷ []) (d ∷ p) t (λ q. append_some seg c) (rw e at h))
]

pub take_short : (n : ℕ) (s : Bytes) → length s ≤ n → take n s ≡ s
take_short zero [] h = refl
take_short (suc n) [] h = refl
take_short zero (c ∷ s) h = absurd (omega arith)
take_short (suc n) (c ∷ s) h = ap (◌∷◌ c) (take_short n s (omega arith))

after_slash :
    (r : ℕ) (req u : Bytes)
    → trim_slashes (r ∷ req) ≡ r ∷ u
    → trim_slashes (b'/' ∷ r ∷ req) ≡ b'/' ∷ r ∷ u
unfolding trim_slashes trim_at
after_slash r req u e = rw e refl

-- Where the relative path stands under the root of the session.
join_root-IsUnder :
    (root req rel : Bytes)
    → IsTrimmed root
    → length root < abs_cap
    → first_is b'/' req ≡ false
    → join_root root req ≡ some rel
    → IsUnder root (trim_slashes rel)
unfolding join_root
join_root-IsUnder [] req rel t l f h = inl refl
join_root-IsUnder (c ∷ root) [] rel t l f h =
    let short : strlcpy abs_cap (c ∷ root) ≡ c ∷ root =
      take_short (abs_cap - 1) (c ∷ root) (omega arith) in
    let same : rel ≡ c ∷ root = cc in inr (inl (rw same (trimmed_stays (c ∷ root) t)))
join_root-IsUnder (c ∷ root) (r ∷ req) rel t l f h =
    let (u, e) = trim_name r req f in
    let same : rel ≡ (c ∷ root) ++ b'/' ∷ r ∷ req = ground (arith, h) in
    inr (
      inr (
        r ∷ u,
        rw same (trim_behind (c ∷ root) (b'/' ∷ r ∷ req) b'/' (r ∷ u) (after_slash r req u e)),
      ))

jail_cases :
    (rel abs : Bytes)
    → jail rel abs_cap ≡ inl abs
    → ((rel ≡ []) × (abs ≡ mount_point)) ⊎ (sd_path rel abs_cap ≡ some abs)
unfolding jail or_einval
jail_cases [] abs h = inl (refl, cc)
jail_cases (c ∷ rel) abs h = elim (Option-cases (sd_path (c ∷ rel) abs_cap)) [
  | inl e ↦ absurd (cc)
  | inr (out, e) ↦ inr (cc)
]

-- What a resolved path is: the SD root, for a session that has mounted it, or a name below it.
abbrev pub IsJailed : Bytes → Bytes → Type 0
IsJailed root abs =
    ((abs ≡ mount_point) × (root ≡ []))
    ⊎ ((rel : Bytes) × (abs ≡ mount_point ++ b'/' ∷ rel)
        × IsInside (components [] rel)
        × IsUnder root rel
        × (length abs < abs_cap))

empty_root : (root : Bytes) → IsUnder root [] → root ≡ []
empty_root root (inl e) = e
empty_root root (inr (inl e)) = cc
empty_root [] (inr (inr (r, e))) = refl
empty_root (c ∷ root) (inr (inr (r, e))) = absurd (cc)

sd_path-some : (rel abs : Bytes) → rel ≡ [] → sd_path rel abs_cap ≢ some abs
unfolding sd_path
sd_path-some [] abs q h = absurd (cc)
sd_path-some (c ∷ rel) abs q h = absurd (cc)

trimmed-IsJailed :
    (root rel abs : Bytes)
    → IsTrimmed rel
    → IsUnder root rel
    → jail rel abs_cap ≡ inl abs
    → IsJailed root abs
trimmed-IsJailed root rel abs t u h = at (jail_cases rel abs h)
  where
    at : ((rel ≡ []) × (abs ≡ mount_point)) ⊎ (sd_path rel abs_cap ≡ some abs) → IsJailed root abs
    at (inl (e, m)) = inl (m, empty_root root (rw e at u))
    at (inr e) =
        let k = sd_path-IsContained rel abs_cap abs e in
        inr (rel, k.3, inside [] rel t (λ q. absurd (sd_path-some rel abs q e)) k.2, u, k.4)

-- Every path that a request of a session resolves to is the SD root, and then only where that is
-- what the session has mounted, or a name below it all of whose parts are names other than "..",
-- which lies in the directory that the session has mounted and fits the buffer.
pub resolve_path-IsJailed :
    (s : Session) (req abs : Bytes)
    → IsTrimmed s.root
    → length s.root < abs_cap
    → resolve_path s req abs_cap ≡ inl abs
    → IsJailed s.root abs
unfolding resolve_path trimmed
resolve_path-IsJailed s req abs t l h = elim (Option-cases (join_root s.root (skip_slashes req))) [
  | inl e ↦ absurd (cc)
  | inr (rel, e) ↦
      trimmed-IsJailed s.root (trim_slashes rel) abs (trim_slashes-IsTrimmed rel)
        (join_root-IsUnder s.root (skip_slashes req) rel t l (skip_slashes_lem req) e) (cc)
]
