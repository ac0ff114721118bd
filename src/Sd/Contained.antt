-- ===== src/Sd/Contained.antt =====
-- src/disk/sd.c: the names that sd_path accepts.
use fdc_sds_pio.Prelude.{
  Bool-cases, Bytes, List, [], arith, codes, eq_bytes_iff, false, if◌then◌else◌, inl, inr, length,
  refl, some, true, ℕ, ◌++◌, ◌<◌, ◌==◌, ◌∷◌, ◌≡◌, ◌≢◌, ◌⊎◌,
}
use fdc_sds_pio.Sd.{first_is, has_byte, mount_point, sd_path, segment_ok, walk}

-- The parts of a name between its slashes, `seg` in front of the first.
abbrev pub components : Bytes → Bytes → List Bytes
components seg [] = seg ∷ []
components seg (c ∷ p) =
    let fresh = components [] p in
    let more = components (seg ++ c ∷ []) p in if c == b'/' then seg ∷ fresh else more

-- No part is the parent directory, and only the last one can be empty.
abbrev pub IsContained : List Bytes → Type 0
IsContained [] = Unit {0}
IsContained (seg ∷ segs) = (seg ≢ codes "..") × ((segs ≡ []) ⊎ (seg ≢ [])) × IsContained segs

segment_ok_lem : (seg : Bytes) → segment_ok seg ≡ true → (seg ≢ codes "..") × (seg ≢ [])
unfolding segment_ok
segment_ok_lem [] h = absurd (cc)
segment_ok_lem (c ∷ seg) h =
    (λ e. absurd (ground (arith, h, (eq_bytes_iff (c ∷ seg) (codes "..")).1 e)), λ e. absurd (cc))

last : (seg : Bytes) → segment_ok seg ≡ true → IsContained (seg ∷ [])
last seg h = ((segment_ok_lem seg h).0, inl refl, tt)

inner :
    (seg : Bytes) (segs : List Bytes)
    → segment_ok seg ≡ true
    → IsContained segs
    → IsContained (seg ∷ segs)
inner seg segs h k = ((segment_ok_lem seg h).0, inr ((segment_ok_lem seg h).1), k)

walk-IsContained : (seg p : Bytes) → walk seg p ≡ true → IsContained (components seg p)
unfolding walk
walk-IsContained seg [] h = last seg h
walk-IsContained seg (c ∷ []) h = elim (Bool-cases (c == b'/')) [
  | inl slash ↦
      rw slash (inner seg ([] ∷ []) (ground (arith, slash, h)) ((λ e. absurd (cc)), inl refl, tt))
  | inr char ↦ rw char (last (seg ++ c ∷ []) (ground (arith, char, h)))
]
walk-IsContained seg (c ∷ d ∷ p) h = elim (Bool-cases (c == b'/')) [
  | inl slash ↦ rw slash (
      inner seg (components [] (d ∷ p)) (ground (arith, slash, h))
        (walk-IsContained [] (d ∷ p) (ground (arith, slash, h))))
  | inr char ↦ rw char (walk-IsContained (seg ++ c ∷ []) (d ∷ p) (ground (arith, char, h)))
]

-- A name that sd_path accepts has no backslash and no leading slash, none of its parts is "..", only
-- its last part can be empty, and the path is the name under /sd, with room for its terminator.
pub sd_path-IsContained :
    (name : Bytes) (len : ℕ) (out : Bytes)
    → sd_path name len ≡ some out
    → (has_byte b'\\' name ≡ false)
      × (first_is b'/' name ≡ false)
      × IsContained (components [] name)
      × (out ≡ mount_point ++ b'/' ∷ name)
      × (length out < len)
unfolding sd_path
sd_path-IsContained [] len out h = absurd (cc)
sd_path-IsContained (c ∷ name) len out h = (
  ground (arith, h),
  ground (arith, h),
  walk-IsContained [] (c ∷ name) (ground (arith, h)),
  ground (arith, h),
  ground (arith, h),
)
