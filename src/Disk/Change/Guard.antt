-- ===== src/Disk/Change/Guard.antt =====
-- src/disk/disk.c: the two answers of the guard on a change.
use fdc_sds_pio.Disk.Io.{Io}
use fdc_sds_pio.Disk.Change.{
  disk_change_begin, ends_segment, first_guarded, guard_path, guard_result, is_guarded,
}
use fdc_sds_pio.Wildcard.{tolower}
use fdc_sds_pio.Prelude.{
  Bool-cases, Bytes, List, Option-cases, [], ap, arith, drop, eq_bytes, eq_bytes_iff, false, inl,
  inr, length, map, negsuc, none, pos, refl, some, suc, true, zero, ℕ, ℤ, ◌++◌, ◌<◌, ◌∷◌, ◌≡◌, ◌≢◌,
  ◌⊎◌,
}
use fdc_sds_pio.Tnfs.{has_prefix_ci}
use fdc_sds_pio.Disk.Table.{Disk, Drive}

-- The path names the image or a folder on the way to it: up to case it is a prefix of the image's
-- name that ends where a component ends, or it is the root.
abbrev pub Holds : Bytes → Bytes → Type 0
Holds canon image =
    (canon ≡ [])
    ⊎ ((rest : Bytes) × (map tolower image ≡ map tolower canon ++ map tolower rest)
        × (ends_segment rest ≡ true))

-- The drive has a local image of a known name on it, and the path holds it.
abbrev pub IsHeldBy : Bytes → Drive → Type 0
IsHeldBy canon x = (x.mounted ≡ true) × (x.remote ≡ false) × (x.canon ≢ []) × Holds canon x.canon

prefix_splits :
    (p s : Bytes)
    → has_prefix_ci p s ≡ true
    → map tolower s ≡ map tolower p ++ map tolower (drop (length p) s)
unfolding has_prefix_ci
prefix_splits [] s h = refl
prefix_splits (x ∷ p) [] h = absurd (cc)
prefix_splits (x ∷ p) (c ∷ s) h = ground (arith, prefix_splits p s)

length-map : (f : ℕ → ℕ) (xs : Bytes) → length (map f xs) ≡ length xs
length-map f [] = refl
length-map f (x ∷ xs) = ap suc (length-map f xs)

ends_segment-map : (a b : Bytes) → map tolower a ≡ map tolower b → ends_segment a ≡ ends_segment b
unfolding tolower
ends_segment-map [] [] h = refl
ends_segment-map [] (y ∷ b) h = absurd (cc)
ends_segment-map (x ∷ a) [] h = absurd (cc)
ends_segment-map (x ∷ a) (y ∷ b) h = ground arith

splits_prefix :
    (p s rest : Bytes)
    → map tolower s ≡ map tolower p ++ map tolower rest
    → (has_prefix_ci p s ≡ true) × (ends_segment (drop (length p) s) ≡ ends_segment rest)
unfolding has_prefix_ci
splits_prefix [] s rest h = (refl, ends_segment-map s rest h)
splits_prefix (x ∷ p) [] rest h = absurd (cc)
splits_prefix (x ∷ p) (c ∷ s) rest h = ground (arith, splits_prefix p s rest)

-- The test of the loop is the specification.
is_guarded-Holds : (canon : Bytes) (x : Drive) → is_guarded canon x ≡ true → IsHeldBy canon x
unfolding is_guarded
is_guarded-Holds [] x h = ground (arith, eq_bytes_iff x.canon [])
is_guarded-Holds (c ∷ canon) x h =
    let facts : (x.mounted ≡ true)
        × (x.remote ≡ false)
        × (eq_bytes x.canon [] ≡ false)
        × (has_prefix_ci (c ∷ canon) x.canon ≡ true)
        × (ends_segment (drop (length (c ∷ canon)) x.canon) ≡ true) =
      ground arith in
    (
      facts.0,
      facts.1,
      (λ q. cc (facts.2, (eq_bytes_iff x.canon []).1 q)),
      inr (drop (length (c ∷ canon)) x.canon, prefix_splits (c ∷ canon) x.canon facts.3, facts.4),
    )

Holds-is_guarded : (canon : Bytes) (x : Drive) → IsHeldBy canon x → is_guarded canon x ≡ true
unfolding is_guarded
Holds-is_guarded [] x (m, r, n, h) = ground (arith, eq_bytes_iff x.canon [])
Holds-is_guarded (c ∷ canon) x (m, r, n, inl e) = absurd (cc)
Holds-is_guarded (c ∷ canon) x (m, r, n, inr (rest, e, z)) =
    ground (arith, eq_bytes_iff x.canon [], splits_prefix (c ∷ canon) x.canon rest e)

abbrev drives : List ℤ
drives = pos 0 ∷ pos 1 ∷ pos 2 ∷ pos 3 ∷ []

first_guarded-some :
    (canon : Bytes) (s : Disk) (d : ℤ)
    → first_guarded drives canon s ≡ some d
    → (n : ℕ) × (d ≡ pos n) × (n < 4) × (is_guarded canon (s.drv (pos n)) ≡ true)
unfolding first_guarded
first_guarded-some canon s d h = elim (Bool-cases (is_guarded canon (s.drv (pos 0)))) [
  | inl g ↦ (0, ground arith, omega arith, g)
  | inr n0 ↦ elim (Bool-cases (is_guarded canon (s.drv (pos 1)))) [
    | inl g ↦ (1, ground arith, omega arith, g)
    | inr n1 ↦ elim (Bool-cases (is_guarded canon (s.drv (pos 2)))) [
      | inl g ↦ (2, ground arith, omega arith, g)
      | inr n2 ↦ (3, ground arith, omega arith, ground arith)
    ]
  ]
]

first_guarded-none :
    (canon : Bytes) (s : Disk) (n : ℕ)
    → first_guarded drives canon s ≡ none
    → n < 4
    → is_guarded canon (s.drv (pos n)) ≡ false
unfolding first_guarded
first_guarded-none canon s zero h l = ground arith
first_guarded-none canon s (suc zero) h l = ground arith
first_guarded-none canon s (suc (suc zero)) h l = ground arith
first_guarded-none canon s (suc (suc (suc zero))) h l = ground arith
first_guarded-none canon s (suc (suc (suc (suc n)))) h l = absurd (omega arith)

-- What a caller may rely on.
pub record IsGuarding {E : Type 0} (io : Io E) (path : Bytes) (depth : ℕ) (s : Disk) (e : E)
    (r : ℤ × ℕ) : Type 0 where
  -- A drive number: the path is that drive's image or holds it, and the lock is not kept.
  pub refused :
      (d : ℕ)
      → r.0 ≡ pos d
      → (canon : Bytes) × (io.sd_canonical path e ≡ some canon)
        × (d < 4)
        × IsHeldBy canon (s.drv (pos d))
        × (r.1 ≡ depth)
  -- Otherwise -1: the lock is kept once more, and if the path has a canonical name, no mounted local
  -- image of a known canonical name is the path or inside it.
  pub allowed :
      (n : ℕ)
      → r.0 ≡ negsuc n
      → (r.0 ≡ negsuc 0)
        × (r.1 ≡ suc depth)
        × ((canon : Bytes) (d : ℕ)
            → io.sd_canonical path e ≡ some canon
            → d < 4
            → ¬ IsHeldBy canon (s.drv (pos d)))
  -- A path without a canonical name is let through, whatever is mounted.
  pub unknown : io.sd_canonical path e ≡ none → r ≡ (negsuc 0, suc depth)

guard_found :
    {E : Type 0} (io : Io E) (path canon : Bytes) (depth : ℕ) (s : Disk) (e : E) (d : ℤ)
    → io.sd_canonical path e ≡ some canon
    → first_guarded drives canon s ≡ some d
    → IsGuarding io path depth s e (d, depth)
guard_found io path canon depth s e d known found =
    let (n, is_n, below, g) = first_guarded-some canon s d found in
    record {
      refused = λ m q.
          let same : n ≡ m = ground arith in
          (
            canon,
            known,
            rw (← same) below,
            rw (← same) (is_guarded-Holds canon (s.drv (pos n)) g),
            refl,
          );
      allowed = λ m q. absurd (ground arith);
      unknown = λ q. absurd (cc);
    }

guard_free :
    {E : Type 0} (io : Io E) (path : Bytes) (depth : ℕ) (s : Disk) (e : E)
    → ((canon : Bytes) (d : ℕ)
        → io.sd_canonical path e ≡ some canon
        → d < 4
        → is_guarded canon (s.drv (pos d)) ≡ false)
    → IsGuarding io path depth s e (negsuc 0, suc depth)
guard_free io path depth s e free = record {
  refused = λ m q. absurd (ground arith);
  allowed = λ n q. (
    refl,
    refl,
    λ canon d known below held.
        absurd (cc (free canon d known below, Holds-is_guarded canon (s.drv (pos d)) held)),
  );
  unknown = λ q. refl;
}

-- Of a path for which sd_canonical gives a name, `disk_change_begin` refuses exactly the changes that
-- touch a mounted local image of a known canonical name: a drive number names an image that the path
-- is or holds and leaves the mount lock as it was, and -1 means that there is none among the four
-- drives, with the lock held once more. A path for which sd_canonical gives none is always let
-- through, with the lock held once more.
pub disk_change_begin-IsGuarding :
    {E : Type 0} (io : Io E) (path : Bytes) (depth : ℕ) (s : Disk) (e : E)
    → IsGuarding io path depth s e (disk_change_begin io path depth s e)
unfolding disk_change_begin guard_path guard_result
disk_change_begin-IsGuarding io path depth s e = elim (Option-cases (io.sd_canonical path e)) [
  | inl unknown ↦ rw unknown (guard_free io path depth s e (λ canon d known below. absurd (cc)))
  | inr (canon, known) ↦ rw known (elim (Option-cases (first_guarded drives canon s)) [
    | inr (d, found) ↦ rw found (guard_found io path canon depth s e d known found)
    | inl nothing ↦ rw nothing (
        guard_free io path depth s e (λ c d k below.
          let same : canon ≡ c = ground arith in
          rw (← same) (first_guarded-none canon s d nothing below)))
  ])
]
