-- ===== src/Sd.antt =====
-- src/disk/sd.c: the path of a name under the SD root. The mount of the card itself (SPI, FatFs) is
-- not modelled.
pub mod Contained
use fdc_sds_pio.Prelude.{
  Bool, Bytes, Option, [], codes, eq_bytes, false, if◌then◌else◌, leb, length, none, not, some, ℕ,
  ◌&&◌, ◌++◌, ◌==◌, ◌||◌, ◌∷◌,
}

abbrev pub mount_point : Bytes
mount_point = codes "/sd"

-- `strchr(name, c) != NULL`
unfoldable pub has_byte : ℕ → Bytes → Bool
has_byte c [] = false
has_byte c (x ∷ xs) = x == c || has_byte c xs

-- The two tests on one component, `seglen == 0` and `..`.
unfoldable pub segment_ok : Bytes → Bool
segment_ok seg = not (length seg == 0) && not (eq_bytes seg (codes ".."))

-- The loop over the components. `seg` is what has been read of the current one; a '/' is stepped
-- over, and the loop ends where the name ends.
unfoldable pub walk : Bytes → Bytes → Bool
unfolding segment_ok
walk seg [] = segment_ok seg
walk seg (c ∷ []) = if c == b'/' then segment_ok seg else segment_ok (seg ++ c ∷ [])
walk seg (c ∷ d ∷ p) =
    let fresh = walk [] (d ∷ p) in
    let more = walk (seg ++ c ∷ []) (d ∷ p) in if c == b'/' then segment_ok seg && fresh else more

abbrev pub first_is : ℕ → Bytes → Bool
first_is c [] = false
first_is c (x ∷ _) = x == c

-- `sd_path(name, buf, len)`: the path, or `none` for -1.
unfoldable pub sd_path : Bytes → ℕ → Option Bytes
unfolding has_byte walk
sd_path [] len = none
sd_path (c ∷ name) len =
    if has_byte b'\\' (c ∷ name) || c == b'/'
    then none
    else if not (walk [] (c ∷ name))
    then none
    else let out = mount_point ++ b'/' ∷ c ∷ name in if leb len (length out) then none else some out
