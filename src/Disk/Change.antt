-- ===== src/Disk/Change.antt =====
-- src/disk/disk.c: the guard on a change to an SD file or folder. The mount lock is recursive; its
-- depth is the number of times that the caller holds it.
pub mod Guard
use fdc_sds_pio.Prelude.{
  Bool, Bytes, List, Option, [], drop, eq_bytes, false, if◌then◌else◌, length, negsuc, none, not,
  pos, some, suc, true, ℕ, ℤ, ◌&&◌, ◌-◌, ◌==◌, ◌||◌, ◌∷◌,
}
use fdc_sds_pio.Tnfs.{has_prefix_ci}
use fdc_sds_pio.Disk.Io.{Io}
use fdc_sds_pio.Disk.Table.{Disk, Drive}

-- `s[n] == '\0' || s[n] == '/'`
abbrev pub ends_segment : Bytes → Bool
ends_segment [] = true
ends_segment (c ∷ _) = c == b'/'

-- The test of the loop on one drive: the image itself, or a folder that holds it.
unfoldable pub is_guarded : Bytes → Drive → Bool
unfolding has_prefix_ci
is_guarded canon x =
    if not x.mounted || x.remote || eq_bytes x.canon []
    then false
    else length canon == 0
      || has_prefix_ci canon x.canon && ends_segment (drop (length canon) x.canon)

-- The loop over the drives.
unfoldable pub first_guarded : List ℤ → Bytes → Disk → Option ℤ
first_guarded [] canon s = none
first_guarded (d ∷ ds) canon s =
    let rest = first_guarded ds canon s in if is_guarded canon (s.drv d) then some d else rest

-- The end of the loop: a drive is refused with the lock given back, or the lock stays held.
unfoldable pub guard_result : ℕ → Option ℤ → ℤ × ℕ
guard_result depth none = (negsuc 0, suc depth)
guard_result depth (some d) = (d, depth)

unfoldable pub guard_path : ℕ → Disk → Option Bytes → ℤ × ℕ
guard_path depth s none = (negsuc 0, suc depth)
guard_path depth s (some canon) =
    guard_result depth (first_guarded (pos 0 ∷ pos 1 ∷ pos 2 ∷ pos 3 ∷ []) canon s)

-- `disk_change_begin(path)` at a depth of the mount lock: the result, and the depth afterwards.
unfoldable pub disk_change_begin : {E : Type 0} → Io E → Bytes → ℕ → Disk → E → ℤ × ℕ
disk_change_begin io path depth s e = guard_path depth s (io.sd_canonical path e)

unfoldable pub disk_change_end : ℕ → ℕ
disk_change_end depth = depth - 1
