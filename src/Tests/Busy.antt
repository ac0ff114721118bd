-- ===== src/Tests/Busy.antt =====
-- Runs of the theorems on the TNFS server over the disk layer: drive 0 has an image on it.
use fdc_sds_pio.Tnfs.Status.{st_ebusy}
use fdc_sds_pio.Disk.Table.{Disk}
use fdc_sds_pio.Sd.{has_byte, sd_path, segment_ok, walk}
use fdc_sds_pio.Prelude.{
  Bytes, [], arith, codes, drop, eq_int, if◌then◌else◌, inl, inr, pos, refl, some, true, ◌++◌, ◌∷◌,
  ◌≡◌,
}
use fdc_sds_pio.Tests.Card.{still_os}
use fdc_sds_pio.Tests.World.{World, image_drive, off_drive, table, world, world_io}
use fdc_sds_pio.TnfsServer.Board.{
  AsksToChange, Board, IsMounted, h_open-IsMounted, h_rename-IsMounted, on_board, unlink-IsMounted,
}
use fdc_sds_pio.TnfsServer.State.{Session, abs_cap, zero_session}
use fdc_sds_pio.TnfsServer.Paths.{
  jail, join_root, memchr_nul, nul_after, or_einval, resolve_path, skip_slashes, trim_at,
  trim_slashes, trimmed,
}
use fdc_sds_pio.TnfsServer.Files.{answer, free_file, h_open}
use fdc_sds_pio.TnfsServer.Names.{h_rename}
use fdc_sds_pio.TnfsServer.Process.{handle, unlink_cmd}
use fdc_sds_pio.Tnfs.Proto.{rd16}

-- The image of drive 0 by its path.
abbrev mounted_table : Disk
mounted_table = record table {
  drv =
      λ d. if eq_int d (pos 0) then record image_drive { canon = codes "/sd/A.DSK" } else off_drive;
}

abbrev board : Board World
board = record { disk = mounted_table; depth = 0; env = world }

abbrev path : Bytes
path = codes "A.DSK"

abbrev abs : Bytes
abs = codes "/sd/A.DSK"

abbrev session : Session
session = record zero_session { live = true; sid = 1 }

in_root : resolve_path session path abs_cap ≡ inl abs
unfolding resolve_path join_root skip_slashes trimmed trim_slashes trim_at jail or_einval sd_path
    has_byte walk segment_ok
in_root = refl

image-IsMounted : IsMounted world_io abs board
image-IsMounted = record {
  canon = abs;
  drive = 0;
  known = refl;
  below = omega arith;
  held = (refl, refl, (λ e. absurd (cc)), inr ([], refl, refl));
}

-- OPEN for writing.
abbrev opening : Bytes
opening = 2 ∷ 0 ∷ 0 ∷ 0 ∷ path ++ 0 ∷ []

named : memchr_nul (drop 4 opening) ≡ some (path, [])
unfolding memchr_nul nul_after
named = refl

writing : AsksToChange (rd16 opening)
unfolding rd16
writing = ground arith

first_slot : free_file session.files 0 ≡ some 0
unfolding free_file
first_slot = refl

h_open-IsMounted_example :
    h_open (on_board world_io still_os) session opening board ≡ answer st_ebusy session board
h_open-IsMounted_example =
    h_open-IsMounted world_io still_os session opening path [] abs 0 board (omega arith) named
      in_root first_slot writing image-IsMounted

removed : memchr_nul (path ++ 0 ∷ []) ≡ some (path, [])
unfolding memchr_nul nul_after
removed = refl

unlink-IsMounted_example :
    handle (on_board world_io still_os) unlink_cmd session (path ++ 0 ∷ []) board
    ≡ answer st_ebusy session board
unlink-IsMounted_example =
    unlink-IsMounted world_io still_os session (path ++ 0 ∷ []) path [] abs board removed in_root
      refl image-IsMounted

abbrev renaming : Bytes
renaming = path ++ 0 ∷ path ++ 0 ∷ []

from : memchr_nul renaming ≡ some (path, path ++ 0 ∷ [])
unfolding memchr_nul nul_after
from = refl

h_rename-IsMounted_example :
    h_rename (on_board world_io still_os) session renaming board ≡ answer st_ebusy session board
h_rename-IsMounted_example =
    h_rename-IsMounted world_io still_os session renaming path path (path ++ 0 ∷ []) [] abs abs
      board (omega arith) from removed in_root in_root image-IsMounted
