-- ===== src/TnfsServer/Board.antt =====
-- src/net/tnfs_server.c over src/disk/disk.c: the server and the disk layer on one board, and what
-- OPEN, RENAME and UNLINK do on the path of a mounted image. A descriptor that was open before the
-- mount is not looked at.
use fdc_sds_pio.TnfsServer.Process.{handle, unlink_cmd}
use fdc_sds_pio.Prelude.{
  Bytes, ap, arith, drop, false, inl, length, ltb, negsuc, pos, refl, some, true, ℕ, ℤ, ◌%◌, ◌/◌,
  ◌<◌, ◌^◌, ◌∙◌, ◌≡◌, ◌≤◌, ◌⊎◌,
}
use fdc_sds_pio.Disk.Io.{Io}
use fdc_sds_pio.Disk.Table.{Disk}
use fdc_sds_pio.Disk.Change.{disk_change_begin, disk_change_end}
use fdc_sds_pio.Disk.Change.Guard.{IsGuarding, IsHeldBy, disk_change_begin-IsGuarding}
use fdc_sds_pio.TnfsServer.Os.{Os, e_busy}
use fdc_sds_pio.TnfsServer.State.{Session, abs_cap, errno_to_tnfs}
use fdc_sds_pio.TnfsServer.Paths.{memchr_nul, resolve_path}
use fdc_sds_pio.Prelude.{
  Bytes, ap, arith, drop, false, inl, length, ltb, negsuc, pos, refl, some, true, ℕ, ℤ, ◌%◌, ◌/◌,
  ◌<◌, ◌^◌, ◌∙◌, ◌≡◌, ◌≤◌, ◌⊎◌,
}
use fdc_sds_pio.TnfsServer.Files.{
  access_of, answer, free_file, h_open, is_refused, is_writing, open_flagged, open_flags,
  open_named, open_resolved, open_slot, writes,
}
use fdc_sds_pio.TnfsServer.Names.{
  h_pathop, h_rename, pathop_named, pathop_resolved, rename_from, rename_resolved, rename_to,
  status_of, unlink_op,
}
use fdc_sds_pio.Tnfs.Status.{st_ebusy}
use fdc_sds_pio.Tnfs.Proto.{rd16}

-- The mount table, the depth of the mount lock that the server's task holds, and the rest.
pub record Board (E : Type 0) : Type 0 where
  pub disk : Disk
  pub depth : ℕ
  pub env : E

abbrev on_env : {E A : Type 0} → (E → A × E) → Board E → A × Board E
on_env f b = let (a, e) = f b.env in (a, record b { env = e })

abbrev change_env : {E : Type 0} → (E → E) → Board E → Board E
change_env f b = record b { env = f b.env }

-- The operations of the server on a board, with the guard that disk.c has.
unfoldable pub on_board : {E : Type 0} → Io E → Os E → Os (Board E)
unfolding disk_change_begin disk_change_end
on_board io os = record {
  errno = λ b. os.errno b.env;
  set_errno = λ err b. change_env (os.set_errno err) b;
  now_us = λ b. os.now_us b.env;
  sendto = λ bytes peer b. change_env (os.sendto bytes peer) b;
  open_file = λ path of b. on_env (os.open_file path of) b;
  read = λ fd n b. on_env (os.read fd n) b;
  write = λ fd bytes b. on_env (os.write fd bytes) b;
  lseek = λ fd off w b. on_env (os.lseek fd off w) b;
  close = λ fd b. change_env (os.close fd) b;
  stat = λ path b. os.stat path b.env;
  mkdir = λ path b. on_env (os.mkdir path) b;
  rmdir = λ path b. on_env (os.rmdir path) b;
  unlink = λ path b. on_env (os.unlink path) b;
  rename = λ old new b. on_env (os.rename old new) b;
  opendir = λ path b. on_env (os.opendir path) b;
  readdir = λ d b. on_env (os.readdir d) b;
  rewinddir = λ d b. change_env (os.rewinddir d) b;
  closedir = λ d b. change_env (os.closedir d) b;
  entries = λ d b. os.entries d b.env;
  disk_change_begin = λ path b.
      let (r, depth) = disk_change_begin io path b.depth b.disk b.env in
      (r, record b { depth = depth });
  disk_change_end = λ b. record b { depth = disk_change_end b.depth };
}

-- The flags of OPEN that change a file: the access bit that write-only and read-write share, append
-- and truncate.
abbrev pub AsksToChange : ℕ → Type 0
AsksToChange flags = (flags / 2 % 2 ≡ 1) ⊎ (flags / 2 ^ 3 % 2 ≡ 1) ⊎ (flags / 2 ^ 9 % 2 ≡ 1)

writes-open_flags : (flags : ℕ) → AsksToChange flags → writes (open_flags flags) ≡ true
unfolding writes open_flags access_of is_writing
writes-open_flags flags h = ground (arith, h)

-- The path is the image on one of the four drives, or a folder that holds it.
pub record IsMounted {E : Type 0} (io : Io E) (abs : Bytes) (b : Board E) : Type 0 where
  pub canon : Bytes
  pub drive : ℕ
  pub known : io.sd_canonical abs b.env ≡ some canon
  pub below : drive < 4
  pub held : IsHeldBy canon (b.disk.drv (pos drive))

unlink_busy :
    {E : Type 0} (os : Os E) (s : Session) (pl path rest abs : Bytes) (e : E)
    → memchr_nul pl ≡ some (path, rest)
    → resolve_path s path abs_cap ≡ inl abs
    → is_refused (os.disk_change_begin abs e).0 ≡ true
    → (os.disk_change_begin abs e).1 ≡ e
    → os.errno (os.set_errno e_busy e) ≡ e_busy
    → handle os unlink_cmd s pl e ≡ answer st_ebusy s (os.set_errno e_busy e)
unfolding handle h_pathop pathop_named pathop_resolved unlink_op status_of errno_to_tnfs
unlink_busy os s pl path rest abs e named resolved refused same law =
    rw (named, resolved, refused, same, law) refl

module _ {E : Type 0} (io : Io E) (os : Os E) where
  -- The guard names a drive and keeps nothing.
  guard_refuses :
      (abs : Bytes) (b : Board E)
      → IsMounted io abs b
      → (is_refused ((on_board io os).disk_change_begin abs b).0 ≡ true)
        × (((on_board io os).disk_change_begin abs b).1 ≡ b)
  unfolding on_board is_refused
  guard_refuses abs b m =
      at (disk_change_begin io abs b.depth b.disk b.env)
        (disk_change_begin-IsGuarding io abs b.depth b.disk b.env)
    where
      at :
          (r : ℤ × ℕ)
          → IsGuarding io abs b.depth b.disk b.env r
          → (is_refused r.0 ≡ true) × (record b { depth = r.1 } ≡ b)
      at (pos d, depth) g =
          let kept = (g.refused d refl).4 in (refl, ap (λ (n : ℕ). record b { depth = n }) kept)
      at (negsuc n, depth) g = absurd ((g.allowed n refl).2 m.canon m.drive m.known m.below m.held)

  -- A client that opens a mounted image, or a folder that holds one, to write it, truncate it or
  -- append to it, is told that it is busy, where one of the session's file slots is free. Nothing is
  -- opened or changed, and the mount lock is as it was.
  pub h_open-IsMounted :
      (s : Session) (pl path rest abs : Bytes) (slot : ℕ) (b : Board E)
      → 5 ≤ length pl
      → memchr_nul (drop 4 pl) ≡ some (path, rest)
      → resolve_path s path abs_cap ≡ inl abs
      → free_file s.files 0 ≡ some slot
      → AsksToChange (rd16 pl)
      → IsMounted io abs b
      → h_open (on_board io os) s pl b ≡ answer st_ebusy s b
  unfolding h_open open_named open_resolved open_slot open_flagged
  h_open-IsMounted s pl path rest abs slot b long named resolved free asks m =
      let g = guard_refuses abs b m in
      let whole : ltb (length pl) 5 ≡ false = ground arith in
      let writing = writes-open_flags (rd16 pl) asks in
      rw (whole, named, resolved, free, writing, g.0, g.1) refl

  busy_errno :
      (b : Board E)
      → os.errno (os.set_errno e_busy b.env) ≡ e_busy
      → ((on_board io os).errno ((on_board io os).set_errno e_busy b) ≡ e_busy)
        × ((on_board io os).set_errno e_busy b ≡ record b { env = os.set_errno e_busy b.env })
  unfolding on_board
  busy_errno b h = (h, refl)

  -- A client that unlinks a mounted image, or a folder that holds one, is told that it is busy, and
  -- but for errno nothing has changed.
  pub unlink-IsMounted :
      (s : Session) (pl path rest abs : Bytes) (b : Board E)
      → memchr_nul pl ≡ some (path, rest)
      → resolve_path s path abs_cap ≡ inl abs
      → os.errno (os.set_errno e_busy b.env) ≡ e_busy
      → IsMounted io abs b
      → handle (on_board io os) unlink_cmd s pl b
        ≡ answer st_ebusy s (record b { env = os.set_errno e_busy b.env })
  unlink-IsMounted s pl path rest abs b named resolved set_law m =
      let g = guard_refuses abs b m in
      let busy = busy_errno b set_law in
      unlink_busy (on_board io os) s pl path rest abs b named resolved g.0 g.1 busy.0
      ∙ ap (answer st_ebusy s) busy.1

  -- A client that renames a mounted image, or a folder that holds one, is told that it is busy, and
  -- nothing has changed.
  pub h_rename-IsMounted :
      (s : Session) (pl oldp newp rest end oabs nabs : Bytes) (b : Board E)
      → 2 ≤ length pl
      → memchr_nul pl ≡ some (oldp, rest)
      → memchr_nul rest ≡ some (newp, end)
      → resolve_path s oldp abs_cap ≡ inl oabs
      → resolve_path s newp abs_cap ≡ inl nabs
      → IsMounted io oabs b
      → h_rename (on_board io os) s pl b ≡ answer st_ebusy s b
  unfolding h_rename rename_from rename_to rename_resolved
  h_rename-IsMounted s pl oldp newp rest end oabs nabs b long from to old new m =
      let g = guard_refuses oabs b m in
      let whole : ltb (length pl) 2 ≡ false = ground arith in
      rw (whole, from, to, old, new, g.0, g.1) refl
