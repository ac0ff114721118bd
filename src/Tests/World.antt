-- ===== src/Tests/World.antt =====
-- A world with one file, open on every stream and session, and a serial line.
use fdc_sds_pio.Disk.Backing.{local_backing}
use fdc_sds_pio.Disk.Table.{Disk, Drive}
use fdc_sds_pio.Fdc.Wire.{Wire}
use fdc_sds_pio.Prelude.{
  Bool, Bool-cases, Bytes, IsBytes, [], ap, arith, codes, drop, drop-append_left, eq_int, false,
  if◌then◌else◌, inl, inr, leb, length, length-take, ltb, none, pos, refl, replicate, some, take,
  take-append_left, true, ℕ, ◌&&◌, ◌++◌, ◌+◌, ◌==◌, ◌∙◌, ◌∷◌, ◌≡◌, ◌≤◌,
}
use fdc_sds_pio.Esp.{esp_fail, esp_ok}
use fdc_sds_pio.Disk.Io.{Io}
use fdc_sds_pio.Disk.Laws.{IoLaws, slice}

pub record World : Type 0 where
  pub file : Bytes
  pub position : ℕ
  pub inbox : Bytes
  pub outbox : Bytes

-- Bytes put at an offset, where they fit.
abbrev pub splice : ℕ → Bytes → Bytes → Bytes
splice off bytes file = take off file ++ (bytes ++ drop (off + length bytes) file)

abbrev pub room : ℕ → Bytes → Bytes → Bool
room off bytes file = leb (off + length bytes) (length file)

pub slice-splice :
    (off : ℕ) (bytes file : Bytes)
    → room off bytes file ≡ true
    → slice off (length bytes) (splice off bytes file) ≡ bytes
slice-splice off bytes file h =
    let size : length (take off file) ≡ off = omega (arith, length-take off file, leb_le h) in
    let rest : Bytes = drop (off + length bytes) file in
    ap (take (length bytes)) (drop-append_left off (take off file) (bytes ++ rest) size)
    ∙ take-append_left (length bytes) bytes rest refl
  where
    leb_le : room off bytes file ≡ true → off + length bytes ≤ length file
    leb_le k = ground (arith, k)

abbrev pub world_io : Io World
world_io = record {
  fopen = λ path e. (some 3, e);
  fseek_set = λ fp off e. (true, record e { position = off });
  fseek_end = λ fp e. (true, record e { position = length e.file });
  ftell = λ fp e. some e.position;
  fread = λ fp n e. (slice e.position n e.file, e);
  fwrite = λ fp bytes e.
      if room e.position bytes e.file
      then (length bytes, record e { file = splice e.position bytes e.file })
      else (0, e);
  fflush = λ fp e. (true, e);
  fsync = λ fp e. (true, e);
  fclose = λ fp e. e;
  calloc = λ e. (some 100, e);
  queue_send = λ e. (true, e);
  sd_mounted = λ e. true;
  sd_canonical = λ path e. some path;
  net_is_connected = λ e. true;
  tnfs_open = λ url writing create e. (inl 7, e);
  tnfs_read_at = λ tf off n e.
      ((if length (slice off n e.file) == n then esp_ok else esp_fail), slice off n e.file, e);
  tnfs_write_at = λ tf off bytes e.
      if room off bytes e.file
      then (esp_ok, record e { file = splice off bytes e.file })
      else (esp_fail, e);
  tnfs_size = λ tf e. length e.file;
  tnfs_close = λ tf e. e;
}

empty : (bytes : Bytes) → 0 ≡ length bytes → bytes ≡ []
empty [] h = refl
empty (b ∷ bytes) h = absurd (omega (arith, h))

pub fwrite-puts :
    (bytes : Bytes) (e : World)
    → (world_io.fwrite 0 bytes e).0 ≡ length bytes
    → slice e.position (length bytes) ((world_io.fwrite 0 bytes e).1).file ≡ bytes
fwrite-puts bytes e h = elim (Bool-cases (room e.position bytes e.file)) [
  | inl fits ↦ rw fits (slice-splice e.position bytes e.file fits)
  | inr full ↦ rw (full, empty bytes (ground (arith, h, full))) refl
]

pub read-gives :
    (off n : ℕ) (e : World)
    → (world_io.tnfs_read_at 0 off n e).0 ≡ esp_ok
    → length (slice off n e.file) ≡ n
read-gives off n e h = ground (arith, h)

pub write-puts :
    (off : ℕ) (bytes : Bytes) (e : World)
    → (world_io.tnfs_write_at 0 off bytes e).0 ≡ esp_ok
    → slice off (length bytes) ((world_io.tnfs_write_at 0 off bytes e).1).file ≡ bytes
write-puts off bytes e h = elim (Bool-cases (room off bytes e.file)) [
  | inl fits ↦ rw fits (slice-splice off bytes e.file fits)
  | inr full ↦ absurd (ground (arith, h, full))
]

pub not_apart : {A : Type 0} → false ≡ true → A
not_apart h = absurd (cc)

abbrev pub world_laws : IoLaws world_io
world_laws = record {
  image = λ e b. e.file;
  position = λ e fp. e.position;
  apart = λ b c. false;
  fseek_keeps = λ fp off b e. refl;
  fread_keeps = λ fp n b e. refl;
  fflush_keeps = λ fp b e. refl;
  fsync_keeps = λ fp b e. refl;
  tnfs_read_keeps = λ tf off n b e. refl;
  fopen_keeps = λ path b e. refl;
  fseek_end_keeps = λ fp b e. refl;
  fclose_keeps = λ fp b e. refl;
  calloc_keeps = λ b e. refl;
  queue_send_keeps = λ b e. refl;
  tnfs_open_keeps = λ url writing b e. refl;
  tnfs_close_keeps = λ tf b e. refl;
  fseek_moves = λ fp off e h. refl;
  fread_gives = λ a fp size n e h. refl;
  fwrite_puts = λ a fp size bytes e h. fwrite-puts bytes e h;
  fwrite_keeps = λ a fp size bytes b e h. not_apart h;
  tnfs_read_gives = λ a tf off n e h. (read-gives off n e h, refl);
  tnfs_write_puts = λ a tf off bytes e h. write-puts off bytes e h;
  tnfs_write_keeps = λ a tf off bytes b e h. not_apart h;
}

abbrev pub world_wire : Wire World
world_wire = record {
  uart_recv = λ need ms e. (take need e.inbox, record e { inbox = drop need e.inbox });
  uart_send = λ bytes e. record e { outbox = e.outbox ++ bytes };
  uart_flush_input = λ e. record e { inbox = [] };
  uart_wait_tx_done = λ e. e;
  uart_set_baudrate = λ baud e. (true, e);
  tcp_recv = λ fd dead need ms e. (take need e.inbox, dead, record e { inbox = drop need e.inbox });
  tcp_send = λ fd dead bytes e. (dead, record e { outbox = e.outbox ++ bytes });
  tcp_flush_input = λ fd dead e. (dead, record e { inbox = [] });
  close = λ fd e. e;
}

-- Concrete byte strings by a test.
abbrev pub all_small : Bytes → Bool
all_small [] = true
all_small (b ∷ bs) = ltb b 256 && all_small bs

pub all_small-IsBytes : (bs : Bytes) → all_small bs ≡ true → IsBytes bs
all_small-IsBytes [] h = tt
all_small-IsBytes (b ∷ bs) h = (ground (arith, h), all_small-IsBytes bs (ground (arith, h)))

-- A card with one image, mounted on drive 0.
abbrev pub image_file : Bytes
image_file = 10 ∷ 11 ∷ 12 ∷ 13 ∷ 14 ∷ 15 ∷ 16 ∷ 17 ∷ []

abbrev pub world : World
world = record { file = image_file; position = 0; inbox = []; outbox = [] }

abbrev pub off_drive : Drive
off_drive = record {
  mounted = false;
  remote = false;
  readonly = false;
  name = [];
  canon = [];
  backing = none;
}

abbrev pub image_drive : Drive
image_drive = record {
  mounted = true;
  remote = false;
  readonly = false;
  name = codes "A.DSK";
  canon = codes "A.DSK";
  backing = some (local_backing 100 3 8);
}

abbrev pub table : Disk
table = record {
  drv = λ i. if eq_int i (pos 0) then image_drive else off_drive;
  buf = replicate 8 0;
  cache = record { valid = false; drive = pos 0; track = 0; len = 0 };
  queue = [];
}
