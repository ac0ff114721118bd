-- ===== src/Tnfs/Blocks.antt =====
-- src/net/tnfs.c: tnfs_read_at and tnfs_write_at.
pub mod Whole
pub mod Written
pub mod Serving
pub mod Content
pub mod Storing
pub mod Stored
use fdc_sds_pio.Prelude.{
  Bytes, Option, [], drop, false, if◌then◌else◌, length, ltb, min, none, not, some, suc, take, zero,
  ℕ, ◌%◌, ◌++◌, ◌+◌, ◌-◌, ◌==◌, ◌^◌, ◌||◌, ◌∷◌,
}
use fdc_sds_pio.Esp.{Esp, esp_fail, esp_ok, is_ok}
use fdc_sds_pio.Tnfs.Net.{Net}
use fdc_sds_pio.Tnfs.Client.{Called, File, status, tnfs_command, tnfs_seek}
use fdc_sds_pio.Tnfs.Proto.{io_chunk, rd16, wr16}
use fdc_sds_pio.Tnfs.Cmd.{cmd_read, cmd_write}
use fdc_sds_pio.Tnfs.Status.{st_eof, st_ok}

-- What a read gives: an error code, the bytes put into the caller's buffer, the session, the state.
abbrev pub ReadAt : Type 0 → Type 0
ReadAt E = Esp × Bytes × File × E

abbrev pub lost : File → File
lost f = record f { pos_valid = false }

-- The test of a reply to READ for `want` bytes, and the bytes of it.
unfoldable pub data_of : ℕ → File → Option Bytes
unfolding rd16
data_of want f =
    let got = rd16 (drop 5 f.resp) in
    if not (status f == st_ok || status f == st_eof) || ltb (length f.resp) 7
    then none
    else if got == 0 || ltb want got || ltb (length f.resp) (7 + got)
    then none
    else some (take got (drop 7 f.resp))

-- What is done with the bytes of a reply; `rest` reads what is left.
unfoldable pub read_data :
    {E : Type 0}
    → (ℕ → ℕ → Bytes → File → E → ReadAt E)
    → ℕ
    → ℕ
    → Bytes
    → Option Bytes
    → File
    → E
    → ReadAt E
read_data rest off len dst none f e = (esp_fail, dst, lost f, e)
read_data rest off len dst (some bytes) f e =
    let got = length bytes in
    rest ((off + got) % 2 ^ 32) (len - got) (dst ++ bytes)
      (record f { pos = (f.pos + got) % 2 ^ 32 }) e

unfoldable pub read_answered :
    {E : Type 0} → (ℕ → ℕ → Bytes → File → E → ReadAt E) → ℕ → ℕ → Bytes → Called E → ReadAt E
unfolding read_data data_of
read_answered rest off len dst (err, f, e) =
    let more = read_data rest off len dst (data_of (min len io_chunk) f) f e in
    if not (is_ok err) then (err, dst, lost f, e) else more

unfoldable pub read_seeked :
    {E : Type 0}
    → Net E
    → (ℕ → ℕ → Bytes → File → E → ReadAt E)
    → ℕ
    → ℕ
    → Bytes
    → Called E
    → ReadAt E
unfolding read_answered tnfs_command wr16
read_seeked net rest off len dst (err, f, e) =
    let more =
      read_answered rest off len dst
        (tnfs_command net f cmd_read (f.fd ∷ wr16 (min len io_chunk)) e) in
    if not (is_ok err) then (err, dst, f, e) else more

-- The loop on fuel; every turn reads one byte at least, so that `len` turns are enough.
unfoldable pub read_loop : {E : Type 0} → Net E → ℕ → ℕ → ℕ → Bytes → File → E → ReadAt E
unfolding read_seeked tnfs_seek
read_loop net n off zero dst f e = (esp_ok, dst, f, e)
read_loop net zero off (suc len) dst f e = (esp_fail, dst, f, e)
read_loop net (suc n) off (suc len) dst f e =
    read_seeked net (read_loop net n) off (suc len) dst (tnfs_seek net f off e)

-- `tnfs_read_at(f, off, buf, len)` for a session and a buffer.
unfoldable pub tnfs_read_at : {E : Type 0} → Net E → File → ℕ → ℕ → E → ReadAt E
unfolding read_loop
tnfs_read_at net f off len e = read_loop net len off len [] f e

-- The test of a reply to WRITE of `want` bytes, and how many it has taken.
unfoldable pub put_of : ℕ → File → Option ℕ
unfolding rd16
put_of want f =
    let put = rd16 (drop 5 f.resp) in
    if not (status f == st_ok) || ltb (length f.resp) 7
    then none
    else if put == 0 || ltb want put
    then none
    else some put

unfoldable pub write_put :
    {E : Type 0} → (ℕ → Bytes → File → E → Called E) → ℕ → Bytes → Option ℕ → File → E → Called E
write_put rest off src none f e = (esp_fail, lost f, e)
write_put rest off src (some put) f e =
    let off1 = (off + put) % 2 ^ 32 in
    let size = if ltb f.size off1 then off1 else f.size in
    rest off1 (drop put src) (record f { pos = (f.pos + put) % 2 ^ 32; size = size }) e

unfoldable pub write_answered :
    {E : Type 0} → (ℕ → Bytes → File → E → Called E) → ℕ → Bytes → Called E → Called E
unfolding write_put put_of
write_answered rest off src (err, f, e) =
    let more = write_put rest off src (put_of (min (length src) io_chunk) f) f e in
    if not (is_ok err) then (err, lost f, e) else more

unfoldable pub write_seeked :
    {E : Type 0} → Net E → (ℕ → Bytes → File → E → Called E) → ℕ → Bytes → Called E → Called E
unfolding write_answered tnfs_command wr16
write_seeked net rest off src (err, f, e) =
    let want = min (length src) io_chunk in
    let more =
      write_answered rest off src
        (tnfs_command net f cmd_write (f.fd ∷ wr16 want ++ take want src) e) in
    if not (is_ok err) then (err, f, e) else more

unfoldable pub write_loop : {E : Type 0} → Net E → ℕ → ℕ → Bytes → File → E → Called E
unfolding write_seeked tnfs_seek
write_loop net n off [] f e = (esp_ok, f, e)
write_loop net zero off (b ∷ src) f e = (esp_fail, f, e)
write_loop net (suc n) off (b ∷ src) f e =
    write_seeked net (write_loop net n) off (b ∷ src) (tnfs_seek net f off e)

-- `tnfs_write_at(f, off, buf, len)` for a session and the bytes of the buffer.
unfoldable pub tnfs_write_at : {E : Type 0} → Net E → File → ℕ → Bytes → E → Called E
unfolding write_loop
tnfs_write_at net f off src e = write_loop net (length src) off src f e
