-- ===== src/TnfsServer/Streams.antt =====
-- src/net/tnfs_server.c: READDIR, READDIRX and CLOSEDIR on an open directory.
pub mod Batches
pub mod Listed
use fdc_sds_pio.Prelude.{
  Bool, Bytes, Option, [], get_or, if◌then◌else◌, length, ltb, none, not, set, some, suc, take,
  zero, ℕ, ◌%◌, ◌&&◌, ◌++◌, ◌+◌, ◌-◌, ◌==◌, ◌^◌, ◌∷◌,
}
use fdc_sds_pio.TnfsServer.Os.{Os}
use fdc_sds_pio.TnfsServer.State.{Dirslot, Entry, Session, max_dirs, zero_slot}
use fdc_sds_pio.TnfsServer.Files.{Handled, answer}
use fdc_sds_pio.TnfsServer.Dirs.{dir_next, dir_stash}
use fdc_sds_pio.Tnfs.Status.{st_ebadf, st_einval, st_eof, st_ok}
use fdc_sds_pio.Tnfs.Proto.{dirstatus_eof, hdr_len, msg_cap, readdirx_fixed, wr16, wr32}

abbrev pub body_cap : ℕ
body_cap = msg_cap - hdr_len

-- `h < TNFSD_MAX_DIRS && s->dirs[h].in_use`
unfoldable pub is_open : Session → ℕ → Bool
is_open s h = ltb h max_dirs && (get_or s.dirs h zero_slot).in_use

abbrev pub put_slot : Session → ℕ → Dirslot → Session
put_slot s h d = record s { dirs = set s.dirs h d }

unfoldable pub readdir_done : {E : Type 0} → Session → ℕ → Option Entry × Dirslot × E → Handled E
readdir_done s h (none, d, e) = answer st_eof (put_slot s h d) e
readdir_done s h (some x, d, e) =
    let nl = if ltb body_cap (1 + length x.name + 1) then body_cap - 2 else length x.name in
    (st_ok ∷ take nl x.name ++ 0 ∷ [], put_slot s h d, e)

unfoldable pub h_readdir : {E : Type 0} → Os E → Session → Bytes → E → Handled E
unfolding readdir_done is_open dir_next
h_readdir os s [] e = answer st_einval s e
h_readdir os s (h ∷ _) e =
    if not (is_open s h)
    then answer st_ebadf s e
    else readdir_done s h (dir_next os (get_or s.dirs h zero_slot) e)

-- The bytes of one entry.
unfoldable pub encode : Entry → Bytes
unfolding wr32
encode x = x.flags ∷ wr32 x.size ++ (wr32 x.mtime ++ (wr32 x.ctime ++ (x.name ++ 0 ∷ [])))

-- What the loop of READDIRX has: the entries put into the body so far, the count, `dstatus`.
pub record Batch : Type 0 where
  pub bytes : Bytes
  pub count : ℕ
  pub dstatus : ℕ

abbrev pub no_entries : Batch
no_entries = record { bytes = []; count = 0; dstatus = 0 }

-- One turn of the loop; `rest` is the loop after it, `out` is the body from offset 5 on.
unfoldable pub batch_turn :
    {E : Type 0}
    → (Batch → Dirslot → E → Batch × Dirslot × E)
    → Batch
    → Option Entry × Dirslot × E
    → Batch × Dirslot × E
unfolding encode dir_stash
batch_turn rest b (none, d, e) = (record b { dstatus = dirstatus_eof }, d, e)
batch_turn rest b (some x, d, e) =
    let more = rest (record b { bytes = b.bytes ++ encode x; count = b.count + 1 }) d e in
    if ltb body_cap (5 + length b.bytes + (readdirx_fixed + length x.name + 1))
    then (b, dir_stash d x, e)
    else more

-- The loop on `numwanted - count`.
unfoldable pub batch_from : {E : Type 0} → Os E → ℕ → Batch → Dirslot → E → Batch × Dirslot × E
unfolding batch_turn dir_next
batch_from os zero b d e = (b, d, e)
batch_from os (suc wanted) b d e = batch_turn (batch_from os wanted) b (dir_next os d e)

unfoldable pub readdirx_done : {E : Type 0} → Session → ℕ → Batch × Dirslot × E → Handled E
unfolding wr16
readdirx_done s h (b, d, e) = if b.count == 0 then answer st_eof (put_slot s h d) e else (
  st_ok ∷ b.count ∷ b.dstatus ∷ wr16 d.pos ++ b.bytes,
  put_slot s h (record d { pos = (d.pos + b.count) % 2 ^ 16 }),
  e,
)

unfoldable pub h_readdirx : {E : Type 0} → Os E → Session → Bytes → E → Handled E
unfolding readdirx_done is_open batch_from
h_readdirx os s [] e = answer st_einval s e
h_readdirx os s (h ∷ []) e = answer st_einval s e
h_readdirx os s (h ∷ numwanted ∷ _) e =
    let wanted = if numwanted == 0 then 1 else numwanted in
    if not (is_open s h)
    then answer st_ebadf s e
    else readdirx_done s h (
        batch_from os wanted (record { bytes = []; count = 0; dstatus = 0 })
          (get_or s.dirs h zero_slot) e)

unfoldable pub h_closedir : {E : Type 0} → Os E → Session → Bytes → E → Handled E
unfolding is_open
h_closedir os s [] e = answer st_einval s e
h_closedir os s (h ∷ _) e =
    if not (is_open s h)
    then answer st_ebadf s e
    else answer st_ok (put_slot s h zero_slot) (os.closedir (get_or s.dirs h zero_slot).dir e)
