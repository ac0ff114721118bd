-- ===== src/TnfsServer/Files.antt =====
-- src/net/tnfs_server.c: the handlers of files. A handler has the payload of the request, and gives
-- the body of the reply, from its status byte on, and the session.
use fdc_sds_pio.Tnfs.Proto.{io_chunk, rd16, rd32, wr16, wr32}
use fdc_sds_pio.Prelude.{
  Bool, Bytes, List, Option, [], drop, false, get_or, if◌then◌else◌, inl, inr, leb, length, ltb,
  min, negsuc, none, pos, set, some, suc, take, true, ℕ, ℤ, ◌%◌, ◌&&◌, ◌++◌, ◌+◌, ◌-◌, ◌/◌, ◌==◌,
  ◌^◌, ◌||◌, ◌∷◌, ◌⊎◌,
}
use fdc_sds_pio.TnfsServer.Os.{
  Access, OpenFlags, Os, Whence, read_only, read_write, seek_cur, seek_end, seek_set, write_only,
}
use fdc_sds_pio.TnfsServer.State.{Session, abs_cap, errno_to_tnfs, max_files}
use fdc_sds_pio.TnfsServer.Paths.{memchr_nul, resolve_path}
use fdc_sds_pio.Tnfs.Status.{st_ebadf, st_ebusy, st_einval, st_emfile, st_eof, st_ok}

abbrev pub Handled : Type 0 → Type 0
Handled E = Bytes × Session × E

-- A body that is only a status.
abbrev pub answer : {E : Type 0} → ℕ → Session → E → Handled E
answer status s e = (status ∷ [], s, e)

-- `disk_change_begin(path) >= 0`
unfoldable pub is_refused : ℤ → Bool
is_refused (pos _) = true
is_refused (negsuc _) = false

-- The first free file slot.
unfoldable pub free_file : List (Option ℕ) → ℕ → Option ℕ
free_file [] i = none
free_file (none ∷ fs) i = some i
free_file (some _ ∷ fs) i = free_file fs (suc i)

unfoldable pub access_of : ℕ → Access
access_of tf = if tf % 4 == 2 then write_only else if tf % 4 == 3 then read_write else read_only

-- `tf & (1 << k)`
abbrev has_flag : ℕ → ℕ → Bool
has_flag tf k = tf / 2 ^ k % 2 == 1

unfoldable pub open_flags : ℕ → OpenFlags
unfolding access_of
open_flags tf = record {
  access = access_of tf;
  append = has_flag tf 3;
  creat = has_flag tf 8;
  trunc = has_flag tf 9;
  excl = has_flag tf 10;
}

unfoldable pub is_writing : Access → Bool
is_writing read_only = false
is_writing write_only = true
is_writing read_write = true

-- `(of & (O_WRONLY | O_RDWR | O_TRUNC | O_APPEND)) != 0`
unfoldable pub writes : OpenFlags → Bool
unfolding is_writing
writes of = is_writing of.access || of.trunc || of.append

-- From the result of `open` on.
unfoldable pub open_opened : {E : Type 0} → Os E → Session → ℕ → Bool → Option ℕ → E → Handled E
unfolding errno_to_tnfs
open_opened os s slot guarded none e =
    answer (errno_to_tnfs (os.errno e)) s (if guarded then os.disk_change_end e else e)
open_opened os s slot guarded (some fd) e = (
  st_ok ∷ slot % 2 ^ 8 ∷ [],
  record s { files = set s.files slot (some fd) },
  (if guarded then os.disk_change_end e else e),
)

unfoldable pub open_flagged : {E : Type 0} → Os E → Session → ℕ → Bytes → OpenFlags → E → Handled E
unfolding open_opened writes is_refused
open_flagged os s slot abs of e =
    let (r, e1) = if writes of then os.disk_change_begin abs e else (negsuc 0, e) in
    let (fd, e2) = os.open_file abs of e1 in
    if writes of && is_refused r
    then answer st_ebusy s e1
    else open_opened os s slot (writes of) fd e2

unfoldable pub open_slot : {E : Type 0} → Os E → Session → Option ℕ → Bytes → ℕ → E → Handled E
unfolding open_flagged open_flags
open_slot os s none abs tf e = answer st_emfile s e
open_slot os s (some slot) abs tf e = open_flagged os s slot abs (open_flags tf) e

unfoldable pub open_resolved : {E : Type 0} → Os E → Session → Bytes ⊎ ℕ → ℕ → E → Handled E
unfolding open_slot free_file
open_resolved os s (inr st) tf e = answer st s e
open_resolved os s (inl abs) tf e = open_slot os s (free_file s.files 0) abs tf e

unfoldable pub open_named :
    {E : Type 0} → Os E → Session → Option (Bytes × Bytes) → ℕ → E → Handled E
unfolding open_resolved resolve_path
open_named os s none tf e = answer st_einval s e
open_named os s (some (path, _)) tf e = open_resolved os s (resolve_path s path abs_cap) tf e

unfoldable pub h_open : {E : Type 0} → Os E → Session → Bytes → E → Handled E
unfolding open_named memchr_nul rd16
h_open os s pl e =
    if ltb (length pl) 5
    then answer st_einval s e
    else open_named os s (memchr_nul (drop 4 pl)) (rd16 pl) e

unfoldable pub read_done : {E : Type 0} → Os E → Session → ℕ → Option Bytes → E → Handled E
unfolding errno_to_tnfs wr16
read_done os s want none e = answer (errno_to_tnfs (os.errno e)) s e
read_done os s want (some bytes) e =
    if length bytes == 0 && ltb 0 want
    then answer st_eof s e
    else (st_ok ∷ wr16 (length bytes % 2 ^ 16) ++ bytes, s, e)

unfoldable pub read_slot : {E : Type 0} → Os E → Session → Option ℕ → ℕ → E → Handled E
unfolding read_done
read_slot os s none want e = answer st_ebadf s e
read_slot os s (some fd) want e = let (r, e1) = os.read fd want e in read_done os s want r e1

-- `fd >= TNFSD_MAX_FILES || s->files[fd] < 0` is a slot that gives none.
unfoldable pub file_at : Session → ℕ → Option ℕ
file_at s fd = if leb max_files fd then none else get_or s.files fd none

unfoldable pub h_read : {E : Type 0} → Os E → Session → Bytes → E → Handled E
unfolding read_slot file_at rd16
h_read os s pl e =
    if ltb (length pl) 3
    then answer st_einval s e
    else read_slot os s (file_at s (get_or pl 0 0)) (min (rd16 (drop 1 pl)) io_chunk) e

unfoldable pub write_done : {E : Type 0} → Os E → Session → Option ℕ → E → Handled E
unfolding errno_to_tnfs wr16
write_done os s none e = answer (errno_to_tnfs (os.errno e)) s e
write_done os s (some w) e = (st_ok ∷ wr16 (w % 2 ^ 16), s, e)

unfoldable pub write_slot : {E : Type 0} → Os E → Session → Option ℕ → Bytes → E → Handled E
unfolding write_done
write_slot os s none bytes e = answer st_ebadf s e
write_slot os s (some fd) bytes e = let (r, e1) = os.write fd bytes e in write_done os s r e1

unfoldable pub h_write : {E : Type 0} → Os E → Session → Bytes → E → Handled E
unfolding write_slot file_at rd16
h_write os s pl e =
    if ltb (length pl) 3
    then answer st_einval s e
    else let cnt = rd16 (drop 1 pl) in
      if ltb (length pl) (3 + cnt)
      then answer st_einval s e
      else write_slot os s (file_at s (get_or pl 0 0)) (take cnt (drop 3 pl)) e

unfoldable pub close_slot : {E : Type 0} → Os E → Session → ℕ → Option ℕ → E → Handled E
close_slot os s i none e = answer st_ebadf s e
close_slot os s i (some fd) e =
    answer st_ok (record s { files = set s.files i none }) (os.close fd e)

unfoldable pub h_close : {E : Type 0} → Os E → Session → Bytes → E → Handled E
unfolding close_slot file_at
h_close os s [] e = answer st_einval s e
h_close os s (fd ∷ _) e = close_slot os s fd (file_at s fd) e

-- `(int32_t)` of a 32-bit word.
unfoldable pub to_int32 : ℕ → ℤ
to_int32 u = if ltb u (2 ^ 31) then pos u else negsuc (2 ^ 32 - 1 - u)

unfoldable pub whence_of : ℕ → Option Whence
whence_of w =
    if w == 0
    then some seek_set
    else if w == 1
    then some seek_cur
    else if w == 2
    then some seek_end
    else none

unfoldable pub lseek_done : {E : Type 0} → Os E → Session → Option ℕ → E → Handled E
unfolding errno_to_tnfs wr32
lseek_done os s none e = answer (errno_to_tnfs (os.errno e)) s e
lseek_done os s (some r) e = (st_ok ∷ wr32 (r % 2 ^ 32), s, e)

unfoldable pub lseek_slot :
    {E : Type 0} → Os E → Session → Option ℕ → Option Whence → ℤ → E → Handled E
unfolding lseek_done
lseek_slot os s none w off e = answer st_ebadf s e
lseek_slot os s (some fd) none off e = answer st_einval s e
lseek_slot os s (some fd) (some w) off e = let (r, e1) = os.lseek fd off w e in lseek_done os s r e1

unfoldable pub h_lseek : {E : Type 0} → Os E → Session → Bytes → E → Handled E
unfolding lseek_slot file_at whence_of to_int32 rd32
h_lseek os s pl e =
    if ltb (length pl) 6
    then answer st_einval s e
    else lseek_slot os s (file_at s (get_or pl 0 0)) (whence_of (get_or pl 1 0))
        (to_int32 (rd32 (drop 2 pl))) e
