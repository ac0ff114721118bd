-- ===== src/TnfsServer/Names.antt =====
-- src/net/tnfs_server.c: the handlers of paths: STAT, MKDIR, RMDIR, UNLINK and RENAME.
use fdc_sds_pio.Prelude.{
  Bool, Bytes, Option, false, if◌then◌else◌, inl, inr, length, ltb, none, some, true, ℕ, ◌%◌, ◌++◌,
  ◌^◌, ◌∷◌, ◌⊎◌,
}
use fdc_sds_pio.TnfsServer.Os.{Errno, Os, Stat, e_busy}
use fdc_sds_pio.TnfsServer.State.{Session, abs_cap, errno_to_tnfs}
use fdc_sds_pio.TnfsServer.Paths.{memchr_nul, resolve_path}
use fdc_sds_pio.TnfsServer.Files.{Handled, answer, is_refused}
use fdc_sds_pio.Tnfs.Status.{st_ebusy, st_einval, st_ok}
use fdc_sds_pio.Tnfs.Proto.{wr16, wr32}

unfoldable pub stat_done : {E : Type 0} → Session → Stat ⊎ Errno → E → Handled E
unfolding errno_to_tnfs wr16 wr32
stat_done s (inr err) e = answer (errno_to_tnfs err) s e
stat_done s (inl sb) e = (
  st_ok ∷ wr16 (sb.st_mode % 2 ^ 16)
      ++ (wr16 0
          ++ (wr16 0
              ++ (wr32 (sb.st_size % 2 ^ 32)
                  ++ (wr32 (sb.st_mtime % 2 ^ 32)
                      ++ (wr32 (sb.st_mtime % 2 ^ 32) ++ wr32 (sb.st_mtime % 2 ^ 32)))))),
  s,
  e,
)

unfoldable pub stat_resolved : {E : Type 0} → Os E → Session → Bytes ⊎ ℕ → E → Handled E
unfolding stat_done
stat_resolved os s (inr st) e = answer st s e
stat_resolved os s (inl abs) e = stat_done s (os.stat abs e) e

unfoldable pub stat_named : {E : Type 0} → Os E → Session → Option (Bytes × Bytes) → E → Handled E
unfolding stat_resolved resolve_path
stat_named os s none e = answer st_einval s e
stat_named os s (some (path, _)) e = stat_resolved os s (resolve_path s path abs_cap) e

unfoldable pub h_stat : {E : Type 0} → Os E → Session → Bytes → E → Handled E
unfolding stat_named memchr_nul
h_stat os s pl e = stat_named os s (memchr_nul pl) e

-- The status after a call that gave 0 or not.
unfoldable pub status_of : {E : Type 0} → Os E → Bool → E → ℕ
unfolding errno_to_tnfs
status_of os true e = st_ok
status_of os false e = errno_to_tnfs (os.errno e)

unfoldable pub pathop_resolved :
    {E : Type 0} → Os E → Session → (Bytes → E → Bool × E) → Bytes ⊎ ℕ → E → Handled E
unfolding status_of
pathop_resolved os s op (inr st) e = answer st s e
pathop_resolved os s op (inl abs) e = let (r, e1) = op abs e in answer (status_of os r e1) s e1

unfoldable pub pathop_named :
    {E : Type 0} → Os E → Session → (Bytes → E → Bool × E) → Option (Bytes × Bytes) → E → Handled E
unfolding pathop_resolved resolve_path
pathop_named os s op none e = answer st_einval s e
pathop_named os s op (some (path, _)) e = pathop_resolved os s op (resolve_path s path abs_cap) e

unfoldable pub h_pathop :
    {E : Type 0} → Os E → Session → Bytes → (Bytes → E → Bool × E) → E → Handled E
unfolding pathop_named memchr_nul
h_pathop os s pl op e = pathop_named os s op (memchr_nul pl) e

unfoldable pub unlink_op : {E : Type 0} → Os E → Bytes → E → Bool × E
unfolding is_refused
unlink_op os p e =
    let (r, e1) = os.disk_change_begin p e in
    let (done, e2) = os.unlink p e1 in
    if is_refused r
    then (false, os.set_errno e_busy e1)
    else (done, os.set_errno (os.errno e2) (os.disk_change_end e2))

unfoldable pub rename_resolved :
    {E : Type 0} → Os E → Session → Bytes ⊎ ℕ → Bytes ⊎ ℕ → E → Handled E
unfolding status_of is_refused
rename_resolved os s (inr st) new e = answer st s e
rename_resolved os s (inl oabs) (inr st) e = answer st s e
rename_resolved os s (inl oabs) (inl nabs) e =
    let (r, e1) = os.disk_change_begin oabs e in
    let (done, e2) = os.rename oabs nabs e1 in
    if is_refused r
    then answer st_ebusy s e1
    else answer (status_of os done e2) s (os.disk_change_end e2)

-- The second string of the payload.
unfoldable pub rename_to :
    {E : Type 0} → Os E → Session → Bytes → Option (Bytes × Bytes) → E → Handled E
unfolding rename_resolved resolve_path
rename_to os s oldp none e = answer st_einval s e
rename_to os s oldp (some (newp, _)) e =
    rename_resolved os s (resolve_path s oldp abs_cap) (resolve_path s newp abs_cap) e

unfoldable pub rename_from : {E : Type 0} → Os E → Session → Option (Bytes × Bytes) → E → Handled E
unfolding rename_to memchr_nul
rename_from os s none e = answer st_einval s e
rename_from os s (some (oldp, rest)) e = rename_to os s oldp (memchr_nul rest) e

unfoldable pub h_rename : {E : Type 0} → Os E → Session → Bytes → E → Handled E
unfolding rename_from memchr_nul
h_rename os s pl e =
    if ltb (length pl) 2 then answer st_einval s e else rename_from os s (memchr_nul pl) e
