-- ===== src/TnfsServer/Dirs.antt =====
-- src/net/tnfs_server.c: the open directories of a session and their iteration.
pub mod Listing
use fdc_sds_pio.Prelude.{
  Bool, Bytes, List, Option, [], codes, drop, eq_bytes, false, if◌then◌else◌, inl, inr, length, ltb,
  none, not, set, some, strlcpy, suc, true, zero, ℕ, ◌%◌, ◌&&◌, ◌++◌, ◌+◌, ◌==◌, ◌^◌, ◌||◌, ◌∷◌,
  ◌⊎◌,
}
use fdc_sds_pio.TnfsServer.Os.{Dirent, Errno, Os, Stat}
use fdc_sds_pio.TnfsServer.State.{
  Dirslot, Entry, Session, abs_cap, errno_to_tnfs, name_cap, pat_cap, zero_slot,
}
use fdc_sds_pio.TnfsServer.Paths.{memchr_nul, resolve_path}
use fdc_sds_pio.TnfsServer.Files.{Handled, answer}
use fdc_sds_pio.Tnfs.Status.{st_einval, st_emfile, st_ok}
use fdc_sds_pio.Tnfs.Proto.{direntry_dir, wr16}
use fdc_sds_pio.Wildcard.{wildcard_match_ci}
use fdc_sds_pio.Sd.{first_is}

unfoldable pub dir_stash : Dirslot → Entry → Dirslot
dir_stash d x = record d { pending = some (record x { name = strlcpy name_cap x.name }) }

-- `wildcard_match_ci`, which always answers.
unfoldable pub matched : Option Bool → Bool
matched none = false
matched (some b) = b

-- An entry that is neither hidden nor left out by the pattern.
unfoldable pub is_visible : Bytes → Bytes → Bool
unfolding matched
is_visible pattern name =
    not (first_is b'.' name) && (length pattern == 0 || matched (wildcard_match_ci pattern name))

unfoldable pub stat_entry : Dirent → Stat ⊎ Errno → Entry
stat_entry de (inl st) = record {
  flags = if st.is_dir then direntry_dir else 0;
  size = st.st_size % 2 ^ 32;
  mtime = st.st_mtime % 2 ^ 32;
  ctime = st.st_mtime % 2 ^ 32;
  name = strlcpy name_cap de.d_name;
}
stat_entry de (inr err) = record {
  flags = if de.d_dir then direntry_dir else 0;
  size = 0;
  mtime = 0;
  ctime = 0;
  name = strlcpy name_cap de.d_name;
}

-- An entry whose full path does not fit is not looked up.
unfoldable pub bare_entry : Dirent → Entry
bare_entry de = record {
  flags = 0;
  size = 0;
  mtime = 0;
  ctime = 0;
  name = strlcpy name_cap de.d_name;
}

unfoldable pub entry_of : {E : Type 0} → Os E → Bytes → Dirent → E → Entry
unfolding stat_entry bare_entry
entry_of os abspath de e =
    let full = abspath ++ b'/' ∷ de.d_name in
    if ltb (length full) abs_cap then stat_entry de (os.stat full e) else bare_entry de

-- The loop over readdir, on the number of turns that it may take.
unfoldable pub next_turn :
    {E : Type 0} → Os E → Dirslot → (E → Option Entry × E) → Option Dirent × E → Option Entry × E
unfolding is_visible entry_of
next_turn os d rest (none, e) = (none, e)
next_turn os d rest (some de, e) =
    let next = rest e in
    if is_visible d.pattern de.d_name then (some (entry_of os d.abspath de e), e) else next

unfoldable pub next_visible : {E : Type 0} → Os E → ℕ → Dirslot → E → Option Entry × E
unfolding next_turn
next_visible os zero d e = (none, e)
next_visible os (suc f) d e = next_turn os d (next_visible os f d) (os.readdir d.dir e)

-- One turn for each entry that the stream has left, and one for its end.
unfoldable pub turns : {E : Type 0} → Os E → Dirslot → E → ℕ
turns os d e = suc (length (os.entries d.dir e))

unfoldable pub next_or_pending :
    {E : Type 0} → Os E → Option Entry → Dirslot → E → Option Entry × Dirslot × E
unfolding next_visible turns
next_or_pending os (some x) d e =
    (some (record x { name = strlcpy name_cap x.name }), record d { pending = none }, e)
next_or_pending os none d e = let (x, e1) = next_visible os (turns os d e) d e in (x, d, e1)

-- `dir_next(d, …)`: the next entry, or none for false.
unfoldable pub dir_next : {E : Type 0} → Os E → Dirslot → E → Option Entry × Dirslot × E
unfolding next_or_pending
dir_next os d e = next_or_pending os d.pending d e

unfoldable pub free_dir : List Dirslot → ℕ → Option ℕ
free_dir [] i = none
free_dir (d ∷ ds) i = let rest = free_dir ds (suc i) in if d.in_use then rest else some i

-- The slot of a directory just opened.
unfoldable pub opened_slot : ℕ → Bytes → Bytes → Dirslot
opened_slot dir abs pattern = record zero_slot {
  in_use = true;
  dir = dir;
  abspath = strlcpy abs_cap abs;
  pattern = pattern;
}

unfoldable pub opendir_slot : {E : Type 0} → Os E → Session → Option ℕ → Bytes → E → Handled E
unfolding errno_to_tnfs opened_slot
opendir_slot os s none abs e = answer st_emfile s e
opendir_slot os s (some slot) abs e =
    let (d, e1) = os.opendir abs e in
    if d == 0
    then answer (errno_to_tnfs (os.errno e1)) s e1
    else (st_ok ∷ slot % 2 ^ 8 ∷ [], record s { dirs = set s.dirs slot (opened_slot d abs []) }, e1)

unfoldable pub opendir_resolved : {E : Type 0} → Os E → Session → Bytes ⊎ ℕ → E → Handled E
unfolding opendir_slot free_dir
opendir_resolved os s (inr st) e = answer st s e
opendir_resolved os s (inl abs) e = opendir_slot os s (free_dir s.dirs 0) abs e

unfoldable pub opendir_named :
    {E : Type 0} → Os E → Session → Option (Bytes × Bytes) → E → Handled E
unfolding opendir_resolved resolve_path
opendir_named os s none e = answer st_einval s e
opendir_named os s (some (path, _)) e = opendir_resolved os s (resolve_path s path abs_cap) e

unfoldable pub h_opendir : {E : Type 0} → Os E → Session → Bytes → E → Handled E
unfolding opendir_named memchr_nul
h_opendir os s pl e = opendir_named os s (memchr_nul pl) e

-- "" and "*" match all.
unfoldable pub pattern_of : Bytes → Bytes
pattern_of pat =
    if ltb 0 (length pat) && not (eq_bytes pat (codes "*")) then strlcpy pat_cap pat else []

-- The loop that counts the entries that match.
unfoldable pub count_turn : {E : Type 0} → Bytes → (ℕ → E → ℕ × E) → ℕ → Option Dirent × E → ℕ × E
unfolding is_visible
count_turn pattern rest count (none, e) = (count, e)
count_turn pattern rest count (some de, e) =
    rest (if is_visible pattern de.d_name then (count + 1) % 2 ^ 16 else count) e

unfoldable pub count_from : {E : Type 0} → Os E → ℕ → Dirslot → ℕ → E → ℕ × E
unfolding count_turn
count_from os zero d count e = (count, e)
count_from os (suc f) d count e =
    count_turn d.pattern (count_from os f d) count (os.readdir d.dir e)

unfoldable pub opendirx_slot :
    {E : Type 0} → Os E → Session → Option ℕ → Bytes → Bytes → E → Handled E
unfolding errno_to_tnfs opened_slot count_from turns pattern_of wr16
opendirx_slot os s none abs pat e = answer st_emfile s e
opendirx_slot os s (some slot) abs pat e =
    let (d, e1) = os.opendir abs e in
    let ds = opened_slot d abs (pattern_of pat) in
    let (count, e2) = count_from os (turns os ds e1) ds 0 e1 in
    if d == 0 then answer (errno_to_tnfs (os.errno e1)) s e1 else (
      st_ok ∷ slot % 2 ^ 8 ∷ wr16 count,
      record s { dirs = set s.dirs slot ds },
      os.rewinddir d e2,
    )

unfoldable pub opendirx_resolved : {E : Type 0} → Os E → Session → Bytes ⊎ ℕ → Bytes → E → Handled E
unfolding opendirx_slot free_dir
opendirx_resolved os s (inr st) pat e = answer st s e
opendirx_resolved os s (inl abs) pat e = opendirx_slot os s (free_dir s.dirs 0) abs pat e

unfoldable pub opendirx_path :
    {E : Type 0} → Os E → Session → Bytes → Option (Bytes × Bytes) → E → Handled E
unfolding opendirx_resolved resolve_path
opendirx_path os s pat none e = answer st_einval s e
opendirx_path os s pat (some (path, _)) e =
    opendirx_resolved os s (resolve_path s path abs_cap) pat e

unfoldable pub opendirx_pattern :
    {E : Type 0} → Os E → Session → Option (Bytes × Bytes) → E → Handled E
unfolding opendirx_path memchr_nul
opendirx_pattern os s none e = answer st_einval s e
opendirx_pattern os s (some (pat, rest)) e = opendirx_path os s pat (memchr_nul rest) e

unfoldable pub h_opendirx : {E : Type 0} → Os E → Session → Bytes → E → Handled E
unfolding opendirx_pattern memchr_nul
h_opendirx os s pl e =
    if ltb (length pl) 5
    then answer st_einval s e
    else opendirx_pattern os s (memchr_nul (drop 4 pl)) e
