-- ===== src/Tnfs/Listing.antt =====
-- src/net/tnfs.c: the listing of a directory. The calls of `cb` are a list. A server decides how many
-- rounds a listing takes: the loops run for a given number of rounds, and none as a result means that
-- the call is still going on then.
pub mod RoundTrip
use fdc_sds_pio.Prelude.{
  Bool, Bytes, List, Option, [], drop, false, get_or, if◌then◌else◌, inl, inr, leb, length, ltb,
  none, not, some, suc, take, true, zero, ℕ, ◌%◌, ◌&&◌, ◌++◌, ◌+◌, ◌-◌, ◌==◌, ◌||◌, ◌∷◌, ◌⊎◌,
}
use fdc_sds_pio.Esp.{
  Esp, err_invalid_arg, err_invalid_size, err_no_mem, err_not_found, err_not_supported, err_timeout,
  esp_fail, esp_ok, is_ok,
}
use fdc_sds_pio.Sd.{has_byte}
use fdc_sds_pio.TnfsServer.Paths.{memchr_nul}
use fdc_sds_pio.Tnfs.{tnfs_is_url}
use fdc_sds_pio.Tnfs.Net.{Net}
use fdc_sds_pio.Tnfs.Url.{Url, tnfs_url_parse}
use fdc_sds_pio.Tnfs.Client.{Called, File, status, status_err, tnfs_command, tnfs_try, try_both}
use fdc_sds_pio.Tnfs.Open.{new_file}
use fdc_sds_pio.Tnfs.Proto.{hdr_len, msg_cap, readdirx_fixed, wr16}
use fdc_sds_pio.Tnfs.Cmd.{
  cmd_closedir, cmd_opendir, cmd_opendirx, cmd_readdir, cmd_readdirx, cmd_umount,
}
use fdc_sds_pio.Tnfs.Status.{st_enoent, st_eof, st_ok}

-- The calls of `cb`: the name, and whether it is a directory.
abbrev pub Calls : Type 0
Calls = List (Bytes × Bool)

-- What a listing has given: the result, the handle, the calls, the session and the state.
abbrev pub Listed : Type 0 → Type 0
Listed E = Option Esp × ℕ × Calls × File × E

-- `if (name[0]) cb(name, is_dir, ctx);`
unfoldable pub call_back : Bytes → Bool → Calls → Calls
call_back [] is_dir calls = calls
call_back (c ∷ name) is_dir calls = calls ++ (c ∷ name, is_dir) ∷ []

-- The loop over the entries of a reply: whether it has got through, and the calls.
unfoldable pub parse_named :
    (Bytes → Calls → Bool × Calls) → ℕ → Option (Bytes × Bytes) → Calls → Bool × Calls
unfolding call_back
parse_named rest flags none calls = (false, calls)
parse_named rest flags (some (name, p)) calls = rest p (call_back name (flags % 2 == 1) calls)

unfoldable pub parse_entries : ℕ → Bytes → Calls → Bool × Calls
unfolding parse_named memchr_nul
parse_entries zero p calls = (true, calls)
parse_entries (suc n) p calls =
    let named =
      parse_named (parse_entries n) (get_or p 0 0) (memchr_nul (drop readdirx_fixed p)) calls in
    if leb (length p) readdirx_fixed then (false, calls) else named

-- The reply to one READDIRX; `rest` is the rounds after it.
unfoldable pub listx_parsed :
    {E : Type 0} → (Calls → File → E → Listed E) → ℕ → ℕ → Bool × Calls → File → E → Listed E
listx_parsed rest dh dstatus (false, calls) f e = (some esp_fail, dh, calls, f, e)
listx_parsed rest dh dstatus (true, calls) f e =
    let more = rest calls f e in if dstatus % 2 == 1 then (some esp_ok, dh, calls, f, e) else more

unfoldable pub listx_reply :
    {E : Type 0} → (Calls → File → E → Listed E) → ℕ → Calls → Called E → Listed E
unfolding listx_parsed parse_entries
listx_reply rest dh calls (err, f, e) =
    let parsed =
      listx_parsed rest dh (get_or f.resp 6 0)
        (parse_entries (get_or f.resp 5 0) (drop 9 f.resp) calls) f e in
    if not (is_ok err)
    then (some err, dh, calls, f, e)
    else if status f == st_eof
    then (some esp_ok, dh, calls, f, e)
    else if not (status f == st_ok) || ltb (length f.resp) 9
    then (some esp_fail, dh, calls, f, e)
    else parsed

unfoldable pub listx_rounds : {E : Type 0} → Net E → ℕ → ℕ → Calls → File → E → Listed E
unfolding listx_reply tnfs_command
listx_rounds net zero dh calls f e = (none, dh, calls, f, e)
listx_rounds net (suc n) dh calls f e =
    listx_reply (listx_rounds net n dh) dh calls (tnfs_command net f cmd_readdirx (dh ∷ 1 ∷ []) e)

unfoldable pub listx_opened : {E : Type 0} → Net E → ℕ → Called E → Listed E
unfolding listx_rounds
listx_opened net rounds (err, f, e) =
    let listed = listx_rounds net rounds (get_or f.resp 5 0) [] f e in
    let refused = if status f == st_enoent then err_not_found else err_not_supported in
    if not (is_ok err)
    then (some err, 0, [], f, e)
    else if not (status f == st_ok) || ltb (length f.resp) 6
    then (some refused, 0, [], f, e)
    else listed

-- `tnfs_listx(f, path, dh, cb, ctx)`, with `*dh` 0 before it.
unfoldable pub tnfs_listx : {E : Type 0} → Net E → ℕ → File → Bytes → E → Listed E
unfolding listx_opened tnfs_command wr16
tnfs_listx net rounds f path e =
    let pl = 0 ∷ 0 ∷ wr16 0 ++ 0 ∷ path ++ 0 ∷ [] in
    if ltb (msg_cap - hdr_len) (5 + (length path + 1))
    then (some err_invalid_size, 0, [], f, e)
    else listx_opened net rounds (tnfs_command net f cmd_opendirx pl e)

-- The name in a reply to READDIR, where there is something behind the status.
unfoldable pub cut_name : Bytes → Option (Bytes × Bytes) → Bytes
cut_name resp (some (name, _)) = name
cut_name resp none =
    if ltb (length resp) msg_cap then drop 5 resp else take (length resp - 5 - 1) (drop 5 resp)

unfoldable pub basic_reply :
    {E : Type 0} → (Calls → File → E → Listed E) → ℕ → Calls → Called E → Listed E
unfolding call_back cut_name memchr_nul
basic_reply rest dh calls (err, f, e) =
    let skipped = rest calls f e in
    let more = rest (call_back (cut_name f.resp (memchr_nul (drop 5 f.resp))) false calls) f e in
    if not (is_ok err)
    then (some err, dh, calls, f, e)
    else if status f == st_eof
    then (some esp_ok, dh, calls, f, e)
    else if not (status f == st_ok)
    then (some esp_fail, dh, calls, f, e)
    else if leb (length f.resp) 5
    then skipped
    else more

unfoldable pub basic_rounds : {E : Type 0} → Net E → ℕ → ℕ → Calls → File → E → Listed E
unfolding basic_reply tnfs_command
basic_rounds net zero dh calls f e = (none, dh, calls, f, e)
basic_rounds net (suc n) dh calls f e =
    basic_reply (basic_rounds net n dh) dh calls (tnfs_command net f cmd_readdir (dh ∷ []) e)

unfoldable pub basic_opened : {E : Type 0} → Net E → ℕ → ℕ → Calls → Called E → Listed E
unfolding basic_rounds status_err
basic_opened net rounds dh calls (err, f, e) =
    let result = if is_ok err then status_err (status f) else err in
    let listed = basic_rounds net rounds (get_or f.resp 5 0) calls f e in
    if not (is_ok result) || ltb (length f.resp) 6
    then (some (if is_ok result then esp_fail else result), dh, calls, f, e)
    else listed

-- `tnfs_list_basic(f, path, dh, cb, ctx)`
unfoldable pub tnfs_list_basic : {E : Type 0} → Net E → ℕ → Bytes → ℕ → Calls → File → E → Listed E
unfolding basic_opened tnfs_command
tnfs_list_basic net rounds path dh calls f e =
    if ltb (msg_cap - hdr_len) (length path + 1)
    then (some err_invalid_size, dh, calls, f, e)
    else basic_opened net rounds dh calls (tnfs_command net f cmd_opendir (path ++ 0 ∷ []) e)

-- `err == ESP_ERR_NOT_SUPPORTED`
unfoldable pub is_unsupported : Esp → Bool
is_unsupported err_not_supported = true
is_unsupported _ = false

-- The basic listing where the extended one is not supported.
unfoldable pub fall_back : {E : Type 0} → Net E → ℕ → Bytes → Listed E → Listed E
unfolding tnfs_list_basic is_unsupported
fall_back net rounds path (none, dh, calls, f, e) = (none, dh, calls, f, e)
fall_back net rounds path (some err, dh, calls, f, e) =
    let basic = tnfs_list_basic net rounds path dh calls f e in
    if is_unsupported err then basic else (some err, dh, calls, f, e)

-- What the whole call gives: the result, the calls and the state.
unfoldable pub list_closed : {E : Type 0} → Net E → Listed E → Option Esp × Calls × E
unfolding tnfs_command
list_closed net (none, dh, calls, f, e) = (none, calls, e)
list_closed net (some err, dh, calls, f, e) =
    let (_, f1, e1) = tnfs_command net f cmd_closedir (dh ∷ []) e in
    let (_, f2, e2) = tnfs_command net f1 cmd_umount [] e1 in
    (some err, calls, net.free (net.close f2.sock e2))

unfoldable pub list_mounted : {E : Type 0} → Net E → ℕ → Bytes → Called E → Option Esp × Calls × E
unfolding list_closed fall_back tnfs_listx
list_mounted net rounds path (err, f, e) =
    let listed = list_closed net (fall_back net rounds path (tnfs_listx net rounds f path e)) in
    if not (is_ok err) then (some err_timeout, [], net.free e) else listed

unfoldable pub list_allocated : {E : Type 0} → Net E → ℕ → Url → Bool × E → Option Esp × Calls × E
unfolding list_mounted try_both tnfs_try
list_allocated net rounds u (false, e) = (some err_no_mem, [], e)
list_allocated net rounds u (true, e) =
    list_mounted net rounds u.path
      (try_both net u.host u.port (tnfs_try net new_file u.host u.port false e))

unfoldable pub list_parsed : {E : Type 0} → Net E → ℕ → Url ⊎ Esp → E → Option Esp × Calls × E
unfolding list_allocated
list_parsed net rounds (inr err) e = (some err, [], e)
list_parsed net rounds (inl u) e = list_allocated net rounds u (net.calloc e)

-- `tnfs_list_dir(url, cb, ctx)`
unfoldable pub tnfs_list_dir : {E : Type 0} → Net E → ℕ → Bytes → E → Option Esp × Calls × E
unfolding list_parsed tnfs_url_parse tnfs_is_url has_byte
tnfs_list_dir net rounds url e =
    let bare = not (has_byte b'/' (drop 7 url)) in
    let whole = if bare then url ++ b'/' ∷ [] else url in
    if not (tnfs_is_url url)
    then (some err_invalid_arg, [], e)
    else if bare && leb 240 (length whole)
    then (some err_invalid_arg, [], e)
    else list_parsed net rounds (tnfs_url_parse whole 64 160) e
