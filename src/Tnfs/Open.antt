-- ===== src/Tnfs/Open.antt =====
-- src/net/tnfs.c: tnfs_open.
use fdc_sds_pio.Prelude.{
  Bool, Bytes, [], false, get_or, if◌then◌else◌, inl, inr, length, ltb, not, true, ℕ, ◌++◌, ◌+◌,
  ◌-◌, ◌||◌, ◌∷◌, ◌⊎◌,
}
use fdc_sds_pio.Esp.{Esp, err_no_mem, err_timeout, esp_fail, esp_ok, is_ok}
use fdc_sds_pio.Tnfs.Net.{Net}
use fdc_sds_pio.Tnfs.Url.{Url, tnfs_url_parse}
use fdc_sds_pio.Tnfs.Client.{
  Called, File, status, status_err, tnfs_command, tnfs_query_size, tnfs_try, try_both,
}
use fdc_sds_pio.Tnfs.Proto.{hdr_len, msg_cap, wr16}
use fdc_sds_pio.Tnfs.Cmd.{cmd_open, cmd_umount}

-- What `calloc` gives; the socket is set before it is used.
abbrev pub new_file : File
new_file = record {
  sock = 0;
  tcp = false;
  conn = 0;
  seq = 0;
  fd = 0;
  size = 0;
  pos = 0;
  pos_valid = false;
  resp = [];
}

-- The flags of OPEN.
unfoldable pub open_word : Bool → Bool → ℕ
open_word writable create = if create then 770 else if writable then 3 else 1

-- The label `fail_open`: the session goes, and there is an error in any case.
unfoldable pub fail_open : {E : Type 0} → Net E → Esp → File → E → (File ⊎ Esp) × E
unfolding tnfs_command
fail_open net err f e =
    let (_, f1, e1) = tnfs_command net f cmd_umount [] e in
    (inr (if is_ok err then esp_fail else err), net.free (net.close f1.sock e1))

unfoldable pub sized : {E : Type 0} → Called E → (File ⊎ Esp) × E
sized (_, f, e) = (inl (record f { pos_valid = false }), e)

unfoldable pub open_done : {E : Type 0} → Net E → Bool → Called E → (File ⊎ Esp) × E
unfolding fail_open status_err sized tnfs_query_size
open_done net create (err, f, e) =
    let result = if is_ok err then status_err (status f) else err in
    let opened = record f { fd = get_or f.resp 5 0; size = 0 } in
    let measured = sized (tnfs_query_size net opened e) in
    if not (is_ok result) || ltb (length f.resp) 6
    then fail_open net result f e
    else if create
    then (inl (record opened { pos_valid = false }), e)
    else measured

-- From the session on.
unfoldable pub open_mounted :
    {E : Type 0} → Net E → Bytes → Bool → Bool → Called E → (File ⊎ Esp) × E
unfolding open_done open_word tnfs_command wr16 fail_open
open_mounted net path writable create (err, f, e) =
    let pl = wr16 (open_word writable create) ++ (wr16 420 ++ (path ++ 0 ∷ [])) in
    if not (is_ok err)
    then (inr err_timeout, net.free e)
    else if ltb (msg_cap - hdr_len) (4 + (length path + 1))
    then fail_open net esp_ok f e
    else open_done net create (tnfs_command net f cmd_open pl e)

unfoldable pub open_allocated :
    {E : Type 0} → Net E → Url → Bool → Bool → Bool × E → (File ⊎ Esp) × E
unfolding open_mounted try_both tnfs_try
open_allocated net u writable create (false, e) = (inr err_no_mem, e)
open_allocated net u writable create (true, e) =
    open_mounted net u.path writable create
      (try_both net u.host u.port (tnfs_try net new_file u.host u.port false e))

unfoldable pub open_parsed : {E : Type 0} → Net E → Url ⊎ Esp → Bool → Bool → E → (File ⊎ Esp) × E
unfolding open_allocated
open_parsed net (inr err) writable create e = (inr err, e)
open_parsed net (inl u) writable create e = open_allocated net u writable create (net.calloc e)

-- `tnfs_open(url, writable, create, out)`
unfoldable pub tnfs_open : {E : Type 0} → Net E → Bytes → Bool → Bool → E → (File ⊎ Esp) × E
unfolding open_parsed tnfs_url_parse
tnfs_open net url writable create e = open_parsed net (tnfs_url_parse url 64 160) writable create e
