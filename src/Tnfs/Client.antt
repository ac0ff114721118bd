-- ===== src/Tnfs/Client.antt =====
-- src/net/tnfs.c: a session with a server, its commands, and the file that it has open.
pub mod Answer
use fdc_sds_pio.Prelude.{
  Bool, Bytes, Option, [], drop, false, get_or, if◌then◌else◌, inl, inr, leb, length, ltb, none,
  not, some, suc, true, zero, ℕ, ◌%◌, ◌&&◌, ◌++◌, ◌+◌, ◌==◌, ◌^◌, ◌||◌, ◌∷◌,
}
use fdc_sds_pio.Esp.{Esp, err_invalid_size, err_not_found, err_timeout, esp_fail, esp_ok, is_ok}
use fdc_sds_pio.Tnfs.Net.{Net, Ret}
use fdc_sds_pio.Tnfs.Framing.{tcp_response, udp_response}
use fdc_sds_pio.Tnfs.Proto.{hdr_len, msg_cap, rd16, rd32, ver_hi, ver_lo, wr16, wr32}
use fdc_sds_pio.Tnfs.Cmd.{cmd_close, cmd_lseek, cmd_mount, cmd_umount}
use fdc_sds_pio.Tnfs.Status.{st_eagain, st_enoent, st_ok}

abbrev pub tnfs_retries : ℕ
tnfs_retries = 3

abbrev pub tnfs_udp_ms : ℕ
tnfs_udp_ms = 700

abbrev pub tnfs_tcp_ms : ℕ
tnfs_tcp_ms = 3000

-- `struct tnfs_file`. `resp` is the last whole response, of `resp_len` bytes; what a response that
-- failed leaves in the buffer is never read. The payload that a caller puts into `req` is an
-- argument of tnfs_command.
pub record File : Type 0 where
  pub sock : ℕ
  pub tcp : Bool
  pub conn : ℕ
  pub seq : ℕ
  pub fd : ℕ
  pub size : ℕ
  pub pos : ℕ
  pub pos_valid : Bool
  pub resp : Bytes

abbrev pub status : File → ℕ
status f = get_or f.resp 4 0

-- What a call gives: an error code, the session and the state.
abbrev pub Called : Type 0 → Type 0
Called E = Esp × File × E

-- One response on either transport: none for the timeout of a datagram, which is retried.
unfoldable pub udp_received : {E : Type 0} → Option Bytes × E → Ret E (Option Bytes)
udp_received (resp, e) = (inl resp, e)

unfoldable pub tcp_received : {E : Type 0} → Ret E Bytes → Ret E (Option Bytes)
tcp_received (inr err, e) = (inr err, e)
tcp_received (inl resp, e) = (inl (some resp), e)

unfoldable pub receive : {E : Type 0} → Net E → File → ℕ → ℕ → E → Ret E (Option Bytes)
unfolding udp_received tcp_received tcp_response udp_response
receive net f s cmd e =
    if f.tcp
    then tcp_received (tcp_response net f.sock cmd e)
    else udp_received (udp_response net f.sock s cmd e)

-- The backoff of an EAGAIN.
unfoldable pub backoff : Bytes → ℕ
unfolding rd16
backoff resp =
    let ms = if leb 7 (length resp) then rd16 (drop 5 resp) else 100 in if ms == 0 then 100 else ms

-- One attempt after its `send`, `rest` being the attempts after it.
unfoldable pub attempt :
    {E : Type 0} → Net E → (File → E → Called E) → File → Ret E (Option Bytes) → Called E
unfolding backoff
attempt net rest f (inr err, e) = (err, f, e)
attempt net rest f (inl none, e) = rest f e
attempt net rest f (inl (some resp), e) =
    let got = record f { resp = resp } in
    if get_or resp 4 0 == st_eagain
    then rest got (net.delay_ms (backoff resp) e)
    else (esp_ok, record got { seq = (f.seq + 1) % 2 ^ 8 }, e)

unfoldable pub attempts : {E : Type 0} → Net E → ℕ → ℕ → ℕ → Bytes → File → E → Called E
unfolding attempt receive
attempts net zero s cmd req f e = (err_timeout, f, e)
attempts net (suc n) s cmd req f e =
    let (sent, e1) = net.send f.sock req e in
    let r = attempt net (attempts net n s cmd req) f (receive net f s cmd e1) in
    if sent then r else (esp_fail, f, e1)

-- `tnfs_command(f, cmd, plen)` with the payload `pl`.
unfoldable pub tnfs_command : {E : Type 0} → Net E → File → ℕ → Bytes → E → Called E
unfolding attempts wr16
tnfs_command net f cmd pl e =
    if ltb msg_cap (hdr_len + length pl)
    then (err_invalid_size, f, e)
    else attempts net tnfs_retries f.seq cmd (wr16 f.conn ++ f.seq ∷ cmd ∷ pl) f e

unfoldable pub status_err : ℕ → Esp
status_err st = if st == st_ok then esp_ok else if st == st_enoent then err_not_found else esp_fail

-- `tnfs_connect(host, port, type, recv_ms)`, none for -1.
unfoldable pub connected : {E : Type 0} → Net E → ℕ → Option ℕ × E → Option ℕ × E
connected net addr (none, e) = (none, net.freeaddrinfo addr e)
connected net addr (some sock, e) =
    let (ok, e1) = net.connect sock addr e in
    if ok
    then (some sock, net.freeaddrinfo addr e1)
    else (none, net.freeaddrinfo addr (net.close sock e1))

unfoldable pub resolved : {E : Type 0} → Net E → ℕ → Option ℕ × E → Option ℕ × E
unfolding connected
resolved net recv_ms (none, e) = (none, e)
resolved net recv_ms (some addr, e) = connected net addr (net.socket addr recv_ms e)

unfoldable pub tnfs_connect : {E : Type 0} → Net E → Bytes → ℕ → Bool → ℕ → E → Option ℕ × E
unfolding resolved
tnfs_connect net host port stream recv_ms e =
    resolved net recv_ms (net.getaddrinfo host port stream e)

-- `tnfs_mount_root(f)`, after its command.
unfoldable pub mount_answered : {E : Type 0} → Called E → Called E
unfolding rd16
mount_answered (err, f, e) =
    if not (is_ok err)
    then (err, f, e)
    else if not (status f == st_ok)
    then (esp_fail, f, e)
    else (esp_ok, record f { conn = rd16 f.resp }, e)

unfoldable pub tnfs_mount_root : {E : Type 0} → Net E → File → E → Called E
unfolding mount_answered tnfs_command
tnfs_mount_root net f e = mount_answered (
    tnfs_command net (record f { seq = 0; conn = 0 }) cmd_mount
      (ver_lo ∷ ver_hi ∷ b'/' ∷ 0 ∷ 0 ∷ 0 ∷ []) e)

-- `tnfs_try(f, host, port, tcp)`, once connected.
unfoldable pub try_closed : {E : Type 0} → Net E → Called E → Called E
try_closed net (err, f, e) = (err, f, (if is_ok err then e else net.close f.sock e))

unfoldable pub try_connected : {E : Type 0} → Net E → File → Option ℕ × E → Called E
unfolding try_closed tnfs_mount_root
try_connected net f (none, e) = (err_timeout, f, e)
try_connected net f (some sock, e) =
    try_closed net (tnfs_mount_root net (record f { sock = sock }) e)

unfoldable pub tnfs_try : {E : Type 0} → Net E → File → Bytes → ℕ → Bool → E → Called E
unfolding try_connected tnfs_connect
tnfs_try net f host port tcp e =
    try_connected net (record f { tcp = tcp })
      (tnfs_connect net host port tcp (if tcp then tnfs_tcp_ms else tnfs_udp_ms) e)

-- UDP first, then TCP.
unfoldable pub try_both : {E : Type 0} → Net E → Bytes → ℕ → Called E → Called E
unfolding tnfs_try
try_both net host port (err, f, e) =
    let again = tnfs_try net f host port true e in if is_ok err then (err, f, e) else again

unfoldable pub size_answered : {E : Type 0} → Called E → Called E
unfolding rd32
size_answered (err, f, e) =
    if not (is_ok err) || not (status f == st_ok) || ltb (length f.resp) 9
    then (esp_fail, f, e)
    else (esp_ok, record f { size = rd32 (drop 5 f.resp); pos_valid = false }, e)

-- `tnfs_query_size(f)`
unfoldable pub tnfs_query_size : {E : Type 0} → Net E → File → E → Called E
unfolding size_answered tnfs_command wr32
tnfs_query_size net f e = size_answered (tnfs_command net f cmd_lseek (f.fd ∷ 2 ∷ wr32 0) e)

unfoldable pub seek_answered : {E : Type 0} → ℕ → Called E → Called E
seek_answered off (err, f, e) =
    if not (is_ok err)
    then (err, record f { pos_valid = false }, e)
    else if not (status f == st_ok)
    then (esp_fail, record f { pos_valid = false }, e)
    else (esp_ok, record f { pos = off; pos_valid = true }, e)

-- `tnfs_seek(f, off)`
unfoldable pub tnfs_seek : {E : Type 0} → Net E → File → ℕ → E → Called E
unfolding seek_answered tnfs_command wr32
tnfs_seek net f off e =
    if f.pos_valid && f.pos == off
    then (esp_ok, f, e)
    else seek_answered off (tnfs_command net f cmd_lseek (f.fd ∷ 0 ∷ wr32 off) e)

-- `tnfs_close(f)` for a session, up to its `free`.
unfoldable pub tnfs_close : {E : Type 0} → Net E → File → E → E
unfolding tnfs_command
tnfs_close net f e =
    let (_, f1, e1) = tnfs_command net f cmd_close (f.fd ∷ []) e in
    let (_, f2, e2) = tnfs_command net f1 cmd_umount [] e1 in net.free (net.close f2.sock e2)

-- `tnfs_size(f)` for a session.
unfoldable pub tnfs_size : File → ℕ
tnfs_size f = f.size
