-- ===== src/Tnfs/Framing.antt =====
-- src/net/tnfs.c: one response from the stream or from the datagram socket. A buffer that is being
-- filled is the bytes in it so far.
pub mod Pieces
pub mod Ends
pub mod Fits
use fdc_sds_pio.Prelude.{
  Bytes, Option, [], drop, get_or, if◌then◌else◌, inl, inr, length, ltb, none, not, some, suc, zero,
  ℕ, ◌&&◌, ◌++◌, ◌+◌, ◌-◌, ◌==◌, ◌||◌, ◌∷◌,
}
use fdc_sds_pio.Esp.{err_timeout, esp_fail}
use fdc_sds_pio.Tnfs.Net.{Net, Ret, then_do}
use fdc_sds_pio.Tnfs.Proto.{msg_cap, rd16, readdirx_fixed}
use fdc_sds_pio.Tnfs.Cmd.{
  cmd_lseek, cmd_mount, cmd_open, cmd_opendir, cmd_opendirx, cmd_read, cmd_readdir, cmd_readdirx,
  cmd_write,
}
use fdc_sds_pio.Tnfs.Status.{st_eagain, st_eof, st_ok}

-- The loop of `tcp_read_exact` on `n` missing bytes. Every turn gives one at least, so that `n`
-- turns are enough; `none` is false.
unfoldable pub read_turn :
    {E : Type 0}
    → (ℕ → Bytes → E → Option Bytes × E)
    → ℕ
    → Bytes
    → Option Bytes × E
    → Option Bytes × E
read_turn rest n acc (none, e) = (none, e)
read_turn rest n acc (some [], e) = (none, e)
read_turn rest n acc (some (b ∷ bs), e) = rest (n - length (b ∷ bs)) (acc ++ b ∷ bs) e

unfoldable pub read_from : {E : Type 0} → Net E → ℕ → ℕ → ℕ → Bytes → E → Option Bytes × E
unfolding read_turn
read_from net sock f zero acc e = (some acc, e)
read_from net sock zero (suc n) acc e = (none, e)
read_from net sock (suc f) (suc n) acc e =
    read_turn (read_from net sock f) (suc n) acc (net.recv sock (suc n) e)

unfoldable pub or_timeout : {E : Type 0} → Bytes → Option Bytes × E → Ret E Bytes
or_timeout acc (none, e) = (inr err_timeout, e)
or_timeout acc (some bytes, e) = (inl (acc ++ bytes), e)

-- `tcp_read_exact(sock, resp + total, n)`, with its failure as the caller's ESP_ERR_TIMEOUT.
unfoldable pub tcp_read_exact : {E : Type 0} → Net E → ℕ → ℕ → Bytes → E → Ret E Bytes
unfolding read_from or_timeout
tcp_read_exact net sock n acc e = or_timeout acc (read_from net sock n n [] e)

-- The loop over a name, up to its NUL, into the rest of the buffer.
unfoldable pub name_turn : {E : Type 0} → (Bytes → E → Ret E Bytes) → Bytes → E → Ret E Bytes
name_turn rest acc e =
    let more = rest acc e in if get_or acc (length acc - 1) 0 == 0 then (inl acc, e) else more

unfoldable pub read_name : {E : Type 0} → Net E → ℕ → ℕ → Bytes → E → Ret E Bytes
unfolding then_do name_turn tcp_read_exact
read_name net sock zero acc e = (inr esp_fail, e)
read_name net sock (suc room) acc e =
    then_do (tcp_read_exact net sock 1 acc e) (name_turn (read_name net sock room))

-- The loop over the entries of READDIRX.
unfoldable pub read_entry : {E : Type 0} → Net E → ℕ → Bytes → E → Ret E Bytes
unfolding then_do read_name tcp_read_exact
read_entry net sock acc e =
    if ltb msg_cap (length acc + readdirx_fixed)
    then (inr esp_fail, e)
    else then_do (tcp_read_exact net sock readdirx_fixed acc e)
        λ acc1 e1. read_name net sock (msg_cap - length acc1) acc1 e1

unfoldable pub read_entries : {E : Type 0} → Net E → ℕ → ℕ → Bytes → E → Ret E Bytes
unfolding then_do read_entry
read_entries net sock zero acc e = (inl acc, e)
read_entries net sock (suc count) acc e =
    then_do (read_entry net sock acc e) (read_entries net sock count)

-- `extra` of the switch.
unfoldable pub extra_of : ℕ → ℕ
extra_of cmd =
    if cmd == cmd_mount
    then 4
    else if cmd == cmd_open
    then 1
    else if cmd == cmd_opendir
    then 1
    else if cmd == cmd_opendirx
    then 3
    else if cmd == cmd_lseek
    then 4
    else if cmd == cmd_write
    then 2
    else if cmd == cmd_read
    then 2
    else 0

unfoldable pub read_extra : {E : Type 0} → Net E → ℕ → ℕ → Bytes → E → Ret E Bytes
unfolding tcp_read_exact
read_extra net sock extra acc e =
    if extra == 0 then (inl acc, e) else tcp_read_exact net sock extra acc e

-- The data of READ.
unfoldable pub read_counted : {E : Type 0} → Net E → ℕ → Bytes → E → Ret E Bytes
unfolding read_extra rd16
read_counted net sock acc e =
    let cnt = rd16 (drop 5 acc) in
    if ltb msg_cap (length acc + cnt) then (inr esp_fail, e) else read_extra net sock cnt acc e

-- The names and the entries of a listing.
unfoldable pub read_listing : {E : Type 0} → Net E → ℕ → Bytes → E → Ret E Bytes
unfolding then_do tcp_read_exact read_entries
read_listing net sock acc e =
    then_do (tcp_read_exact net sock 4 acc e)
      λ acc1 e1. read_entries net sock (get_or acc1 (length acc) 0) acc1 e1

-- After the fixed part of a response whose status is good: at most one of the three holds.
unfoldable pub read_rest : {E : Type 0} → Net E → ℕ → ℕ → Bytes → E → Ret E Bytes
unfolding read_counted read_name read_listing
read_rest net sock cmd acc e =
    if cmd == cmd_read
    then read_counted net sock acc e
    else if cmd == cmd_readdir
    then read_name net sock (msg_cap - length acc) acc e
    else if cmd == cmd_readdirx
    then read_listing net sock acc e
    else (inl acc, e)

-- The remainder by command and status.
unfoldable pub read_body : {E : Type 0} → Net E → ℕ → ℕ → Bytes → E → Ret E Bytes
unfolding then_do tcp_read_exact read_extra extra_of read_rest
read_body net sock cmd acc e =
    let status = get_or acc 4 0 in
    let ok = status == st_ok || cmd == cmd_read && status == st_eof in
    if status == st_eagain
    then tcp_read_exact net sock 2 acc e
    else if ok
    then then_do (read_extra net sock (extra_of cmd) acc e) (read_rest net sock cmd)
    else (inl acc, e)

-- `tcp_response(f, cmd)`: the response, whose length is `resp_len`.
unfoldable pub tcp_response : {E : Type 0} → Net E → ℕ → ℕ → E → Ret E Bytes
unfolding then_do tcp_read_exact read_body
tcp_response net sock cmd e = then_do (tcp_read_exact net sock 5 [] e) (read_body net sock cmd)

-- The loop of `udp_response`: a runt or a stale reply is passed over; none is -1.
unfoldable pub udp_turn :
    {E : Type 0} → (E → Option Bytes × E) → ℕ → ℕ → Option Bytes × E → Option Bytes × E
udp_turn rest seq cmd (none, e) = (none, e)
udp_turn rest seq cmd (some resp, e) =
    let more = rest e in
    if ltb (length resp) 5
    then more
    else if not (get_or resp 2 0 == seq) || not (get_or resp 3 0 == cmd)
    then more
    else (some resp, e)

unfoldable pub udp_from : {E : Type 0} → Net E → ℕ → ℕ → ℕ → ℕ → E → Option Bytes × E
unfolding udp_turn
udp_from net sock zero seq cmd e = (none, e)
udp_from net sock (suc f) seq cmd e =
    udp_turn (udp_from net sock f seq cmd) seq cmd (net.recv sock msg_cap e)

-- `udp_response(f, seq, cmd)`: a turn for each thing that can still come, and one for the timeout.
unfoldable pub udp_response : {E : Type 0} → Net E → ℕ → ℕ → ℕ → E → Option Bytes × E
unfolding udp_from
udp_response net sock seq cmd e = udp_from net sock (suc (net.queued sock e)) seq cmd e
