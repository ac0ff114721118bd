-- ===== src/Tests/Remote.antt =====
-- A server with one file, on the socket of src/net/tnfs.c.
use fdc_sds_pio.Tnfs.Blocks.Storing.{WriteServer, splice}
use fdc_sds_pio.Tnfs.Proto.{hdr_len, io_chunk, msg_cap, rd16, wr16, wr32}
use fdc_sds_pio.Tnfs.Cmd.{cmd_lseek, cmd_read, cmd_write}
use fdc_sds_pio.Tnfs.Status.{st_einval, st_eof, st_ok}
use fdc_sds_pio.Prelude.{
  Bool-cases, Bytes, Option, [], arith, drop, false, if◌then◌else◌, inl, inr, length, length-take,
  ltb, none, refl, some, take, true, ℕ, ◌*◌, ◌++◌, ◌+◌, ◌<◌, ◌==◌, ◌^◌, ◌∷◌, ◌≡◌, ◌≤◌, ◌⊎◌,
}
use fdc_sds_pio.Tnfs.Blocks.Serving.{FileServer, count}
use fdc_sds_pio.Esp.{esp_ok}
use fdc_sds_pio.Tnfs.Net.{Net}
use fdc_sds_pio.Tnfs.Framing.{
  or_timeout, read_from, read_turn, tcp_read_exact, tcp_response, udp_from, udp_response, udp_turn,
}
use fdc_sds_pio.Tnfs.Framing.Pieces.{NetLaws, got_size}
use fdc_sds_pio.Tnfs.Client.{
  File, attempt, attempts, receive, status, tcp_received, tnfs_command, udp_received,
}

pub record Server : Type 0 where
  pub stored : Bytes
  pub cursor : ℕ
  pub reply : Option Bytes

-- A READ is answered with one byte, if there is one.
abbrev one_byte : ℕ → Server → Bytes → Server
one_byte seq s [] = record s { reply = some (0 ∷ 0 ∷ seq ∷ cmd_read ∷ st_eof ∷ []) }
one_byte seq s (b ∷ bs) = record s {
  cursor = s.cursor + 1;
  reply = some (0 ∷ 0 ∷ seq ∷ cmd_read ∷ st_ok ∷ 1 ∷ 0 ∷ b ∷ []);
}

-- An LSEEK of the protocol's four bytes.
abbrev seek_to : ℕ → Server → Bytes → Server
seek_to seq s (fd ∷ whence ∷ b0 ∷ b1 ∷ b2 ∷ b3 ∷ bs) = record s {
  cursor = b0 + b1 * 2 ^ 8 + b2 * 2 ^ 16 + b3 * 2 ^ 24;
  reply = some (0 ∷ 0 ∷ seq ∷ cmd_lseek ∷ st_ok ∷ []);
}
seek_to seq s bs = s

-- A WRITE takes one byte.
abbrev take_byte : ℕ → Server → Bytes → Server
take_byte seq s (fd ∷ lo ∷ hi ∷ b ∷ bs) = record {
  stored = splice s.cursor (b ∷ []) s.stored;
  cursor = s.cursor + 1;
  reply = some (0 ∷ 0 ∷ seq ∷ cmd_write ∷ st_ok ∷ 1 ∷ 0 ∷ []);
}
take_byte seq s bs = record s { reply = some (0 ∷ 0 ∷ seq ∷ cmd_write ∷ st_einval ∷ []) }

abbrev answer : Bytes → Server → Server
answer (c0 ∷ c1 ∷ seq ∷ cmd ∷ bs) s =
    if cmd == cmd_lseek
    then seek_to seq s bs
    else if cmd == cmd_write
    then take_byte seq s bs
    else one_byte seq s (drop s.cursor s.stored)
answer bs s = s

-- Only a datagram is answered: a socket that is asked for less times out.
abbrev datagram : ℕ → Server → Option Bytes → Option Bytes × Server
datagram n s none = (none, s)
datagram n s (some bytes) =
    if ltb n msg_cap then (none, s) else (some (take n bytes), record s { reply = none })

abbrev pending : Option Bytes → ℕ
pending none = 0
pending (some bytes) = 1

abbrev pub server_net : Net Server
server_net = record {
  getaddrinfo = λ host port stream e. (some 1, e);
  freeaddrinfo = λ addr e. e;
  socket = λ addr ms e. (some 1, e);
  connect = λ sock addr e. (true, e);
  close = λ sock e. e;
  send = λ sock bytes e. (true, answer bytes e);
  recv = λ sock n e. datagram n e e.reply;
  queued = λ sock e. pending e.reply;
  delay_ms = λ ms e. e;
  calloc = λ e. (true, e);
  free = λ e. e;
}

bounded : (n : ℕ) (e : Server) (r : Option Bytes) → got_size (datagram n e r).0 ≤ n
bounded n e none = omega arith
bounded n e (some bytes) = elim (Bool-cases (ltb n msg_cap)) [
  | inl q ↦ rw q (omega arith)
  | inr q ↦ rw q (omega (arith, length-take n bytes))
]

gone :
    (n : ℕ) (e : Server) (r : Option Bytes) (bytes : Bytes)
    → (datagram n e r).0 ≡ some bytes
    → pending (datagram n e r).1.reply < pending r
gone n e none bytes h = absurd (cc)
gone n e (some b) bytes h = elim (Bool-cases (ltb n msg_cap)) [
  | inl q ↦ let h2 = (rw q at h) in absurd (cc)
  | inr q ↦ rw q (omega arith)
]

pub server_laws : NetLaws server_net
server_laws = record {
  recv_bounded = λ sock n e. bounded n e e.reply;
  recv_queued = λ sock n e bytes h. gone n e e.reply bytes h;
}

same : (n : ℕ) → (n == n) ≡ true
same n = ground arith

pub lseek_gives :
    (f : File) (off : ℕ) (e : Server)
    → let r = tnfs_command server_net f cmd_lseek (f.fd ∷ 0 ∷ wr32 off) e in
      (r.2.stored ≡ e.stored)
      × (off < 2 ^ 32 → r.0 ≡ esp_ok → status r.1 ≡ st_ok → r.2.cursor ≡ off)
unfolding tnfs_command attempts attempt receive tcp_received udp_received tcp_response udp_response
    tcp_read_exact read_from or_timeout read_turn udp_from udp_turn wr16 wr32
lseek_gives f off e = elim (Bool-cases f.tcp) [
  | inl q ↦ rw q (refl, λ small h s. absurd (cc))
  | inr q ↦ rw q (rw (same f.seq) (refl, λ small h s. omega (arith, small)))
]

-- The answer to a READ is what `one_byte` puts there.
pub read_gives :
    (f : File) (want : ℕ) (e : Server) (left : Bytes)
    → drop e.cursor e.stored ≡ left
    → let r = tnfs_command server_net f cmd_read (f.fd ∷ wr16 want) e in
      (r.2.stored ≡ e.stored)
      × (r.0 ≡ esp_ok
          → (status r.1 ≡ st_ok) ⊎ (status r.1 ≡ st_eof)
          → 7 + count r.1 ≤ length r.1.resp
          → (take (count r.1) (drop 7 r.1.resp) ≡ take (count r.1) left)
            × (r.2.cursor ≡ e.cursor + count r.1))
unfolding tnfs_command attempts attempt receive tcp_received udp_received tcp_response udp_response
    tcp_read_exact read_from or_timeout read_turn udp_from udp_turn wr16 rd16
read_gives f want e [] l = elim (Bool-cases f.tcp) [
  | inl q ↦ rw (q, l) (refl, λ h s n. absurd (cc))
  | inr q ↦ rw (q, l) (rw (same f.seq) (refl, λ h s n. absurd (omega (arith, n))))
]
read_gives f want e (b ∷ bs) l = elim (Bool-cases f.tcp) [
  | inl q ↦ rw (q, l) (refl, λ h s n. absurd (cc))
  | inr q ↦ rw (q, l) (rw (same f.seq) (refl, λ h s n. (refl, refl)))
]

abbrev pub file_server : FileServer server_net
file_server = record {
  file = λ e. e.stored;
  place = λ e. e.cursor;
  lseek_keeps = λ f off e. (lseek_gives f off e).0;
  read_keeps = λ f want e. (read_gives f want e (drop e.cursor e.stored) refl).0;
  lseek_moves = λ f off e small. (lseek_gives f off e).1 small;
  read_gives = λ f want e. (read_gives f want e (drop e.cursor e.stored) refl).1;
}

abbrev pub disk : Server
disk = record { stored = 5 ∷ 6 ∷ 7 ∷ 8 ∷ []; cursor = 0; reply = none }

-- The law of a WRITE, with `pl` the bytes in it.
write_stores :
    (f : File) (want : ℕ) (src : Bytes) (e : Server)
    → length src ≡ want
    → want ≤ io_chunk
    → let r = tnfs_command server_net f cmd_write (f.fd ∷ wr16 want ++ src) e in
      r.0 ≡ esp_ok
      → status r.1 ≡ st_ok
      → 7 ≤ length r.1.resp
      → count r.1 ≤ want
      → e.cursor ≤ length e.stored
      → (r.2.stored ≡ splice e.cursor (take (count r.1) src) e.stored)
        × (r.2.cursor ≡ e.cursor + count r.1)
unfolding tnfs_command attempts attempt receive tcp_received udp_received tcp_response udp_response
    tcp_read_exact read_from or_timeout read_turn udp_from udp_turn wr16 rd16
write_stores f want [] e l small = elim (Bool-cases f.tcp) [
  | inl q ↦ rw q (λ h s n c i. absurd (cc))
  | inr q ↦ rw q (rw (same f.seq) (λ h s n c i. absurd (omega (arith, n))))
]
write_stores f want (b ∷ bs) e l small =
    let fits : ltb msg_cap (hdr_len + length (f.fd ∷ wr16 want ++ (b ∷ bs))) ≡ false =
      ground (arith, l, small) in
    rw fits (elim (Bool-cases f.tcp) [
      | inl q ↦ rw q (λ h s n c i. absurd (cc))
      | inr q ↦ rw q (rw (same f.seq) (λ h s n c i. (refl, refl)))
    ])

pub write_server : WriteServer server_net file_server
write_server = record { write_stores = write_stores }
