-- ===== src/Tests/Client.antt =====
-- Runs of the theorems on src/net/tnfs.c, on a line that gives what is queued and then times out.
use fdc_sds_pio.Sd.{has_byte}
use fdc_sds_pio.TnfsServer.Dirs.{bare_entry, entry_of, is_visible, stat_entry}
use fdc_sds_pio.TnfsServer.Dirs.Listing.{remaining, shown}
use fdc_sds_pio.Wildcard.{tolower}
use fdc_sds_pio.TnfsServer.Streams.{h_readdirx, is_open}
use fdc_sds_pio.Prelude.{
  Bytes, List, Option, [], arith, codes, inl, length, length-take, none, refl, some, take, true, ℕ,
  ◌<◌, ◌∷◌, ◌≡◌, ◌≤◌,
}
use fdc_sds_pio.Tests.Card.{card, card_laws, card_os, session, slot}
use fdc_sds_pio.Tnfs.Net.{Net}
use fdc_sds_pio.Tnfs.Url.{
  cons_front, host_of, nonzero_port, parse_split, port_from, port_of, split_at, tnfs_url_parse,
  with_path,
}
use fdc_sds_pio.Tnfs.Url.Parsed.{IsUrl, tnfs_url_parse-IsUrl}
use fdc_sds_pio.Tnfs.Framing.{tcp_response}
use fdc_sds_pio.Tnfs.Framing.Pieces.{NetLaws, got_size}
use fdc_sds_pio.Tnfs.Framing.Fits.{Fits, empty_buffer, metered, tcp_response-Fits}
use fdc_sds_pio.Tnfs.Client.{File, tnfs_command}
use fdc_sds_pio.Tnfs.Client.Answer.{IsAnswer, tnfs_command-IsAnswer}
use fdc_sds_pio.Tnfs.Open.{new_file}
use fdc_sds_pio.Tnfs.Blocks.{tnfs_read_at, tnfs_write_at}
use fdc_sds_pio.Tnfs.Blocks.Whole.{IsReadAt, tnfs_read_at-IsReadAt}
use fdc_sds_pio.Tnfs.Blocks.Written.{IsWrittenAt, tnfs_write_at-IsWrittenAt}
use fdc_sds_pio.Tnfs.Listing.RoundTrip.{AreNamed, IsReadBack, h_readdirx-IsReadBack}
use fdc_sds_pio.Tnfs.Cmd.{cmd_read}
use fdc_sds_pio.Tnfs.{has_prefix_ci, tnfs_is_url}

abbrev Line : Type 0
Line = List Bytes

abbrev next_datagram : ℕ → Line → Option Bytes × Line
next_datagram n [] = (none, [])
next_datagram n (x ∷ xs) = (some (take n x), xs)

abbrev line_net : Net Line
line_net = record {
  getaddrinfo = λ host port stream e. (some 1, e);
  freeaddrinfo = λ addr e. e;
  socket = λ addr ms e. (some 1, e);
  connect = λ sock addr e. (true, e);
  close = λ sock e. e;
  send = λ sock bytes e. (true, e);
  recv = λ sock n e. next_datagram n e;
  queued = λ sock e. length e;
  delay_ms = λ ms e. e;
  calloc = λ e. (true, e);
  free = λ e. e;
}

datagram_bounded : (n : ℕ) (e : Line) → got_size (next_datagram n e).0 ≤ n
datagram_bounded n [] = omega arith
datagram_bounded n (x ∷ xs) = omega (arith, length-take n x)

datagram_gone :
    (n : ℕ) (e : Line) (bytes : Bytes)
    → (next_datagram n e).0 ≡ some bytes
    → length (next_datagram n e).1 < length e
datagram_gone n [] bytes h = absurd (cc)
datagram_gone n (x ∷ xs) bytes h = omega arith

line_laws : NetLaws line_net
line_laws = record {
  recv_bounded = λ sock n e. datagram_bounded n e;
  recv_queued = λ sock n e bytes h. datagram_gone n e bytes h;
}

abbrev address : Bytes
address = codes "tnfs://pi:999/a.dsk"

parsed :
    tnfs_url_parse address 64 160
    ≡ inl (record { host = codes "pi"; port = 999; path = codes "/a.dsk" })
unfolding tnfs_url_parse parse_split split_at cons_front host_of port_of port_from nonzero_port
    with_path tnfs_is_url has_prefix_ci tolower
parsed = refl

tnfs_url_parse-IsUrl_example :
    IsUrl address 64 160 (record { host = codes "pi"; port = 999; path = codes "/a.dsk" })
tnfs_url_parse-IsUrl_example =
    tnfs_url_parse-IsUrl address 64 160
      (record { host = codes "pi"; port = 999; path = codes "/a.dsk" }) parsed

-- A READ of two bytes, its response in two pieces.
abbrev pieces : Line
pieces = (0 ∷ 0 ∷ 7 ∷ 33 ∷ 0 ∷ []) ∷ (2 ∷ 0 ∷ []) ∷ (8 ∷ 9 ∷ []) ∷ []

tcp_response-Fits_example :
    Fits (tcp_response line_net 1 cmd_read pieces)
    × ((tcp_response (metered line_net) 1 cmd_read (empty_buffer pieces)).1.inside ≡ true)
tcp_response-Fits_example = tcp_response-Fits line_net line_laws 1 cmd_read pieces

-- The same in one datagram, behind a stale one.
abbrev datagrams : Line
datagrams = (0 ∷ 0 ∷ 6 ∷ 33 ∷ 0 ∷ []) ∷ (0 ∷ 0 ∷ 7 ∷ 33 ∷ 0 ∷ 2 ∷ 0 ∷ 8 ∷ 9 ∷ []) ∷ []

abbrev file : File
file = record new_file { seq = 7; pos_valid = true }

tnfs_command-IsAnswer_example :
    IsAnswer file cmd_read (tnfs_command line_net file cmd_read (0 ∷ 2 ∷ 0 ∷ []) datagrams)
tnfs_command-IsAnswer_example =
    tnfs_command-IsAnswer line_net line_laws file cmd_read (0 ∷ 2 ∷ 0 ∷ []) datagrams

tnfs_read_at-IsReadAt_example : IsReadAt 0 2 [] file (tnfs_read_at line_net file 0 2 datagrams)
tnfs_read_at-IsReadAt_example = tnfs_read_at-IsReadAt line_net line_laws file 0 2 datagrams

abbrev taken : Line
taken = (0 ∷ 0 ∷ 7 ∷ 34 ∷ 0 ∷ 2 ∷ 0 ∷ []) ∷ []

tnfs_write_at-IsWrittenAt_example :
    IsWrittenAt 0 2 file (tnfs_write_at line_net file 0 (8 ∷ 9 ∷ []) taken)
tnfs_write_at-IsWrittenAt_example =
    tnfs_write_at-IsWrittenAt line_net line_laws file 0 (8 ∷ 9 ∷ []) taken (omega arith)

open_dir : is_open session 0 ≡ true
unfolding is_open
open_dir = refl

all_named : AreNamed (remaining card_os slot card)
unfolding shown entry_of stat_entry bare_entry is_visible has_byte
all_named = ((λ e. absurd (cc)), refl, ((λ e. absurd (cc)), refl, tt))

h_readdirx-IsReadBack_example :
    IsReadBack card_os session 0 card (h_readdirx card_os session (0 ∷ 4 ∷ []) card)
h_readdirx-IsReadBack_example =
    h_readdirx-IsReadBack card_os card_laws session 0 4 [] card refl open_dir (omega arith)
      all_named
