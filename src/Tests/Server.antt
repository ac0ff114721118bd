-- ===== src/Tests/Server.antt =====
-- Runs of the theorems on src/net/tnfs_server.c.
use fdc_sds_pio.TnfsServer.Process.Keeps.{Handles}
use fdc_sds_pio.Sd.{has_byte, sd_path, segment_ok, walk}
use fdc_sds_pio.Prelude.{Bytes, [], arith, codes, false, get_or, inl, refl, some, true, ◌∷◌, ◌≡◌}
use fdc_sds_pio.Tests.Card.{card, card_laws, card_os, client, server, session, slot}
use fdc_sds_pio.TnfsServer.State.{abs_cap, same_peer, zero_session}
use fdc_sds_pio.TnfsServer.Paths.{
  jail, join_root, or_einval, resolve_path, skip_slashes, trim_at, trim_slashes, trimmed,
}
use fdc_sds_pio.TnfsServer.Paths.Jail.{IsJailed, resolve_path-IsJailed}
use fdc_sds_pio.TnfsServer.Sessions.{find_from, find_session, next_sid, next_sid_from}
use fdc_sds_pio.TnfsServer.Sessions.Ids.{IsFresh, next_sid-IsFresh}
use fdc_sds_pio.TnfsServer.Dirs.{dir_next}
use fdc_sds_pio.TnfsServer.Dirs.Listing.{IsHead, dir_next-IsHead, remaining}
use fdc_sds_pio.TnfsServer.Streams.{h_readdirx, is_open}
use fdc_sds_pio.TnfsServer.Streams.Listed.{IsListed, h_readdirx-IsListed}
use fdc_sds_pio.TnfsServer.Process.{close_cmd, command_of, handle, is_umount}
use fdc_sds_pio.TnfsServer.Process.Outcome.{handle-Handles}
use fdc_sds_pio.TnfsServer.Serve.{serve_datagram, serve_turn}
use fdc_sds_pio.TnfsServer.Serve.Replay.{IsServedOnce, serve_datagram-IsServedOnce}
use fdc_sds_pio.TnfsServer.Serve.Invariant.{IsServer, zero_session-IsSession}
use fdc_sds_pio.TnfsServer.Serve.Reach.{serve_turn-IsServer}
use fdc_sds_pio.Tnfs.Proto.{rd16}

-- MKDIR of "b" in session 5.
abbrev request : Bytes
request = 5 ∷ 0 ∷ 9 ∷ 19 ∷ b'b' ∷ 0 ∷ []

found : find_session server (rd16 request) client ≡ some 0
unfolding find_session find_from same_peer rd16
found = refl

stays : is_umount (command_of (get_or request 3 0)) ≡ false
unfolding is_umount command_of
stays = refl

serve_datagram-IsServedOnce_example :
    IsServedOnce card_os request client 0 (serve_datagram card_os request client (server, card))
serve_datagram-IsServedOnce_example =
    serve_datagram-IsServedOnce card_os request client server card 0 (omega arith)
      (λ e. absurd (cc)) stays found

in_order : IsServer server
in_order = record {
  is_pool = (
    record {
      four_files = refl;
      two_dirs = refl;
      root_trimmed = refl;
      root_fits = omega arith;
      has_sid = λ h e. absurd (omega (arith, e));
      is_blank = λ h. absurd (cc);
    },
    zero_session-IsSession,
    λ p q e. absurd (cc),
  );
  counter_wide = omega arith;
}

serve_turn-IsServer_example : IsServer (serve_turn card_os (some (request, client)) server card).0
serve_turn-IsServer_example =
    serve_turn-IsServer card_os (some (request, client)) server card in_order

in_mount : resolve_path session (codes "/a.dsk") abs_cap ≡ inl (codes "/sd/cpm/a.dsk")
unfolding resolve_path join_root skip_slashes trimmed trim_slashes trim_at jail or_einval sd_path
    has_byte walk segment_ok
in_mount = refl

resolve_path-IsJailed_example : IsJailed (codes "cpm") (codes "/sd/cpm/a.dsk")
resolve_path-IsJailed_example =
    resolve_path-IsJailed session (codes "/a.dsk") (codes "/sd/cpm/a.dsk") refl (omega arith)
      in_mount

-- CLOSE of a slot that is not open.
handle-Handles_example : Handles session (handle card_os close_cmd session (2 ∷ []) card)
handle-Handles_example = handle-Handles card_os close_cmd session (2 ∷ []) card

next_sid-IsFresh_example :
    IsFresh server.sessions (next_sid server).0 (next_sid server).1.next_id
    × ((next_sid server).1.sessions ≡ server.sessions)
    × (next_sid_from 4 server.sessions server.next_id
        ≡ some ((next_sid server).0, (next_sid server).1.next_id))
next_sid-IsFresh_example = next_sid-IsFresh server session zero_session refl (omega arith)

dir_next-IsHead_example :
    IsHead card_os slot (remaining card_os slot card) (dir_next card_os slot card)
dir_next-IsHead_example = dir_next-IsHead card_os card_laws slot card

opened : is_open session 0 ≡ true
unfolding is_open
opened = refl

h_readdirx-IsListed_example :
    IsListed card_os session 0 4 card (h_readdirx card_os session (0 ∷ 4 ∷ []) card)
h_readdirx-IsListed_example =
    h_readdirx-IsListed card_os card_laws session 0 4 [] card refl opened (omega arith)
