-- ===== src/Tests/Reading.antt =====
-- Reads and writes of src/net/tnfs.c on the server of Tests/Remote.
use fdc_sds_pio.Tnfs.Blocks.{
  data_of, put_of, read_answered, read_data, read_loop, read_seeked, tnfs_read_at, tnfs_write_at,
  write_answered, write_loop, write_put, write_seeked,
}
use fdc_sds_pio.Tnfs.Blocks.Stored.{IsStored, tnfs_write_at-IsStored}
use fdc_sds_pio.Tnfs.Proto.{rd16, wr16, wr32}
use fdc_sds_pio.Prelude.{[], arith, refl, ◌∷◌, ◌≡◌}
use fdc_sds_pio.Tnfs.Blocks.Content.{IsContent, tnfs_read_at-IsContent}
use fdc_sds_pio.Tnfs.Open.{new_file}
use fdc_sds_pio.Tnfs.Framing.{
  or_timeout, read_from, read_turn, tcp_read_exact, tcp_response, udp_from, udp_response, udp_turn,
}
use fdc_sds_pio.Tnfs.Client.{
  attempt, attempts, receive, seek_answered, tcp_received, tnfs_command, tnfs_seek, udp_received,
}
use fdc_sds_pio.Tests.Remote.{disk, file_server, server_laws, server_net, write_server}

-- Two bytes at 1, with a seek and two READs.
two_bytes : (tnfs_read_at server_net new_file 1 2 disk).1 ≡ 6 ∷ 7 ∷ []
unfolding tnfs_read_at read_loop read_seeked read_answered read_data data_of tnfs_seek seek_answered
    tnfs_command attempts attempt receive tcp_received udp_received tcp_response udp_response
    tcp_read_exact read_from or_timeout read_turn udp_from udp_turn wr16 wr32 rd16
two_bytes = refl

tnfs_read_at-IsContent_example :
    IsContent server_net server_laws file_server 1 2 [] disk
      (tnfs_read_at server_net new_file 1 2 disk)
tnfs_read_at-IsContent_example =
    tnfs_read_at-IsContent server_net server_laws file_server new_file 1 2 disk (omega arith)
      (λ h. absurd (cc))

tnfs_write_at-IsStored_example :
    IsStored server_net server_laws file_server write_server 1
      (9 ∷ 10 ∷ [])
      disk
      (tnfs_write_at server_net new_file 1 (9 ∷ 10 ∷ []) disk)
tnfs_write_at-IsStored_example =
    tnfs_write_at-IsStored server_net server_laws file_server write_server new_file 1 (9 ∷ 10 ∷ [])
      disk (omega arith) (omega arith) (λ h. absurd (cc))

-- The two bytes over those at 1.
stored_bytes :
    (tnfs_write_at server_net new_file 1 (9 ∷ 10 ∷ []) disk).2.stored ≡ 5 ∷ 9 ∷ 10 ∷ 8 ∷ []
unfolding tnfs_write_at write_loop write_seeked write_answered write_put put_of tnfs_seek
    seek_answered tnfs_command attempts attempt receive tcp_received udp_received tcp_response
    udp_response tcp_read_exact read_from or_timeout read_turn udp_from udp_turn wr16 wr32 rd16
stored_bytes = refl
