-- ===== src/Packets/Ioctls.antt =====
-- The functions of src/ioctl.c on the systems of Packets: a packet, what the kernel makes of it, and
-- what is taken from the buffer.
use libdvdcss.Common.{ℕ, Bool, Option, List, take, drop, ◌>>◌, ◌&◌}
use libdvdcss.Keys.{DvdKey, byte, key_at}
use libdvdcss.Packets.{
  Packet, PacketSystem, Reply, init_packet, succeeds, when_ok, read_copyright_packet,
  read_disc_key_packet, read_title_key_packet, report_agid_packet, report_challenge_packet,
  report_asf_packet, report_key1_packet, invalidate_agid_packet, send_challenge_packet,
  send_key2_packet, report_rpc_packet,
}

module _ (s : PacketSystem) (kernel : Packet → Reply) where
  unfoldable pub packet_read_copyright : ℕ → Option ℕ
  packet_read_copyright layer =
      let r = kernel (read_copyright_packet (init_packet s) layer) in when_ok s r (byte r.buffer 4)

  unfoldable pub packet_read_disc_key : ℕ → Option (List ℕ)
  packet_read_disc_key agid =
      let r = kernel (read_disc_key_packet (init_packet s) agid) in
      when_ok s r (take 2048 (drop 4 r.buffer))

  unfoldable pub packet_read_title_key : ℕ → ℕ → Option DvdKey
  packet_read_title_key agid pos =
      let r = kernel (read_title_key_packet (init_packet s) agid pos) in
      when_ok s r (key_at r.buffer 5)

  unfoldable pub packet_report_agid : ℕ → Option ℕ
  packet_report_agid agid =
      let r = kernel (report_agid_packet (init_packet s) agid) in when_ok s r (byte r.buffer 7 >> 6)

  unfoldable pub packet_report_challenge : ℕ → Option (List ℕ)
  packet_report_challenge agid =
      let r = kernel (report_challenge_packet (init_packet s) agid) in
      when_ok s r (take 10 (drop 4 r.buffer))

  unfoldable pub packet_report_asf : Option ℕ
  packet_report_asf =
      let r = kernel (report_asf_packet (init_packet s)) in when_ok s r (byte r.buffer 7 & 1)

  unfoldable pub packet_report_key1 : ℕ → Option DvdKey
  packet_report_key1 agid =
      let r = kernel (report_key1_packet (init_packet s) agid) in when_ok s r (key_at r.buffer 4)

  unfoldable pub packet_invalidate_agid : ℕ → Bool
  packet_invalidate_agid agid = succeeds s (kernel (invalidate_agid_packet (init_packet s) agid))

  unfoldable pub packet_send_challenge : ℕ → List ℕ → Bool
  packet_send_challenge agid challenge =
      succeeds s (kernel (send_challenge_packet (init_packet s) agid challenge))

  unfoldable pub packet_send_key2 : ℕ → DvdKey → Bool
  packet_send_key2 agid key = succeeds s (kernel (send_key2_packet (init_packet s) agid key))

  unfoldable pub packet_report_rpc : Option (ℕ × ℕ × ℕ)
  packet_report_rpc =
      let r = kernel (report_rpc_packet (init_packet s)) in
      when_ok s r (byte r.buffer 4 >> 6, byte r.buffer 5, byte r.buffer 6)
