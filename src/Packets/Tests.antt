-- ===== src/Packets/Tests.antt =====
-- A drive behind the packets of QNX, whose memory is not cleared.
use libdvdcss.Common.{◌≡◌, refl, true, false, none, some, [], ◌∷◌}
use libdvdcss.Keys.{DvdKey}
use libdvdcss.Dvdcss.{Drive}
use libdvdcss.Packets.{
  PacketSystem, qnx, init_packet, qnx_init_cpt, put, with_agid, read_title_key_packet,
}
use libdvdcss.Packets.Served.{Failure}

abbrev key : DvdKey
key = record { k0 = 1; k1 = 2; k2 = 3; k3 = 4; k4 = 5 }

abbrev system : PacketSystem
system = qnx (λ i. 0xcc) (λ i. i)

abbrev drive : Drive
drive = record {
  copyright = λ log. some 1;
  rpc = λ log. some (1, 0xfd, 1);
  agid = λ log. some 2;
  accepts_challenge = λ log. true;
  key1 = λ log. some key;
  challenge = λ log. some (9 ∷ 8 ∷ 7 ∷ 6 ∷ 5 ∷ 4 ∷ 3 ∷ 2 ∷ 1 ∷ 0 ∷ []);
  accepts_key2 = λ log. false;
  disc_key = λ log. none;
  title_key = λ log. some key;
  asf = λ log. some 1;
  position = λ log. none;
  blocks = λ log. none;
  vectors = λ log. none;
}

title_key_packet :
    (read_title_key_packet (init_packet system) 2 0x1234567).command
    ≡ 0xa4 ∷ 0xcc ∷ 0x01 ∷ 0x23 ∷ 0x45 ∷ 0x67 ∷ 0xcc ∷ 0xcc ∷ 0 ∷ 12 ∷ 0x84 ∷ 0xcc ∷ []
unfolding read_title_key_packet init_packet qnx_init_cpt put with_agid
title_key_packet = refl

-- EIO, with a buffer that the kernel has not filled.
abbrev failure : Failure
failure = record { error = 4; by_status = false; left = 0 ∷ 1 ∷ 2 ∷ 3 ∷ 4 ∷ 5 ∷ 6 ∷ 7 ∷ [] }
