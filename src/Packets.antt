-- ===== src/Packets.antt =====
-- The ioctls of src/ioctl.c on the systems that hand a packet to the kernel: Haiku, Solaris, QNX and
-- OS/2. The kernel is a parameter: what it returns for a packet, and what is then in the buffer.
pub mod Ioctls
pub mod Decoding
pub mod Served
mod Tests
use libdvdcss.Common.{
  ℕ, zero, suc, ◌+◌, ◌*◌, ◌/◌, ◌%◌, Bool, true, false, not, ◌&&◌, Option, none, some, List, [], ◌∷◌,
  ◌++◌, if◌then◌else◌, ◌==◌, length, take, drop, set, replicate, u8, ◌<<◌, ◌>>◌, ◌&◌, ◌‖◌,
}
use libdvdcss.Keys.{DvdKey, byte, key_at}
use libdvdcss.Dvdcss.{
  Command, read_copyright, report_rpc, report_agid, invalidate_agid, send_challenge, report_key1,
  report_challenge, send_key2, read_disc_key, read_title_key, report_asf, is_some,
}

-- The command, the length and the direction of the data, and the buffer.
pub record Packet : Type 0 where
  pub command : List ℕ
  pub data_length : ℕ
  pub reads : Bool
  pub buffer : List ℕ

-- On QNX the memory is that of `malloc`, with whatever bytes are in it.
pub data PacketSystem : Type 0 where
  haiku : PacketSystem
  solaris : PacketSystem
  os2_scsi : PacketSystem
  qnx : (ℕ → ℕ) → (ℕ → ℕ) → PacketSystem

-- `n` bytes of memory from `i` on.
abbrev pub bytes_from : (ℕ → ℕ) → (n i : ℕ) → List ℕ
bytes_from memory zero i = []
bytes_from memory (suc n) i = memory i ∷ bytes_from memory n (i + 1)

abbrev pub gpcmd_read_dvd_structure : ℕ
gpcmd_read_dvd_structure = 0xad

abbrev pub gpcmd_report_key : ℕ
gpcmd_report_key = 0xa4

abbrev pub gpcmd_send_key : ℕ
gpcmd_send_key = 0xa3

-- Bytes 0, 8 and 9 of a command of twelve bytes.
abbrev pub head_of : ℕ → ℕ → List ℕ → List ℕ
head_of opcode size command = set (set (set command 0 opcode) 8 (size >> 8 & 0xff)) 9 (size & 0xff)

unfoldable pub be_init_rdc : ℕ → ℕ → Packet
be_init_rdc opcode size = record {
  command = head_of opcode size (replicate 12 0);
  data_length = size;
  reads = not (opcode == gpcmd_send_key);
  buffer = replicate size 0;
}

unfoldable pub solaris_init_uscsi : ℕ → ℕ → Packet
solaris_init_uscsi opcode size = record {
  command = head_of opcode size (replicate 12 0);
  data_length = size;
  reads = not (opcode == gpcmd_send_key);
  buffer = replicate size 0;
}

unfoldable pub os2_init_sdc : ℕ → ℕ → Packet
os2_init_sdc opcode size = record {
  command = head_of opcode size (replicate 12 0);
  data_length = size;
  reads = not (opcode == gpcmd_send_key);
  buffer = replicate size 0;
}

unfoldable pub qnx_init_cpt : (ℕ → ℕ) → (ℕ → ℕ) → ℕ → ℕ → Packet
qnx_init_cpt cam_cdb heap opcode size = record {
  command = head_of opcode size (bytes_from cam_cdb 12 0);
  data_length = size;
  reads = not (opcode == gpcmd_send_key);
  buffer = bytes_from heap size 0;
}

unfoldable pub init_packet : PacketSystem → ℕ → ℕ → Packet
init_packet haiku opcode size = be_init_rdc opcode size
init_packet solaris opcode size = solaris_init_uscsi opcode size
init_packet os2_scsi opcode size = os2_init_sdc opcode size
init_packet (qnx cam_cdb heap) opcode size = qnx_init_cpt cam_cdb heap opcode size

unfoldable pub put : ℕ → ℕ → Packet → Packet
put i value p = record p { command = set p.command i value }

-- `DVD_... | ( agid << 6 )` in a byte.
unfoldable pub with_agid : ℕ → ℕ → ℕ
with_agid format agid = u8 (format ‖ (agid << 6))

-- The length in byte 1 of the buffer, and the data from byte 4 on.
unfoldable pub fill : ℕ → List ℕ → Packet → Packet
fill size bytes p = record p {
  buffer = take 4 (set p.buffer 1 size) ++ (bytes ++ drop (4 + length bytes) p.buffer);
}

-- The packets of the functions, from what the macro of the system prepares.
module _ (init : ℕ → ℕ → Packet) where
  unfoldable pub read_copyright_packet : ℕ → Packet
  read_copyright_packet layer = put 7 0x01 (put 6 (u8 layer) (init gpcmd_read_dvd_structure 8))

  unfoldable pub read_disc_key_packet : ℕ → Packet
  read_disc_key_packet agid =
      put 10 (u8 (agid << 6)) (put 7 0x02 (init gpcmd_read_dvd_structure 2052))

  unfoldable pub read_title_key_packet : ℕ → ℕ → Packet
  read_title_key_packet agid pos = put 10 (with_agid 0x04 agid) (
      put 5 (pos & 0xff) (
        put 4 (pos >> 8 & 0xff)
          (put 3 (pos >> 16 & 0xff) (put 2 (pos >> 24 & 0xff) (init gpcmd_report_key 12)))))

  unfoldable pub report_agid_packet : ℕ → Packet
  report_agid_packet agid = put 10 (with_agid 0x00 agid) (init gpcmd_report_key 8)

  unfoldable pub report_challenge_packet : ℕ → Packet
  report_challenge_packet agid = put 10 (with_agid 0x01 agid) (init gpcmd_report_key 16)

  unfoldable pub report_asf_packet : Packet
  report_asf_packet = put 10 0x05 (init gpcmd_report_key 8)

  unfoldable pub report_key1_packet : ℕ → Packet
  report_key1_packet agid = put 10 (with_agid 0x02 agid) (init gpcmd_report_key 12)

  -- OS/2 prepares a byte, and then sets the length to 0.
  unfoldable pub invalidate_agid_packet : ℕ → Packet
  invalidate_agid_packet agid = put 10 (with_agid 0x3f agid) (init gpcmd_report_key 0)

  unfoldable pub send_challenge_packet : ℕ → List ℕ → Packet
  send_challenge_packet agid challenge =
      fill 0xe challenge (put 10 (with_agid 0x01 agid) (init gpcmd_send_key 16))

  unfoldable pub send_key2_packet : ℕ → DvdKey → Packet
  send_key2_packet agid key =
      fill 0xa (key.k0 ∷ key.k1 ∷ key.k2 ∷ key.k3 ∷ key.k4 ∷ [])
        (put 10 (with_agid 0x03 agid) (init gpcmd_send_key 12))

  unfoldable pub report_rpc_packet : Packet
  report_rpc_packet = put 10 0x08 (init gpcmd_report_key 8)

-- What the kernel gives: a negative number (`none`) or another one, the status of the packet, and
-- the buffer.
pub record Reply : Type 0 where
  pub returned : Option ℕ
  pub status : ℕ
  pub buffer : List ℕ

-- Whether the function's result is not negative: on Solaris the status counts too. QNX and OS/2
-- return the positive number of an error, which is not negative.
unfoldable pub succeeds : PacketSystem → Reply → Bool
succeeds haiku r = is_some r.returned
succeeds solaris r = is_some r.returned && r.status == 0
succeeds os2_scsi r = is_some r.returned
succeeds (qnx cam_cdb heap) r = is_some r.returned

-- What a function leaves where its caller looks only after a success; `none` is a failure.
unfoldable pub when_ok {ℓ} : {A : Type ℓ} → PacketSystem → Reply → A → Option A
when_ok s r value = if succeeds s r then some value else none
