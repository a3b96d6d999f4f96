-- ===== src/Packets/Decoding.antt =====
-- What a drive makes of a packet, after the tables of opcodes and formats of src/ioctl.h; and that it
-- makes the commands of Dvdcss of the packets of src/ioctl.c.
use libdvdcss.Common.{
  ℕ, zero, suc, ◌+◌, ◌*◌, ◌/◌, ◌%◌, ◌^◌, ◌<◌, ◌≡◌, refl, ◌∙◌, ap, arith, not, ◌&&◌, Option, none,
  some, List, ◌∷◌, if◌then◌else◌, ◌==◌, length, take, drop, ◌<<◌, ◌>>◌, ◌&◌, u8, replicate, sym,
  take-append,
}
use libdvdcss.Common.Bits.Fields.{bit_and_mask, bit_or_fields_left}
use libdvdcss.Keys.{DvdKey, byte, key_at}
use libdvdcss.Dvdcss.{
  Command, read_copyright, report_rpc, report_agid, invalidate_agid, send_challenge, report_key1,
  report_challenge, send_key2, read_disc_key, read_title_key, report_asf,
}
use mathlib.Core.Path.{subst}
use libdvdcss.Packets.{
  Packet, PacketSystem, haiku, solaris, os2_scsi, qnx, init_packet, bytes_from, head_of,
  gpcmd_send_key, be_init_rdc, solaris_init_uscsi, os2_init_sdc, qnx_init_cpt, put, fill, with_agid,
  read_copyright_packet, read_disc_key_packet, read_title_key_packet, report_agid_packet,
  report_challenge_packet, report_asf_packet, report_key1_packet, invalidate_agid_packet,
  send_challenge_packet, send_key2_packet, report_rpc_packet,
}

-- Bytes 2 to 5 of a command, the highest one first.
abbrev pub address_of : List ℕ → ℕ
address_of c = byte c 2 * 2 ^ 24 + byte c 3 * 2 ^ 16 + byte c 4 * 2 ^ 8 + byte c 5

unfoldable pub structure_of : (format agid : ℕ) → Option Command
structure_of format agid =
    if format == 1
    then some read_copyright
    else if format == 2
    then some (read_disc_key agid)
    else none

unfoldable pub report_of : (format agid address : ℕ) → Option Command
report_of format agid address =
    if format == 0
    then some report_agid
    else if format == 1
    then some (report_challenge agid)
    else if format == 2
    then some (report_key1 agid)
    else if format == 4
    then some (read_title_key agid address)
    else if format == 5
    then some report_asf
    else if format == 8
    then some report_rpc
    else if format == 63
    then some (invalidate_agid agid)
    else none

unfoldable pub send_of : (format agid : ℕ) → List ℕ → Option Command
send_of format agid buffer =
    if format == 1 && byte buffer 1 == 14
    then some (send_challenge agid (take 10 (drop 4 buffer)))
    else if format == 3 && byte buffer 1 == 10
    then some (send_key2 agid (key_at buffer 4))
    else none

-- The length in the command must be that of the data, which goes to the drive after a send only.
unfoldable pub decode : Packet → Option Command
decode p =
    let c = p.command in
    let format = byte c 10 % 64 in
    let agid = byte c 10 / 64 in
    let fits = byte c 8 * 256 + byte c 9 == p.data_length in
    if byte c 0 == 0xad && p.reads && fits
    then structure_of (byte c 7) agid
    else if byte c 0 == 0xa4 && p.reads && fits
    then report_of format agid (address_of c)
    else if byte c 0 == 0xa3 && not p.reads && fits
    then send_of format agid p.buffer
    else none

with_agid_eq :
    (format agid : ℕ) → format < 64 → agid < 4 → with_agid format agid ≡ agid * 64 + format
unfolding with_agid
with_agid_eq format agid hf ha =
    ap (λ (t : ℕ). t % 256) (bit_or_fields_left 6 agid format hf) ∙ omega arith

-- The bytes of a position make it up.
address_lem :
    (pos : ℕ)
    → pos < 2 ^ 32
    → (pos >> 24 & 0xff) * 2 ^ 24
        + (pos >> 16 & 0xff) * 2 ^ 16
        + (pos >> 8 & 0xff) * 2 ^ 8
        + (pos & 0xff)
      ≡ pos
address_lem pos h = omega (
  arith,
  bit_and_mask 8 (pos / 2 ^ 24),
  bit_and_mask 8 (pos / 2 ^ 16),
  bit_and_mask 8 (pos / 2 ^ 8),
  bit_and_mask 8 pos,
)

disc_agid : (agid : ℕ) → agid < 4 → u8 (agid << 6) / 64 ≡ agid
disc_agid agid ha = omega arith

module _ (agid : ℕ) (ha : agid < 4) where
  seen :
      (format : ℕ)
      → format < 64
      → (with_agid format agid % 64 ≡ format) × (with_agid format agid / 64 ≡ agid)
  seen format hf = let e = with_agid_eq format agid hf ha in (omega (arith, e), omega (arith, e))

  report_lem :
      (format address : ℕ)
      → format < 64
      → report_of (with_agid format agid % 64) (with_agid format agid / 64) address
        ≡ report_of format agid address
  report_lem format address hf = let (e, f) = seen format hf in λ i. report_of (e i) (f i) address

  send_lem :
      (format : ℕ) (buffer : List ℕ)
      → format < 64
      → send_of (with_agid format agid % 64) (with_agid format agid / 64) buffer
        ≡ send_of format agid buffer
  send_lem format buffer hf = let (e, f) = seen format hf in λ i. send_of (e i) (f i) buffer

-- What a drive makes of the packets that a system prepares with `init`.
pub record Decodes (init : ℕ → ℕ → Packet) : Type 0 where
  pub of_read_copyright : decode (read_copyright_packet init 0) ≡ some read_copyright
  pub of_read_disc_key :
      (agid : ℕ) → agid < 4 → decode (read_disc_key_packet init agid) ≡ some (read_disc_key agid)
  pub of_read_title_key :
      (agid pos : ℕ)
      → agid < 4
      → pos < 2 ^ 32
      → decode (read_title_key_packet init agid pos) ≡ some (read_title_key agid pos)
  pub of_report_agid :
      (agid : ℕ) → agid < 4 → decode (report_agid_packet init agid) ≡ some report_agid
  pub of_report_challenge :
      (agid : ℕ)
      → agid < 4
      → decode (report_challenge_packet init agid) ≡ some (report_challenge agid)
  pub of_report_asf : decode (report_asf_packet init) ≡ some report_asf
  pub of_report_key1 :
      (agid : ℕ) → agid < 4 → decode (report_key1_packet init agid) ≡ some (report_key1 agid)
  pub of_invalidate_agid :
      (agid : ℕ)
      → agid < 4
      → decode (invalidate_agid_packet init agid) ≡ some (invalidate_agid agid)
  pub of_send_challenge :
      (agid : ℕ) (challenge : List ℕ)
      → agid < 4
      → length challenge ≡ 10
      → decode (send_challenge_packet init agid challenge) ≡ some (send_challenge agid challenge)
  pub of_send_key2 :
      (agid : ℕ) (key : DvdKey)
      → agid < 4
      → decode (send_key2_packet init agid key) ≡ some (send_key2 agid key)
  pub of_report_rpc : decode (report_rpc_packet init) ≡ some report_rpc

qnx-Decodes : (cam_cdb heap : ℕ → ℕ) → Decodes (qnx_init_cpt cam_cdb heap)
unfolding decode put fill qnx_init_cpt structure_of report_of send_of read_copyright_packet
    read_disc_key_packet read_title_key_packet report_agid_packet report_challenge_packet
    report_asf_packet report_key1_packet invalidate_agid_packet send_challenge_packet
    send_key2_packet report_rpc_packet
qnx-Decodes cam_cdb heap = record {
  of_read_copyright = refl;
  of_read_disc_key = λ agid ha. ap (λ (t : ℕ). some (read_disc_key t)) (disc_agid agid ha);
  of_read_title_key = λ agid pos ha hp.
      report_lem agid ha 4 _ (omega arith)
      ∙ ap (λ (t : ℕ). some (read_title_key agid t)) (address_lem pos hp);
  of_report_agid = λ agid ha. report_lem agid ha 0 _ (omega arith);
  of_report_challenge = λ agid ha. report_lem agid ha 1 _ (omega arith);
  of_report_asf = refl;
  of_report_key1 = λ agid ha. report_lem agid ha 2 _ (omega arith);
  of_invalidate_agid = λ agid ha. report_lem agid ha 63 _ (omega arith);
  of_send_challenge = λ agid challenge ha hc.
      let p = send_challenge_packet (qnx_init_cpt cam_cdb heap) agid challenge in
      send_lem agid ha 1 p.buffer (omega arith)
      ∙ ap (λ (t : List ℕ). some (send_challenge agid t))
          (take-append 10 challenge (drop (4 + length challenge) (bytes_from heap 16 0)) hc);
  of_send_key2 = λ agid key ha.
      send_lem agid ha 3 (send_key2_packet (qnx_init_cpt cam_cdb heap) agid key).buffer
        (omega arith);
  of_report_rpc = refl;
}

-- A system that clears its memory prepares what QNX does in memory of zeros.
abbrev zeros : ℕ → ℕ
zeros i = 0

bytes_from-zeros : (n i : ℕ) → replicate n 0 ≡ bytes_from zeros n i
bytes_from-zeros zero i = refl
bytes_from-zeros (suc n) i = ap (λ (t : List ℕ). 0 ∷ t) (bytes_from-zeros n (i + 1))

cleared : (opcode size : ℕ) → be_init_rdc opcode size ≡ qnx_init_cpt zeros zeros opcode size
unfolding be_init_rdc qnx_init_cpt
cleared opcode size =
    ap
      (λ (b : List ℕ). record {
        command = head_of opcode size (replicate 12 0);
        data_length = size;
        reads = not (opcode == gpcmd_send_key);
        buffer = b;
      })
      (bytes_from-zeros size 0)

be_init_rdc-Decodes : Decodes be_init_rdc
be_init_rdc-Decodes =
    subst Decodes (sym (λ i opcode size. cleared opcode size i)) (qnx-Decodes zeros zeros)

-- On every system the drive decodes each packet as the command it is for, when an AGID is below 4,
-- a position below 2^32 and a challenge of ten bytes; on QNX whatever was in the memory.
pub init_packet-Decodes : (s : PacketSystem) → Decodes (init_packet s)
unfolding init_packet solaris_init_uscsi os2_init_sdc be_init_rdc
init_packet-Decodes haiku = be_init_rdc-Decodes
init_packet-Decodes solaris = be_init_rdc-Decodes
init_packet-Decodes os2_scsi = be_init_rdc-Decodes
init_packet-Decodes (qnx cam_cdb heap) = qnx-Decodes cam_cdb heap
