-- ===== src/Packets/Served.antt =====
-- The functions of Packets.Ioctls with a drive that decodes the packets and answers the commands as
-- the drive of Dvdcss does, each answer in the layout that the functions read.
use libdvdcss.Common.{
  ℕ, zero, suc, ◌*◌, ◌<◌, ◌≡◌, Bool, true, false, Option, none, some, List, [], ◌∷◌, length,
  if◌then◌else◌,
}
use libdvdcss.Keys.{DvdKey}
use libdvdcss.Dvdcss.{
  Command, read_copyright, report_rpc, report_agid, invalidate_agid, send_challenge, report_key1,
  report_challenge, send_key2, read_disc_key, read_title_key, report_asf, seek, read, readv,
  close_device, open_device, Drive,
}
use libdvdcss.Packets.{Packet, PacketSystem, haiku, solaris, os2_scsi, qnx, Reply}
use libdvdcss.Packets.Decoding.{decode}

-- How the kernel fails: its error number less one, on Solaris whether the command was refused with a
-- status or the call failed, and what is then in the buffer.
pub record Failure : Type 0 where
  pub error : ℕ
  pub by_status : Bool
  pub left : List ℕ

-- `ioctl` returns a negative number; `devctl` of QNX and `DosDevIOCtl` of OS/2 return the number of
-- the error, which is positive.
unfoldable pub failure_of : PacketSystem → Failure → Reply
failure_of haiku f = record { returned = none; status = 0; buffer = f.left }
failure_of solaris f =
    if f.by_status
    then record { returned = some 0; status = suc f.error; buffer = f.left }
    else record { returned = none; status = 0; buffer = f.left }
failure_of os2_scsi f = record { returned = some (suc f.error); status = 0; buffer = f.left }
failure_of (qnx cam_cdb heap) f = record {
  returned = some (suc f.error);
  status = 0;
  buffer = f.left;
}

-- What a function returns whose answer is `o`, where a failure leaves `garbage`: on Haiku and Solaris
-- the answer, but on OS/2 and QNX a failure counts as a success with the garbage.
abbrev pub reported {ℓ} : {A : Type ℓ} → PacketSystem → A → Option A → Option A
reported haiku garbage o = o
reported solaris garbage o = o
reported os2_scsi garbage none = some garbage
reported os2_scsi garbage (some x) = some x
reported (qnx cam_cdb heap) garbage none = some garbage
reported (qnx cam_cdb heap) garbage (some x) = some x

abbrev pub reported_ok : PacketSystem → Bool → Bool
reported_ok haiku b = b
reported_ok solaris b = b
reported_ok os2_scsi b = true
reported_ok (qnx cam_cdb heap) b = true

module _ (s : PacketSystem) (f : Failure) where
  -- Data for the buffer, or an error.
  unfoldable pub give {ℓ} : {A : Type ℓ} → (A → List ℕ) → Option A → Reply
  give layout none = failure_of s f
  give layout (some x) = record { returned = some 0; status = 0; buffer = layout x }

  unfoldable pub accept : Bool → Reply
  accept false = failure_of s f
  accept true = record { returned = some 0; status = 0; buffer = [] }

abbrev pub key_bytes : DvdKey → List ℕ
key_bytes k = k.k0 ∷ k.k1 ∷ k.k2 ∷ k.k3 ∷ k.k4 ∷ []

abbrev pub behind : (n : ℕ) → List ℕ → List ℕ
behind zero xs = xs
behind (suc n) xs = 0 ∷ behind n xs

module _ (s : PacketSystem) (f : Failure) (drive : Drive) (log : List Command) where
  -- The answer to a command in the layout of its data.
  unfoldable pub answer : Command → Reply
  answer read_copyright =
      give s f (λ (c : ℕ). behind 4 (c ∷ [])) (drive.copyright (read_copyright ∷ log))
  answer report_rpc =
      give s f (λ (r : ℕ × ℕ × ℕ). behind 4 (r.0 * 64 ∷ r.1 ∷ r.2 ∷ []))
        (drive.rpc (report_rpc ∷ log))
  answer report_agid = give s f (λ (a : ℕ). behind 7 (a * 64 ∷ [])) (drive.agid (report_agid ∷ log))
  answer (invalidate_agid agid) = accept s f true
  answer (send_challenge agid c) =
      accept s f (drive.accepts_challenge (send_challenge agid c ∷ log))
  answer (report_key1 agid) =
      give s f (λ (k : DvdKey). behind 4 (key_bytes k)) (drive.key1 (report_key1 agid ∷ log))
  answer (report_challenge agid) =
      give s f (behind 4) (drive.challenge (report_challenge agid ∷ log))
  answer (send_key2 agid key) = accept s f (drive.accepts_key2 (send_key2 agid key ∷ log))
  answer (read_disc_key agid) = give s f (behind 4) (drive.disc_key (read_disc_key agid ∷ log))
  answer (read_title_key agid pos) =
      give s f (λ (k : DvdKey). behind 5 (key_bytes k))
        (drive.title_key (read_title_key agid pos ∷ log))
  answer report_asf = give s f (λ (a : ℕ). behind 7 (a ∷ [])) (drive.asf (report_asf ∷ log))
  answer (seek pos) = accept s f false
  answer (read blocks) = accept s f false
  answer (readv sizes) = accept s f false
  answer close_device = accept s f false
  answer open_device = accept s f false

  unfoldable pub answer_decoded : Option Command → Reply
  answer_decoded none = accept s f false
  answer_decoded (some command) = answer command

  unfoldable pub serve : Packet → Reply
  serve p = answer_decoded (decode p)

-- The sizes of what a drive answers next: an ASF of one bit, ten bytes of challenge and the 2048
-- bytes of the disc key block.
pub record AnswersFit (drive : Drive) (log : List Command) : Type 0 where
  pub asf : (a : ℕ) → drive.asf (report_asf ∷ log) ≡ some a → a < 2
  pub challenge :
      (agid : ℕ) (c : List ℕ)
      → drive.challenge (report_challenge agid ∷ log) ≡ some c
      → length c ≡ 10
  pub disc_key :
      (agid : ℕ) (k : List ℕ) → drive.disc_key (read_disc_key agid ∷ log) ≡ some k → length k ≡ 2048
