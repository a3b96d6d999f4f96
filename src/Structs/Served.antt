-- ===== src/Structs/Served.antt =====
-- The functions of Structs with a kernel that carries out each request as a command to the drive of
-- Dvdcss, and fills in the structure what the drive answers.
use libdvdcss.Common.{
  ℕ, Bool, true, false, Option, none, some, List, [], ◌∷◌, if◌then◌else◌, take, ◌==◌,
}
use libdvdcss.Keys.{DvdKey, key_at}
use libdvdcss.Dvdcss.{
  Command, read_copyright, report_rpc, report_agid, invalidate_agid, send_challenge, report_key1,
  report_challenge, send_key2, read_disc_key, read_title_key, report_asf, seek, read, readv,
  close_device, open_device, Drive,
}
use libdvdcss.Packets.Decoding.{structure_of, report_of}
use libdvdcss.Packets.Served.{key_bytes}
use libdvdcss.Structs.{
  DvdAuthinfo, AuthType, lu_send_agid, host_send_challenge, lu_send_key1, lu_send_challenge,
  host_send_key2, lu_send_title_key, lu_send_asf, lu_send_rpc_state, auth_invalidate_agid, Request,
  read_structure, auth, report_key, send_key, Filled, StructSystem, linux, bsd,
}

-- The command for a request.
unfoldable pub auth_of : AuthType → DvdAuthinfo → Command
auth_of lu_send_agid info = report_agid
auth_of host_send_challenge info = send_challenge info.agid (take 10 info.keychal)
auth_of lu_send_key1 info = report_key1 info.agid
auth_of lu_send_challenge info = report_challenge info.agid
auth_of host_send_key2 info = send_key2 info.agid (key_at info.keychal 0)
auth_of lu_send_title_key info = read_title_key info.agid info.lba
auth_of lu_send_asf info = report_asf
auth_of lu_send_rpc_state info = report_rpc
auth_of auth_invalidate_agid info = invalidate_agid info.agid

unfoldable pub sent_of : ℕ → DvdAuthinfo → Option Command
sent_of format info =
    if format == 1
    then some (send_challenge info.agid (take 10 info.keychal))
    else if format == 3
    then some (send_key2 info.agid (key_at info.keychal 0))
    else none

unfoldable pub command_of : Request → Option Command
command_of (read_structure d) = structure_of d.format d.agid
command_of (auth type info) = some (auth_of type info)
command_of (report_key format info) = report_of format info.agid info.lba
command_of (send_key format info) = sent_of format info

abbrev pub refused : Filled
refused = record {
  returned = none;
  cpst = 0;
  agid = 0;
  asf = 0;
  keychal = [];
  contents = [];
  reg_type = 0;
  region = 0;
  rpc_scheme = 0;
}

abbrev pub done : Filled
done = record refused { returned = some 0 }

unfoldable pub fill_in {ℓ} : {A : Type ℓ} → (A → Filled) → Option A → Filled
fill_in layout none = refused
fill_in layout (some x) = layout x

unfoldable pub if_accepted : Bool → Filled
if_accepted false = refused
if_accepted true = done

module _ (drive : Drive) (log : List Command) where
  unfoldable pub carried_out : Command → Filled
  carried_out read_copyright =
      fill_in (λ (c : ℕ). record done { cpst = c }) (drive.copyright (read_copyright ∷ log))
  carried_out report_rpc =
      fill_in (λ (r : ℕ × ℕ × ℕ). record done { reg_type = r.0; region = r.1; rpc_scheme = r.2 })
        (drive.rpc (report_rpc ∷ log))
  carried_out report_agid =
      fill_in (λ (a : ℕ). record done { agid = a }) (drive.agid (report_agid ∷ log))
  carried_out (invalidate_agid agid) = done
  carried_out (send_challenge agid c) =
      if_accepted (drive.accepts_challenge (send_challenge agid c ∷ log))
  carried_out (report_key1 agid) =
      fill_in (λ (k : DvdKey). record done { keychal = key_bytes k })
        (drive.key1 (report_key1 agid ∷ log))
  carried_out (report_challenge agid) =
      fill_in (λ (c : List ℕ). record done { keychal = c })
        (drive.challenge (report_challenge agid ∷ log))
  carried_out (send_key2 agid key) = if_accepted (drive.accepts_key2 (send_key2 agid key ∷ log))
  carried_out (read_disc_key agid) =
      fill_in (λ (k : List ℕ). record done { contents = k })
        (drive.disc_key (read_disc_key agid ∷ log))
  carried_out (read_title_key agid pos) =
      fill_in (λ (k : DvdKey). record done { keychal = key_bytes k })
        (drive.title_key (read_title_key agid pos ∷ log))
  carried_out report_asf =
      fill_in (λ (a : ℕ). record done { asf = a }) (drive.asf (report_asf ∷ log))
  carried_out (seek pos) = refused
  carried_out (read blocks) = refused
  carried_out (readv sizes) = refused
  carried_out close_device = refused
  carried_out open_device = refused

  unfoldable pub carry_out : Option Command → Filled
  carry_out none = refused
  carry_out (some command) = carried_out command

  unfoldable pub struct_kernel : Request → Filled
  struct_kernel request = carry_out (command_of request)

abbrev rpc_of : StructSystem → Option (ℕ × ℕ × ℕ) → Option (ℕ × ℕ × ℕ)
rpc_of (linux false) answered = none
rpc_of (linux true) answered = answered
rpc_of bsd answered = answered
