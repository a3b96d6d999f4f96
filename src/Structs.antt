-- ===== src/Structs.antt =====
-- The ioctls of src/ioctl.c on Linux and on the BSDs, which hand a structure to the kernel. The
-- kernel is a parameter. The members of a union are the fields of one record, and all start as zero.
pub mod Served
mod Tests
use libdvdcss.Common.{
  ℕ, ◌+◌, Bool, true, false, Option, none, some, List, [], ◌∷◌, ◌++◌, if◌then◌else◌, length, take,
  drop, replicate,
}
use libdvdcss.Keys.{DvdKey, key_at}
use libdvdcss.Dvdcss.{is_some}

-- `dvd_struct`
pub record DvdStruct : Type 0 where
  pub format : ℕ
  pub layer_num : ℕ
  pub agid : ℕ

-- `dvd_authinfo` without its type: `keychal` is the challenge or the key.
pub record DvdAuthinfo : Type 0 where
  pub agid : ℕ
  pub lba : ℕ
  pub asf : ℕ
  pub keychal : List ℕ

-- The types of `dvd_authinfo` of Linux.
pub data AuthType : Type 0 where
  lu_send_agid : AuthType
  host_send_challenge : AuthType
  lu_send_key1 : AuthType
  lu_send_challenge : AuthType
  host_send_key2 : AuthType
  lu_send_title_key : AuthType
  lu_send_asf : AuthType
  lu_send_rpc_state : AuthType
  auth_invalidate_agid : AuthType

-- DVD_READ_STRUCT or DVDIOCREADSTRUCTURE, DVD_AUTH of Linux, and DVDIOCREPORTKEY and DVDIOCSENDKEY of
-- the BSDs with a format.
pub data Request : Type 0 where
  read_structure : DvdStruct → Request
  auth : AuthType → DvdAuthinfo → Request
  report_key : ℕ → DvdAuthinfo → Request
  send_key : ℕ → DvdAuthinfo → Request

-- What the kernel returns, where `none` is negative, and what is then in the structure.
pub record Filled : Type 0 where
  pub returned : Option ℕ
  pub cpst : ℕ
  pub agid : ℕ
  pub asf : ℕ
  pub keychal : List ℕ
  pub contents : List ℕ
  pub reg_type : ℕ
  pub region : ℕ
  pub rpc_scheme : ℕ

-- Linux with or without DVD_LU_SEND_RPC_STATE, and the BSDs.
pub data StructSystem : Type 0 where
  linux : (has_rpc_state : Bool) → StructSystem
  bsd : StructSystem

abbrev pub no_struct : DvdStruct
no_struct = record { format = 0; layer_num = 0; agid = 0 }

abbrev pub no_authinfo : DvdAuthinfo
no_authinfo = record { agid = 0; lba = 0; asf = 0; keychal = replicate 10 0 }

abbrev pub with_grant : ℕ → DvdAuthinfo
with_grant agid = record no_authinfo { agid = agid }

-- `memcpy` to the start of `keychal`.
unfoldable pub with_keychal : List ℕ → DvdAuthinfo → DvdAuthinfo
with_keychal bytes info = record info { keychal = bytes ++ drop (length bytes) info.keychal }

-- What is stored where the caller looks only after a success.
unfoldable pub when_filled {ℓ} : {A : Type ℓ} → Filled → A → Option A
when_filled r value = if is_some r.returned then some value else none

-- The request of a function on Linux and on the BSDs.
unfoldable pub ask : StructSystem → AuthType → (DvdAuthinfo → Request) → DvdAuthinfo → Request
ask (linux has_rpc_state) type of_bsd info = auth type info
ask bsd type of_bsd info = of_bsd info

module _ (s : StructSystem) (kernel : Request → Filled) where
  unfoldable pub struct_read_copyright : ℕ → Option ℕ
  struct_read_copyright layer =
      let r = kernel (read_structure (record no_struct { format = 1; layer_num = layer })) in
      when_filled r r.cpst

  unfoldable pub struct_read_disc_key : ℕ → Option (List ℕ)
  struct_read_disc_key agid =
      let r = kernel (read_structure (record no_struct { format = 2; agid = agid })) in
      when_filled r (take 2048 r.contents)

  unfoldable pub struct_read_title_key : ℕ → ℕ → Option DvdKey
  struct_read_title_key agid pos =
      let info = record (with_grant agid) { lba = pos } in
      let r = kernel (ask s lu_send_title_key (report_key 0x04) info) in
      when_filled r (key_at r.keychal 0)

  unfoldable pub struct_report_agid : ℕ → Option ℕ
  struct_report_agid agid =
      let r = kernel (ask s lu_send_agid (report_key 0x00) (with_grant agid)) in
      when_filled r r.agid

  unfoldable pub struct_report_challenge : ℕ → Option (List ℕ)
  struct_report_challenge agid =
      let r = kernel (ask s lu_send_challenge (report_key 0x01) (with_grant agid)) in
      when_filled r (take 10 r.keychal)

  unfoldable pub struct_report_asf : ℕ → Option ℕ
  struct_report_asf asf =
      let r = kernel (ask s lu_send_asf (report_key 0x05) (record no_authinfo { asf = asf })) in
      when_filled r r.asf

  unfoldable pub struct_report_key1 : ℕ → Option DvdKey
  struct_report_key1 agid =
      let r = kernel (ask s lu_send_key1 (report_key 0x02) (with_grant agid)) in
      when_filled r (key_at r.keychal 0)

  unfoldable pub struct_invalidate_agid : ℕ → Bool
  struct_invalidate_agid agid =
      is_some (kernel (ask s auth_invalidate_agid (report_key 0x3f) (with_grant agid))).returned

  unfoldable pub struct_send_challenge : ℕ → List ℕ → Bool
  struct_send_challenge agid challenge =
      let info = with_keychal challenge (with_grant agid) in
      is_some (kernel (ask s host_send_challenge (send_key 0x01) info)).returned

  unfoldable pub struct_send_key2 : ℕ → DvdKey → Bool
  struct_send_key2 agid key =
      let bytes = key.k0 ∷ key.k1 ∷ key.k2 ∷ key.k3 ∷ key.k4 ∷ [] in
      let info = with_keychal bytes (with_grant agid) in
      is_some (kernel (ask s host_send_key2 (send_key 0x03) info)).returned

  unfoldable pub rpc_asked : Option (ℕ × ℕ × ℕ)
  rpc_asked =
      let r = kernel (ask s lu_send_rpc_state (report_key 0x08) no_authinfo) in
      when_filled r (r.reg_type, r.region, r.rpc_scheme)

-- Without DVD_LU_SEND_RPC_STATE the function fails at once.
unfoldable pub struct_report_rpc : StructSystem → (Request → Filled) → Option (ℕ × ℕ × ℕ)
struct_report_rpc (linux false) kernel = none
struct_report_rpc (linux true) kernel = rpc_asked (linux true) kernel
struct_report_rpc bsd kernel = rpc_asked bsd kernel
