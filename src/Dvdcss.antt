-- ===== src/Dvdcss.antt =====
-- `struct dvdcss_s` of src/libdvdcss.h with `struct css` and `struct dvd_title` of src/css.h, the
-- ioctls of src/ioctl.h and the function pointers `pf_seek` and `pf_read`. The drive, with the
-- system below it, is a parameter: what it answers to a command may depend on all commands it has
-- had before, which `log` holds, the last one first. The command itself is the head of the log that
-- it is asked with.
use libdvdcss.Common.{ℕ, Bool, true, false, Option, none, some, List, ◌∷◌}
use libdvdcss.Keys.{DvdKey}

-- `enum dvdcss_method`.
pub data Method : Type 0 where
  method_key : Method
  method_disc : Method
  method_title : Method

pub data Command : Type 0 where
  read_copyright : Command
  report_rpc : Command
  report_agid : Command
  invalidate_agid : ℕ → Command
  send_challenge : ℕ → List ℕ → Command
  report_key1 : ℕ → Command
  report_challenge : ℕ → Command
  send_key2 : ℕ → DvdKey → Command
  read_disc_key : ℕ → Command
  read_title_key : ℕ → ℕ → Command
  report_asf : Command
  seek : ℕ → Command
  read : ℕ → Command
  readv : List ℕ → Command
  close_device : Command
  open_device : Command

-- What a drive answers; `none` and `false` are -1.
pub record Drive : Type 0 where
  -- The copyright information.
  pub copyright : List Command → Option ℕ
  -- The type, the region mask and the scheme.
  pub rpc : List Command → Option (ℕ × ℕ × ℕ)
  pub agid : List Command → Option ℕ
  pub accepts_challenge : List Command → Bool
  pub key1 : List Command → Option DvdKey
  pub challenge : List Command → Option (List ℕ)
  pub accepts_key2 : List Command → Bool
  pub disc_key : List Command → Option (List ℕ)
  pub title_key : List Command → Option DvdKey
  pub asf : List Command → Option ℕ
  -- The block that a seek reaches.
  pub position : List Command → Option ℕ
  -- The blocks that a read gives: their number, and their bytes.
  pub blocks : List Command → Option (ℕ × List ℕ)
  -- The same into buffers: the bytes that each of them then holds.
  pub vectors : List Command → Option (ℕ × List (List ℕ))

-- A title: `i_startlb` and `p_key`.
pub record DvdTitle : Type 0 where
  pub startlb : ℕ
  pub key : DvdKey

pub record Dvdcss : Type 0 where
  pub method : Method
  pub b_ioctls : Bool
  pub b_scrambled : Bool
  pub i_agid : ℕ
  pub p_bus_key : DvdKey
  pub p_disc_key : DvdKey
  pub p_title_key : DvdKey
  pub p_titles : List DvdTitle
  pub log : List Command

unfoldable pub issue : Command → Dvdcss → Dvdcss
issue command d = record d { log = command ∷ d.log }

unfoldable pub ioctl_invalidate_agid : Dvdcss → Dvdcss
ioctl_invalidate_agid d = issue (invalidate_agid d.i_agid) d

unfoldable pub set_agid : Option ℕ → Dvdcss → Dvdcss
set_agid none d = d
set_agid (some agid) d = record d { i_agid = agid }

unfoldable pub is_some {ℓ} : {A : Type ℓ} → Option A → Bool
is_some none = false
is_some (some x) = true

-- `ioctl_ReportAgid`, with whether it succeeds.
unfoldable pub ioctl_report_agid : Drive → Dvdcss → Bool × Dvdcss
ioctl_report_agid drive d =
    let asked = issue report_agid d in
    let answer = drive.agid asked.log in (is_some answer, set_agid answer asked)

unfoldable pub ioctl_send_challenge : Drive → List ℕ → Dvdcss → Bool × Dvdcss
ioctl_send_challenge drive buffer d =
    let asked = issue (send_challenge d.i_agid buffer) d in
    (drive.accepts_challenge asked.log, asked)

unfoldable pub ioctl_report_key1 : Drive → Dvdcss → Option DvdKey × Dvdcss
ioctl_report_key1 drive d =
    let asked = issue (report_key1 d.i_agid) d in (drive.key1 asked.log, asked)

unfoldable pub ioctl_report_challenge : Drive → Dvdcss → Option (List ℕ) × Dvdcss
ioctl_report_challenge drive d =
    let asked = issue (report_challenge d.i_agid) d in (drive.challenge asked.log, asked)

unfoldable pub ioctl_send_key2 : Drive → DvdKey → Dvdcss → Bool × Dvdcss
ioctl_send_key2 drive buffer d =
    let asked = issue (send_key2 d.i_agid buffer) d in (drive.accepts_key2 asked.log, asked)

unfoldable pub ioctl_read_disc_key : Drive → Dvdcss → Option (List ℕ) × Dvdcss
ioctl_read_disc_key drive d =
    let asked = issue (read_disc_key d.i_agid) d in (drive.disc_key asked.log, asked)

unfoldable pub ioctl_read_title_key : Drive → ℕ → Dvdcss → Option DvdKey × Dvdcss
ioctl_read_title_key drive pos d =
    let asked = issue (read_title_key d.i_agid pos) d in (drive.title_key asked.log, asked)

-- `GetASF`: `none` is -1.
unfoldable pub get_asf : Drive → Dvdcss → Option ℕ × Dvdcss
get_asf drive d = let asked = issue report_asf d in (drive.asf asked.log, asked)

-- `dvdcss->pf_seek`: the position reached, `none` for an error.
unfoldable pub pf_seek : Drive → ℕ → Dvdcss → Option ℕ × Dvdcss
pf_seek drive pos d = let asked = issue (seek pos) d in (drive.position asked.log, asked)

-- `dvdcss->pf_read`: the number of blocks read and their bytes, `none` for an error.
unfoldable pub pf_read : Drive → ℕ → Dvdcss → Option (ℕ × List ℕ) × Dvdcss
pf_read drive blocks d = let asked = issue (read blocks) d in (drive.blocks asked.log, asked)

-- `dvdcss->pf_readv` with buffers of these lengths.
unfoldable pub pf_readv : Drive → List ℕ → Dvdcss → Option (ℕ × List (List ℕ)) × Dvdcss
pf_readv drive lengths d = let asked = issue (readv lengths) d in (drive.vectors asked.log, asked)
