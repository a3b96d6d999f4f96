-- ===== src/Device/Choice.antt =====
-- `dvdcss_use_ioctls`, `dvdcss_check_device`, `dvdcss_open_device` and `dvdcss_close_device` of
-- src/device.c: which device is opened, and through which calls. What the systems know of devices
-- are parameters.
use libdvdcss.Common.{
  ℕ, zero, suc, ◌+◌, ◌/◌, ◌%◌, ◌^◌, Bool, true, false, not, ◌&&◌, ◌||◌, Option, none, some, List,
  [], ◌∷◌, ◌++◌, if◌then◌else◌, ◌==◌,
}
use libdvdcss.Cache.{Platform, windows, android, os2, unix, codes, is_empty}

-- `st_mode`.
pub data FileKind : Type 0 where
  block_device : FileKind
  char_device : FileKind
  other_file : FileKind

-- What `dvdcss_use_ioctls` asks of the system: `b_file` on Windows, whether the file is a drive on
-- OS/2, and what kind of file it is; `none` when that is not known.
pub data Query : Type 0 where
  by_b_file : Bool → Query
  by_drive : Option Bool → Query
  by_nothing : Query
  by_stat : Option FileKind → Query

unfoldable pub is_device : FileKind → Bool
is_device block_device = true
is_device char_device = true
is_device other_file = false

unfoldable pub answers_ioctls : Query → Bool
answers_ioctls (by_b_file b_file) = not b_file
answers_ioctls (by_drive none) = true
answers_ioctls (by_drive (some is_drive)) = is_drive
answers_ioctls by_nothing = false
answers_ioctls (by_stat none) = true
answers_ioctls (by_stat (some kind)) = is_device kind

unfoldable pub dvdcss_use_ioctls : Bool → Query → Bool
dvdcss_use_ioctls has_stream query = if has_stream then false else answers_ioctls query

-- `dvdcss_check_device`. On Unix the first of `ppsz_devices` that opens, from those that are left.
abbrev pub ppsz_devices : List (List ℕ)
ppsz_devices = codes "/dev/dvd" ∷ codes "/dev/cdrom" ∷ codes "/dev/hdc" ∷ []

unfoldable pub first_device : (List ℕ → Bool) → List (List ℕ) → Option (List ℕ)
first_device opens [] = none
first_device opens (name ∷ names) =
    let rest = first_device opens names in if opens name then some name else rest

-- On Windows and OS/2 the first of 26 drives, from letter `i` on, that is a disc drive.
unfoldable pub first_letter : (ℕ → Bool) → (n i : ℕ) → Option (List ℕ)
first_letter is_disc_drive zero i = none
first_letter is_disc_drive (suc n) i =
    let rest = first_letter is_disc_drive n (i + 1) in
    if is_disc_drive i then some ((b'A' + i) ∷ b':' ∷ []) else rest

-- The bits of `GetLogicalDrives` are looked at from the lowest one on.
unfoldable pub in_mask : ℕ → (ℕ → Bool) → ℕ → Bool
in_mask drives is_cdrom i = drives / 2 ^ i % 2 == 1 && is_cdrom i

-- What the systems say of their drives.
pub record Drives : Type 0 where
  pub opens : List ℕ → Bool
  pub logical_drives : ℕ
  pub is_cdrom : ℕ → Bool
  -- `data.usDevAttr` and `data.usCylinders` of OS/2.
  pub parameters : ℕ → Option (ℕ × ℕ)

unfoldable pub is_removable : Option (ℕ × ℕ) → Bool
is_removable none = false
is_removable (some (attributes, cylinders)) = attributes % 2 == 0 && cylinders == 0xffff

unfoldable pub default_device : Platform → Drives → Option (List ℕ)
default_device windows d = first_letter (in_mask d.logical_drives d.is_cdrom) 32 0
default_device os2 d = first_letter (λ i. is_removable (d.parameters i)) 26 0
default_device android d = first_device d.opens ppsz_devices
default_device unix d = first_device d.opens ppsz_devices

unfoldable pub or_same : List ℕ → Option (List ℕ) → List ℕ
or_same psz_device none = psz_device
or_same psz_device (some name) = name

-- `psz_device` afterwards.
unfoldable pub dvdcss_check_device : Platform → Drives → Bool → List ℕ → List ℕ
dvdcss_check_device platform d has_stream psz_device =
    if not (is_empty psz_device) || has_stream
    then psz_device
    else or_same psz_device (default_device platform d)

-- The functions that `pf_seek`, `pf_read` and `pf_readv` point to, and the one that opens.
pub data Calls : Type 0 where
  stream_calls : Calls
  win2k_calls : Calls
  os2_calls : Calls
  libc_calls : Calls

-- "X:" or "X:\".
unfoldable pub is_drive_name : List ℕ → Bool
is_drive_name (c ∷ d ∷ []) = d == b':'
is_drive_name (c ∷ d ∷ e ∷ []) = d == b':' && e == b'\\'
is_drive_name cs = false

unfoldable pub choose_calls : Platform → List ℕ → Calls
choose_calls windows psz_device = if is_drive_name psz_device then win2k_calls else libc_calls
choose_calls os2 psz_device = if is_drive_name psz_device then os2_calls else libc_calls
choose_calls android psz_device = libc_calls
choose_calls unix psz_device = libc_calls

-- What the operating system is asked to open: a name, for reading and writing or for reading.
pub record Openings : Type 0 where
  pub opens_file : List ℕ → Bool
  pub opens_drive : List ℕ → Bool
  pub opens_drive_to_write : List ℕ → Bool

-- `psz_device[0]`
unfoldable pub letter : List ℕ → List ℕ
letter [] = []
letter (c ∷ cs) = c ∷ []

unfoldable pub open_by : Openings → Calls → List ℕ → Bool
open_by o stream_calls psz_device = true
open_by o win2k_calls psz_device =
    let psz_dvd = codes "\\\\.\\" ++ (letter psz_device ++ codes ":") in
    o.opens_drive_to_write psz_dvd || o.opens_drive psz_dvd
open_by o os2_calls psz_device = o.opens_drive (letter psz_device ++ codes ":")
open_by o libc_calls psz_device = o.opens_file psz_device

-- `DVDCSS_RAW_DEVICE` goes before `psz_device`. The calls, and whether it returns 0.
unfoldable pub dvdcss_open_device :
    Platform → Openings → Bool → Option (List ℕ) → List ℕ → Calls × Bool
dvdcss_open_device platform o has_stream raw psz_device =
    let name = or_same psz_device raw in
    let calls = choose_calls platform name in
    if has_stream then (stream_calls, true) else (calls, open_by o calls name)

-- `close` may fail, and `CloseHandle` is not asked.
unfoldable pub dvdcss_close_device : Calls → Bool → Bool
dvdcss_close_device stream_calls closes = true
dvdcss_close_device win2k_calls closes = true
dvdcss_close_device os2_calls closes = closes
dvdcss_close_device libc_calls closes = closes
