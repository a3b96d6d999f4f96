-- ===== src/TitleKeys.antt =====
-- `dvdcss_test`, `dvdcss_disckey` and `dvdcss_titlekey` of src/css.c: what the library asks of a
-- drive. `CrackDiscKey` is a parameter: it is given the first five bytes of the disc key block, and
-- returns whether it succeeds and a key.
pub mod Classic
pub mod DiscKeys
pub mod Kept
pub mod Frame
mod Tests
use libdvdcss.Common.{
  ℕ, zero, suc, ◌+◌, ◌-◌, ◌%◌, Bool, true, false, not, ◌&&◌, ◌||◌, Option, none, some, List, [],
  ◌∷◌, if◌then◌else◌, ◌==◌, get_or, ◌⊕◌, ◌‖◌,
}
use libdvdcss.Keys.{DvdKey, byte, key_at, xor_key, zero_key}
use libdvdcss.DecryptKey.{decrypt_title_key}
use libdvdcss.DiscKey.{decrypt_disc_key}
use libdvdcss.Dvdcss.{
  Dvdcss, Drive, Method, method_key, method_disc, method_title, read_copyright, report_rpc, issue,
  ioctl_invalidate_agid, ioctl_read_disc_key, ioctl_read_title_key, get_asf, is_some, pf_seek,
  pf_read,
}
use libdvdcss.BusKey.{get_bus_key, give_up, swap_key}
use libdvdcss.CrackTitle.{KeyResult, key_absent, key_found, Cracked, crack_title_key}

-- What `dvdcss_test` returns: -1, -3, 0 and 1.
pub data TestResult : Type 0 where
  no_copyright : TestResult
  region_locked : TestResult
  unscrambled : TestResult
  scrambled : TestResult

-- From the copyright information, the scheme and the type.
unfoldable pub judge : (copyright rpc rpc_type : ℕ) → TestResult
judge copyright rpc rpc_type =
    if not (copyright == 0) && (rpc == 1 && rpc_type == 0)
    then region_locked
    else if copyright == 0
    then unscrambled
    else scrambled

-- Without an answer, an RPC-I drive is assumed: all three numbers are 0.
unfoldable pub judge_rpc : ℕ → Option (ℕ × ℕ × ℕ) → TestResult
judge_rpc copyright none = judge copyright 0 0
judge_rpc copyright (some (rpc_type, mask, rpc)) = judge copyright rpc rpc_type

unfoldable pub on_copyright : Drive → Option ℕ → Dvdcss → TestResult × Dvdcss
on_copyright drive none d = (no_copyright, d)
on_copyright drive (some copyright) d =
    let asked = issue report_rpc d in (judge_rpc copyright (drive.rpc asked.log), asked)

unfoldable pub dvdcss_test : Drive → Dvdcss → TestResult × Dvdcss
dvdcss_test drive d =
    let asked = issue read_copyright d in on_copyright drive (drive.copyright asked.log) asked

-- `p_key[i]`.
abbrev pub key_byte_at : DvdKey → ℕ → ℕ
key_byte_at k i = get_or (k.k0 ∷ k.k1 ∷ k.k2 ∷ k.k3 ∷ k.k4 ∷ []) i 0

-- `p_buffer[i] ^= p_bus_key[4 - (i % DVD_KEY_SIZE)]`, from `i` on.
unfoldable pub unshuffle : DvdKey → ℕ → List ℕ → List ℕ
unshuffle bus i [] = []
unshuffle bus i (x ∷ xs) = (x ⊕ key_byte_at bus (4 - i % 5)) ∷ unshuffle bus (i + 1) xs

-- The two ways to a disc key end alike: with the key, or without one and cracking titles.
unfoldable pub keep_disc_key : Bool × DvdKey → Dvdcss → Dvdcss
keep_disc_key (true, key) d = record d { p_disc_key = key }
keep_disc_key (false, key) d = record d { p_disc_key = zero_key; method = method_title }

module _ (drive : Drive) (crack_disc_key : DvdKey → Bool × DvdKey) where
  unfoldable pub open_disc_key : Method → List ℕ → Dvdcss → Dvdcss
  open_disc_key method_key buffer d = keep_disc_key (decrypt_disc_key buffer) d
  open_disc_key method_disc buffer d = keep_disc_key (crack_disc_key (key_at buffer 0)) d
  open_disc_key method_title buffer d = record d { p_disc_key = zero_key }

  -- `GetASF( dvdcss ) != 1`
  unfoldable pub is_one : Option ℕ → Bool
  is_one none = false
  is_one (some asf) = asf == 1

  unfoldable pub on_disc_key : Option (List ℕ) → Dvdcss → Bool × Dvdcss
  on_disc_key none d = (false, d)
  on_disc_key (some buffer) d =
      let (asf, d') = get_asf drive d in
      if is_one asf
      then (true, open_disc_key d'.method (unshuffle d'.p_bus_key 0 buffer) d')
      else give_up d'

  -- The result is whether `dvdcss_disckey` returns 0.
  unfoldable pub dvdcss_disckey : Dvdcss → Bool × Dvdcss
  dvdcss_disckey d =
      let (ok, authenticated) = get_bus_key drive d in
      let (answer, d') = ioctl_read_disc_key drive authenticated in
      if ok then on_disc_key answer d' else (false, authenticated)

  unfoldable pub uses_disc_key : Method → Bool
  uses_disc_key method_key = true
  uses_disc_key method_disc = true
  uses_disc_key method_title = false

  -- The cases of `GetASF`: whether `i_ret` is not -1 after them, and the state.
  unfoldable pub check_asf : Option ℕ → Bool → Dvdcss → Bool × Dvdcss
  check_asf none ok d = give_up d
  check_asf (some asf) ok d =
      if asf == 1 && not ok then (false, ioctl_invalidate_agid d) else (ok, d)

  -- A key that was read, once the bus key is taken off.
  unfoldable pub decrypt_read_key : DvdKey → Dvdcss → Cracked
  decrypt_read_key key d =
      if (key.k0 ‖ key.k1 ‖ key.k2 ‖ key.k3 ‖ key.k4) == 0
      then record { result = key_absent; key = key; state = d }
      else record { result = key_found; key = decrypt_title_key d.p_disc_key key; state = d }

  -- The read limit: 9 GB.
  abbrev pub read_limit : ℕ
  read_limit = 4718592

  unfoldable pub crack_instead : ℕ → Dvdcss → Option Cracked
  crack_instead pos d = crack_title_key drive pos read_limit zero_key d

  -- An unscrambled sector is read and the drive is reset.
  unfoldable pub reset_drive : Dvdcss → Dvdcss
  reset_drive d =
      let sought = (pf_seek drive 0 d).1 in
      let garbage = (pf_read drive 1 sought).1 in
      let back = (pf_seek drive 0 garbage).1 in (dvdcss_disckey back).1

  unfoldable pub on_title_key : ℕ → Option DvdKey → Bool → Dvdcss → Option Cracked
  on_title_key pos (some key) true d =
      some (decrypt_read_key (xor_key key (swap_key d.p_bus_key)) d)
  on_title_key pos (some key) false d = crack_instead pos (reset_drive d)
  on_title_key pos none ok d = crack_instead pos (reset_drive d)

  unfoldable pub classic_title_key : ℕ → Dvdcss → Option Cracked
  classic_title_key pos d =
      let (granted, d1) = get_bus_key drive d in
      let (answer, d2) = ioctl_read_title_key drive pos d1 in
      let (asf, d3) = get_asf drive d2 in
      let (ok, d4) = check_asf asf (granted && is_some answer) d3 in on_title_key pos answer ok d4

  unfoldable pub dvdcss_titlekey : ℕ → Dvdcss → Option Cracked
  dvdcss_titlekey pos d =
      if d.b_ioctls && uses_disc_key d.method then classic_title_key pos d else crack_instead pos d
