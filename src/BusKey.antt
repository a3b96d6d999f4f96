-- ===== src/BusKey.antt =====
-- `GetBusKey` of src/css.c: the mutual authentication of the host and a drive.
pub mod Agid
pub mod Laws
pub mod Agree
mod Tests
use libdvdcss.Common.{
  ℕ, zero, suc, ◌+◌, Bool, true, false, ◌&&◌, Option, none, some, List, [], ◌∷◌, ◌++◌,
  if◌then◌else◌, ◌==◌,
}
use libdvdcss.Keys.{DvdKey, byte}
use libdvdcss.DiscKey.{key_eq}
use libdvdcss.CryptKey.{KeyType, type_key1, type_key2, type_bus_key, crypt_key}
use libdvdcss.Dvdcss.{
  Dvdcss, Drive, ioctl_report_agid, ioctl_invalidate_agid, ioctl_send_challenge, ioctl_report_key1,
  ioctl_report_challenge, ioctl_send_key2,
}

-- The loop that invalidates an AGID and asks again: `n` rounds are left, `ok` is `i_ret != -1`.
unfoldable pub retry_agid : Drive → (n i : ℕ) → Bool → Dvdcss → Bool × Dvdcss
retry_agid drive zero i ok d = (ok, d)
retry_agid drive (suc n) i true d = (true, d)
retry_agid drive (suc n) i false d =
    let (ok, d') = ioctl_report_agid drive (ioctl_invalidate_agid (record d { i_agid = i })) in
    retry_agid drive n (i + 1) ok d'

unfoldable pub request_agid : Drive → Dvdcss → Bool × Dvdcss
request_agid drive d = let (ok, d') = ioctl_report_agid drive d in retry_agid drive 4 0 ok d'

-- The order of the bytes in `p_buffer`.
unfoldable pub swap_key : DvdKey → DvdKey
swap_key k = record { k0 = k.k4; k1 = k.k3; k2 = k.k2; k3 = k.k1; k4 = k.k0 }

unfoldable pub swap_challenge : List ℕ → List ℕ
swap_challenge buf =
    byte buf 9
    ∷ byte buf 8
    ∷ byte buf 7
    ∷ byte buf 6
    ∷ byte buf 5
    ∷ byte buf 4
    ∷ byte buf 3
    ∷ byte buf 2
    ∷ byte buf 1
    ∷ byte buf 0
    ∷ []

-- The host's `p_challenge`.
abbrev pub host_challenge : List ℕ
host_challenge = 0 ∷ 1 ∷ 2 ∷ 3 ∷ 4 ∷ 5 ∷ 6 ∷ 7 ∷ 8 ∷ 9 ∷ []

-- The first variant from `i` on, of `n` that are left, whose key is the drive's.
unfoldable pub find_variant : (n i : ℕ) → DvdKey → Option ℕ
find_variant zero i k = none
find_variant (suc n) i k =
    let later = find_variant n (i + 1) k in
    if key_eq (crypt_key type_key1 i host_challenge) k then some i else later

-- `p_challenge` after the two copies.
unfoldable pub join_keys : DvdKey → DvdKey → List ℕ
join_keys a b = a.k0 ∷ a.k1 ∷ a.k2 ∷ a.k3 ∷ a.k4 ∷ b.k0 ∷ b.k1 ∷ b.k2 ∷ b.k3 ∷ b.k4 ∷ []

-- What follows on a failure.
unfoldable pub give_up : Dvdcss → Bool × Dvdcss
give_up d = (false, ioctl_invalidate_agid d)

-- Send `p_key2`; on success set the bus key.
unfoldable pub establish : Drive → ℕ → DvdKey → DvdKey → Dvdcss → Bool × Dvdcss
establish drive variant k1 k2 d =
    let (ok, d') = ioctl_send_key2 drive (swap_key k2) d in
    if ok
    then (true, record d' { p_bus_key = crypt_key type_bus_key variant (join_keys k1 k2) })
    else give_up d'

unfoldable pub on_challenge : Drive → ℕ → DvdKey → Option (List ℕ) → Dvdcss → Bool × Dvdcss
on_challenge drive variant k1 none d = give_up d
on_challenge drive variant k1 (some buf) d =
    establish drive variant k1 (crypt_key type_key2 variant (swap_challenge buf)) d

unfoldable pub on_variant : Drive → DvdKey → Option ℕ → Dvdcss → Bool × Dvdcss
on_variant drive k1 none d = give_up d
on_variant drive k1 (some variant) d =
    let (answer, d') = ioctl_report_challenge drive d in on_challenge drive variant k1 answer d'

unfoldable pub on_key1 : Drive → Option DvdKey → Dvdcss → Bool × Dvdcss
on_key1 drive none d = give_up d
on_key1 drive (some buf) d = on_variant drive (swap_key buf) (find_variant 32 0 (swap_key buf)) d

unfoldable pub authenticate : Drive → Dvdcss → Bool × Dvdcss
authenticate drive d =
    let (ok, sent) = ioctl_send_challenge drive (swap_challenge host_challenge) d in
    let (answer, d') = ioctl_report_key1 drive sent in
    if ok then on_key1 drive answer d' else give_up sent

-- The result is whether `GetBusKey` returns 0.
unfoldable pub get_bus_key : Drive → Dvdcss → Bool × Dvdcss
get_bus_key drive d =
    let (ok, d') = request_agid drive d in if ok then authenticate drive d' else (false, d')
