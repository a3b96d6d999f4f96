-- ===== src/BusKey/Tests.antt =====
-- `GetBusKey` of src/css.c with concrete drives.
use libdvdcss.Common.{
  ℕ, Bool, true, false, Option, none, some, List, [], ◌∷◌, ◌≡◌, refl, ◌==◌, if◌then◌else◌, ◌⊎◌,
  arith,
}
use libdvdcss.Keys.{DvdKey, zero_key}
use libdvdcss.DiscKey.{key_eq}
use libdvdcss.DiscKey.Laws.{≡→key_eq}
use libdvdcss.CryptKey.{type_key1, type_key2, crypt_key}
use libdvdcss.Dvdcss.{
  Dvdcss, Drive, Command, method_key, report_agid, invalidate_agid, send_challenge, report_key1,
  send_key2, is_some,
}
use libdvdcss.BusKey.{get_bus_key, swap_key, swap_challenge}
use libdvdcss.BusKey.Agid.{OnlyAgid, refused_log}
use libdvdcss.BusKey.Laws.{Outcome, get_bus_key_lem}
use libdvdcss.BusKey.Agree.{KeepsProtocol, drive_bus_key, get_bus_key_agrees}

abbrev nonce : List ℕ
nonce = 9 ∷ 8 ∷ 7 ∷ 6 ∷ 5 ∷ 4 ∷ 3 ∷ 2 ∷ 1 ∷ 0 ∷ []

-- AGID 2 is hung.
abbrev agid_of : List Command → Option ℕ
agid_of (report_agid ∷ invalidate_agid a ∷ log) = if a == 2 then some 2 else none
agid_of _ = none

abbrev key1_of : List Command → Option DvdKey
key1_of (report_key1 a ∷ send_challenge b sent ∷ log) =
    some (swap_key (crypt_key type_key1 5 (swap_challenge sent)))
key1_of _ = none

abbrev checks_key2 : List Command → Bool
checks_key2 (send_key2 a k ∷ log) =
    key_eq k (swap_key (crypt_key type_key2 5 (swap_challenge nonce)))
checks_key2 _ = false

abbrev honest_drive : Drive
honest_drive = record {
  copyright = λ log. some 1;
  rpc = λ log. some (1, 0xfe, 1);
  agid = agid_of;
  accepts_challenge = λ log. true;
  key1 = key1_of;
  challenge = λ log. some nonce;
  accepts_key2 = checks_key2;
  disc_key = λ log. none;
  title_key = λ log. none;
  asf = λ log. some 1;
  position = λ log. none;
  blocks = λ log. none;
  vectors = λ log. none;
}

abbrev opened : Dvdcss
opened = record {
  method = method_key;
  b_ioctls = true;
  b_scrambled = true;
  i_agid = 0;
  p_bus_key = zero_key;
  p_disc_key = zero_key;
  p_title_key = zero_key;
  p_titles = [];
  log = [];
}

honest_drive-KeepsProtocol : KeepsProtocol honest_drive 5 2 nonce
unfolding is_some
honest_drive-KeepsProtocol = record {
  grants = λ log. refl;
  accepts = λ log. refl;
  proves = λ a sent log. refl;
  challenges = λ log. refl;
  checks = λ a log. ≡→key_eq (swap_key (crypt_key type_key2 5 (swap_challenge nonce))) _ refl;
}

get_bus_key_agrees_example :
    let (ok, d') = get_bus_key honest_drive opened in
    (ok ≡ true) × (d'.p_bus_key ≡ drive_bus_key 5 nonce) × (d'.p_disc_key ≡ opened.p_disc_key)
get_bus_key_agrees_example =
    get_bus_key_agrees honest_drive 5 2 nonce honest_drive-KeepsProtocol (omega arith) opened
      (omega arith)

get_bus_key_lem_example :
    ((g : Dvdcss) × (honest_drive.agid g.log ≡ some g.i_agid)
      × OnlyAgid opened g
      × Outcome honest_drive g (get_bus_key honest_drive opened))
    ⊎ (let (ok, d') = get_bus_key honest_drive opened in
        (ok ≡ false)
        × (honest_drive.agid d'.log ≡ none)
        × (d'.log ≡ refused_log opened.log)
        × OnlyAgid opened d')
get_bus_key_lem_example = get_bus_key_lem honest_drive opened
