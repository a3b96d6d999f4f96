-- ===== src/TitleKeys/Tests.antt =====
-- `dvdcss_test`, `dvdcss_disckey` and `dvdcss_titlekey` of src/css.c with a concrete drive.
use libdvdcss.Common.{
  ℕ, Bool, true, false, Option, none, some, List, [], ◌∷◌, ◌≡◌, refl, ◌==◌, if◌then◌else◌, ◌⊎◌,
  arith, replicate, ◌‖◌, ◌≢◌, sym,
}
use libdvdcss.Keys.{DvdKey, IsKey, zero_key, xor_key}
use libdvdcss.DecryptKey.RoundTrip.{encrypt_key, decrypt_key-encrypt_key, decrypt_key-IsKey}
use libdvdcss.DecryptKey.{decrypt_key}
use mathlib.Core.Path.{subst}
use libdvdcss.DiscKey.{key_eq}
use libdvdcss.DiscKey.Laws.{≡→key_eq}
use libdvdcss.CryptKey.{type_key1, type_key2, crypt_key}
use libdvdcss.Dvdcss.{
  Dvdcss, Drive, Command, method_key, report_agid, invalidate_agid, send_challenge, report_key1,
  send_key2, is_some,
}
use libdvdcss.BusKey.{get_bus_key, swap_key, swap_challenge}
use libdvdcss.BusKey.Agree.{KeepsProtocol, drive_bus_key}
use libdvdcss.CrackTitle.{Cracked, key_found}
use libdvdcss.TitleKeys.{
  dvdcss_titlekey, dvdcss_disckey, uses_disc_key, dvdcss_test, on_copyright, judge_rpc, judge,
  region_locked,
}
use libdvdcss.TitleKeys.Classic.{Present, dvdcss_titlekey_honest}
use libdvdcss.TitleKeys.DiscKeys.{Read, dvdcss_disckey_lem}

abbrev nonce : List ℕ
nonce = replicate 10 0x11

abbrev disc_key : DvdKey
disc_key = record { k0 = 1; k1 = 2; k2 = 3; k3 = 4; k4 = 5 }

abbrev encrypted : DvdKey
encrypted = record { k0 = 0x10; k1 = 0x20; k2 = 0x30; k3 = 0x40; k4 = 0x50 }

encrypted-IsKey : IsKey encrypted
encrypted-IsKey = record {
  byte0 = omega arith;
  byte1 = omega arith;
  byte2 = omega arith;
  byte3 = omega arith;
  byte4 = omega arith;
}

abbrev title_key : DvdKey
title_key = decrypt_key 0xff disc_key encrypted

abbrev agid_of : List Command → Option ℕ
agid_of (report_agid ∷ invalidate_agid a ∷ log) = if a == 1 then some 1 else none
agid_of _ = none

abbrev key1_of : List Command → Option DvdKey
key1_of (report_key1 a ∷ send_challenge b sent ∷ log) =
    some (swap_key (crypt_key type_key1 9 (swap_challenge sent)))
key1_of _ = none

abbrev checks_key2 : List Command → Bool
checks_key2 (send_key2 a k ∷ log) =
    key_eq k (swap_key (crypt_key type_key2 9 (swap_challenge nonce)))
checks_key2 _ = false

abbrev drive : Drive
drive = record {
  copyright = λ log. some 1;
  rpc = λ log. some (0, 0xff, 1);
  agid = agid_of;
  accepts_challenge = λ log. true;
  key1 = key1_of;
  challenge = λ log. some nonce;
  accepts_key2 = checks_key2;
  disc_key = λ log. none;
  title_key = λ log.
      some (xor_key (encrypt_key 0xff disc_key title_key) (swap_key (drive_bus_key 9 nonce)));
  asf = λ log. some 1;
  position = λ log. none;
  blocks = λ log. none;
  vectors = λ log. none;
}

abbrev opened : Dvdcss
opened = record {
  method = method_key;
  b_ioctls = true;
  b_scrambled = true;
  i_agid = 0;
  p_bus_key = zero_key;
  p_disc_key = disc_key;
  p_title_key = zero_key;
  p_titles = [];
  log = [];
}

abbrev no_crack : DvdKey → Bool × DvdKey
no_crack k = (false, k)

locked : (dvdcss_test drive opened).0 ≡ region_locked
unfolding dvdcss_test on_copyright judge_rpc judge
locked = refl

keeps : KeepsProtocol drive 9 1 nonce
unfolding is_some
keeps = record {
  grants = λ log. refl;
  accepts = λ log. refl;
  proves = λ a sent log. refl;
  challenges = λ log. refl;
  checks = λ a log. ≡→key_eq (swap_key (crypt_key type_key2 9 (swap_challenge nonce))) _ refl;
}

dvdcss_disckey_lem_example :
    let (ok, authenticated) = get_bus_key drive opened in
    ((ok ≡ false) × (dvdcss_disckey drive no_crack opened ≡ (false, authenticated)))
    ⊎ ((ok ≡ true) × Read drive no_crack authenticated (dvdcss_disckey drive no_crack opened))
dvdcss_disckey_lem_example = dvdcss_disckey_lem drive no_crack opened

present : Present drive no_crack 9 1 nonce keeps (omega arith) (omega arith) disc_key title_key
present =
    subst (λ (k : DvdKey). k.k0 ‖ k.k1 ‖ k.k2 ‖ k.k3 ‖ k.k4 ≢ 0)
      (sym (decrypt_key-encrypt_key 0xff disc_key encrypted encrypted-IsKey).2) (λ e. omega arith)

dvdcss_titlekey_honest_example :
    (c : Cracked) × (dvdcss_titlekey drive no_crack 512 opened ≡ some c)
    × (c.result ≡ key_found)
    × (c.key ≡ title_key)
unfolding uses_disc_key
dvdcss_titlekey_honest_example =
    dvdcss_titlekey_honest drive no_crack 9 1 nonce keeps (omega arith) (omega arith) disc_key
      title_key 512 opened (record { sends = λ log. refl; stays = λ log. refl })
      (decrypt_key-IsKey 0xff disc_key encrypted-IsKey) present refl refl refl
