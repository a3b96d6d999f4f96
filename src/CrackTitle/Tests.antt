-- ===== src/CrackTitle/Tests.antt =====
-- Attacks on concrete sectors.
use libdvdcss.Common.{
  ℕ, ◌≤◌, ◌<◌, true, false, Option, none, some, List, [], ◌∷◌, ◌++◌, ◌≡◌, refl, replicate,
}
use libdvdcss.Keys.{zero_key}
use libdvdcss.Dvdcss.{Dvdcss, Drive, method_title}
use libdvdcss.CrackTitle.{
  Attack, best_pattern, scan_all, scan, improve, repeats, is_enough, pattern_offset,
}
use libdvdcss.CrackTitle.Pattern.{IsFound, Repeats, best_pattern_lem}
use libdvdcss.CrackTitle.Counts.{Counts}

-- A pack with a scrambled payload, whose clear part ends in a cycle of three bytes.
abbrev sector : List ℕ
sector =
    0 ∷ 0 ∷ 1 ∷ 0xba ∷ replicate 13 7
    ++ 0xe0 ∷ 0 ∷ 0 ∷ 0x30 ∷ replicate 100 3
    ++ 1 ∷ 2 ∷ 3 ∷ 1 ∷ 2 ∷ 3 ∷ 1 ∷ 2 ∷ 3 ∷ replicate 1918 0x5a

finds_cycle :
    best_pattern (replicate 0x7a 3 ++ 9 ∷ 1 ∷ 2 ∷ 1 ∷ 2 ∷ 1 ∷ replicate 1920 0)
    ≡ record { plen = 4; p = 2 }
unfolding best_pattern scan_all scan improve repeats
finds_cycle = refl

-- Four bytes of a cycle of two are enough, so that the guess takes in six bytes of the payload.
four_are_enough :
    (is_enough (record { plen = 4; p = 2 }) ≡ true)
    × (pattern_offset (record { plen = 4; p = 2 }) ≡ 0x7c)
unfolding is_enough pattern_offset
four_are_enough = (refl, refl)

best_pattern_lem_example :
    IsFound sector (best_pattern sector)
    × ((c l : ℕ)
        → 2 ≤ c
        → c < 0x30
        → c < l
        → l < 0x80
        → Repeats sector c l
        → l ≤ (best_pattern sector).plen)
best_pattern_lem_example = best_pattern_lem sector

abbrev fresh : Attack
fresh = record { tries = 0; success = 0; key = zero_key }

abbrev same_block : Drive
same_block = record {
  copyright = λ log. none;
  rpc = λ log. none;
  agid = λ log. none;
  accepts_challenge = λ log. false;
  key1 = λ log. none;
  challenge = λ log. none;
  accepts_key2 = λ log. false;
  disc_key = λ log. none;
  title_key = λ log. none;
  asf = λ log. none;
  position = λ log. some 0;
  blocks = λ log. some (1, sector);
  vectors = λ log. none;
}

abbrev opened : Dvdcss
opened = record {
  method = method_title;
  b_ioctls = false;
  b_scrambled = true;
  i_agid = 0;
  p_bus_key = zero_key;
  p_disc_key = zero_key;
  p_title_key = zero_key;
  p_titles = [];
  log = [];
}

abbrev bytes_of : Option (ℕ × List ℕ) → List ℕ
bytes_of none = []
bytes_of (some (n, buf)) = buf
