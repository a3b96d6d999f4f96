-- ===== src/Titles/Tests.antt =====
-- Titles and cached keys on concrete data.
use libdvdcss.Common.{ℕ, List, [], ◌∷◌, ◌++◌, ◌≡◌, refl, some, arith, if◌then◌else◌, ◌==◌}
use libdvdcss.Keys.{DvdKey, IsKey, zero_key}
use libdvdcss.Dvdcss.{DvdTitle}
use libdvdcss.Titles.{
  known_key, walk, if_at, insert_title, cached_key, print_key, hex_byte, hex_digit,
}
use libdvdcss.Titles.Sorted.{IsSorted, insert_title_lem}
use libdvdcss.Titles.KeyText.{cached_key-print_key}

abbrev key : DvdKey
key = record { k0 = 0x0a; k1 = 0xff; k2 = 0x10; k3 = 0; k4 = 0x9c }

key-IsKey : IsKey key
key-IsKey = record {
  byte0 = omega arith;
  byte1 = omega arith;
  byte2 = omega arith;
  byte3 = omega arith;
  byte4 = omega arith;
}

-- "0a:ff:10:00:9c", and the end of the line.
prints :
    print_key key
    ≡ 48 ∷ 97 ∷ 58 ∷ 102 ∷ 102 ∷ 58 ∷ 49 ∷ 48 ∷ 58 ∷ 48 ∷ 48 ∷ 58 ∷ 57 ∷ 99 ∷ 13 ∷ 10 ∷ []
unfolding print_key hex_byte hex_digit
prints = refl

cached_key-print_key_example : cached_key (some (print_key key ++ 13 ∷ 10 ∷ [])) ≡ some key
cached_key-print_key_example = cached_key-print_key key (13 ∷ 10 ∷ []) key-IsKey

abbrev titles : List DvdTitle
titles = record { startlb = 10; key = zero_key } ∷ record { startlb = 30; key = key } ∷ []

insert_title_lem_example :
    let t : DvdTitle = record { startlb = 20; key = key } in
    IsSorted (insert_title t titles)
    × ((b : ℕ)
        → known_key (insert_title t titles) b ≡ (if 20 == b then some key else known_key titles b))
unfolding known_key walk if_at
insert_title_lem_example =
    insert_title_lem (record { startlb = 20; key = key }) titles (omega arith, tt) refl
