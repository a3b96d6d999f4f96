-- ===== src/Reading/Tests.antt =====
-- Seeking and reading on a concrete disc.
use libdvdcss.Common.{
  ℕ, Bool, true, false, Option, none, some, List, [], ◌∷◌, ◌≡◌, ◌≢◌, ◌≤◌, refl, ap, arith, length,
  replicate, sym,
}
use mathlib.Core.Path.{subst}
use libdvdcss.Keys.{DvdKey, AllBytes, zero_key}
use libdvdcss.CrackTitle.Total.{ReadsBlocks}
use libdvdcss.Dvdcss.{seek, read, pf_seek, pf_read, issue}
use libdvdcss.Titles.{Library, Store, dvdcss_title, look_up_title, known_key, walk, if_at}
use libdvdcss.TitleKeys.{dvdcss_titlekey}
use libdvdcss.TitleKeys.Frame.{Keeps, dvdcss_titlekey-Keeps}
use libdvdcss.Titles.Known.{Returns, dvdcss_title_lem, dvdcss_title_again}
use libdvdcss.Reading.{SeekFlags, checks_title, is_title, dvdcss_seek, seek_after, seek_blocks}
use libdvdcss.Reading.Clients.{
  Reach, here, next, calls_seek, calls_read, Sound, Sought, Reach-Sound, dvdcss_seek_lem,
}
use libdvdcss.Tables.Laws.{all_bytes, all_bytes-AllBytes}
use libdvdcss.Dvdcss.{Dvdcss, Drive, method_key}
use libdvdcss.Reading.{dvdcss_read}
use libdvdcss.Reading.Descrambled.{
  AreSectors, scrambled_sectors, clear_sectors, dvdcss_read-scrambled,
}

abbrev key : DvdKey
key = record { k0 = 0x10; k1 = 0x20; k2 = 0x30; k3 = 0x40; k4 = 0x50 }

-- One with the scrambling flag set, one without.
abbrev sectors : List (List ℕ)
sectors = replicate 2048 0x35 ∷ replicate 2048 0x0f ∷ []

sectors-AreSectors : AreSectors sectors
unfolding all_bytes
sectors-AreSectors = (
  (refl, all_bytes-AllBytes (replicate 2048 0x35) refl),
  ((refl, all_bytes-AllBytes (replicate 2048 0x0f) refl), tt),
)

abbrev drive : Drive
drive = record {
  copyright = λ log. none;
  rpc = λ log. none;
  agid = λ log. none;
  accepts_challenge = λ log. false;
  key1 = λ log. none;
  challenge = λ log. none;
  accepts_key2 = λ log. false;
  disc_key = λ log. none;
  title_key = λ log. none;
  asf = λ log. none;
  position = λ log. none;
  blocks = λ log. some (length sectors, scrambled_sectors key sectors);
  vectors = λ log. none;
}

abbrev opened : Dvdcss
opened = record {
  method = method_key;
  b_ioctls = true;
  b_scrambled = true;
  i_agid = 0;
  p_bus_key = zero_key;
  p_disc_key = zero_key;
  p_title_key = key;
  p_titles = [];
  log = [];
}

key_is_set : key ≢ zero_key
key_is_set e = omega (arith, ap (λ (k : DvdKey). k.k0) e)

dvdcss_read-scrambled_example :
    (dvdcss_read drive 2 true opened).0 ≡ some (length sectors, clear_sectors sectors)
dvdcss_read-scrambled_example =
    dvdcss_read-scrambled drive 2 opened sectors sectors-AreSectors (omega arith) refl key_is_set
      refl

-- A drive that reads a sector of zeros, and its library after a title was found.
abbrev zero_drive : Drive
zero_drive = record drive { position = λ log. some 10; blocks = λ log. some (1, replicate 2048 0) }

zero_drive-ReadsBlocks : ReadsBlocks zero_drive
unfolding all_bytes
zero_drive-ReadsBlocks log n buf e more =
    let same : buf ≡ replicate 2048 0 = cc in
    subst (λ (b : List ℕ). (2048 ≤ length b) × AllBytes b) (sym same)
      (omega arith, all_bytes-AllBytes (replicate 2048 0) refl)

abbrev library : Library
library = record {
  css = record opened { p_titles = record { startlb = 10; key = key } ∷ [] };
  caching = false;
  files = λ b. none;
}

abbrev no_crack : DvdKey → Bool × DvdKey
no_crack k = (false, k)

abbrev no_store : Store
no_store block old text = none

abbrev at_title : SeekFlags
at_title = record { seek_mpeg = false; seek_key = true }

abbrev later : Library
later = record library { css = record library.css { log = seek 10 ∷ [] } }

abbrev last : Library
last = record library { css = record library.css { log = read 1 ∷ seek 10 ∷ [] } }

-- The client seeks to the title, and reads.
reaches : Reach zero_drive no_crack no_store library last
unfolding dvdcss_seek checks_title dvdcss_title look_up_title known_key walk if_at seek_after
    seek_blocks pf_seek issue dvdcss_read pf_read
reaches =
    next {m = later} (next {m = library} here (calls_seek 10 at_title (some 10) refl))
      (calls_read 1 true refl)

Reach-Sound_example : Sound zero_drive no_crack no_store library last
Reach-Sound_example =
    Reach-Sound zero_drive no_crack no_store zero_drive-ReadsBlocks library last tt refl reaches

-- A seek to a block without a title.
dvdcss_seek_lem_example :
    (s : Option ℕ × Library) × (dvdcss_seek zero_drive no_crack no_store 7 at_title library
      ≡ some s)
    × Sought zero_drive no_crack no_store 7 library s
unfolding checks_title is_title
dvdcss_seek_lem_example =
    dvdcss_seek_lem zero_drive no_crack no_store zero_drive-ReadsBlocks 7 at_title library tt refl
      refl

dvdcss_title_lem_example :
    Returns zero_drive no_crack no_store zero_drive-ReadsBlocks 7 library
      (dvdcss_title zero_drive no_crack no_store 7 library)
dvdcss_title_lem_example =
    dvdcss_title_lem zero_drive no_crack no_store zero_drive-ReadsBlocks 7 library tt refl

dvdcss_title_again_example :
    dvdcss_title zero_drive no_crack no_store 10 library ≡ some (true, library)
unfolding dvdcss_title look_up_title known_key walk if_at
dvdcss_title_again_example =
    dvdcss_title_again zero_drive no_crack no_store 10 library library zero_drive-ReadsBlocks tt
      refl refl

dvdcss_titlekey-Keeps_example :
    Keeps zero_drive no_crack opened (dvdcss_titlekey zero_drive no_crack 7 opened)
dvdcss_titlekey-Keeps_example =
    dvdcss_titlekey-Keeps zero_drive no_crack zero_drive-ReadsBlocks 7 opened
