-- ===== src/Opening/Tests.antt =====
-- Opening a concrete disc.
use libdvdcss.Common.{
  ℕ, Bool, true, false, Option, none, some, List, [], ◌∷◌, ◌++◌, ◌≡◌, ◌≢◌, ◌⊎◌, refl, replicate,
}
use libdvdcss.Keys.{DvdKey, zero_key}
use libdvdcss.Dvdcss.{
  Dvdcss, Drive, method_key, method_disc, method_title, read, seek, open_device, is_some,
}
use libdvdcss.Titles.{Store, Library, skip_space, is_space}
use libdvdcss.Cache.{Surroundings, codes, unix, is_empty}
use libdvdcss.Cache.Subdir.{no_cache}
use libdvdcss.Reading.{SeekFlags}
use libdvdcss.Opening.{
  Environment, Instance, set_access_method, same_chars, set_verbosity, atoi, atoi_signed, decimal,
  library_of, has_block,
}
use libdvdcss.Opening.Methods.{set_access_method_lem}

takes_prefix : set_access_method (some (codes "titles")) ≡ some method_title
unfolding set_access_method same_chars
takes_prefix = refl

refuses_longer : set_access_method (some (codes "keys")) ≡ none
unfolding set_access_method same_chars
refuses_longer = refl

reads_level : set_verbosity (some (codes " 2x")) ≡ (true, true)
unfolding set_verbosity atoi atoi_signed decimal skip_space is_space
reads_level = refl

set_access_method_lem_example :
    ((codes "disc" ≡ codes "key") × (set_access_method (some (codes "disc")) ≡ some method_key))
    ⊎ ((codes "disc" ≡ codes "disc") × (set_access_method (some (codes "disc")) ≡ some method_disc))
    ⊎ ((rest : List ℕ) × (codes "disc" ≡ codes "title" ++ rest)
        × (set_access_method (some (codes "disc")) ≡ some method_title))
    ⊎ ((codes "disc" ≢ codes "key")
        × (codes "disc" ≢ codes "disc")
        × ((rest : List ℕ) → codes "disc" ≢ codes "title" ++ rest)
        × (set_access_method (some (codes "disc")) ≡ none))
set_access_method_lem_example = set_access_method_lem (codes "disc")

abbrev surroundings : Surroundings
surroundings = record {
  platform = unix;
  path_max = 4096;
  dvdcss_cache = some (codes "off");
  home = none;
  unixroot = none;
  pw_dir = none;
  appdata = none;
  has_directory = λ path. false;
  signed_char = true;
}

abbrev environment : Environment
environment = record {
  dvdcss_verbose = none;
  dvdcss_method = some (codes "title");
  opens = true;
  use_ioctls = false;
}

abbrev drive : Drive
drive = record {
  copyright = λ log. none;
  rpc = λ log. none;
  agid = λ log. none;
  accepts_challenge = λ log. false;
  key1 = λ log. none;
  challenge = λ log. none;
  accepts_key2 = λ log. false;
  disc_key = λ log. none;
  title_key = λ log. none;
  asf = λ log. none;
  position = λ log. none;
  blocks = λ log. some (1, replicate 2048 0);
  vectors = λ log. none;
}

abbrev fresh : Dvdcss
fresh = record {
  method = method_disc;
  b_ioctls = false;
  b_scrambled = false;
  i_agid = 99;
  p_bus_key = zero_key;
  p_disc_key = zero_key;
  p_title_key = zero_key;
  p_titles = [];
  log = [];
}

abbrev no_crack : DvdKey → Bool × DvdKey
no_crack k = (false, k)

abbrev instance_of : Instance
instance_of = record {
  css = record fresh { method = method_title; b_scrambled = true; log = seek 0 ∷ open_device ∷ [] };
  cache = no_cache;
  b_debug = false;
  b_errors = false;
}

abbrev no_store : Store
no_store block old text = none

abbrev no_files : ℕ → Option (List ℕ)
no_files block = none

abbrev library : Library
library = record { css = instance_of.css; caching = false; files = no_files }

abbrev after_read : Library
after_read = record library {
  css = record library.css { log = read 1 ∷ seek 0 ∷ open_device ∷ [] };
}

abbrev key_seek : SeekFlags
key_seek = record { seek_mpeg = false; seek_key = true }

-- What is left of a directory that was refused cannot be used.
left_over :
    library_of no_files
      (record instance_of { cache = record { psz_cachefile = codes "/a"; psz_block = none } })
    ≡ none
unfolding library_of has_block is_empty is_some
left_over = refl
