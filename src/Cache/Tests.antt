-- ===== src/Cache/Tests.antt =====
-- The cache directory on concrete surroundings.
use libdvdcss.Common.{
  ℕ, true, false, not, Option, none, some, List, [], ◌∷◌, ◌++◌, ◌≡◌, refl, arith, replicate,
}
use libdvdcss.Keys.{DvdKey, IsKey, AllBytes-replicate}
use libdvdcss.Dvdcss.{Dvdcss, Drive, Command, method_key, seek, pf_seek, pf_read, issue}
use libdvdcss.Titles.{hex_byte, hex_digit}
use libdvdcss.Cache.{
  Surroundings, unix, codes, is_empty, same_text, given, or_else, home_of, home_prefix, print_path,
  home_cache, default_cache, measured, is_too_long, composed, from_variable, is_off,
  set_cache_directory, init_cache_dir,
}
use libdvdcss.Cache.Subdir.{
  subdir_name, disc_title, ends_title, file_char, serial_text, all_digits, hex_text, key_text,
  enter_subdir, init_cache, create_cache_subdir, on_cache_directory, on_cache_dir, on_first,
  on_names, read_sector, is_block, one_sector, starts_vob,
}
use libdvdcss.Cache.Bounds.{CacheOutcome, init_cache_lem}
use libdvdcss.Cache.Names.{IsSubdir, subdir_name-IsSubdir}

abbrev surroundings : Surroundings
surroundings = record {
  platform = unix;
  path_max = 4096;
  dvdcss_cache = none;
  home = some (codes "/home/tux");
  unixroot = none;
  pw_dir = none;
  appdata = none;
  has_directory = λ path. not (is_empty path);
  signed_char = true;
}

-- A path of 90 bytes is too long where PATH_MAX is 160, and stays in psz_cachefile.
abbrev narrow : Surroundings
narrow = record surroundings { path_max = 160; dvdcss_cache = some (replicate 90 b'a') }

-- Sector 16 of a disc: a title that tries to leave the directory, and 16 digits.
abbrev sector : List ℕ
sector =
    replicate 40 0
    ++ (codes "../DISC " ++ (replicate 765 0 ++ (codes "2001020304050607" ++ replicate 1219 0)))

abbrev position_of : List Command → Option ℕ
position_of (seek n ∷ log) = some n
position_of _ = none

abbrev drive : Drive
drive = record {
  copyright = λ log. none;
  rpc = λ log. none;
  agid = λ log. none;
  accepts_challenge = λ log. false;
  key1 = λ log. none;
  challenge = λ log. none;
  accepts_key2 = λ log. false;
  disc_key = λ log. none;
  title_key = λ log. none;
  asf = λ log. none;
  position = position_of;
  blocks = λ log. some (1, sector);
  vectors = λ log. none;
}

abbrev key : DvdKey
key = record { k0 = 0x0a; k1 = 0xff; k2 = 0x10; k3 = 0; k4 = 0x9c }

abbrev opened : Dvdcss
opened = record {
  method = method_key;
  b_ioctls = true;
  b_scrambled = true;
  i_agid = 0;
  p_bus_key = key;
  p_disc_key = key;
  p_title_key = key;
  p_titles = [];
  log = [];
}

caches :
    (init_cache surroundings drive opened).0.psz_cachefile
    ≡ codes "/home/tux/.dvdcss/..-DISC-2001020304050607-0aff10009c/"
unfolding init_cache set_cache_directory is_off from_variable default_cache home_cache home_of
    or_else given home_prefix print_path composed measured is_too_long on_cache_directory
    init_cache_dir is_empty on_cache_dir create_cache_subdir read_sector pf_seek pf_read issue
    is_block one_sector on_first starts_vob on_names subdir_name disc_title ends_title file_char
    serial_text all_digits key_text hex_text hex_byte hex_digit enter_subdir
caches = refl

-- A refused directory stays in psz_cachefile, and psz_block is not set.
keeps_refused :
    (init_cache narrow drive opened).0
    ≡ record { psz_cachefile = replicate 90 b'a'; psz_block = none }
unfolding init_cache set_cache_directory is_off from_variable same_text measured is_too_long
    on_cache_directory
keeps_refused = refl

init_cache_lem_example :
    let (c, d') = init_cache surroundings drive opened in
    CacheOutcome surroundings drive [] d'.log opened c
unfolding is_empty
init_cache_lem_example = init_cache_lem surroundings drive opened refl

key-IsKey : IsKey key
key-IsKey = record {
  byte0 = omega arith;
  byte1 = omega arith;
  byte2 = omega arith;
  byte3 = omega arith;
  byte4 = omega arith;
}

subdir_name-IsSubdir_example : IsSubdir (subdir_name true opened (replicate 2048 b'/'))
subdir_name-IsSubdir_example =
    subdir_name-IsSubdir true opened (replicate 2048 b'/')
      (AllBytes-replicate 2048 b'/' (omega arith)) key-IsKey
