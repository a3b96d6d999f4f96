-- ===== src/Cache.antt =====
-- `set_cache_directory`, `init_cache_dir`, `create_cache_subdir` and `init_cache` of
-- src/libdvdcss.c: where the keys of a disc are kept. A text is the list of its bytes, without the
-- NUL behind them. `PATH_MAX`, the environment and the file system are parameters.
pub mod Subdir
pub mod Frame
pub mod Lengths
pub mod Bounds
pub mod Names
mod Tests
use Prim.Native.Char.{code}
use Prim.Native.String.{String}
use libdvdcss.Common.{
  ℕ, zero, suc, ◌+◌, ◌-◌, Bool, true, false, not, ◌&&◌, ◌||◌, Option, none, some, List, [], ◌∷◌,
  ◌++◌, if◌then◌else◌, ◌==◌, ltb, leb, length, take, drop, get_or,
}
use libdvdcss.Keys.{DvdKey, byte}
use libdvdcss.Dvdcss.{Dvdcss, Drive, pf_seek, pf_read}
use libdvdcss.Titles.{hex_byte}

-- The codes of a text.
abbrev pub codes : String → List ℕ
codes String.[] = []
codes (String.◌∷◌ c s) = code c ∷ codes s

-- The system that the code is compiled for.
pub data Platform : Type 0 where
  windows : Platform
  android : Platform
  os2 : Platform
  unix : Platform

-- What the code asks of its surroundings: environment variables, the home directory of the password
-- file and that of application data, and whether a directory is there after `exists_or_mkdir` (the
-- file system may refuse it).
pub record Surroundings : Type 0 where
  pub platform : Platform
  pub path_max : ℕ
  pub dvdcss_cache : Option (List ℕ)
  pub home : Option (List ℕ)
  pub unixroot : Option (List ℕ)
  pub pw_dir : Option (List ℕ)
  pub appdata : Option (List ℕ)
  pub has_directory : List ℕ → Bool
  -- Whether a `char` is signed.
  pub signed_char : Bool

-- `psz_cachefile`, and `psz_block` as an offset in it, where `none` is a pointer that is not set.
pub record Cache : Type 0 where
  pub psz_cachefile : List ℕ
  pub psz_block : Option ℕ

unfoldable pub is_empty : List ℕ → Bool
is_empty [] = true
is_empty (c ∷ cs) = false

unfoldable pub same_text : List ℕ → List ℕ → Bool
same_text [] [] = true
same_text [] (d ∷ ds) = false
same_text (c ∷ cs) [] = false
same_text (c ∷ cs) (d ∷ ds) = let rest = same_text cs ds in if c == d then rest else false

-- A text that is there and not empty.
unfoldable pub given : Option (List ℕ) → Option (List ℕ)
given none = none
given (some []) = none
given (some (c ∷ cs)) = some (c ∷ cs)

unfoldable pub or_else : Option (List ℕ) → Option (List ℕ) → Option (List ℕ)
or_else none other = other
or_else (some text) other = some text

-- `psz_home`, where there is one, on the systems other than Windows.
unfoldable pub home_of : Surroundings → Platform → Option (List ℕ)
home_of s windows = none
home_of s android =
    let psz_home = codes "/sdcard/Android/data/org.videolan.dvdcss" in
    if s.has_directory psz_home then some psz_home else given s.home
home_of s os2 = or_else (given s.pw_dir) (given s.home)
home_of s unix = or_else (given s.pw_dir) (given s.home)

-- On OS/2 a home that starts with a slash stands on the drive `UNIXROOT`.
unfoldable pub is_drive : List ℕ → Bool
is_drive (c ∷ d ∷ []) = d == b':'
is_drive cs = false

unfoldable pub drive_text : Option (List ℕ) → List ℕ
drive_text none = []
drive_text (some text) = if is_drive text then text else []

unfoldable pub home_prefix : Surroundings → Platform → List ℕ → List ℕ
home_prefix s os2 (c ∷ cs) = if c == b'/' || c == b'\\' then drive_text s.unixroot else []
home_prefix s os2 [] = []
home_prefix s windows home = []
home_prefix s android home = []
home_prefix s unix home = []

-- `snprintf` into what `start` leaves of `psz_cachefile`.
unfoldable pub print_path : ℕ → List ℕ → List ℕ → List ℕ
print_path path_max start text = start ++ take (path_max - length start - 1) text

-- `psz_cachefile` for a home.
unfoldable pub home_cache : Surroundings → Option (List ℕ) → Option (List ℕ)
home_cache s none = none
home_cache s (some home) =
    some (print_path s.path_max (home_prefix s s.platform home) (home ++ codes "/.dvdcss"))

unfoldable pub appdata_cache : Surroundings → Option (List ℕ) → Option (List ℕ)
appdata_cache s none = none
appdata_cache s (some dir) = some (print_path s.path_max [] (dir ++ codes "\\dvdcss"))

unfoldable pub default_cache : Surroundings → Platform → Option (List ℕ)
default_cache s windows = appdata_cache s s.appdata
default_cache s android = home_cache s (home_of s android)
default_cache s os2 = home_cache s (home_of s os2)
default_cache s unix = home_cache s (home_of s unix)

-- The name of the tag with its NUL, and the longest names of a disc and of a key.
abbrev pub cache_tag_name : List ℕ
cache_tag_name = codes "CACHEDIR.TAG"

abbrev pub tag_size : ℕ
tag_size = 13

abbrev pub disc_title_length : ℕ
disc_title_length = 32

abbrev pub manufacturing_date_length : ℕ
manufacturing_date_length = 16

abbrev pub string_key_size : ℕ
string_key_size = 10

unfoldable pub is_too_long : ℕ → List ℕ → Bool
is_too_long path_max psz_cache = ltb path_max (
    length psz_cache
    + 1
    + disc_title_length
    + 1
    + manufacturing_date_length
    + 1
    + string_key_size
    + 1
    + tag_size)

-- Whether it returns 0, and `psz_cachefile`, which is empty before. The text that is measured is
-- the one of the environment, or the one that was composed.
unfoldable pub measured : ℕ → List ℕ → List ℕ → Bool × List ℕ
measured path_max psz_cache psz_cachefile = (not (is_too_long path_max psz_cache), psz_cachefile)

unfoldable pub composed : ℕ → Bool × List ℕ → Option (List ℕ) → Bool × List ℕ
composed path_max without none = without
composed path_max without (some path) = measured path_max path path

unfoldable pub from_variable : Surroundings → Option (List ℕ) → Bool × List ℕ
from_variable s none = composed s.path_max (true, []) (default_cache s s.platform)
from_variable s (some []) =
    composed s.path_max (measured s.path_max [] []) (default_cache s s.platform)
from_variable s (some (c ∷ cs)) = measured s.path_max (c ∷ cs) (take (s.path_max - 1) (c ∷ cs))

unfoldable pub is_off : Option (List ℕ) → Bool
is_off none = false
is_off (some text) = same_text text (codes "off")

unfoldable pub set_cache_directory : Surroundings → Bool × List ℕ
set_cache_directory s =
    if is_off s.dvdcss_cache then (false, []) else from_variable s s.dvdcss_cache

-- Whether it returns 0, and `psz_cachefile`. What happens to the tag file itself does not matter.
unfoldable pub init_cache_dir : Surroundings → List ℕ → Bool × List ℕ
init_cache_dir s psz_cachefile =
    if not (s.has_directory psz_cachefile)
    then (false, [])
    else if leb s.path_max (length (psz_cachefile ++ b'/' ∷ cache_tag_name))
    then (false, [])
    else (true, psz_cachefile)
