-- ===== src/Opening.antt =====
-- `set_verbosity`, `set_access_method` and `dvdcss_open_common` of src/libdvdcss.c.
pub mod Tested
pub mod Laws
pub mod Methods
mod Tests
use libdvdcss.Common.{
  ℕ, zero, suc, ◌+◌, ◌-◌, ◌*◌, Bool, true, false, not, ◌&&◌, ◌||◌, Option, none, some, List, [],
  ◌∷◌, if◌then◌else◌, ◌==◌, ltb, leb,
}
use libdvdcss.Keys.{DvdKey, zero_key}
use libdvdcss.Dvdcss.{
  Dvdcss, Drive, Method, method_key, method_disc, method_title, open_device, close_device, issue,
  pf_seek, is_some,
}
use libdvdcss.TitleKeys.{
  TestResult, no_copyright, region_locked, unscrambled, scrambled, dvdcss_test, dvdcss_disckey,
}
use libdvdcss.Titles.{Library, is_space, skip_space}
use libdvdcss.Cache.{Surroundings, Cache, codes, is_empty}
use libdvdcss.Cache.Subdir.{init_cache}

-- `atoi`, where all numbers below zero are 0; no test of the code tells them apart.
unfoldable pub decimal : ℕ → List ℕ → ℕ
decimal value [] = value
decimal value (c ∷ cs) =
    let rest = decimal (value * 10 + (c - b'0')) cs in
    if leb b'0' c && leb c b'9' then rest else value

unfoldable pub atoi_signed : List ℕ → ℕ
atoi_signed [] = 0
atoi_signed (c ∷ cs) =
    if c == b'-' then 0 else if c == b'+' then decimal 0 cs else decimal 0 (c ∷ cs)

unfoldable pub atoi : List ℕ → ℕ
atoi cs = atoi_signed (skip_space cs)

-- `b_debug` and `b_errors`.
unfoldable pub set_verbosity : Option (List ℕ) → Bool × Bool
set_verbosity none = (false, false)
set_verbosity (some psz_verbose) = let i = atoi psz_verbose in (leb 2 i, leb 1 i)

-- `!strncmp( a, b, n )`, where the end of a list is the NUL.
unfoldable pub same_chars : ℕ → List ℕ → List ℕ → Bool
same_chars zero a b = true
same_chars (suc n) [] [] = true
same_chars (suc n) [] (d ∷ ds) = false
same_chars (suc n) (c ∷ cs) [] = false
same_chars (suc n) (c ∷ cs) (d ∷ ds) =
    let rest = same_chars n cs ds in if c == d then rest else false

-- `none` is -1.
unfoldable pub set_access_method : Option (List ℕ) → Option Method
set_access_method none = some method_key
set_access_method (some psz_method) =
    if same_chars 4 psz_method (codes "key")
    then some method_key
    else if same_chars 5 psz_method (codes "disc")
    then some method_disc
    else if same_chars 5 psz_method (codes "title")
    then some method_title
    else none

-- What a client passes: whether each of the three pointers is there.
pub record Target : Type 0 where
  pub has_target : Bool
  pub has_stream : Bool
  pub has_callbacks : Bool

unfoldable pub is_target : Target → Bool
is_target t = t.has_target || (t.has_stream && t.has_callbacks)

-- The variables of the environment, whether the device opens, and whether ioctls work on it
-- (`dvdcss_use_ioctls`).
pub record Environment : Type 0 where
  pub dvdcss_verbose : Option (List ℕ)
  pub dvdcss_method : Option (List ℕ)
  pub opens : Bool
  pub use_ioctls : Bool

-- What is opened.
pub record Instance : Type 0 where
  pub css : Dvdcss
  pub cache : Cache
  pub b_debug : Bool
  pub b_errors : Bool

-- Whether the disc is scrambled, and whether its ioctls work.
unfoldable pub on_test : TestResult → Dvdcss → Dvdcss
on_test no_copyright d = record d { b_ioctls = false }
on_test region_locked d = d
on_test unscrambled d = record d { b_scrambled = false }
on_test scrambled d = record d { b_scrambled = true }

module _ (drive : Drive) (crack_disc_key : DvdKey → Bool × DvdKey) where
  unfoldable pub test_disc : Dvdcss → Dvdcss
  test_disc d =
      let (result, d') = dvdcss_test drive d in if d.b_ioctls then on_test result d' else d

  -- The disc key, where it can be had; a failure is only reported.
  unfoldable pub fetch_disc_key : Dvdcss → Dvdcss
  fetch_disc_key d =
      let cleared = record d { p_disc_key = zero_key } in
      let fetched = (dvdcss_disckey drive crack_disc_key cleared).1 in
      if d.b_scrambled && d.b_ioctls then fetched else cleared

  unfoldable pub with_cache : Environment → Cache × Dvdcss → Instance
  with_cache env (cache, d) =
      let (debug, errors) = set_verbosity env.dvdcss_verbose in
      record { css = (pf_seek drive 0 d).1; cache = cache; b_debug = debug; b_errors = errors }

  -- `fresh` is what `malloc` leaves in the fields that are not set.
  unfoldable pub initial : Dvdcss → Method → Bool → Dvdcss
  initial fresh method ioctls =
      issue open_device
        (record fresh { method = method; p_titles = []; b_scrambled = true; b_ioctls = ioctls })

  unfoldable pub on_method : Surroundings → Environment → Dvdcss → Option Method → Option Instance
  on_method s env fresh none = none
  on_method s env fresh (some method) =
      let d = fetch_disc_key (test_disc (initial fresh method env.use_ioctls)) in
      if env.opens then some (with_cache env (init_cache s drive d)) else none

  -- `none` is NULL.
  unfoldable pub dvdcss_open_common : Surroundings → Environment → Target → Dvdcss → Option Instance
  dvdcss_open_common s env target fresh =
      if is_target target then on_method s env fresh (set_access_method env.dvdcss_method) else none

-- `dvdcss_open` and `dvdcss_open_stream`.
abbrev pub file_target : Target
file_target = record { has_target = true; has_stream = false; has_callbacks = false }

abbrev pub stream_target : Bool → Bool → Target
stream_target stream callbacks = record {
  has_target = false;
  has_stream = stream;
  has_callbacks = callbacks;
}

-- The library that a client gets, with the files of the cache on disk. `none` is an instance with a
-- path in `psz_cachefile` and `psz_block` not set: `dvdcss_title` would print through that pointer.
unfoldable pub has_block : Cache → Bool
has_block c = is_empty c.psz_cachefile || is_some c.psz_block

unfoldable pub library_of : (ℕ → Option (List ℕ)) → Instance → Option Library
library_of files i =
    if has_block i.cache
    then some
        (record { css = i.css; caching = not (is_empty i.cache.psz_cachefile); files = files })
    else none

-- `dvdcss_is_scrambled`.
unfoldable pub dvdcss_is_scrambled : Library → Bool
dvdcss_is_scrambled l = l.css.b_scrambled
