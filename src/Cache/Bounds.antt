-- ===== src/Cache/Bounds.antt =====
-- What `init_cache` of src/libdvdcss.c leaves: the directory of the disc by the sectors that the
-- drive has read, and a path with its names that fits in `psz_cachefile`.
use libdvdcss.Common.{
  ℕ, ◌+◌, ◌≤◌, Bool, true, false, Option, none, some, List, [], ◌∷◌, ◌++◌, ◌≡◌, refl, sym, ◌∙◌, ap,
  ap₂, if◌then◌else◌, ◌⊎◌, inl, inr, Bool-cases, ◌==◌, ==_iff, arith, length, length-append, leb,
}
use mathlib.Core.Path.{subst}
use mathlib.Core.Option.{some-injective, none-ne-some}
use libdvdcss.Dvdcss.{Dvdcss, Drive, Command, read, seek, pf_seek, pf_read, issue}
use libdvdcss.Cache.{Surroundings, Cache, set_cache_directory, init_cache_dir, cache_tag_name}
use libdvdcss.Cache.Lengths.{
  subdir_name_ext, length-subdir_name, HasRoom, set_cache_directory-HasRoom,
}
use libdvdcss.Cache.Frame.{read_sector-OnlyLog}
use libdvdcss.Cache.Subdir.{
  subdir_name, enter_subdir, on_names, on_first, create_cache_subdir, on_cache_dir,
  on_cache_directory, init_cache, read_sector, starts_vob, is_block, one_sector,
}

-- Where the names of the blocks go: after the commands `before` the drive has reached and read sector
-- 0, which does not start a VOB file, and then sector 16, which is `sector`; the directory of the disc
-- under the cache directory is named by it, with room for a name of ten digits and the NUL.
pub record InSubdir (s : Surroundings) (drive : Drive) (before after : List Command) (d : Dvdcss)
    (c : Cache) : Type 0 where
  pub directory : List ℕ
  pub first : List ℕ
  pub sector : List ℕ
  pub at_start : drive.position (seek 0 ∷ before) ≡ some 0
  pub first_read : drive.blocks (read 1 ∷ seek 0 ∷ before) ≡ some (1, first)
  pub is_disc : starts_vob first ≡ false
  pub at_sector : drive.position (seek 16 ∷ read 1 ∷ seek 0 ∷ before) ≡ some 16
  pub sector_read : drive.blocks (read 1 ∷ seek 16 ∷ read 1 ∷ seek 0 ∷ before) ≡ some (1, sector)
  pub commands : after ≡ read 1 ∷ seek 16 ∷ read 1 ∷ seek 0 ∷ before
  pub accepted : set_cache_directory s ≡ (true, directory)
  pub is_there : s.has_directory directory ≡ true
  pub path_is_there : s.has_directory (directory ++ subdir_name s.signed_char d sector) ≡ true
  pub path : c.psz_cachefile ≡ (directory ++ subdir_name s.signed_char d sector) ++ b'/' ∷ []
  pub block : c.psz_block ≡ some (length c.psz_cachefile)
  pub room : length c.psz_cachefile + 10 + 1 ≤ s.path_max

-- No cache, a cache in the directory of the disc, or what is left of a directory that was refused.
abbrev pub CacheOutcome :
    Surroundings → Drive → (before after : List Command) → Dvdcss → Cache → Type 0
CacheOutcome s drive before after d c =
    (c.psz_cachefile ≡ [])
    ⊎ InSubdir s drive before after d c
    ⊎ ((set_cache_directory s ≡ (false, c.psz_cachefile)) × (c.psz_block ≡ none))

one_sector-some :
    (answer : Option (ℕ × List ℕ)) (sector : List ℕ)
    → one_sector answer ≡ some sector
    → answer ≡ some (1, sector)
unfolding one_sector
one_sector-some none sector h = absurd (none-ne-some sector h)
one_sector-some (some (k, buffer)) sector h = elim (Bool-cases (k == 1)) [
  | inr e ↦ absurd (none-ne-some sector (rw e at h))
  | inl e ↦
      let same = some-injective buffer sector (rw e at h) in
      ap₂ (λ (x : ℕ) (y : List ℕ). some (x, y)) ((==_iff k 1).0 e) same
]

-- The outcome of a read after a seek.
sector_of : ℕ → Option ℕ → Option (ℕ × List ℕ) → Option (List ℕ)
sector_of n reached answer = if is_block n reached then one_sector answer else none

sector_of-some :
    (n : ℕ) (reached : Option ℕ) (answer : Option (ℕ × List ℕ)) (sector : List ℕ)
    → sector_of n reached answer ≡ some sector
    → (is_block n reached ≡ true) × (reached ≡ some n) × (answer ≡ some (1, sector))
unfolding sector_of is_block
sector_of-some n none answer sector h = absurd (none-ne-some sector h)
sector_of-some n (some m) answer sector h = elim (Bool-cases (m == n)) [
  | inr e ↦ absurd (none-ne-some sector (rw e at h))
  | inl e ↦
      (e, ap (λ (x : ℕ). some x) ((==_iff m n).0 e), one_sector-some answer sector (rw e at h))
]

-- A sector that is read has been reached, and is one block.
read_sector-some :
    (drive : Drive) (n : ℕ) (d : Dvdcss) (sector : List ℕ)
    → (read_sector drive n d).0 ≡ some sector
    → (drive.position (seek n ∷ d.log) ≡ some n)
      × (drive.blocks (read 1 ∷ seek n ∷ d.log) ≡ some (1, sector))
      × ((read_sector drive n d).1.log ≡ read 1 ∷ seek n ∷ d.log)
unfolding read_sector pf_seek pf_read issue sector_of
read_sector-some drive n d sector h =
    let reached = drive.position (seek n ∷ d.log) in
    let answer = drive.blocks (read 1 ∷ seek n ∷ d.log) in
    let same : sector_of n reached answer ≡ (read_sector drive n d).0 =
      elim (Bool-cases (is_block n reached)) [ inl e ↦ rw (e) refl | inr e ↦ rw (e) refl ] in
    let (there, at, is) = sector_of-some n reached answer sector (same ∙ h) in
    (at, is, rw (there) refl)

module _ (s : Surroundings) (drive : Drive) (no_directory : s.has_directory [] ≡ false)
    (directory : List ℕ) (accepted : set_cache_directory s ≡ (true, directory))
    (is_there : s.has_directory directory ≡ true) where
  room_for : length directory + 75 ≤ s.path_max
  room_for = elim (subst (HasRoom s.path_max) accepted (set_cache_directory-HasRoom s)) [
    | inl e ↦ absurd (cc (sym (ap s.has_directory e), is_there, no_directory))
    | inr room ↦ room
  ]

  read_sector_lem :
      (n : ℕ) (d : Dvdcss)
      → ((read_sector drive n d).1.b_scrambled ≡ d.b_scrambled)
        × ((read_sector drive n d).1.p_disc_key ≡ d.p_disc_key)
  read_sector_lem n d =
      let only = read_sector-OnlyLog drive n d in
      (ap (λ (x : Dvdcss). x.b_scrambled) only, ap (λ (x : Dvdcss). x.p_disc_key) only)

  -- What is known when sector 0 has been read, and then when sector 16 has.
  abbrev SectorRead : ℕ → List Command → List ℕ → Type 0
  SectorRead n log sector =
      (drive.position (seek n ∷ log) ≡ some n)
      × (drive.blocks (read 1 ∷ seek n ∷ log) ≡ some (1, sector))

  on_names_lem :
      (before : List Command) (first : List ℕ) (d e : Dvdcss) (answer : Option (List ℕ))
      → SectorRead 0 before first
      → starts_vob first ≡ false
      → e.b_scrambled ≡ d.b_scrambled
      → e.p_disc_key ≡ d.p_disc_key
      → ((sector : List ℕ)
          → answer ≡ some sector
          → SectorRead 16 (read 1 ∷ seek 0 ∷ before) sector
            × (e.log ≡ read 1 ∷ seek 16 ∷ read 1 ∷ seek 0 ∷ before))
      → let (c, d') = on_names s directory answer e in CacheOutcome s drive before d'.log d c
  unfolding on_names enter_subdir
  on_names_lem before first d e none at_start disc b k given = inl refl
  on_names_lem before first d e (some sector) at_start disc b k given =
      let ((at_sector, sector_read), commands) = given sector refl in
      let name = subdir_name s.signed_char e sector in
      let same = subdir_name_ext s.signed_char d e sector b k in
      let path = directory ++ name in
      elim (Bool-cases (s.has_directory path)) [
        | inr missing ↦ rw (missing) (inl refl)
        | inl there ↦ rw (there) (
            inr (
              inl (record {
                directory = directory;
                first = first;
                sector = sector;
                at_start = at_start.0;
                first_read = at_start.1;
                is_disc = disc;
                at_sector = at_sector;
                sector_read = sector_read;
                commands = commands;
                accepted = accepted;
                is_there = is_there;
                path_is_there = sym (ap (λ n. s.has_directory (directory ++ n)) same) ∙ there;
                path = ap (λ n. (directory ++ n) ++ b'/' ∷ []) same;
                block = refl;
                room =
                    let short = length-subdir_name s.signed_char e sector in
                    let joined = length-append directory name in
                    let ended = length-append path (b'/' ∷ []) in omega (arith, room_for);
              })))
      ]

  on_first_lem :
      (before : List Command) (d e : Dvdcss) (answer : Option (List ℕ))
      → e.b_scrambled ≡ d.b_scrambled
      → e.p_disc_key ≡ d.p_disc_key
      → ((first : List ℕ)
          → answer ≡ some first
          → SectorRead 0 before first × (e.log ≡ read 1 ∷ seek 0 ∷ before))
      → let (c, d') = on_first s drive directory answer e in CacheOutcome s drive before d'.log d c
  unfolding on_first
  on_first_lem before d e none b k given = inl refl
  on_first_lem before d e (some first) b k given = elim (Bool-cases (starts_vob first)) [
    | inl vob ↦ rw (vob) (inl refl)
    | inr disc ↦
        let (at_start, commands) = given first refl in
        let (b', k') = read_sector_lem 16 e in
        rw (disc) (
          on_names_lem before first d (read_sector drive 16 e).1 (read_sector drive 16 e).0 at_start
            disc (b' ∙ b) (k' ∙ k)
            (λ sector is.
              let (at, blocks, log) = read_sector-some drive 16 e sector is in
              (
                subst (λ (l : List Command). SectorRead 16 l sector) commands (at, blocks),
                log ∙ ap (λ (l : List Command). read 1 ∷ seek 16 ∷ l) commands,
              )))
  ]

  create_cache_subdir_lem :
      (d : Dvdcss)
      → let (c, d') = create_cache_subdir s drive directory d in
        CacheOutcome s drive d.log d'.log d c
  unfolding create_cache_subdir
  create_cache_subdir_lem d =
      let (b, k) = read_sector_lem 0 d in
      on_first_lem d.log d (read_sector drive 0 d).1 (read_sector drive 0 d).0 b k (λ first is.
        let (at, blocks, log) = read_sector-some drive 0 d first is in ((at, blocks), log))

on_cache_directory_lem :
    (s : Surroundings) (drive : Drive) (d : Dvdcss) (r : Bool × List ℕ)
    → s.has_directory [] ≡ false
    → set_cache_directory s ≡ r
    → let (c, d') = on_cache_directory s drive r d in CacheOutcome s drive d.log d'.log d c
unfolding on_cache_directory init_cache_dir on_cache_dir
on_cache_directory_lem s drive d (false, path) no_directory e = inr (inr (e, refl))
on_cache_directory_lem s drive d (true, path) no_directory e =
    elim (Bool-cases (s.has_directory path)) [
      | inr missing ↦ rw (missing) (inl refl)
      | inl there ↦ elim (Bool-cases (leb s.path_max (length (path ++ b'/' ∷ cache_tag_name)))) [
        | inl long ↦ rw (there, long) (inl refl)
        | inr fits ↦ rw (there, fits) (create_cache_subdir_lem s drive no_directory path e there d)
      ]
    ]

-- Where no directory has the empty name, after init_cache there are three cases. psz_cachefile is
-- empty. Or the drive was sent to sector 0 and to sector 16, reached and read both, sector 0 does not
-- start a VOB file, and psz_cachefile is the directory that is named by what was read as sector 16 and
-- by the disc key, psz_block is its end, and the path with a block's name of ten digits and the NUL
-- fits in PATH_MAX bytes. Or set_cache_directory has failed, with what it left in psz_cachefile, and
-- psz_block is not set.
pub init_cache_lem :
    (s : Surroundings) (drive : Drive) (d : Dvdcss)
    → s.has_directory [] ≡ false
    → let (c, d') = init_cache s drive d in CacheOutcome s drive d.log d'.log d c
unfolding init_cache
init_cache_lem s drive d no_directory =
    on_cache_directory_lem s drive d (set_cache_directory s) no_directory refl
