-- ===== src/Cache/Frame.antt =====
-- `init_cache` of src/libdvdcss.c changes nothing of the library but what the drive has been asked.
use libdvdcss.Common.{
  ℕ, Bool, true, false, Option, none, some, List, ◌∷◌, ◌≡◌, refl, ap, ◌∙◌, inl, inr, Bool-cases,
}
use libdvdcss.Dvdcss.{Dvdcss, Drive, seek, pf_seek, pf_read, issue}
use libdvdcss.Cache.{Surroundings, init_cache_dir, set_cache_directory}
use libdvdcss.Cache.Subdir.{
  is_block, read_sector, starts_vob, on_names, on_first, create_cache_subdir, on_cache_dir,
  on_cache_directory, init_cache,
}

abbrev pub OnlyLog : Dvdcss → Dvdcss → Type 0
OnlyLog d d' = d' ≡ record d { log = d'.log }

OnlyLog-trans : (d e f : Dvdcss) → OnlyLog d e → OnlyLog e f → OnlyLog d f
OnlyLog-trans d e f p q = q ∙ ap (λ (x : Dvdcss). record x { log = f.log }) p

pub read_sector-OnlyLog : (drive : Drive) (n : ℕ) (d : Dvdcss) → OnlyLog d (read_sector drive n d).1
unfolding read_sector pf_seek pf_read issue
read_sector-OnlyLog drive n d = elim (Bool-cases (is_block n (drive.position (seek n ∷ d.log)))) [
  | inl e ↦ rw (e) refl
  | inr e ↦ rw (e) refl
]

module _ (s : Surroundings) (drive : Drive) (path : List ℕ) where
  on_names-OnlyLog :
      (answer : Option (List ℕ)) (d : Dvdcss) → OnlyLog d (on_names s path answer d).1
  unfolding on_names
  on_names-OnlyLog none d = refl
  on_names-OnlyLog (some sector) d = refl

  on_first-OnlyLog :
      (answer : Option (List ℕ)) (d : Dvdcss) → OnlyLog d (on_first s drive path answer d).1
  unfolding on_first
  on_first-OnlyLog none d = refl
  on_first-OnlyLog (some sector) d = elim (Bool-cases (starts_vob sector)) [
    | inl vob ↦ rw (vob) refl
    | inr disc ↦
        let next = read_sector drive 16 d in
        rw (disc) (
          OnlyLog-trans d next.1 (on_names s path next.0 next.1).1 (read_sector-OnlyLog drive 16 d)
            (on_names-OnlyLog next.0 next.1))
  ]

  create_cache_subdir-OnlyLog : (d : Dvdcss) → OnlyLog d (create_cache_subdir s drive path d).1
  unfolding create_cache_subdir
  create_cache_subdir-OnlyLog d =
      let first = read_sector drive 0 d in
      OnlyLog-trans d first.1 (on_first s drive path first.0 first.1).1
        (read_sector-OnlyLog drive 0 d) (on_first-OnlyLog first.0 first.1)

on_cache_dir-OnlyLog :
    (s : Surroundings) (drive : Drive) (r : Bool × List ℕ) (d : Dvdcss)
    → OnlyLog d (on_cache_dir s drive r d).1
unfolding on_cache_dir
on_cache_dir-OnlyLog s drive (true, path) d = create_cache_subdir-OnlyLog s drive path d
on_cache_dir-OnlyLog s drive (false, path) d = refl

on_cache_directory-OnlyLog :
    (s : Surroundings) (drive : Drive) (r : Bool × List ℕ) (d : Dvdcss)
    → OnlyLog d (on_cache_directory s drive r d).1
unfolding on_cache_directory
on_cache_directory-OnlyLog s drive (true, path) d =
    on_cache_dir-OnlyLog s drive (init_cache_dir s path) d
on_cache_directory-OnlyLog s drive (false, path) d = refl

pub init_cache-OnlyLog :
    (s : Surroundings) (drive : Drive) (d : Dvdcss) → OnlyLog d (init_cache s drive d).1
unfolding init_cache
init_cache-OnlyLog s drive d = on_cache_directory-OnlyLog s drive (set_cache_directory s) d
