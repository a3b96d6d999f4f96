-- ===== src/Opening/Laws.antt =====
-- What `dvdcss_open_common` of src/libdvdcss.c returns.
use libdvdcss.Common.{Bool, true, false, not, ◌&&◌, ◌≢◌, Option, none, List, [], ◌∷◌, ◌≡◌, ◌⊎◌}
use libdvdcss.Keys.{DvdKey}
use libdvdcss.Dvdcss.{Dvdcss, Drive, Command, read_copyright, open_device, seek, is_some}
use libdvdcss.Cache.{Surroundings, Cache, set_cache_directory}
use libdvdcss.Cache.Bounds.{CacheOutcome}
use libdvdcss.Opening.Tested.{reports_clear}
use libdvdcss.Opening.{Environment, Instance, has_block}

module _ (drive : Drive) (crack_disc_key : DvdKey → Bool × DvdKey) where
  -- An instance as it is opened, with the drive's answer to the first command: the disc counts as
  -- scrambled unless it is known not to be, the ioctls are used where they work, there are no titles
  -- yet, the cache is what init_cache leaves after the commands `before`, and the last command is the
  -- seek to the start. psz_block is set where there is a path, but for a directory that was refused.
  pub record IsOpened (s : Surroundings) (env : Environment) (fresh : Dvdcss) (i : Instance)
      : Type 0 where
    pub is_scrambled :
        i.css.b_scrambled
        ≡ not (
            env.use_ioctls
            && reports_clear (drive.copyright (read_copyright ∷ open_device ∷ fresh.log)))
    pub has_ioctls :
        i.css.b_ioctls
        ≡ (env.use_ioctls && is_some (drive.copyright (read_copyright ∷ open_device ∷ fresh.log)))
    pub no_titles : i.css.p_titles ≡ []
    pub before : List Command
    pub after : List Command
    pub cache_of : CacheOutcome s drive before after i.css i.cache
    pub rewound : i.css.log ≡ seek 0 ∷ after
    pub usable :
        (has_block i.cache ≡ true)
        ⊎ ((set_cache_directory s ≡ (false, i.cache.psz_cachefile))
            × (i.cache.psz_cachefile ≢ [])
            × (i.cache.psz_block ≡ none))
