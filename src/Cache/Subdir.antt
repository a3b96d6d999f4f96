-- ===== src/Cache/Subdir.antt =====
-- `create_cache_subdir` and `init_cache` of src/libdvdcss.c: the directory of a disc, named by the
-- title, the date and the serial number that stand in sector 16, and by the disc key.
use libdvdcss.Common.{
  ℕ, zero, suc, Bool, true, false, ◌&&◌, ◌||◌, Option, none, some, List, [], ◌∷◌, ◌++◌,
  if◌then◌else◌, ◌==◌, ltb, leb, length, take, drop,
}
use libdvdcss.Keys.{DvdKey, byte}
use libdvdcss.Dvdcss.{Dvdcss, Drive, pf_seek, pf_read}
use libdvdcss.Titles.{hex_byte}
use libdvdcss.Cache.{
  Surroundings, Cache, disc_title_length, manufacturing_date_length, set_cache_directory,
  init_cache_dir,
}

-- `psz_title[i] <= ' '`; a `char` that is signed is negative from 0x80 on.
unfoldable pub ends_title : Bool → ℕ → Bool
ends_title signed_char c = leb c b' ' || (signed_char && leb 0x80 c)

unfoldable pub file_char : ℕ → ℕ
file_char c = if c == b'/' || c == b'\\' then b'-' else c

-- The text at `psz_title` after the loop over its bytes, of which `n` are left.
unfoldable pub disc_title : Bool → (n : ℕ) → List ℕ → List ℕ
disc_title signed_char zero cs = []
disc_title signed_char (suc n) [] = []
disc_title signed_char (suc n) (c ∷ cs) =
    let rest = disc_title signed_char n cs in
    if ends_title signed_char c then [] else file_char c ∷ rest

unfoldable pub all_digits : List ℕ → Bool
all_digits [] = true
all_digits (c ∷ cs) = let rest = all_digits cs in if ltb c b'0' || ltb b'9' c then false else rest

unfoldable pub hex_text : List ℕ → List ℕ
hex_text [] = []
hex_text (b ∷ bs) = hex_byte b (hex_text bs)

-- The 16 digits, or eight bytes in hexadecimal.
unfoldable pub serial_text : List ℕ → List ℕ
serial_text cs = if all_digits cs then cs else hex_text (take 8 cs)

-- The disc key in hexadecimal, on a scrambled disc.
unfoldable pub key_text : Bool → DvdKey → List ℕ
key_text true k = hex_text (k.k0 ∷ k.k1 ∷ k.k2 ∷ k.k3 ∷ k.k4 ∷ [])
key_text false k = []

-- "/title-serial-key".
unfoldable pub subdir_name : Bool → Dvdcss → List ℕ → List ℕ
subdir_name signed_char d sector =
    let serial = serial_text (take manufacturing_date_length (drop 813 sector)) in
    let names = serial ++ (b'-' ∷ key_text d.b_scrambled d.p_disc_key) in
    b'/' ∷ (disc_title signed_char disc_title_length (drop 40 sector) ++ (b'-' ∷ names))

abbrev pub no_cache : Cache
no_cache = record { psz_cachefile = []; psz_block = none }

-- The directory is entered, with a slash behind it, where the names of the blocks start.
unfoldable pub enter_subdir : Surroundings → List ℕ → Cache
enter_subdir s path =
    if s.has_directory path
    then record { psz_cachefile = path ++ b'/' ∷ []; psz_block = some (length (path ++ b'/' ∷ [])) }
    else no_cache

unfoldable pub is_block : ℕ → Option ℕ → Bool
is_block n none = false
is_block n (some m) = m == n

-- One sector, `none` when the seek or the read fails.
unfoldable pub one_sector : Option (ℕ × List ℕ) → Option (List ℕ)
one_sector none = none
one_sector (some (n, buffer)) = if n == 1 then some buffer else none

unfoldable pub read_sector : Drive → ℕ → Dvdcss → Option (List ℕ) × Dvdcss
read_sector drive n d =
    let (reached, sought) = pf_seek drive n d in
    let (answer, d') = pf_read drive 1 sought in
    if is_block n reached then (one_sector answer, d') else (none, sought)

-- A sector 0 of a VOB file, which starts with a pack.
unfoldable pub starts_vob : List ℕ → Bool
starts_vob sector =
    byte sector 0 == 0x00
    && (byte sector 1 == 0x00 && (byte sector 2 == 0x01 && byte sector 3 == 0xba))

unfoldable pub on_names : Surroundings → List ℕ → Option (List ℕ) → Dvdcss → Cache × Dvdcss
on_names s psz_cachefile none d = (no_cache, d)
on_names s psz_cachefile (some sector) d =
    (enter_subdir s (psz_cachefile ++ subdir_name s.signed_char d sector), d)

unfoldable pub on_first : Surroundings → Drive → List ℕ → Option (List ℕ) → Dvdcss → Cache × Dvdcss
on_first s drive psz_cachefile none d = (no_cache, d)
on_first s drive psz_cachefile (some sector) d =
    let (answer, d') = read_sector drive 16 d in
    if starts_vob sector then (no_cache, d) else on_names s psz_cachefile answer d'

unfoldable pub create_cache_subdir : Surroundings → Drive → List ℕ → Dvdcss → Cache × Dvdcss
create_cache_subdir s drive psz_cachefile d =
    let (answer, d') = read_sector drive 0 d in on_first s drive psz_cachefile answer d'

-- A failure of `set_cache_directory` or `init_cache_dir` leaves `psz_block` as it is, not set.
unfoldable pub on_cache_dir : Surroundings → Drive → Bool × List ℕ → Dvdcss → Cache × Dvdcss
on_cache_dir s drive (true, psz_cachefile) d = create_cache_subdir s drive psz_cachefile d
on_cache_dir s drive (false, psz_cachefile) d =
    (record { psz_cachefile = psz_cachefile; psz_block = none }, d)

unfoldable pub on_cache_directory : Surroundings → Drive → Bool × List ℕ → Dvdcss → Cache × Dvdcss
on_cache_directory s drive (true, psz_cachefile) d =
    on_cache_dir s drive (init_cache_dir s psz_cachefile) d
on_cache_directory s drive (false, psz_cachefile) d =
    (record { psz_cachefile = psz_cachefile; psz_block = none }, d)

unfoldable pub init_cache : Surroundings → Drive → Dvdcss → Cache × Dvdcss
init_cache s drive d = on_cache_directory s drive (set_cache_directory s) d
