-- ===== src/Titles.antt =====
-- `dvdcss_title` of src/css.c: the list of title keys and the cache of keys on disk.
pub mod Sorted
pub mod KeyText
pub mod Known
mod Tests
use libdvdcss.Common.{
  ℕ, zero, suc, ◌+◌, ◌-◌, ◌*◌, ◌/◌, ◌%◌, Bool, true, false, not, ◌&&◌, Option, none, some, List, [],
  ◌∷◌, ◌++◌, if◌then◌else◌, ◌==◌, ltb, leb, length, take, u8, ◌>>=◌, ◌||◌,
}
use libdvdcss.Keys.{DvdKey}
use libdvdcss.Dvdcss.{Dvdcss, Drive, DvdTitle}
use libdvdcss.CrackTitle.{KeyResult, key_failed, key_absent, key_found, Cracked}
use libdvdcss.TitleKeys.{dvdcss_titlekey}

-- The last title that does not start after `block`, or the first one.
unfoldable pub walk : List DvdTitle → ℕ → Option DvdTitle
walk [] block = none
walk (t ∷ []) block = some t
walk (t ∷ u ∷ ts) block =
    let rest = walk (u ∷ ts) block in if leb u.startlb block then rest else some t

unfoldable pub if_at : ℕ → Option DvdTitle → Option DvdKey
if_at block none = none
if_at block (some t) = if t.startlb == block then some t.key else none

-- The key of the title that starts at `block`.
unfoldable pub known_key : List DvdTitle → ℕ → Option DvdKey
known_key titles block = if_at block (walk titles block)

-- A new title goes behind those that start before it.
unfoldable pub insert_title : DvdTitle → List DvdTitle → List DvdTitle
insert_title t [] = t ∷ []
insert_title t (u ∷ us) =
    let rest = insert_title t us in if ltb u.startlb t.startlb then u ∷ rest else t ∷ u ∷ us

-- `%02x` of a byte.
unfoldable pub hex_digit : ℕ → ℕ
hex_digit n = if ltb n 10 then 48 + n else 87 + n

-- The text that is cached: five bytes, with colons between them, and the end of a line.
abbrev pub colon : ℕ
colon = 58

unfoldable pub hex_byte : ℕ → List ℕ → List ℕ
hex_byte b rest = hex_digit (b / 16) ∷ hex_digit (b % 16) ∷ rest

unfoldable pub print_key : DvdKey → List ℕ
print_key k = hex_byte k.k0 (
    colon
    ∷ hex_byte k.k1
        (colon ∷ hex_byte k.k2 (colon ∷ hex_byte k.k3 (colon ∷ hex_byte k.k4 (13 ∷ 10 ∷ [])))))

-- `%x` of `sscanf`: white space, a sign, `0x` and digits. What does not fit in a byte is cut off when
-- it is stored, so that a number is kept modulo 256.
unfoldable pub is_space : ℕ → Bool
is_space c = c == 32 || (leb 9 c && leb c 13)

unfoldable pub digit_of : ℕ → Option ℕ
digit_of c =
    if leb 48 c && leb c 57
    then some (c - 48)
    else if leb 97 c && leb c 102
    then some (c - 87)
    else if leb 65 c && leb c 70
    then some (c - 55)
    else none

unfoldable pub skip_space : List ℕ → List ℕ
skip_space [] = []
skip_space (c ∷ cs) = let rest = skip_space cs in if is_space c then rest else c ∷ cs

unfoldable pub more_digits : ℕ → List ℕ → ℕ × List ℕ
more_digits value [] = (value, [])
more_digits value (c ∷ cs) = elim (digit_of c) [
  | none ↦ (value, c ∷ cs)
  | some n ↦ more_digits (value * 16 + n) cs
]

unfoldable pub first_digit : List ℕ → Option (ℕ × List ℕ)
first_digit [] = none
first_digit (c ∷ cs) = elim (digit_of c) [ none ↦ none | some n ↦ some (more_digits n cs) ]

-- `0x` in front of the digits is passed over.
unfoldable pub scan_prefixed : List ℕ → Option (ℕ × List ℕ)
scan_prefixed [] = none
scan_prefixed (c ∷ []) = first_digit (c ∷ [])
scan_prefixed (c ∷ x ∷ cs) =
    if c == 48 && (x == 120 || x == 88) then first_digit cs else first_digit (c ∷ x ∷ cs)

-- A minus sign negates, modulo 2 ^ 32.
unfoldable pub negate : Option (ℕ × List ℕ) → Option (ℕ × List ℕ)
negate none = none
negate (some (n, cs)) = some (256 - u8 n, cs)

unfoldable pub scan_signed : List ℕ → Option (ℕ × List ℕ)
scan_signed [] = none
scan_signed (c ∷ cs) =
    if c == 45
    then negate (scan_prefixed cs)
    else if c == 43
    then scan_prefixed cs
    else scan_prefixed (c ∷ cs)

unfoldable pub scan_hex : List ℕ → Option (ℕ × List ℕ)
scan_hex cs = scan_signed (skip_space cs)

-- A colon, then a number.
unfoldable pub scan_colon : List ℕ → Option (ℕ × List ℕ)
scan_colon [] = none
scan_colon (c ∷ cs) = if c == colon then scan_hex cs else none

unfoldable pub scan_key : List ℕ → Option DvdKey
scan_key cs = do
  a ← scan_hex cs
  b ← scan_colon a.1
  c ← scan_colon b.1
  d ← scan_colon c.1
  e ← scan_colon d.1
  some (record { k0 = u8 a.0; k1 = u8 b.0; k2 = u8 c.0; k3 = u8 d.0; k4 = u8 e.0 })

-- A cache file: 14 bytes are read, and fewer are no key.
unfoldable pub cached_key : Option (List ℕ) → Option DvdKey
cached_key none = none
cached_key (some text) = if leb 14 (length text) then scan_key (take 14 text) else none

-- The library with its cache: whether there is one (`psz_cachefile[0]`), and the file of each block.
pub record Library : Type 0 where
  pub css : Dvdcss
  pub caching : Bool
  pub files : ℕ → Option (List ℕ)

-- What `open` and `write` make of the file of a block, given what it held and the text.
abbrev pub Store : Type 0
Store = ℕ → Option (List ℕ) → List ℕ → Option (List ℕ)

unfoldable pub write_file : Store → ℕ → List ℕ → Library → Library
write_file store block text l = record l {
  files = λ (b : ℕ). if b == block then store block (l.files block) text else l.files b;
}

unfoldable pub cache_key : Store → ℕ → DvdKey → Library → Library
cache_key store block key l = if l.caching then write_file store block (print_key key) l else l

unfoldable pub find_cached : ℕ → Library → Option DvdKey
find_cached block l = if l.caching then cached_key (l.files block) else none

-- The key is entered in the list, and is the current one.
unfoldable pub enter_title : ℕ → DvdKey → Library → Library
enter_title block key l = record l {
  css = record l.css {
    p_titles = insert_title (record { startlb = block; key = key }) l.css.p_titles;
    p_title_key = key;
  };
}

-- After `dvdcss_titlekey`: whether `dvdcss_title` returns 0, and the state.
unfoldable pub on_titlekey : Store → ℕ → KeyResult → DvdKey → Library → Bool × Library
on_titlekey store block key_failed key l = (false, l)
on_titlekey store block key_absent key l =
    (true, enter_title block key (cache_key store block key l))
on_titlekey store block key_found key l =
    (true, enter_title block key (cache_key store block key l))

unfoldable pub on_cracked : Store → ℕ → Library → Option Cracked → Option (Bool × Library)
on_cracked store block l none = none
on_cracked store block l (some c) =
    some (on_titlekey store block c.result c.key (record l { css = c.state }))

module _ (drive : Drive) (crack_disc_key : DvdKey → Bool × DvdKey) (store : Store) where
  unfoldable pub obtain_title : ℕ → Option DvdKey → Library → Option (Bool × Library)
  obtain_title block (some key) l = some (true, enter_title block key l)
  obtain_title block none l =
      on_cracked store block l (dvdcss_titlekey drive crack_disc_key block l.css)

  unfoldable pub look_up_title : ℕ → Option DvdKey → Library → Option (Bool × Library)
  look_up_title block (some key) l =
      some (true, record l { css = record l.css { p_title_key = key } })
  look_up_title block none l = obtain_title block (find_cached block l) l

  -- `none` stands for a search that runs out of fuel.
  unfoldable pub dvdcss_title : ℕ → Library → Option (Bool × Library)
  dvdcss_title block l =
      let result = look_up_title block (known_key l.css.p_titles block) l in
      if l.css.b_scrambled then result else some (true, l)
