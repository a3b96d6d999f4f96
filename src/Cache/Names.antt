-- ===== src/Cache/Names.antt =====
-- What stands on a disc cannot lead out of the cache directory of src/libdvdcss.c.
use libdvdcss.Common.{
  ℕ, zero, suc, ◌/◌, ◌%◌, ◌<◌, Bool, true, false, ◌||◌, List, [], ◌∷◌, ◌++◌, ◌≡◌, ◌≢◌, refl, sym,
  ap, ◌∙◌, inl, inr, Bool-cases, arith, if◌then◌else◌, ◌==◌, ltb, take, drop,
}
use libdvdcss.Keys.{DvdKey, IsKey, AllBytes, AllBytes-take, AllBytes-drop}
use libdvdcss.Dvdcss.{Dvdcss}
use libdvdcss.Titles.{hex_byte, hex_digit}
use libdvdcss.Cache.{disc_title_length, manufacturing_date_length}
use libdvdcss.Cache.Subdir.{
  disc_title, ends_title, file_char, serial_text, all_digits, hex_text, key_text, subdir_name,
}

-- A byte of a file name: no NUL, no space, and neither of the slashes.
abbrev pub NameByte : ℕ → Type 0
NameByte c = (32 < c) × (c ≢ 47) × (c ≢ 92)

abbrev pub IsName : List ℕ → Type 0
IsName [] = Unit
IsName (c ∷ cs) = NameByte c × IsName cs

IsName-append : (cs ds : List ℕ) → IsName cs → IsName ds → IsName (cs ++ ds)
IsName-append [] ds hc hd = hd
IsName-append (c ∷ cs) ds hc hd = (hc.0, IsName-append cs ds hc.1 hd)

file_char-NameByte : (signed : Bool) (c : ℕ) → ends_title signed c ≡ false → NameByte (file_char c)
unfolding file_char ends_title
file_char-NameByte signed c h = elim (Bool-cases (c == b'/' || c == b'\\')) [
  | inl slash ↦ rw (slash) (omega arith, λ e. omega arith, λ e. omega arith)
  | inr other ↦ rw (other) (ground arith, λ e. ground arith, λ e. ground arith)
]

disc_title-IsName : (signed : Bool) (n : ℕ) (cs : List ℕ) → IsName (disc_title signed n cs)
unfolding disc_title
disc_title-IsName signed zero cs = tt
disc_title-IsName signed (suc n) [] = tt
disc_title-IsName signed (suc n) (c ∷ cs) = elim (Bool-cases (ends_title signed c)) [
  | inl e ↦ rw (e) tt
  | inr e ↦ rw (e) (file_char-NameByte signed c e, disc_title-IsName signed n cs)
]

hex_digit-NameByte : (n : ℕ) → n < 16 → NameByte (hex_digit n)
unfolding hex_digit
hex_digit-NameByte n h = elim (Bool-cases (ltb n 10)) [
  | inl e ↦ rw (e) (omega arith, λ p. ground arith, λ p. ground arith)
  | inr e ↦ rw (e) (omega arith, λ p. ground arith, λ p. ground arith)
]

hex_text-IsName : (bs : List ℕ) → AllBytes bs → IsName (hex_text bs)
unfolding hex_text hex_byte
hex_text-IsName [] h = tt
hex_text-IsName (b ∷ bs) h = (
  hex_digit-NameByte (b / 16) (omega (arith, h.0)),
  (hex_digit-NameByte (b % 16) (omega arith), hex_text-IsName bs h.1),
)

all_digits-IsName : (cs : List ℕ) → all_digits cs ≡ true → IsName cs
unfolding all_digits
all_digits-IsName [] h = tt
all_digits-IsName (c ∷ cs) h = elim (Bool-cases (ltb c b'0' || ltb b'9' c)) [
  | inl e ↦ absurd (cc (sym (ap (λ (b : Bool). if b then false else all_digits cs) e) ∙ h))
  | inr e ↦ (
    (ground arith, λ p. ground arith, λ p. ground arith),
    all_digits-IsName cs (sym (ap (λ (b : Bool). if b then false else all_digits cs) e) ∙ h),
  )
]

serial_text-IsName : (cs : List ℕ) → AllBytes cs → IsName (serial_text cs)
unfolding serial_text
serial_text-IsName cs bytes = elim (Bool-cases (all_digits cs)) [
  | inl e ↦ rw (e) (all_digits-IsName cs e)
  | inr e ↦ rw (e) (hex_text-IsName (take 8 cs) (AllBytes-take 8 cs bytes))
]

key_text-IsName : (scrambled : Bool) (k : DvdKey) → IsKey k → IsName (key_text scrambled k)
unfolding key_text
key_text-IsName true k is_key =
    hex_text-IsName (k.k0 ∷ k.k1 ∷ k.k2 ∷ k.k3 ∷ k.k4 ∷ [])
      (is_key.byte0, (is_key.byte1, (is_key.byte2, (is_key.byte3, (is_key.byte4, tt)))))
key_text-IsName false k is_key = tt

-- The name of a disc's directory is one component of a path.
abbrev pub IsSubdir : List ℕ → Type 0
IsSubdir [] = ⊥
IsSubdir (c ∷ cs) = (c ≡ b'/') × IsName cs

-- Whatever bytes stand in sector 16 of a disc, and for any disc key of five bytes, what
-- create_cache_subdir puts behind the cache directory is a slash and a name without NUL, space,
-- slash or backslash.
pub subdir_name-IsSubdir :
    (signed : Bool) (d : Dvdcss) (sector : List ℕ)
    → AllBytes sector
    → IsKey d.p_disc_key
    → IsSubdir (subdir_name signed d sector)
unfolding subdir_name
subdir_name-IsSubdir signed d sector bytes is_key =
    let dash : NameByte b'-' = (omega arith, λ e. omega arith, λ e. omega arith) in
    let title = disc_title signed disc_title_length (drop 40 sector) in
    let date = take manufacturing_date_length (drop 813 sector) in
    let key = key_text d.b_scrambled d.p_disc_key in
    let serial = serial_text-IsName date (
      AllBytes-take manufacturing_date_length (drop 813 sector) (AllBytes-drop 813 sector bytes)) in
    let tail =
      IsName-append (serial_text date) (b'-' ∷ key) serial
        (dash, key_text-IsName d.b_scrambled d.p_disc_key is_key) in
    (
      refl,
      IsName-append title (b'-' ∷ (serial_text date ++ (b'-' ∷ key)))
          (disc_title-IsName signed disc_title_length (drop 40 sector)) (dash, tail),
    )
