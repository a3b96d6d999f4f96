-- ===== src/Cache/Lengths.antt =====
-- The lengths of the paths that src/libdvdcss.c composes, and the room that `set_cache_directory`
-- leaves in `psz_cachefile`.
use libdvdcss.Common.{
  ℕ, zero, suc, ◌+◌, ◌-◌, ◌≤◌, Bool, true, false, Option, none, some, List, [], ◌∷◌, ◌++◌, ◌≡◌,
  refl, ◌⊎◌, inl, inr, Bool-cases, arith, length, take, drop, length-append, length-take,
}
use libdvdcss.Keys.{DvdKey}
use libdvdcss.Dvdcss.{Dvdcss}
use libdvdcss.Titles.{hex_byte}
use libdvdcss.Cache.{
  Surroundings, is_too_long, measured, composed, from_variable, is_off, set_cache_directory,
  manufacturing_date_length, disc_title_length, default_cache,
}
use libdvdcss.Cache.Subdir.{
  disc_title, ends_title, serial_text, all_digits, hex_text, key_text, subdir_name,
}

length-disc_title : (signed : Bool) (n : ℕ) (cs : List ℕ) → length (disc_title signed n cs) ≤ n
unfolding disc_title
length-disc_title signed zero cs = omega arith
length-disc_title signed (suc n) [] = omega arith
length-disc_title signed (suc n) (c ∷ cs) = elim (Bool-cases (ends_title signed c)) [
  | inl e ↦ rw (e) (omega arith)
  | inr e ↦ rw (e) (omega (arith, length-disc_title signed n cs))
]

length-hex_text : (bs : List ℕ) → length (hex_text bs) ≡ length bs + length bs
unfolding hex_text hex_byte
length-hex_text [] = refl
length-hex_text (b ∷ bs) = omega (arith, length-hex_text bs)

length-serial_text : (cs : List ℕ) → length cs ≤ 16 → length (serial_text cs) ≤ 16
unfolding serial_text
length-serial_text cs short = elim (Bool-cases (all_digits cs)) [
  | inl e ↦ rw (e) short
  | inr e ↦ rw (e) (omega (arith, length-hex_text (take 8 cs), length-take 8 cs))
]

length-key_text : (scrambled : Bool) (k : DvdKey) → length (key_text scrambled k) ≤ 10
unfolding key_text hex_text hex_byte
length-key_text true k = omega arith
length-key_text false k = omega arith

length-joined :
    (x y z : ℕ) (a b c : List ℕ)
    → length a ≤ 32
    → length b ≤ 16
    → length c ≤ 10
    → length (x ∷ (a ++ (y ∷ (b ++ (z ∷ c))))) ≤ 61
length-joined x y z a b c ha hb hc =
    let outer = length-append a (y ∷ (b ++ (z ∷ c))) in
    let inner = length-append b (z ∷ c) in omega arith

pub subdir_name_ext :
    (signed : Bool) (d e : Dvdcss) (sector : List ℕ)
    → e.b_scrambled ≡ d.b_scrambled
    → e.p_disc_key ≡ d.p_disc_key
    → subdir_name signed e sector ≡ subdir_name signed d sector
unfolding subdir_name
subdir_name_ext signed d e sector b k = rw (b, k) refl

pub length-subdir_name :
    (signed : Bool) (d : Dvdcss) (sector : List ℕ) → length (subdir_name signed d sector) ≤ 61
unfolding subdir_name
length-subdir_name signed d sector =
    let date = take manufacturing_date_length (drop 813 sector) in
    let short : length date ≤ 16 =
      omega (arith, length-take manufacturing_date_length (drop 813 sector)) in
    length-joined b'/' b'-' b'-' (disc_title signed disc_title_length (drop 40 sector))
      (serial_text date) (key_text d.b_scrambled d.p_disc_key)
      (length-disc_title signed disc_title_length (drop 40 sector)) (length-serial_text date short)
      (length-key_text d.b_scrambled d.p_disc_key)

-- What `set_cache_directory` accepts leaves room for the longest names.
abbrev pub HasRoom : ℕ → Bool × List ℕ → Type 0
HasRoom path_max (true, path) = (path ≡ []) ⊎ (length path + 75 ≤ path_max)
HasRoom path_max (false, path) = Unit

measured-HasRoom :
    (path_max : ℕ) (psz_cache path : List ℕ)
    → length path ≤ length psz_cache
    → HasRoom path_max (measured path_max psz_cache path)
unfolding measured is_too_long
measured-HasRoom path_max psz_cache path short =
    elim (Bool-cases (is_too_long path_max psz_cache)) [
      | inl e ↦ rw (e) tt
      | inr e ↦ rw (e) (inr (ground arith))
    ]

composed-HasRoom :
    (path_max : ℕ) (without : Bool × List ℕ) (path : Option (List ℕ))
    → HasRoom path_max without
    → HasRoom path_max (composed path_max without path)
unfolding composed
composed-HasRoom path_max without none h = h
composed-HasRoom path_max without (some path) h = measured-HasRoom path_max path path (omega arith)

from_variable-HasRoom :
    (s : Surroundings) (variable : Option (List ℕ)) → HasRoom s.path_max (from_variable s variable)
unfolding from_variable
from_variable-HasRoom s none =
    composed-HasRoom s.path_max (true, []) (default_cache s s.platform) (inl refl)
from_variable-HasRoom s (some []) =
    composed-HasRoom s.path_max (measured s.path_max [] []) (default_cache s s.platform)
      (measured-HasRoom s.path_max [] [] (omega arith))
from_variable-HasRoom s (some (c ∷ cs)) =
    measured-HasRoom s.path_max (c ∷ cs) (take (s.path_max - 1) (c ∷ cs))
      (omega (arith, length-take (s.path_max - 1) (c ∷ cs)))

pub set_cache_directory-HasRoom : (s : Surroundings) → HasRoom s.path_max (set_cache_directory s)
unfolding set_cache_directory
set_cache_directory-HasRoom s = elim (Bool-cases (is_off s.dvdcss_cache)) [
  | inl e ↦ rw (e) tt
  | inr e ↦ rw (e) (from_variable-HasRoom s s.dvdcss_cache)
]
