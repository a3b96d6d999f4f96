-- ===== src/Titles/Sorted.antt =====
-- The list of titles of `dvdcss_title` in src/css.c is a map from blocks to keys.
use libdvdcss.Common.{
  ℕ, ◌<◌, ◌≤◌, Bool, Option, none, some, List, [], ◌∷◌, ◌≡◌, refl, sym, ◌∙◌, ap, inl, inr,
  Bool-cases, arith, if◌then◌else◌, ◌==◌, leb, ltb, ne→==, eq→==, ◌≢◌,
}
use libdvdcss.Keys.{DvdKey}
use libdvdcss.Dvdcss.{DvdTitle}
use libdvdcss.Titles.{walk, if_at, known_key, insert_title}

-- The titles start after `block`, each after the one before.
abbrev pub Above : ℕ → List DvdTitle → Type 0
Above block [] = Unit
Above block (t ∷ ts) = (block < t.startlb) × Above t.startlb ts

abbrev pub IsSorted : List DvdTitle → Type 0
IsSorted [] = Unit
IsSorted (t ∷ ts) = Above t.startlb ts

-- The first title that starts at `block`, whatever the order.
unfoldable pub find_key : List DvdTitle → ℕ → Option DvdKey
find_key [] block = none
find_key (t ∷ ts) block =
    let rest = find_key ts block in if t.startlb == block then some t.key else rest

find_key-here :
    (t : DvdTitle) (ts : List DvdTitle) (b : ℕ) → t.startlb ≡ b → find_key (t ∷ ts) b ≡ some t.key
unfolding find_key
find_key-here t ts b e = rw (eq→== t.startlb b e) refl

find_key-later :
    (t : DvdTitle) (ts : List DvdTitle) (b : ℕ)
    → t.startlb ≢ b
    → find_key (t ∷ ts) b ≡ find_key ts b
unfolding find_key
find_key-later t ts b e = rw (ne→== t.startlb b e) refl

find_key-Above : (ts : List DvdTitle) (a b : ℕ) → b ≤ a → Above a ts → find_key ts b ≡ none
unfolding find_key
find_key-Above [] a b le h = refl
find_key-Above (t ∷ ts) a b le h =
    find_key-later t ts b (λ e. omega (arith, h.0))
    ∙ find_key-Above ts t.startlb b (omega (arith, h.0)) h.1

known_key-find_key : (ts : List DvdTitle) (b : ℕ) → IsSorted ts → known_key ts b ≡ find_key ts b
unfolding known_key walk if_at find_key
known_key-find_key [] b h = refl
known_key-find_key (t ∷ []) b h = refl
known_key-find_key (t ∷ u ∷ ts) b h = elim (Bool-cases (leb u.startlb b)) [
  | inl before ↦
      let onward : t.startlb ≢ b = λ e. ground arith in
      rw (before) (known_key-find_key (u ∷ ts) b h.1 ∙ sym (find_key-later t (u ∷ ts) b onward))
  | inr past ↦
      let none_later = find_key-Above (u ∷ ts) b b (omega arith) (ground arith, h.1) in
      rw (past) (ap (λ o. if t.startlb == b then some t.key else o) (sym none_later))
]

insert_title-Above :
    (t : DvdTitle) (ts : List DvdTitle) (a : ℕ)
    → a < t.startlb
    → Above a ts
    → find_key ts t.startlb ≡ none
    → Above a (insert_title t ts)
unfolding insert_title
insert_title-Above t [] a lo h absent = (lo, tt)
insert_title-Above t (u ∷ us) a lo h absent = elim (Bool-cases (ltb u.startlb t.startlb)) [
  | inl before ↦
      let other : u.startlb ≢ t.startlb = λ e. ground arith in
      rw (before) (
        h.0,
        insert_title-Above t us u.startlb (ground arith) h.1
            (sym (find_key-later u us t.startlb other) ∙ absent),
      )
  | inr past ↦
      let other : u.startlb ≢ t.startlb = λ e. cc (sym (find_key-here u us t.startlb e) ∙ absent) in
      rw (past) (lo, (ground arith, h.1))
]

insert_title-IsSorted :
    (t : DvdTitle) (ts : List DvdTitle)
    → IsSorted ts
    → find_key ts t.startlb ≡ none
    → IsSorted (insert_title t ts)
unfolding insert_title
insert_title-IsSorted t [] h absent = tt
insert_title-IsSorted t (u ∷ us) h absent = elim (Bool-cases (ltb u.startlb t.startlb)) [
  | inl before ↦
      let other : u.startlb ≢ t.startlb = λ e. ground arith in
      rw (before) (
        insert_title-Above t us u.startlb (ground arith) h
          (sym (find_key-later u us t.startlb other) ∙ absent))
  | inr past ↦
      let other : u.startlb ≢ t.startlb = λ e. cc (sym (find_key-here u us t.startlb e) ∙ absent) in
      rw (past) (ground arith, h)
]

find_key-insert_title :
    (t : DvdTitle) (ts : List DvdTitle) (b : ℕ)
    → find_key (insert_title t ts) b ≡ (if t.startlb == b then some t.key else find_key ts b)
unfolding insert_title find_key
find_key-insert_title t [] b = refl
find_key-insert_title t (u ∷ us) b = elim (Bool-cases (ltb u.startlb t.startlb)) [
  | inr past ↦ rw (past) refl
  | inl before ↦
      let ih = find_key-insert_title t us b in
      elim (Bool-cases (t.startlb == b)) [
        | inl here ↦
            let other : u.startlb ≢ b = λ e. ground arith in
            rw (before, here)
              (find_key-later u (insert_title t us) b other
                ∙ ih
                ∙ ap (λ (x : Bool). if x then some t.key else find_key us b) here)
        | inr away ↦
            let ih' = ih ∙ ap (λ (x : Bool). if x then some t.key else find_key us b) away in
            rw (before, away)
              (ap (λ (o : Option DvdKey). if u.startlb == b then some u.key else o) ih')
      ]
]

-- Where no title of a sorted list starts at the block of a new one, the list with it is sorted, and
-- the search of dvdcss_title finds in it the new key at its block and at every other block what it
-- found before.
pub insert_title_lem :
    (t : DvdTitle) (ts : List DvdTitle)
    → IsSorted ts
    → known_key ts t.startlb ≡ none
    → IsSorted (insert_title t ts)
      × ((b : ℕ)
          → known_key (insert_title t ts) b
            ≡ (if t.startlb == b then some t.key else known_key ts b))
insert_title_lem t ts h absent =
    let sorted = insert_title-IsSorted t ts h (sym (known_key-find_key ts t.startlb h) ∙ absent) in
    (
      sorted,
      λ b.
          known_key-find_key (insert_title t ts) b sorted
          ∙ find_key-insert_title t ts b
          ∙ ap (λ (o : Option DvdKey). if t.startlb == b then some t.key else o)
              (sym (known_key-find_key ts b h)),
    )
