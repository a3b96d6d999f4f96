-- ===== src/Opening/Methods.antt =====
-- The texts that `set_access_method` of src/libdvdcss.c accepts.
use libdvdcss.Common.{
  ℕ, suc, Bool, true, false, none, some, List, [], ◌∷◌, ◌++◌, ◌≡◌, ◌≢◌, refl, sym, ap, ap₂, ◌∙◌,
  ◌⊎◌, inl, inr, Bool-cases, ◌==◌, ==_iff, eq→==, if◌then◌else◌, length,
}
use libdvdcss.Dvdcss.{method_key, method_disc, method_title}
use libdvdcss.Cache.{codes}
use libdvdcss.Opening.{same_chars, set_access_method}

-- A comparison that goes past the end of `b` is an equality.
same_chars-≡ : (a b : List ℕ) → same_chars (suc (length b)) a b ≡ true → a ≡ b
unfolding same_chars
same_chars-≡ [] [] h = refl
same_chars-≡ [] (d ∷ ds) h = absurd (cc)
same_chars-≡ (c ∷ cs) [] h = absurd (cc)
same_chars-≡ (c ∷ cs) (d ∷ ds) h = elim (Bool-cases (c == d)) [
  | inl e ↦
      let rest =
        sym (ap (λ (x : Bool). if x then same_chars (suc (length ds)) cs ds else false) e) ∙ h in
      ap₂ (λ (x : ℕ) xs. x ∷ xs) ((==_iff c d).0 e) (same_chars-≡ cs ds rest)
  | inr e ↦
      absurd (
        cc (sym (ap (λ (x : Bool). if x then same_chars (suc (length ds)) cs ds else false) e) ∙ h))
]

-- One that goes to the end of `b` is that of a beginning.
same_chars-append :
    (a b : List ℕ) → same_chars (length b) a b ≡ true → (rest : List ℕ) × (a ≡ b ++ rest)
unfolding same_chars
same_chars-append a [] h = (a, refl)
same_chars-append [] (d ∷ ds) h = absurd (cc)
same_chars-append (c ∷ cs) (d ∷ ds) h = elim (Bool-cases (c == d)) [
  | inl e ↦
      let more = sym (ap (λ (x : Bool). if x then same_chars (length ds) cs ds else false) e) ∙ h in
      let (rest, same) = same_chars-append cs ds more in
      (rest, ap₂ (λ (x : ℕ) xs. x ∷ xs) ((==_iff c d).0 e) same)
  | inr e ↦
      absurd (cc (sym (ap (λ (x : Bool). if x then same_chars (length ds) cs ds else false) e) ∙ h))
]

same_chars_whole : (b : List ℕ) → same_chars (suc (length b)) b b ≡ true
unfolding same_chars
same_chars_whole [] = refl
same_chars_whole (d ∷ ds) = rw (eq→== d d refl) (same_chars_whole ds)

same_chars_beginning : (b rest : List ℕ) → same_chars (length b) (b ++ rest) b ≡ true
unfolding same_chars
same_chars_beginning [] rest = refl
same_chars_beginning (d ∷ ds) rest = rw (eq→== d d refl) (same_chars_beginning ds rest)

differs : (a b : List ℕ) → same_chars (suc (length b)) a b ≡ false → a ≢ b
differs a b h e = cc (sym h ∙ ap (λ t. same_chars (suc (length b)) t b) e ∙ same_chars_whole b)

-- set_access_method takes the method "key" for that text, "disc" for that text, "title" for every
-- text that begins with "title", and refuses every other text.
pub set_access_method_lem :
    (text : List ℕ)
    → ((text ≡ codes "key") × (set_access_method (some text) ≡ some method_key))
      ⊎ ((text ≡ codes "disc") × (set_access_method (some text) ≡ some method_disc))
      ⊎ ((rest : List ℕ) × (text ≡ codes "title" ++ rest)
          × (set_access_method (some text) ≡ some method_title))
      ⊎ ((text ≢ codes "key")
          × (text ≢ codes "disc")
          × ((rest : List ℕ) → text ≢ codes "title" ++ rest)
          × (set_access_method (some text) ≡ none))
unfolding set_access_method
set_access_method_lem text = elim (Bool-cases (same_chars 4 text (codes "key"))) [
  | inl e ↦ rw (e) (inl (same_chars-≡ text (codes "key") e, refl))
  | inr no_key ↦ elim (Bool-cases (same_chars 5 text (codes "disc"))) [
    | inl e ↦ rw (no_key, e) (inr (inl (same_chars-≡ text (codes "disc") e, refl)))
    | inr no_disc ↦ elim (Bool-cases (same_chars 5 text (codes "title"))) [
      | inl e ↦
          let (rest, same) = same_chars-append text (codes "title") e in
          rw (no_key, no_disc, e) (inr (inr (inl (rest, same, refl))))
      | inr no_title ↦
          rw (no_key, no_disc, no_title)
            (inr (
              inr (
                inr (
                  differs text (codes "key") no_key,
                  differs text (codes "disc") no_disc,
                  λ rest same. cc (
                      sym no_title
                      ∙ ap (λ t. same_chars 5 t (codes "title")) same
                      ∙ same_chars_beginning (codes "title") rest),
                  refl,
                ))))
    ]
  ]
]
