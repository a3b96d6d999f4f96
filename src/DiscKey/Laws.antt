-- ===== src/DiscKey/Laws.antt =====
-- `DecryptDiscKey` finds a key exactly if some player key opens some position.
use libdvdcss.Common.{
  ℕ, zero, suc, ◌+◌, ◌*◌, ◌≤◌, ◌<◌, ◌≡◌, refl, sym, ◌∙◌, true, false, none, some, List, [], ◌∷◌,
  arith, Bool-cases, Option-cases, ◌≢◌, ◌⊎◌, inl, inr, length, get_or,
}
use mathlib.Core.Path.{subst}
use native.Mathlib.Decide.{ℕ_discrete}
use libdvdcss.Keys.{DvdKey, key_at, zero_key}
use libdvdcss.DecryptKey.{decrypt_key}
use libdvdcss.DiscKey.{
  player_keys, key_eq, verifies, candidate, try_positions, try_players, decrypt_disc_key,
}

pub key_eq→≡ : (a b : DvdKey) → key_eq a b ≡ true → a ≡ b
key_eq→≡ a b h = ground arith

pub ≡→key_eq : (a b : DvdKey) → a ≡ b → key_eq a b ≡ true
≡→key_eq a b h = ground arith

module _ (struct_disckey : List ℕ) where
  -- A position that a player key opens.
  abbrev pub Opens : DvdKey → ℕ → Type 0
  Opens player i = verifies struct_disckey (candidate struct_disckey player i) ≡ true

  try_positions-some :
      (left i : ℕ) (player k : DvdKey)
      → try_positions left i player struct_disckey ≡ some k
      → (j : ℕ) × (i ≤ j)
        × (j < i + left)
        × (k ≡ candidate struct_disckey player j)
        × Opens player j
  unfolding try_positions
  try_positions-some zero i player k h = cc
  try_positions-some (suc left) i player k h =
      elim (Bool-cases (verifies struct_disckey (candidate struct_disckey player i))) [
        | inl opens ↦ (i, omega arith, omega arith, ground arith, opens)
        | inr fails ↦
            let (j, lo, hi, is, opens) = try_positions-some left (i + 1) player k (rw fails at h) in
            (j, omega arith, omega arith, is, opens)
      ]

  try_positions-none :
      (left i j : ℕ) (player : DvdKey)
      → try_positions left i player struct_disckey ≡ none
      → i ≤ j
      → j < i + left
      → verifies struct_disckey (candidate struct_disckey player j) ≡ false
  unfolding try_positions
  try_positions-none zero i j player h lo hi = absurd (omega arith)
  try_positions-none (suc left) i j player h lo hi =
      elim (Bool-cases (verifies struct_disckey (candidate struct_disckey player i))) [
        | inl opens ↦ cc (rw opens at h)
        | inr fails ↦ elim (ℕ_discrete i j) [
          | yes here ↦
              subst (λ p. verifies struct_disckey (candidate struct_disckey player p) ≡ false) here
                fails
          | no later ↦
              try_positions-none left (i + 1) j player (rw fails at h) (omega arith) (omega arith)
        ]
      ]

  -- A key that was found: by which player key, at which position inside the block.
  pub record Found (players : List DvdKey) (disc_key : DvdKey) : Type 0 where
    pub n : ℕ
    pub i : ℕ
    pub n_in : n < length players
    pub i_from : 1 ≤ i
    pub i_in : 5 * i + 4 < 2048
    pub is : disc_key ≡ decrypt_key 0 (get_or players n zero_key) (key_at struct_disckey (5 * i))
    pub verified : decrypt_key 0 disc_key (key_at struct_disckey 0) ≡ disc_key

  -- No player key opens a position.
  abbrev pub NoneOpens : List DvdKey → Type 0
  NoneOpens players =
      (n i : ℕ)
      → n < length players
      → 1 ≤ i
      → i < 409
      → let disc_key = decrypt_key 0 (get_or players n zero_key) (key_at struct_disckey (5 * i)) in
        decrypt_key 0 disc_key (key_at struct_disckey 0) ≢ disc_key

  fails→ne :
      (player : DvdKey) (i : ℕ)
      → verifies struct_disckey (candidate struct_disckey player i) ≡ false
      → let disc_key = decrypt_key 0 player (key_at struct_disckey (5 * i)) in
        decrypt_key 0 disc_key (key_at struct_disckey 0) ≢ disc_key
  unfolding verifies candidate
  fails→ne player i h e = cc (sym h ∙ ≡→key_eq _ _ (sym e))

  opens→Found :
      (player : DvdKey) (players : List DvdKey) (j : ℕ)
      → 1 ≤ j
      → j < 409
      → Opens player j
      → Found (player ∷ players) (candidate struct_disckey player j)
  unfolding verifies candidate
  opens→Found player players j lo hi opens = record {
    n = 0;
    i = j;
    n_in = omega arith;
    i_from = lo;
    i_in = omega arith;
    is = refl;
    verified = sym (key_eq→≡ _ _ opens);
  }

  NoneOpens-cons :
      (p : DvdKey) (ps : List DvdKey)
      → try_positions 408 1 p struct_disckey ≡ none
      → NoneOpens ps
      → NoneOpens (p ∷ ps)
  NoneOpens-cons p ps failed rest zero i hn lo hi =
      fails→ne p i (try_positions-none 408 1 i p failed lo (omega arith))
  NoneOpens-cons p ps failed rest (suc n) i hn lo hi = rest n i (omega arith) lo hi

  try_players_lem :
      (players : List DvdKey)
      → ((k : DvdKey) × (try_players players struct_disckey ≡ some k) × Found players k)
        ⊎ ((try_players players struct_disckey ≡ none) × NoneOpens players)
  unfolding try_players
  try_players_lem [] = inr (refl, λ n i h. elim h [ ])
  try_players_lem (p ∷ ps) = elim (Option-cases (try_positions 408 1 p struct_disckey)) [
    | inl failed ↦ elim (try_players_lem ps) [
      | inl (k, found, f) ↦ inl (
        k,
        rw (failed, try_players) found,
        record {
          n = suc f.n;
          i = f.i;
          n_in = omega (arith, f.n_in);
          i_from = f.i_from;
          i_in = f.i_in;
          is = f.is;
          verified = f.verified;
        },
      )
      | inr (none_found, none_opens) ↦
          inr (rw (failed, try_players) none_found, NoneOpens-cons p ps failed none_opens)
    ]
    | inr (k, found) ↦
        let (j, lo, hi, is, opens) = try_positions-some 408 1 p k found in
        inl (
          k,
          rw (found, try_players) refl,
          subst (Found (p ∷ ps)) (sym is) (opens→Found p ps j lo (omega arith) opens),
        )
  ]

-- `DecryptDiscKey` returns 0 with a key that a player key gives at a position inside the block and
-- that the block's first bytes confirm; or it returns -1 with the zero key, and no player key gives
-- such a key at any of the positions 1 to 408.
pub decrypt_disc_key_lem :
    (struct_disckey : List ℕ)
    → let (success, disc_key) = decrypt_disc_key struct_disckey in
      ((success ≡ true) × Found struct_disckey player_keys disc_key)
      ⊎ ((success ≡ false) × (disc_key ≡ zero_key) × NoneOpens struct_disckey player_keys)
unfolding decrypt_disc_key
decrypt_disc_key_lem struct_disckey = elim (try_players_lem struct_disckey player_keys) [
  | inl (k, found, f) ↦ inl (rw (found, decrypt_disc_key) (refl, f))
  | inr (none_found, none_opens) ↦ inr (rw (none_found, decrypt_disc_key) (refl, refl, none_opens))
]
