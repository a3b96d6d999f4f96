-- ===== src/Recover/Correct.antt =====
-- What `RecoverTitleKey` returns, over all values of `i_try`.
use libdvdcss.Common.{
  ℕ, ◌+◌, ◌-◌, ◌^◌, ◌≤◌, ◌<◌, ◌≡◌, sym, ◌∙◌, ap, ◌⊎◌, inl, inr, some, none, List, arith, length,
  take,
}
use mathlib.Core.Option
use mathlib.Core.Path.{subst}
use libdvdcss.Keys.{
  xor_key_cancel, DvdKey, IsKey, AllBytes, key_at, key_at-IsKey, xor_key, xor_key-IsKey,
}
use libdvdcss.Unscramble.{start, descramble}
use libdvdcss.Unscramble.Start.{join24, stream_of, start_lem}
use libdvdcss.Recover.{Recovered, key_from, attempts, known_bytes, with_seed, recover_title_key}
use libdvdcss.Recover.Matches.{Matches, Matches-known_bytes}
use libdvdcss.Recover.Guess.{key_from_lem}
use libdvdcss.Recover.Attempts.{
  from, wrote, attempts_cases, attempts_complete, known_bytes-AllBytes, try_of, key_from-try_of,
}

-- The key that is returned when the loop wrote one.
module _ (crypted decrypted sec : List ℕ) (crypted_long : 10 ≤ length crypted)
    (decrypted_long : 10 ≤ length decrypted) (decrypted_bytes : AllBytes decrypted)
    (sec_bytes : AllBytes sec) where
  abbrev seed : DvdKey
  seed = key_at sec 0x54

  abbrev Decrypts : DvdKey → ℕ → Type 0
  Decrypts key n = descramble (start key sec) (take n crypted) ≡ take n decrypted

  seed-IsKey : IsKey seed
  seed-IsKey = key_at-IsKey sec 0x54 sec_bytes

  known-AllBytes : AllBytes (known_bytes 4 crypted decrypted)
  known-AllBytes = known_bytes-AllBytes 4 crypted decrypted decrypted_bytes

  -- The cipher of the recovered key in this sector.
  start-key_from :
      (i_try x : ℕ)
      → i_try < 2 ^ 16
      → x < 2 ^ 24
      → IsKey (xor_key (key_from i_try x) seed)
        × (start (xor_key (key_from i_try x) seed) sec ≡ from i_try x)
  start-key_from i_try x hi hx =
      let found = key_from_lem i_try x hi hx in
      let key_bytes = xor_key-IsKey found.0 seed-IsKey in
      (
        key_bytes,
        start_lem (xor_key (key_from i_try x) seed) sec key_bytes seed-IsKey
            ∙ ap stream_of (xor_key_cancel (key_from i_try x) seed)
            ∙ found.1,
      )

  abbrev known : ℕ → List ℕ
  known n = known_bytes n crypted decrypted

  abbrev unwritten : DvdKey → Recovered
  unwritten old = record { exit = none; key = old }

  -- The loop over `i_try` on the ten known bytes.
  loop_cases :
      (i_start : ℕ) (old : DvdKey)
      → i_start ≤ 0x10000
      → let r = attempts (0x10000 - i_start) (known 10) i_start (unwritten old) in
        (r ≡ unwritten old)
        ⊎ ((t x : ℕ) × (i_start ≤ t)
            × (t < 0x10000)
            × (x < 2 ^ 24)
            × (r ≡ wrote t x)
            × (Matches (from t x) (known 1) → Matches (from t x) (known 10)))
  unfolding known_bytes
  loop_cases i_start old range =
      elim (attempts_cases _ _ _ _ _ known-AllBytes (0x10000 - i_start) i_start (unwritten old)
        (omega arith)) [
          | inl same ↦ inl same
          | inr w ↦
              inr (
                w.i_try,
                w.x,
                w.after_lo,
                omega (arith, w.before_hi),
                w.x_in,
                w.is,
                λ m. w.gives m.0,
              )
        ]

  loop_complete :
      (i_start t x : ℕ) (old : DvdKey)
      → i_start ≤ t
      → t < 0x10000
      → x < 2 ^ 24
      → Matches (from t x) (known 10)
      → let r = attempts (0x10000 - i_start) (known 10) i_start (unwritten old) in
        (r ≡ wrote t x) ⊎ ((t' x' : ℕ) × (t < t') × (r ≡ wrote t' x'))
  unfolding known_bytes
  loop_complete i_start t x old lo hi x_in m =
      elim (attempts_complete _ _ _ _ _ known-AllBytes (0x10000 - i_start) i_start (unwritten old) t
        x (omega arith) lo (omega arith) x_in m) [
          | inl same ↦ inl same
          | inr w ↦ inr (w.i_try, w.x, omega (arith, w.after_lo), w.is)
        ]

  -- What is returned when the loop wrote a key.
  returned :
      (i_start t x : ℕ) (old : DvdKey)
      → attempts (0x10000 - i_start) (known 10) i_start (unwritten old) ≡ wrote t x
      → recover_title_key i_start crypted decrypted seed old
        ≡ record { exit = some (t + 1); key = xor_key (key_from t x) seed }
  unfolding recover_title_key with_seed
  returned i_start t x old e = ap (with_seed seed) e

  -- A key that is returned decrypts all ten bytes if it decrypts the first, and `i_exit` is past
  -- the value of `i_try` that gave it.
  pub recover_title_key_sound :
      (i_start : ℕ) (old key : DvdKey) (e : ℕ)
      → i_start ≤ 0x10000
      → recover_title_key i_start crypted decrypted seed old ≡ record { exit = some e; key = key }
      → IsKey key × (i_start < e) × (e ≤ 0x10000) × (Decrypts key 1 → Decrypts key 10)
  unfolding recover_title_key with_seed
  recover_title_key_sound i_start old key e range h = elim (loop_cases i_start old range) [
    | inl same ↦ cc (ap Recovered.exit (sym (ap (with_seed seed) same) ∙ h))
    | inr (t, x, lo, hi, x_in, is, gives) ↦
        let both = sym (returned i_start t x old is) ∙ h in
        let e_is : t + 1 ≡ e = ap (λ r. Option.get_or r.exit 0) both in
        let key_is = ap (λ r. r.key) both in
        let found = start-key_from t x hi x_in in
        let view = λ (n : ℕ) (hc : n ≤ length crypted) (hd : n ≤ length decrypted).
          Matches-known_bytes n (from t x) crypted decrypted hc hd in
        let decrypts : (n : ℕ) → Type 0 =
          λ n. descramble (from t x) (take n crypted) ≡ take n decrypted in
        (
          subst IsKey key_is found.0,
          omega arith,
          omega arith,
          subst (λ k. Decrypts k 1 → Decrypts k 10) key_is
              (subst
                (λ s.
                  descramble s (take 1 crypted) ≡ take 1 decrypted
                  → descramble s (take 10 crypted) ≡ take 10 decrypted)
                (sym found.1)
                (λ one.
                  (view 10 crypted_long decrypted_long).0
                    (gives ((view 1 (omega arith) (omega arith)).1 one)))),
        )
  ]

  -- A key that decrypts the ten bytes is found, or one is found at a later value of `i_try`.
  pub recover_title_key_complete :
      (i_start : ℕ) (old key : DvdKey)
      → IsKey key
      → i_start ≤ try_of (xor_key key seed)
      → Decrypts key 10
      → let t = try_of (xor_key key seed) in
        (e : ℕ) × (key' : DvdKey) × (recover_title_key i_start crypted decrypted seed old
          ≡ record { exit = some e; key = key' })
        × (t < e)
        × (e ≡ t + 1 → key' ≡ key)
  recover_title_key_complete i_start old key v range decrypts =
      let sum = xor_key key seed in
      let sum_bytes = xor_key-IsKey v seed-IsKey in
      let t = try_of sum in
      let x = join24 sum.k2 sum.k3 sum.k4 in
      let t_in : t < 0x10000 = omega arith in
      let x_in : x < 2 ^ 24 = omega arith in
      let written = key_from-try_of sum_bytes in
      let same : start key sec ≡ from t x =
        start_lem key sec v seed-IsKey
        ∙ ap stream_of (sym written)
        ∙ (key_from_lem t x t_in x_in).1 in
      let m =
        (Matches-known_bytes 10 (from t x) crypted decrypted crypted_long decrypted_long).1
          (subst (λ s. descramble s (take 10 crypted) ≡ take 10 decrypted) same decrypts) in
      elim (loop_complete i_start t x old range t_in x_in m) [
        | inl is ↦ (
          t + 1,
          xor_key (key_from t x) seed,
          returned i_start t x old is,
          omega arith,
          λ _. ap (λ k. xor_key k seed) written ∙ xor_key_cancel key seed,
        )
        | inr (t', x', later, is) ↦ (
          t' + 1,
          xor_key (key_from t' x') seed,
          returned i_start t' x' old is,
          omega arith,
          λ e. absurd (omega arith),
        )
      ]
