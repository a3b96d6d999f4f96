-- ===== src/CrackTitle/Success.antt =====
-- What `AttackPattern` of src/css.c finds.
use libdvdcss.Common.{
  ℕ, ◌+◌, ◌-◌, ◌*◌, ◌/◌, ◌≤◌, ◌<◌, true, false, some, List, ◌≡◌, ◌≢◌, refl, ◌⊎◌, inl, inr,
  Bool-cases, Option-cases, arith, drop, take, length, length-drop, sym, ◌∙◌, ap,
}
use native.Mathlib.Nat.{div-add-mod}
use libdvdcss.Keys.{DvdKey, IsKey, AllBytes, AllBytes-drop, zero_key}
use libdvdcss.Unscramble.{start, descramble}
use libdvdcss.Recover.{Recovered}
use libdvdcss.Recover.Correct.{recover_title_key_sound, recover_title_key_complete}
use libdvdcss.Dvdcss.{is_some}
use libdvdcss.CrackTitle.{
  Best, Attack, best_pattern, is_enough, pattern_offset, recover_from, attack_pattern,
}
use libdvdcss.CrackTitle.Pattern.{best_pattern_lem}

-- A repetition that is long enough has been gone through at least twice.
pattern_offset_lem :
    (best : Best)
    → is_enough best ≡ true
    → best.plen < 0x80
    → (0 < pattern_offset best) × (pattern_offset best ≤ 0x80 - best.p - best.p)
unfolding is_enough pattern_offset
pattern_offset_lem best enough bound =
    let twice : 2 ≤ best.plen / best.p = ground arith in
    let whole : best.plen / best.p * best.p ≤ best.plen =
      omega (arith, div-add-mod best.plen best.p) in
    let cycles : best.p + best.p ≤ best.plen / best.p * best.p = grind arith in
    (omega arith, omega arith)

module _ (sec : List ℕ) (long : 2048 ≤ length sec) (bytes : AllBytes sec) where
  abbrev best : Best
  best = best_pattern sec

  -- Under `key`, the first `n` bytes of the payload are the guessed ones.
  abbrev pub Continues : DvdKey → ℕ → Type 0
  Continues key n =
      descramble (start key sec) (take n (drop 0x80 sec)) ≡ take n (drop (pattern_offset best) sec)

  not_enough : best.plen ≡ 0 → is_enough best ≢ true
  unfolding is_enough
  not_enough e h = ground arith

  offset_in : is_enough best ≡ true → (0 < pattern_offset best) × (pattern_offset best ≤ 0x80)
  offset_in enough = elim ((best_pattern_lem sec).0) [
    | inl (none_found, _) ↦ absurd (not_enough none_found enough)
    | inr (_, _, _, inside, _) ↦
        let (above, below) = pattern_offset_lem best enough inside in (above, omega arith)
  ]

  payload_long : 10 ≤ length (drop 0x80 sec)
  payload_long = omega (arith, length-drop 0x80 sec)

  pattern_long : is_enough best ≡ true → 10 ≤ length (drop (pattern_offset best) sec)
  pattern_long enough = omega (arith, length-drop (pattern_offset best) sec, (offset_in enough).1)

  sound :
      (key : DvdKey) (e : ℕ)
      → is_enough best ≡ true
      → recover_from sec best ≡ record { exit = some e; key = key }
      → IsKey key × (Continues key 1 → Continues key 10)
  unfolding recover_from
  sound key e enough h =
      let (is_key, _, _, all_ten) =
        recover_title_key_sound (drop 0x80 sec) (drop (pattern_offset best) sec) sec payload_long
          (pattern_long enough) (AllBytes-drop (pattern_offset best) sec bytes) bytes 0 zero_key key
          e (omega arith) h in
      (is_key, all_ten)

  complete :
      (key : DvdKey)
      → is_enough best ≡ true
      → IsKey key
      → Continues key 10
      → is_some (recover_from sec best).exit ≡ true
  unfolding recover_from is_some
  complete key enough is_key continues =
      let (e, found, is, _, _) =
        recover_title_key_complete (drop 0x80 sec) (drop (pattern_offset best) sec) sec payload_long
          (pattern_long enough) (AllBytes-drop (pattern_offset best) sec bytes) bytes 0 zero_key key
          is_key (omega arith) continues in
      ap (λ r. is_some (Recovered.exit r)) is

  pub attack_pattern_lem :
      (a : Attack)
      → let (hit, a') = attack_pattern sec a in
        ((hit ≡ true)
          × (is_enough best ≡ true)
          × (a'.tries ≡ a.tries + 1)
          × (a'.success ≡ a.success + 1)
          × IsKey a'.key
          × (Continues a'.key 1 → Continues a'.key 10))
        ⊎ ((hit ≡ false)
            × (a'.success ≡ a.success)
            × (((is_enough best ≡ false) × (a' ≡ a))
                ⊎ ((a'.tries ≡ a.tries + 1) × ((key : DvdKey) → IsKey key → ¬ Continues key 10))))
  unfolding attack_pattern is_some
  attack_pattern_lem a = elim (Bool-cases (is_enough best)) [
    | inr e ↦ rw (e) (inr (refl, refl, inl (refl, refl)))
    | inl e ↦ elim (Option-cases (recover_from sec best).exit) [
      | inl missed ↦
          rw (e, missed)
            (inr (
              refl,
              omega arith,
              inr (
                refl,
                λ key is_key continues.
                    cc (sym (complete key e is_key continues) ∙ ap is_some missed),
              ),
            ))
      | inr (n, found) ↦
          let (is_key, all_ten) =
            sound (recover_from sec best).key n e
              (ap (λ x. record { exit = x; key = (recover_from sec best).key }) found) in
          rw (e, found) (inl (refl, refl, refl, refl, is_key, all_ten))
    ]
  ]
