-- ===== src/CrackTitle/Total.antt =====
-- `CrackTitleKey` of src/css.c ends, and what it returns.
use libdvdcss.Common.{
  ℕ, zero, suc, ◌+◌, ◌-◌, ◌≤◌, ◌<◌, Bool, true, false, not, ◌&&◌, Option, none, some, List, ◌≡◌,
  refl, ◌⊎◌, inl, inr, Bool-cases, ltb, ◌==◌, arith, length, ◌∙◌, ap,
}
use libdvdcss.Keys.{DvdKey, IsKey, AllBytes, zero_key}
use libdvdcss.Dvdcss.{Dvdcss, Drive, Command, pf_seek, pf_read}
use libdvdcss.CrackTitle.{
  Crack, key_found, key_absent, key_failed, Attack, attack_pattern, attack_block, count_block,
  on_block, on_error, on_read, crack_pass, goes_on, crack_loop, conclude, conclude_some,
  begin_crack, crack_title_key, is_pack, can_be_scrambled,
}
use libdvdcss.CrackTitle.Counts.{Counts, crack_loop-Counts}
use libdvdcss.CrackTitle.Success.{attack_pattern_lem}

-- A drive reads bytes, and whole blocks of them.
abbrev pub ReadsBlocks : Drive → Type 0
ReadsBlocks drive =
    (log : List Command) (n : ℕ) (buf : List ℕ)
    → drive.blocks log ≡ some (n, buf)
    → 0 < n
    → (2048 ≤ length buf) × AllBytes buf

-- The passes that are left: one for each block, and one for the read error.
abbrev passes_for_error : Bool → ℕ
passes_for_error true = 0
passes_for_error false = 1

abbrev measure : Crack → ℕ
measure s = s.len + passes_for_error s.read_error

-- The counters and the key, at the head of every pass: a success stops the scan.
pub record IsCrack (pos len : ℕ) (s : Crack) : Type 0 where
  pub moved : s.pos ≡ pos + s.reads
  pub within : s.reads + s.len ≡ len
  pub tried : s.attack.tries ≤ s.encrypted
  pub encrypted_in : s.encrypted ≤ s.reads
  pub searching : s.stop ≡ false → s.attack.success ≡ 0
  pub hit : s.stop ≡ true → (s.attack.success ≡ 1) × IsKey s.attack.key

module _ (pos len : ℕ) where
  attacked-IsCrack :
      (buf : List ℕ) (s : Crack)
      → 2048 ≤ length buf
      → AllBytes buf
      → IsCrack pos len s
      → s.stop ≡ false
      → 0 < s.len
      → IsCrack pos len (count_block (attack_block buf s))
  unfolding count_block attack_block
  attacked-IsCrack buf s long bytes v going more = elim (Bool-cases (can_be_scrambled buf)) [
    | inr e ↦ rw (e) (record {
      moved = omega (arith, v.moved);
      within = omega (arith, v.within);
      tried = v.tried;
      encrypted_in = omega (arith, v.encrypted_in);
      searching = v.searching;
      hit = v.hit;
    })
    | inl e ↦ elim (attack_pattern_lem buf long bytes s.attack) [
      | inl (hit, _, tries, success, is_key, _) ↦
          rw (e, hit, going)
            (record {
              moved = omega (arith, v.moved);
              within = omega (arith, v.within);
              tried = omega (arith, v.tried);
              encrypted_in = omega (arith, v.encrypted_in);
              searching = λ h. absurd (cc);
              hit = λ h. (omega (arith, v.searching going), is_key);
            })
      | inr (missed, success, tried) ↦
          let at_most : (attack_pattern buf s.attack).1.tries ≤ s.attack.tries + 1 = elim tried [
            | inl (_, same) ↦ omega (arith, ap (λ (a : Attack). a.tries) same)
            | inr (more_tries, _) ↦ omega arith
          ] in
          rw (e, missed, going)
            (record {
              moved = omega (arith, v.moved);
              within = omega (arith, v.within);
              tried = omega (arith, v.tried);
              encrypted_in = omega (arith, v.encrypted_in);
              searching = λ h. success ∙ v.searching going;
              hit = λ h. absurd (cc);
            })
    ]
  ]

  len_of_block : (buf : List ℕ) (s : Crack) → (count_block (attack_block buf s)).len ≡ s.len - 1
  unfolding count_block attack_block
  len_of_block buf s = elim (Bool-cases (can_be_scrambled buf)) [
    | inl e ↦ rw (e) refl
    | inr e ↦ rw (e) refl
  ]

  error_of_block :
      (buf : List ℕ) (s : Crack) → (count_block (attack_block buf s)).read_error ≡ s.read_error
  unfolding count_block attack_block
  error_of_block buf s = elim (Bool-cases (can_be_scrambled buf)) [
    | inl e ↦ rw (e) refl
    | inr e ↦ rw (e) refl
  ]

  -- What a pass must give: the invariant, and one pass less to come unless the loop is left.
  abbrev Passed : Crack → Bool × Crack → Type 0
  Passed s (left, s') = IsCrack pos len s' × ((left ≡ false) → measure s' < measure s)

  on_block_lem :
      (buf : List ℕ) (s : Crack)
      → 2048 ≤ length buf
      → AllBytes buf
      → IsCrack pos len s
      → s.stop ≡ false
      → 0 < s.len
      → Passed s (on_block buf s)
  unfolding on_block
  on_block_lem buf s long bytes v going more = elim (Bool-cases (is_pack buf)) [
    | inr e ↦ rw (e) (v, λ h. absurd (cc))
    | inl e ↦ rw (e) (
      attacked-IsCrack buf s long bytes v going more,
      λ h. omega (arith, len_of_block buf s, ap passes_for_error (error_of_block buf s)),
    )
  ]

  other_state :
      (s : Crack) (error : Bool) (d : Dvdcss)
      → IsCrack pos len s
      → IsCrack pos len (record s { read_error = error; state = d })
  other_state s error d v = record {
    moved = v.moved;
    within = v.within;
    tried = v.tried;
    encrypted_in = v.encrypted_in;
    searching = v.searching;
    hit = v.hit;
  }

  on_error_lem : (s : Crack) → IsCrack pos len s → Passed s (on_error s)
  unfolding on_error
  on_error_lem s v = elim (Bool-cases s.read_error) [
    | inl e ↦ rw (e) (other_state s true s.state v, λ h. absurd (cc))
    | inr e ↦ rw (e) (other_state s true _ v, λ h. omega arith)
  ]

  module _ (drive : Drive) (reads_blocks : ReadsBlocks drive) where
    on_read_lem :
        (s : Crack) (log : List Command) (answer : Option (ℕ × List ℕ))
        → drive.blocks log ≡ answer
        → IsCrack pos len s
        → s.stop ≡ false
        → 0 < s.len
        → Passed s (on_read answer s)
    unfolding on_read
    on_read_lem s log none e v going more = on_error_lem s v
    on_read_lem s log (some (n, buf)) e v going more = elim (Bool-cases (n == 0)) [
      | inl z ↦ rw (z) (v, λ h. absurd (cc))
      | inr nz ↦
          let (long, bytes) = reads_blocks log n buf e (ground arith) in
          rw (nz) (on_block_lem buf s long bytes v going more)
    ]

    crack_pass_lem :
        (s : Crack) → IsCrack pos len s → s.stop ≡ false → 0 < s.len → Passed s (crack_pass drive s)
    unfolding crack_pass pf_read
    crack_pass_lem s v going more =
        let sought = (pf_seek drive s.pos s.state).1 in
        let read_state = (pf_read drive 1 sought).1 in
        let v' = other_state s s.read_error read_state v in
        on_read_lem (record s { state = read_state }) read_state.log _ refl v' going more

    stays :
        (left : Bool) (s : Crack)
        → (not left && goes_on s) ≡ true
        → (left ≡ false) × (s.stop ≡ false) × (0 < s.len)
    unfolding goes_on
    stays left s h = (ground arith, ground arith, ground arith)

    -- Enough fuel: the loop ends, with the invariant.
    crack_loop_lem :
        (fuel : ℕ) (s : Crack)
        → measure s < fuel
        → IsCrack pos len s
        → s.stop ≡ false
        → 0 < s.len
        → (s' : Crack) × (crack_loop drive fuel s ≡ some s') × IsCrack pos len s'
    unfolding crack_loop crack_pass on_read pf_read
    crack_loop_lem zero s room v going more = elim room [ ]
    crack_loop_lem (suc fuel) s room v going more =
        let (v', less) = crack_pass_lem s v going more in
        let left = (crack_pass drive s).0 in
        let next = (crack_pass drive s).1 in
        elim (Bool-cases (not left && goes_on next)) [
          | inr e ↦ rw (e) (next, refl, v')
          | inl e ↦
              let (staying, searching, blocks) = stays left next e in
              let (s', is, v'') =
                crack_loop_lem fuel next (omega (arith, less staying)) v' searching blocks in
              rw (e) (s', is, v'')
        ]

    conclude_lem :
        (s : Crack)
        → IsCrack pos len s
        → let c = conclude s in
          ((c.result ≡ key_found) × (s.attack.success ≡ 1) × IsKey c.key)
          ⊎ ((c.result ≡ key_absent) × (s.encrypted ≡ 0) × (0 < s.reads) × (c.key ≡ zero_key))
          ⊎ ((c.result ≡ key_failed) × (s.attack.success ≡ 0) × (c.key ≡ zero_key))
    unfolding conclude
    conclude_lem s v = elim (Bool-cases s.stop) [
      | inl stopped ↦
          let (one, is_key) = v.hit stopped in
          let positive : ltb 0 s.attack.success ≡ true = ground arith in
          rw (positive) (inl (refl, one, is_key))
      | inr searching ↦
          let none_yet = v.searching searching in
          let zero_success : ltb 0 s.attack.success ≡ false = ground arith in
          elim (Bool-cases (s.encrypted == 0 && ltb 0 s.reads)) [
            | inl e ↦ rw (zero_success, e) (inr (inl (refl, ground arith, ground arith, refl)))
            | inr e ↦ rw (zero_success, e) (inr (inr (refl, none_yet, refl)))
          ]
    ]

    pub crack_title_key_lem :
        (key : DvdKey) (d : Dvdcss)
        → 0 < len
        → (s : Crack) × (crack_loop drive (len + 2) (begin_crack pos len key d) ≡ some s)
          × (crack_title_key drive pos len key d ≡ some (conclude s))
          × IsCrack pos len s
          × Counts drive d.log s
          × ((((conclude s).result ≡ key_found) × (s.attack.success ≡ 1) × IsKey (conclude s).key)
              ⊎ (((conclude s).result ≡ key_absent)
                  × (s.encrypted ≡ 0)
                  × (0 < s.reads)
                  × ((conclude s).key ≡ zero_key))
              ⊎ (((conclude s).result ≡ key_failed)
                  × (s.attack.success ≡ 0)
                  × ((conclude s).key ≡ zero_key)))
    unfolding crack_title_key begin_crack conclude_some
    crack_title_key_lem key d more =
        let first = begin_crack pos len key d in
        let v : IsCrack pos len first = record {
          moved = omega arith;
          within = omega arith;
          tried = omega arith;
          encrypted_in = omega arith;
          searching = λ h. refl;
          hit = λ h. absurd (cc);
        } in
        let counts : Counts drive d.log first = record {
          reads_of = omega arith;
          encrypted_of = omega arith;
        } in
        let (s, is, v') = crack_loop_lem (len + 2) first (omega arith) v refl more in
        (
          s,
          is,
          ap conclude_some is,
          v',
          crack_loop-Counts drive d.log (len + 2) first s is counts,
          conclude_lem s v',
        )
