-- ===== src/Reading/Clients.antt =====
-- Clients of src/libdvdcss.c: any sequence of `dvdcss_seek`, `dvdcss_read` and
-- `dvdcss_readv`.
use libdvdcss.Common.{
  ℕ, Bool, true, false, Option, none, some, List, ◌∷◌, ◌≡◌, refl, sym, ◌∙◌, ap, inl, inr,
  Bool-cases, ◌==◌, ==_iff, ==→ne,
}
use libdvdcss.Keys.{DvdKey}
use mathlib.Core.Path.{subst}
use libdvdcss.Dvdcss.{Dvdcss, Drive, Command, seek, read, readv, pf_seek, pf_read, pf_readv, issue}
use libdvdcss.Readv.{VectorResult, gave, dvdcss_readv}
use libdvdcss.CrackTitle.Total.{ReadsBlocks}
use libdvdcss.Titles.{Library, Store, known_key}
use libdvdcss.Titles.Sorted.{IsSorted}
use libdvdcss.Titles.Known.{Adds, Titled, dvdcss_title_lem}
use libdvdcss.Reading.{SeekFlags, checks_title, seek_blocks, seek_after, dvdcss_seek, dvdcss_read}

module _ (drive : Drive) (crack_disc_key : DvdKey → Bool × DvdKey) (store : Store) where
  -- One call of a client, which changes the library's state. A `dvdcss_readv` that decrypts past the
  -- end of a buffer has no such state.
  pub data Call (l l' : Library) : Type 0 where
    calls_seek :
        (blocks : ℕ) (flags : SeekFlags) (reached : Option ℕ)
        → dvdcss_seek drive crack_disc_key store blocks flags l ≡ some (reached, l')
        → Call l l'
    calls_read :
        (blocks : ℕ) (decrypt : Bool)
        → l' ≡ record l { css = (dvdcss_read drive blocks decrypt l.css).1 }
        → Call l l'
    calls_readv :
        (lengths : List ℕ) (decrypt : Bool) (ret : Option ℕ) (buffers : List ℕ) (css : Dvdcss)
        → dvdcss_readv drive lengths decrypt l.css ≡ (gave ret buffers, css)
        → l' ≡ record l { css = css }
        → Call l l'

  pub data Reach (l : Library) : Library → Type 0 where
    here : Reach l l
    next : {m n : Library} → Reach l m → Call m n → Reach l n

  -- A scrambled disc with its list in order, and the keys that it had.
  pub record Sound (l l' : Library) : Type 0 where
    pub sorted : IsSorted l'.css.p_titles
    pub scrambled : l'.css.b_scrambled ≡ true
    pub keys_stay :
        (b : ℕ) (k : DvdKey)
        → known_key l.css.p_titles b ≡ some k
        → known_key l'.css.p_titles b ≡ some k

  -- What a seek must give when the title is checked: the title is in order, and on a success the
  -- drive was sent to the block last.
  abbrev pub Sought : ℕ → Library → Option ℕ × Library → Type 0
  Sought blocks l (none, l') = Sound l l'
  Sought blocks l (some reached, l') =
      Sound l l'
      × (known_key l'.css.p_titles blocks ≡ some l'.css.p_title_key)
      × ((log : List Command) × (l'.css.log ≡ seek blocks ∷ log)
          × (drive.position l'.css.log ≡ some reached))

  Adds-Sound : (block : ℕ) (l m : Library) → l.css.b_scrambled ≡ true → Adds block l m → Sound l m
  Adds-Sound block l m scrambled adds = record {
    sorted = adds.sorted;
    scrambled = adds.same_scrambling ∙ scrambled;
    keys_stay = λ b k known. elim (Bool-cases (block == b)) [
      | inl at ↦
          let same = (==_iff block b).0 at in
          ap (known_key m.css.p_titles) (sym same)
          ∙ adds.stays k (ap (known_key l.css.p_titles) same ∙ known)
      | inr away ↦ adds.others b (==→ne block b away) ∙ known
    ];
  }

  seek_blocks-Sought :
      (blocks : ℕ) (l m : Library)
      → Sound l m
      → known_key m.css.p_titles blocks ≡ some m.css.p_title_key
      → Sought blocks l (seek_blocks drive blocks m)
  unfolding seek_blocks pf_seek issue
  seek_blocks-Sought blocks l m s current = found (drive.position (seek blocks ∷ m.css.log)) refl
    where
      found :
          (reached : Option ℕ)
          → drive.position (seek blocks ∷ m.css.log) ≡ reached
          → Sought blocks l
              (reached, record m { css = record m.css { log = seek blocks ∷ m.css.log } })
      found none e = record { sorted = s.sorted; scrambled = s.scrambled; keys_stay = s.keys_stay }
      found (some reached) e = (
        record { sorted = s.sorted; scrambled = s.scrambled; keys_stay = s.keys_stay },
        current,
        (m.css.log, refl, e),
      )

  after_title :
      (blocks : ℕ) (l : Library) (r : Bool × Library)
      → l.css.b_scrambled ≡ true
      → Titled blocks l r
      → (s : Option ℕ × Library) × (seek_after drive blocks (some r) ≡ some s) × Sought blocks l s
  unfolding seek_after
  after_title blocks l (false, m) scrambled titled =
      (_, refl, Adds-Sound blocks l m scrambled titled.0)
  after_title blocks l (true, m) scrambled titled =
      (_, refl, seek_blocks-Sought blocks l m (Adds-Sound blocks l m scrambled titled.0) titled.1)

  module _ (reads : ReadsBlocks drive) where
    -- On a scrambled disc, with a sorted list of titles, a drive that reads whole blocks of bytes,
    -- and flags by which the title is checked, dvdcss_seek returns, the list stays sorted and no
    -- block loses or changes its key. If it returns a position, then the list has a key for the
    -- block, this is the current title key, and the last command sent the drive to the block,
    -- which answered with that position.
    pub dvdcss_seek_lem :
        (blocks : ℕ) (flags : SeekFlags) (l : Library)
        → IsSorted l.css.p_titles
        → l.css.b_scrambled ≡ true
        → checks_title flags l.css.method ≡ true
        → (s : Option ℕ × Library) × (dvdcss_seek drive crack_disc_key store blocks flags l
            ≡ some s)
          × Sought blocks l s
    unfolding dvdcss_seek
    dvdcss_seek_lem blocks flags l sorted scrambled checks =
        let (r, is, titled) =
          dvdcss_title_lem drive crack_disc_key store reads blocks l sorted scrambled in
        let (s, is', sought) = after_title blocks l r scrambled titled in
        rw (checks) (s, ap (seek_after drive blocks) is ∙ is', sought)

    Sought-Sound :
        (blocks : ℕ) (l : Library) (s : Option ℕ × Library) → Sought blocks l s → Sound l s.1
    Sought-Sound blocks l (none, m) sound = sound
    Sought-Sound blocks l (some reached, m) (sound, _, _) = sound

    log_only :
        (l m : Library) (log : List Command)
        → IsSorted l.css.p_titles
        → l.css.b_scrambled ≡ true
        → m ≡ record l { css = record l.css { log = log } }
        → Sound l m
    log_only l m log sorted scrambled e =
        subst (Sound l) (sym e)
          (record { sorted = sorted; scrambled = scrambled; keys_stay = λ b k known. known })

    result_of :
        (o : Option (Option ℕ × Library)) (s t : Option ℕ × Library)
        → o ≡ some s
        → o ≡ some t
        → t.1 ≡ s.1
    result_of o s t e f =
        let same : t ≡ s = cc (sym f ∙ e) in ap (λ (r : Option ℕ × Library). r.1) same

    Call-Sound :
        (l m : Library) → IsSorted l.css.p_titles → l.css.b_scrambled ≡ true → Call l m → Sound l m
    unfolding dvdcss_readv pf_readv dvdcss_read pf_read issue dvdcss_seek seek_blocks pf_seek
    Call-Sound l m sorted scrambled (calls_read blocks decrypt e) =
        log_only l m (read blocks ∷ l.css.log) sorted scrambled e
    Call-Sound l m sorted scrambled (calls_readv lengths decrypt ret buffers css e is) =
        let same = ap (λ (r : VectorResult × Dvdcss). r.1) e in
        log_only l m (readv lengths ∷ l.css.log) sorted scrambled
          (is ∙ ap (λ (d : Dvdcss). record l { css = d }) (sym same))
    Call-Sound l m sorted scrambled (calls_seek blocks flags reached e) =
        elim (Bool-cases (checks_title flags l.css.method)) [
          | inl checks ↦
              let (s, is, sought) = dvdcss_seek_lem blocks flags l sorted scrambled checks in
              subst (Sound l) (sym (result_of _ s (reached, m) is e))
                (Sought-Sound blocks l s sought)
          | inr skips ↦
              let direct : Option ℕ × Library = (
                drive.position (seek blocks ∷ l.css.log),
                record l { css = record l.css { log = seek blocks ∷ l.css.log } },
              ) in
              let is : dvdcss_seek drive crack_disc_key store blocks flags l ≡ some direct =
                rw (skips) refl in
              log_only l m (seek blocks ∷ l.css.log) sorted scrambled
                (result_of _ direct (reached, m) is e)
        ]

    -- Whatever a client seeks and reads, into one buffer or several, from a state with a scrambled
    -- disc and a sorted list of titles, on a drive that reads whole blocks of bytes: the list stays
    -- sorted, the disc stays scrambled, and a block keeps the key that it was once given. A
    -- dvdcss_readv that decrypts past the end of a buffer is not such a read.
    pub Reach-Sound :
        (l m : Library) → IsSorted l.css.p_titles → l.css.b_scrambled ≡ true → Reach l m → Sound l m
    Reach-Sound l m sorted scrambled here = record {
      sorted = sorted;
      scrambled = scrambled;
      keys_stay = λ b k known. known;
    }
    Reach-Sound l m sorted scrambled (next r c) =
        let before = Reach-Sound l _ sorted scrambled r in
        let after = Call-Sound _ m before.sorted before.scrambled c in
        record {
          sorted = after.sorted;
          scrambled = after.scrambled;
          keys_stay = λ b k known. after.keys_stay b k (before.keys_stay b k known);
        }
