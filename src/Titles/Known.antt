-- ===== src/Titles/Known.antt =====
-- What `dvdcss_title` of src/css.c does to the list of titles and to the current key.
use libdvdcss.Common.{
  ℕ, Bool, true, false, Option, none, some, ◌≡◌, ◌≢◌, refl, sym, ◌∙◌, ap, inl, inr, Bool-cases,
  ne→==, eq→==, if◌then◌else◌,
}
use libdvdcss.Keys.{DvdKey}
use mathlib.Core.Path.{subst}
use libdvdcss.Dvdcss.{Dvdcss, Drive, DvdTitle}
use libdvdcss.CrackTitle.{KeyResult, key_failed, key_absent, key_found}
use libdvdcss.CrackTitle.Total.{ReadsBlocks}
use libdvdcss.TitleKeys.Frame.{dvdcss_titlekey-Keeps}
use libdvdcss.Titles.{
  Library, Store, known_key, find_cached, enter_title, cache_key, write_file, on_titlekey,
  on_cracked, obtain_title, look_up_title, dvdcss_title,
}
use libdvdcss.Titles.Sorted.{IsSorted, insert_title_lem}

-- From `l` to `l'`: a title is only added, at the block `block`.
pub record Adds (block : ℕ) (l l' : Library) : Type 0 where
  pub sorted : IsSorted l'.css.p_titles
  pub others : (b : ℕ) → block ≢ b → known_key l'.css.p_titles b ≡ known_key l.css.p_titles b
  pub stays :
      (k : DvdKey)
      → known_key l.css.p_titles block ≡ some k
      → known_key l'.css.p_titles block ≡ some k
  pub same_scrambling : l'.css.b_scrambled ≡ l.css.b_scrambled
  pub same_caching : l'.caching ≡ l.caching

-- What dvdcss_title must give: on a success the block has a key, which is the current one; a
-- failure is one of a block without a key, and leaves the list as it was.
abbrev pub Titled : ℕ → Library → Bool × Library → Type 0
Titled block l (true, l') =
    Adds block l l' × (known_key l'.css.p_titles block ≡ some l'.css.p_title_key)
Titled block l (false, l') =
    Adds block l l' × (known_key l.css.p_titles block ≡ none) × (l'.css.p_titles ≡ l.css.p_titles)

cache_key-lem :
    (store : Store) (block : ℕ) (key : DvdKey) (l : Library)
    → ((cache_key store block key l).css ≡ l.css)
      × ((cache_key store block key l).caching ≡ l.caching)
unfolding cache_key write_file
cache_key-lem store block key l = elim (Bool-cases l.caching) [
  | inl e ↦ rw (e) (refl, refl)
  | inr e ↦ rw (e) (refl, refl)
]

-- A key is entered at a block without one.
enter_title-Titled :
    (block : ℕ) (key : DvdKey) (l m : Library)
    → IsSorted l.css.p_titles
    → known_key l.css.p_titles block ≡ none
    → m.css.p_titles ≡ l.css.p_titles
    → m.css.b_scrambled ≡ l.css.b_scrambled
    → m.caching ≡ l.caching
    → Titled block l (true, enter_title block key m)
unfolding enter_title
enter_title-Titled block key l m sorted absent titles flag caching =
    let t : DvdTitle = record { startlb = block; key = key } in
    let sorted' = subst IsSorted (sym titles) sorted in
    let absent' = ap (λ ts. known_key ts block) titles ∙ absent in
    let (is_sorted, finds) = insert_title_lem t m.css.p_titles sorted' absent' in
    (
      record {
        sorted = is_sorted;
        others = λ b away. finds b ∙ rw (ne→== block b away) (ap (λ ts. known_key ts b) titles);
        stays = λ k present. absurd (cc (sym present ∙ absent));
        same_scrambling = flag;
        same_caching = caching;
      },
      finds block ∙ rw (eq→== block block refl) refl,
    )

module _ (drive : Drive) (crack_disc_key : DvdKey → Bool × DvdKey) (store : Store) where
  unchanged :
      (block : ℕ) (l m : Library)
      → IsSorted l.css.p_titles
      → known_key l.css.p_titles block ≡ none
      → m.css.p_titles ≡ l.css.p_titles
      → m.css.b_scrambled ≡ l.css.b_scrambled
      → m.caching ≡ l.caching
      → Titled block l (false, m)
  unchanged block l m sorted absent titles flag caching = (
    record {
      sorted = subst IsSorted (sym titles) sorted;
      others = λ b away. ap (λ ts. known_key ts b) titles;
      stays = λ k present. absurd (cc (sym present ∙ absent));
      same_scrambling = flag;
      same_caching = caching;
    },
    absent,
    titles,
  )

  cached_and_entered :
      (block : ℕ) (key : DvdKey) (l m : Library)
      → IsSorted l.css.p_titles
      → known_key l.css.p_titles block ≡ none
      → m.css.p_titles ≡ l.css.p_titles
      → m.css.b_scrambled ≡ l.css.b_scrambled
      → m.caching ≡ l.caching
      → Titled block l (true, enter_title block key (cache_key store block key m))
  cached_and_entered block key l m sorted absent titles flag caching =
      let (css, same) = cache_key-lem store block key m in
      enter_title-Titled block key l (cache_key store block key m) sorted absent
        (ap (λ (d : Dvdcss). d.p_titles) css ∙ titles)
        (ap (λ (d : Dvdcss). d.b_scrambled) css ∙ flag) (same ∙ caching)

  on_titlekey-Titled :
      (block : ℕ) (result : KeyResult) (key : DvdKey) (l m : Library)
      → IsSorted l.css.p_titles
      → known_key l.css.p_titles block ≡ none
      → m.css.p_titles ≡ l.css.p_titles
      → m.css.b_scrambled ≡ l.css.b_scrambled
      → m.caching ≡ l.caching
      → Titled block l (on_titlekey store block result key m)
  unfolding on_titlekey
  on_titlekey-Titled block key_failed key l m sorted absent titles flag caching =
      unchanged block l m sorted absent titles flag caching
  on_titlekey-Titled block key_absent key l m sorted absent titles flag caching =
      cached_and_entered block key l m sorted absent titles flag caching
  on_titlekey-Titled block key_found key l m sorted absent titles flag caching =
      cached_and_entered block key l m sorted absent titles flag caching

  module _ (reads : ReadsBlocks drive) where
    -- The result of a search, with what it must give.
    abbrev pub Returns : ℕ → Library → Option (Bool × Library) → Type 0
    Returns block l o = (r : Bool × Library) × (o ≡ some r) × Titled block l r

    obtain_title-Returns :
        (block : ℕ) (cached : Option DvdKey) (l : Library)
        → IsSorted l.css.p_titles
        → known_key l.css.p_titles block ≡ none
        → Returns block l (obtain_title drive crack_disc_key store block cached l)
    unfolding obtain_title on_cracked
    obtain_title-Returns block (some key) l sorted absent =
        (_, refl, enter_title-Titled block key l l sorted absent refl refl refl)
    obtain_title-Returns block none l sorted absent =
        let (c, is, keeps) = dvdcss_titlekey-Keeps drive crack_disc_key reads block l.css in
        rw (is) (
          _,
          refl,
          on_titlekey-Titled block c.result c.key l (record l { css = c.state }) sorted absent
              keeps.titles keeps.scrambling refl,
        )

    look_up_title-Returns :
        (block : ℕ) (known : Option DvdKey) (l : Library)
        → IsSorted l.css.p_titles
        → known_key l.css.p_titles block ≡ known
        → Returns block l (look_up_title drive crack_disc_key store block known l)
    unfolding look_up_title
    look_up_title-Returns block none l sorted e =
        obtain_title-Returns block (find_cached block l) l sorted e
    look_up_title-Returns block (some key) l sorted e = (
      _,
      refl,
      (
        record {
          sorted = sorted;
          others = λ b away. refl;
          stays = λ k present. present;
          same_scrambling = refl;
          same_caching = refl;
        },
        e,
      ),
    )

    -- On a scrambled disc, with a sorted list of titles and a drive that reads whole blocks of
    -- bytes, dvdcss_title returns. The list stays sorted and the keys of other blocks stay as they
    -- are, and so does the key of the block if it has one. If dvdcss_title returns 0, the list has
    -- a key for the block, which is the current title key. If it fails, there was no key for the
    -- block, and the list is as it was.
    pub dvdcss_title_lem :
        (block : ℕ) (l : Library)
        → IsSorted l.css.p_titles
        → l.css.b_scrambled ≡ true
        → Returns block l (dvdcss_title drive crack_disc_key store block l)
    unfolding dvdcss_title
    dvdcss_title_lem block l sorted scrambled =
        let known = known_key l.css.p_titles block in
        let result = look_up_title drive crack_disc_key store block known l in
        let (r, is, titled) = look_up_title-Returns block known l sorted refl in
        (r, ap (λ (b : Bool). if b then result else some (true, l)) scrambled ∙ is, titled)

  known_title :
      (block : ℕ) (l : Library)
      → known_key l.css.p_titles block ≡ some l.css.p_title_key
      → dvdcss_title drive crack_disc_key store block l ≡ some (true, l)
  unfolding dvdcss_title look_up_title
  known_title block l known = elim (Bool-cases l.css.b_scrambled) [
    | inl e ↦ rw (e, known) refl
    | inr e ↦ rw (e) refl
  ]

  -- After a dvdcss_title that returned 0, on a scrambled disc with a sorted list of titles and a
  -- drive that reads whole blocks of bytes, another dvdcss_title of that block returns 0, changes
  -- nothing and sends no command to the drive.
  pub dvdcss_title_again :
      (block : ℕ) (l m : Library)
      → ReadsBlocks drive
      → IsSorted l.css.p_titles
      → l.css.b_scrambled ≡ true
      → dvdcss_title drive crack_disc_key store block l ≡ some (true, m)
      → dvdcss_title drive crack_disc_key store block m ≡ some (true, m)
  dvdcss_title_again block l m reads sorted scrambled e =
      let (r, is, titled) = dvdcss_title_lem reads block l sorted scrambled in
      let same : r ≡ (true, m) = cc (sym is ∙ e) in
      let titled' : Titled block l (true, m) = subst (Titled block l) same titled in
      known_title block m titled'.1
