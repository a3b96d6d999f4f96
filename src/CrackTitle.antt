-- ===== src/CrackTitle.antt =====
-- `AttackPattern` and `CrackTitleKey` of src/css.c: a title key from the contents of a VOB.
pub mod Pattern
pub mod Success
pub mod Counts
pub mod Total
mod Tests
use libdvdcss.Common.{
  ℕ, zero, suc, ◌+◌, ◌-◌, ◌*◌, ◌/◌, ◌%◌, Bool, true, false, not, ◌&&◌, ◌||◌, Option, none, some,
  List, [], ◌∷◌, if◌then◌else◌, ltb, leb, ◌==◌, drop, ◌&◌,
}
use libdvdcss.Keys.{DvdKey, byte, key_at, zero_key}
use libdvdcss.Recover.{Recovered, recover_title_key}
use libdvdcss.Dvdcss.{Dvdcss, Drive, close_device, open_device, issue, is_some, pf_seek, pf_read}

-- `i_best_plen` and `i_best_p`.
pub record Best : Type 0 where
  pub plen : ℕ
  pub p : ℕ

-- The byte `j` before the end of the clear part is the one at its remainder by `i`.
unfoldable pub repeats : List ℕ → ℕ → ℕ → Bool
repeats sec i j = byte sec (0x7f - j % i) == byte sec (0x7f - j)

unfoldable pub improve : ℕ → ℕ → Best → Best
improve i j best = if ltb best.plen j then record { plen = j; p = i } else best

-- The loop over `j`, with `left` values to try.
unfoldable pub scan : List ℕ → (i left j : ℕ) → Best → Best
scan sec i zero j best = best
scan sec i (suc left) j best =
    let rest = scan sec i left (j + 1) (improve i j best) in if repeats sec i j then rest else best

-- The loop over `i`.
unfoldable pub scan_all : List ℕ → (left i : ℕ) → Best → Best
scan_all sec zero i best = best
scan_all sec (suc left) i best =
    scan_all sec left (i + 1) (scan sec i (0x80 - (i + 1)) (i + 1) best)

unfoldable pub best_pattern : List ℕ → Best
best_pattern sec = scan_all sec (0x30 - 2) 2 (record { plen = 0; p = 0 })

unfoldable pub is_enough : Best → Bool
is_enough best = ltb 3 best.plen && leb 2 (best.plen / best.p)

-- Where the guessed plain text stands.
unfoldable pub pattern_offset : Best → ℕ
pattern_offset best = 0x80 - best.plen / best.p * best.p

-- `i_tries`, `i_success` and `p_key`.
pub record Attack : Type 0 where
  pub tries : ℕ
  pub success : ℕ
  pub key : DvdKey

unfoldable pub recover_from : List ℕ → Best → Recovered
recover_from sec best =
    recover_title_key 0 (drop 0x80 sec) (drop (pattern_offset best) sec) (key_at sec 0x54) zero_key

-- The result, as a test, and the state after it.
unfoldable pub attack_pattern : List ℕ → Attack → Bool × Attack
attack_pattern sec a =
    let best = best_pattern sec in
    let r = recover_from sec best in
    let res = is_some r.exit in
    if is_enough best
    then (
      res,
      record { tries = a.tries + 1; success = a.success + (if res then 1 else 0); key = r.key },
    )
    else (false, a)

-- The variables of `CrackTitleKey` with the state that it works on.
pub record Crack : Type 0 where
  pub pos : ℕ
  pub len : ℕ
  pub reads : ℕ
  pub encrypted : ℕ
  pub stop : Bool
  pub read_error : Bool
  pub attack : Attack
  pub state : Dvdcss

-- `memcmp( p_buf, p_packstart, 3 ) == 0`
unfoldable pub is_pack : List ℕ → Bool
is_pack buf = byte buf 0 == 0x00 && (byte buf 1 == 0x00 && byte buf 2 == 0x01)

unfoldable pub can_be_scrambled : List ℕ → Bool
can_be_scrambled buf =
    not (byte buf 0x14 & 0x30 == 0)
    && not (byte buf 0x11 == 0xbb || (byte buf 0x11 == 0xbe || byte buf 0x11 == 0xbf))

-- A block that is read: the attack, the counters, and whether the loop is left.
unfoldable pub attack_block : List ℕ → Crack → Crack
attack_block buf s =
    let (hit, attack') = attack_pattern buf s.attack in
    if can_be_scrambled buf
    then record s { encrypted = s.encrypted + 1; attack = attack'; stop = s.stop || hit }
    else s

unfoldable pub count_block : Crack → Crack
count_block s = record s { pos = s.pos + 1; len = s.len - 1; reads = s.reads + 1 }

unfoldable pub on_block : List ℕ → Crack → Bool × Crack
on_block buf s =
    let s' = count_block (attack_block buf s) in
    if is_pack buf then (leb 2000 s'.reads && s'.encrypted == 0, s') else (true, s)

-- A read error: the drive is reset, once.
unfoldable pub on_error : Crack → Bool × Crack
on_error s = if s.read_error then (true, s) else (
  false,
  record s { read_error = true; state = issue open_device (issue close_device s.state) },
)

unfoldable pub on_read : Option (ℕ × List ℕ) → Crack → Bool × Crack
on_read none s = on_error s
on_read (some (blocks, buf)) s = if blocks == 0 then (true, s) else on_block buf s

-- One pass of the loop; the test says whether it is left by `break`. A seek that fails is only
-- reported.
unfoldable pub crack_pass : Drive → Crack → Bool × Crack
crack_pass drive s =
    let sought = (pf_seek drive s.pos s.state).1 in
    let (answer, state') = pf_read drive 1 sought in on_read answer (record s { state = state' })

-- `!b_stop_scanning && i_len > 0`
unfoldable pub goes_on : Crack → Bool
goes_on s = not s.stop && ltb 0 s.len

unfoldable pub crack_loop : Drive → ℕ → Crack → Option Crack
crack_loop drive zero s = none
crack_loop drive (suc fuel) s =
    let (left, s') = crack_pass drive s in
    elim (not left && goes_on s') [ true ↦ crack_loop drive fuel s' | false ↦ some s' ]

-- What `CrackTitleKey` and `dvdcss_titlekey` return: -1, 0 and 1.
pub data KeyResult : Type 0 where
  key_failed : KeyResult
  key_absent : KeyResult
  key_found : KeyResult

pub record Cracked : Type 0 where
  pub result : KeyResult
  pub key : DvdKey
  pub state : Dvdcss

unfoldable pub conclude : Crack → Cracked
conclude s =
    if ltb 0 s.attack.success
    then record { result = key_found; key = s.attack.key; state = s.state }
    else if s.encrypted == 0 && ltb 0 s.reads
    then record { result = key_absent; key = zero_key; state = s.state }
    else record { result = key_failed; key = zero_key; state = s.state }

unfoldable pub conclude_some : Option Crack → Option Cracked
conclude_some none = none
conclude_some (some s) = some (conclude s)

unfoldable pub begin_crack : ℕ → ℕ → DvdKey → Dvdcss → Crack
begin_crack pos len key d = record {
  pos = pos;
  len = len;
  reads = 0;
  encrypted = 0;
  stop = false;
  read_error = false;
  attack = record { tries = 0; success = 0; key = key };
  state = d;
}

-- Each pass but one takes a block off `len`, and the last one leaves the loop.
unfoldable pub crack_title_key : Drive → (pos len : ℕ) → DvdKey → Dvdcss → Option Cracked
crack_title_key drive pos len key d =
    conclude_some (crack_loop drive (len + 2) (begin_crack pos len key d))
