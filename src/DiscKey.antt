-- ===== src/DiscKey.antt =====
-- `DecryptDiscKey` of src/css.c: the disc key by the known player keys.
pub mod Laws
mod Tests
use libdvdcss.Common.{
  ℕ, zero, suc, ◌+◌, ◌*◌, Bool, true, false, ◌&&◌, Option, none, some, List, [], ◌∷◌, if◌then◌else◌,
  ◌==◌,
}
use libdvdcss.Keys.{DvdKey, key_at, zero_key}
use libdvdcss.DecryptKey.{decrypt_key}

abbrev key : ℕ → ℕ → ℕ → ℕ → ℕ → DvdKey
key a b c d e = record { k0 = a; k1 = b; k2 = c; k3 = d; k4 = e }

abbrev pub player_keys : List DvdKey
player_keys =
    key 0x01 0xaf 0xe3 0x12 0x80
    ∷ key 0x12 0x11 0xca 0x04 0x3b
    ∷ key 0x14 0x0c 0x9e 0xd0 0x09
    ∷ key 0x14 0x71 0x35 0xba 0xe2
    ∷ key 0x1a 0xa4 0x33 0x21 0xa6
    ∷ key 0x26 0xec 0xc4 0xa7 0x4e
    ∷ key 0x2c 0xb2 0xc1 0x09 0xee
    ∷ key 0x2f 0x25 0x9e 0x96 0xdd
    ∷ key 0x33 0x2f 0x49 0x6c 0xe0
    ∷ key 0x35 0x5b 0xc1 0x31 0x0f
    ∷ key 0x36 0x67 0xb2 0xe3 0x85
    ∷ key 0x39 0x3d 0xf1 0xf1 0xbd
    ∷ key 0x3b 0x31 0x34 0x0d 0x91
    ∷ key 0x45 0xed 0x28 0xeb 0xd3
    ∷ key 0x48 0xb7 0x6c 0xce 0x69
    ∷ key 0x4b 0x65 0x0d 0xc1 0xee
    ∷ key 0x4c 0xbb 0xf5 0x5b 0x23
    ∷ key 0x51 0x67 0x67 0xc5 0xe0
    ∷ key 0x53 0x94 0xe1 0x75 0xbf
    ∷ key 0x57 0x2c 0x8b 0x31 0xae
    ∷ key 0x63 0xdb 0x4c 0x5b 0x4a
    ∷ key 0x7b 0x1e 0x5e 0x2b 0x57
    ∷ key 0x85 0xf3 0x85 0xa0 0xe0
    ∷ key 0xab 0x1e 0xe7 0x7b 0x72
    ∷ key 0xab 0x36 0xe3 0xeb 0x76
    ∷ key 0xb1 0xb8 0xf9 0x38 0x03
    ∷ key 0xb8 0x5d 0xd8 0x53 0xbd
    ∷ key 0xbf 0x92 0xc3 0xb0 0xe2
    ∷ key 0xcf 0x1a 0xb2 0xf8 0x0a
    ∷ key 0xec 0xa0 0xcf 0xb3 0xff
    ∷ key 0xfc 0x95 0xa9 0x87 0x35
    ∷ []

-- `memcmp( a, b, DVD_KEY_SIZE ) == 0`
abbrev pub key_eq : DvdKey → DvdKey → Bool
key_eq a b = a.k0 == b.k0 && (a.k1 == b.k1 && (a.k2 == b.k2 && (a.k3 == b.k3 && a.k4 == b.k4)))

-- The block begins with the disc key encrypted with itself.
unfoldable pub verifies : List ℕ → DvdKey → Bool
verifies struct_disckey disc_key =
    key_eq disc_key (decrypt_key 0 disc_key (key_at struct_disckey 0))

-- The key that a player key gives at a position.
unfoldable pub candidate : List ℕ → DvdKey → ℕ → DvdKey
candidate struct_disckey player i = decrypt_key 0 player (key_at struct_disckey (5 * i))

-- The loop over the positions, with `left` of them to try.
unfoldable pub try_positions : ℕ → ℕ → DvdKey → List ℕ → Option DvdKey
try_positions zero i player struct_disckey = none
try_positions (suc left) i player struct_disckey =
    let rest = try_positions left (i + 1) player struct_disckey in
    let disc_key = candidate struct_disckey player i in
    if verifies struct_disckey disc_key then some disc_key else rest

-- The loop over the player keys.
unfoldable pub try_players : List DvdKey → List ℕ → Option DvdKey
try_players [] struct_disckey = none
try_players (player ∷ players) struct_disckey =
    let rest = try_players players struct_disckey in
    elim (try_positions 408 1 player struct_disckey) [ some disc_key ↦ some disc_key | none ↦ rest ]

-- Whether the call returns 0 (else -1), and `p_disc_key`.
unfoldable pub decrypt_disc_key : List ℕ → Bool × DvdKey
decrypt_disc_key struct_disckey = elim (try_players player_keys struct_disckey) [
  | some disc_key ↦ (true, disc_key)
  | none ↦ (false, zero_key)
]
