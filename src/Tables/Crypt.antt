-- ===== src/Tables/Crypt.antt =====
-- The tables of src/csstables.h for the authentication, and reads of them.
use libdvdcss.Common.{ℕ, List, [], ◌∷◌, get_or}

abbrev pub p_crypt_tab0 : List ℕ
p_crypt_tab0 =
    0xb7 ∷ 0xf4 ∷ 0x82 ∷ 0x57 ∷ 0xda ∷ 0x4d ∷ 0xdb ∷ 0xe2 ∷ 0x2f ∷ 0x52 ∷ 0x1a ∷ 0xa8 ∷ 0x68 ∷ 0x5a
    ∷ 0x8a ∷ 0xff ∷ 0xfb ∷ 0x0e ∷ 0x6d ∷ 0x35 ∷ 0xf7 ∷ 0x5c ∷ 0x76 ∷ 0x12 ∷ 0xce ∷ 0x25 ∷ 0x79
    ∷ 0x29 ∷ 0x39 ∷ 0x62 ∷ 0x08 ∷ 0x24 ∷ 0xa5 ∷ 0x85 ∷ 0x7b ∷ 0x56 ∷ 0x01 ∷ 0x23 ∷ 0x68 ∷ 0xcf
    ∷ 0x0a ∷ 0xe2 ∷ 0x5a ∷ 0xed ∷ 0x3d ∷ 0x59 ∷ 0xb0 ∷ 0xa9 ∷ 0xb0 ∷ 0x2c ∷ 0xf2 ∷ 0xb8 ∷ 0xef
    ∷ 0x32 ∷ 0xa9 ∷ 0x40 ∷ 0x80 ∷ 0x71 ∷ 0xaf ∷ 0x1e ∷ 0xde ∷ 0x8f ∷ 0x58 ∷ 0x88 ∷ 0xb8 ∷ 0x3a
    ∷ 0xd0 ∷ 0xfc ∷ 0xc4 ∷ 0x1e ∷ 0xb5 ∷ 0xa0 ∷ 0xbb ∷ 0x3b ∷ 0x0f ∷ 0x01 ∷ 0x7e ∷ 0x1f ∷ 0x9f
    ∷ 0xd9 ∷ 0xaa ∷ 0xb8 ∷ 0x3d ∷ 0x9d ∷ 0x74 ∷ 0x1e ∷ 0x25 ∷ 0xdb ∷ 0x37 ∷ 0x56 ∷ 0x8f ∷ 0x16
    ∷ 0xba ∷ 0x49 ∷ 0x2b ∷ 0xac ∷ 0xd0 ∷ 0xbd ∷ 0x95 ∷ 0x20 ∷ 0xbe ∷ 0x7a ∷ 0x28 ∷ 0xd0 ∷ 0x51
    ∷ 0x64 ∷ 0x63 ∷ 0x1c ∷ 0x7f ∷ 0x66 ∷ 0x10 ∷ 0xbb ∷ 0xc4 ∷ 0x56 ∷ 0x1a ∷ 0x04 ∷ 0x6e ∷ 0x0a
    ∷ 0xec ∷ 0x9c ∷ 0xd6 ∷ 0xe8 ∷ 0x9a ∷ 0x7a ∷ 0xcf ∷ 0x8c ∷ 0xdb ∷ 0xb1 ∷ 0xef ∷ 0x71 ∷ 0xde
    ∷ 0x31 ∷ 0xff ∷ 0x54 ∷ 0x3e ∷ 0x5e ∷ 0x07 ∷ 0x69 ∷ 0x96 ∷ 0xb0 ∷ 0xcf ∷ 0xdd ∷ 0x9e ∷ 0x47
    ∷ 0xc7 ∷ 0x96 ∷ 0x8f ∷ 0xe4 ∷ 0x2b ∷ 0x59 ∷ 0xc6 ∷ 0xee ∷ 0xb9 ∷ 0x86 ∷ 0x9a ∷ 0x64 ∷ 0x84
    ∷ 0x72 ∷ 0xe2 ∷ 0x5b ∷ 0xa2 ∷ 0x96 ∷ 0x58 ∷ 0x99 ∷ 0x50 ∷ 0x03 ∷ 0xf5 ∷ 0x38 ∷ 0x4d ∷ 0x02
    ∷ 0x7d ∷ 0xe7 ∷ 0x7d ∷ 0x75 ∷ 0xa7 ∷ 0xb8 ∷ 0x67 ∷ 0x87 ∷ 0x84 ∷ 0x3f ∷ 0x1d ∷ 0x11 ∷ 0xe5
    ∷ 0xfc ∷ 0x1e ∷ 0xd3 ∷ 0x83 ∷ 0x16 ∷ 0xa5 ∷ 0x29 ∷ 0xf6 ∷ 0xc7 ∷ 0x15 ∷ 0x61 ∷ 0x29 ∷ 0x1a
    ∷ 0x43 ∷ 0x4f ∷ 0x9b ∷ 0xaf ∷ 0xc5 ∷ 0x87 ∷ 0x34 ∷ 0x6c ∷ 0x0f ∷ 0x3b ∷ 0xa8 ∷ 0x1d ∷ 0x45
    ∷ 0x58 ∷ 0x25 ∷ 0xdc ∷ 0xa8 ∷ 0xa3 ∷ 0x3b ∷ 0xd1 ∷ 0x79 ∷ 0x1b ∷ 0x48 ∷ 0xf2 ∷ 0xe9 ∷ 0x93
    ∷ 0x1f ∷ 0xfc ∷ 0xdb ∷ 0x2a ∷ 0x90 ∷ 0xa9 ∷ 0x8a ∷ 0x3d ∷ 0x39 ∷ 0x18 ∷ 0xa3 ∷ 0x8e ∷ 0x58
    ∷ 0x6c ∷ 0xe0 ∷ 0x12 ∷ 0xbb ∷ 0x25 ∷ 0xcd ∷ 0x71 ∷ 0x22 ∷ 0xa2 ∷ 0x64 ∷ 0xc6 ∷ 0xe7 ∷ 0xfb
    ∷ 0xad ∷ 0x94 ∷ 0x77 ∷ 0x04 ∷ 0x9a ∷ 0x39 ∷ 0xcf ∷ 0x7c ∷ []

unfoldable pub crypt_tab0 : ℕ → ℕ
crypt_tab0 i = get_or p_crypt_tab0 i 0

abbrev pub p_crypt_tab1 : List ℕ
p_crypt_tab1 =
    0x8c ∷ 0x47 ∷ 0xb0 ∷ 0xe1 ∷ 0xeb ∷ 0xfc ∷ 0xeb ∷ 0x56 ∷ 0x10 ∷ 0xe5 ∷ 0x2c ∷ 0x1a ∷ 0x5d ∷ 0xef
    ∷ 0xbe ∷ 0x4f ∷ 0x08 ∷ 0x75 ∷ 0x97 ∷ 0x4b ∷ 0x0e ∷ 0x25 ∷ 0x8e ∷ 0x6e ∷ 0x39 ∷ 0x5a ∷ 0x87
    ∷ 0x53 ∷ 0xc4 ∷ 0x1f ∷ 0xf4 ∷ 0x5c ∷ 0x4e ∷ 0xe6 ∷ 0x99 ∷ 0x30 ∷ 0xe0 ∷ 0x42 ∷ 0x88 ∷ 0xab
    ∷ 0xe5 ∷ 0x85 ∷ 0xbc ∷ 0x8f ∷ 0xd8 ∷ 0x3c ∷ 0x54 ∷ 0xc9 ∷ 0x53 ∷ 0x47 ∷ 0x18 ∷ 0xd6 ∷ 0x06
    ∷ 0x5b ∷ 0x41 ∷ 0x2c ∷ 0x67 ∷ 0x1e ∷ 0x41 ∷ 0x74 ∷ 0x33 ∷ 0xe2 ∷ 0xb4 ∷ 0xe0 ∷ 0x23 ∷ 0x29
    ∷ 0x42 ∷ 0xea ∷ 0x55 ∷ 0x0f ∷ 0x25 ∷ 0xb4 ∷ 0x24 ∷ 0x2c ∷ 0x99 ∷ 0x13 ∷ 0xeb ∷ 0x0a ∷ 0x0b
    ∷ 0xc9 ∷ 0xf9 ∷ 0x63 ∷ 0x67 ∷ 0x43 ∷ 0x2d ∷ 0xc7 ∷ 0x7d ∷ 0x07 ∷ 0x60 ∷ 0x89 ∷ 0xd1 ∷ 0xcc
    ∷ 0xe7 ∷ 0x94 ∷ 0x77 ∷ 0x74 ∷ 0x9b ∷ 0x7e ∷ 0xd7 ∷ 0xe6 ∷ 0xff ∷ 0xbb ∷ 0x68 ∷ 0x14 ∷ 0x1e
    ∷ 0xa3 ∷ 0x25 ∷ 0xde ∷ 0x3a ∷ 0xa3 ∷ 0x54 ∷ 0x7b ∷ 0x87 ∷ 0x9d ∷ 0x50 ∷ 0xca ∷ 0x27 ∷ 0xc3
    ∷ 0xa4 ∷ 0x50 ∷ 0x91 ∷ 0x27 ∷ 0xd4 ∷ 0xb0 ∷ 0x82 ∷ 0x41 ∷ 0x97 ∷ 0x79 ∷ 0x94 ∷ 0x82 ∷ 0xac
    ∷ 0xc7 ∷ 0x8e ∷ 0xa5 ∷ 0x4e ∷ 0xaa ∷ 0x78 ∷ 0x9e ∷ 0xe0 ∷ 0x42 ∷ 0xba ∷ 0x28 ∷ 0xea ∷ 0xb7
    ∷ 0x74 ∷ 0xad ∷ 0x35 ∷ 0xda ∷ 0x92 ∷ 0x60 ∷ 0x7e ∷ 0xd2 ∷ 0x0e ∷ 0xb9 ∷ 0x24 ∷ 0x5e ∷ 0x39
    ∷ 0x4f ∷ 0x5e ∷ 0x63 ∷ 0x09 ∷ 0xb5 ∷ 0xfa ∷ 0xbf ∷ 0xf1 ∷ 0x22 ∷ 0x55 ∷ 0x1c ∷ 0xe2 ∷ 0x25
    ∷ 0xdb ∷ 0xc5 ∷ 0xd8 ∷ 0x50 ∷ 0x03 ∷ 0x98 ∷ 0xc4 ∷ 0xac ∷ 0x2e ∷ 0x11 ∷ 0xb4 ∷ 0x38 ∷ 0x4d
    ∷ 0xd0 ∷ 0xb9 ∷ 0xfc ∷ 0x2d ∷ 0x3c ∷ 0x08 ∷ 0x04 ∷ 0x5a ∷ 0xef ∷ 0xce ∷ 0x32 ∷ 0xfb ∷ 0x4c
    ∷ 0x92 ∷ 0x1e ∷ 0x4b ∷ 0xfb ∷ 0x1a ∷ 0xd0 ∷ 0xe2 ∷ 0x3e ∷ 0xda ∷ 0x6e ∷ 0x7c ∷ 0x4d ∷ 0x56
    ∷ 0xc3 ∷ 0x3f ∷ 0x42 ∷ 0xb1 ∷ 0x3a ∷ 0x23 ∷ 0x4d ∷ 0x6e ∷ 0x84 ∷ 0x56 ∷ 0x68 ∷ 0xf4 ∷ 0x0e
    ∷ 0x03 ∷ 0x64 ∷ 0xd0 ∷ 0xa9 ∷ 0x92 ∷ 0x2f ∷ 0x8b ∷ 0xbc ∷ 0x39 ∷ 0x9c ∷ 0xac ∷ 0x09 ∷ 0x5e
    ∷ 0xee ∷ 0xe5 ∷ 0x97 ∷ 0xbf ∷ 0xa5 ∷ 0xce ∷ 0xfa ∷ 0x28 ∷ 0x2c ∷ 0x6d ∷ 0x4f ∷ 0xef ∷ 0x77
    ∷ 0xaa ∷ 0x1b ∷ 0x79 ∷ 0x8e ∷ 0x97 ∷ 0xb4 ∷ 0xc3 ∷ 0xf4 ∷ []

unfoldable pub crypt_tab1 : ℕ → ℕ
crypt_tab1 i = get_or p_crypt_tab1 i 0

abbrev pub p_crypt_tab2 : List ℕ
p_crypt_tab2 =
    0xb7 ∷ 0x75 ∷ 0x81 ∷ 0xd5 ∷ 0xdc ∷ 0xca ∷ 0xde ∷ 0x66 ∷ 0x23 ∷ 0xdf ∷ 0x15 ∷ 0x26 ∷ 0x62 ∷ 0xd1
    ∷ 0x83 ∷ 0x77 ∷ 0xe3 ∷ 0x97 ∷ 0x76 ∷ 0xaf ∷ 0xe9 ∷ 0xc3 ∷ 0x6b ∷ 0x8e ∷ 0xda ∷ 0xb0 ∷ 0x6e
    ∷ 0xbf ∷ 0x2b ∷ 0xf1 ∷ 0x19 ∷ 0xb4 ∷ 0x95 ∷ 0x34 ∷ 0x48 ∷ 0xe4 ∷ 0x37 ∷ 0x94 ∷ 0x5d ∷ 0x7b
    ∷ 0x36 ∷ 0x5f ∷ 0x65 ∷ 0x53 ∷ 0x07 ∷ 0xe2 ∷ 0x89 ∷ 0x11 ∷ 0x98 ∷ 0x85 ∷ 0xd9 ∷ 0x12 ∷ 0xc1
    ∷ 0x9d ∷ 0x84 ∷ 0xec ∷ 0xa4 ∷ 0xd4 ∷ 0x88 ∷ 0xb8 ∷ 0xfc ∷ 0x2c ∷ 0x79 ∷ 0x28 ∷ 0xd8 ∷ 0xdb
    ∷ 0xb3 ∷ 0x1e ∷ 0xa2 ∷ 0xf9 ∷ 0xd0 ∷ 0x44 ∷ 0xd7 ∷ 0xd6 ∷ 0x60 ∷ 0xef ∷ 0x14 ∷ 0xf4 ∷ 0xf6
    ∷ 0x31 ∷ 0xd2 ∷ 0x41 ∷ 0x46 ∷ 0x67 ∷ 0x0a ∷ 0xe1 ∷ 0x58 ∷ 0x27 ∷ 0x43 ∷ 0xa3 ∷ 0xf8 ∷ 0xe0
    ∷ 0xc8 ∷ 0xba ∷ 0x5a ∷ 0x5c ∷ 0x80 ∷ 0x6c ∷ 0xc6 ∷ 0xf2 ∷ 0xe8 ∷ 0xad ∷ 0x7d ∷ 0x04 ∷ 0x0d
    ∷ 0xb9 ∷ 0x3c ∷ 0xc2 ∷ 0x25 ∷ 0xbd ∷ 0x49 ∷ 0x63 ∷ 0x8c ∷ 0x9f ∷ 0x51 ∷ 0xce ∷ 0x20 ∷ 0xc5
    ∷ 0xa1 ∷ 0x50 ∷ 0x92 ∷ 0x2d ∷ 0xdd ∷ 0xbc ∷ 0x8d ∷ 0x4f ∷ 0x9a ∷ 0x71 ∷ 0x2f ∷ 0x30 ∷ 0x1d
    ∷ 0x73 ∷ 0x39 ∷ 0x13 ∷ 0xfb ∷ 0x1a ∷ 0xcb ∷ 0x24 ∷ 0x59 ∷ 0xfe ∷ 0x05 ∷ 0x96 ∷ 0x57 ∷ 0x0f
    ∷ 0x1f ∷ 0xcf ∷ 0x54 ∷ 0xbe ∷ 0xf5 ∷ 0x06 ∷ 0x1b ∷ 0xb2 ∷ 0x6d ∷ 0xd3 ∷ 0x4d ∷ 0x32 ∷ 0x56
    ∷ 0x21 ∷ 0x33 ∷ 0x0b ∷ 0x52 ∷ 0xe7 ∷ 0xab ∷ 0xeb ∷ 0xa6 ∷ 0x74 ∷ 0x00 ∷ 0x4c ∷ 0xb1 ∷ 0x7f
    ∷ 0x82 ∷ 0x99 ∷ 0x87 ∷ 0x0e ∷ 0x5e ∷ 0xc0 ∷ 0x8f ∷ 0xee ∷ 0x6f ∷ 0x55 ∷ 0xf3 ∷ 0x7e ∷ 0x08
    ∷ 0x90 ∷ 0xfa ∷ 0xb6 ∷ 0x64 ∷ 0x70 ∷ 0x47 ∷ 0x4a ∷ 0x17 ∷ 0xa7 ∷ 0xb5 ∷ 0x40 ∷ 0x8a ∷ 0x38
    ∷ 0xe5 ∷ 0x68 ∷ 0x3e ∷ 0x8b ∷ 0x69 ∷ 0xaa ∷ 0x9b ∷ 0x42 ∷ 0xa5 ∷ 0x10 ∷ 0x01 ∷ 0x35 ∷ 0xfd
    ∷ 0x61 ∷ 0x9e ∷ 0xe6 ∷ 0x16 ∷ 0x9c ∷ 0x86 ∷ 0xed ∷ 0xcd ∷ 0x2e ∷ 0xff ∷ 0xc4 ∷ 0x5b ∷ 0xa0
    ∷ 0xae ∷ 0xcc ∷ 0x4b ∷ 0x3b ∷ 0x03 ∷ 0xbb ∷ 0x1c ∷ 0x2a ∷ 0xac ∷ 0x0c ∷ 0x3f ∷ 0x93 ∷ 0xc7
    ∷ 0x72 ∷ 0x7a ∷ 0x09 ∷ 0x22 ∷ 0x3d ∷ 0x45 ∷ 0x78 ∷ 0xa9 ∷ 0xa8 ∷ 0xea ∷ 0xc9 ∷ 0x6a ∷ 0xf7
    ∷ 0x29 ∷ 0x91 ∷ 0xf0 ∷ 0x02 ∷ 0x18 ∷ 0x3a ∷ 0x4e ∷ 0x7c ∷ []

unfoldable pub crypt_tab2 : ℕ → ℕ
crypt_tab2 i = get_or p_crypt_tab2 i 0

abbrev pub p_crypt_tab3 : List ℕ
p_crypt_tab3 =
    0x73 ∷ 0x51 ∷ 0x95 ∷ 0xe1 ∷ 0x12 ∷ 0xe4 ∷ 0xc0 ∷ 0x58 ∷ 0xee ∷ 0xf2 ∷ 0x08 ∷ 0x1b ∷ 0xa9 ∷ 0xfa
    ∷ 0x98 ∷ 0x4c ∷ 0xa7 ∷ 0x33 ∷ 0xe2 ∷ 0x1b ∷ 0xa7 ∷ 0x6d ∷ 0xf5 ∷ 0x30 ∷ 0x97 ∷ 0x1d ∷ 0xf3
    ∷ 0x02 ∷ 0x60 ∷ 0x5a ∷ 0x82 ∷ 0x0f ∷ 0x91 ∷ 0xd0 ∷ 0x9c ∷ 0x10 ∷ 0x39 ∷ 0x7a ∷ 0x83 ∷ 0x85
    ∷ 0x3b ∷ 0xb2 ∷ 0xb8 ∷ 0xae ∷ 0x0c ∷ 0x09 ∷ 0x52 ∷ 0xea ∷ 0x1c ∷ 0xe1 ∷ 0x8d ∷ 0x66 ∷ 0x4f
    ∷ 0xf3 ∷ 0xda ∷ 0x92 ∷ 0x29 ∷ 0xb9 ∷ 0xd5 ∷ 0xc5 ∷ 0x77 ∷ 0x47 ∷ 0x22 ∷ 0x53 ∷ 0x14 ∷ 0xf7
    ∷ 0xaf ∷ 0x22 ∷ 0x64 ∷ 0xdf ∷ 0xc6 ∷ 0x72 ∷ 0x12 ∷ 0xf3 ∷ 0x75 ∷ 0xda ∷ 0xd7 ∷ 0xd7 ∷ 0xe5
    ∷ 0x02 ∷ 0x9e ∷ 0xed ∷ 0xda ∷ 0xdb ∷ 0x4c ∷ 0x47 ∷ 0xce ∷ 0x91 ∷ 0x06 ∷ 0x06 ∷ 0x6d ∷ 0x55
    ∷ 0x8b ∷ 0x19 ∷ 0xc9 ∷ 0xef ∷ 0x8c ∷ 0x80 ∷ 0x1a ∷ 0x0e ∷ 0xee ∷ 0x4b ∷ 0xab ∷ 0xf2 ∷ 0x08
    ∷ 0x5c ∷ 0xe9 ∷ 0x37 ∷ 0x26 ∷ 0x5e ∷ 0x9a ∷ 0x90 ∷ 0x00 ∷ 0xf3 ∷ 0x0d ∷ 0xb2 ∷ 0xa6 ∷ 0xa3
    ∷ 0xf7 ∷ 0x26 ∷ 0x17 ∷ 0x48 ∷ 0x88 ∷ 0xc9 ∷ 0x0e ∷ 0x2c ∷ 0xc9 ∷ 0x02 ∷ 0xe7 ∷ 0x18 ∷ 0x05
    ∷ 0x4b ∷ 0xf3 ∷ 0x39 ∷ 0xe1 ∷ 0x20 ∷ 0x02 ∷ 0x0d ∷ 0x40 ∷ 0xc7 ∷ 0xca ∷ 0xb9 ∷ 0x48 ∷ 0x30
    ∷ 0x57 ∷ 0x67 ∷ 0xcc ∷ 0x06 ∷ 0xbf ∷ 0xac ∷ 0x81 ∷ 0x08 ∷ 0x24 ∷ 0x7a ∷ 0xd4 ∷ 0x8b ∷ 0x19
    ∷ 0x8e ∷ 0xac ∷ 0xb4 ∷ 0x5a ∷ 0x0f ∷ 0x73 ∷ 0x13 ∷ 0xac ∷ 0x9e ∷ 0xda ∷ 0xb6 ∷ 0xb8 ∷ 0x96
    ∷ 0x5b ∷ 0x60 ∷ 0x88 ∷ 0xe1 ∷ 0x81 ∷ 0x3f ∷ 0x07 ∷ 0x86 ∷ 0x37 ∷ 0x2d ∷ 0x79 ∷ 0x14 ∷ 0x52
    ∷ 0xea ∷ 0x73 ∷ 0xdf ∷ 0x3d ∷ 0x09 ∷ 0xc8 ∷ 0x25 ∷ 0x48 ∷ 0xd8 ∷ 0x75 ∷ 0x60 ∷ 0x9a ∷ 0x08
    ∷ 0x27 ∷ 0x4a ∷ 0x2c ∷ 0xb9 ∷ 0xa8 ∷ 0x8b ∷ 0x8a ∷ 0x73 ∷ 0x62 ∷ 0x37 ∷ 0x16 ∷ 0x02 ∷ 0xbd
    ∷ 0xc1 ∷ 0x0e ∷ 0x56 ∷ 0x54 ∷ 0x3e ∷ 0x14 ∷ 0x5f ∷ 0x8c ∷ 0x8f ∷ 0x6e ∷ 0x75 ∷ 0x1c ∷ 0x07
    ∷ 0x39 ∷ 0x7b ∷ 0x4b ∷ 0xdb ∷ 0xd3 ∷ 0x4b ∷ 0x1e ∷ 0xc8 ∷ 0x7e ∷ 0xfe ∷ 0x3e ∷ 0x72 ∷ 0x16
    ∷ 0x83 ∷ 0x7d ∷ 0xee ∷ 0xf5 ∷ 0xca ∷ 0xc5 ∷ 0x18 ∷ 0xf9 ∷ 0xd8 ∷ 0x68 ∷ 0xab ∷ 0x38 ∷ 0x85
    ∷ 0xa8 ∷ 0xf0 ∷ 0xa1 ∷ 0x73 ∷ 0x9f ∷ 0x5d ∷ 0x19 ∷ 0x0b ∷ 0x00 ∷ 0x00 ∷ 0x00 ∷ 0x00 ∷ 0x00
    ∷ 0x00 ∷ 0x00 ∷ 0x00 ∷ 0x33 ∷ 0x72 ∷ 0x39 ∷ 0x25 ∷ 0x67 ∷ 0x26 ∷ 0x6d ∷ 0x71 ∷ 0x36 ∷ 0x77
    ∷ 0x3c ∷ 0x20 ∷ 0x62 ∷ 0x23 ∷ 0x68 ∷ 0x74 ∷ 0xc3 ∷ 0x82 ∷ 0xc9 ∷ 0x15 ∷ 0x57 ∷ 0x16 ∷ 0x5d
    ∷ 0x81 ∷ []

unfoldable pub crypt_tab3 : ℕ → ℕ
crypt_tab3 i = get_or p_crypt_tab3 i 0
