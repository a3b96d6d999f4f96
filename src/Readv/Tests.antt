-- ===== src/Readv/Tests.antt =====
-- Reads into several buffers on concrete data.
use libdvdcss.Common.{
  ℕ, true, false, none, some, List, [], ◌∷◌, ◌≡◌, ◌≢◌, refl, arith, ap, replicate,
}
use libdvdcss.Keys.{DvdKey, zero_key}
use libdvdcss.Unscramble.{dvdcss_unscramble, is_scrambled}
use libdvdcss.Dvdcss.{Dvdcss, Drive, method_key}
use libdvdcss.Reading.{dvdcss_read, decrypt_block}
use libdvdcss.Readv.{
  dvdcss_readv, gather_bytes, decrypt_buffers, decrypt_vectors, skip_empty, put_before, misaligned,
  overrun,
}
use libdvdcss.Readv.Agree.{as_vectors, dvdcss_readv-dvdcss_read}

abbrev key : DvdKey
key = record { k0 = 0x10; k1 = 0x20; k2 = 0x30; k3 = 0x40; k4 = 0x50 }

-- Two blocks, with an empty buffer between them.
abbrev buffers : List (List ℕ)
buffers = replicate 2048 0x35 ∷ [] ∷ replicate 2048 0x0f ∷ []

abbrev drive : Drive
drive = record {
  copyright = λ log. none;
  rpc = λ log. none;
  agid = λ log. none;
  accepts_challenge = λ log. false;
  key1 = λ log. none;
  challenge = λ log. none;
  accepts_key2 = λ log. false;
  disc_key = λ log. none;
  title_key = λ log. none;
  asf = λ log. none;
  position = λ log. none;
  blocks = λ log. some (2, gather_bytes buffers);
  vectors = λ log. some (2, buffers);
}

abbrev opened : Dvdcss
opened = record {
  method = method_key;
  b_ioctls = true;
  b_scrambled = true;
  i_agid = 0;
  p_bus_key = zero_key;
  p_disc_key = zero_key;
  p_title_key = key;
  p_titles = [];
  log = [];
}

key_is_set : key ≢ zero_key
key_is_set e = omega (arith, ap (λ (k : DvdKey). k.k0) e)

dvdcss_readv-dvdcss_read_example :
    (dvdcss_readv drive (2048 ∷ 0 ∷ 2048 ∷ []) true opened).0
    ≡ as_vectors (dvdcss_read drive 2 true opened).0
unfolding gather_bytes
dvdcss_readv-dvdcss_read_example =
    dvdcss_readv-dvdcss_read drive (2048 ∷ 0 ∷ 2048 ∷ []) 2 2 buffers true opened refl refl
      (omega arith) (refl, (refl, (refl, tt))) key_is_set

-- A first length that is no multiple of 2048 is refused.
refuses_length : decrypt_buffers key 1 (replicate 2049 0 ∷ []) ≡ misaligned (replicate 2049 0)
unfolding decrypt_buffers decrypt_vectors gather_bytes
refuses_length = refl

-- A short buffer behind a whole one is not: the second block is decrypted beyond its end.
overruns_length :
    decrypt_buffers key 2 (replicate 2048 0 ∷ replicate 100 0 ∷ replicate 1948 0 ∷ []) ≡ overrun
unfolding decrypt_buffers decrypt_vectors skip_empty decrypt_block dvdcss_unscramble is_scrambled
    put_before gather_bytes
overruns_length = refl
