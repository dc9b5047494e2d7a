-- ===== src/Chord/Hash.antt =====
-- `hashFunction` and `translate` of `DHT_Chord/chord/chord.c`, over the SHA-1 library, which is a
-- parameter: the five words of a digest, or `none` for a digest that failed.
use tiny_projects_and_tools.Base.{
  ℕ, ◌^◌, ◌<◌, List, ◌++◌, Option, none, some, bit_xor, bit_xor-lt, ascii,
}
use tiny_projects_and_tools.Base.Decimal.{print_int}

pub record Digest : Type 0 where
  pub word0 : ℕ
  pub word1 : ℕ
  pub word2 : ℕ
  pub word3 : ℕ
  pub word4 : ℕ

-- The exclusive or of the words.
unfoldable pub fold_digest : Option Digest → ℕ
fold_digest none = 0
fold_digest (some d) = bit_xor (bit_xor (bit_xor (bit_xor d.word0 d.word1) d.word2) d.word3) d.word4

module _ (sha1 : List ℕ → Option Digest) where
  unfoldable pub hash_function : List ℕ → ℕ
  unfolding fold_digest
  hash_function key = fold_digest (sha1 key)

  -- The position of the node that listens on a port.
  unfoldable pub translate : ℕ → ℕ
  unfolding hash_function
  translate port = hash_function (ascii "127.0.0.1:" ++ print_int port)

pub record IsDigest (d : Digest) : Type 0 where
  pub fits0 : d.word0 < 2 ^ 32
  pub fits1 : d.word1 < 2 ^ 32
  pub fits2 : d.word2 < 2 ^ 32
  pub fits3 : d.word3 < 2 ^ 32
  pub fits4 : d.word4 < 2 ^ 32

pub fold_digest-lt : (d : Digest) → IsDigest d → fold_digest (some d) < 2 ^ 32
unfolding fold_digest
fold_digest-lt d h =
    bit_xor-lt 32 _ _
      (bit_xor-lt 32 _ _ (bit_xor-lt 32 _ _ (bit_xor-lt 32 _ _ h.fits0 h.fits1) h.fits2) h.fits3)
      h.fits4
