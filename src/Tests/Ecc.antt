-- ===== src/Tests/Ecc.antt =====
-- The encoder, the decoder and the field of `ECC Code` at concrete inputs.
use tiny_projects_and_tools.Base.{ℕ, ◌≡◌, refl, ◌<◌, inl, inr, List, [], ◌∷◌, some, store, arith}
use tiny_projects_and_tools.Ecc.Field.{
  multiply28, inv28, read_table, log_table, exp_table, fold_log, inv_table,
}
use tiny_projects_and_tools.Ecc.Field.Product.{gf_mul, gf_pow}
use tiny_projects_and_tools.Ecc.Field.Tables.{multiply28-eq-gf_mul, inv28-inverse}
use tiny_projects_and_tools.Ecc.Field257.{add257, sub257, sub257-add257}
use tiny_projects_and_tools.Ecc.Polynomial.{IsCodeword}
use tiny_projects_and_tools.Ecc.Encoder.{dfs_encoder}
use tiny_projects_and_tools.Ecc.Encoder.Correct.{dfs_encoder-IsCodeword}
use tiny_projects_and_tools.Ecc.Polynomial.{eval}
use tiny_projects_and_tools.Ecc.Decoder.{decoder}
use tiny_projects_and_tools.Base.Partial.{Succeeds}
use tiny_projects_and_tools.Ecc.Decoder.Totality.{IsRow}
use tiny_projects_and_tools.Ecc.Decoder.Decoding.{decoder-Succeeds}
use tiny_projects_and_tools.Ecc.Decoder.System.{Builds, Received, decoder-Builds}

multiply28-eq-gf_mul_example : multiply28 87 131 ≡ some (gf_mul 87 131)
multiply28-eq-gf_mul_example = multiply28-eq-gf_mul 87 131 (omega arith) (omega arith)

inv28-inverse_example : (i : ℕ) × (inv28 83 ≡ some i) × (i < 256) × (gf_mul 83 i ≡ 1)
inv28-inverse_example = inv28-inverse 83 (omega arith) (omega arith)

dfs_encoder-IsCodeword_example :
    (r : List ℕ) × (dfs_encoder 5 (72 ∷ 105 ∷ 33 ∷ []) ≡ some r)
    × IsCodeword 5 (72 ∷ 105 ∷ 33 ∷ []) r
dfs_encoder-IsCodeword_example =
    dfs_encoder-IsCodeword 5 (72 ∷ 105 ∷ 33 ∷ []) (omega arith, (omega arith, (omega arith, tt)))
      (omega arith)

sub257-add257_example :
    (add257 3 200 < 257)
    × (sub257 3 200 < 257)
    × (sub257 (add257 3 200) 200 ≡ 3)
    × (add257 (sub257 3 200) 200 ≡ 3)
sub257-add257_example = sub257-add257 3 200 (omega arith) (omega arith)

abbrev hi : List ℕ
hi = 17 ∷ 200 ∷ 0 ∷ 55 ∷ []

-- The code word of the message with three of its seven symbols lost.
abbrev damaged : List ℕ
damaged = 999 ∷ 116 ∷ 999 ∷ 238 ∷ 190 ∷ 999 ∷ 116 ∷ []

decoder-damaged : decoder 4 7 damaged ≡ some hi
unfolding decoder multiply28 read_table log_table exp_table fold_log store inv28 inv_table
decoder-damaged = refl

damaged-Received : Received hi 0 damaged
unfolding gf_pow eval gf_mul
damaged-Received = (
  inl (omega arith),
  (inr refl, (inl (omega arith), (inr refl, (inr refl, (inl (omega arith), (inr refl, tt)))))),
)

decoder-Builds_example : Builds hi 7 damaged
decoder-Builds_example =
    decoder-Builds hi 7 damaged (omega arith, (omega arith, (omega arith, (omega arith, tt))))
      (omega arith) (omega arith) damaged-Received

-- Three symbols that are no code word of a message of two bytes.
decoder-Succeeds_example : Succeeds (IsRow 2) (decoder 2 4 (3 ∷ 999 ∷ 255 ∷ 7 ∷ []))
decoder-Succeeds_example =
    decoder-Succeeds 2 4 (3 ∷ 999 ∷ 255 ∷ 7 ∷ []) (omega arith)
      (inr (omega arith), (inl (omega arith), (inr (omega arith), (inr (omega arith), tt))))
