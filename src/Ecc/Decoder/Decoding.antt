-- ===== src/Ecc/Decoder/Decoding.antt =====
-- `decoder` of `ECC Code/decoder.cpp` from the powers to the message, on symbols that need not be
-- those of a code word.
use tiny_projects_and_tools.Base.{
  ℕ, zero, suc, ◌+◌, ◌-◌, ◌≤◌, ◌<◌, ◌≡◌, refl, ap, ◌∙◌, ◌⊎◌, inl, inr, false, List, [], ◌∷◌, ◌++◌,
  length, length-append, length-take, take, replicate, All, All-append, arith, ltb, ◌==◌,
  Bool-cases,
}
use tiny_projects_and_tools.Base.Partial.{
  Succeeds, some-Succeeds, >>=-Succeeds, get_elem?-Succeeds, store-Succeeds,
}
use tiny_projects_and_tools.Ecc.Encoder.{fill_powers}
use tiny_projects_and_tools.Ecc.Decoder.{power_rows, read_row, gather, resize, decoder}
use tiny_projects_and_tools.Ecc.Decoder.Loops.{Matrix}
use tiny_projects_and_tools.Ecc.Decoder.Totality.{
  IsByte, IsRow, IsShaped, multiply28-Succeeds, replicate-IsRow, gauss_elimination-Succeeds,
}

fill_powers-Succeeds :
    {size : ℕ} (left j base : ℕ) (v : List ℕ)
    → IsRow size v
    → 0 < j
    → j + left ≤ size
    → IsByte base
    → Succeeds (IsRow size) (fill_powers left j base v)
unfolding fill_powers
fill_powers-Succeeds zero j base v h hj fits hb = some-Succeeds v h
fill_powers-Succeeds (suc left) j base v h hj fits hb =
    >>=-Succeeds (get_elem?-Succeeds v (j - 1) h.1 (omega (arith, h.0))) (λ x hx.
      >>=-Succeeds (multiply28-Succeeds x base hx hb) (λ y hy.
        >>=-Succeeds (store-Succeeds v j y h.1 hy (omega (arith, h.0))) (λ v' hv.
          fill_powers-Succeeds left (j + 1) base v' (hv.0 ∙ h.0, hv.1) (omega arith) (omega arith)
            hb)))

power_rows-Succeeds :
    (left size base : ℕ)
    → left ≤ size
    → IsByte base
    → Succeeds (IsShaped left size) (power_rows left size base)
unfolding power_rows
power_rows-Succeeds zero size base h hb = some-Succeeds [] (refl, tt)
power_rows-Succeeds (suc left) size base h hb =
    >>=-Succeeds
      (fill_powers-Succeeds (size - 1) 1 base (replicate size 1)
        (replicate-IsRow size 1 (omega arith)) (omega arith) (omega arith) hb)
      (λ row hr. >>=-Succeeds (multiply28-Succeeds base 3 hb (omega arith)) (λ base' hb'.
        >>=-Succeeds (power_rows-Succeeds left size base' (omega arith) hb')
          (λ rest hrest. some-Succeeds (row ∷ rest) (ap suc hrest.0, (hr, hrest.1)))))

read_row-Succeeds :
    {size : ℕ} (left h : ℕ) (row : List ℕ)
    → IsRow size row
    → h + left ≤ size
    → Succeeds (IsRow left) (read_row left h row)
unfolding read_row
read_row-Succeeds zero h row hr fits = some-Succeeds [] (refl, tt)
read_row-Succeeds (suc left) h row hr fits =
    >>=-Succeeds (get_elem?-Succeeds row h hr.1 (omega (arith, hr.0))) (λ x hx.
      >>=-Succeeds (read_row-Succeeds left (h + 1) row hr (omega arith))
        (λ v hv. some-Succeeds (x ∷ v) (ap suc hv.0, (hx, hv.1))))

-- A symbol is a byte, or missing.
abbrev pub IsSymbol : ℕ → Type 0
IsSymbol y = (256 < y) ⊎ (y < 256)

-- At most `room` rows, of `w` bytes.
abbrev IsSystem : ℕ → ℕ → Matrix → Type 0
IsSystem room w rows = (length rows ≤ room) × All (IsRow w) rows

append-IsRow : (k y : ℕ) (v : List ℕ) → IsRow k v → IsByte y → IsRow (k + 1) (v ++ y ∷ [])
append-IsRow k y v h hy =
    (omega (arith, length-append v (y ∷ []), h.0), All-append IsByte v (y ∷ []) h.1 (hy, tt))

gather-Succeeds :
    {size : ℕ} (k left i count : ℕ) (matrix : Matrix) (c : List ℕ)
    → k ≤ size
    → IsShaped size size matrix
    → length c ≡ size
    → All IsSymbol c
    → i + left ≤ size
    → count ≤ k
    → Succeeds (IsSystem (k - count) (k + 1)) (gather k left i count matrix c)
unfolding gather
gather-Succeeds k zero i count matrix c hk hm hc symbols fits hcount =
    some-Succeeds [] (omega arith, tt)
gather-Succeeds k (suc left) i count matrix c hk hm hc symbols fits hcount =
    elim (Bool-cases (count == k)) [
      | inl full ↦ rw (full, gather) (some-Succeeds [] (omega arith, tt))
      | inr short ↦
          rw (short, gather)
            (>>=-Succeeds (get_elem?-Succeeds c i symbols (omega (arith, hc))) (λ y hy.
              elim (Bool-cases (ltb 256 y)) [
                | inl missing ↦ rw missing (
                    gather-Succeeds k left (i + 1) count matrix c hk hm hc symbols (omega arith)
                      hcount)
                | inr there ↦ rw there (
                    >>=-Succeeds (get_elem?-Succeeds matrix i hm.1 (omega (arith, hm.0))) (λ row hr.
                      >>=-Succeeds (read_row-Succeeds k 0 row hr (omega arith)) (λ v hv.
                        >>=-Succeeds
                          (gather-Succeeds k left (i + 1) (count + 1) matrix c hk hm hc symbols
                            (omega arith) (ground (arith, short)))
                          (λ rest q. some-Succeeds ((v ++ y ∷ []) ∷ rest) (
                            ground (arith, short, q.0),
                            (append-IsRow k y v hv (as_byte y hy there), q.1),
                          )))))
              ]))
    ]
  where
    as_byte : (y : ℕ) → IsSymbol y → ltb 256 y ≡ false → IsByte y
    as_byte y (inl missing) there = absurd (ground arith)
    as_byte y (inr byte) there = byte

take-All : (k : ℕ) (xs : List ℕ) → All IsByte xs → All IsByte (take k xs)
take-All zero xs h = tt
take-All (suc k) [] h = tt
take-All (suc k) (x ∷ xs) h = (h.0, take-All k xs h.1)

resize-IsRow : (k : ℕ) (xs : List ℕ) → All IsByte xs → IsRow k (resize k xs)
unfolding resize
resize-IsRow k xs h =
    let pad = replicate-IsRow (k - length xs) 0 (omega arith) in
    (
      omega
          (arith, length-append (take k xs) (replicate (k - length xs) 0), length-take k xs, pad.0),
      All-append IsByte (take k xs) (replicate (k - length xs) 0) (take-All k xs h) pad.1,
    )

-- From any symbols that are bytes or missing, as many at least as the message has numbers, the
-- decoder ends without a fault, reads and writes inside of its vectors and of the tables, and returns
-- `k` bytes.
pub decoder-Succeeds :
    (k n : ℕ) (c : List ℕ) → k ≤ length c → All IsSymbol c → Succeeds (IsRow k) (decoder k n c)
unfolding decoder
decoder-Succeeds k n c fits symbols =
    >>=-Succeeds (power_rows-Succeeds (length c) (length c) 1 (omega arith) (omega arith))
      (λ matrix hm.
        >>=-Succeeds
          (gather-Succeeds k (length c) 0 0 matrix c fits hm refl symbols (omega arith)
            (omega arith))
          (λ rows hr.
            >>=-Succeeds
              (gauss_elimination-Succeeds (length rows) (k + 1) rows (refl, hr.1)
                (omega (arith, hr.0)))
              (λ ans ha. some-Succeeds (resize k ans) (resize-IsRow k ans ha.1))))
