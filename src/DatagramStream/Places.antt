-- ===== src/DatagramStream/Places.antt =====
-- The one pass over the bytes of datagram/datagram_stream.cpp at each place where a state of the stream
-- looks at them.
use upzp_game_process.Prelude.{
  ℕ, suc, ◌+◌, ◌≤◌, ◌<◌, ◌≡◌, refl, ap, ◌∙◌, ◌⊎◌, inl, inr, true, false, ◌&&◌, List, [], ◌∷◌,
  length, drop, ◌==◌, arith, u32_at, Bool-cases,
}
use upzp_game_process.Datagram.{Crc, Datagram}
use upzp_game_process.Datagram.Safety.{announced_header}
use upzp_game_process.DatagramStream.{not_found, found, find_from, header_correct}
use upzp_game_process.DatagramStream.Invariant.{BeginsDatagram, announced-le}
use upzp_game_process.DatagramStream.Reference.{
  front, waiting, complete, opened, reference, reference_step,
}

module _ (crc : Crc) (d : Datagram) where
  -- Where a begin sequence stands, the pass asks the same questions as the states.
  pub reference-short :
      (buffer : List ℕ)
      → BeginsDatagram buffer
      → length buffer < 12
      → reference crc d buffer ≡ waiting buffer
  unfolding front
  reference-short buffer begins short =
      rw (reference_step crc d buffer (omega arith)) (ground arith)

  pub reference-no_header :
      (buffer : List ℕ)
      → BeginsDatagram buffer
      → length buffer < announced_header buffer
      → reference crc d buffer ≡ waiting buffer
  unfolding front
  reference-no_header buffer begins short =
      rw (reference_step crc d buffer (omega arith)) (ground arith)

  pub reference-bad :
      (buffer : List ℕ)
      → BeginsDatagram buffer
      → announced_header buffer ≤ length buffer
      → header_correct crc buffer (announced_header buffer) ≡ false
      → reference crc d buffer ≡ reference crc d (drop 1 buffer)
  unfolding front header_correct
  reference-bad buffer begins long bad =
      rw (reference_step crc d buffer (omega arith)) (ground (arith, announced-le buffer))

  pub reference-no_payload :
      (buffer : List ℕ)
      → header_correct crc buffer (announced_header buffer) ≡ true
      → length buffer < announced_header buffer + u32_at buffer 4
      → reference crc d buffer ≡ waiting buffer
  unfolding front header_correct
  reference-no_payload buffer good short =
      rw (reference_step crc d buffer (ground (arith, announced-le buffer)))
        (ground (arith, announced-le buffer))

  pub reference-whole :
      (buffer : List ℕ)
      → header_correct crc buffer (announced_header buffer) ≡ true
      → announced_header buffer + u32_at buffer 4 ≤ length buffer
      → reference crc d buffer
        ≡ complete (opened d buffer) (drop (announced_header buffer + u32_at buffer 4) buffer)
  unfolding front header_correct
  reference-whole buffer good long =
      rw (reference_step crc d buffer (omega (arith, announced-le buffer)))
        (ground (arith, announced-le buffer))

-- The search for a begin sequence passes over the same bytes.
module _ (crc : Crc) (d : Datagram) where
  reference-pass :
      (a b : ℕ) (bs : List ℕ)
      → (a == 0xDA && b == 0xAB) ≡ false
      → reference crc d (a ∷ b ∷ bs) ≡ reference crc d (b ∷ bs)
  unfolding reference front
  reference-pass a b bs later = ground arith

  reference-one : (a : ℕ) → reference crc d (a ∷ []) ≡ waiting (a ∷ [])
  unfolding reference front
  reference-one a = refl

  pub find_from-reference :
      (i a : ℕ) (bs : List ℕ)
      → ((find_from i a bs ≡ not_found)
          × (reference crc d (a ∷ bs) ≡ waiting (drop (length bs) (a ∷ bs))))
        ⊎ ((k : ℕ) × (find_from i a bs ≡ found (i + k))
            × BeginsDatagram (drop k (a ∷ bs))
            × (reference crc d (a ∷ bs) ≡ reference crc d (drop k (a ∷ bs))))
  unfolding find_from
  find_from-reference i a [] = inl (refl, reference-one a)
  find_from-reference i a (b ∷ bs) = elim (Bool-cases (a == 0xDA && b == 0xAB)) [
    | inl here ↦ inr (0, rw here (ap found (omega arith)), ground arith, refl)
    | inr later ↦ elim (find_from-reference (i + 1) b bs) [
      | inl (e, r) ↦ inl (rw later e, reference-pass a b bs later ∙ r)
      | inr (k, e, begins, r) ↦
          inr (
            suc k,
            rw later (rw e (ap found (omega arith))),
            begins,
            reference-pass a b bs later ∙ r,
          )
    ]
  ]
