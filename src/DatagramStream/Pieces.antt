-- ===== src/DatagramStream/Pieces.antt =====
-- A datagram that arrives in pieces.
use upzp_game_process.Prelude.{
  ℕ, ◌+◌, ◌^◌, ◌<◌, ◌≡◌, refl, sym, ap, ◌∙◌, ◌⊎◌, inl, inr, true, false, List, [], ◌++◌, length,
  length-append, arith,
}
use upzp_game_process.Datagram.{Crc, Datagram, get, header_size}
use upzp_game_process.DatagramStream.{
  begin_seq, DatagramStream, Progress, fault, returned, again, add_data,
}
use upzp_game_process.DatagramStream.Invariant.{IsValid, IsReady, stream}
use upzp_game_process.DatagramStream.Termination.{Ends, flush_data-Ends}
use upzp_game_process.DatagramStream.Extension.{extend}
use upzp_game_process.DatagramStream.Chunks.{IsValid-extend, add_data-append, add_data-append_true}
use upzp_game_process.DatagramStream.Framing.{IsClean, delivered, add_data-get}

-- On a valid stream that has a byte to look at, `AddData` returns, in a valid stream.
pub add_data-Ends :
    (crc : Crc) (xs : List ℕ) (s : DatagramStream)
    → IsValid crc s
    → IsReady (extend xs s)
    → Ends crc (s.buffer ++ xs) (add_data crc xs s)
unfolding add_data
add_data-Ends crc xs s valid ready =
    flush_data-Ends crc (extend xs s) (IsValid-extend crc xs s valid) ready

abbrev left_over : Progress → ℕ
left_over fault = 0
left_over (returned b t) = length t.buffer
left_over (again t) = 0

Ends-cases :
    (crc : Crc) (buffer : List ℕ) (r : Progress)
    → Ends crc buffer r
    → ((t : DatagramStream) × (r ≡ returned true t))
      ⊎ ((t : DatagramStream) × (r ≡ returned false t) × IsValid crc t × IsReady t)
Ends-cases crc buffer r (true, t, e, v, ready, l) = inl (t, e)
Ends-cases crc buffer r (false, t, e, v, ready, l) = inr (t, e, v, ready refl)

-- A datagram that one call of `AddData` delivers arrives as well if its bytes come in two calls and
-- the first does not hold them all: the first answers false, the second delivers.
pub add_data_pieces :
    (crc : Crc) (xs ys : List ℕ) (s u : DatagramStream)
    → IsValid crc s
    → IsReady (extend xs s)
    → add_data crc (xs ++ ys) s ≡ returned true u
    → length u.buffer < length ys
    → (t : DatagramStream) × (add_data crc xs s ≡ returned false t)
      × (add_data crc ys t ≡ returned true u)
      × IsValid crc t
      × IsReady t
add_data_pieces crc xs ys s u valid ready whole more =
    elim (Ends-cases crc (s.buffer ++ xs) (add_data crc xs s)
      (add_data-Ends crc xs s valid ready)) [
        | inl (t, e) ↦
            let both =
              ap left_over (sym (add_data-append_true crc xs ys s t valid ready e) ∙ whole) in
            absurd (omega (arith, both, length-append t.buffer ys))
        | inr (t, e, v, r) ↦ (t, e, sym (add_data-append crc xs ys s t valid ready e) ∙ whole, v, r)
      ]

-- The bytes of a datagram (its frame shorter than 2 ^ 32 bytes), with noise in front that has no
-- begin sequence and other bytes behind, may be cut in two at any place before the last byte of
-- the datagram: on a stream with an empty buffer the call with the first piece answers false and
-- leaves a valid stream, and the call with the second one delivers the datagram and keeps the
-- bytes behind it.
pub add_data-get_pieces :
    (crc : Crc) (noise : List ℕ) (d : Datagram) (rest xs ys : List ℕ) (header n : ℕ)
    → (memory : Datagram) → IsClean noise
    → header_size d.payload_checksum_included + length d.payload < 2 ^ 32
    → xs ++ ys ≡ noise ++ (get crc d ++ rest)
    → 0 < length xs
    → length rest < length ys
    → (t : DatagramStream) × (add_data crc xs (stream begin_seq [] header n memory)
        ≡ returned false t)
      × (add_data crc ys t ≡ returned true (delivered crc d rest memory))
      × IsValid crc t
      × IsReady t
add_data-get_pieces crc noise d rest xs ys header n memory clean small cut some_first more =
    add_data_pieces crc xs ys (stream begin_seq [] header n memory) (delivered crc d rest memory) tt
      (inr (omega arith))
      (ap (λ (b : List ℕ). add_data crc b (stream begin_seq [] header n memory)) cut
        ∙ add_data-get crc noise d rest header n memory clean small)
      more
