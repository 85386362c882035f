-- ===== src/DatagramStream/Refinement.antt =====
-- The stream of datagram/datagram_stream.cpp against the one pass over its bytes.
use upzp_game_process.Prelude.{
  ℕ, zero, suc, ◌+◌, ◌-◌, ◌≤◌, ◌<◌, ◌≡◌, refl, ap, subst, ◌∙◌, inl, inr, Bool, true, false, List,
  [], ◌∷◌, ◌++◌, length, drop, leb, leb→le, arith, u32_at, Bool-cases,
}
use upzp_game_process.Datagram.{Crc, Datagram}
use upzp_game_process.Datagram.Safety.{announced_header}
use upzp_game_process.DatagramStream.{
  State, begin_seq, header_1, header_2, payload, DatagramStream, Progress, fault, returned, again,
  found, find_from, find_begin_sequence, begin_seq_step, header_1_step, header_correct,
  header_2_step, payload_step, later_steps, round, flush_loop, flush_data, add_data,
}
use upzp_game_process.DatagramStream.Invariant.{
  Knows, IsValid, IsReady, stream, load_accepts, round_keeps,
}
use upzp_game_process.DatagramStream.Termination.{Progress-cases}
use upzp_game_process.DatagramStream.Reference.{Found, waiting, complete, reference}
use upzp_game_process.DatagramStream.Extension.{extend}
use upzp_game_process.DatagramStream.Chunks.{IsValid-extend}
use upzp_game_process.DatagramStream.Places.{
  reference-short, reference-no_header, reference-bad, reference-no_payload, reference-whole,
  find_from-reference,
}

-- What a round of the loop may end with, as the pass over the same bytes sees it.
abbrev Follows : Crc → Datagram → List ℕ → Progress → Type 0
Follows crc d buffer fault = ⊥
Follows crc d buffer (returned false t) =
    (reference crc d buffer ≡ waiting t.buffer) × (t.datagram ≡ d)
Follows crc d buffer (returned true t) =
    (reference crc d buffer ≡ complete t.datagram t.buffer) × (t.state ≡ begin_seq)
Follows crc d buffer (again t) =
    (reference crc d buffer ≡ reference crc d t.buffer) × (t.datagram ≡ d)

Follows-skipped :
    (crc : Crc) (d : Datagram) (long short : List ℕ) (r : Progress)
    → reference crc d long ≡ reference crc d short
    → Follows crc d short r
    → Follows crc d long r
Follows-skipped crc d long short fault e k = k
Follows-skipped crc d long short (returned false t) e k = (e ∙ k.0, k.1)
Follows-skipped crc d long short (returned true t) e k = (e ∙ k.0, k.1)
Follows-skipped crc d long short (again t) e k = (e ∙ k.0, k.1)

module _ (crc : Crc) (buffer : List ℕ) (header n : ℕ) (d : Datagram) where
  payload-Follows :
      Knows crc payload buffer header n
      → Follows crc d buffer (payload_step crc (stream payload buffer header n d, false))
  unfolding payload_step
  payload-Follows k =
      let good : header_correct crc buffer (announced_header buffer) ≡ true = rw (← k.0) k.1 in
      elim (Bool-cases (leb (header + n) (length buffer))) [
        | inl fits ↦
            let room : header + n ≤ length buffer = leb→le _ _ fits in
            rw (fits, load_accepts crc d buffer header n k.0 k.1 k.2 room)
              (rw (k.0, k.2) (reference-whole crc d buffer good (rw (← k.0, ← k.2) room)), refl)
        | inr short ↦
            rw short (reference-no_payload crc d buffer good (ground (arith, k.0, k.2)), refl)
      ]

module _ (crc : Crc) (buffer : List ℕ) (header n : ℕ) (d : Datagram) where
  header_2-Follows :
      Knows crc header_2 buffer header n
      → Follows crc d buffer
          (payload_step crc (header_2_step crc (stream header_2 buffer header n d)))
  unfolding header_2_step payload_step
  header_2-Follows k = elim (Bool-cases (leb header (length buffer))) [
    | inl fits ↦
        let long : announced_header buffer ≤ length buffer = rw (← k.2) (leb→le _ _ fits) in
        elim (Bool-cases (header_correct crc buffer header)) [
          | inl good ↦
              rw (fits, good)
                (payload-Follows crc buffer header (u32_at buffer 4) d (k.2, good, refl))
          | inr bad ↦ rw (fits, bad) (reference-bad crc d buffer k.0 long (rw (← k.2) bad), refl)
        ]
    | inr short ↦ rw short (reference-no_header crc d buffer k.0 (ground (arith, k.2)), refl)
  ]

module _ (crc : Crc) (buffer : List ℕ) (header n : ℕ) (d : Datagram) where
  header_1-Follows :
      Knows crc header_1 buffer header n
      → Follows crc d buffer (later_steps crc (stream header_1 buffer header n d))
  unfolding header_1_step header_2_step payload_step
  header_1-Follows k = elim (Bool-cases (leb 12 (length buffer))) [
    | inl fits ↦
        rw fits
          (header_2-Follows crc buffer (announced_header buffer) n d (k, leb→le _ _ fits, refl))
    | inr short ↦ rw short (reference-short crc d buffer k (ground arith), refl)
  ]

module _ (crc : Crc) (header n : ℕ) (d : Datagram) where
  begin_seq-Follows :
      (a : ℕ) (bs : List ℕ)
      → Follows crc d (a ∷ bs) (round crc (stream begin_seq (a ∷ bs) header n d))
  unfolding round begin_seq_step find_begin_sequence header_1_step header_2_step payload_step
  begin_seq-Follows a bs = elim (find_from-reference crc d 0 a bs) [
    | inl (e, r) ↦
        let last : suc (length bs) - 1 ≡ length bs = omega arith in
        rw (e, round) (rw last (r, refl))
    | inr (k, e, begins, r) ↦
        let there : find_from 0 a bs ≡ found k = e ∙ ap found (omega arith) in
        rw (there, round)
          (Follows-skipped crc d (a ∷ bs) (drop k (a ∷ bs)) _ r
            (header_1-Follows crc (drop k (a ∷ bs)) header n d begins))
  ]

  round-Follows_at :
      (st : State) (buffer : List ℕ)
      → Knows crc st buffer header n
      → IsReady (stream st buffer header n d)
      → Follows crc d buffer (round crc (stream st buffer header n d))
  unfolding round begin_seq_step header_1_step header_2_step
  round-Follows_at begin_seq [] k (inl h) = absurd (h refl)
  round-Follows_at begin_seq [] k (inr h) = absurd (omega arith)
  round-Follows_at begin_seq (a ∷ bs) k r = begin_seq-Follows a bs
  round-Follows_at header_1 buffer k r = header_1-Follows crc buffer header n d k
  round-Follows_at header_2 buffer k r = header_2-Follows crc buffer header n d k
  round-Follows_at payload buffer k r = payload-Follows crc buffer header n d k

-- How the stream ends where the pass ends like this.
abbrev pub Gives : Crc → Datagram → Found → Progress → Type 0
Gives crc d (waiting rest) r =
    (t : DatagramStream) × (r ≡ returned false t)
    × (t.buffer ≡ rest)
    × (t.datagram ≡ d)
    × IsValid crc t
    × IsReady t
Gives crc d (complete e rest) r =
    (t : DatagramStream) × (r ≡ returned true t)
    × (t.buffer ≡ rest)
    × (t.datagram ≡ e)
    × (t.state ≡ begin_seq)

returned-Gives :
    (crc : Crc) (d : Datagram) (buffer : List ℕ) (b : Bool) (t : DatagramStream)
    → Follows crc d buffer (returned b t)
    → IsValid crc t
    → (b ≡ false → IsReady t)
    → Gives crc d (reference crc d buffer) (returned b t)
returned-Gives crc d buffer false t k v ready = rw (k.0) (t, refl, refl, k.1, v, ready refl)
returned-Gives crc d buffer true t k v ready = rw (k.0) (t, refl, refl, refl, k.1)

flush_loop-Gives :
    (crc : Crc) (fuel : ℕ) (s : DatagramStream)
    → length s.buffer < fuel
    → IsValid crc s
    → IsReady s
    → Gives crc s.datagram (reference crc s.datagram s.buffer) (flush_loop crc fuel s)
unfolding flush_loop
flush_loop-Gives crc zero s h valid ready = absurd (omega arith)
flush_loop-Gives crc (suc fuel) s h valid ready =
    let follows =
      round-Follows_at crc s.header_length s.payload_length s.datagram s.state s.buffer valid
        ready in
    elim (Progress-cases crc s.buffer (round crc s) (round_keeps crc s valid ready)) [
      | inl (b, t, e, v, r, l) ↦
          rw (e, flush_loop) (returned-Gives crc s.datagram s.buffer b t (rw e at follows) v r)
      | inr (t, e, v, pos, shorter) ↦
          let (same, kept) = rw e at follows in
          rw (e, flush_loop, same)
            (subst
              (λ (x : Datagram). Gives crc x (reference crc x t.buffer) (flush_loop crc fuel t))
              kept (flush_loop-Gives crc fuel t (omega arith) v (inr pos)))
    ]

-- `FlushData` does what the pass does.
pub flush_data-Gives :
    (crc : Crc) (s : DatagramStream)
    → IsValid crc s
    → IsReady s
    → Gives crc s.datagram (reference crc s.datagram s.buffer) (flush_data crc s)
unfolding flush_data
flush_data-Gives crc s valid ready =
    flush_loop-Gives crc (suc (length s.buffer)) s (omega arith) valid ready

-- On a valid stream that has a byte to look at, `AddData` does what one pass over the bytes in the
-- buffer and the new ones does, whatever its state remembers of them: it answers true if the pass finds
-- a complete datagram, holds that datagram then, and keeps the same bytes behind it. Otherwise it
-- answers false and keeps the same bytes, the datagram that it holds does not change, and it is valid
-- and ready for another call.
pub add_data-Gives :
    (crc : Crc) (xs : List ℕ) (s : DatagramStream)
    → IsValid crc s
    → IsReady (extend xs s)
    → Gives crc s.datagram (reference crc s.datagram (s.buffer ++ xs)) (add_data crc xs s)
unfolding add_data
add_data-Gives crc xs s valid ready =
    flush_data-Gives crc (extend xs s) (IsValid-extend crc xs s valid) ready
