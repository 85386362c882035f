-- ===== src/DatagramStream/Rounds.antt =====
-- A round of the loop of `FlushData` on a buffer that has more bytes at its end.
use upzp_game_process.Prelude.{
  ℕ, suc, ◌+◌, ◌-◌, ◌≤◌, ◌≡◌, refl, ap, ◌∙◌, inl, inr, true, false, List, [], ◌∷◌, ◌++◌, length,
  drop, leb, leb→le, append-nil, drop-append, length-drop, u32_at, byte_at-append, u32_at-append,
  Bool-cases, arith,
}
use upzp_game_process.Datagram.{Crc, Datagram}
use upzp_game_process.Datagram.Safety.{announced_header}
use upzp_game_process.DatagramStream.{
  State, begin_seq, header_1, header_2, payload, DatagramStream, Progress, fault, returned, again,
  find_begin_sequence, not_found, found, header_1_step, header_correct, header_2_step, payload_step,
  later_steps, begin_seq_step, round,
}
use upzp_game_process.DatagramStream.Invariant.{
  Knows, IsValid, IsReady, stream, announced-le, load_accepts, find_begin_sequence_lem,
}
use upzp_game_process.DatagramStream.BeginSequence.{
  last, drop-last, find_begin_sequence-append_found, begin_seq_step-append,
}
use upzp_game_process.DatagramStream.Extension.{
  extend, leb-append, header_correct-append, load_accepts-append,
}

-- `x` is what the extended stream does where the stream does `r`: the same, except that it goes on
-- where the stream has to wait.
abbrev pub Follows : Crc → List ℕ → Progress → Progress → Type 0
Follows crc ys x fault = Unit {0}
Follows crc ys x (returned true t) = x ≡ returned true (extend ys t)
Follows crc ys x (returned false t) = x ≡ round crc (extend ys t)
Follows crc ys x (again t) = x ≡ again (extend ys t)

module _ (crc : Crc) (buffer ys : List ℕ) (header n : ℕ) (d : Datagram) where
  payload-Follows :
      Knows crc payload buffer header n
      → Follows crc ys
          (payload_step crc (stream payload (buffer ++ ys) header n d, false))
          (payload_step crc (stream payload buffer header n d, false))
  unfolding payload_step round begin_seq_step header_1_step header_2_step
  payload-Follows k = elim (Bool-cases (leb (header + n) (length buffer))) [
    | inl fits ↦
        let room : header + n ≤ length buffer = leb→le _ _ fits in
        rw (
          leb-append _ _ ys fits,
          fits,
          load_accepts-append crc buffer ys header n d room k,
          load_accepts crc d buffer header n k.0 k.1 k.2 room,
          drop-append (header + n) buffer ys room,
        )
    | inr waits ↦ rw waits refl
  ]

module _ (crc : Crc) (buffer ys : List ℕ) (header n : ℕ) (d : Datagram) where
  header_2-Follows :
      Knows crc header_2 buffer header n
      → Follows crc ys
          (payload_step crc (header_2_step crc (stream header_2 (buffer ++ ys) header n d)))
          (payload_step crc (header_2_step crc (stream header_2 buffer header n d)))
  unfolding header_2_step payload_step round begin_seq_step header_1_step
  header_2-Follows k = elim (Bool-cases (leb header (length buffer))) [
    | inl fits ↦
        let more = leb-append header buffer ys fits in
        let long : 12 ≤ header = rw k.2 (announced-le buffer) in
        let same_test = header_correct-append crc buffer ys header long fits in
        elim (Bool-cases (header_correct crc buffer header)) [
          | inl good ↦
              rw (more, fits, same_test, good, u32_at-append buffer ys 4 (omega arith))
                (payload-Follows crc buffer ys header (u32_at buffer 4) d (k.2, good, refl))
          | inr bad ↦ rw (more, fits, same_test, bad, drop-append 1 buffer ys (omega arith)) refl
        ]
    | inr waits ↦ rw waits refl
  ]

module _ (crc : Crc) (buffer ys : List ℕ) (header n : ℕ) (d : Datagram) where
  header_1-Follows :
      Knows crc header_1 buffer header n
      → Follows crc ys
          (later_steps crc (stream header_1 (buffer ++ ys) header n d))
          (later_steps crc (stream header_1 buffer header n d))
  unfolding header_1_step header_2_step payload_step round begin_seq_step
  header_1-Follows k = elim (Bool-cases (leb 12 (length buffer))) [
    | inl fits ↦
        let long = leb→le _ _ fits in
        rw (leb-append _ _ ys fits, fits, byte_at-append buffer ys 3 (omega arith))
          (header_2-Follows crc buffer ys (announced_header buffer) n d (k, long, refl))
    | inr waits ↦ rw waits refl
  ]

-- Without a begin sequence a round keeps the last byte and returns.
pub round_not_found :
    (crc : Crc) (a : ℕ) (bs : List ℕ) (header n : ℕ) (d : Datagram)
    → find_begin_sequence (a ∷ bs) ≡ not_found
    → round crc (stream begin_seq (a ∷ bs) header n d)
      ≡ returned false (stream begin_seq (last a bs ∷ []) header n d)
unfolding round begin_seq_step header_1_step header_2_step payload_step
round_not_found crc a bs header n d e =
    let kept : drop (suc (length bs) - 1) (a ∷ bs) ≡ last a bs ∷ [] =
      ap (λ (k : ℕ). drop k (a ∷ bs)) (omega arith) ∙ rw append-nil at (drop-last a bs []) in
    rw (e, round) (ap (λ (b : List ℕ). returned false (stream begin_seq b header n d)) kept)

round_not_found-append :
    (crc : Crc) (a : ℕ) (bs ys : List ℕ) (header n : ℕ) (d : Datagram)
    → find_begin_sequence (a ∷ bs) ≡ not_found
    → round crc (stream begin_seq ((a ∷ bs) ++ ys) header n d)
      ≡ round crc (stream begin_seq (last a bs ∷ ys) header n d)
unfolding round
round_not_found-append crc a bs ys header n d e =
    rw (begin_seq_step-append a bs ys header n d e, round)

-- A round that finds a begin sequence goes on with the buffer from there.
pub round_found :
    (crc : Crc) (k a : ℕ) (bs : List ℕ) (header n : ℕ) (d : Datagram)
    → find_begin_sequence (a ∷ bs) ≡ found k
    → round crc (stream begin_seq (a ∷ bs) header n d)
      ≡ later_steps crc (stream header_1 (drop k (a ∷ bs)) header n d)
unfolding round begin_seq_step
round_found crc k a bs header n d e = rw (e, round)

begin_seq-Follows :
    (crc : Crc) (a : ℕ) (bs ys : List ℕ) (header n : ℕ) (d : Datagram)
    → Follows crc ys
        (round crc (stream begin_seq ((a ∷ bs) ++ ys) header n d))
        (round crc (stream begin_seq (a ∷ bs) header n d))
begin_seq-Follows crc a bs ys header n d = elim (find_begin_sequence_lem a bs) [
  | inl e ↦
      rw (round_not_found crc a bs header n d e) (round_not_found-append crc a bs ys header n d e)
  | inr (k, e, begins) ↦
      let left = length-drop k (a ∷ bs) in
      rw
        (
          round_found crc k a bs header n d e,
          round_found crc k a (bs ++ ys) header n d (find_begin_sequence-append_found k a bs ys e),
          drop-append k (a ∷ bs) ys (omega arith),
        )
        (header_1-Follows crc (drop k (a ∷ bs)) ys header n d begins)
]

round-Follows_at :
    (crc : Crc) (ys : List ℕ) (st : State) (buffer : List ℕ) (header n : ℕ) (d : Datagram)
    → Knows crc st buffer header n
    → IsReady (stream st buffer header n d)
    → Follows crc ys
        (round crc (stream st (buffer ++ ys) header n d))
        (round crc (stream st buffer header n d))
unfolding round begin_seq_step header_1_step header_2_step
round-Follows_at crc ys begin_seq [] header n d k (inl h) = absurd (h refl)
round-Follows_at crc ys begin_seq [] header n d k (inr h) = absurd (omega arith)
round-Follows_at crc ys begin_seq (a ∷ bs) header n d k r = begin_seq-Follows crc a bs ys header n d
round-Follows_at crc ys header_1 buffer header n d k r = header_1-Follows crc buffer ys header n d k
round-Follows_at crc ys header_2 buffer header n d k r = header_2-Follows crc buffer ys header n d k
round-Follows_at crc ys payload buffer header n d k r = payload-Follows crc buffer ys header n d k

-- A round with more bytes in the buffer does the same, and goes on where it had to wait.
pub round-Follows :
    (crc : Crc) (ys : List ℕ) (s : DatagramStream)
    → IsValid crc s
    → IsReady s
    → Follows crc ys (round crc (extend ys s)) (round crc s)
round-Follows crc ys s =
    round-Follows_at crc ys s.state s.buffer s.header_length s.payload_length s.datagram
