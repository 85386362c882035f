-- ===== src/DatagramStream/Invariant.antt =====
-- What is true of a stream between two rounds of the loop, and that a round keeps it.
use upzp_game_process.Prelude.{
  ℕ, ◌+◌, ◌-◌, false, ◌≤◌, ◌<◌, ◌≡◌, ◌≢◌, refl, ap, suc, ◌==◌, ◌⊎◌, inl, inr, true, false, ◌&&◌,
  List, [], ◌∷◌, length, take, drop, arith, byte_at, u32_at, length-drop, Bool-cases, leb, leb→le,
}
use upzp_game_process.Datagram.{Crc, Datagram, loaded, load, load_payload}
use upzp_game_process.Datagram.Safety.{announced_header, HasHeader, stored, load-HasHeader_eq}
use upzp_game_process.DatagramStream.{
  State, begin_seq, header_1, header_2, payload, DatagramStream, Progress, fault, returned, again,
  not_found, found, find_from, find_begin_sequence, begin_seq_step, header_1_step, header_correct,
  header_2_step, payload_step, later_steps, round,
}

abbrev pub BeginsDatagram : List ℕ → Type 0
BeginsDatagram buffer = (2 ≤ length buffer) × (byte_at buffer 0 ≡ 0xDA) × (byte_at buffer 1 ≡ 0xAB)

-- What each state knows of the buffer.
abbrev pub Knows : Crc → State → List ℕ → ℕ → ℕ → Type 0
Knows crc begin_seq buffer header n = Unit {0}
Knows crc header_1 buffer header n = BeginsDatagram buffer
Knows crc header_2 buffer header n =
    BeginsDatagram buffer × (12 ≤ length buffer) × (header ≡ announced_header buffer)
Knows crc payload buffer header n =
    (header ≡ announced_header buffer)
    × (header_correct crc buffer header ≡ true)
    × (n ≡ u32_at buffer 4)

abbrev pub IsValid : Crc → DatagramStream → Type 0
IsValid crc s = Knows crc s.state s.buffer s.header_length s.payload_length

-- There is a byte to look at, or nothing to search.
abbrev pub IsReady : DatagramStream → Type 0
IsReady s = (s.state ≢ begin_seq) ⊎ (0 < length s.buffer)

find_from_lem :
    (i a : ℕ) (bs : List ℕ)
    → (find_from i a bs ≡ not_found)
      ⊎ ((k : ℕ) × (find_from i a bs ≡ found (i + k)) × BeginsDatagram (drop k (a ∷ bs)))
unfolding find_from
find_from_lem i a [] = inl refl
find_from_lem i a (b ∷ bs) = elim (Bool-cases (a == 0xDA && b == 0xAB)) [
  | inl here ↦ inr (0, rw here (ap found (omega arith)), ground arith)
  | inr later ↦ elim (find_from_lem (i + 1) b bs) [
    | inl e ↦ inl (rw later e)
    | inr (k, e, begins) ↦ inr (suc k, rw later (rw e (ap found (omega arith))), begins)
  ]
]

-- `FindBeginSequence` finds nothing, or the place of a begin sequence.
pub find_begin_sequence_lem :
    (a : ℕ) (bs : List ℕ)
    → (find_begin_sequence (a ∷ bs) ≡ not_found)
      ⊎ ((k : ℕ) × (find_begin_sequence (a ∷ bs) ≡ found k) × BeginsDatagram (drop k (a ∷ bs)))
unfolding find_begin_sequence
find_begin_sequence_lem a bs = elim (find_from_lem 0 a bs) [
  | inl e ↦ inl e
  | inr (k, e, begins) ↦ inr (k, rw e (ap found (omega arith)), begins)
]

pub announced-le : (buffer : List ℕ) → 12 ≤ announced_header buffer
announced-le buffer = ground arith

-- A header that `HeaderCorrect` accepts is one that `Load` accepts.
HeaderCorrect-HasHeader :
    (crc : Crc) (buffer : List ℕ) (header size : ℕ)
    → header ≡ announced_header buffer
    → header_correct crc buffer header ≡ true
    → header ≤ size
    → HasHeader crc buffer size
unfolding header_correct
HeaderCorrect-HasHeader crc buffer header size e h fits = ground arith

-- What `FlushData` relies on in the state PAYLOAD: for a header that `HeaderCorrect` accepts, with
-- the header size that its flag announces and the payload complete in the buffer, `Load` does not
-- throw, and its payload is the bytes behind the header.
pub load_accepts :
    (crc : Crc) (d : Datagram) (buffer : List ℕ) (header n : ℕ)
    → header ≡ announced_header buffer
    → header_correct crc buffer header ≡ true
    → n ≡ u32_at buffer 4
    → header + n ≤ length buffer
    → load crc d buffer (header + n)
      ≡ (record (stored d buffer) { payload = take n (drop header buffer) }, loaded)
unfolding load_payload
load_accepts crc d buffer header n e h en fits =
    rw
      (load-HasHeader_eq crc d buffer (header + n)
        (HeaderCorrect-HasHeader crc buffer header (header + n) e h (omega arith)))
      (ground arith)

-- What a round over a buffer may end with.
abbrev pub RoundKeeps : Crc → List ℕ → Progress → Type 0
RoundKeeps crc buffer fault = ⊥
RoundKeeps crc buffer (returned b s) =
    IsValid crc s
    × (length s.buffer ≤ length buffer)
    × (b ≡ false → IsReady s)
    × (b ≡ true → length s.buffer < length buffer)
RoundKeeps crc buffer (again s) =
    IsValid crc s × (0 < length s.buffer) × (length s.buffer < length buffer)

abbrev pub stream : State → List ℕ → ℕ → ℕ → Datagram → DatagramStream
stream st buffer header n d = record {
  state = st;
  buffer = buffer;
  header_length = header;
  payload_length = n;
  datagram = d;
}

module _ (crc : Crc) (buffer : List ℕ) (header n : ℕ) (d : Datagram) where
  payload_keeps :
      Knows crc payload buffer header n
      → RoundKeeps crc buffer (payload_step crc (stream payload buffer header n d, false))
  unfolding payload_step
  payload_keeps k = elim (Bool-cases (leb (header + n) (length buffer))) [
    | inl fits ↦
        let shorter = length-drop (header + n) buffer in
        let room : header + n ≤ length buffer = leb→le _ _ fits in
        rw (fits, load_accepts crc d buffer header n k.0 k.1 k.2 room)
          (tt, omega arith, λ e. cc, λ _. omega (arith, room, k.0, announced-le buffer))
    | inr waits ↦ rw waits (k, omega arith, λ _. inl (λ e. cc), λ e. cc)
  ]

module _ (crc : Crc) (buffer : List ℕ) (header n : ℕ) (d : Datagram) where
  header_2_keeps :
      Knows crc header_2 buffer header n
      → RoundKeeps crc buffer
          (payload_step crc (header_2_step crc (stream header_2 buffer header n d)))
  unfolding header_2_step payload_step
  header_2_keeps k = elim (Bool-cases (leb header (length buffer))) [
    | inl fits ↦ elim (Bool-cases (header_correct crc buffer header)) [
      | inl good ↦
          rw (fits, good) (payload_keeps crc buffer header (u32_at buffer 4) d (k.2, good, refl))
      | inr bad ↦
          let shorter = length-drop 1 buffer in rw (fits, bad) (tt, omega arith, omega arith)
    ]
    | inr waits ↦ rw waits (k, omega arith, λ _. inl (λ e. cc), λ e. cc)
  ]

module _ (crc : Crc) (buffer : List ℕ) (header n : ℕ) (d : Datagram) where
  header_1_keeps :
      Knows crc header_1 buffer header n
      → RoundKeeps crc buffer (later_steps crc (stream header_1 buffer header n d))
  unfolding header_1_step header_2_step payload_step
  header_1_keeps k = elim (Bool-cases (leb 12 (length buffer))) [
    | inl fits ↦
        rw fits (header_2_keeps crc buffer (announced_header buffer) n d (k, leb→le _ _ fits, refl))
    | inr waits ↦ rw waits (k, omega arith, λ _. inl (λ e. cc), λ e. cc)
  ]

RoundKeeps-mono :
    (crc : Crc) (short long : List ℕ) (r : Progress)
    → length short ≤ length long
    → RoundKeeps crc short r
    → RoundKeeps crc long r
RoundKeeps-mono crc short long fault h k = k
RoundKeeps-mono crc short long (returned b s) h k =
    (k.0, omega arith, k.2, λ e. let shorter = k.3 e in omega arith)
RoundKeeps-mono crc short long (again s) h k = (k.0, k.1, omega arith)

begin_seq_keeps :
    (crc : Crc) (a : ℕ) (bs : List ℕ) (header n : ℕ) (d : Datagram)
    → RoundKeeps crc (a ∷ bs) (round crc (stream begin_seq (a ∷ bs) header n d))
unfolding round begin_seq_step header_1_step header_2_step payload_step
begin_seq_keeps crc a bs header n d = elim (find_begin_sequence_lem a bs) [
  | inl e ↦
      let kept = length-drop (suc (length bs) - 1) (a ∷ bs) in
      rw (e, round) (tt, omega arith, λ _. inr (omega arith), λ e. cc)
  | inr (k, e, begins) ↦
      let shorter = length-drop k (a ∷ bs) in
      rw (e, round)
        (RoundKeeps-mono crc (drop k (a ∷ bs)) (a ∷ bs) _ (omega arith)
          (header_1_keeps crc (drop k (a ∷ bs)) header n d begins))
]

RoundKeeps-at :
    (crc : Crc) (st : State) (buffer : List ℕ) (header n : ℕ) (d : Datagram)
    → Knows crc st buffer header n
    → IsReady (stream st buffer header n d)
    → RoundKeeps crc buffer (round crc (stream st buffer header n d))
unfolding round begin_seq_step header_1_step header_2_step
RoundKeeps-at crc begin_seq [] header n d k (inl h) = absurd (h refl)
RoundKeeps-at crc begin_seq [] header n d k (inr h) = absurd (omega arith)
RoundKeeps-at crc begin_seq (a ∷ bs) header n d k r = begin_seq_keeps crc a bs header n d
RoundKeeps-at crc header_1 buffer header n d k r = header_1_keeps crc buffer header n d k
RoundKeeps-at crc header_2 buffer header n d k r = header_2_keeps crc buffer header n d k
RoundKeeps-at crc payload buffer header n d k r = payload_keeps crc buffer header n d k

-- A round of a valid stream ends well: without a fault, in a valid stream, with a shorter buffer
-- that is not empty if there is another round, and ready for another call if it returns false.
pub round_keeps :
    (crc : Crc) (s : DatagramStream)
    → IsValid crc s
    → IsReady s
    → RoundKeeps crc s.buffer (round crc s)
round_keeps crc s = RoundKeeps-at crc s.state s.buffer s.header_length s.payload_length s.datagram
