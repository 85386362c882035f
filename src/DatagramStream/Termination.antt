-- ===== src/DatagramStream/Termination.antt =====
-- How `FlushData` of datagram/datagram_stream.cpp ends.
use upzp_game_process.Prelude.{
  ℕ, zero, suc, ◌≤◌, ◌<◌, ◌≡◌, ◌↔◌, refl, ◌⊎◌, inl, inr, Bool, true, false, List, [], ◌∷◌, length,
  arith,
}
use upzp_game_process.Datagram.{Crc, Datagram}
use upzp_game_process.DatagramStream.{
  State, begin_seq, header_1, header_2, payload, DatagramStream, Progress, fault, returned, again,
  find_begin_sequence, begin_seq_step, round, flush_loop, flush_data,
}
use upzp_game_process.DatagramStream.Invariant.{IsValid, IsReady, RoundKeeps, round_keeps, stream}

-- How `FlushData` ends on a valid stream.
abbrev pub Ends : Crc → List ℕ → Progress → Type 0
Ends crc buffer r =
    (b : Bool) × (t : DatagramStream) × (r ≡ returned b t)
    × IsValid crc t
    × (b ≡ false → IsReady t)
    × (b ≡ true → length t.buffer < length buffer)

pub Progress-cases :
    (crc : Crc) (buffer : List ℕ) (r : Progress)
    → RoundKeeps crc buffer r
    → Ends crc buffer r
      ⊎ ((t : DatagramStream) × (r ≡ again t)
          × IsValid crc t
          × (0 < length t.buffer)
          × (length t.buffer < length buffer))
Progress-cases crc buffer fault k = absurd k
Progress-cases crc buffer (returned b t) k = inl (b, t, refl, k.0, k.2, k.3)
Progress-cases crc buffer (again t) k = inr (t, refl, k.0, k.1, k.2)

Ends-mono :
    (crc : Crc) (short long : List ℕ) (r : Progress)
    → length short ≤ length long
    → Ends crc short r
    → Ends crc long r
Ends-mono crc short long r h (b, t, e, v, ready, l) =
    (b, t, e, v, ready, λ done. let shorter = l done in omega arith)

pub flush_loop-Ends :
    (crc : Crc) (fuel : ℕ) (s : DatagramStream)
    → length s.buffer < fuel
    → IsValid crc s
    → IsReady s
    → Ends crc s.buffer (flush_loop crc fuel s)
unfolding flush_loop
flush_loop-Ends crc zero s h valid ready = absurd (omega arith)
flush_loop-Ends crc (suc fuel) s h valid ready =
    elim (Progress-cases crc s.buffer (round crc s) (round_keeps crc s valid ready)) [
      | inl (b, t, e, v, r, l) ↦ (b, t, rw (e, flush_loop) refl, v, r, l)
      | inr (t, e, v, pos, shorter) ↦
          rw (e, flush_loop)
            (Ends-mono crc t.buffer s.buffer (flush_loop crc fuel t) (omega arith)
              (flush_loop-Ends crc fuel t (omega arith) v (inr pos)))
    ]

pub flush_data-Ends :
    (crc : Crc) (s : DatagramStream)
    → IsValid crc s
    → IsReady s
    → Ends crc s.buffer (flush_data crc s)
unfolding flush_data
flush_data-Ends crc s valid ready =
    flush_loop-Ends crc (suc (length s.buffer)) s (omega arith) valid ready

Ends-sum :
    (crc : Crc) (buffer : List ℕ) (r : Progress)
    → Ends crc buffer r
    → ((t : DatagramStream) × (r ≡ returned true t)
        × IsValid crc t
        × (length t.buffer < length buffer))
      ⊎ ((t : DatagramStream) × (r ≡ returned false t) × IsValid crc t × IsReady t)
Ends-sum crc buffer r (true, t, e, v, ready, l) = inl (t, e, v, l refl)
Ends-sum crc buffer r (false, t, e, v, ready, l) = inr (t, e, v, ready refl)

-- On a valid stream that is not to search an empty buffer, `FlushData` returns. It answers true and
-- has taken bytes out of the buffer, or it answers false and is ready for another call; the stream
-- stays valid.
pub flush_data_returns :
    (crc : Crc) (s : DatagramStream)
    → IsValid crc s
    → IsReady s
    → ((t : DatagramStream) × (flush_data crc s ≡ returned true t)
        × IsValid crc t
        × (length t.buffer < length s.buffer))
      ⊎ ((t : DatagramStream) × (flush_data crc s ≡ returned false t) × IsValid crc t × IsReady t)
flush_data_returns crc s valid ready =
    Ends-sum crc s.buffer (flush_data crc s) (flush_data-Ends crc s valid ready)

pub IsReady-cases :
    (st : State) (buffer : List ℕ) (header n : ℕ) (d : Datagram)
    → IsReady (stream st buffer header n d) ⊎ ((st ≡ begin_seq) × (buffer ≡ []))
IsReady-cases st (a ∷ bs) header n d = inl (inr (omega arith))
IsReady-cases begin_seq [] header n d = inr (refl, refl)
IsReady-cases header_1 [] header n d = inl (inl (λ e. cc))
IsReady-cases header_2 [] header n d = inl (inl (λ e. cc))
IsReady-cases payload [] header n d = inl (inl (λ e. cc))

flush_data_empty :
    (crc : Crc) (st : State) (buffer : List ℕ) (header n : ℕ) (d : Datagram)
    → st ≡ begin_seq
    → buffer ≡ []
    → flush_data crc (stream st buffer header n d) ≡ fault
unfolding flush_data flush_loop round begin_seq_step find_begin_sequence
flush_data_empty crc st buffer header n d e f = rw (e, f) refl

-- `FlushData` on a valid stream has undefined behaviour exactly when it is to search an empty buffer
-- for a begin sequence.
pub flush_data-fault_iff :
    (crc : Crc) (s : DatagramStream)
    → IsValid crc s
    → (flush_data crc s ≡ fault) ↔ ((s.state ≡ begin_seq) × (s.buffer ≡ []))
flush_data-fault_iff crc s valid = (
  λ e. elim (IsReady-cases s.state s.buffer s.header_length s.payload_length s.datagram) [
    | inl ready ↦
        let (b, t, r, v, again_ready, shorter) = flush_data-Ends crc s valid ready in absurd (cc)
    | inr empty ↦ empty
  ],
  λ empty.
      flush_data_empty crc s.state s.buffer s.header_length s.payload_length s.datagram empty.0
        empty.1,
)
