-- ===== src/DatagramStream/BeginSequence.antt =====
-- `FindBeginSequence` in a buffer that grows at its end.
use upzp_game_process.Prelude.{
  ℕ, suc, ◌+◌, ◌-◌, ◌≡◌, refl, sym, ap, ◌∙◌, inl, inr, ◌&&◌, ◌==◌, List, [], ◌∷◌, ◌++◌, length,
  drop, length-append, drop-drop, Bool-cases, arith, some,
}
use upzp_game_process.Datagram.{Datagram}
use upzp_game_process.DatagramStream.{
  State, begin_seq, header_1, Search, out_of_bounds, not_found, found, find_from,
  find_begin_sequence, cut_to, begin_seq_step,
}
use upzp_game_process.DatagramStream.Invariant.{stream}

abbrev pub last : ℕ → List ℕ → ℕ
last a [] = a
last a (b ∷ bs) = last b bs

-- A search from `k` bytes earlier on.
abbrev pub shift : ℕ → Search → Search
shift k out_of_bounds = out_of_bounds
shift k not_found = not_found
shift k (found p) = found (p + k)

find_from-shift : (i k a : ℕ) (bs : List ℕ) → find_from (i + k) a bs ≡ shift k (find_from i a bs)
unfolding find_from
find_from-shift i k a [] = refl
find_from-shift i k a (b ∷ bs) = elim (Bool-cases (a == 0xDA && b == 0xAB)) [
  | inl here ↦ rw here refl
  | inr later ↦
      rw later (ap (λ (j : ℕ). find_from j b bs) (omega arith) ∙ find_from-shift (i + 1) k b bs)
]

find_from-append_found :
    (i p a : ℕ) (bs ys : List ℕ) → find_from i a bs ≡ found p → find_from i a (bs ++ ys) ≡ found p
unfolding find_from
find_from-append_found i p a [] ys e = cc
find_from-append_found i p a (b ∷ bs) ys e =
    ground (arith, find_from-append_found (i + 1) p b bs ys)

find_from-append_not_found :
    (i a : ℕ) (bs ys : List ℕ)
    → find_from i a bs ≡ not_found
    → find_from i a (bs ++ ys) ≡ find_from (i + length bs) (last a bs) ys
unfolding find_from
find_from-append_not_found i a [] ys e = ap (λ (j : ℕ). find_from j a ys) (omega arith)
find_from-append_not_found i a (b ∷ bs) ys e = elim (Bool-cases (a == 0xDA && b == 0xAB)) [
  | inl here ↦ absurd (cc (rw here at e))
  | inr later ↦ rw later (
      find_from-append_not_found (i + 1) b bs ys (rw later at e)
      ∙ ap (λ (j : ℕ). find_from j (last b bs) ys) (omega arith))
]

pub drop-last : (a : ℕ) (bs ys : List ℕ) → drop (length bs) ((a ∷ bs) ++ ys) ≡ last a bs ∷ ys
drop-last a [] ys = refl
drop-last a (b ∷ bs) ys = drop-last b bs ys

pub find_begin_sequence-append_found :
    (k a : ℕ) (bs ys : List ℕ)
    → find_begin_sequence (a ∷ bs) ≡ found k
    → find_begin_sequence ((a ∷ bs) ++ ys) ≡ found k
unfolding find_begin_sequence
find_begin_sequence-append_found k a bs ys e = find_from-append_found 0 k a bs ys e

find_begin_sequence-append_not_found :
    (a : ℕ) (bs ys : List ℕ)
    → find_begin_sequence (a ∷ bs) ≡ not_found
    → find_begin_sequence ((a ∷ bs) ++ ys)
      ≡ shift (length bs) (find_begin_sequence (last a bs ∷ ys))
unfolding find_begin_sequence
find_begin_sequence-append_not_found a bs ys e =
    find_from-append_not_found 0 a bs ys e ∙ find_from-shift 0 (length bs) (last a bs) ys

drop_behind :
    (a : ℕ) (bs ys : List ℕ) (k : ℕ)
    → drop (k + length bs) ((a ∷ bs) ++ ys) ≡ drop k (last a bs ∷ ys)
drop_behind a bs ys k =
    sym (drop-drop k (length bs) ((a ∷ bs) ++ ys)) ∙ ap (drop k) (drop-last a bs ys)

cut_to-shift :
    (st : State) (a : ℕ) (bs ys : List ℕ) (header n : ℕ) (d : Datagram) (r : Search)
    → cut_to (stream st ((a ∷ bs) ++ ys) header n d) (shift (length bs) r)
      ≡ cut_to (stream st (last a bs ∷ ys) header n d) r
cut_to-shift st a bs ys header n d out_of_bounds = refl
cut_to-shift st a bs ys header n d not_found =
    ap (λ (b : List ℕ). some (stream st b header n d))
      (ap (λ (k : ℕ). drop k ((a ∷ bs) ++ ys)) (omega (arith, length-append bs ys))
        ∙ drop_behind a bs ys (suc (length ys) - 1))
cut_to-shift st a bs ys header n d (found p) =
    ap (λ (b : List ℕ). some (stream header_1 b header n d)) (drop_behind a bs ys p)

-- What is cut off without a begin sequence is not missed when more bytes come.
pub begin_seq_step-append :
    (a : ℕ) (bs ys : List ℕ) (header n : ℕ) (d : Datagram)
    → find_begin_sequence (a ∷ bs) ≡ not_found
    → begin_seq_step (stream begin_seq ((a ∷ bs) ++ ys) header n d)
      ≡ begin_seq_step (stream begin_seq (last a bs ∷ ys) header n d)
unfolding begin_seq_step
begin_seq_step-append a bs ys header n d e =
    rw (find_begin_sequence-append_not_found a bs ys e)
      (cut_to-shift begin_seq a bs ys header n d _)
