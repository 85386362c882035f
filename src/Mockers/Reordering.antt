-- ===== src/Mockers/Reordering.antt =====
-- The inputs that the mocked client sends, in whatever order UDP delivers them.
use mathlib.Core.List.{Permᴰ}
use upzp_game_process.Prelude.{
  ℕ, ◌<◌, ◌≡◌, refl, sym, ap, subst, ◌∙◌, ◌^◌, All, map, inl, inr, Bool, some, List, [], ◌∷◌, ltb,
  if◌then◌else◌, arith, Bool-cases, ==_iff,
}
use upzp_game_process.Datagram.{Crc, Datagram}
use upzp_game_process.Client.{Client}
use upzp_game_process.Wire.{Wire}
use upzp_game_process.ClientUdp.{ClientUdp, take_input}
use upzp_game_process.Mockers.{MockerWire}
use upzp_game_process.Mockers.Inputs.{Press, table_of, hear_result, Reads, hear_all, sent_arrives}

module _ {F : Type 0} (moves : ℕ → Bool) (dirs : ℕ → F) where
  -- The input with this sequence number.
  abbrev pub press : ℕ → Press F
  press k = record { seq = k; move = moves k; dir = dirs k }

  -- The client after one of its own inputs.
  abbrev newer : ℕ → ClientUdp F → ClientUdp F
  newer k c =
      if ltb c.last_sequence k
      then record c {
        input = record c.input { move = moves k; direction = dirs k };
        last_sequence = k;
      }
      else c

  abbrev newest : List ℕ → ClientUdp F → ClientUdp F
  newest [] c = c
  newest (k ∷ ks) c = newest ks (newer k c)

  newer_lt : (k m : ℕ) (c : ClientUdp F) → k < m → newer m (newer k c) ≡ newer k (newer m c)
  newer_lt k m c less = elim (Bool-cases (ltb c.last_sequence k)) [
    | inl a ↦ elim (Bool-cases (ltb c.last_sequence m)) [
      | inl b ↦ ground arith
      | inr b ↦ ground arith
    ]
    | inr a ↦ elim (Bool-cases (ltb c.last_sequence m)) [
      | inl b ↦ ground arith
      | inr b ↦ ground arith
    ]
  ]

  newer_comm : (k m : ℕ) (c : ClientUdp F) → newer m (newer k c) ≡ newer k (newer m c)
  newer_comm k m c = elim (Bool-cases (ltb k m)) [
    | inl less ↦ newer_lt k m c (ground arith)
    | inr not_less ↦ elim (Bool-cases (ltb m k)) [
      | inl more ↦ sym (newer_lt m k c (ground arith))
      | inr not_more ↦
          let same : k ≡ m = ground arith in
          subst (λ (x : ℕ). newer x (newer k c) ≡ newer k (newer x c)) same refl
    ]
  ]

  newest-Permᴰ : {ks ms : List ℕ} → Permᴰ ks ms → (c : ClientUdp F) → newest ks c ≡ newest ms c
  newest-Permᴰ Permᴰ.nil c = refl
  newest-Permᴰ (Permᴰ.cons {a = a} {l₂ = ms} e d) c =
      newest-Permᴰ d (newer a c) ∙ ap (λ (x : ℕ). newest ms (newer x c)) e
  newest-Permᴰ (Permᴰ.swap {a = a} {b = b} {a' = a'} {b' = b'} {l = l} e f) c = ap (newest l) (
      newer_comm a b c
      ∙ ap (λ (x : ℕ). newer x (newer b c)) e
      ∙ ap (λ (x : ℕ). newer b' (newer x c)) f)
  newest-Permᴰ (Permᴰ.trans d f) c = newest-Permᴰ d c ∙ newest-Permᴰ f c

  newer_client : (k : ℕ) (c : ClientUdp F) → (newer k c).client ≡ c.client
  newer_client k c = ground arith

All-Permᴰ : (P : ℕ → Type 0) {ks ms : List ℕ} → Permᴰ ks ms → All P ks → All P ms
All-Permᴰ P Permᴰ.nil k = tt
All-Permᴰ P (Permᴰ.cons e d) (k, ks) = (subst P e k, All-Permᴰ P d ks)
All-Permᴰ P (Permᴰ.swap e f) (k, (m, ks)) = (subst P f m, (subst P e k, ks))
All-Permᴰ P (Permᴰ.trans d f) k = All-Permᴰ P f (All-Permᴰ P d k)

module _ {R F : Type 0} (crc : Crc) (wire : Wire R F) (mw : MockerWire R F) (memory : Datagram)
    (id : ℕ) (moves : ℕ → Bool) (dirs : ℕ → F)
    (reads : (k : ℕ) → k < 2 ^ 64 → Reads crc wire mw memory id (press moves dirs k)) where
  take_input-newer :
      (k : ℕ) (c : ClientUdp F)
      → id ≡ c.client.id
      → hear_result crc wire mw memory id
          (take_input (table_of crc wire mw memory id (press moves dirs k)) c)
        ≡ some (newer moves dirs k c)
  unfolding take_input
  take_input-newer k c same = elim (Bool-cases (ltb c.last_sequence k)) [
    | inl fresh ↦ rw (fresh, (==_iff id c.client.id).1 same) refl
    | inr old ↦ rw old refl
  ]

  hear_all-newest :
      (ks : List ℕ) (c : ClientUdp F)
      → id ≡ c.client.id
      → All (λ k. k < 2 ^ 64) ks
      → hear_all crc wire mw memory id (map (press moves dirs) ks) c ≡ some (newest moves dirs ks c)
  unfolding hear_all
  hear_all-newest [] c same small = refl
  hear_all-newest (k ∷ ks) c same (fits, small) =
      let heard = sent_arrives crc wire mw memory id (press moves dirs k) c (reads k fits) in
      let taken = ap (hear_result crc wire mw memory id) heard ∙ take_input-newer k c same in
      rw (hear_all, taken)
        (hear_all-newest ks (newer moves dirs k c)
          (same ∙ sym (ap (λ (x : Client). x.id) (newer_client moves dirs k c))) small)

  -- A client's mocker sends inputs with sequence numbers of 64 bits, one input for each number, in
  -- messages of less than 2 ^ 32 bytes that read back as they were built. Whatever order those that
  -- arrive come in, and though some come more than once, every one is decoded, and the client object
  -- with their ID ends up in the same state.
  pub hear_all_comm :
      (ks ms : List ℕ) (c : ClientUdp F)
      → id ≡ c.client.id
      → All (λ k. k < 2 ^ 64) ks
      → Permᴰ ks ms
      → (d : ClientUdp F) × (hear_all crc wire mw memory id (map (press moves dirs) ks) c ≡ some d)
        × (hear_all crc wire mw memory id (map (press moves dirs) ms) c ≡ some d)
  hear_all_comm ks ms c same small d = (
    newest moves dirs ks c,
    hear_all-newest ks c same small,
    hear_all-newest ms c same (All-Permᴰ (λ k. k < 2 ^ 64) d small)
        ∙ ap some (sym (newest-Permᴰ moves dirs d c)),
  )
