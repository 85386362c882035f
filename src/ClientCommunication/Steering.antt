-- ===== src/ClientCommunication/Steering.antt =====
-- What the receive handler does to the game logic.
use text.Mathlib.Text.{◌==◌ as str_eq}
use upzp_game_process.Prelude.{
  ℕ, ◌≡◌, inl, inr, true, false, Option, none, some, List, [], ◌∷◌, if◌then◌else◌, arith,
  Bool-cases, Option-cases,
}
use upzp_game_process.Datagram.{Crc, Datagram}
use upzp_game_process.Client.{PlayerInput}
use upzp_game_process.GameLogic.{GameLogic, set_player_movement}
use upzp_game_process.Wire.{Wire}
use upzp_game_process.ClientUdp.{
  ClientUdp, Endpoint, DecodeResult, decoded, rejects, decode_datagram,
}
use upzp_game_process.ClientCommunication.{
  ClientCommunication, done, after_decode, receive_loop, handle_receive,
}

module _ {R F : Type 0} (crc : Crc) (wire : Wire R F) (memory : Datagram)
    (Kept : GameLogic R F → Type 0)
    (steers : (input : PlayerInput F) (l : GameLogic R F)
      → Kept l
      → Kept (set_player_movement input l)) where
  -- What holds of the second of a pair, if there is one.
  abbrev Keeps : {A : Type 0} → Option (A × Option (GameLogic R F)) → Type 0
  Keeps none = Unit
  Keeps (some (a, none)) = ⊥
  Keeps (some (a, some l)) = Kept l

  after_decode-Keeps :
      (remote : Endpoint) (c : ClientUdp F) (l : GameLogic R F) (r : DecodeResult F)
      → Kept l
      → Keeps (after_decode remote c (some l) r)
  after_decode-Keeps remote c l (decoded true x) k = steers x.input l k
  after_decode-Keeps remote c l (decoded false x) k = k
  after_decode-Keeps remote c l (rejects x) k = k
  after_decode-Keeps remote c l DecodeResult.fault k = tt

  abbrev first_result :
      List ℕ
      → ℕ
      → Endpoint
      → ClientUdp F
      → GameLogic R F
      → Option (ClientUdp F × Option (GameLogic R F))
  first_result buffer size remote c l =
      if str_eq remote.address c.client.ip_v4
      then after_decode remote c (some l) (decode_datagram crc wire memory buffer size c)
      else some (c, some l)

  first_result-Keeps :
      (buffer : List ℕ) (size : ℕ) (remote : Endpoint) (c : ClientUdp F) (l : GameLogic R F)
      → Kept l
      → Keeps (first_result buffer size remote c l)
  first_result-Keeps buffer size remote c l k =
      elim (Bool-cases (str_eq remote.address c.client.ip_v4)) [
        | inl from ↦
            rw from
              (after_decode-Keeps remote c l (decode_datagram crc wire memory buffer size c) k)
        | inr other ↦ rw other k
      ]

  receive_loop-Keeps :
      (buffer : List ℕ) (size : ℕ) (remote : Endpoint) (cs : List (ClientUdp F)) (l : GameLogic R F)
      → Kept l
      → Keeps (receive_loop crc wire memory buffer size remote cs (some l))
  unfolding receive_loop
  receive_loop-Keeps buffer size remote [] l k = k
  receive_loop-Keeps buffer size remote (c ∷ cs) l k =
      let first = first_result-Keeps buffer size remote c l k in
      elim (Option-cases (first_result buffer size remote c l)) [
        | inl h ↦ rw (h, receive_loop) tt
        | inr ((d, none), h) ↦ absurd (rw h at first)
        | inr ((d, some l'), h) ↦
            let rest = receive_loop-Keeps buffer size remote cs l' (rw h at first) in
            elim (Option-cases (receive_loop crc wire memory buffer size remote cs (some l'))) [
              | inl e ↦ rw (h, receive_loop, e) tt
              | inr ((ds, none), e) ↦ absurd (rw e at rest)
              | inr ((ds, some last), e) ↦ rw (h, receive_loop, e) (rw e at rest)
            ]
      ]

  -- What every input keeps is kept by a received datagram whose handler returns.
  pub handle_receive-Keeps :
      (buffer : List ℕ) (size : ℕ) (remote : Endpoint) (comm : ClientCommunication F)
      → (l : GameLogic R F) (after : ClientCommunication F) (logic : Option (GameLogic R F))
      → Kept l
      → handle_receive crc wire memory buffer size remote comm (some l) ≡ done (after, logic)
      → (m : GameLogic R F) × (logic ≡ some m) × Kept m × (comm.locked ≡ false)
  unfolding handle_receive
  handle_receive-Keeps buffer size remote comm l after logic k e =
      let ends = receive_loop-Keeps buffer size remote comm.clients l k in
      elim (Option-cases (receive_loop crc wire memory buffer size remote comm.clients (some l))) [
        | inl h ↦ absurd (ground (arith, h))
        | inr ((ds, none), h) ↦ absurd (rw h at ends)
        | inr ((ds, some m), h) ↦ (m, ground (arith, h), rw h at ends, ground (arith, h))
      ]
