-- ===== src/Mockers/Strangers.antt =====
-- The inputs of the client's mocker, in a sub-process with the players of the main process's mocker.
use text.Mathlib.Text.{◌==◌ as str_eq}
use upzp_game_process.Prelude.{
  ℕ, zero, suc, ◌+◌, ◌%◌, ◌^◌, ◌<◌, ◌≡◌, ◌≢◌, refl, ap, ◌∙◌, inl, inr, true, false, Option, some,
  Bool, List, [], ◌∷◌, ◌++◌, length, All, All-append, arith, Bool-cases,
}
use upzp_game_process.Datagram.{Crc, Datagram}
use upzp_game_process.GameLogic.{GameLogic}
use upzp_game_process.Wire.{Wire}
use upzp_game_process.ClientUdp.{ClientUdp, Endpoint, decoded, take_input}
use upzp_game_process.ClientCommunication.{ClientCommunication, done, receive_loop, handle_receive}
use upzp_game_process.SubProcess.Names.{client_ids}
use upzp_game_process.Mockers.{MockerWire}
use upzp_game_process.Mockers.Roster.{ids_from}
use upzp_game_process.Mockers.Inputs.{Press, Reads, sent, sent_arrives, table_of}
use upzp_game_process.Mockers.Programs.{transmit}

ids_from-ne :
    (first_id rounds i : ℕ)
    → 1 < first_id
    → first_id + i + rounds < 2 ^ 32
    → All (λ n. n ≢ 1) (ids_from first_id rounds i)
ids_from-ne first_id zero i big fits = tt
ids_from-ne first_id (suc rounds) i big fits =
    (λ e. omega arith, ids_from-ne first_id rounds (i + 1) big (omega arith))

module _ {R F : Type 0} (crc : Crc) (wire : Wire R F) (mw : MockerWire R F) (memory : Datagram)
    (id : ℕ) (p : Press F) (reads : Reads crc wire mw memory id p) where
  take_other :
      (c : ClientUdp F)
      → c.client.id ≢ id
      → take_input (table_of crc wire mw memory id p) c ≡ decoded false c
  unfolding take_input
  take_other c other = ground arith

  receive_loop_same :
      (remote : Endpoint) (cs : List (ClientUdp F)) (logic : Option (GameLogic R F))
      → All (λ n. n ≢ id) (client_ids cs)
      → let bytes = sent crc wire mw memory id p in
        receive_loop crc wire memory bytes (length bytes) remote cs logic ≡ some (cs, logic)
  unfolding receive_loop
  receive_loop_same remote [] logic others = refl
  receive_loop_same remote (c ∷ cs) logic (other, others) =
      let rest = receive_loop_same remote cs logic others in
      let same = sent_arrives crc wire mw memory id p c reads ∙ take_other c other in
      elim (Bool-cases (str_eq remote.address c.client.ip_v4)) [
        | inl from ↦ rw (from, same, receive_loop, rest) refl
        | inr far ↦ rw (far, receive_loop, rest) refl
      ]

module _ {R F : Type 0} (crc : Crc) (wire : Wire R F) (mw : MockerWire R F)
    (memory : Datagram) where
  -- What the client's mocker sends at any round of its timer, in a message that is shorter than
  -- 2 ^ 32 bytes less a header and reads back as it was built, changes nothing in a sub-process whose
  -- clients have IDs from 1000 and from 2000 on, as the main process's mocker gives them: the handler
  -- returns with all clients and the game logic as they were.
  pub handle_receive-transmit :
      (direction : F) (seq size red blue : ℕ) (remote : Endpoint) (comm : ClientCommunication F)
      → (logic : Option (GameLogic R F))
      → let (next, server, bytes) = transmit crc mw memory direction seq in
        Reads crc wire mw memory 1 (record { seq = next; move = true; dir = direction })
        → 1000 + red < 2 ^ 32
        → 2000 + blue < 2 ^ 32
        → client_ids comm.clients ≡ ids_from 1000 red 0 ++ ids_from 2000 blue 0
        → comm.locked ≡ false
        → size ≡ length bytes
        → handle_receive crc wire memory bytes size remote comm logic ≡ done (comm, logic)
  unfolding handle_receive transmit
  handle_receive-transmit direction seq size red blue remote comm logic reads few few' roster free
        all =
      let p : Press F = record { seq = (seq + 1) % 2 ^ 64; move = true; dir = direction } in
      let others : All (λ n. n ≢ 1) (client_ids comm.clients) = rw roster (
        All-append (λ n. n ≢ 1) (ids_from 1000 red 0) (ids_from 2000 blue 0)
          (ids_from-ne 1000 red 0 (omega arith) (omega arith))
          (ids_from-ne 2000 blue 0 (omega arith) (omega arith))) in
      let same = receive_loop_same crc wire mw memory 1 p reads remote comm.clients logic others in
      rw (free, all, same) (ap (λ (held : Bool). done (record comm { locked = held }, logic)) free)
