-- ===== src/SubProcess/Steering.antt =====
-- The way of an input from the socket of client_communication/client_communication.cpp to a player of
-- game_logic/game.cpp.
use Prim.Native.String.{String}
use mathlib.Core.Option
use upzp_game_process.Prelude.{
  ℕ, ◌+◌, ◌%◌, ◌^◌, ◌<◌, ◌≡◌, refl, ap, ◌∙◌, ◌⊎◌, inl, inr, Bool, true, false, ltb, ◌==◌, Option,
  some, List, [], ◌∷◌, map, length, arith, Bool-cases,
}
use upzp_game_process.Doubles.{Doubles}
use upzp_game_process.Datagram.{Crc, Datagram, get, header_size}
use upzp_game_process.DatagramStream.{DatagramStream}
use upzp_game_process.SubProcessSettings.{SubProcessSettings}
use upzp_game_process.Client.{PlayerInput}
use upzp_game_process.Player.{Player, set_input}
use upzp_game_process.Team.{set_first_input, set_player_input}
use upzp_game_process.Game.{Draw, Game, set_input_in_game}
use upzp_game_process.GameLogic.{GameLogic, set_player_movement}
use upzp_game_process.Wire.{Wire, InputTable}
use upzp_game_process.ClientUdp.{Endpoint, datagram_player_input_ver}
use upzp_game_process.ClientCommunication.Hearing.{
  awaited, hearing, input_of, handle_receive-get_input,
}
use upzp_game_process.SubProcess.{SubProcess, boot, receive_udp, after_udp}
use upzp_game_process.SubProcess.Steps.{Reaches}
use upzp_game_process.SubProcess.Names.{count, ids, players_with}
use upzp_game_process.SubProcess.Soundness.{Reaches-IsSound}
use upzp_game_process.SubProcess.Boot.{boot-IsSound}

module _ {R F : Type 0} where
  -- One of the players has the input's ID and that input.
  abbrev pub HasInput : PlayerInput F → List (Player R F) → Type 0
  HasInput input [] = ⊥
  HasInput input (p ∷ ps) = ((p.id ≡ input.id) × (p.input ≡ input)) ⊎ HasInput input ps

  set_first_input-HasInput :
      (input : PlayerInput F) (ps : List (Player R F))
      → 0 < count input.id (ids ps)
      → HasInput input (set_first_input input ps)
  unfolding set_first_input set_input
  set_first_input-HasInput input [] some_one = absurd (omega arith)
  set_first_input-HasInput input (p ∷ ps) some_one = elim (Bool-cases (p.id == input.id)) [
    | inl hit ↦ rw hit (inl (ground arith, refl))
    | inr miss ↦
        rw miss (inr (set_first_input-HasInput input ps (omega (arith, rw miss at some_one))))
  ]

  -- A player of one of the teams has it.
  abbrev pub Steers : PlayerInput F → Game R F → Type 0
  Steers input h = HasInput input h.red_team.players ⊎ HasInput input h.blue_team.players

  set_input_in_game-Steers :
      (input : PlayerInput F) (g : Game R F)
      → 0 < players_with input.id g
      → Steers input (set_input_in_game input g)
  unfolding set_input_in_game set_player_input
  set_input_in_game-Steers input g there =
      elim (Bool-cases (ltb 0 (count input.id (ids g.red_team.players)))) [
        | inl red ↦ inl (set_first_input-HasInput input g.red_team.players (ground arith))
        | inr blue ↦ inr (set_first_input-HasInput input g.blue_team.players (ground arith))
      ]

  set_player_movement-Steers :
      (input : PlayerInput F) (l : GameLogic R F) (g : Game R F)
      → l.game ≡ some g
      → 0 < players_with input.id g
      → (h : Game R F) × (set_player_movement input l ≡ record l { game = some h }) × Steers input h
  unfolding set_player_movement
  set_player_movement-Steers input l g e there = (
    set_input_in_game input g,
    ap (λ (o : Option (Game R F)). record l { game = Option.map (set_input_in_game input) o }) e,
    set_input_in_game-Steers input g there,
  )

module _ {R F : Type 0} (fl : Doubles R F) (bind : ℕ → Bool) (settings : SubProcessSettings R)
    (draw : ℕ → Draw R) (stream : DatagramStream) (created now : ℕ)
    (make_address : String → Option String) (crc : Crc) (wire : Wire R F) (memory : Datagram) where
  -- A state that comes from the start by steps of the threads in any order, with no undefined
  -- behaviour so far and the mutex free, receives an input on the UDP side: a datagram as `Get` builds
  -- it, with the version of inputs, in less than 2 ^ 32 bytes, whose payload reads as this table. If a
  -- client with the table's ID, the sender's address and a smaller last sequence number is there, and
  -- a player of the game with the table's ID, the handler returns; every such client has the input, its sequence number and the sender's endpoint,
  -- and all other clients stay as they were; the game gets the input and nothing else changes; and one
  -- of the players has the table's ID and the input.
  pub receive_udp-Steers :
      (p q : SubProcess R F) (d : Datagram) (table : InputTable F) (remote : Endpoint)
      → (g : Game R F) → boot fl bind settings draw stream created now ≡ some p
      → Reaches fl make_address crc wire memory p q
      → q.comm.locked ≡ false
      → d.version % 256 ≡ datagram_player_input_ver
      → header_size d.payload_checksum_included + length d.payload < 2 ^ 32
      → wire.get_input d.payload ≡ some table
      → awaited remote table q.comm.clients ≡ true
      → q.logic.game ≡ some g
      → 0 < players_with table.id g
      → (h : Game R F) × (receive_udp crc wire memory (get crc d) (length (get crc d)) remote q
          ≡ some (record q {
            comm = record q.comm { clients = map (hearing remote table) q.comm.clients };
            logic = set_player_movement (input_of table) q.logic;
          }))
        × (set_player_movement (input_of table) q.logic ≡ record q.logic { game = some h })
        × Steers (input_of table) h
  unfolding receive_udp
  receive_udp-Steers p q d table remote g booted reached free version small reads some_one at
        there =
      let k =
        Reaches-IsSound fl created crc wire memory make_address reached
          (boot-IsSound fl bind settings draw stream created now p booted) in
      let (h, same, steers) = set_player_movement-Steers (input_of table) q.logic g at there in
      let heard =
        handle_receive-get_input crc wire memory d table version small reads remote q.comm q.logic
          k.named free in
      (h, ap (after_udp q) heard ∙ rw some_one refl, same, steers)
