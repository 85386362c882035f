-- ===== src/ClientCommunication/Hearing.antt =====
-- What the receive handler does with a datagram that holds an input.
use mathlib.Core.Option
use text.Mathlib.Text.{◌==◌ as str_eq}
use upzp_game_process.Prelude.{
  ℕ, ◌+◌, ◌%◌, ◌^◌, ◌<◌, ◌≡◌, refl, ap, ◌∙◌, inl, inr, Bool, true, false, ◌&&◌, ◌||◌, ◌==◌, ltb,
  Option, none, some, List, [], ◌∷◌, map, length, All, if◌then◌else◌, arith, Bool-cases,
}
use upzp_game_process.Datagram.{Crc, Datagram, get, header_size}
use upzp_game_process.Client.{PlayerInput}
use upzp_game_process.Player.{Player, set_input}
use upzp_game_process.Team.{set_first_input, set_player_input}
use upzp_game_process.Game.{Game, set_input_in_game}
use upzp_game_process.GameLogic.{GameLogic, set_player_movement}
use upzp_game_process.Wire.{Wire, InputTable}
use upzp_game_process.ClientUdp.{
  ClientUdp, Endpoint, decode_datagram, take_input, take_message, datagram_player_input_ver,
}
use upzp_game_process.ClientUdp.Sequence.{decode_datagram-get}
use upzp_game_process.ClientCommunication.{
  ClientCommunication, done, connected, after_decode, receive_loop, handle_receive,
}

module _ {F : Type 0} where
  -- The client has the input's ID and the sender's address, and the input is newer than its last one.
  abbrev pub awaits : Endpoint → InputTable F → ClientUdp F → Bool
  awaits remote table c =
      str_eq remote.address c.client.ip_v4
      && (ltb c.last_sequence table.sequence && table.id == c.client.id)

  -- The client after the input, if it awaits it.
  abbrev pub hearing : Endpoint → InputTable F → ClientUdp F → ClientUdp F
  hearing remote table c =
      if awaits remote table c
      then record c {
        input = record c.input { move = table.move; direction = table.direction };
        last_sequence = table.sequence;
        remote_endpoint = remote;
        first_connection = false;
      }
      else c

  abbrev pub awaited : Endpoint → InputTable F → List (ClientUdp F) → Bool
  awaited remote table [] = false
  awaited remote table (c ∷ cs) = awaits remote table c || awaited remote table cs

  abbrev pub input_of : InputTable F → PlayerInput F
  input_of table = record { id = table.id; move = table.move; direction = table.direction }

module _ {R F : Type 0} where
  -- The game logic after an input that some client awaits, if one does.
  abbrev pub steered : Bool → PlayerInput F → GameLogic R F → GameLogic R F
  steered heard input l = if heard then set_player_movement input l else l

  set_first_input_twice :
      (input : PlayerInput F) (ps : List (Player R F))
      → set_first_input input (set_first_input input ps) ≡ set_first_input input ps
  unfolding set_first_input set_input
  set_first_input_twice input [] = refl
  set_first_input_twice input (p ∷ ps) = elim (Bool-cases (p.id == input.id)) [
    | inl hit ↦ rw (hit, set_first_input, hit) refl
    | inr miss ↦ rw (miss, set_first_input, miss) (ap (◌∷◌ p) (set_first_input_twice input ps))
  ]

  set_input_in_game_twice :
      (input : PlayerInput F) (g : Option (Game R F))
      → Option.map (set_input_in_game input) (Option.map (set_input_in_game input) g)
        ≡ Option.map (set_input_in_game input) g
  unfolding set_input_in_game set_player_input
  set_input_in_game_twice input none = refl
  set_input_in_game_twice input (some g) =
      rw
        (
          set_first_input_twice input g.red_team.players,
          set_first_input_twice input g.blue_team.players,
        )
        refl

  steered_again :
      (heard : Bool) (input : PlayerInput F) (l : GameLogic R F)
      → steered heard input (set_player_movement input l) ≡ set_player_movement input l
  unfolding set_player_movement
  steered_again false input l = refl
  steered_again true input l =
      ap (λ (g : Option (Game R F)). record l { game = g }) (set_input_in_game_twice input l.game)

  steered-or :
      (first rest : Bool) (input : PlayerInput F) (l : GameLogic R F)
      → steered rest input (steered first input l) ≡ steered (first || rest) input l
  steered-or true rest input l = steered_again rest input l
  steered-or false rest input l = refl

module _ {R F : Type 0} (crc : Crc) (wire : Wire R F) (memory d : Datagram) (table : InputTable F)
    (version : d.version % 256 ≡ datagram_player_input_ver)
    (small : header_size d.payload_checksum_included + length d.payload < 2 ^ 32)
    (reads : wire.get_input d.payload ≡ some table) where
  take_input_at :
      (test : Bool) (remote : Endpoint) (c : ClientUdp F) (l : GameLogic R F)
      → (ltb c.last_sequence table.sequence && table.id == c.client.id) ≡ test
      → c.input.id ≡ c.client.id
      → str_eq remote.address c.client.ip_v4 ≡ true
      → after_decode remote c (some l) (take_input table c)
        ≡ some (hearing remote table c, some (steered (awaits remote table c) (input_of table) l))
  unfolding take_input connected
  take_input_at true remote c l e name from =
      let same : c.input.id ≡ table.id = ground arith in
      let heard : ClientUdp F = record c {
        input = record c.input { move = table.move; direction = table.direction };
        last_sequence = table.sequence;
        remote_endpoint = remote;
        first_connection = false;
      } in
      rw (e, from)
        (ap
          (λ (i : ℕ). some (
            heard,
            some (
                set_player_movement
                  (record { id = i; move = table.move; direction = table.direction }) l),
          ))
          same)
  take_input_at false remote c l e name from = rw (e, from) refl

  head-get :
      (remote : Endpoint) (c : ClientUdp F) (l : GameLogic R F)
      → c.input.id ≡ c.client.id
      → (if str_eq remote.address c.client.ip_v4
          then after_decode remote c
              (some l)
              (decode_datagram crc wire memory (get crc d) (length (get crc d)) c)
          else some (c, some l))
        ≡ some (hearing remote table c, some (steered (awaits remote table c) (input_of table) l))
  head-get remote c l name = elim (Bool-cases (str_eq remote.address c.client.ip_v4)) [
    | inl from ↦
        rw from refl
        ∙ ap (after_decode remote c (some l)) (
            decode_datagram-get crc wire memory d c version small
            ∙ ap (λ (t : Option (InputTable F)). take_message t c) reads)
        ∙ take_input_at (ltb c.last_sequence table.sequence && table.id == c.client.id) remote c l
            refl name from
    | inr far ↦ rw far refl
  ]

  pub receive_loop-get :
      (remote : Endpoint) (cs : List (ClientUdp F)) (l : GameLogic R F)
      → All (λ c. c.input.id ≡ c.client.id) cs
      → receive_loop crc wire memory (get crc d) (length (get crc d)) remote cs (some l)
        ≡ some (
          map (hearing remote table) cs,
          some (steered (awaited remote table cs) (input_of table) l),
        )
  unfolding receive_loop take_input connected
  receive_loop-get remote [] l named = refl
  receive_loop-get remote (c ∷ cs) l (name, named) =
      let rest =
        receive_loop-get remote cs (steered (awaits remote table c) (input_of table) l) named in
      rw (head-get remote c l name, receive_loop, rest)
        (ap (λ (m : GameLogic R F). some (map (hearing remote table) (c ∷ cs), some m))
          (steered-or (awaits remote table c) (awaited remote table cs) (input_of table) l))

  -- The handler, for a framed input, clients whose inputs carry their IDs, and a free mutex.
  pub handle_receive-get_input :
      (remote : Endpoint) (comm : ClientCommunication F) (l : GameLogic R F)
      → All (λ c. c.input.id ≡ c.client.id) comm.clients
      → comm.locked ≡ false
      → handle_receive crc wire memory (get crc d) (length (get crc d)) remote comm (some l)
        ≡ done (
          record comm { clients = map (hearing remote table) comm.clients },
          some (steered (awaited remote table comm.clients) (input_of table) l),
        )
  unfolding handle_receive
  handle_receive-get_input remote comm l named free =
      let loop = receive_loop-get remote comm.clients l named in
      rw (free, loop)
        (ap
          (λ (held : Bool). done (
            record comm { clients = map (hearing remote table) comm.clients; locked = held },
            some (steered (awaited remote table comm.clients) (input_of table) l),
          ))
          free)
