-- ===== src/SubProcess/Losing.antt =====
-- What main_process_comm/main_process_comm.cpp and client_communication/client_communication.cpp do
-- when the UDP thread runs its receive handler between `AddClient` and `AddPlayer` of `LoadClients`.
use mathlib.Core.Option
use Prim.Native.String.{String}
use upzp_game_process.Prelude.{
  ℕ, ◌+◌, ◌%◌, ◌^◌, ◌<◌, ◌≡◌, refl, sym, ap, ap₂, ◌∙◌, inl, inr, Bool, true, false, ◌==◌, Option,
  some, List, [], ◌∷◌, ◌++◌, map, length, All-append, arith, Bool-cases,
}
use upzp_game_process.Doubles.{Doubles}
use upzp_game_process.Datagram.{Crc, Datagram, get, header_size}
use upzp_game_process.Client.{Client, PlayerInput}
use upzp_game_process.Player.{Player}
use upzp_game_process.Team.{set_first_input, set_player_input}
use upzp_game_process.Game.{Game, set_input_in_game}
use upzp_game_process.GameLogic.{GameLogic, add_player, set_player_movement}
use upzp_game_process.Wire.{Wire, InputTable}
use upzp_game_process.ClientUdp.{ClientUdp, Endpoint, datagram_player_input_ver, new_client_udp}
use upzp_game_process.ClientCommunication.{
  ClientCommunication, done, add_client, add_clients, emplace_all, handle_receive,
}
use upzp_game_process.ClientCommunication.Hearing.{
  awaits, awaited, hearing, input_of, steered, handle_receive-get_input,
}
use upzp_game_process.SubProcess.Names.{count, ids, Named, players_with}
use upzp_game_process.SubProcess.Joining.{new_client_udp-named}

module _ {F : Type 0} (remote : Endpoint) (table : InputTable F) where
  awaits-hearing : (c : ClientUdp F) → awaits remote table (hearing remote table c) ≡ false
  awaits-hearing c = elim (Bool-cases (awaits remote table c)) [
    | inl e ↦ rw e (ground arith)
    | inr e ↦ rw e e
  ]

  awaited-hearing :
      (cs : List (ClientUdp F)) → awaited remote table (map (hearing remote table) cs) ≡ false
  awaited-hearing [] = refl
  awaited-hearing (c ∷ cs) = rw (awaits-hearing c) (awaited-hearing cs)

  hearing_twice :
      (cs : List (ClientUdp F))
      → map (hearing remote table) (map (hearing remote table) cs) ≡ map (hearing remote table) cs
  hearing_twice [] = refl
  hearing_twice (c ∷ cs) = ap₂ ◌∷◌ (rw (awaits-hearing c) refl) (hearing_twice cs)

  awaited_end :
      (cs : List (ClientUdp F)) (u : ClientUdp F)
      → awaits remote table u ≡ true
      → awaited remote table (cs ++ (u ∷ [])) ≡ true
  awaited_end [] u e = rw e refl
  awaited_end (c ∷ cs) u e = elim (Bool-cases (awaits remote table c)) [
    | inl hit ↦ rw hit refl
    | inr miss ↦ rw miss (awaited_end cs u e)
  ]

  Named-hearing : (cs : List (ClientUdp F)) → Named cs → Named (map (hearing remote table) cs)
  Named-hearing [] k = tt
  Named-hearing (c ∷ cs) (k, ks) = elim (Bool-cases (awaits remote table c)) [
    | inl hit ↦ rw hit (k, Named-hearing cs ks)
    | inr miss ↦ rw miss (k, Named-hearing cs ks)
  ]

module _ {R F : Type 0} where
  set_first_input_none :
      (input : PlayerInput F) (ps : List (Player R F))
      → count input.id (ids ps) ≡ 0
      → set_first_input input ps ≡ ps
  unfolding set_first_input
  set_first_input_none input [] e = refl
  set_first_input_none input (p ∷ ps) e = elim (Bool-cases (p.id == input.id)) [
    | inl hit ↦ absurd (omega (arith, rw hit at e))
    | inr miss ↦ rw miss (ap (◌∷◌ p) (set_first_input_none input ps (omega (arith, rw miss at e))))
  ]

  set_input_in_game_none :
      (input : PlayerInput F) (g : Game R F)
      → players_with input.id g ≡ 0
      → set_input_in_game input g ≡ g
  unfolding set_input_in_game set_player_input
  set_input_in_game_none input g e =
      rw
        (
          set_first_input_none input g.red_team.players (omega (arith, e)),
          set_first_input_none input g.blue_team.players (omega (arith, e)),
        )
        refl

  set_player_movement_none :
      (input : PlayerInput F) (l : GameLogic R F) (g : Game R F)
      → l.game ≡ some g
      → players_with input.id g ≡ 0
      → set_player_movement input l ≡ l
  unfolding set_player_movement
  set_player_movement_none input l g e nobody =
      ap (λ (o : Option (Game R F)). record l { game = Option.map (set_input_in_game input) o }) e
      ∙ ap (λ (h : Game R F). record l { game = some h }) (set_input_in_game_none input g nobody)
      ∙ ap (λ (o : Option (Game R F)). record l { game = o }) (sym e)

module _ {R F : Type 0} (fl : Doubles R F) (make_address : String → Option String) (crc : Crc)
    (wire : Wire R F) (memory d : Datagram) (table : InputTable F) where
  -- The mutex of the clients is free, the clients' inputs carry their IDs, a new client can be made,
  -- and it awaits an input, whose ID no player of the game has: a datagram as `Get` builds it, with the
  -- version of inputs, in less than 2 ^ 32 bytes, whose payload reads as this table. Then `AddClient`
  -- returns with the mutex free and the client at the end; the receive handler, where it runs with the
  -- datagram before `AddPlayer`, takes the input and its sequence number into every client that awaits
  -- it, and leaves the game as it was; and after `AddPlayer` the handler does nothing with the same
  -- datagram any more.
  pub handle_receive-add_client :
      (c : Client) (red : Bool) (u : ClientUdp F) (comm : ClientCommunication F)
      → (l : GameLogic R F) (g : Game R F) (remote : Endpoint)
      → d.version % 256 ≡ datagram_player_input_ver
      → header_size d.payload_checksum_included + length d.payload < 2 ^ 32
      → wire.get_input d.payload ≡ some table
      → new_client_udp fl make_address c ≡ some u
      → Named comm.clients
      → comm.locked ≡ false
      → awaits remote table u ≡ true
      → l.game ≡ some g
      → players_with table.id g ≡ 0
      → let frame : List ℕ = get crc d in
        let joined : ClientCommunication F = record comm {
          clients = comm.clients ++ (u ∷ []);
          locked = false;
        } in
        let heard : ClientCommunication F = record joined {
          clients = map (hearing remote table) joined.clients;
        } in
        let later : GameLogic R F = add_player fl c red l in
        (add_client fl make_address c comm ≡ done joined)
        × (handle_receive crc wire memory frame (length frame) remote joined (some l)
            ≡ done (heard, some l))
        × ((hearing remote table u).last_sequence ≡ table.sequence)
        × (handle_receive crc wire memory frame (length frame) remote heard (some later)
            ≡ done (heard, some later))
  unfolding add_client add_clients emplace_all
  handle_receive-add_client c red u comm l g remote version small reads made named free waits at
        nobody =
      let joined : ClientCommunication F = record comm {
        clients = comm.clients ++ (u ∷ []);
        locked = false;
      } in
      let heard : ClientCommunication F = record joined {
        clients = map (hearing remote table) joined.clients;
      } in
      let later : GameLogic R F = add_player fl c red l in
      let all : Named joined.clients =
        All-append (λ x. x.input.id ≡ x.client.id) comm.clients (u ∷ []) named
          (new_client_udp-named fl make_address c u made, tt) in
      let same : steered (awaited remote table joined.clients) (input_of table) l ≡ l =
        rw (awaited_end remote table comm.clients u waits)
          (set_player_movement_none (input_of table) l g at nobody) in
      (
        rw (free, made, emplace_all) refl,
        handle_receive-get_input crc wire memory d table version small reads remote joined l all
              refl
            ∙ ap (λ (m : GameLogic R F). done (heard, some m)) same,
        rw waits refl,
        handle_receive-get_input crc wire memory d table version small reads remote heard later
              (Named-hearing remote table joined.clients all) refl
            ∙ ap
                (λ (cs : List (ClientUdp F)). done (
                  record heard { clients = cs },
                  some (steered (awaited remote table heard.clients) (input_of table) later),
                ))
                (hearing_twice remote table joined.clients)
            ∙ ap (λ (b : Bool). done (heard, some (steered b (input_of table) later)))
                (awaited-hearing remote table joined.clients),
      )
