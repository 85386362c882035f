-- ===== src/MainProcessComm/Roster.antt =====
-- Who takes part after `LoadClients` of main_process_comm/main_process_comm.cpp.
use Prim.Native.String.{String}
use upzp_game_process.Prelude.{
  ℕ, ◌≡◌, refl, sym, ap, ◌∙◌, Bool, true, false, Option, some, List, [], ◌∷◌, ◌++◌, append_assoc,
  append-nil, map,
}
use upzp_game_process.Doubles.{Doubles}
use upzp_game_process.Datagram.{Datagram}
use upzp_game_process.Client.{Client}
use upzp_game_process.Player.{Player, set_position, new_player}
use upzp_game_process.Team.{Team, add_player as add_to_team}
use upzp_game_process.Game.{Game, add_player_to_game}
use upzp_game_process.GameLogic.{GameLogic, add_player}
use upzp_game_process.Wire.{Wire, FClient, FTeam, FGame}
use upzp_game_process.ClientUdp.{ClientUdp, new_client_udp}
use upzp_game_process.ClientCommunication.{ClientCommunication, done, add_client}
use upzp_game_process.ClientCommunication.Locking.{Made, add_clients-Made}
use upzp_game_process.MainProcessComm.{
  game_clients_version, read_client, into_logic, load_client, load_team, load_teams, load_clients,
}

-- The clients that the tables hold, none of them with a missing field.
abbrev pub Reads : List FClient → List Client → Type 0
Reads [] [] = Unit
Reads (f ∷ fs) (c ∷ cs) = (read_client f ≡ some c) × Reads fs cs
Reads _ _ = ⊥

module _ {R F : Type 0} (fl : Doubles R F) (make_address : String → Option String) where
  -- The clients as new players of one team, in their order.
  abbrev pub enlist : Bool → List Client → Option (GameLogic R F) → Option (GameLogic R F)
  enlist red [] logic = logic
  enlist red (c ∷ cs) logic = enlist red cs (into_logic fl make_address c red logic)

  load_client-Made :
      (red : Bool) (c : Client) (u : ClientUdp F) (comm : ClientCommunication F)
      → (logic : Option (GameLogic R F)) → comm.locked ≡ false
      → new_client_udp fl make_address c ≡ some u
      → load_client fl make_address red c (record { comm = some comm; logic = logic })
        ≡ done (record {
          comm = some (record comm { clients = comm.clients ++ (u ∷ []); locked = false });
          logic = into_logic fl make_address c red logic;
        })
  unfolding load_client add_client
  load_client-Made red c u comm logic free made =
      rw (add_clients-Made fl make_address (c ∷ []) (u ∷ []) comm free (made, tt)) refl

  load_team-Made :
      (red : Bool) (fs : List FClient) (cs : List Client) (us : List (ClientUdp F))
      → (comm : ClientCommunication F) (logic : Option (GameLogic R F)) → comm.locked ≡ false
      → Reads fs cs
      → Made fl make_address cs us
      → load_team fl make_address red fs (record { comm = some comm; logic = logic })
        ≡ done (record {
          comm = some (record comm { clients = comm.clients ++ us; locked = false });
          logic = enlist red cs logic;
        })
  unfolding load_team
  load_team-Made red [] [] [] comm logic free reads made = rw (append-nil, ← free) refl
  load_team-Made red [] [] (u ∷ us) comm logic free reads made = absurd made
  load_team-Made red [] (c ∷ cs) us comm logic free reads made = absurd reads
  load_team-Made red (f ∷ fs) [] us comm logic free reads made = absurd reads
  load_team-Made red (f ∷ fs) (c ∷ cs) [] comm logic free reads made = absurd made
  load_team-Made red (f ∷ fs) (c ∷ cs) (u ∷ us) comm logic free reads made =
      rw (reads.0, load_team, load_client-Made red c u comm logic free made.0)
        (rw append_assoc at (
          load_team-Made red fs cs us
            (record comm { clients = comm.clients ++ (u ∷ []); locked = false })
            (into_logic fl make_address c red logic) refl reads.1 made.1))

  -- A datagram with version 10 whose game has two teams or more, with every field of the first two
  -- teams there, every address good and the mutex free: its clients are added to the UDP side in
  -- their order, the red team's before the blue team's, and to the game as players of the first and
  -- the second team. The mutex stays free.
  pub load_clients-Made :
      (wire : Wire R F) (d : Datagram) (game : FGame) (more : List FTeam)
      → (red_tables blue_tables : List FClient) (reds blues : List Client)
      → (red_udp blue_udp : List (ClientUdp F))
      → (comm : ClientCommunication F) (logic : Option (GameLogic R F))
      → d.version ≡ game_clients_version
      → wire.get_game d.payload ≡ some game
      → game.teams
        ≡ some (record { clients = some red_tables } ∷ record { clients = some blue_tables } ∷ more)
      → comm.locked ≡ false
      → Reads red_tables reds
      → Reads blue_tables blues
      → Made fl make_address reds red_udp
      → Made fl make_address blues blue_udp
      → load_clients fl make_address wire d (record { comm = some comm; logic = logic })
        ≡ done (record {
          comm =
              some
                (record comm { clients = comm.clients ++ (red_udp ++ blue_udp); locked = false });
          logic = enlist false blues (enlist true reds logic);
        })
  unfolding load_clients load_teams
  load_clients-Made wire d game more red_tables blue_tables reds blues red_udp blue_udp comm logic
        version read teams free red_reads blue_reads red_made blue_made =
      rw
        (
          version,
          read,
          teams,
          load_team-Made true red_tables reds red_udp comm logic free red_reads red_made,
        )
        (rw append_assoc at (
          load_team-Made false blue_tables blues blue_udp
            (record comm { clients = comm.clients ++ red_udp; locked = false })
            (enlist true reds logic) refl blue_reads blue_made))

  abbrev add_all : Bool → List Client → Game R F → Game R F
  add_all red [] g = g
  add_all red (c ∷ cs) g = add_all red cs (add_player_to_game fl c.name c.id c.vehicle red g)

  abbrev pub player_ids : Team R F → List ℕ
  player_ids t = map (λ p. p.id) t.players

  enlist_game :
      (red : Bool) (cs : List Client) (l : GameLogic R F) (g : Game R F)
      → enlist red cs (some (record l { game = some g }))
        ≡ some (record l { game = some (add_all red cs g) })
  unfolding add_player
  enlist_game red [] l g = refl
  enlist_game red (c ∷ cs) l g =
      enlist_game red cs l (add_player_to_game fl c.name c.id c.vehicle red g)

  ids-snoc :
      (ps : List (Player R F)) (p : Player R F)
      → map (λ p. p.id) (ps ++ (p ∷ [])) ≡ map (λ p. p.id) ps ++ (p.id ∷ [])
  ids-snoc [] p = refl
  ids-snoc (q ∷ ps) p = ap (◌∷◌ q.id) (ids-snoc ps p)

  -- One more player at the end of a list, and then the others.
  ids_then :
      (ps : List (Player R F)) (p : Player R F) (cs : List Client) (all : List ℕ)
      → all ≡ map (λ p. p.id) (ps ++ (p ∷ [])) ++ map (λ c. c.id) cs
      → all ≡ map (λ p. p.id) ps ++ (p.id ∷ map (λ c. c.id) cs)
  ids_then ps p cs all e =
      e
      ∙ ap (λ (x : List ℕ). x ++ map (λ (c : Client). c.id) cs) (ids-snoc ps p)
      ∙ append_assoc (map (λ (p : Player R F). p.id) ps) (p.id ∷ []) (map (λ (c : Client). c.id) cs)

  add_all_red :
      (cs : List Client) (g : Game R F)
      → (player_ids (add_all true cs g).red_team ≡ player_ids g.red_team ++ map (λ c. c.id) cs)
        × (player_ids (add_all true cs g).blue_team ≡ player_ids g.blue_team)
  unfolding add_player_to_game add_to_team set_position new_player
  add_all_red [] g = (sym (append-nil _), refl)
  add_all_red (c ∷ cs) g =
      let (red, blue) = add_all_red cs (add_player_to_game fl c.name c.id c.vehicle true g) in
      (ids_then g.red_team.players _ cs _ red, blue)

  add_all_blue :
      (cs : List Client) (g : Game R F)
      → (player_ids (add_all false cs g).red_team ≡ player_ids g.red_team)
        × (player_ids (add_all false cs g).blue_team ≡ player_ids g.blue_team ++ map (λ c. c.id) cs)
  unfolding add_player_to_game add_to_team set_position new_player
  add_all_blue [] g = (refl, sym (append-nil _))
  add_all_blue (c ∷ cs) g =
      let (red, blue) = add_all_blue cs (add_player_to_game fl c.name c.id c.vehicle false g) in
      (red, ids_then g.blue_team.players _ cs _ blue)

  -- In a game logic with a game, the red clients of a roster end up behind the red players that are
  -- there and the blue ones behind the blue players, each in their order, and nothing else changes
  -- outside the game.
  pub enlist_players :
      (reds blues : List Client) (l : GameLogic R F) (g : Game R F)
      → (h : Game R F) × (enlist false blues (enlist true reds (some (record l { game = some g })))
          ≡ some (record l { game = some h }))
        × (player_ids h.red_team ≡ player_ids g.red_team ++ map (λ c. c.id) reds)
        × (player_ids h.blue_team ≡ player_ids g.blue_team ++ map (λ c. c.id) blues)
  enlist_players reds blues l g =
      let first = add_all true reds g in
      let (red, blue) = add_all_red reds g in
      let (red', blue') = add_all_blue blues first in
      (
        add_all false blues first,
        ap (enlist false blues) (enlist_game true reds l g) ∙ enlist_game false blues l first,
        red' ∙ red,
        blue' ∙ ap (λ (x : List ℕ). x ++ map (λ (c : Client). c.id) blues) blue,
      )
