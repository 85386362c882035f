-- ===== src/Mockers/Reading.antt =====
-- The mocked client: the status that it reads, and the inputs that it sends.
use Prim.Native.String.{String}
use upzp_game_process.Prelude.{
  ◌||◌, ℕ, ◌+◌, ◌%◌, ◌^◌, ◌<◌, ◌≡◌, refl, ap, ◌∙◌, Bool, some, List, [], ◌∷◌, length, map,
  length-map, arith,
}
use upzp_game_process.Datagram.{Crc, Datagram, LoadResult, load, loaded, get}
use upzp_game_process.Player.{player_table, to_int32, PlayerTable}
use upzp_game_process.Team.{team_table}
use upzp_game_process.Game.{Game, GameTable, PointBox, red_team_won, blue_team_won, game_table}
use upzp_game_process.GameLogic.{GameLogic, game_finished}
use upzp_game_process.Wire.{Wire}
use upzp_game_process.ClientCommunication.{status_bytes, status_datagram}
use upzp_game_process.ClientCommunication.Delivery.{status_frame_loads}
use upzp_game_process.Mockers.{
  FStatus, after_load, describe, MockerWire, text, count_players, status_text, decode_game_status,
}

module _ {R : Type 0} where
  -- The tables that a reader of a written game status finds.
  abbrev pub written : GameTable R → FStatus R
  written t = record {
    sequence = t.sequence;
    teams =
        some
          (record { players = some t.red.players } ∷ record { players = some t.blue.players } ∷ []);
    boxes = some t.boxes;
    finished = t.finished;
  }

module _ {R F : Type 0} where
  module _ (to_string : ℕ → String) (crc : Crc) (wire : Wire R F) (mw : MockerWire R F) where
    either : (a b : Bool) → (a || b) ≡ (b || a)
    either a b = ground arith

    after_load_status :
        (x : Datagram × LoadResult) (s : FStatus R)
        → x.1 ≡ loaded
        → x.0.version ≡ 100
        → mw.get_status x.0.payload ≡ some s
        → after_load to_string crc mw x ≡ describe to_string (some s)
    after_load_status (d, r) s whole version reads = rw (whole, version, reads) refl

    describe_two :
        (s : FStatus R) (ps qs : List (PlayerTable R)) (bs : List (PointBox R))
        → s.teams ≡ some (record { players = some ps } ∷ record { players = some qs } ∷ [])
        → s.boxes ≡ some bs
        → describe to_string (some s)
          ≡ text (
              status_text to_string 2
                ((length ps + length qs) % 2 ^ 32)
                (length bs)
                s.finished
                s.sequence)
    unfolding count_players
    describe_two s ps qs bs teams boxes =
        let sum : ((0 + length ps) % 2 ^ 32 + length qs) % 2 ^ 32
            ≡ (length ps + length qs) % 2 ^ 32 =
          omega arith in
        rw (teams, boxes, sum) refl

    -- The mocked client that gets the frame of a game in progress, where the status is shorter than
    -- 2 ^ 32 bytes less a header and reads back as it was written, prints two teams, the players of
    -- both, the point boxes, whether the game is finished, and the sequence number.
    pub decode_game_status-get :
        (memory old : Datagram) (l : GameLogic R F) (g : Game R F)
        → l.game ≡ some g
        → length (status_bytes crc wire memory l) + 16 < 2 ^ 32
        → mw.get_status (status_bytes crc wire memory l)
          ≡ some (written (game_table l.serialization_seq_num g))
        → let frame = get crc (status_datagram crc wire memory l) in
          decode_game_status to_string crc mw old frame (length frame)
          ≡ text (
              status_text to_string 2
                ((length g.red_team.players + length g.blue_team.players) % 2 ^ 32)
                (length g.point_boxes)
                (game_finished g)
                l.serialization_seq_num)
    unfolding decode_game_status game_table game_finished team_table
    decode_game_status-get memory old l g there small reads =
        let (whole, version, bytes, correct) = status_frame_loads crc wire memory l old small in
        let frame = get crc (status_datagram crc wire memory l) in
        after_load_status (load crc old frame (length frame))
          (written (game_table l.serialization_seq_num g)) whole version
          (ap mw.get_status bytes ∙ reads)
        ∙ describe_two (written (game_table l.serialization_seq_num g))
            (map player_table g.red_team.players) (map player_table g.blue_team.players)
            (game_table l.serialization_seq_num g).boxes refl refl
        ∙ rw
            (
              length-map g.red_team.players (player_table {R = R} {F = F}),
              length-map g.blue_team.players (player_table {R = R} {F = F}),
              length-map g.point_boxes
                  (λ (box : PointBox R). record box { value = to_int32 box.value }),
              either (red_team_won g) (blue_team_won g),
            )
            refl
