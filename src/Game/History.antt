-- ===== src/Game/History.antt =====
-- What a game can come to through its public operations.
use Prim.Native.String.{String}
use upzp_game_process.Prelude.{
  ℕ, suc, ◌*◌, ◌≡◌, sym, ap, ◌∙◌, inl, inr, Bool, true, false, List, [], ◌∷◌, Bool-cases, arith,
  ◌==◌, All, All-append,
}
use upzp_game_process.Prelude.Int.{ℤ, pos, ◌+ℤ◌, ◌≤ℤ◌, int_laws, pos_part, neg_part, +ℤ_zero}
use upzp_game_process.Doubles.{Doubles}
use upzp_game_process.Client.{VehicleType, PlayerInput}
use upzp_game_process.Player.{Coordinates, Player, new_player, set_position, add_points, set_input}
use upzp_game_process.Team.{add_player, score, score_from, set_player_input, set_first_input}
use upzp_game_process.Game.{
  PointBox, Game, Draw, new_game, collects, moved, calculate_player_movement, move_all,
  calculate_movement, generate_point_box, add_player_to_game, set_input_in_game,
}
use upzp_game_process.Game.PointBoxes.{remaining, gain, check_for_point_box_lem}
use upzp_game_process.Game.Points.{
  worth, box_values, points_total, points-moved, score_lem, worth-calculate_movement,
  worth-generate_point_box, worth-add_player, worth-set_input,
}

abbrev pub NotNegative : ℤ → Type 0
NotNegative a = pos 0 ≤ℤ a

module _ {R : Type 0} where
  abbrev pub FairBoxes : List (PointBox R) → Type 0
  FairBoxes = All (λ b. NotNegative b.value)

  FairBoxes-remaining :
      (test : PointBox R → Bool) (bs : List (PointBox R))
      → FairBoxes bs
      → FairBoxes (remaining test bs) × NotNegative (gain test bs)
  unfolding remaining gain
  FairBoxes-remaining test [] h = omega arith
  FairBoxes-remaining test (b ∷ bs) h = elim (Bool-cases (test b)) [
    | inl hit ↦
        let rest = FairBoxes-remaining test bs h.1 in rw hit (rest.0, omega (int_laws, rest.1))
    | inr miss ↦ let rest = FairBoxes-remaining test bs h.1 in rw miss ((h.0, rest.0), rest.1)
  ]

  box_values-NotNegative : (bs : List (PointBox R)) → FairBoxes bs → NotNegative (box_values bs)
  unfolding box_values
  box_values-NotNegative [] h = omega arith
  box_values-NotNegative (b ∷ bs) h = omega (int_laws, box_values-NotNegative bs h.1)

module _ {R F : Type 0} where
  abbrev pub FairPlayers : List (Player R F) → Type 0
  FairPlayers = All (λ p. NotNegative p.points)

  pub points_total-NotNegative :
      (ps : List (Player R F)) → FairPlayers ps → NotNegative (points_total ps)
  unfolding points_total
  points_total-NotNegative [] h = omega arith
  points_total-NotNegative (p ∷ ps) h = omega (int_laws, points_total-NotNegative ps h.1)

  FairPlayers-set_first_input :
      (input : PlayerInput F) (ps : List (Player R F))
      → FairPlayers ps
      → FairPlayers (set_first_input input ps)
  unfolding set_first_input set_input
  FairPlayers-set_first_input input [] h = tt
  FairPlayers-set_first_input input (p ∷ ps) h = elim (Bool-cases (p.id == input.id)) [
    | inl hit ↦ rw hit h
    | inr miss ↦ rw miss (h.0, FairPlayers-set_first_input input ps h.1)
  ]

  -- No player has lost points, and no box takes any.
  pub record IsFair (g : Game R F) : Type 0 where
    pub red : FairPlayers g.red_team.players
    pub blue : FairPlayers g.blue_team.players
    pub boxes : FairBoxes g.point_boxes

module _ {R F : Type 0} (fl : Doubles R F) (time : R) where
  calculate_player_movement-Fair :
      (boxes : List (PointBox R)) (p : Player R F)
      → FairBoxes boxes
      → let (left, q) = calculate_player_movement fl time boxes p in
        FairBoxes left × (p.points ≤ℤ q.points)
  unfolding calculate_player_movement set_position add_points
  calculate_player_movement-Fair boxes p h =
      let new = (moved fl time p).0 in
      let rest = FairBoxes-remaining (collects fl p.position new) boxes h in
      rw (check_for_point_box_lem fl p.position new boxes, points-moved fl time p)
        (rest.0, omega (int_laws, rest.1))

  pub move_all-Fair :
      (boxes : List (PointBox R)) (ps : List (Player R F))
      → FairBoxes boxes
      → FairPlayers ps
      → let (left, qs) = move_all fl time boxes ps in
        FairBoxes left × FairPlayers qs × (points_total ps ≤ℤ points_total qs)
  unfolding move_all points_total
  move_all-Fair boxes [] h k = (h, k, omega arith)
  move_all-Fair boxes (p ∷ ps) h k =
      let one = calculate_player_movement-Fair boxes p h in
      let others = move_all-Fair (calculate_player_movement fl time boxes p).0 ps one.0 k.1 in
      (others.0, (omega (arith, one.1), others.1), omega (int_laws, one.1, others.2))

-- The calls that `GameLogic` makes of a game.
pub data GameCall (R F : Type 0) : Type 0 where
  joins : String → ℕ → VehicleType → Bool → GameCall R F
  steers : PlayerInput F → GameCall R F
  ticks : R → GameCall R F
  spawns : GameCall R F

-- The point boxes that a history puts on the map.
abbrev pub spawned : {R F : Type 0} → List (GameCall R F) → ℕ
spawned [] = 0
spawned (spawns ∷ cs) = suc (spawned cs)
spawned (c ∷ cs) = spawned cs

spawned_sum :
    {R F : Type 0} (w : ℤ) (c : GameCall R F) (cs : List (GameCall R F))
    → w +ℤ pos (100 * spawned (c ∷ [])) +ℤ pos (100 * spawned cs)
      ≡ w +ℤ pos (100 * spawned (c ∷ cs))
spawned_sum w (joins name id vehicle red) cs = omega int_laws
spawned_sum w (steers input) cs = omega int_laws
spawned_sum w (ticks time) cs = omega int_laws
spawned_sum w spawns cs = omega int_laws

module _ {R F : Type 0} (fl : Doubles R F) where
  unfoldable pub call : GameCall R F → Game R F → Game R F
  call (joins name id vehicle red) g = add_player_to_game fl name id vehicle red g
  call (steers input) g = set_input_in_game input g
  call (ticks time) g = calculate_movement fl time g
  call spawns g = generate_point_box fl g

  unfoldable pub run : List (GameCall R F) → Game R F → Game R F
  run [] g = g
  run (c ∷ cs) g = run cs (call c g)

  pub call-IsFair : (c : GameCall R F) (g : Game R F) → IsFair g → IsFair (call c g)
  unfolding call calculate_movement set_input_in_game set_player_input add_player_to_game add_player
      generate_point_box new_player set_position
  call-IsFair (joins name id vehicle true) g f = record {
    red = All-append _ g.red_team.players _ f.red (omega arith, tt);
    blue = f.blue;
    boxes = f.boxes;
  }
  call-IsFair (joins name id vehicle false) g f = record {
    red = f.red;
    blue = All-append _ g.blue_team.players _ f.blue (omega arith, tt);
    boxes = f.boxes;
  }
  call-IsFair (steers input) g f = record {
    red = FairPlayers-set_first_input input g.red_team.players f.red;
    blue = FairPlayers-set_first_input input g.blue_team.players f.blue;
    boxes = f.boxes;
  }
  call-IsFair (ticks time) g f =
      let first = move_all-Fair fl time g.point_boxes g.red_team.players f.boxes f.red in
      let second =
        move_all-Fair fl time (move_all fl time g.point_boxes g.red_team.players).0
          g.blue_team.players first.0 f.blue in
      record { red = first.1; blue = second.1; boxes = second.0 }
  call-IsFair spawns g f = record {
    red = f.red;
    blue = f.blue;
    boxes = All-append _ g.point_boxes _ f.boxes (omega arith, tt);
  }

  pub run-IsFair : (cs : List (GameCall R F)) (g : Game R F) → IsFair g → IsFair (run cs g)
  unfolding run
  run-IsFair [] g f = f
  run-IsFair (c ∷ cs) g f = run-IsFair cs (call c g) (call-IsFair c g f)

  worth-call :
      (c : GameCall R F) (g : Game R F) → worth (call c g) ≡ worth g +ℤ pos (100 * spawned (c ∷ []))
  unfolding call
  worth-call (joins name id vehicle red) g =
      worth-add_player fl name id vehicle red g ∙ sym (+ℤ_zero (worth g))
  worth-call (steers input) g = worth-set_input input g ∙ sym (+ℤ_zero (worth g))
  worth-call (ticks time) g = worth-calculate_movement fl time g ∙ sym (+ℤ_zero (worth g))
  worth-call spawns g = worth-generate_point_box fl g

  -- Whatever is called in whatever order, the points of both teams and of the boxes on the map
  -- together grow by 100 for each point box that is spawned, and by nothing else.
  pub worth-run :
      (cs : List (GameCall R F)) (g : Game R F)
      → worth (run cs g) ≡ worth g +ℤ pos (100 * spawned cs)
  unfolding run
  worth-run [] g = sym (+ℤ_zero (worth g))
  worth-run (c ∷ cs) g =
      worth-run cs (call c g)
      ∙ ap (λ (w : ℤ). w +ℤ pos (100 * spawned cs)) (worth-call c g)
      ∙ spawned_sum (worth g) c cs

  -- In a game that starts empty, whatever its history, no score is negative, and the two scores
  -- together are at most 100 for each point box that was spawned.
  pub scores_bounded :
      (points : ℤ) (center : Coordinates R) (radius : R) (draw : ℕ → Draw R)
      → (cs : List (GameCall R F))
      → let g = run cs (new_game fl points center radius draw) in
        NotNegative (score g.red_team)
        × NotNegative (score g.blue_team)
        × (score g.red_team +ℤ score g.blue_team ≤ℤ pos (100 * spawned cs))
  unfolding worth score score_from box_values
  scores_bounded points center radius draw cs =
      let start = new_game fl points center radius draw in
      let g = run cs start in
      let fair = run-IsFair cs start (record { red = tt; blue = tt; boxes = tt }) in
      let total = worth-run cs start in
      let left = box_values-NotNegative g.point_boxes fair.boxes in
      (
        rw (score_lem g.red_team) (points_total-NotNegative g.red_team.players fair.red),
        rw (score_lem g.blue_team) (points_total-NotNegative g.blue_team.players fair.blue),
        omega (int_laws, left, ap pos_part total, ap neg_part total),
      )
