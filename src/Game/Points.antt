-- ===== src/Game/Points.antt =====
-- Where the points of a game come from, and where they go.
use Prim.Native.String.{String}
use upzp_game_process.Prelude.{
  ℕ, ◌≡◌, refl, sym, ap, ◌∙◌, inl, inr, Bool, true, false, List, [], ◌∷◌, ◌++◌, Bool-cases, arith,
  ◌==◌,
}
use upzp_game_process.Prelude.Int.{ℤ, pos, ◌+ℤ◌, +ℤ_zero, zero_+ℤ, +ℤ_assoc, int_laws}
use upzp_game_process.Doubles.{Doubles}
use upzp_game_process.Client.{VehicleType, PlayerInput}
use upzp_game_process.Player.{
  Player, new_player, set_position, add_points, set_input, add_distance_traveled,
}
use upzp_game_process.Team.{Team, add_player, score, score_from, set_player_input, set_first_input}
use upzp_game_process.Game.{
  PointBox, Game, collects, moved, calculate_player_movement, move_all, calculate_movement,
  generate_point_box, add_player_to_game, set_input_in_game,
}
use upzp_game_process.Game.PointBoxes.{remaining, gain, check_for_point_box_lem}

module _ {R : Type 0} where
  unfoldable pub box_values : List (PointBox R) → ℤ
  box_values [] = pos 0
  box_values (b ∷ bs) = b.value +ℤ box_values bs

  pub box_values-remaining :
      (test : PointBox R → Bool) (bs : List (PointBox R))
      → box_values (remaining test bs) +ℤ gain test bs ≡ box_values bs
  unfolding box_values remaining gain
  box_values-remaining test [] = +ℤ_zero (pos 0)
  box_values-remaining test (b ∷ bs) = elim (Bool-cases (test b)) [
    | inl hit ↦ rw (hit, ← box_values-remaining test bs) (omega int_laws)
    | inr miss ↦ rw (miss, ← box_values-remaining test bs) (omega int_laws)
  ]

  pub box_values-append :
      (bs cs : List (PointBox R)) → box_values (bs ++ cs) ≡ box_values bs +ℤ box_values cs
  unfolding box_values
  box_values-append [] cs = sym (zero_+ℤ (box_values cs))
  box_values-append (b ∷ bs) cs = rw (box_values-append bs cs) (omega int_laws)

module _ {R F : Type 0} where
  unfoldable pub points_total : List (Player R F) → ℤ
  points_total [] = pos 0
  points_total (p ∷ ps) = p.points +ℤ points_total ps

  score_from_lem : (a : ℤ) (ps : List (Player R F)) → score_from a ps ≡ a +ℤ points_total ps
  unfolding score_from points_total
  score_from_lem a [] = sym (+ℤ_zero a)
  score_from_lem a (p ∷ ps) =
      score_from_lem (a +ℤ p.points) ps ∙ +ℤ_assoc a p.points (points_total ps)

  -- `Score` is the sum of the players' points.
  pub score_lem : (t : Team R F) → score t ≡ points_total t.players
  unfolding score
  score_lem t = score_from_lem (pos 0) t.players ∙ zero_+ℤ (points_total t.players)

  pub points_total-append :
      (ps qs : List (Player R F)) → points_total (ps ++ qs) ≡ points_total ps +ℤ points_total qs
  unfolding points_total
  points_total-append [] qs = sym (zero_+ℤ (points_total qs))
  points_total-append (p ∷ ps) qs = rw (points_total-append ps qs) (omega int_laws)

  pub points_total-set_first_input :
      (input : PlayerInput F) (ps : List (Player R F))
      → points_total (set_first_input input ps) ≡ points_total ps
  unfolding points_total set_first_input set_input
  points_total-set_first_input input [] = refl
  points_total-set_first_input input (p ∷ ps) = elim (Bool-cases (p.id == input.id)) [
    | inl hit ↦ rw hit refl
    | inr miss ↦ rw miss (ap (◌+ℤ◌ p.points) (points_total-set_first_input input ps))
  ]

  -- All points of a game: those of the players of both teams, and those in the boxes on the map.
  unfoldable pub worth : Game R F → ℤ
  worth g = score g.red_team +ℤ score g.blue_team +ℤ box_values g.point_boxes

-- Two transfers out of one stock, which falls from `c'` to `m` to `c`.
transfers :
    (a b c a' b' c' m : ℤ) → b +ℤ c ≡ b' +ℤ m → a +ℤ m ≡ a' +ℤ c' → a +ℤ b +ℤ c ≡ a' +ℤ b' +ℤ c'
transfers a b c a' b' c' m second first =
    +ℤ_assoc a b c
    ∙ ap (◌+ℤ◌ a) second
    ∙ swap_sum a b' m
    ∙ ap (◌+ℤ◌ b') first
    ∙ swap_sum b' a' c'
    ∙ sym (+ℤ_assoc a' b' c')
  where
    swap_sum : (x y z : ℤ) → x +ℤ (y +ℤ z) ≡ y +ℤ (x +ℤ z)
    swap_sum x y z = omega int_laws

module _ {R F : Type 0} (fl : Doubles R F) (time : R) where
  pub points-moved : (p : Player R F) → (moved fl time p).1.points ≡ p.points
  unfolding moved add_distance_traveled
  points-moved p = ground arith

  -- A player's movement takes from the boxes what it gives to the player.
  movement-keeps :
      (boxes : List (PointBox R)) (p : Player R F)
      → let (left, q) = calculate_player_movement fl time boxes p in
        q.points +ℤ box_values left ≡ p.points +ℤ box_values boxes
  unfolding calculate_player_movement set_position add_points
  movement-keeps boxes p =
      let new = (moved fl time p).0 in
      let test = collects fl p.position new in
      rw
        (
          check_for_point_box_lem fl p.position new boxes,
          points-moved p,
          ← box_values-remaining test boxes,
        )
        (omega int_laws)

  move_all-keeps :
      (boxes : List (PointBox R)) (ps : List (Player R F))
      → let (left, qs) = move_all fl time boxes ps in
        points_total qs +ℤ box_values left ≡ points_total ps +ℤ box_values boxes
  unfolding move_all points_total
  move_all-keeps boxes [] = refl
  move_all-keeps boxes (p ∷ ps) =
      let (left, q) = calculate_player_movement fl time boxes p in
      let (rest, qs) = move_all fl time left ps in
      let one : q.points +ℤ box_values left ≡ p.points +ℤ box_values boxes =
        movement-keeps boxes p in
      let others : points_total qs +ℤ box_values rest ≡ points_total ps +ℤ box_values left =
        move_all-keeps left ps in
      transfers q.points (points_total qs) (box_values rest) p.points (points_total ps)
        (box_values boxes) (box_values left) others one

  -- A tick moves points from the boxes to the players, and makes or loses none.
  pub worth-calculate_movement : (g : Game R F) → worth (calculate_movement fl time g) ≡ worth g
  unfolding worth calculate_movement
  worth-calculate_movement g =
      let (left, red) = move_all fl time g.point_boxes g.red_team.players in
      let (rest, blue) = move_all fl time left g.blue_team.players in
      simp score_lem (
        transfers (points_total red) (points_total blue) (box_values rest)
          (points_total g.red_team.players) (points_total g.blue_team.players)
          (box_values g.point_boxes) (box_values left) (move_all-keeps left g.blue_team.players)
          (move_all-keeps g.point_boxes g.red_team.players))

module _ {R F : Type 0} (fl : Doubles R F) where
  -- A new point box adds 100 points to the game.
  pub worth-generate_point_box :
      (g : Game R F) → worth (generate_point_box fl g) ≡ worth g +ℤ pos 100
  unfolding worth generate_point_box box_values
  worth-generate_point_box g = rw (box_values-append g.point_boxes _) (omega int_laws)

  -- A new player brings no points.
  pub worth-add_player :
      (name : String) (id : ℕ) (vehicle : VehicleType) (red : Bool) (g : Game R F)
      → worth (add_player_to_game fl name id vehicle red g) ≡ worth g
  unfolding worth add_player_to_game add_player set_position new_player points_total
  worth-add_player name id vehicle true g =
      simp score_lem (rw (points_total-append g.red_team.players _) (omega int_laws))
  worth-add_player name id vehicle false g =
      simp score_lem (rw (points_total-append g.blue_team.players _) (omega int_laws))

module _ {R F : Type 0} where
  pub worth-set_input :
      (input : PlayerInput F) (g : Game R F) → worth (set_input_in_game input g) ≡ worth g
  unfolding worth set_input_in_game set_player_input
  worth-set_input input g = simp score_lem (
      rw (
        points_total-set_first_input input g.red_team.players,
        points_total-set_first_input input g.blue_team.players,
      ))
