-- ===== src/GameLogic/Spawning.antt =====
-- How often game_logic/game_logic.cpp places a point box, by its clock.
use upzp_game_process.Prelude.{
  ℕ, suc, ◌+◌, ◌*◌, ◌<◌, ◌≤◌, ◌≡◌, refl, sym, ap, subst, ◌∙◌, inl, inr, Bool, true, false, some,
  List, [], ◌∷◌, arith,
}
use upzp_game_process.Prelude.Int.{ℤ, pos, ◌+ℤ◌, +ℤ_zero, int_laws}
use upzp_game_process.Doubles.{Doubles}
use upzp_game_process.Client.{Client}
use upzp_game_process.Game.{Game, add_player_to_game, set_input_in_game}
use upzp_game_process.Game.Points.{worth, worth-add_player, worth-set_input}
use upzp_game_process.GameLogic.{GameLogic, add_player, set_player_movement, tick, nanoseconds}
use upzp_game_process.GameLogic.Turns.{
  Turn, ticks_at, joins, steers, Paced, last_tick, joins_in, turn, play, Moves, within, tick_spawns,
  play-ticks_at,
}

slower :
    (step n last last' end now : ℕ)
    → last' ≡ now
    → last + step < now
    → last' + n * (step + 1) ≤ end
    → last + suc n * (step + 1) ≤ end
slower step n last last' end now at first rest = omega (arith, at, first, rest)

hundreds : (w : ℤ) (n : ℕ) → w +ℤ pos 100 +ℤ pos (100 * n) ≡ w +ℤ pos (100 * suc n)
hundreds w n = omega int_laws

faster :
    (step n last last' end now : ℕ)
    → last' ≡ now
    → now ≤ last + step
    → end ≤ last' + n * step
    → end ≤ last + suc n * step
faster step n last last' end now at first rest = omega (arith, at, first, rest)

module _ {R F : Type 0} (fl : Doubles R F) where
  -- The game after a run and the number of its point boxes placed, by the use of the random generator
  -- and by the points of the game, with the clock value of the last one between bounds.
  abbrev pub Spawns : ℕ → ℕ → ℕ → List (Turn F) → Game R F → GameLogic R F → GameLogic R F → Type 0
  Spawns period gap before turns g l m =
      (h : Game R F) × (spawned : ℕ) × (m.game ≡ some h)
      × (h.drawn ≡ g.drawn + joins_in turns + spawned)
      × (worth h ≡ worth g +ℤ pos (100 * spawned))
      × (l.last_point_box_spawn + spawned * (period + 1) ≤ m.last_point_box_spawn)
      × (m.last_point_box_spawn ≤ l.last_point_box_spawn + spawned * (period + gap))
      × (m.last_point_box_spawn ≤ last_tick before turns)
      × (last_tick before turns ≤ m.last_point_box_spawn + period)

  add_player_to_game_drawn :
      (c : Client) (red : Bool) (g : Game R F)
      → (add_player_to_game fl c.name c.id c.vehicle red g).drawn ≡ g.drawn + 1
  unfolding add_player_to_game
  add_player_to_game_drawn c true g = refl
  add_player_to_game_drawn c false g = refl

  -- A tick before a run.
  tick-Spawns :
      (rest : List (Turn F)) (period gap before now : ℕ) (g h : Game R F) (l l' m : GameLogic R F)
      → Moves period now g h l l'
      → now ≤ l.last_point_box_spawn + period + gap
      → Spawns period gap now rest h l' m
      → Spawns period gap before (ticks_at now ∷ rest) g l m
  tick-Spawns rest period gap before now g h l l' m (inl (placed, more, at', due)) near
        (k, n, at, drawn, total, slow, fast, reached, close) =
      (
        k,
        suc n,
        at,
        omega (arith, drawn, placed),
        total ∙ ap (λ w. w +ℤ pos (100 * n)) more ∙ hundreds (worth g) n,
        slower period n _ _ _ now at' (omega (arith, due)) slow,
        faster (period + gap) n _ _ _ now at' (omega (arith, near)) fast,
        reached,
        close,
      )
  tick-Spawns rest period gap before now g h l l' m (inr (kept, same, last, early)) near
        (k, n, at, drawn, total, slow, fast, reached, close) =
      (
        k,
        n,
        at,
        omega (arith, drawn, kept),
        total ∙ ap (λ w. w +ℤ pos (100 * n)) same,
        subst (λ (from : ℕ). from + n * (period + 1) ≤ m.last_point_box_spawn) last slow,
        subst (λ (from : ℕ). m.last_point_box_spawn ≤ from + n * (period + gap)) last fast,
        reached,
        close,
      )

  -- A run of ticks, with players who join and inputs that come between them, in a game whose last
  -- point box or whose construction was no longer ago than the period, and with a clock that does not
  -- go back and moves on by at most `gap` from tick to tick: the random generator is used once for each
  -- player who joins and once for each point box; the points of the players and in the boxes on the
  -- map together grow by 100 with each of these boxes, and by nothing else; between two point boxes more than a period passes,
  -- and at most a period and one gap; and at the end the last one is again no longer ago than the
  -- period.
  pub play-Spawns :
      (turns : List (Turn F)) (period gap before : ℕ) (g : Game R F) (l : GameLogic R F)
      → l.game ≡ some g
      → nanoseconds l.point_box_spawn_period ≡ period
      → l.last_point_box_spawn ≤ before
      → before ≤ l.last_point_box_spawn + period
      → Paced gap before turns
      → Spawns period gap before turns g l (play fl turns l)
  unfolding play turn add_player set_player_movement set_input_in_game
  play-Spawns [] period gap before g l e is old recent paced =
      (g, 0, e, omega arith, sym (+ℤ_zero (worth g)), omega arith, omega arith, old, recent)
  play-Spawns (ticks_at now ∷ rest) period gap before g l e is old recent (later, near, paced) =
      let (h, e', same, what) = tick_spawns fl now g l in
      let l' : GameLogic R F = tick fl now g l in
      let (first, last) = within now period g h l l' (rw is at what) (omega (arith, old, later)) in
      subst (Spawns period gap before (ticks_at now ∷ rest) g l) (play-ticks_at fl now rest g l e) (
        tick-Spawns rest period gap before now g h l l' (play fl rest l') (rw is at what)
          (omega (arith, recent, near))
          (play-Spawns rest period gap now h l' e' (ap nanoseconds same ∙ is) first last paced))
  play-Spawns (joins c red ∷ rest) period gap before g l e is old recent paced =
      let h : Game R F = add_player_to_game fl c.name c.id c.vehicle red g in
      let (k, n, at, drawn, total, slow, fast, reached, close) =
        play-Spawns rest period gap before h (add_player fl c red l) (rw e refl) is old recent
          paced in
      (
        k,
        n,
        at,
        omega (arith, drawn, add_player_to_game_drawn c red g),
        total ∙ ap (λ w. w +ℤ pos (100 * n)) (worth-add_player fl c.name c.id c.vehicle red g),
        slow,
        fast,
        reached,
        close,
      )
  play-Spawns (steers input ∷ rest) period gap before g l e is old recent paced =
      let (k, n, at, drawn, total, slow, fast, reached, close) =
        play-Spawns rest period gap before (set_input_in_game input g) (set_player_movement input l)
          (rw e refl) is old recent paced in
      (
        k,
        n,
        at,
        drawn,
        total ∙ ap (λ w. w +ℤ pos (100 * n)) (worth-set_input input g),
        slow,
        fast,
        reached,
        close,
      )
