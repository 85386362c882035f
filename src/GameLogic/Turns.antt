-- ===== src/GameLogic/Turns.antt =====
-- Ticks of the thread of game_logic/game_logic.cpp with the clock values that they read, and what comes
-- between them.
use upzp_game_process.Prelude.{
  ℕ, suc, ◌+◌, ◌-◌, ◌<◌, ◌≤◌, ◌≡◌, refl, sym, ap, ◌∙◌, ◌⊎◌, inl, inr, Bool, Option, none, some,
  List, [], ◌∷◌, ltb, arith, Bool-cases,
}
use upzp_game_process.Prelude.Int.{pos, ◌+ℤ◌}
use upzp_game_process.Doubles.{Doubles}
use upzp_game_process.Client.{Client, PlayerInput}
use upzp_game_process.Game.{Game, generate_point_box, calculate_movement}
use upzp_game_process.Game.Points.{worth, worth-calculate_movement, worth-generate_point_box}
use upzp_game_process.GameLogic.{
  GameLogic, add_player, set_player_movement, tick, tick_seconds, spawn_if_due, nanoseconds,
}

-- The operations that come to a game while its thread runs, a tick with the clock value that it
-- reads.
pub data Turn (F : Type 0) : Type 0 where
  ticks_at : ℕ → Turn F
  joins : Client → Bool → Turn F
  steers : PlayerInput F → Turn F

module _ {F : Type 0} where
  -- The clock does not go back, and the ticks are at most `gap` apart.
  abbrev pub Paced : ℕ → ℕ → List (Turn F) → Type 0
  Paced gap before [] = Unit
  Paced gap before (ticks_at now ∷ rest) =
      (before ≤ now) × (now ≤ before + gap) × Paced gap now rest
  Paced gap before (joins c red ∷ rest) = Paced gap before rest
  Paced gap before (steers input ∷ rest) = Paced gap before rest

  -- The clock value of the last tick.
  abbrev pub last_tick : ℕ → List (Turn F) → ℕ
  last_tick before [] = before
  last_tick before (ticks_at now ∷ rest) = last_tick now rest
  last_tick before (joins c red ∷ rest) = last_tick before rest
  last_tick before (steers input ∷ rest) = last_tick before rest

  abbrev pub joins_in : List (Turn F) → ℕ
  joins_in [] = 0
  joins_in (ticks_at now ∷ rest) = joins_in rest
  joins_in (joins c red ∷ rest) = suc (joins_in rest)
  joins_in (steers input ∷ rest) = joins_in rest

module _ {R F : Type 0} (fl : Doubles R F) where
  unfoldable pub turn : Turn F → GameLogic R F → GameLogic R F
  turn (ticks_at now) l = elim l.game [ none ↦ l | some g ↦ tick fl now g l ]
  turn (joins c red) l = add_player fl c red l
  turn (steers input) l = set_player_movement input l

  unfoldable pub play : List (Turn F) → GameLogic R F → GameLogic R F
  play [] l = l
  play (t ∷ rest) l = play rest (turn t l)

module _ {R F : Type 0} where
  -- What a tick may do, and where that leaves the clock value of the last point box.
  abbrev pub Moves : ℕ → ℕ → Game R F → Game R F → GameLogic R F → GameLogic R F → Type 0
  Moves period now g h l l' =
      ((h.drawn ≡ g.drawn + 1)
        × (worth h ≡ worth g +ℤ pos 100)
        × (l'.last_point_box_spawn ≡ now)
        × (period < now - l.last_point_box_spawn))
      ⊎ ((h.drawn ≡ g.drawn)
          × (worth h ≡ worth g)
          × (l'.last_point_box_spawn ≡ l.last_point_box_spawn)
          × (now - l.last_point_box_spawn ≤ period))

  pub within :
      (now period : ℕ) (g h : Game R F) (l l' : GameLogic R F)
      → Moves period now g h l l'
      → l.last_point_box_spawn ≤ now
      → (l'.last_point_box_spawn ≤ now) × (now ≤ l'.last_point_box_spawn + period)
  within now period g h l l' (inl (placed, more, at, due)) later =
      (omega (arith, at), omega (arith, at))
  within now period g h l l' (inr (kept, same, last, early)) later =
      (omega (arith, last, later), omega (arith, last, early))

module _ {R F : Type 0} (fl : Doubles R F) where
  pub tick_spawns :
      (now : ℕ) (g : Game R F) (l : GameLogic R F)
      → let m = tick fl now g l in
        (h : Game R F) × (m.game ≡ some h)
        × (m.point_box_spawn_period ≡ l.point_box_spawn_period)
        × Moves (nanoseconds l.point_box_spawn_period) now g h l m
  unfolding tick spawn_if_due generate_point_box calculate_movement
  tick_spawns now g l =
      elim (Bool-cases
        (ltb (nanoseconds l.point_box_spawn_period) (now - l.last_point_box_spawn))) [
          | inl due ↦ (
            calculate_movement fl (tick_seconds fl) (generate_point_box fl g),
            rw due refl,
            rw (tick, due) refl,
            inl (
              refl,
              worth-calculate_movement fl (tick_seconds fl) (generate_point_box fl g)
                  ∙ worth-generate_point_box fl g,
              rw (tick, due) refl,
              ground arith,
            ),
          )
          | inr early ↦ (
            calculate_movement fl (tick_seconds fl) g,
            rw early refl,
            rw (tick, early) refl,
            inr (
              refl,
              worth-calculate_movement fl (tick_seconds fl) g,
              rw (tick, early) refl,
              ground arith,
            ),
          )
        ]

  pub play-ticks_at :
      (now : ℕ) (rest : List (Turn F)) (g : Game R F) (l : GameLogic R F)
      → l.game ≡ some g
      → play fl rest (tick fl now g l) ≡ play fl (ticks_at now ∷ rest) l
  unfolding play turn
  play-ticks_at now rest g l e =
      ap (λ (o : Option (Game R F)). play fl rest (elim o [ none ↦ l | some x ↦ tick fl now x l ]))
        (sym e)
