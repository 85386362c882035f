-- ===== src/GameLogic/Threads.antt =====
-- The game thread among the calls of the other threads.
use mathlib.Core.Option
use upzp_game_process.Prelude.{◌≡◌, refl, ◌∙◌, ◌⊎◌, inl, inr, Bool, true, false, Option, none, some}
use upzp_game_process.Doubles.{Doubles}
use upzp_game_process.Client.{Client, PlayerInput}
use upzp_game_process.Game.{Game, add_player_to_game, set_input_in_game}
use upzp_game_process.GameLogic.{
  Thread, no_thread, ticking, checking_finish, checking_terminate, ending, sending, closing,
  returned, GameLogic, game_finished,
}
use upzp_game_process.GameLogic.Winner.{game_finished-set_input, game_finished-add_player}

module _ {R F : Type 0} where
  -- There is a game, and one of its teams has won.
  abbrev pub WonGame : Option (Game R F) → Type 0
  WonGame none = ⊥
  WonGame (some g) = game_finished g ≡ true

  -- What is known where the game thread stands.
  abbrev pub Stands : Thread → Bool → Bool → Option (Game R F) → Type 0
  Stands no_thread started terminate game = started ≡ false
  Stands returned started terminate game = started ≡ false
  Stands ticking started terminate game = started ≡ true
  Stands checking_finish started terminate game = started ≡ true
  Stands checking_terminate started terminate game = started ≡ true
  Stands ending started terminate game = (started ≡ true) × ((terminate ≡ true) ⊎ WonGame game)
  Stands sending started terminate game = (started ≡ true) × WonGame game
  Stands closing started terminate game = (started ≡ true) × WonGame game

  abbrev pub IsConsistent : GameLogic R F → Type 0
  IsConsistent l = Stands l.thread l.game_started l.terminate l.game

  -- The same place with a game that is won if the old one is.
  pub Stands-game :
      (thread : Thread) (started terminate : Bool) (g h : Option (Game R F))
      → (WonGame g → WonGame h)
      → Stands thread started terminate g
      → Stands thread started terminate h
  Stands-game no_thread started terminate g h keep k = k
  Stands-game returned started terminate g h keep k = k
  Stands-game ticking started terminate g h keep k = k
  Stands-game checking_finish started terminate g h keep k = k
  Stands-game checking_terminate started terminate g h keep k = k
  Stands-game ending started terminate g h keep (k, inl stop) = (k, inl stop)
  Stands-game ending started terminate g h keep (k, inr won) = (k, inr (keep won))
  Stands-game sending started terminate g h keep (k, won) = (k, keep won)
  Stands-game closing started terminate g h keep (k, won) = (k, keep won)

  pub Stands-stop :
      (thread : Thread) (started terminate : Bool) (game : Option (Game R F))
      → Stands thread started terminate game
      → Stands thread started true game
  Stands-stop no_thread started terminate game k = k
  Stands-stop returned started terminate game k = k
  Stands-stop ticking started terminate game k = k
  Stands-stop checking_finish started terminate game k = k
  Stands-stop checking_terminate started terminate game k = k
  Stands-stop ending started terminate game (k, why) = (k, inl refl)
  Stands-stop sending started terminate game k = k
  Stands-stop closing started terminate game k = k

module _ {R F : Type 0} (fl : Doubles R F) where
  pub WonGame-add_player :
      (c : Client) (red : Bool) (g : Option (Game R F))
      → WonGame g
      → WonGame (Option.map (λ g. add_player_to_game fl c.name c.id c.vehicle red g) g)
  WonGame-add_player c red none won = won
  WonGame-add_player c red (some g) won =
      game_finished-add_player fl c.name c.id c.vehicle red g ∙ won

module _ {R F : Type 0} where
  pub WonGame-set_input :
      (input : PlayerInput F) (g : Option (Game R F))
      → WonGame g
      → WonGame (Option.map (set_input_in_game input) g)
  WonGame-set_input input none won = won
  WonGame-set_input input (some g) won = game_finished-set_input input g ∙ won
