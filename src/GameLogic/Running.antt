-- ===== src/GameLogic/Running.antt =====
-- What `Running` and `StartGame` say of the game thread.
use upzp_game_process.Prelude.{ℕ, ◌≡◌, ◌≢◌, ◌↔◌, refl, Bool, true, false, Option, none, some}
use upzp_game_process.Doubles.{Doubles}
use upzp_game_process.Game.{Game}
use upzp_game_process.GameLogic.{
  Thread, no_thread, ticking, checking_finish, checking_terminate, ending, sending, closing,
  returned, GameLogic, new_game_logic, start_game, running,
}
use upzp_game_process.GameLogic.Threads.{Stands}
use upzp_game_process.GameLogic.Steps.{Reaches, Reaches-IsConsistent}

-- The thread has been started and has not ended.
abbrev pub alive : Thread → Bool
alive no_thread = false
alive returned = false
alive _ = true

module _ {R F : Type 0} (fl : Doubles R F) where
  -- After `StartGame`, with the fields that it looks at as variables.
  start_game-none :
      (now : ℕ) (l : GameLogic R F) (game : Option (Game R F)) (started : Bool) (thread : Thread)
      → Stands thread started l.terminate game
      → (start_game now (record l { game = game; game_started = started; thread = thread }) ≡ none)
        ↔ ((game ≢ none) × (thread ≡ returned))
  unfolding start_game
  start_game-none now l none started _ k = (λ e. cc, λ h. absurd (h.0 refl))
  start_game-none now l (some g) true no_thread k = (λ e. cc, λ h. cc)
  start_game-none now l (some g) true ticking k = (λ e. cc, λ h. cc)
  start_game-none now l (some g) true checking_finish k = (λ e. cc, λ h. cc)
  start_game-none now l (some g) true checking_terminate k = (λ e. cc, λ h. cc)
  start_game-none now l (some g) true ending k = (λ e. cc, λ h. cc)
  start_game-none now l (some g) true sending k = (λ e. cc, λ h. cc)
  start_game-none now l (some g) true closing k = (λ e. cc, λ h. cc)
  start_game-none now l (some g) true returned k = (λ e. cc, λ h. cc)
  start_game-none now l (some g) false no_thread k = (λ e. cc, λ h. cc)
  start_game-none now l (some g) false ticking k = absurd (cc)
  start_game-none now l (some g) false checking_finish k = absurd (cc)
  start_game-none now l (some g) false checking_terminate k = absurd (cc)
  start_game-none now l (some g) false ending k = absurd (cc)
  start_game-none now l (some g) false sending k = absurd (cc)
  start_game-none now l (some g) false closing k = absurd (cc)
  start_game-none now l (some g) false returned k = (λ e. ((λ f. cc), refl), λ h. refl)

  -- Whatever the threads did from the constructor on: `StartGame` calls `std::terminate` exactly if
  -- there is a game and its thread has ended and was not joined.
  pub start_game-none_iff :
      (created now : ℕ) (l : GameLogic R F)
      → Reaches fl (new_game_logic created) l
      → (start_game now l ≡ none) ↔ ((l.game ≢ none) × (l.thread ≡ returned))
  unfolding new_game_logic
  start_game-none_iff created now l r =
      start_game-none now l l.game l.game_started l.thread (Reaches-IsConsistent fl r refl)

  alive-Stands :
      (thread : Thread) (started terminate : Bool) (game : Option (Game R F))
      → Stands thread started terminate game
      → started ≡ alive thread
  alive-Stands no_thread started terminate game k = k
  alive-Stands returned started terminate game k = k
  alive-Stands ticking started terminate game k = k
  alive-Stands checking_finish started terminate game k = k
  alive-Stands checking_terminate started terminate game k = k
  alive-Stands ending started terminate game k = k.0
  alive-Stands sending started terminate game k = k.0
  alive-Stands closing started terminate game k = k.0

  -- Whatever the threads did from the constructor on: `Running` says whether the game thread has been
  -- started and has not ended.
  pub running_lem :
      (created : ℕ) (l : GameLogic R F)
      → Reaches fl (new_game_logic created) l
      → running l ≡ alive l.thread
  unfolding new_game_logic running
  running_lem created l r =
      alive-Stands l.thread l.game_started l.terminate l.game (Reaches-IsConsistent fl r refl)
