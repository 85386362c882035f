-- ===== src/GameLogic/Steps.antt =====
-- Every order in which the threads can come to the object of game_logic/game_logic.cpp.
use Prim.Native.String.{String}
use upzp_game_process.Prelude.{
  ℕ, ◌≡◌, refl, ◌∙◌, ◌⊎◌, inl, inr, Bool, true, false, Option, none, some, List, [], arith,
  Bool-cases, subst,
}
use upzp_game_process.Doubles.{Doubles}
use upzp_game_process.Client.{Client, PlayerInput}
use upzp_game_process.Player.{Coordinates}
use upzp_game_process.Game.{Game, Draw}
use upzp_game_process.GameLogic.{
  Thread, no_thread, ticking, checking_finish, checking_terminate, ending, sending, closing,
  returned, GameLogic, Statement, new_game_logic, new_game, add_player, set_player_movement,
  start_game, game_finished, request_stop, join, act, tick, spawn_if_due,
}
use upzp_game_process.GameLogic.Threads.{
  WonGame, Stands, IsConsistent, Stands-game, Stands-stop, WonGame-add_player, WonGame-set_input,
}

-- One step of some thread, with the statements that the database is sent. `NewGame` runs before the
-- game thread is there, as main.cpp has it.
pub data Step {R F : Type 0} (fl : Doubles R F) (l : GameLogic R F)
    : GameLogic R F → List Statement → Type 0 where
  creates :
      (start : Coordinates R) (radius : R) (name : String) (id points period : ℕ)
      (draw : ℕ → Draw R)
      → l.thread ≡ no_thread
      → Step fl l (new_game fl start radius name id points period draw l) []
  joins : (c : Client) (red : Bool) → Step fl l (add_player fl c red l) []
  steers : (input : PlayerInput F) → Step fl l (set_player_movement input l) []
  starts : (now : ℕ) (m : GameLogic R F) → start_game now l ≡ some m → Step fl l m []
  stops : Step fl l (request_stop l) []
  waits : (m : GameLogic R F) → join l ≡ some m → Step fl l m []
  acts :
      (now done : ℕ) (g : Game R F)
      → l.game ≡ some g
      → Step fl l (act fl now done l.thread g l).0 (act fl now done l.thread g l).1

pub data Reaches {R F : Type 0} (fl : Doubles R F) (l : GameLogic R F)
    : GameLogic R F → Type 0 where
  here : Reaches fl l l
  next :
      {m n : GameLogic R F} {out : List Statement}
      → Reaches fl l m
      → Step fl m n out
      → Reaches fl l n

module _ {R F : Type 0} (fl : Doubles R F) where
  tick_started :
      (now : ℕ) (g : Game R F) (l : GameLogic R F) → (tick fl now g l).game_started ≡ l.game_started
  unfolding tick spawn_if_due
  tick_started now g l = ground arith

  -- An action of the game thread where it stands.
  act-Stands :
      (now done : ℕ) (g : Game R F) (l : GameLogic R F) (thread : Thread)
      → l.game ≡ some g
      → l.thread ≡ thread
      → Stands thread l.game_started l.terminate l.game
      → IsConsistent (act fl now done thread g l).0
        × (((act fl now done thread g l).1 ≡ []) ⊎ WonGame l.game)
  unfolding act
  act-Stands now done g l no_thread e at k = (rw at k, inl refl)
  act-Stands now done g l returned e at k = (rw at k, inl refl)
  act-Stands now done g l ticking e at k = (tick_started now g l ∙ k, inl refl)
  act-Stands now done g l checking_finish e at k = elim (Bool-cases (game_finished g)) [
    | inl won ↦ rw won ((k, inr (rw e won)), inl refl)
    | inr not_yet ↦ rw not_yet (k, inl refl)
  ]
  act-Stands now done g l checking_terminate e at k = elim (Bool-cases l.terminate) [
    | inl stop ↦ rw stop ((k, inl refl), inl refl)
    | inr more ↦ rw more (k, inl refl)
  ]
  act-Stands now done g l ending e at (k, inl stop) = rw stop (refl, inl refl)
  act-Stands now done g l ending e at (k, inr won) = elim (Bool-cases l.terminate) [
    | inl stop ↦ rw stop (refl, inl refl)
    | inr more ↦ rw more ((k, won), inl refl)
  ]
  act-Stands now done g l sending e at k = (k, inr k.1)
  act-Stands now done g l closing e at k = (refl, inl refl)

  same_state : {l m : GameLogic R F} → some l ≡ some m → IsConsistent l → IsConsistent m
  same_state {l} {m} e k = let same : l ≡ m = cc in subst IsConsistent same k

  -- `StartGame` with the fields that it looks at as variables.
  start_game-Stands :
      (now : ℕ) (l m : GameLogic R F) (game : Option (Game R F)) (started : Bool) (thread : Thread)
      → Stands thread started l.terminate game
      → start_game now (record l { game = game; game_started = started; thread = thread }) ≡ some m
      → IsConsistent m
  unfolding start_game
  start_game-Stands now l m none started _ k e = same_state e k
  start_game-Stands now l m (some g) true _ k e = same_state e k
  start_game-Stands now l m (some g) false no_thread k e = same_state e refl
  start_game-Stands now l m (some g) false ticking k e = cc
  start_game-Stands now l m (some g) false checking_finish k e = cc
  start_game-Stands now l m (some g) false checking_terminate k e = cc
  start_game-Stands now l m (some g) false ending k e = cc
  start_game-Stands now l m (some g) false sending k e = cc
  start_game-Stands now l m (some g) false closing k e = cc
  start_game-Stands now l m (some g) false returned k e = cc

  join-Stands :
      (l m : GameLogic R F) (thread : Thread)
      → Stands thread l.game_started l.terminate l.game
      → join (record l { thread = thread }) ≡ some m
      → IsConsistent m
  unfolding join
  join-Stands l m no_thread k e = same_state e k
  join-Stands l m returned k e = same_state e k
  join-Stands l m ticking k e = cc
  join-Stands l m checking_finish k e = cc
  join-Stands l m checking_terminate k e = cc
  join-Stands l m ending k e = cc
  join-Stands l m sending k e = cc
  join-Stands l m closing k e = cc

  new_game-Stands :
      (thread : Thread) (started stop : Bool) (old new : Option (Game R F))
      → thread ≡ no_thread
      → Stands thread started stop old
      → Stands thread started stop new
  new_game-Stands t started stop old new e k =
      rw e (subst (λ (u : Thread). Stands u started stop old) e k)

  Step-IsConsistent :
      {l m : GameLogic R F} {out : List Statement}
      → Step fl l m out
      → IsConsistent l
      → IsConsistent m × ((out ≡ []) ⊎ WonGame l.game)
  unfolding new_game add_player set_player_movement request_stop
  Step-IsConsistent {l} (creates start radius name id points period draw e) k =
      (new_game-Stands l.thread l.game_started l.terminate l.game _ e k, inl refl)
  Step-IsConsistent {l} (joins c red) k = (
    Stands-game l.thread l.game_started l.terminate l.game _ (WonGame-add_player fl c red l.game) k,
    inl refl,
  )
  Step-IsConsistent {l} (steers input) k = (
    Stands-game l.thread l.game_started l.terminate l.game _ (WonGame-set_input input l.game) k,
    inl refl,
  )
  Step-IsConsistent {l} (starts now m e) k =
      (start_game-Stands now l m l.game l.game_started l.thread k e, inl refl)
  Step-IsConsistent {l} stops k =
      (Stands-stop l.thread l.game_started l.terminate l.game k, inl refl)
  Step-IsConsistent {l} (waits m e) k = (join-Stands l m l.thread k e, inl refl)
  Step-IsConsistent {l} (acts now done g e) k = act-Stands now done g l l.thread e refl k

  pub Reaches-IsConsistent :
      {l m : GameLogic R F} → Reaches fl l m → IsConsistent l → IsConsistent m
  Reaches-IsConsistent here k = k
  Reaches-IsConsistent (next r s) k = (Step-IsConsistent s (Reaches-IsConsistent r k)).0

  -- Whatever the threads do in whatever order from the constructor on: statements go to the database
  -- only while there is a game that one of its teams has won.
  pub statements_of_winner :
      (now : ℕ) (l m : GameLogic R F) (out : List Statement)
      → Reaches fl (new_game_logic now) l
      → Step fl l m out
      → (out ≡ []) ⊎ WonGame l.game
  unfolding new_game_logic
  statements_of_winner now l m out r s = (Step-IsConsistent s (Reaches-IsConsistent r refl)).1
