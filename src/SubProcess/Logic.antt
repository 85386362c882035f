-- ===== src/SubProcess/Logic.antt =====
-- What holds of the game logic while `main` does not stop it.
use mathlib.Core.Option
use upzp_game_process.Prelude.{
  ℕ, ◌-◌, ◌≡◌, refl, ◌∙◌, ◌⊎◌, inl, inr, Bool, false, Option, none, some, arith, Bool-cases, ltb,
}
use upzp_game_process.Doubles.{Doubles}
use upzp_game_process.Client.{Client, PlayerInput}
use upzp_game_process.Game.{Game}
use upzp_game_process.Game.History.{
  IsFair, GameCall, joins, steers, ticks, spawns, call, call-IsFair,
}
use upzp_game_process.GameLogic.{
  Thread, no_thread, ticking, checking_finish, checking_terminate, ending, sending, closing,
  returned, GameLogic, new_game_logic, add_player, set_player_movement, game_finished, act, tick,
  tick_seconds, spawn_if_due, nanoseconds,
}
use upzp_game_process.GameLogic.Threads.{WonGame, Stands, WonGame-add_player, WonGame-set_input}
use upzp_game_process.GameLogic.Steps as Moves
use upzp_game_process.GameLogic.Steps.{Reaches, Reaches-IsConsistent}

module _ {R F : Type 0} where
  -- There is a game, and no player of it has lost points.
  abbrev pub FairGame : Option (Game R F) → Type 0
  FairGame none = ⊥
  FairGame (some g) = IsFair g

  -- The thread has been started, and one that has ended has left a game that is won.
  abbrev pub Over : Thread → Option (Game R F) → Type 0
  Over returned game = WonGame game
  Over no_thread game = ⊥
  Over _ game = Unit

  Over-mono :
      (thread : Thread) (g h : Option (Game R F))
      → (WonGame g → WonGame h)
      → Over thread g
      → Over thread h
  Over-mono no_thread g h wins k = k
  Over-mono ticking g h wins k = tt
  Over-mono checking_finish g h wins k = tt
  Over-mono checking_terminate g h wins k = tt
  Over-mono ending g h wins k = tt
  Over-mono sending g h wins k = tt
  Over-mono closing g h wins k = tt
  Over-mono returned g h wins k = wins k

module _ {R F : Type 0} (fl : Doubles R F) (created : ℕ) where
  -- The object has come from its constructor by calls and actions of the game thread, nothing has
  -- told that thread to stop, and it ends with a game that is won.
  pub record IsPlayed (l : GameLogic R F) : Type 0 where
    pub reached : Reaches fl (new_game_logic created) l
    pub never_stopped : l.terminate ≡ false
    pub fair : FairGame l.game
    pub over : Over l.thread l.game

  FairGame-call :
      (c : GameCall R F) (g : Option (Game R F)) → FairGame g → FairGame (Option.map (call fl c) g)
  FairGame-call c none k = k
  FairGame-call c (some g) k = call-IsFair fl c g k

  pub add_player-IsPlayed :
      (c : Client) (red : Bool) (l : GameLogic R F) → IsPlayed l → IsPlayed (add_player fl c red l)
  unfolding add_player call
  add_player-IsPlayed c red l k = record {
    reached = Moves.next k.reached (Moves.joins c red);
    never_stopped = k.never_stopped;
    fair = FairGame-call (joins c.name c.id c.vehicle red) l.game k.fair;
    over = Over-mono l.thread l.game _ (WonGame-add_player fl c red l.game) k.over;
  }

  pub set_player_movement-IsPlayed :
      (input : PlayerInput F) (l : GameLogic R F)
      → IsPlayed l
      → IsPlayed (set_player_movement input l)
  unfolding set_player_movement call
  set_player_movement-IsPlayed input l k = record {
    reached = Moves.next k.reached (Moves.steers input);
    never_stopped = k.never_stopped;
    fair = FairGame-call (steers input) l.game k.fair;
    over = Over-mono l.thread l.game _ (WonGame-set_input input l.game) k.over;
  }

  -- The game after a tick: with a new point box or without, and moved.
  pub tick_game :
      (now : ℕ) (g : Game R F) (l : GameLogic R F)
      → ((tick fl now g l).game ≡ some (call fl (ticks (tick_seconds fl)) g))
        ⊎ ((tick fl now g l).game ≡ some (call fl (ticks (tick_seconds fl)) (call fl spawns g)))
  unfolding tick spawn_if_due call
  tick_game now g l =
      elim (Bool-cases
        (ltb (nanoseconds l.point_box_spawn_period) (now - l.last_point_box_spawn))) [
          | inl due ↦ inr (rw due refl)
          | inr not_due ↦ inl (rw not_due refl)
        ]

  tick-FairGame :
      (now : ℕ) (g : Game R F) (l : GameLogic R F) → IsFair g → FairGame (tick fl now g l).game
  tick-FairGame now g l k = elim (tick_game now g l) [
    | inl e ↦ rw e (call-IsFair fl (ticks (tick_seconds fl)) g k)
    | inr e ↦
        rw e
          (call-IsFair fl (ticks (tick_seconds fl)) (call fl spawns g) (call-IsFair fl spawns g k))
  ]

  tick-never_stopped :
      (now : ℕ) (g : Game R F) (l : GameLogic R F) → (tick fl now g l).terminate ≡ l.terminate
  unfolding tick spawn_if_due
  tick-never_stopped now g l = ground arith

  -- The game thread's action where it stands.
  act_at :
      (now reached : ℕ) (g : Game R F) (l : GameLogic R F) (thread : Thread)
      → l.game ≡ some g
      → l.thread ≡ thread
      → Stands thread l.game_started l.terminate l.game
      → l.terminate ≡ false
      → FairGame l.game
      → Over thread l.game
      → let m = (act fl now reached thread g l).0 in
        (m.terminate ≡ false) × FairGame m.game × Over m.thread m.game
  unfolding act
  act_at now reached g l no_thread e at s stop f k = absurd k
  act_at now reached g l returned e at s stop f k = (stop, f, rw at k)
  act_at now reached g l ticking e at s stop f k =
      (tick-never_stopped now g l ∙ stop, tick-FairGame now g l (rw e at f), tt)
  act_at now reached g l checking_finish e at s stop f k = elim (Bool-cases (game_finished g)) [
    | inl won ↦ rw won (stop, f, tt)
    | inr not_yet ↦ rw not_yet (stop, f, tt)
  ]
  act_at now reached g l checking_terminate e at s stop f k = rw stop (refl, f, tt)
  act_at now reached g l ending e at s stop f k = rw stop (refl, f, tt)
  act_at now reached g l sending e at s stop f k = (stop, f, tt)
  act_at now reached g l closing e at s stop f k = (stop, f, s.1)

  pub act-IsPlayed :
      (now reached : ℕ) (g : Game R F) (l : GameLogic R F)
      → l.game ≡ some g
      → IsPlayed l
      → IsPlayed (act fl now reached l.thread g l).0
  unfolding new_game_logic
  act-IsPlayed now reached g l e k =
      let (stop, fair, over) =
        act_at now reached g l l.thread e refl (Reaches-IsConsistent fl k.reached refl)
          k.never_stopped k.fair k.over in
      record {
        reached = Moves.next k.reached (Moves.acts now reached g e);
        never_stopped = stop;
        fair = fair;
        over = over;
      }
