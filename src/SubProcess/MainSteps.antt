-- ===== src/SubProcess/MainSteps.antt =====
-- The statements of main.cpp and the invariant of the sub-process.
use upzp_game_process.Prelude.{
  ℕ, ◌≡◌, refl, ◌∙◌, sym, subst, inl, inr, Bool, false, Option, none, some, List, arith, Bool-cases,
}
use upzp_game_process.Doubles.{Doubles}
use upzp_game_process.Datagram.{Crc, Datagram}
use upzp_game_process.Game.{Game}
use upzp_game_process.GameLogic.{
  Thread, no_thread, ticking, checking_finish, checking_terminate, ending, sending, closing,
  returned, GameLogic, running,
}
use upzp_game_process.GameLogic.Running.{alive, running_lem}
use upzp_game_process.Wire.{Wire}
use upzp_game_process.SubProcess.{
  Worker, absent, connecting, serving, stuck, ended, Runner, MainThread, starting_tcp, starting_udp,
  keeping_alive, telling, stopping_tcp, joining_tcp, stopping_udp, joining_udp, exited, SubProcess,
  Sent, start_runner, stop_runner, join_runner, main_goes,
}
use upzp_game_process.SubProcess.Logic.{IsPlayed, Over}
use upzp_game_process.SubProcess.Invariant.{Unlocked, IsSound}

-- What holds of a result that is there.
abbrev pub OnSome : {A : Type 0} → (A → Type 0) → Option A → Type 0
OnSome P none = Unit
OnSome P (some a) = P a

pub OnSome-some :
    {A : Type 0} (P : A → Type 0) (o : Option A) (a : A) → OnSome P o → o ≡ some a → P a
OnSome-some P none a k e = cc
OnSome-some P (some b) a k e = let same : b ≡ a = cc in subst P same k

-- A result of two steps, of which the second is taken if the first is there.
pub OnSome-then :
    {A B : Type 0} (P : B → Type 0) (o : Option A) (f : A → Option B)
    → ((a : A) → o ≡ some a → OnSome P (f a))
    → OnSome P (elim o [ none ↦ none | some a ↦ f a ])
OnSome-then P none f k = tt
OnSome-then P (some a) f k = k a refl

start_runner-Unlocked :
    (r : Runner) (locked : Bool)
    → r.worker ≡ absent
    → locked ≡ false
    → OnSome (λ (s : Runner). Unlocked s.worker locked) (start_runner connecting r)
unfolding start_runner
start_runner-Unlocked r locked there free = elim (Bool-cases r.is_running) [
  | inl e ↦ rw (e, there) tt
  | inr e ↦ rw (e, there) free
]

join_runner_at :
    (r : Runner) (place : Worker) (locked : Bool)
    → Unlocked place locked
    → OnSome (λ (s : Runner). Unlocked s.worker locked) (join_runner (record r { worker = place }))
unfolding join_runner
join_runner_at r absent locked k = tt
join_runner_at r connecting locked k = tt
join_runner_at r serving locked k = tt
join_runner_at r stuck locked k = tt
join_runner_at r ended locked k = tt

pub stop_runner_worker : (r : Runner) → (stop_runner r).worker ≡ r.worker
unfolding stop_runner
stop_runner_worker r = ground arith

module _ {R F : Type 0} (fl : Doubles R F) (created : ℕ) where
  not_alive :
      (place : Thread) (game : Option (Game R F))
      → Over place game
      → alive place ≡ false
      → place ≡ returned
  not_alive no_thread game k e = absurd k
  not_alive returned game k e = refl
  not_alive ticking game k e = cc
  not_alive checking_finish game k e = cc
  not_alive checking_terminate game k e = cc
  not_alive ending game k e = cc
  not_alive sending game k e = cc
  not_alive closing game k e = cc

  not_running :
      (l : GameLogic R F) → IsPlayed fl created l → running l ≡ false → l.thread ≡ returned
  not_running l k e =
      not_alive l.thread l.game k.over (sym (running_lem fl created l k.reached) ∙ e)

  module _ (crc : Crc) (wire : Wire R F) (memory : Datagram) where
    abbrev Next : Option (SubProcess R F × List Sent) → Type 0
    Next = OnSome (λ (x : SubProcess R F × List Sent). IsSound fl created x.0)

    main_at :
        (place : MainThread) (p : SubProcess R F)
        → IsSound fl created (record p { main = place })
        → Next (main_goes crc wire memory place p)
    unfolding main_goes
    main_at starting_tcp p k =
        let started = start_runner-Unlocked p.tcp p.comm.locked k.main_place.0 k.main_place.1 in
        OnSome-then _ (start_runner connecting p.tcp) _ (λ r e. record {
          played = k.played;
          named = k.named;
          mutex = rw e at started;
          main_place = tt;
        })
    main_at starting_udp p k =
        OnSome-then _ (start_runner serving p.udp) _
          (λ r e. record { played = k.played; named = k.named; mutex = k.mutex; main_place = tt })
    main_at keeping_alive p k = elim (Bool-cases (running p.logic)) [
      | inl e ↦
          rw (main_goes, e)
            (record { played = k.played; named = k.named; mutex = k.mutex; main_place = tt })
      | inr e ↦
          rw (main_goes, e)
            (record {
              played = k.played;
              named = k.named;
              mutex = k.mutex;
              main_place = not_running p.logic k.played e;
            })
    ]
    main_at telling p k = record {
      played = k.played;
      named = k.named;
      mutex = k.mutex;
      main_place = k.main_place;
    }
    main_at stopping_tcp p k = record {
      played = k.played;
      named = k.named;
      mutex = rw (stop_runner_worker p.tcp) k.mutex;
      main_place = k.main_place;
    }
    main_at joining_tcp p k =
        let joined = join_runner_at p.tcp p.tcp.worker p.comm.locked k.mutex in
        OnSome-then _ (join_runner p.tcp) _ (λ r e. record {
          played = k.played;
          named = k.named;
          mutex = rw e at joined;
          main_place = k.main_place;
        })
    main_at stopping_udp p k = record {
      played = k.played;
      named = k.named;
      mutex = k.mutex;
      main_place = k.main_place;
    }
    main_at joining_udp p k = OnSome-then _ (join_runner p.udp) _ (λ r e. record {
      played = k.played;
      named = k.named;
      mutex = k.mutex;
      main_place = k.main_place;
    })
    main_at exited p k = tt

    pub main_goes-IsSound :
        (p q : SubProcess R F) (out : List Sent)
        → IsSound fl created p
        → main_goes crc wire memory p.main p ≡ some (q, out)
        → IsSound fl created q
    main_goes-IsSound p q out k e =
        OnSome-some _ (main_goes crc wire memory p.main p) (q, out) (main_at p.main p k) e
