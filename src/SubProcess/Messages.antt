-- ===== src/SubProcess/Messages.antt =====
-- The messages for the main process, over a whole run: `TransmitGameId` and `SendGameFinished` of
-- main_process_comm/main_process_comm.cpp.
use Prim.Native.String.{String}
use upzp_game_process.Prelude.{
  ℕ, ◌≡◌, refl, sym, ap, ◌∙◌, inl, inr, Bool, true, false, Option, List, [], ◌∷◌, ◌++◌, map,
  append-nil, Bool-cases,
}
use upzp_game_process.Doubles.{Doubles}
use upzp_game_process.Datagram.{Crc, Datagram}
use upzp_game_process.GameLogic.{GameLogic, running}
use upzp_game_process.Wire.{Wire}
use upzp_game_process.ClientUdp.{Endpoint}
use upzp_game_process.ClientCommunication.{
  ClientCommunication, Outcome, done, throws, blocked, fault, out_of_fuel,
}
use upzp_game_process.MainProcessComm.{MainProcessComm, game_id_message, game_finished_message}
use upzp_game_process.SubProcess.{
  Worker, absent, connecting, serving, MainThread, starting_tcp, starting_udp, keeping_alive,
  telling, stopping_tcp, joining_tcp, stopping_udp, joining_udp, exited, SubProcess, Sent,
  to_main_process, to_client, start_runner, join_runner, main_goes, after_tcp, after_udp,
  after_timer,
}
use upzp_game_process.SubProcess.Steps.{Step}
use upzp_game_process.SubProcess.MainSteps.{OnSome, OnSome-then, stop_runner_worker}
use upzp_game_process.SubProcess.Joined.{joined_at}

-- A run, with everything that is sent in it.
pub data Runs {R F : Type 0} (fl : Doubles R F) (make_address : String → Option String) (crc : Crc)
    (wire : Wire R F) (memory : Datagram) (p : SubProcess R F)
    : SubProcess R F → List Sent → Type 0 where
  starts : Runs fl make_address crc wire memory p p []
  goes_on :
      {q r : SubProcess R F} {out more : List Sent}
      → Runs fl make_address crc wire memory p q out
      → Step fl make_address crc wire memory q r more
      → Runs fl make_address crc wire memory p r (out ++ more)

-- The messages for the main process.
abbrev pub for_main : List Sent → List (List ℕ)
for_main [] = []
for_main (to_main_process bytes ∷ out) = bytes ∷ for_main out
for_main (to_client endpoint bytes ∷ out) = for_main out

-- `main` has told the main process that the game is finished.
abbrev pub has_told : MainThread → Bool
has_told starting_tcp = false
has_told starting_udp = false
has_told keeping_alive = false
has_told telling = false
has_told stopping_tcp = true
has_told joining_tcp = true
has_told stopping_udp = true
has_told joining_udp = true
has_told exited = true

-- What the main process has been sent, with the flags of a connected socket and of a `main` that has
-- gone past its call of `SendGameFinished`: nothing, the ID, or the ID and then the end of the game.
pub data Told (id finished : List ℕ) : Bool → Bool → List (List ℕ) → Type 0 where
  nothing : {over : Bool} → Told id finished false over []
  only_id : {over : Bool} → Told id finished true over (id ∷ [])
  id_and_finished : Told id finished true true (id ∷ finished ∷ [])

pub for_main-append : (xs ys : List Sent) → for_main (xs ++ ys) ≡ for_main xs ++ for_main ys
for_main-append [] ys = refl
for_main-append (to_main_process bytes ∷ xs) ys = ap (◌∷◌ bytes) (for_main-append xs ys)
for_main-append (to_client endpoint bytes ∷ xs) ys = for_main-append xs ys

for_main-map :
    {A : Type 0} (f : A → Endpoint × List ℕ) (xs : List A)
    → for_main (map (λ x. to_client (f x).0 (f x).1) xs) ≡ []
for_main-map f [] = refl
for_main-map f (x ∷ xs) = for_main-map f xs

-- Before `Connect` the socket is not connected.
abbrev pub Unsent : MainThread → Worker → Bool → Type 0
Unsent main tcp linked =
    (main ≡ starting_tcp → (tcp ≡ absent) × (linked ≡ false)) × (tcp ≡ connecting → linked ≡ false)

module _ {R F : Type 0} where
  -- Of the step nothing goes to the main process.
  abbrev pub Quiet : SubProcess R F → SubProcess R F × List Sent → Type 0
  Quiet p (q, out) =
      (q.main ≡ p.main)
      × (q.game_id ≡ p.game_id)
      × (q.linked ≡ p.linked)
      × (q.tcp.worker ≡ connecting → p.tcp.worker ≡ connecting)
      × (p.tcp.worker ≡ absent → q.tcp.worker ≡ absent)
      × (for_main out ≡ [])

  pub after_tcp-Quiet :
      (p : SubProcess R F) (o : Outcome (MainProcessComm R F))
      → p.tcp.worker ≡ serving
      → OnSome (λ (q : SubProcess R F). Quiet p (q, [])) (after_tcp p o)
  after_tcp-Quiet p (done m) at = (refl, refl, refl, λ e. e, λ e. e, refl)
  after_tcp-Quiet p (throws m) at = (refl, refl, refl, λ e. cc, λ e. cc, refl)
  after_tcp-Quiet p blocked at = (refl, refl, refl, λ e. cc, λ e. cc, refl)
  after_tcp-Quiet p fault at = tt
  after_tcp-Quiet p out_of_fuel at = tt

  pub after_udp-Quiet :
      (p : SubProcess R F) (o : Outcome (ClientCommunication F × Option (GameLogic R F)))
      → OnSome (λ (q : SubProcess R F). Quiet p (q, [])) (after_udp p o)
  after_udp-Quiet p (done x) = (refl, refl, refl, λ e. e, λ e. e, refl)
  after_udp-Quiet p (throws x) = tt
  after_udp-Quiet p blocked = (refl, refl, refl, λ e. e, λ e. e, refl)
  after_udp-Quiet p fault = tt
  after_udp-Quiet p out_of_fuel = tt

module _ {R F : Type 0} (crc : Crc) (wire : Wire R F) (memory : Datagram) where
  pub after_timer-Quiet :
      (p : SubProcess R F)
      → (o : Outcome (ClientCommunication F × List (Endpoint × List ℕ) × ℕ))
      → OnSome (Quiet p) (after_timer crc wire memory p o)
  after_timer-Quiet p (done (comm, sends, timers)) =
      (refl, refl, refl, λ e. e, λ e. e, for_main-map (λ x. x) sends)
  after_timer-Quiet p (throws x) = tt
  after_timer-Quiet p blocked = (refl, refl, refl, λ e. e, λ e. e, refl)
  after_timer-Quiet p fault = tt
  after_timer-Quiet p out_of_fuel = tt

module _ {R F : Type 0} (crc : Crc) (wire : Wire R F) (memory : Datagram)
    (Says : Bool → Bool → List (List ℕ) → Type 0) where
  -- What the call of `SendGameFinished` makes of what has been said, and what `Connect` does.
  abbrev pub Tells : Type 0
  Tells =
      ((ms : List (List ℕ)) → Says false false ms → Says false true (ms ++ []))
      × ((ms : List (List ℕ))
          → Says true false ms
          → Says true true (ms ++ (game_finished_message crc wire memory ∷ [])))

  abbrev pub Identifies : ℕ → Type 0
  Identifies game_id =
      (over : Bool) (ms : List (List ℕ))
      → Says false over ms
      → Says true over (ms ++ (game_id_message crc wire memory game_id ∷ []))

  -- What has been said so far, by two flags: the socket is connected, and `main` has told.
  pub record HasSaid (game_id : ℕ) (p : SubProcess R F) (ms : List (List ℕ)) : Type 0 where
    pub said : Says p.linked (has_told p.main) ms
    pub unsent : Unsent p.main p.tcp.worker p.linked
    pub same_id : p.game_id ≡ game_id

  pub Quiet-HasSaid :
      (game_id : ℕ) (p q : SubProcess R F) (out : List Sent) (ms : List (List ℕ))
      → Quiet p (q, out)
      → HasSaid game_id p ms
      → HasSaid game_id q (ms ++ for_main out)
  Quiet-HasSaid game_id p q out ms (main, id, link, tcp, gone, none_sent) k = record {
    said = rw (main, link, none_sent, append-nil ms) k.said;
    unsent = (
      λ e. (gone (k.unsent.0 (sym main ∙ e)).0, link ∙ (k.unsent.0 (sym main ∙ e)).1),
      λ e. link ∙ k.unsent.1 (tcp e),
    );
    same_id = id ∙ k.same_id;
  }

  pub move-HasSaid :
      (game_id : ℕ) (p q : SubProcess R F) (ms : List (List ℕ)) (k : HasSaid game_id p ms)
      → has_told q.main ≡ has_told p.main
      → q.game_id ≡ p.game_id
      → q.linked ≡ p.linked
      → Unsent q.main q.tcp.worker q.linked
      → HasSaid game_id q (ms ++ [])
  move-HasSaid game_id p q ms k told id link unsent = record {
    said = rw (told, link, append-nil ms) k.said;
    unsent = unsent;
    same_id = id ∙ k.same_id;
  }

  abbrev pub Next : ℕ → List (List ℕ) → Option (SubProcess R F × List Sent) → Type 0
  Next game_id ms =
      OnSome (λ (x : SubProcess R F × List Sent). HasSaid game_id x.0 (ms ++ for_main x.1))

  pub main_at :
      Tells
      → (place : MainThread) (game_id : ℕ) (p : SubProcess R F) (ms : List (List ℕ))
      → HasSaid game_id (record p { main = place }) ms
      → Next game_id ms (main_goes crc wire memory place p)
  unfolding main_goes
  main_at tells starting_tcp game_id p ms k =
      OnSome-then _ (start_runner connecting p.tcp) _
        (λ r e. move-HasSaid game_id _ _ ms k refl refl refl (λ f. cc, λ f. (k.unsent.0 refl).1))
  main_at tells starting_udp game_id p ms k =
      OnSome-then _ (start_runner serving p.udp) _
        (λ r e. move-HasSaid game_id _ _ ms k refl refl refl (λ f. cc, k.unsent.1))
  main_at tells keeping_alive game_id p ms k = elim (Bool-cases (running p.logic)) [
    | inl e ↦ rw (main_goes, e) (move-HasSaid game_id _ _ ms k refl refl refl (λ f. cc, k.unsent.1))
    | inr e ↦ rw (main_goes, e) (move-HasSaid game_id _ _ ms k refl refl refl (λ f. cc, k.unsent.1))
  ]
  main_at tells telling game_id p ms k = elim (Bool-cases p.linked) [
    | inl e ↦
        rw (main_goes, e)
          (record {
            said = tells.1 ms (rw e at k.said);
            unsent = (λ f. cc, λ f. sym e ∙ k.unsent.1 f);
            same_id = k.same_id;
          })
    | inr e ↦
        rw (main_goes, e)
          (record {
            said = tells.0 ms (rw e at k.said);
            unsent = (λ f. cc, λ f. sym e ∙ k.unsent.1 f);
            same_id = k.same_id;
          })
  ]
  main_at tells stopping_tcp game_id p ms k =
      move-HasSaid game_id _ _ ms k refl refl refl
        (λ f. cc, λ f. k.unsent.1 (sym (stop_runner_worker p.tcp) ∙ f))
  main_at tells joining_tcp game_id p ms k =
      let joined = joined_at p.tcp p.tcp.worker in
      OnSome-then _ (join_runner p.tcp) _ (λ r e.
        let gone : r.worker ≡ absent = rw e at joined in
        move-HasSaid game_id _ _ ms k refl refl refl (λ f. cc, λ f. cc))
  main_at tells stopping_udp game_id p ms k =
      move-HasSaid game_id _ _ ms k refl refl refl (λ f. cc, k.unsent.1)
  main_at tells joining_udp game_id p ms k =
      OnSome-then _ (join_runner p.udp) _
        (λ r e. move-HasSaid game_id _ _ ms k refl refl refl (λ f. cc, k.unsent.1))
  main_at tells exited game_id p ms k = tt
