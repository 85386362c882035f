-- ===== src/SubProcess/Names.antt =====
-- The clients of the UDP side and the players of the game by their IDs.
use upzp_game_process.Prelude.{
  ℕ, ◌+◌, ◌≡◌, sym, All, ap, ◌∙◌, inl, inr, List, [], ◌∷◌, map, ◌==◌, if◌then◌else◌,
}
use upzp_game_process.Client.{Client}
use upzp_game_process.Player.{Player}
use upzp_game_process.Game.{Game}
use upzp_game_process.ClientUdp.{ClientUdp, Endpoint}
use upzp_game_process.ClientCommunication.{connected}
use upzp_game_process.ClientCommunication.Receiving.{Changes, ChangesAll}

-- How often a number stands in a list.
abbrev pub count : ℕ → List ℕ → ℕ
count n [] = 0
count n (x ∷ xs) = (if x == n then 1 else 0) + count n xs

abbrev pub client_ids : {F : Type 0} → List (ClientUdp F) → List ℕ
client_ids cs = map (λ c. c.client.id) cs

-- The inputs carry the IDs of their clients.
abbrev pub Named : {F : Type 0} → List (ClientUdp F) → Type 0
Named cs = All (λ c. c.input.id ≡ c.client.id) cs

module _ {R F : Type 0} where
  abbrev pub ids : List (Player R F) → List ℕ
  ids ps = map (λ p. p.id) ps

  -- How many players of the game have an ID.
  abbrev pub players_with : ℕ → Game R F → ℕ
  players_with n g = count n (ids g.red_team.players) + count n (ids g.blue_team.players)

module _ {F : Type 0} where
  changed_name :
      (remote : Endpoint) (c d : ClientUdp F)
      → Changes remote c d
      → c.input.id ≡ c.client.id
      → d.input.id ≡ d.client.id
  unfolding connected
  changed_name remote c d (inl same) k = rw same k
  changed_name remote c d (inr (x, from, newer, new)) k =
      rw new (newer.same_id ∙ k ∙ sym (ap (λ (y : Client). y.id) newer.same_client))

  pub ChangesAll-Named :
      (remote : Endpoint) (cs ds : List (ClientUdp F))
      → ChangesAll remote cs ds
      → Named cs
      → Named ds
  ChangesAll-Named remote [] [] k n = tt
  ChangesAll-Named remote [] (d ∷ ds) k n = absurd k
  ChangesAll-Named remote (c ∷ cs) [] k n = absurd k
  ChangesAll-Named remote (c ∷ cs) (d ∷ ds) (k, ks) (n, ns) =
      (changed_name remote c d k n, ChangesAll-Named remote cs ds ks ns)
