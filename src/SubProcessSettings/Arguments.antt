-- ===== src/SubProcessSettings/Arguments.antt =====
-- What the program arguments set.
use Prim.Native.String.{String}
use mathlib.Core.Option
use text.Mathlib.Text.{◌==◌}
use text.Mathlib.TextEquality.{eq_iff}
use upzp_game_process.Prelude.{
  ℕ, ◌^◌, ◌≡◌, refl, ap, ◌∙◌, inl, inr, Option, none, some, List, [], ◌∷◌, if◌then◌else◌,
  Bool-cases, Option-cases,
}
use upzp_game_process.Prelude.Int.{ℤ}
use upzp_game_process.SubProcessSettings.{
  SubProcessSettings, Conversions, wrap, load_argument, load_from, load,
}

-- The value behind a name, if it is the one that counts for a setting and can be converted.
abbrev pub pick : {A : Type 0} → (String → Option A) → String → String → String → A → A
pick convert flag name value old =
    if name == flag then elim (convert value) [ none ↦ old | some a ↦ a ] else old

-- What a setting comes to: the last value behind its name that can be converted, or the old one. A
-- value may itself be the name for the next one.
abbrev pub last_value : {A : Type 0} → (String → Option A) → String → String → List String → A → A
last_value convert flag name [] old = old
last_value convert flag name (value ∷ rest) old =
    last_value convert flag value rest (pick convert flag name value old)

module _ {R : Type 0} (conv : Conversions R) where
  -- The settings, each by itself.
  abbrev pub each :
      ((A : Type 0) → (String → Option A) → String → A → A)
      → SubProcessSettings R
      → SubProcessSettings R
  each f s = record {
    udp_port = f ℕ (λ v. Option.map (wrap (2 ^ 16)) (conv.stoi v)) "--udp" s.udp_port;
    tcp_port = f ℕ (λ v. Option.map (wrap (2 ^ 16)) (conv.stoi v)) "--tcp" s.tcp_port;
    start_point_latitude = f R conv.stod "--lat_start" s.start_point_latitude;
    start_point_longitude = f R conv.stod "--long_start" s.start_point_longitude;
    map_radius = f R conv.stod "--radius" s.map_radius;
    map_name = f String some "--map" s.map_name;
    game_id = f ℕ (λ v. Option.map (wrap (2 ^ 32)) (conv.stoi v)) "--id" s.game_id;
    points_to_win = f ℤ conv.stoi "--win_points" s.points_to_win;
    point_box_spawn_period =
        f ℕ (λ v. Option.map (wrap (2 ^ 16)) (conv.stoi v)) "--spawn_period"
          s.point_box_spawn_period;
  }

  abbrev SetsEach : (name value : String) (s : SubProcessSettings R) → Type 0
  SetsEach name value s =
      load_argument conv name value s ≡ each (λ A convert flag. pick convert flag name value) s

  load_udp_port : (value : String) (s : SubProcessSettings R) → SetsEach "--udp" value s
  unfolding load_argument
  load_udp_port value s = elim (Option-cases (conv.stoi value)) [
    | inl e ↦ rw e refl
    | inr (a, e) ↦ rw e refl
  ]

  load_tcp_port : (value : String) (s : SubProcessSettings R) → SetsEach "--tcp" value s
  unfolding load_argument
  load_tcp_port value s = elim (Option-cases (conv.stoi value)) [
    | inl e ↦ rw e refl
    | inr (a, e) ↦ rw e refl
  ]

  load_start_point_latitude :
      (value : String) (s : SubProcessSettings R) → SetsEach "--lat_start" value s
  unfolding load_argument
  load_start_point_latitude value s = elim (Option-cases (conv.stod value)) [
    | inl e ↦ rw e refl
    | inr (a, e) ↦ rw e refl
  ]

  load_start_point_longitude :
      (value : String) (s : SubProcessSettings R) → SetsEach "--long_start" value s
  unfolding load_argument
  load_start_point_longitude value s = elim (Option-cases (conv.stod value)) [
    | inl e ↦ rw e refl
    | inr (a, e) ↦ rw e refl
  ]

  load_map_radius : (value : String) (s : SubProcessSettings R) → SetsEach "--radius" value s
  unfolding load_argument
  load_map_radius value s = elim (Option-cases (conv.stod value)) [
    | inl e ↦ rw e refl
    | inr (a, e) ↦ rw e refl
  ]

  load_map_name : (value : String) (s : SubProcessSettings R) → SetsEach "--map" value s
  unfolding load_argument
  load_map_name value s = refl

  load_game_id : (value : String) (s : SubProcessSettings R) → SetsEach "--id" value s
  unfolding load_argument
  load_game_id value s = elim (Option-cases (conv.stoi value)) [
    | inl e ↦ rw e refl
    | inr (a, e) ↦ rw e refl
  ]

  load_points_to_win : (value : String) (s : SubProcessSettings R) → SetsEach "--win_points" value s
  unfolding load_argument
  load_points_to_win value s = elim (Option-cases (conv.stoi value)) [
    | inl e ↦ rw e refl
    | inr (a, e) ↦ rw e refl
  ]

  load_point_box_spawn_period :
      (value : String) (s : SubProcessSettings R) → SetsEach "--spawn_period" value s
  unfolding load_argument
  load_point_box_spawn_period value s = elim (Option-cases (conv.stoi value)) [
    | inl e ↦ rw e refl
    | inr (a, e) ↦ rw e refl
  ]

  -- One round of the loop: the argument and the one behind it change each setting by itself.
  load_argument-each : (name value : String) (s : SubProcessSettings R) → SetsEach name value s
  unfolding load_argument
  load_argument-each name value s = elim (Bool-cases (name == "--udp")) [
    | inl e ↦ rw ((eq_iff name "--udp").0 e) (load_udp_port value s)
    | inr n0 ↦ elim (Bool-cases (name == "--tcp")) [
      | inl e ↦ rw ((eq_iff name "--tcp").0 e) (load_tcp_port value s)
      | inr n1 ↦ elim (Bool-cases (name == "--lat_start")) [
        | inl e ↦ rw ((eq_iff name "--lat_start").0 e) (load_start_point_latitude value s)
        | inr n2 ↦ elim (Bool-cases (name == "--long_start")) [
          | inl e ↦ rw ((eq_iff name "--long_start").0 e) (load_start_point_longitude value s)
          | inr n3 ↦ elim (Bool-cases (name == "--radius")) [
            | inl e ↦ rw ((eq_iff name "--radius").0 e) (load_map_radius value s)
            | inr n4 ↦ elim (Bool-cases (name == "--map")) [
              | inl e ↦ rw ((eq_iff name "--map").0 e) (load_map_name value s)
              | inr n5 ↦ elim (Bool-cases (name == "--id")) [
                | inl e ↦ rw ((eq_iff name "--id").0 e) (load_game_id value s)
                | inr n6 ↦ elim (Bool-cases (name == "--win_points")) [
                  | inl e ↦ rw ((eq_iff name "--win_points").0 e) (load_points_to_win value s)
                  | inr n7 ↦ elim (Bool-cases (name == "--spawn_period")) [
                    | inl e ↦
                        rw ((eq_iff name "--spawn_period").0 e)
                          (load_point_box_spawn_period value s)
                    | inr n8 ↦ rw (n0, n1, n2, n3, n4, n5, n6, n7, n8) refl
                  ]
                ]
              ]
            ]
          ]
        ]
      ]
    ]
  ]

  load_from-each :
      (name : String) (rest : List String) (s : SubProcessSettings R)
      → load_from conv name rest s ≡ each (λ A convert flag. last_value convert flag name rest) s
  unfolding load_from
  load_from-each name [] s = refl
  load_from-each name (value ∷ rest) s =
      load_from-each value rest (load_argument conv name value s)
      ∙ ap (each (λ A convert flag. last_value convert flag value rest))
          (load_argument-each name value s)

  -- `Load` looks at every argument but the last one as a name, the program's own included: each
  -- setting comes to the last value behind its name that can be converted, by itself and whatever the
  -- other arguments are, and keeps its old value if there is none.
  pub load-each :
      (program : String) (arguments : List String) (s : SubProcessSettings R)
      → load conv (program ∷ arguments) s
        ≡ each (λ A convert flag. last_value convert flag program arguments) s
  unfolding load
  load-each program arguments s = load_from-each program arguments s
