-- ===== src/Tests/Arguments.antt =====
-- Program arguments.
use Prim.Native.String.{String}
use upzp_game_process.Prelude.{ℕ, ◌≡◌, some, none, List, [], ◌∷◌}
use upzp_game_process.Prelude.Int.{pos}
use upzp_game_process.SubProcessSettings.{Conversions, default_settings, load}
use upzp_game_process.SubProcessSettings.Arguments.{load-each}
use upzp_game_process.Tests.Toys.{whole_numbers}

-- Every text is the number 7.
abbrev sevens : Conversions ℕ
sevens = record { stoi = λ text. some (pos 7); stod = λ text. none }

abbrev arguments : List String
arguments = "--udp" ∷ "7" ∷ "--map" ∷ "KRAKOW" ∷ "--map" ∷ "WARSZAWA" ∷ []

load-each_example :
    load sevens ("upzp" ∷ arguments) (default_settings whole_numbers)
    ≡ record (default_settings whole_numbers) { udp_port = 7; map_name = "WARSZAWA" }
unfolding default_settings
load-each_example = load-each sevens "upzp" arguments (default_settings whole_numbers)
