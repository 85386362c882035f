-- ===== src/Tests/Protocol.antt =====
-- The first messages of the whole sub-process.
use upzp_game_process.Prelude.{ℕ, List, [], ◌∷◌}
use upzp_game_process.MainProcessComm.{game_id_message, game_finished_message}
use upzp_game_process.SubProcess.{stopping_tcp, SubProcess, Sent, to_main_process}
use upzp_game_process.Tests.Toys.{sum_crc, memory, toy_wire}
use upzp_game_process.Tests.System.{finished}

abbrev identification : List Sent
identification = to_main_process (game_id_message sum_crc toy_wire memory 1) ∷ []

-- The game thread ends, and `main` tells.
abbrev told : SubProcess ℕ ℕ
told = record finished { main = stopping_tcp }

abbrev end_of_game : List Sent
end_of_game = to_main_process (game_finished_message sum_crc toy_wire memory) ∷ []
