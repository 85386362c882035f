-- ===== src/Tests/Closing.antt =====
-- The end of the whole sub-process.
use upzp_game_process.Prelude.{ℕ, ◌≡◌, refl, some}
use upzp_game_process.GameLogic.{no_thread, act, running, tick, spawn_if_due, game_finished}
use upzp_game_process.Team.{score, score_from}
use upzp_game_process.Game.{calculate_movement, move_all, blue_team_won}
use upzp_game_process.SubProcess.{absent, exited, SubProcess}
use upzp_game_process.SubProcess.Ending.{at_end, exits_at}
use upzp_game_process.SubProcess.Conclusion.{Comes-trans}
use upzp_game_process.SubProcess.Closing.{destroy, destroy-exited}
use upzp_game_process.Tests.Toys.{sum_crc, memory, toy_wire, whole_numbers}
use upzp_game_process.Tests.System.{
  settings, no_draws, open_ports, no_address, fresh, start, StartReaches, booted, played, to_played,
}

abbrev over : SubProcess ℕ ℕ
over = record played { main = exited; tcp = at_end; udp = at_end }

to_over : StartReaches over
unfolding running act tick spawn_if_due calculate_movement move_all game_finished blue_team_won
    score score_from
to_over =
    Comes-trans whole_numbers no_address sum_crc toy_wire memory to_played
      (exits_at sum_crc toy_wire memory whole_numbers no_address played refl)

destroy-exited_example :
    (r : SubProcess ℕ ℕ) × (destroy over ≡ some r)
    × (r.tcp.worker ≡ absent)
    × (r.udp.worker ≡ absent)
    × (r.logic.thread ≡ no_thread)
destroy-exited_example =
    destroy-exited whole_numbers open_ports settings no_draws fresh 0 5 no_address sum_crc toy_wire
      memory start over booted to_over refl
