-- ===== src/SubProcess/Runners.antt =====
-- The thread of client_communication/client_communication.cpp and that of
-- main_process_comm/main_process_comm.cpp, with `Start` and `Stop`.
use upzp_game_process.Prelude.{Bool, true, false, Option, none, some, if◌then◌else◌}

-- `run_thread_`: no thread, one before `Connect` returns, one that runs handlers, one that waits for
-- `clients_mutex_`, and one that has ended and was not joined.
pub data Worker : Type 0 where
  absent connecting serving stuck ended : Worker

-- The members `running_`, `run_thread_` and whether `context_` was stopped.
pub record Runner : Type 0 where
  pub is_running : Bool
  pub worker : Worker
  pub stopped : Bool

abbrev pub no_runner : Runner
no_runner = record { is_running = false; worker = absent; stopped = false }

-- `Start`, with the place where the thread begins. `none`: the thread object still holds a thread.
unfoldable pub start_runner : Worker → Runner → Option Runner
start_runner first r =
    if r.is_running
    then some r
    else elim r.worker [ absent ↦ some (record r { is_running = true; worker = first }) | _ ↦ none ]

-- The end of the thread's function.
abbrev pub end_runner : Runner → Runner
end_runner r = record r { is_running = false; worker = ended }

-- The two halves of `Stop`; the second waits for the thread's end, which `none` says.
unfoldable pub stop_runner : Runner → Runner
stop_runner r = if r.is_running then record r { stopped = true } else r

unfoldable pub join_runner : Runner → Option Runner
join_runner r = elim r.worker [
  | absent ↦ some r
  | ended ↦ some (record r { worker = absent })
  | _ ↦ none
]
