-- ===== src/Tests/Host.antt =====
-- The theorems on the host and the executable at samples.
use account_management_servi.Base.{ℕ, ◌≡◌, refl, true, false, none, some, [], ◌∷◌, ◌++◌, ok, err}
use account_management_servi.Host.{
  StopReason, task_runtime_ended, Poll, Ends, spawns_tasks, cancels_token, run, observed, select,
}
use account_management_servi.Host.Failures.{primary, secondary, failures, awaited, run-reports}
use account_management_servi.Startup.{Platform, main}
use account_management_servi.Startup.Cleanup.{Clean, main-Clean}

abbrev idle : Poll ℕ ℕ ℕ
idle = record { signal = none; cancelled = false; inbound = none; task_runtime = none }

-- The task runtime panics, and the inbound adapter then fails too.
abbrev broken : Poll ℕ ℕ ℕ
broken = record idle { task_runtime = some (err 3) }

abbrev ends : Ends ℕ ℕ ℕ
ends = record { inbound = err 4; task_runtime = err 3 }

abbrev reason : StopReason ℕ ℕ ℕ
reason = task_runtime_ended (err 3)

is_observed : observed (idle ∷ broken ∷ []) ≡ some reason
unfolding observed select
is_observed = refl

run-reports_example :
    run (idle ∷ broken ∷ []) ends
    ≡ some (
      primary (failures reason ends),
      spawns_tasks ∷ cancels_token ∷ (awaited reason ++ secondary (failures reason ends)),
    )
run-reports_example = run-reports (idle ∷ broken ∷ []) ends reason is_observed

-- The listener's address is taken.
abbrev occupied : Platform ℕ ℕ ℕ ℕ
occupied = record {
  load_dotenv = ok tt;
  from_env = ok 1;
  installs = λ c. true;
  connects = λ c. true;
  prepare_task_runtime = λ c. ok 2;
  binds = λ c. false;
  has_local_address = λ c. true;
  hosted = λ t. ok tt;
}

main-Clean_example : Clean (main occupied)
main-Clean_example = main-Clean occupied
