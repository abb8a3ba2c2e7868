-- ===== src/Worker/Tests.antt =====
-- Two entries of repeated jobs, and the theorems at them.
use opc_ua.Common.{ℕ, ◌^◌, ◌≤◌, ◌≡◌, refl, arith, true, false, none, some, [], ◌∷◌}
use opc_ua.Status.{good, bad_internal_error}
use opc_ua.Types.{null_guid, bytes_equal, guid_equal}
use opc_ua.Worker.Jobs.{
  IdentifiedJob, RepeatedJobs, add_to, add_repeated_job, server_add_repeated_job, move_back,
  process_loop, next_timeout, process_repeated_jobs, remove_job, remove_repeated_job,
}
use opc_ua.Worker.Order.{IsSorted}
use opc_ua.Worker.States.{add, start, next, Reach-IsSorted}
use opc_ua.Worker.Progress.{Processed}
use opc_ua.Worker.Runs.{Holds, Runs, process_repeated_jobs-Runs}
use opc_ua.Worker.Overflow.{server_add_repeated_job-endless}

program : Unit {0}
unfolding bytes_equal guid_equal add_to add_repeated_job server_add_repeated_job move_back
    process_loop next_timeout process_repeated_jobs remove_job remove_repeated_job
program = tt

abbrev job : ℕ → IdentifiedJob ℕ
job n = record { job = n; id = record null_guid { data1 = n } }

abbrev fast : RepeatedJobs ℕ
fast = record { next_time = 100; interval = 50; jobs = job 1 ∷ job 2 ∷ [] }

abbrev slow : RepeatedJobs ℕ
slow = record { next_time = 120; interval = 500; jobs = job 3 ∷ [] }

-- The time of `fast` is set to the present after the first run, so that it runs again at once.
overdue :
    process_repeated_jobs 300 (fast ∷ slow ∷ [])
    ≡ some (
      job 1 ∷ job 2 ∷ job 3 ∷ job 1 ∷ job 2 ∷ [],
      record fast { next_time = 350 } ∷ record slow { next_time = 620 } ∷ [],
    )
unfolding program
overdue = refl

too_short : (server_add_repeated_job true 10 none 7 4 (fast ∷ [])).0 ≡ bad_internal_error
unfolding program
too_short = refl

-- Nothing says that the job was not added.
no_memory : server_add_repeated_job false 10 none 7 5 (fast ∷ []) ≡ (good, fast ∷ [])
unfolding program
no_memory = refl

-- A bit more than seven minutes become less than a millisecond.
seven_minutes :
    (server_add_repeated_job {A = ℕ} true 10 none 7 429497 []).1
    ≡ record { next_time = 2714; interval = 2704; jobs = record { job = 7; id = null_guid } ∷ [] }
      ∷ []
unfolding program
seven_minutes = refl

removed : remove_repeated_job (record null_guid { data1 = 3 }) (fast ∷ slow ∷ []) ≡ fast ∷ []
unfolding program
removed = refl

last_moved :
    remove_repeated_job (record null_guid { data1 = 1 }) (fast ∷ [])
    ≡ record fast { jobs = job 2 ∷ [] } ∷ []
unfolding program
last_moved = refl

soon : next_timeout 40 (fast ∷ []) ≡ 6
unfolding program
soon = refl

abbrev both-IsSorted : IsSorted (fast ∷ slow ∷ [])
both-IsSorted = ((omega arith, tt), (tt, tt))

process_repeated_jobs-Runs_example :
    (p : Processed 110 (process_repeated_jobs 110 (fast ∷ slow ∷ []))) × ((tw : RepeatedJobs ℕ)
      → Holds tw (fast ∷ slow ∷ [])
      → tw.next_time ≤ 110
      → Runs tw.jobs p.done)
process_repeated_jobs-Runs_example =
    process_repeated_jobs-Runs 110 (fast ∷ slow ∷ []) both-IsSorted (omega arith, (omega arith, tt))

server_add_repeated_job-endless_example :
    ((server_add_repeated_job true 10 none 7 (2 ^ 28) (fast ∷ slow ∷ [])).0 ≡ good)
    × (process_loop 1000 200 []
          (server_add_repeated_job true 10 none 7 (2 ^ 28) (fast ∷ slow ∷ [])).1
        ≡ none)
server_add_repeated_job-endless_example =
    server_add_repeated_job-endless 1000 10 200 none 7 (fast ∷ slow ∷ []) both-IsSorted
      (omega arith, (omega arith, tt)) (omega arith)

Reach-IsSorted_example :
    IsSorted
      (server_add_repeated_job {A = ℕ} true 20 none 8 7
        (server_add_repeated_job true 10 none 9 5 []).1).1
Reach-IsSorted_example =
    Reach-IsSorted (next (next start (add [] true 10 none 9 5)) (add _ true 20 none 8 7))
