-- ===== src/Worker/States.antt =====
-- The states of the list of repeated jobs in src/server/ua_server_worker.c.
use opc_ua.Common.{
  ℕ, zero, suc, ◌+◌, ◌*◌, ◌≡◌, subst, Bool-cases, inl, inr, Bool, ltb, Option, some, List, [], ◌∷◌,
  ◌++◌, length,
}
use opc_ua.Types.{Guid}
use opc_ua.Worker.Jobs.{
  IdentifiedJob, RepeatedJobs, scaled, add_repeated_job, server_add_repeated_job, move_back,
  set_next_time, process_loop, process_repeated_jobs, remove_repeated_job,
}
use opc_ua.Worker.Order.{
  IsSorted, add_to-IsSorted, move_back-IsSorted, remove_repeated_job-IsSorted,
}

module _ {A : Type 0} where
  -- One call of the functions that change the list, with all that they are given.
  pub data Step : List (RepeatedJobs A) → List (RepeatedJobs A) → Type 0 where
    add :
        (tws : List (RepeatedJobs A)) (allocated : Bool) (now : ℕ) (random : Option Guid) (job : A)
        (ms : ℕ)
        → Step tws (server_add_repeated_job allocated now random job ms tws).1
    process :
        (tws left : List (RepeatedJobs A)) (current : ℕ) (done : List (IdentifiedJob A))
        → process_repeated_jobs current tws ≡ some (done, left)
        → Step tws left
    remove : (tws : List (RepeatedJobs A)) (id : Guid) → Step tws (remove_repeated_job id tws)

  pub data Reach : List (RepeatedJobs A) → Type 0 where
    start : Reach []
    next : {tws left : List (RepeatedJobs A)} → Reach tws → Step tws left → Reach left

  process_loop-IsSorted :
      (fuel current : ℕ) (done end : List (IdentifiedJob A)) (tws left : List (RepeatedJobs A))
      → IsSorted tws
      → process_loop fuel current done tws ≡ some (end, left)
      → IsSorted left
  unfolding process_loop
  process_loop-IsSorted zero current done end tws left s h = cc
  process_loop-IsSorted (suc fuel) current done end [] left s h =
      let e : ◌≡◌ {A = List (RepeatedJobs A)} [] left = cc h in subst IsSorted e s
  process_loop-IsSorted (suc fuel) current done end (tw ∷ tws) left s h =
      elim (Bool-cases (ltb current tw.next_time)) [
        | inl later ↦ let e : tw ∷ tws ≡ left = cc (rw later at h) in subst IsSorted e s
        | inr due ↦
            let m = set_next_time current tw in
            process_loop-IsSorted fuel current (done ++ tw.jobs) end (move_back m tws) left
              (move_back-IsSorted m tws s.1) (rw due at h)
      ]

  pub server_add-IsSorted :
      (allocated : Bool) (now : ℕ) (random : Option Guid) (job : A) (ms : ℕ)
      (tws : List (RepeatedJobs A))
      → IsSorted tws
      → IsSorted (server_add_repeated_job allocated now random job ms tws).1
  unfolding server_add_repeated_job add_repeated_job
  server_add-IsSorted allocated now random job ms tws s = elim (Bool-cases (ltb ms 5)) [
    | inl short ↦ rw short s
    | inr long ↦ elim (Bool-cases allocated) [
      | inl memory ↦ rw (long, memory) (add_to-IsSorted (now + scaled ms) (scaled ms) _ tws s)
      | inr full ↦ rw (long, full) s
    ]
  ]

  Step-IsSorted : {tws left : List (RepeatedJobs A)} → Step tws left → IsSorted tws → IsSorted left
  unfolding process_repeated_jobs
  Step-IsSorted (add tws allocated now random job ms) s =
      server_add-IsSorted allocated now random job ms tws s
  Step-IsSorted (process tws left current done e) s =
      process_loop-IsSorted (suc (2 * length tws)) current [] done tws left s e
  Step-IsSorted (remove tws id) s = remove_repeated_job-IsSorted id tws s

  -- Whatever jobs are added, run and removed, at whatever times, the list is sorted by time.
  pub Reach-IsSorted : {tws : List (RepeatedJobs A)} → Reach tws → IsSorted tws
  Reach-IsSorted start = tt
  Reach-IsSorted (next r st) = Step-IsSorted st (Reach-IsSorted r)
