-- ===== src/Worker/Progress.antt =====
-- `processRepeatedJobs` of src/server/ua_server_worker.c ends, and runs what is due.
use opc_ua.Common.{
  ℕ, zero, suc, ◌+◌, ◌*◌, ◌≤◌, ◌<◌, ◌≡◌, refl, arith, Bool-cases, inl, inr, false, ltb, ltb→lt,
  if◌then◌else◌, Option, some, List, [], ◌∷◌, ◌++◌, length, All,
}
use opc_ua.Worker.Jobs.{
  IdentifiedJob, RepeatedJobs, move_back, set_next_time, process_loop, process_repeated_jobs,
}
use opc_ua.Worker.Order.{IsSorted, NotBefore, move_back-IsSorted}

module _ {ℓ} {A : Type ℓ} where
  abbrev pub IsPositive : RepeatedJobs A → Type 0
  IsPositive tw = 0 < tw.interval

  -- How many runs an entry still needs, at most.
  runs_left : ℕ → RepeatedJobs A → ℕ
  runs_left current tw =
      if ltb current tw.next_time then 0 else if ltb tw.next_time current then 2 else 1

  all_runs_left : ℕ → List (RepeatedJobs A) → ℕ
  unfolding runs_left
  all_runs_left current [] = 0
  all_runs_left current (tw ∷ tws) = runs_left current tw + all_runs_left current tws

  all_runs_left_le :
      (current : ℕ) (tws : List (RepeatedJobs A)) → all_runs_left current tws ≤ 2 * length tws
  unfolding all_runs_left runs_left
  all_runs_left_le current [] = omega arith
  all_runs_left_le current (tw ∷ tws) = ground (arith, all_runs_left_le current tws)

  all_runs_left-move_back :
      (current : ℕ) (tw : RepeatedJobs A) (tws : List (RepeatedJobs A))
      → all_runs_left current (move_back tw tws) ≡ runs_left current tw + all_runs_left current tws
  unfolding all_runs_left move_back
  all_runs_left-move_back current tw [] = refl
  all_runs_left-move_back current tw (n ∷ ns) = elim (Bool-cases (ltb tw.next_time n.next_time)) [
    | inl early ↦ rw early refl
    | inr late ↦ rw late (omega (arith, all_runs_left-move_back current tw ns))
  ]

  -- A run uses one up.
  runs_left-set_next_time :
      (current : ℕ) (tw : RepeatedJobs A)
      → IsPositive tw
      → ltb current tw.next_time ≡ false
      → runs_left current (set_next_time current tw) < runs_left current tw
  unfolding runs_left
  runs_left-set_next_time current tw pos due = ground arith

  All-move_back :
      (tw : RepeatedJobs A) (tws : List (RepeatedJobs A))
      → IsPositive tw
      → All IsPositive tws
      → All IsPositive (move_back tw tws)
  unfolding move_back
  All-move_back tw [] p h = (p, tt)
  All-move_back tw (n ∷ ns) p h = elim (Bool-cases (ltb tw.next_time n.next_time)) [
    | inl early ↦ rw early (p, h)
    | inr late ↦ rw late (h.0, All-move_back tw ns p h.1)
  ]

  abbrev pub IsLater : ℕ → RepeatedJobs A → Type 0
  IsLater current tw = current < tw.next_time

  All-IsLater :
      (current t : ℕ)
      → current < t
      → (tws : List (RepeatedJobs A)) → All (NotBefore t) tws
      → All (IsLater current) tws
  All-IsLater current t lt [] h = tt
  All-IsLater current t lt (tw ∷ tws) h = (omega (arith, h.0), All-IsLater current t lt tws h.1)

  -- What the loop leaves: a sorted list of entries that are due later.
  pub record Processed (current : ℕ) (r : Option (List (IdentifiedJob A) × List (RepeatedJobs A)))
      : Type ℓ where
    pub done : List (IdentifiedJob A)
    pub left : List (RepeatedJobs A)
    pub returned : r ≡ some (done, left)
    pub sorted : IsSorted left
    pub later : All (IsLater current) left

  process_loop-ends :
      (fuel current : ℕ) (done : List (IdentifiedJob A)) (tws : List (RepeatedJobs A))
      → IsSorted tws
      → All IsPositive tws
      → all_runs_left current tws < fuel
      → Processed current (process_loop fuel current done tws)
  unfolding process_loop all_runs_left
  process_loop-ends zero current done tws s p enough = absurd (omega arith)
  process_loop-ends (suc fuel) current done [] s p enough = record {
    done = done;
    left = [];
    returned = refl;
    sorted = tt;
    later = tt;
  }
  process_loop-ends (suc fuel) current done (tw ∷ tws) s p enough =
      elim (Bool-cases (ltb current tw.next_time)) [
        | inl later ↦
            let lt : current < tw.next_time = ltb→lt current tw.next_time later in
            rw later (record {
              done = done;
              left = tw ∷ tws;
              returned = refl;
              sorted = s;
              later = (lt, All-IsLater current tw.next_time lt tws s.0);
            })
        | inr due ↦
            let moved = set_next_time current tw in
            rw due (
              process_loop-ends fuel current (done ++ tw.jobs) (move_back moved tws)
                (move_back-IsSorted moved tws s.1) (All-move_back moved tws p.0 p.1)
                (omega (
                  arith,
                  all_runs_left-move_back current moved tws,
                  runs_left-set_next_time current tw p.0 due,
                )))
      ]

  -- If the intervals are positive and the list is sorted, two runs of each entry are enough: all
  -- entries are then due later, and the list is sorted.
  pub process_repeated_jobs-Processed :
      (current : ℕ) (tws : List (RepeatedJobs A))
      → IsSorted tws
      → All IsPositive tws
      → Processed current (process_repeated_jobs current tws)
  unfolding process_repeated_jobs
  process_repeated_jobs-Processed current tws s p =
      process_loop-ends (suc (2 * length tws)) current [] tws s p
        (omega (arith, all_runs_left_le current tws))
