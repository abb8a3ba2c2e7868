-- ===== src/Worker/Order.antt =====
-- The list of repeated jobs in src/server/ua_server_worker.c stays sorted by time.
use opc_ua.Common.{
  ℕ, ◌≤◌, arith, Bool-cases, inl, inr, ltb, ◌==◌, Option, none, some, List, [], ◌∷◌, All,
}
use opc_ua.Types.{Guid}
use opc_ua.Worker.Jobs.{
  IdentifiedJob, RepeatedJobs, add_to, move_back, remove_job, replace_entry, remove_repeated_job,
}

module _ {ℓ} {A : Type ℓ} where
  abbrev pub NotBefore : ℕ → RepeatedJobs A → Type 0
  NotBefore t tw = t ≤ tw.next_time

  abbrev pub IsSorted : List (RepeatedJobs A) → Type 0
  IsSorted [] = Unit {0}
  IsSorted (tw ∷ tws) = All (NotBefore tw.next_time) tws × IsSorted tws

  All-weaken :
      (s t : ℕ)
      → s ≤ t
      → (tws : List (RepeatedJobs A)) → All (NotBefore t) tws
      → All (NotBefore s) tws
  All-weaken s t le [] h = tt
  All-weaken s t le (tw ∷ tws) h = (omega (arith, h.0), All-weaken s t le tws h.1)

  All-add_to :
      (t first interval : ℕ) (j : IdentifiedJob A) (tws : List (RepeatedJobs A))
      → t ≤ first
      → All (NotBefore t) tws
      → All (NotBefore t) (add_to first interval j tws)
  unfolding add_to
  All-add_to t first interval j [] le h = (le, tt)
  All-add_to t first interval j (tw ∷ tws) le h = elim (Bool-cases (interval == tw.interval)) [
    | inl same ↦ rw same h
    | inr other ↦ elim (Bool-cases (ltb first tw.next_time)) [
      | inl early ↦ rw (other, early) (le, h)
      | inr late ↦ rw (other, late) (h.0, All-add_to t first interval j tws le h.1)
    ]
  ]

  pub add_to-IsSorted :
      (first interval : ℕ) (j : IdentifiedJob A) (tws : List (RepeatedJobs A))
      → IsSorted tws
      → IsSorted (add_to first interval j tws)
  unfolding add_to
  add_to-IsSorted first interval j [] h = (tt, tt)
  add_to-IsSorted first interval j (tw ∷ tws) h = elim (Bool-cases (interval == tw.interval)) [
    | inl same ↦ rw same h
    | inr other ↦ elim (Bool-cases (ltb first tw.next_time)) [
      | inl early ↦
          let le : first ≤ tw.next_time = ground arith in
          rw (other, early) ((le, All-weaken first tw.next_time le tws h.0), h)
      | inr late ↦
          rw (other, late)
            (
              All-add_to tw.next_time first interval j tws (ground arith) h.0,
              add_to-IsSorted first interval j tws h.1,
            )
    ]
  ]

  All-move_back :
      (t : ℕ) (tw : RepeatedJobs A) (tws : List (RepeatedJobs A))
      → t ≤ tw.next_time
      → All (NotBefore t) tws
      → All (NotBefore t) (move_back tw tws)
  unfolding move_back
  All-move_back t tw [] le h = (le, tt)
  All-move_back t tw (n ∷ ns) le h = elim (Bool-cases (ltb tw.next_time n.next_time)) [
    | inl early ↦ rw early (le, h)
    | inr late ↦ rw late (h.0, All-move_back t tw ns le h.1)
  ]

  pub move_back-IsSorted :
      (tw : RepeatedJobs A) (tws : List (RepeatedJobs A))
      → IsSorted tws
      → IsSorted (move_back tw tws)
  unfolding move_back
  move_back-IsSorted tw [] h = (tt, tt)
  move_back-IsSorted tw (n ∷ ns) h = elim (Bool-cases (ltb tw.next_time n.next_time)) [
    | inl early ↦
        let le : tw.next_time ≤ n.next_time = ground arith in
        rw early ((le, All-weaken tw.next_time n.next_time le ns h.0), h)
    | inr late ↦
        rw late (All-move_back n.next_time tw ns (ground arith) h.0, move_back-IsSorted tw ns h.1)
  ]

  All-replace :
      (t : ℕ) (tw : RepeatedJobs A) (tws rest : List (RepeatedJobs A))
      (o : Option (List (IdentifiedJob A)))
      → All (NotBefore t) (tw ∷ tws)
      → All (NotBefore t) rest
      → All (NotBefore t) (replace_entry tw tws rest o)
  All-replace t tw tws rest none h k = (h.0, k)
  All-replace t tw tws rest (some []) h k = h.1
  All-replace t tw tws rest (some (j ∷ js)) h k = h

  All-remove :
      (t : ℕ) (id : Guid) (tws : List (RepeatedJobs A))
      → All (NotBefore t) tws
      → All (NotBefore t) (remove_repeated_job id tws)
  unfolding remove_repeated_job
  All-remove t id [] h = tt
  All-remove t id (tw ∷ tws) h =
      All-replace t tw tws (remove_repeated_job id tws) (remove_job id tw.jobs) h
        (All-remove t id tws h.1)

  replace_entry-IsSorted :
      (tw : RepeatedJobs A) (tws rest : List (RepeatedJobs A)) (o : Option (List (IdentifiedJob A)))
      → IsSorted (tw ∷ tws)
      → IsSorted (tw ∷ rest)
      → IsSorted (replace_entry tw tws rest o)
  replace_entry-IsSorted tw tws rest none h k = k
  replace_entry-IsSorted tw tws rest (some []) h k = h.1
  replace_entry-IsSorted tw tws rest (some (j ∷ js)) h k = h

  -- A removal keeps the order.
  pub remove_repeated_job-IsSorted :
      (id : Guid) (tws : List (RepeatedJobs A))
      → IsSorted tws
      → IsSorted (remove_repeated_job id tws)
  unfolding remove_repeated_job
  remove_repeated_job-IsSorted id [] h = tt
  remove_repeated_job-IsSorted id (tw ∷ tws) h =
      replace_entry-IsSorted tw tws (remove_repeated_job id tws) (remove_job id tw.jobs) h
        (All-remove tw.next_time id tws h.0, remove_repeated_job-IsSorted id tws h.1)
