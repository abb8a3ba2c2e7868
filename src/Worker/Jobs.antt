-- ===== src/Worker/Jobs.antt =====
-- The list of repeated jobs in src/server/ua_server_worker.c, in the build without
-- UA_MULTITHREADING. A job is a value that is only kept and handed on; running it does not touch
-- the list.
use opc_ua.Common.{
  ℕ, zero, suc, ◌+◌, ◌-◌, ◌*◌, ◌/◌, ◌%◌, ◌^◌, Bool, ltb, ◌==◌, if◌then◌else◌, Option, none, some,
  List, [], ◌∷◌, ◌++◌, length,
}
use opc_ua.Status.{good, bad_internal_error, bad_out_of_memory}
use opc_ua.Types.{Guid, null_guid, guid_equal}

pub record IdentifiedJob {ℓ} (A : Type ℓ) : Type ℓ where
  pub job : A
  pub id : Guid

-- The jobs with one interval; times and intervals count steps of 100 ns.
pub record RepeatedJobs {ℓ} (A : Type ℓ) : Type ℓ where
  pub next_time : ℕ
  pub interval : ℕ
  pub jobs : List (IdentifiedJob A)

abbrev pub max_timeout : ℕ
max_timeout = 50000

-- `interval *= 10000` on uint32_t
abbrev pub scaled : ℕ → ℕ
scaled interval = (interval * 10000) % 2 ^ 32

module _ {ℓ} {A : Type ℓ} where
  -- The search and the insertion of `addRepeatedJob`, with memory: the job goes to the entry with
  -- its interval, or into a new entry before the first that is later.
  unfoldable pub add_to : ℕ → ℕ → IdentifiedJob A → List (RepeatedJobs A) → List (RepeatedJobs A)
  add_to first interval j [] = record { next_time = first; interval = interval; jobs = j ∷ [] } ∷ []
  add_to first interval j (tw ∷ tws) =
      if interval == tw.interval
      then record tw { jobs = tw.jobs ++ j ∷ [] } ∷ tws
      else if ltb first tw.next_time
      then record { next_time = first; interval = interval; jobs = j ∷ [] } ∷ tw ∷ tws
      else tw ∷ add_to first interval j tws

  -- `addRepeatedJob`; `allocated` is the outcome of `UA_malloc` or `UA_realloc`
  unfoldable pub add_repeated_job :
      Bool → ℕ → ℕ → IdentifiedJob A → List (RepeatedJobs A) → ℕ × List (RepeatedJobs A)
  unfolding add_to
  add_repeated_job allocated now interval j tws =
      if allocated then (good, add_to (now + interval) interval j tws) else (bad_out_of_memory, tws)

  -- `UA_Server_addRepeatedJob`: the outcome of `addRepeatedJob` is not read. `random` is the new
  -- id, if the caller wants one.
  unfoldable pub server_add_repeated_job :
      Bool → ℕ → Option Guid → A → ℕ → List (RepeatedJobs A) → ℕ × List (RepeatedJobs A)
  unfolding add_repeated_job
  server_add_repeated_job allocated now random job interval tws =
      if ltb interval 5 then (bad_internal_error, tws) else (
        good,
        (add_repeated_job allocated now (scaled interval)
            (record { job = job; id = elim random [ none ↦ null_guid | some g ↦ g ] }) tws).1,
      )

  -- The time of the next execution, which is not in the past.
  abbrev pub set_next_time : ℕ → RepeatedJobs A → RepeatedJobs A
  set_next_time current tw = record tw {
    next_time =
        if ltb (tw.next_time + tw.interval) current then current else tw.next_time + tw.interval;
  }

  -- The entry goes behind the last one that is not later.
  unfoldable pub move_back : RepeatedJobs A → List (RepeatedJobs A) → List (RepeatedJobs A)
  move_back tw [] = tw ∷ []
  move_back tw (n ∷ ns) = if ltb tw.next_time n.next_time then tw ∷ n ∷ ns else n ∷ move_back tw ns

  -- The loop of `processRepeatedJobs`: the jobs that are run, in order, and the list that is left;
  -- or no end within the fuel.
  unfoldable pub process_loop :
      ℕ
      → ℕ
      → List (IdentifiedJob A)
      → List (RepeatedJobs A)
      → Option (List (IdentifiedJob A) × List (RepeatedJobs A))
  unfolding move_back
  process_loop zero current done tws = none
  process_loop (suc fuel) current done [] = some (done, [])
  process_loop (suc fuel) current done (tw ∷ tws) =
      let rest =
        process_loop fuel current (done ++ tw.jobs) (move_back (set_next_time current tw) tws) in
      if ltb current tw.next_time then some (done, tw ∷ tws) else rest

  -- The end of `processRepeatedJobs`: the time until the first entry, as uint32_t
  unfoldable pub next_timeout : ℕ → List (RepeatedJobs A) → ℕ
  next_timeout current [] = max_timeout
  next_timeout current (tw ∷ tws) =
      let timeout = (tw.next_time - current) / 10 % 2 ^ 32 in
      if ltb max_timeout timeout then max_timeout else timeout

  -- `processRepeatedJobs`, with fuel for two runs of each entry
  unfoldable pub process_repeated_jobs :
      ℕ → List (RepeatedJobs A) → Option (List (IdentifiedJob A) × List (RepeatedJobs A))
  unfolding process_loop
  process_repeated_jobs current tws = process_loop (suc (2 * length tws)) current [] tws

  abbrev pub last_or : IdentifiedJob A → List (IdentifiedJob A) → IdentifiedJob A
  last_or d [] = d
  last_or d (j ∷ js) = last_or j js

  abbrev pub without_last : List (IdentifiedJob A) → List (IdentifiedJob A)
  without_last [] = []
  without_last (j ∷ []) = []
  without_last (j ∷ k ∷ js) = j ∷ without_last (k ∷ js)

  -- The first job with the id is overwritten with the last one, which is cut off.
  unfoldable pub remove_job : Guid → List (IdentifiedJob A) → Option (List (IdentifiedJob A))
  remove_job id [] = none
  remove_job id (j ∷ []) = if guid_equal id j.id then some [] else none
  remove_job id (j ∷ k ∷ js) =
      if guid_equal id j.id
      then some (last_or k js ∷ without_last (k ∷ js))
      else elim (remove_job id (k ∷ js)) [ none ↦ none | some rest ↦ some (j ∷ rest) ]

  -- The list with what is left of an entry: the entry and the rest as the search goes on, nothing
  -- of an entry without jobs, or the entry with fewer jobs.
  abbrev pub replace_entry :
      RepeatedJobs A
      → List (RepeatedJobs A)
      → List (RepeatedJobs A)
      → Option (List (IdentifiedJob A))
      → List (RepeatedJobs A)
  replace_entry tw tws rest none = tw ∷ rest
  replace_entry tw tws rest (some []) = tws
  replace_entry tw tws rest (some (j ∷ js)) = record tw { jobs = j ∷ js } ∷ tws

  -- `removeRepeatedJob`
  unfoldable pub remove_repeated_job : Guid → List (RepeatedJobs A) → List (RepeatedJobs A)
  unfolding remove_job
  remove_repeated_job id [] = []
  remove_repeated_job id (tw ∷ tws) =
      replace_entry tw tws (remove_repeated_job id tws) (remove_job id tw.jobs)
