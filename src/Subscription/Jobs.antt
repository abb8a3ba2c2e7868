-- ===== src/Subscription/Jobs.antt =====
-- The repeated jobs of the subscriptions, in src/server/ua_subscription.c and
-- src/server/ua_server_worker.c.
use opc_ua.Common.{
  ℕ, ◌+◌, ◌≤◌, ◌<◌, ◌≡◌, refl, subst, arith, Bool-cases, inl, inr, Bool, true, ltb, leb, ◌==◌,
  Option, none, some, List, [], ◌∷◌, All,
}
use opc_ua.Status.{good, bad_out_of_memory, bad_subscription_id_invalid}
use opc_ua.Types.{Guid}
use opc_ua.Worker.Jobs.{
  IdentifiedJob, RepeatedJobs, scaled, add_to, add_repeated_job, server_add_repeated_job,
  process_repeated_jobs,
}
use opc_ua.Worker.Order.{IsSorted}
use opc_ua.Worker.Progress.{IsPositive, Processed, process_repeated_jobs-Processed}
use opc_ua.Worker.States.{server_add-IsSorted}
use opc_ua.Subscription.Notifications.{Subscription}
use opc_ua.Subscription.Manager.{set_with_bounds, get_subscription, set_subscription}
use opc_ua.Subscription.Lifetime.{
  Subscriptions, Supply, new_subscription, register_update_job, add_registered, create_subscription,
  set_registered, modify_found, modify_subscription,
}

-- The jobs can be run: the list is sorted and no interval is 0.
pub record CanRun (jobs : List (RepeatedJobs ℕ)) : Type 0 where
  pub sorted : IsSorted jobs
  pub positive : All IsPositive jobs

add_to-IsPositive :
    (first interval : ℕ) (j : IdentifiedJob ℕ) (tws : List (RepeatedJobs ℕ))
    → 0 < interval
    → All IsPositive tws
    → All IsPositive (add_to first interval j tws)
unfolding add_to
add_to-IsPositive first interval j [] pos h = (pos, tt)
add_to-IsPositive first interval j (tw ∷ tws) pos h = elim (Bool-cases (interval == tw.interval)) [
  | inl same ↦ rw same h
  | inr differs ↦ elim (Bool-cases (ltb first tw.next_time)) [
    | inl early ↦ rw (differs, early) (pos, h)
    | inr late ↦ rw (differs, late) (h.0, add_to-IsPositive first interval j tws pos h.1)
  ]
]

server_add-CanRun :
    (allocated : Bool) (now : ℕ) (random : Option Guid) (job interval : ℕ)
    (tws : List (RepeatedJobs ℕ))
    → interval ≤ 10000
    → CanRun tws
    → CanRun (server_add_repeated_job allocated now random job interval tws).1
unfolding server_add_repeated_job add_repeated_job
server_add-CanRun allocated now random job interval tws small ok = record {
  sorted = server_add-IsSorted allocated now random job interval tws ok.sorted;
  positive = elim (Bool-cases (ltb interval 5)) [
    | inl short ↦ rw short ok.positive
    | inr long ↦ elim (Bool-cases allocated) [
      | inr refused ↦ rw (long, refused) ok.positive
      | inl memory ↦
          rw (long, memory)
            (add_to-IsPositive (now + scaled interval) (scaled interval) _ tws
              (ground (arith, long, small)) ok.positive)
    ]
  ];
}

set_with_bounds-small : (src : ℕ) → set_with_bounds 0 10000 src ≤ 10000
set_with_bounds-small src = ground arith

module _ {V : Type 0} where
  abbrev HasJob : Subscription V → Type 0
  HasJob sub = sub.has_update_job ≡ true

  -- The jobs can be run, and each subscription has the memory of its job.
  pub record IsRunning (w : Subscriptions V) : Type 0 where
    pub can_run : CanRun w.jobs
    pub has_jobs : All HasJob w.subs

  abbrev Registers : Option (ℕ × Subscription V × List (RepeatedJobs ℕ)) → Type 0
  Registers none = ⊥
  Registers (some (status, sub, jobs)) = HasJob sub × CanRun jobs

  register_update_job-Registers :
      (t : Supply) (sub : Subscription V) (jobs : List (RepeatedJobs ℕ))
      → HasJob sub
      → sub.publishing_interval ≤ 10000
      → CanRun jobs
      → Registers (register_update_job t sub jobs)
  unfolding register_update_job
  register_update_job-Registers t sub jobs has small ok =
      let r =
        server_add_repeated_job t.entry_allocated t.now (some t.random) sub.subscription_id
          sub.publishing_interval jobs in
      let added =
        server_add-CanRun t.entry_allocated t.now (some t.random) sub.subscription_id
          sub.publishing_interval jobs small ok in
      elim (Bool-cases (leb sub.publishing_interval 5)) [
        | inl short ↦ rw short (has, ok)
        | inr long ↦ elim (Bool-cases (r.0 == good)) [
          | inl done ↦ simp (long, has, done) (refl, added)
          | inr failed ↦ simp (long, has, failed) (refl, added)
        ]
      ]

  -- The call does not crash, and afterwards a call of `processRepeatedJobs` ends.
  abbrev pub Continues : ℕ → Option (ℕ × Subscriptions V) → Type 0
  Continues current none = ⊥
  Continues current (some (status, w)) =
      IsRunning w × Processed current (process_repeated_jobs current w.jobs)

  continues :
      (current status : ℕ) (w : Subscriptions V)
      → IsRunning w
      → Continues current (some (status, w))
  continues current status w ok =
      (ok, process_repeated_jobs-Processed current w.jobs ok.can_run.sorted ok.can_run.positive)

  add_registered-Continues :
      (current : ℕ) (subs : List (Subscription V))
      (r : Option (ℕ × Subscription V × List (RepeatedJobs ℕ)))
      → All HasJob subs
      → Registers r
      → Continues current (add_registered subs r)
  unfolding add_registered
  add_registered-Continues current subs none hs h = h
  add_registered-Continues current subs (some (status, sub, jobs)) hs h =
      continues current good (record { subs = sub ∷ subs; jobs = jobs })
        (record { can_run = h.1; has_jobs = (h.0, hs) })

  All-HasJob-set :
      (id : ℕ) (new : Subscription V) (subs : List (Subscription V))
      → HasJob new
      → All HasJob subs
      → All HasJob (set_subscription id new subs)
  unfolding set_subscription
  All-HasJob-set id new [] h hs = tt
  All-HasJob-set id new (sub ∷ subs) h hs = elim (Bool-cases (sub.subscription_id == id)) [
    | inl same ↦ rw same (h, hs.1)
    | inr other ↦ rw other (hs.0, All-HasJob-set id new subs h hs.1)
  ]

  HasJob-get :
      (id : ℕ) (sub : Subscription V) (subs : List (Subscription V))
      → All HasJob subs
      → get_subscription id subs ≡ some sub
      → HasJob sub
  unfolding get_subscription
  HasJob-get id sub [] hs found =
      let e : ◌≡◌ {A = Option (Subscription V)} none (some sub) = found in cc
  HasJob-get id sub (s ∷ subs) hs found = elim (Bool-cases (s.subscription_id == id)) [
    | inl same ↦ let e : s ≡ sub = cc (rw same at found) in subst HasJob e hs.0
    | inr other ↦ HasJob-get id sub subs hs.1 (rw other at found)
  ]

  set_registered-Continues :
      (current id : ℕ) (subs : List (Subscription V))
      (r : Option (ℕ × Subscription V × List (RepeatedJobs ℕ)))
      → All HasJob subs
      → Registers r
      → Continues current (set_registered id subs r)
  unfolding set_registered
  set_registered-Continues current id subs none hs h = h
  set_registered-Continues current id subs (some (status, sub, jobs)) hs h =
      continues current good (record { subs = set_subscription id sub subs; jobs = jobs })
        (record { can_run = h.1; has_jobs = All-HasJob-set id sub subs h.0 hs })

  modify_found-Continues :
      (current : ℕ) (t : Supply) (id interval keep_alive : ℕ) (w : Subscriptions V)
      (found : Option (Subscription V))
      → IsRunning w
      → get_subscription id w.subs ≡ found
      → Continues current (modify_found t id interval keep_alive w found)
  unfolding modify_found
  modify_found-Continues current t id interval keep_alive w none ok e =
      continues current bad_subscription_id_invalid w ok
  modify_found-Continues current t id interval keep_alive w (some sub) ok e =
      set_registered-Continues current id w.subs _ ok.has_jobs (
        register_update_job-Registers t _ w.jobs (HasJob-get id sub w.subs ok.has_jobs e)
          (set_with_bounds-small interval) ok.can_run)

  -- If the repeated jobs can be run and the memory of a job can be allocated, then creating and
  -- modifying a subscription, whatever whole number of milliseconds is asked for as the interval, does
  -- not crash, keeps this so,
  -- and is followed by a call of `processRepeatedJobs` that ends: a publishing interval is cut to at
  -- most 10000 ms, which does not wrap around.
  pub subscriptions-Continues :
      (current : ℕ) (t : Supply) (id : ℕ) (job_id : Guid) (interval keep_alive : ℕ)
      (w : Subscriptions V)
      → IsRunning w
      → t.job_allocated ≡ true
      → Continues current (create_subscription t id job_id interval keep_alive w)
        × Continues current (modify_subscription t id interval keep_alive w)
  unfolding create_subscription modify_subscription new_subscription
  subscriptions-Continues current t id job_id interval keep_alive w ok memory = (
    (elim (Bool-cases t.subscription_allocated) [
      | inr refused ↦ rw refused (continues current bad_out_of_memory w ok)
      | inl allocated ↦ rw allocated (
          add_registered-Continues current w.subs _ ok.has_jobs (
            register_update_job-Registers t
              (new_subscription id job_id t.job_allocated interval keep_alive) w.jobs memory
              (set_with_bounds-small interval) ok.can_run))
    ]),
    modify_found-Continues current t id interval keep_alive w (get_subscription id w.subs) ok refl,
  )
