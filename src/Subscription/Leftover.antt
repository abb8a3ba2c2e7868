-- ===== src/Subscription/Leftover.antt =====
-- The repeated job that a modified subscription leaves behind: `Subscription_registerUpdateJob` and
-- `UA_Subscription_deleteMembers` of src/server/ua_subscription.c.
use opc_ua.Common.{
  ℕ, ◌+◌, ◌<◌, ◌≡◌, ◌⊎◌, refl, sym, ap, subst, ◌∙◌, arith, Bool-cases, inl, inr, Bool, true, false,
  ltb, leb, ◌==◌, Option, none, some, List, [], ◌∷◌, ◌++◌,
}
use opc_ua.Types.{Guid, guid_equal}
use opc_ua.Worker.Jobs.{
  IdentifiedJob, RepeatedJobs, scaled, add_to, add_repeated_job, server_add_repeated_job, last_or,
  without_last, remove_job, replace_entry, remove_repeated_job,
}
use opc_ua.Subscription.Notifications.{Subscription}
use opc_ua.Subscription.Lifetime.{Supply, register_update_job, unhook_job}

-- The job is in a list of jobs, or in an entry of a list.
abbrev pub InJobs : IdentifiedJob ℕ → List (IdentifiedJob ℕ) → Type 0
InJobs x [] = ⊥
InJobs x (j ∷ js) = (x ≡ j) ⊎ InJobs x js

abbrev pub InEntries : IdentifiedJob ℕ → List (RepeatedJobs ℕ) → Type 0
InEntries x [] = ⊥
InEntries x (tw ∷ tws) = InJobs x tw.jobs ⊎ InEntries x tws

InJobs-append :
    (x : IdentifiedJob ℕ) (js ks : List (IdentifiedJob ℕ)) → InJobs x js → InJobs x (js ++ ks)
InJobs-append x [] ks h = absurd h
InJobs-append x (j ∷ js) ks (inl e) = inl e
InJobs-append x (j ∷ js) ks (inr h) = inr (InJobs-append x js ks h)

InJobs-append_last : (x : IdentifiedJob ℕ) (js : List (IdentifiedJob ℕ)) → InJobs x (js ++ x ∷ [])
InJobs-append_last x [] = inl refl
InJobs-append_last x (j ∷ js) = inr (InJobs-append_last x js)

InJobs-last :
    (x k : IdentifiedJob ℕ) (js : List (IdentifiedJob ℕ))
    → InJobs x (k ∷ js)
    → InJobs x (last_or k js ∷ without_last (k ∷ js))
InJobs-last x k [] h = h
InJobs-last x k (l ∷ js) (inl e) = inr (inl e)
InJobs-last x k (l ∷ js) (inr h) = elim (InJobs-last x l js h) [
  | inl e ↦ inl e
  | inr rest ↦ inr (inr rest)
]

add_to-InEntries :
    (first interval : ℕ) (j : IdentifiedJob ℕ) (tws : List (RepeatedJobs ℕ))
    → InEntries j (add_to first interval j tws)
unfolding add_to
add_to-InEntries first interval j [] = inl (inl refl)
add_to-InEntries first interval j (tw ∷ tws) = elim (Bool-cases (interval == tw.interval)) [
  | inl same ↦ rw same (inl (InJobs-append_last j tw.jobs))
  | inr differs ↦ elim (Bool-cases (ltb first tw.next_time)) [
    | inl early ↦ rw (differs, early) (inl (inl refl))
    | inr late ↦ rw (differs, late) (inr (add_to-InEntries first interval j tws))
  ]
]

add_to-InEntries_old :
    (first interval : ℕ) (x j : IdentifiedJob ℕ) (tws : List (RepeatedJobs ℕ))
    → InEntries x tws
    → InEntries x (add_to first interval j tws)
unfolding add_to
add_to-InEntries_old first interval x j [] h = absurd h
add_to-InEntries_old first interval x j (tw ∷ tws) h = elim (Bool-cases (interval == tw.interval)) [
  | inl same ↦
      rw same
        (elim h [ inl here ↦ inl (InJobs-append x tw.jobs (j ∷ []) here) | inr rest ↦ inr rest ])
  | inr differs ↦ elim (Bool-cases (ltb first tw.next_time)) [
    | inl early ↦ rw (differs, early) (inr h)
    | inr late ↦
        rw (differs, late)
          (elim h [
            | inl here ↦ inl here
            | inr rest ↦ inr (add_to-InEntries_old first interval x j tws rest)
          ])
  ]
]

abbrev KeptIn : IdentifiedJob ℕ → Option (List (IdentifiedJob ℕ)) → Type 0
KeptIn x none = Unit {0}
KeptIn x (some js) = InJobs x js

other_job :
    (g : Guid) (x j : IdentifiedJob ℕ)
    → guid_equal g x.id ≡ false
    → guid_equal g j.id ≡ true
    → x ≡ j
    → ⊥
other_job g x j apart same e =
    let f : guid_equal g x.id ≡ guid_equal g j.id =
      ap (λ (i : IdentifiedJob ℕ). guid_equal g i.id) e in
    let h : ◌≡◌ {A = Bool} false true = sym apart ∙ (f ∙ same) in cc

kept_tail :
    (x j : IdentifiedJob ℕ) (rest : Option (List (IdentifiedJob ℕ)))
    → KeptIn x rest
    → KeptIn x (elim rest [ none ↦ none | some r ↦ some (j ∷ r) ])
kept_tail x j none h = tt
kept_tail x j (some r) h = inr h

kept_head :
    (x : IdentifiedJob ℕ) (j : IdentifiedJob ℕ) (rest : Option (List (IdentifiedJob ℕ)))
    → x ≡ j
    → KeptIn x (elim rest [ none ↦ none | some r ↦ some (j ∷ r) ])
kept_head x j none e = tt
kept_head x j (some r) e = inl e

remove_job-KeptIn :
    (g : Guid) (x : IdentifiedJob ℕ) (js : List (IdentifiedJob ℕ))
    → guid_equal g x.id ≡ false
    → InJobs x js
    → KeptIn x (remove_job g js)
unfolding remove_job
remove_job-KeptIn g x [] apart h = tt
remove_job-KeptIn g x (j ∷ []) apart h = elim (Bool-cases (guid_equal g j.id)) [
  | inr other ↦ rw other tt
  | inl same ↦ elim h [
    | inl e ↦ absurd (other_job g x j apart same e)
    | inr nothing ↦ absurd nothing
  ]
]
remove_job-KeptIn g x (j ∷ k ∷ js) apart h = elim (Bool-cases (guid_equal g j.id)) [
  | inl same ↦ rw same (elim h [
    | inl e ↦ absurd (other_job g x j apart same e)
    | inr rest ↦ InJobs-last x k js rest
  ])
  | inr other ↦ rw other (elim h [
    | inl e ↦ kept_head x j (remove_job g (k ∷ js)) e
    | inr rest ↦ kept_tail x j (remove_job g (k ∷ js)) (remove_job-KeptIn g x (k ∷ js) apart rest)
  ])
]

replace_entry-InEntries :
    (x : IdentifiedJob ℕ) (tw : RepeatedJobs ℕ) (tws rest : List (RepeatedJobs ℕ))
    (left : Option (List (IdentifiedJob ℕ)))
    → (InJobs x tw.jobs × KeptIn x left) ⊎ (InEntries x tws × InEntries x rest)
    → InEntries x (replace_entry tw tws rest left)
replace_entry-InEntries x tw tws rest none (inl h) = inl h.0
replace_entry-InEntries x tw tws rest none (inr h) = inr h.1
replace_entry-InEntries x tw tws rest (some []) (inl h) = absurd h.1
replace_entry-InEntries x tw tws rest (some []) (inr h) = h.0
replace_entry-InEntries x tw tws rest (some (j ∷ js)) (inl h) = inl h.1
replace_entry-InEntries x tw tws rest (some (j ∷ js)) (inr h) = inr h.0

remove_repeated_job-InEntries :
    (g : Guid) (x : IdentifiedJob ℕ) (tws : List (RepeatedJobs ℕ))
    → guid_equal g x.id ≡ false
    → InEntries x tws
    → InEntries x (remove_repeated_job g tws)
unfolding remove_repeated_job
remove_repeated_job-InEntries g x [] apart h = absurd h
remove_repeated_job-InEntries g x (tw ∷ tws) apart (inl h) =
    replace_entry-InEntries x tw tws (remove_repeated_job g tws) (remove_job g tw.jobs)
      (inl (h, remove_job-KeptIn g x tw.jobs apart h))
remove_repeated_job-InEntries g x (tw ∷ tws) apart (inr h) =
    replace_entry-InEntries x tw tws (remove_repeated_job g tws) (remove_job g tw.jobs)
      (inr (h, remove_repeated_job-InEntries g x tws apart h))

abbrev job_of : Supply → ℕ → IdentifiedJob ℕ
job_of t id = record { job = id; id = t.random }

module _ {V : Type 0} where
  -- What a registration leaves, if it does not crash.
  abbrev Registered :
      Supply
      → Subscription V
      → List (RepeatedJobs ℕ)
      → Option (ℕ × Subscription V × List (RepeatedJobs ℕ))
      → Type 0
  Registered t sub jobs none = Unit {0}
  Registered t sub jobs (some (status, after, added)) =
      (after.update_job_id ≡ t.random)
      × (after.subscription_id ≡ sub.subscription_id)
      × (after.has_update_job ≡ true)
      × (added
          ≡ add_to (t.now + scaled sub.publishing_interval) (scaled sub.publishing_interval)
              (job_of t sub.subscription_id) jobs)

  register_update_job-Registered :
      (t : Supply) (sub : Subscription V) (jobs : List (RepeatedJobs ℕ))
      → t.entry_allocated ≡ true
      → 5 < sub.publishing_interval
      → Registered t sub jobs (register_update_job t sub jobs)
  unfolding register_update_job server_add_repeated_job add_repeated_job
  register_update_job-Registered t sub jobs memory long =
      let not_short : leb sub.publishing_interval 5 ≡ false = ground arith in
      let not_shorter : ltb sub.publishing_interval 5 ≡ false = ground arith in
      elim (Bool-cases sub.has_update_job) [
        | inr missing ↦ simp (not_short, missing) tt
        | inl has ↦ simp (not_short, not_shorter, has, memory) (refl, refl, refl, refl)
      ]

  -- If the job of a subscription is registered twice, as by Service_CreateSubscription and then
  -- Service_ModifySubscription with intervals above 5 ms, with memory and with ids that are not equal,
  -- then the deletion of the subscription leaves the first job, with the pointer to it, in the list of
  -- repeated jobs.
  pub register_update_job-leaves :
      (t u : Supply) (sub first second : Subscription V) (interval : ℕ)
      (jobs jobs_first jobs_second : List (RepeatedJobs ℕ)) (status status' : ℕ)
      → t.entry_allocated ≡ true
      → u.entry_allocated ≡ true
      → guid_equal u.random t.random ≡ false
      → 5 < sub.publishing_interval
      → 5 < interval
      → register_update_job t sub jobs ≡ some (status, first, jobs_first)
      → register_update_job u (record first { publishing_interval = interval }) jobs_first
        ≡ some (status', second, jobs_second)
      → InEntries (job_of t sub.subscription_id) (unhook_job (some second) jobs_second)
  unfolding unhook_job
  register_update_job-leaves t u sub first second interval jobs jobs_first jobs_second status
        status' memory memory' apart long long' e e' =
      let x = job_of t sub.subscription_id in
      let a =
        subst (λ (r : Option (ℕ × Subscription V × List (RepeatedJobs ℕ))). Registered t sub jobs r)
          e (register_update_job-Registered t sub jobs memory long) in
      let again : Subscription V = record first { publishing_interval = interval } in
      let b =
        subst
          (λ (r : Option (ℕ × Subscription V × List (RepeatedJobs ℕ))).
            Registered u again jobs_first r)
          e' (register_update_job-Registered u again jobs_first memory' long') in
      let one : InEntries x jobs_first = subst (InEntries x) (sym a.3) (
        add_to-InEntries (t.now + scaled sub.publishing_interval) (scaled sub.publishing_interval) x
          jobs) in
      let two : InEntries x jobs_second = subst (InEntries x) (sym b.3) (
        add_to-InEntries_old (u.now + scaled interval) (scaled interval) x
          (job_of u first.subscription_id) jobs_first one) in
      let apart_now : guid_equal second.update_job_id t.random ≡ false = rw b.0 apart in
      rw b.2 (remove_repeated_job-InEntries second.update_job_id x jobs_second apart_now two)
