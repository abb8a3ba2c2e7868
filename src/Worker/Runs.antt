-- ===== src/Worker/Runs.antt =====
-- Which jobs `processRepeatedJobs` of src/server/ua_server_worker.c runs.
use opc_ua.Common.{
  ℕ, zero, suc, ◌*◌, ◌≤◌, ◌≡◌, sym, arith, Bool-cases, inl, inr, ltb, some, List, [], ◌∷◌, ◌++◌,
  length, All, append_assoc, append-nil, subst, ap, ◌∙◌, ◌⊎◌,
}
use opc_ua.Worker.Jobs.{
  IdentifiedJob, RepeatedJobs, move_back, set_next_time, process_loop, process_repeated_jobs,
}
use opc_ua.Worker.Order.{IsSorted, NotBefore, move_back-IsSorted}
use opc_ua.Worker.Progress.{IsPositive, Processed, process_repeated_jobs-Processed}

module _ {A : Type 0} where
  -- An entry is in the list.
  abbrev pub Holds : RepeatedJobs A → List (RepeatedJobs A) → Type 0
  Holds tw [] = ⊥
  Holds tw (n ∷ ns) = (tw ≡ n) ⊎ Holds tw ns

  -- Jobs stand together, in their order, among those that were run.
  abbrev pub Runs : List (IdentifiedJob A) → List (IdentifiedJob A) → Type 0
  Runs js done = (before after : List (IdentifiedJob A)) × (done ≡ before ++ (js ++ after))

  Holds-move_back_old :
      (tw m : RepeatedJobs A) (tws : List (RepeatedJobs A))
      → Holds tw tws
      → Holds tw (move_back m tws)
  unfolding move_back
  Holds-move_back_old tw m [] h = absurd h
  Holds-move_back_old tw m (n ∷ ns) h = elim (Bool-cases (ltb m.next_time n.next_time)) [
    | inl early ↦ rw early (inr h)
    | inr late ↦ rw late (elim h [ inl e ↦ inl e | inr t ↦ inr (Holds-move_back_old tw m ns t) ])
  ]

  Holds-All :
      (P : RepeatedJobs A → Type 0) (tw : RepeatedJobs A) (tws : List (RepeatedJobs A))
      → Holds tw tws
      → All P tws
      → P tw
  Holds-All P tw [] here h = absurd here
  Holds-All P tw (n ∷ ns) (inl e) h = subst P (sym e) h.0
  Holds-All P tw (n ∷ ns) (inr t) h = Holds-All P tw ns t h.1

  -- What has been run stays at the front.
  process_loop-keeps :
      (fuel current : ℕ) (done end : List (IdentifiedJob A)) (tws left : List (RepeatedJobs A))
      → process_loop fuel current done tws ≡ some (end, left)
      → (after : List (IdentifiedJob A)) × (end ≡ done ++ after)
  unfolding process_loop
  process_loop-keeps zero current done end tws left h = cc
  process_loop-keeps (suc fuel) current done end [] left h =
      let e : end ≡ done = cc h in ([], e ∙ sym (append-nil done))
  process_loop-keeps (suc fuel) current done end (tw ∷ tws) left h =
      elim (Bool-cases (ltb current tw.next_time)) [
        | inl later ↦ let e : end ≡ done = cc (rw later at h) in ([], e ∙ sym (append-nil done))
        | inr due ↦
            let (after, e) =
              process_loop-keeps fuel current (done ++ tw.jobs) end
                (move_back (set_next_time current tw) tws) left (rw due at h) in
            (tw.jobs ++ after, e ∙ append_assoc done tw.jobs after)
      ]

  process_loop-Runs :
      (fuel current : ℕ) (done end : List (IdentifiedJob A)) (tws left : List (RepeatedJobs A))
      (tw : RepeatedJobs A)
      → IsSorted tws
      → process_loop fuel current done tws ≡ some (end, left)
      → Holds tw tws
      → tw.next_time ≤ current
      → Runs tw.jobs end
  unfolding process_loop
  process_loop-Runs zero current done end tws left tw s h here due = cc
  process_loop-Runs (suc fuel) current done end [] left tw s h here due = absurd here
  process_loop-Runs (suc fuel) current done end (n ∷ ns) left tw s h here due =
      elim (Bool-cases (ltb current n.next_time)) [
        | inl later ↦
            let after : n.next_time ≤ tw.next_time =
              Holds-All (NotBefore n.next_time) tw (n ∷ ns) here ((omega arith), s.0) in
            absurd (ground (arith, after, due, later))
        | inr now ↦ elim here [
          | inl e ↦
              let (after, r) =
                process_loop-keeps fuel current (done ++ n.jobs) end
                  (move_back (set_next_time current n) ns) left (rw now at h) in
              (
                done,
                after,
                r
                    ∙ append_assoc done n.jobs after
                    ∙ ap (λ (m : RepeatedJobs A). done ++ (m.jobs ++ after)) (sym e),
              )
          | inr later ↦
              let m = set_next_time current n in
              process_loop-Runs fuel current (done ++ n.jobs) end (move_back m ns) left tw
                (move_back-IsSorted m ns s.1) (rw now at h) (Holds-move_back_old tw m ns later) due
        ]
      ]

  -- If the intervals are positive and the list is sorted, a call at `current` ends, runs the jobs of
  -- every entry that is due, and leaves a sorted list of entries that are due later.
  pub process_repeated_jobs-Runs :
      (current : ℕ) (tws : List (RepeatedJobs A))
      → IsSorted tws
      → All IsPositive tws
      → (p : Processed current (process_repeated_jobs current tws)) × ((tw : RepeatedJobs A)
          → Holds tw tws
          → tw.next_time ≤ current
          → Runs tw.jobs p.done)
  unfolding process_repeated_jobs
  process_repeated_jobs-Runs current tws s pos =
      let p = process_repeated_jobs-Processed current tws s pos in
      (
        p,
        λ tw here due.
            process_loop-Runs (suc (2 * length tws)) current [] p.done tws p.left tw s p.returned
              here due,
      )
