-- ===== src/Worker/Overflow.antt =====
-- The interval of `UA_Server_addRepeatedJob` in src/server/ua_server_worker.c is computed on 32 bits.
use opc_ua.Common.{
  ℕ, zero, suc, ◌+◌, ◌^◌, ◌≤◌, ◌≡◌, refl, arith, Bool-cases, inl, inr, true, false, ltb, ◌==◌,
  Option, none, List, [], ◌∷◌, ◌++◌, All, ◌⊎◌,
}
use opc_ua.Status.{good}
use opc_ua.Types.{Guid}
use opc_ua.Worker.Jobs.{
  IdentifiedJob, RepeatedJobs, add_to, add_repeated_job, server_add_repeated_job, move_back,
  set_next_time, process_loop,
}
use opc_ua.Worker.Order.{IsSorted, NotBefore, move_back-IsSorted, add_to-IsSorted}
use opc_ua.Worker.Progress.{IsPositive}

module _ {ℓ} {A : Type ℓ} where
  -- Some entry is due and has the interval 0.
  abbrev pub IsStuck : ℕ → List (RepeatedJobs A) → Type 0
  IsStuck current [] = ⊥
  IsStuck current (tw ∷ tws) = ((tw.interval ≡ 0) × (tw.next_time ≤ current)) ⊎ IsStuck current tws

  IsStuck-move_back :
      (current : ℕ) (m : RepeatedJobs A) (tws : List (RepeatedJobs A))
      → IsStuck current tws
      → IsStuck current (move_back m tws)
  unfolding move_back
  IsStuck-move_back current m [] h = absurd h
  IsStuck-move_back current m (n ∷ ns) h = elim (Bool-cases (ltb m.next_time n.next_time)) [
    | inl early ↦ rw early (inr h)
    | inr late ↦ rw late (elim h [ inl e ↦ inl e | inr t ↦ inr (IsStuck-move_back current m ns t) ])
  ]

  IsStuck-moved :
      (current : ℕ) (m : RepeatedJobs A) (tws : List (RepeatedJobs A))
      → m.interval ≡ 0
      → m.next_time ≤ current
      → IsStuck current (move_back m tws)
  unfolding move_back
  IsStuck-moved current m [] z le = inl (z, le)
  IsStuck-moved current m (n ∷ ns) z le = elim (Bool-cases (ltb m.next_time n.next_time)) [
    | inl early ↦ rw early (inl (z, le))
    | inr late ↦ rw late (inr (IsStuck-moved current m ns z le))
  ]

  IsStuck-due :
      (current t : ℕ) (tws : List (RepeatedJobs A))
      → IsStuck current tws
      → All (NotBefore t) tws
      → t ≤ current
  IsStuck-due current t [] stuck h = absurd stuck
  IsStuck-due current t (tw ∷ tws) (inl e) h = omega (arith, e.1, h.0)
  IsStuck-due current t (tw ∷ tws) (inr r) h = IsStuck-due current t tws r h.1

  -- The loop does not end, however often it goes round.
  pub process_loop-IsStuck :
      (fuel current : ℕ) (done : List (IdentifiedJob A)) (tws : List (RepeatedJobs A))
      → IsSorted tws
      → IsStuck current tws
      → process_loop fuel current done tws ≡ none
  unfolding process_loop
  process_loop-IsStuck zero current done tws s h = refl
  process_loop-IsStuck (suc fuel) current done [] s h = absurd h
  process_loop-IsStuck (suc fuel) current done (tw ∷ tws) s h =
      let le : tw.next_time ≤ current =
        IsStuck-due current tw.next_time (tw ∷ tws) h ((omega arith), s.0) in
      let due : ltb current tw.next_time ≡ false = ground arith in
      let m = set_next_time current tw in
      let stuck : IsStuck current (move_back m tws) = elim h [
        | inl e ↦ IsStuck-moved current m tws e.0 (ground (arith, e.0))
        | inr r ↦ IsStuck-move_back current m tws r
      ] in
      rw due (
        process_loop-IsStuck fuel current (done ++ tw.jobs) (move_back m tws)
          (move_back-IsSorted m tws s.1) stuck)

  add_to-IsStuck :
      (now current : ℕ) (j : IdentifiedJob A) (tws : List (RepeatedJobs A))
      → All IsPositive tws
      → now ≤ current
      → IsStuck current (add_to now 0 j tws)
  unfolding add_to
  add_to-IsStuck now current j [] p le = inl (refl, le)
  add_to-IsStuck now current j (tw ∷ tws) p le =
      let differs : (0 == tw.interval) ≡ false = ground (arith, p.0) in
      elim (Bool-cases (ltb now tw.next_time)) [
        | inl early ↦ rw (differs, early) (inl (refl, le))
        | inr late ↦ rw (differs, late) (inr (add_to-IsStuck now current j tws p.1 le))
      ]

  add_to-endless :
      (fuel now current : ℕ) (j : IdentifiedJob A) (tws : List (RepeatedJobs A))
      → IsSorted tws
      → All IsPositive tws
      → now ≤ current
      → process_loop fuel current [] (add_to (now + 0) 0 j tws) ≡ none
  add_to-endless fuel now current j tws s p le =
      process_loop-IsStuck fuel current [] (add_to (now + 0) 0 j tws)
        (add_to-IsSorted (now + 0) 0 j tws s)
        (add_to-IsStuck (now + 0) current j tws p (omega arith))

  -- The interval of 2 ^ 28 ms, about three days, becomes 0; once the job is in the list, every later
  -- call of `processRepeatedJobs` runs it forever.
  pub server_add_repeated_job-endless :
      (fuel now current : ℕ) (random : Option Guid) (job : A) (tws : List (RepeatedJobs A))
      → IsSorted tws
      → All IsPositive tws
      → now ≤ current
      → ((server_add_repeated_job true now random job (2 ^ 28) tws).0 ≡ good)
        × (process_loop fuel current [] (server_add_repeated_job true now random job (2 ^ 28) tws).1
            ≡ none)
  unfolding server_add_repeated_job add_repeated_job
  server_add_repeated_job-endless fuel now current random job tws s p le =
      (refl, add_to-endless fuel now current _ tws s p le)
