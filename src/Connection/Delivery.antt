-- ===== src/Connection/Delivery.antt =====
-- What `UA_Connection_completeMessages` in src/ua_connection.c hands on and what it keeps.
use opc_ua.Common.{
  ℕ, suc, ◌+◌, ◌-◌, ◌%◌, ◌^◌, ◌≤◌, ◌<◌, ◌≡◌, ◌≢◌, refl, sym, ap, subst, ◌∙◌, arith, true, false,
  ◌==◌, Option, none, some, List, [], ◌∷◌, ◌++◌, length, length-append, All, drop-append,
  take-append, append-nil,
}
use opc_ua.Status.{good}
use opc_ua.Connection.Assembly.{
  Memory, Assembly, scan_all, finish_received, finish_joined, complete_messages,
}
use opc_ua.Connection.Scanning.{IsMessage, IsPartial, join, scan-join}

-- The calls that allocate all return memory.
pub record IsAmple (memory : Memory) : Type 0 where
  pub grown : memory.grown ≡ true
  pub copied : memory.copied ≡ true
  pub rest_stored : memory.rest_stored ≡ true

-- Whole messages are handed on in one buffer; for none the buffer is given back.
abbrev pub delivered : List (List ℕ) → Option (List ℕ)
delivered [] = none
delivered (m ∷ ms) = some (join (m ∷ ms))

pub record Splits (ms : List (List ℕ)) (r : List ℕ) (a : Assembly) : Type 0 where
  pub status : a.status ≡ good
  pub incomplete : a.incomplete ≡ r
  pub message : a.message ≡ delivered ms

pub length-join :
    (max : ℕ) (ms : List (List ℕ)) → All (IsMessage max) ms → length ms ≤ length (join ms)
length-join max [] ok = omega arith
length-join max (m ∷ ms) ok =
    let long = ok.0.least in omega (arith, length-append m (join ms), length-join max ms ok.1)

join-positive :
    (max : ℕ) (m : List ℕ) (ms : List (List ℕ))
    → IsMessage max m
    → (length (join (m ∷ ms)) == 0) ≡ false
join-positive max m ms ok = ground (arith, ok.least, length-append m (join ms))

ends_there : (xs : List ℕ) → (length (xs ++ []) == length xs) ≡ true
ends_there xs = ground (arith, length-append xs [])

pub goes_on : (xs : List ℕ) (c : ℕ) (r : List ℕ) → (length (xs ++ (c ∷ r)) == length xs) ≡ false
goes_on xs c r = ground (arith, length-append xs (c ∷ r))

-- `length - 1` on size_t is 0 for one byte only.
last-positive : (n : ℕ) → n ≢ 1 → n < 2 ^ 64 → ((n + (2 ^ 64 - 1)) % 2 ^ 64 == 0) ≡ false
last-positive n h b = ground arith

module _ (memory : Memory) (ample : IsAmple memory) (d : ℕ) (keep : (d == 0) ≡ false) where
  received-Splits :
      (max : ℕ) (ms : List (List ℕ)) (r : List ℕ)
      → All (IsMessage max) ms
      → Splits ms r
          (finish_received memory (join ms ++ r) (record { pos = length (join ms); delete_at = d }))
  unfolding finish_received
  received-Splits max [] r ok =
      rw (keep, ample.copied) (record { status = refl; incomplete = refl; message = refl })
  received-Splits max (m ∷ ms) [] ok =
      rw (keep, join-positive max m ms ok.0, ends_there (join (m ∷ ms)))
        (record {
          status = refl;
          incomplete = refl;
          message = ap some (append-nil (join (m ∷ ms)));
        })
  received-Splits max (m ∷ ms) (c ∷ r) ok =
      rw (keep, join-positive max m ms ok.0, goes_on (join (m ∷ ms)) c r, ample.rest_stored)
        (record {
          status = refl;
          incomplete = drop-append (join (m ∷ ms)) (c ∷ r);
          message = ap some (take-append (join (m ∷ ms)) (c ∷ r));
        })

  joined-Splits :
      (max : ℕ) (ms : List (List ℕ)) (r : List ℕ)
      → All (IsMessage max) ms
      → Splits ms r
          (finish_joined memory (join ms ++ r) (record { pos = length (join ms); delete_at = d }))
  unfolding finish_joined
  joined-Splits max [] r ok = rw keep (record { status = refl; incomplete = refl; message = refl })
  joined-Splits max (m ∷ ms) [] ok =
      rw (keep, join-positive max m ms ok.0, ends_there (join (m ∷ ms)))
        (record {
          status = refl;
          incomplete = refl;
          message = ap some (append-nil (join (m ∷ ms)));
        })
  joined-Splits max (m ∷ ms) (c ∷ r) ok =
      rw (keep, join-positive max m ms ok.0, goes_on (join (m ∷ ms)) c r, ample.rest_stored)
        (record {
          status = refl;
          incomplete = drop-append (join (m ∷ ms)) (c ∷ r);
          message = ap some (take-append (join (m ∷ ms)) (c ∷ r));
        })

scan_all-join :
    (max : ℕ) (ms : List (List ℕ)) (r bytes : List ℕ)
    → All (IsMessage max) ms
    → max < 2 ^ 31
    → IsPartial max r
    → bytes ≡ join ms ++ r
    → scan_all max bytes
      ≡ record { pos = length (join ms); delete_at = (length bytes + (2 ^ 64 - 1)) % 2 ^ 64 }
unfolding scan_all
scan_all-join max ms r bytes ok small partial e =
    let total : length bytes ≡ length (join ms) + length r =
      ap length e ∙ length-append (join ms) r in
    scan-join max bytes ((length bytes + (2 ^ 64 - 1)) % 2 ^ 64) (suc (length bytes)) 0 ms r ok
      small partial e (omega arith) (omega (arith, length-join max ms ok, total))
    ∙ ap (λ i. record { pos = i; delete_at = (length bytes + (2 ^ 64 - 1)) % 2 ^ 64 }) (omega arith)

-- If memory can be allocated, and the bytes that are kept and those that arrive make up whole
-- messages and the beginning of one, but not a single byte, the whole messages are handed on
-- unchanged and the beginning is kept.
pub complete_messages-Splits :
    (memory : Memory) (max : ℕ) (old new : List ℕ) (ms : List (List ℕ)) (r : List ℕ)
    → IsAmple memory
    → max < 2 ^ 31
    → All (IsMessage max) ms
    → IsPartial max r
    → old ++ new ≡ join ms ++ r
    → length (old ++ new) ≢ 1
    → length (old ++ new) < 2 ^ 64
    → Splits ms r (complete_messages memory max old new)
unfolding complete_messages
complete_messages-Splits memory max [] new ms r ample small ok partial e many bound =
    let keep = last-positive (length new) many bound in
    rw (scan_all-join max ms r new ok small partial e) (
      subst
        (λ bs. Splits ms r (
          finish_received memory bs
            (record { pos = length (join ms); delete_at = (length new + (2 ^ 64 - 1)) % 2 ^ 64 })))
        (sym e)
        (received-Splits memory ample ((length new + (2 ^ 64 - 1)) % 2 ^ 64) keep max ms r ok))
complete_messages-Splits memory max (b ∷ bs) new ms r ample small ok partial e many bound =
    let bytes = b ∷ (bs ++ new) in
    let keep = last-positive (length bytes) many bound in
    rw (ample.grown, scan_all-join max ms r bytes ok small partial e)
      (subst
        (λ xs. Splits ms r (
          finish_joined memory xs (record {
            pos = length (join ms);
            delete_at = (length bytes + (2 ^ 64 - 1)) % 2 ^ 64;
          })))
        (sym e)
        (joined-Splits memory ample ((length bytes + (2 ^ 64 - 1)) % 2 ^ 64) keep max ms r ok))
