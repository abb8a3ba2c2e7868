-- ===== src/Connection/Loss.antt =====
-- Bytes that `UA_Connection_completeMessages` in src/ua_connection.c loses.
use opc_ua.Common.{
  ℕ, suc, ◌+◌, ◌-◌, ◌%◌, ◌^◌, ◌≤◌, ◌<◌, ◌≡◌, refl, ap, ◌∙◌, arith, true, false, ◌==◌, none, some,
  List, [], ◌∷◌, ◌++◌, length, drop, get_or, length-append, drop-append, take-append,
}
use opc_ua.Status.{good}
use opc_ua.Connection.Assembly.{
  known_type, Memory, scan, scan_all, finish_received, finish_joined, complete_messages,
}
use opc_ua.Connection.Scanning.{IsMessage, scan-round, scan-message, get_or-append}
use opc_ua.Connection.Delivery.{IsAmple, goes_on}

-- The loop stops at a type that is not known.
scan-unknown :
    (max : ℕ) (bytes : List ℕ) (d fuel pos : ℕ) (g : List ℕ)
    → pos + 16 ≤ length bytes
    → drop pos bytes ≡ g
    → known_type (get_or g 0 0) (get_or g 1 0) (get_or g 2 0) ≡ false
    → scan (suc fuel) max bytes pos d ≡ record { pos = pos; delete_at = pos }
scan-unknown max bytes d fuel pos g h here unknown =
    scan-round max bytes d fuel pos h ∙ rw (here, unknown) refl

scan_all-unknown :
    (max : ℕ) (bytes : List ℕ)
    → 16 ≤ length bytes
    → known_type (get_or bytes 0 0) (get_or bytes 1 0) (get_or bytes 2 0) ≡ false
    → scan_all max bytes ≡ record { pos = 0; delete_at = 0 }
unfolding scan_all
scan_all-unknown max bytes h unknown =
    scan-unknown max bytes ((length bytes + (2 ^ 64 - 1)) % 2 ^ 64) (length bytes) 0 bytes
      (omega arith) refl unknown

scan_all-garbled :
    (max : ℕ) (m g : List ℕ)
    → IsMessage max m
    → max < 2 ^ 31
    → 16 ≤ length g
    → known_type (get_or g 0 0) (get_or g 1 0) (get_or g 2 0) ≡ false
    → scan_all max (m ++ g) ≡ record { pos = length m; delete_at = length m }
unfolding scan_all
scan_all-garbled max m g ok small h unknown =
    let bytes = m ++ g in
    let d = (length bytes + (2 ^ 64 - 1)) % 2 ^ 64 in
    let total = length-append m g in
    let some_fuel : length bytes ≡ suc (length bytes - 1) = omega (arith, total) in
    let there : 0 + length m ≡ length m = omega arith in
    scan-message max bytes d (length bytes) 0 m g ok small refl (omega arith)
    ∙ ap (λ i. scan (length bytes) max bytes i d) there
    ∙ ap (λ f. scan f max bytes (length m) d) some_fuel
    ∙ scan-unknown max bytes d (length bytes - 1) (length m) g (omega (arith, total))
        (drop-append m g) unknown

-- Bytes that are not a message, after a message, are kept as if they were the beginning of one,
-- and thrown away only with all that arrives next.
pub complete_messages-garbled :
    (memory : Memory) (max : ℕ) (m : List ℕ) (c : ℕ) (g new : List ℕ)
    → IsAmple memory
    → IsMessage max m
    → max < 2 ^ 31
    → 15 ≤ length g
    → known_type c (get_or g 0 0) (get_or g 1 0) ≡ false
    → ((complete_messages memory max [] (m ++ (c ∷ g))).message ≡ some m)
      × ((complete_messages memory max [] (m ++ (c ∷ g))).incomplete ≡ c ∷ g)
      × ((complete_messages memory max (c ∷ g) new).message ≡ none)
      × ((complete_messages memory max (c ∷ g) new).incomplete ≡ [])
unfolding complete_messages finish_received finish_joined
complete_messages-garbled memory max m c g new ample ok small h unknown =
    let more : 16 ≤ length (c ∷ g) = omega arith in
    let moved : (length m == 0) ≡ false = ground (arith, ok.least) in
    let later = scan_all-garbled max m (c ∷ g) ok small more unknown in
    let first : known_type c (get_or (g ++ new) 0 0) (get_or (g ++ new) 1 0) ≡ false =
      rw (get_or-append g new 0 (omega arith), get_or-append g new 1 (omega arith)) unknown in
    let refused =
      scan_all-unknown max (c ∷ (g ++ new)) (omega (arith, length-append g new)) first in
    (
      rw (later, moved, goes_on m c g, ample.rest_stored) (ap some (take-append m (c ∷ g))),
      rw (later, moved, goes_on m c g, ample.rest_stored) (drop-append m (c ∷ g)),
      rw (ample.grown, refused) refl,
      rw (ample.grown, refused) refl,
    )

known_type-second : (a b c d : ℕ) → known_type a b c ≡ true → known_type b c d ≡ false
unfolding known_type
known_type-second a b c d h = ground arith

-- The first byte of a message that arrives alone is thrown away, and so is then the rest.
pub complete_messages-first_byte :
    (memory : Memory) (max : ℕ) (b : ℕ) (m : List ℕ)
    → IsMessage max (b ∷ m)
    → 17 ≤ length (b ∷ m)
    → (complete_messages memory max [] (b ∷ [])
        ≡ record { status = good; incomplete = []; message = none; realloced = true })
      × (complete_messages memory max [] m
          ≡ record { status = good; incomplete = []; message = none; realloced = true })
unfolding complete_messages finish_received scan_all scan
complete_messages-first_byte memory max b m ok long =
    let unknown = known_type-second b (get_or m 0 0) (get_or m 1 0) (get_or m 2 0) ok.known in
    let refused = scan_all-unknown max m (omega arith) unknown in (refl, rw refused refl)
