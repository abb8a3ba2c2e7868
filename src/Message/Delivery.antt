-- ===== src/Message/Delivery.antt =====
-- The messages that `UA_Connection_completeMessages` hands on, in `UA_Server_processBinaryMessage`.
use opc_ua.Common.{
  ℕ, zero, suc, ◌+◌, ◌-◌, ◌^◌, ◌≤◌, ◌<◌, ◌≡◌, ◌≢◌, refl, ap, ◌∙◌, arith, Bool, true, false, ltb,
  if◌then◌else◌, Option, none, some, List, [], ◌∷◌, ◌++◌, length, take, drop, All, length-append,
  drop-append, le→ltb,
}
use opc_ua.Status.{good}
use opc_ua.Binary.Stream.{from_le, ◌>>=◌}
use opc_ua.Binary.Integers.{word_decode, uint32_decode}
use opc_ua.Connection.Assembly.{Memory, complete_messages}
use opc_ua.Connection.Scanning.{
  IsMessage, IsPartial, join, drop_add, take-append_first, take-drop-append,
}
use opc_ua.Connection.Delivery.{IsAmple, delivered, length-join, complete_messages-Splits}
use opc_ua.Message.Processing.{
  header_decode, kind_of, Handlers, Round, goes_on, ends, process_kind, process_one, repeat_loop,
  process_from, process_binary_message,
}

uint32_decode-at :
    (bytes : List ℕ) (pos : ℕ)
    → pos + 4 ≤ length bytes
    → uint32_decode (record { bytes = bytes; offset = pos }) ≡ record {
      status = good;
      value = from_le (take 4 (drop pos bytes));
      stream = record { bytes = bytes; offset = pos + 4 };
    }
unfolding uint32_decode word_decode
uint32_decode-at bytes pos h = rw (le→ltb (length bytes) (pos + 4) (omega arith)) refl

header_decode-at :
    (bytes : List ℕ) (pos : ℕ)
    → pos + 8 ≤ length bytes
    → header_decode (record { bytes = bytes; offset = pos }) ≡ record {
      status = good;
      value = record {
        type_and_final = from_le (take 4 (drop pos bytes));
        message_size = from_le (take 4 (drop 4 (drop pos bytes)));
      };
      stream = record { bytes = bytes; offset = pos + 8 };
    }
unfolding header_decode ◌>>=◌
header_decode-at bytes pos h =
    rw
      (
        uint32_decode-at bytes pos (omega arith),
        uint32_decode-at bytes (pos + 4) (omega arith),
        drop_add pos 4 bytes,
      )
      (ap
        (λ i. record {
          status = good;
          value = record {
            type_and_final = from_le (take 4 (drop pos bytes));
            message_size = from_le (take 4 (drop 4 (drop pos bytes)));
          };
          stream = record { bytes = bytes; offset = i };
        })
        {x = pos + 4 + 4} {y = pos + 8} (omega arith))

module _ {ℓ} {S : Type ℓ} where
  -- The state that a round leaves, if what follows is `go`.
  abbrev pub followed_by : Round S → (S → S) → S
  followed_by (ends s) go = s
  followed_by (goes_on s) go = go s

  repeat_loop-followed_by :
      (go : S → Option S) (more : Bool) (r : Round S) (rest : S → S)
      → ((t : S) → (if more then go t else some t) ≡ some (rest t))
      → repeat_loop go more r ≡ some (followed_by r rest)
  unfolding repeat_loop
  repeat_loop-followed_by go more (ends s) rest h = refl
  repeat_loop-followed_by go more (goes_on s) rest h = h s

module _ {ℓ} {S : Type ℓ} (handlers : Handlers S) where
  -- The messages in turn, each by the type in its first bytes, at its place in the buffer.
  unfoldable pub process_each : List ℕ → ℕ → List (List ℕ) → S → S
  process_each bytes pos [] s = s
  process_each bytes pos (m ∷ ms) s =
      followed_by (process_kind handlers (kind_of (from_le (take 4 m))) bytes (pos + 8) s)
        (λ (t : S). process_each bytes (pos + length m) ms t)

  more_left :
      (max : ℕ) (m : List ℕ) (ms : List (List ℕ)) (pos : ℕ) (bytes : List ℕ)
      → IsMessage max m
      → length bytes ≡ pos + length (join (m ∷ ms))
      → ltb pos (length bytes) ≡ true
  more_left max m ms pos bytes ok total = ground (arith, total, ok.least, length-append m (join ms))

  -- The test of the loop: it goes on as long as there is a message.
  process_from-each :
      (max : ℕ) (ms : List (List ℕ)) (fuel pos : ℕ) (bytes : List ℕ) (s : S)
      → All (IsMessage max) ms
      → drop pos bytes ≡ join ms
      → length bytes ≡ pos + length (join ms)
      → length ms ≤ fuel
      → (if ltb pos (length bytes) then process_from handlers fuel bytes pos s else some s)
        ≡ some (process_each bytes pos ms s)
  unfolding process_from process_each process_one
  process_from-each max [] fuel pos bytes s ok here total enough =
      let over : ltb pos (length bytes) ≡ false = ground (arith, total) in rw over refl
  process_from-each max (m ∷ ms) zero pos bytes s ok here total enough =
      absurd (omega (arith, enough))
  process_from-each max (m ∷ ms) (suc fuel) pos bytes s ok here total enough =
      let long = ok.0.least in
      let whole = length-append m (join ms) in
      let fits : pos + 8 ≤ length bytes = omega (arith, long, whole, total) in
      let type : from_le (take 4 (drop pos bytes)) ≡ from_le (take 4 m) =
        rw here (ap from_le (take-append_first 4 m (join ms) (omega (arith, long)))) in
      let size : from_le (take 4 (drop 4 (drop pos bytes))) ≡ length m =
        rw here
          (ap from_le (take-drop-append 4 4 m (join ms) (omega (arith, long))) ∙ ok.0.stated) in
      let target : pos + 8 - 8 + length m ≡ pos + length m = omega arith in
      rw
        (
          more_left max m ms pos bytes ok.0 total,
          header_decode-at bytes pos fits,
          type,
          size,
          target,
        )
        (repeat_loop-followed_by (λ (t : S). process_from handlers fuel bytes (pos + length m) t)
          (ltb (pos + length m) (length bytes))
          (process_kind handlers (kind_of (from_le (take 4 m))) bytes (pos + 8) s)
          (λ (t : S). process_each bytes (pos + length m) ms t)
          (λ t.
            process_from-each max ms fuel (pos + length m) bytes t ok.1
              (drop_add pos (length m) bytes ∙ rw here (drop-append m (join ms)))
              (omega (arith, total, whole)) (omega (arith, enough))))

  -- The buffer of whole messages: the loop ends, and each message is processed once, in turn.
  process_binary_message-each :
      (max : ℕ) (m : List ℕ) (ms : List (List ℕ)) (s : S)
      → All (IsMessage max) (m ∷ ms)
      → process_binary_message handlers (join (m ∷ ms)) s
        ≡ some (process_each (join (m ∷ ms)) 0 (m ∷ ms) s)
  unfolding process_binary_message
  process_binary_message-each max m ms s ok =
      let bytes = join (m ∷ ms) in
      let more = more_left max m ms 0 bytes ok.0 (omega arith) in
      let run =
        process_from-each max (m ∷ ms) (suc (length bytes)) 0 bytes s ok refl (omega arith)
          (omega (arith, length-join max (m ∷ ms) ok)) in
      rw more at run

  -- What is done with the outcome of `UA_Connection_completeMessages`: nothing without a buffer.
  unfoldable pub process_delivered : Option (List ℕ) → S → Option S
  process_delivered none s = some s
  process_delivered (some bytes) s = process_binary_message handlers bytes s

  process_delivered-each :
      (max : ℕ) (ms : List (List ℕ)) (s : S)
      → All (IsMessage max) ms
      → process_delivered (delivered ms) s ≡ some (process_each (join ms) 0 ms s)
  unfolding process_delivered process_each
  process_delivered-each max [] s ok = refl
  process_delivered-each max (m ∷ ms) s ok = process_binary_message-each max m ms s ok

  pub complete_messages-processes :
      (memory : Memory) (max : ℕ) (old new : List ℕ) (ms : List (List ℕ)) (r : List ℕ) (s : S)
      → IsAmple memory
      → max < 2 ^ 31
      → All (IsMessage max) ms
      → IsPartial max r
      → old ++ new ≡ join ms ++ r
      → length (old ++ new) ≢ 1
      → length (old ++ new) < 2 ^ 64
      → (process_delivered (complete_messages memory max old new).message s
          ≡ some (process_each (join ms) 0 ms s))
        × ((complete_messages memory max old new).incomplete ≡ r)
  complete_messages-processes memory max old new ms r s ample small ok partial e many bound =
      let split =
        complete_messages-Splits memory max old new ms r ample small ok partial e many bound in
      (rw split.message (process_delivered-each max ms s ok), split.incomplete)
