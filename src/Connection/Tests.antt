-- ===== src/Connection/Tests.antt =====
-- Messages of 16 and 17 bytes, and the theorems of the message assembly at them.
use opc_ua.Common.{ℕ, ◌≡◌, refl, arith, true, none, some, List, [], ◌∷◌, ◌++◌, take, drop}
use opc_ua.Status.{good}
use opc_ua.Binary.Integers.{word_decode, uint32_decode}
use opc_ua.Connection.Assembly.{
  known_type, bad_length, Memory, scan, scan_all, finish_received, finish_joined, complete_messages,
}
use opc_ua.Connection.Scanning.{IsMessage}
use opc_ua.Connection.Delivery.{IsAmple}
use opc_ua.Connection.Loss.{complete_messages-garbled, complete_messages-first_byte}

program : Unit {0}
unfolding word_decode uint32_decode known_type bad_length scan scan_all finish_received
    finish_joined complete_messages
program = tt

abbrev ample : Memory
ample = record { grown = true; copied = true; rest_stored = true }

abbrev ack : List ℕ
ack = 0x41 ∷ 0x43 ∷ 0x4B ∷ 0x46 ∷ 16 ∷ 0 ∷ 0 ∷ 0 ∷ 1 ∷ 2 ∷ 3 ∷ 4 ∷ 5 ∷ 6 ∷ 7 ∷ 8 ∷ []

abbrev hel : List ℕ
hel = 0x48 ∷ 0x45 ∷ 0x4C ∷ 0x46 ∷ 17 ∷ 0 ∷ 0 ∷ 0 ∷ 1 ∷ 2 ∷ 3 ∷ 4 ∷ 5 ∷ 6 ∷ 7 ∷ 8 ∷ 9 ∷ []

abbrev zeros : List ℕ
zeros = 0 ∷ 0 ∷ 0 ∷ 0 ∷ 0 ∷ 0 ∷ 0 ∷ 0 ∷ 0 ∷ 0 ∷ 0 ∷ 0 ∷ 0 ∷ 0 ∷ 0 ∷ []

-- A message whose length is over the maximum is thrown away.
too_long : (complete_messages ample 15 [] ack).message ≡ none
unfolding program
too_long = refl

in_two_halves : (complete_messages ample 65536 (take 9 ack) (drop 9 ack)).message ≡ some ack
unfolding program
in_two_halves = refl

abbrev ample-IsAmple : IsAmple ample
ample-IsAmple = record { grown = refl; copied = refl; rest_stored = refl }

ack-IsMessage : IsMessage 65536 ack
unfolding program
ack-IsMessage = record { known = refl; stated = refl; least = omega arith; most = omega arith }

hel-IsMessage : IsMessage 65536 hel
unfolding program
hel-IsMessage = record { known = refl; stated = refl; least = omega arith; most = omega arith }

complete_messages-garbled_example :
    ((complete_messages ample 65536 [] (ack ++ (0 ∷ zeros))).message ≡ some ack)
    × ((complete_messages ample 65536 [] (ack ++ (0 ∷ zeros))).incomplete ≡ 0 ∷ zeros)
    × ((complete_messages ample 65536 (0 ∷ zeros) hel).message ≡ none)
    × ((complete_messages ample 65536 (0 ∷ zeros) hel).incomplete ≡ [])
complete_messages-garbled_example =
    complete_messages-garbled ample 65536 ack 0 zeros hel ample-IsAmple ack-IsMessage (omega arith)
      (omega arith) (unfold program in refl)

complete_messages-first_byte_example :
    (complete_messages ample 65536 [] (0x48 ∷ [])
      ≡ record { status = good; incomplete = []; message = none; realloced = true })
    × (complete_messages ample 65536 [] (drop 1 hel)
        ≡ record { status = good; incomplete = []; message = none; realloced = true })
complete_messages-first_byte_example =
    complete_messages-first_byte ample 65536 0x48 (drop 1 hel) hel-IsMessage (omega arith)
