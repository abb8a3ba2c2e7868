-- ===== src/Subscription/Bounds.antt =====
-- The bounds that the queues and the messages of src/server/ua_subscription.c keep.
use opc_ua.Common.{
  ℕ, suc, ◌+◌, ◌^◌, ◌≤◌, ◌<◌, ◌≡◌, refl, ap, arith, Bool-cases, inl, inr, Bool, true, false, not,
  ◌&&◌, ltb, leb, Option, none, some, List, [], ◌∷◌, length,
}
use opc_ua.Subscription.Items.{
  is_change, Sampling, Sample, MonitoredItem, Room, room, full, crash, discard_last, discard_from,
  same_bytes, make_room, push_value, push_changed, push_into, queue_push_data_value,
}
use opc_ua.Subscription.Notifications.{
  Notification, Subscription, is_above, is_below, decrement, keep_others, delete_unpublished,
  generate_keep_alive, count_keep_alive, limit_unpublished,
}

-- The count is that of the queue, and within the bounds.
pub record IsItem {V : Type 0} (mon : MonitoredItem V) : Type 0 where
  pub counted : mon.current_queue_size ≡ length mon.queue
  pub bounded : mon.current_queue_size ≤ mon.max_queue_size
  pub positive : 0 < mon.max_queue_size
  pub most : mon.max_queue_size < 2 ^ 32

pub record IsSubscription {V : Type 0} (sub : Subscription V) : Type 0 where
  pub counted : sub.unpublished_size ≡ length sub.unpublished
  pub bounded : sub.unpublished_size ≤ 10

module _ {V : Type 0} where
  length-discard_last : (v : V) (vs : List V) → length (discard_last (v ∷ vs)) ≡ length vs
  length-discard_last v [] = refl
  length-discard_last v (w ∷ vs) = ap suc (length-discard_last w vs)

  -- There is a place for one more value, and the count is right.
  record HasRoom (mon : MonitoredItem V) : Type 0 where
    counted : mon.current_queue_size ≡ length mon.queue
    below : mon.current_queue_size < mon.max_queue_size
    most : mon.max_queue_size < 2 ^ 32

  abbrev GivesRoom : Room V → Type 0
  GivesRoom (room mon) = HasRoom mon
  GivesRoom full = Unit {0}
  GivesRoom crash = ⊥

  discard_from-GivesRoom :
      (mon : MonitoredItem V) (vs : List V)
      → mon.queue ≡ vs
      → IsItem mon
      → mon.max_queue_size ≤ mon.current_queue_size
      → GivesRoom (discard_from mon vs)
  discard_from-GivesRoom mon [] e ok at_max =
      let none_left : length mon.queue ≡ 0 = ap length e in
      absurd (omega (arith, ok.counted, ok.positive))
  discard_from-GivesRoom mon (v ∷ vs) e ok at_max =
      let total : length mon.queue ≡ suc (length vs) = ap length e in
      record {
        counted = omega (arith, ok.counted, ok.bounded, ok.most, length-discard_last v vs);
        below = omega (arith, ok.counted, ok.bounded, ok.most);
        most = ok.most;
      }

  make_room-GivesRoom : (mon : MonitoredItem V) → IsItem mon → GivesRoom (make_room mon)
  unfolding make_room
  make_room-GivesRoom mon ok = elim (Bool-cases (leb mon.max_queue_size mon.current_queue_size)) [
    | inr space ↦
        rw space
          (record { counted = ok.counted; below = ground (arith, ok.bounded); most = ok.most })
    | inl at_max ↦ elim (Bool-cases mon.discard_oldest) [
      | inl discard ↦
          simp (at_max, discard) (discard_from-GivesRoom mon mon.queue refl ok (ground arith))
      | inr keep ↦ rw (at_max, keep) tt
    ]
  ]

  push_value-IsItem :
      (now : ℕ) (v : V) (encoded : Option (List ℕ)) (mon : MonitoredItem V)
      → HasRoom mon
      → IsItem (push_value now v (record mon { last_sampled_value = encoded }))
  push_value-IsItem now v encoded mon h = record {
    counted = omega (arith, h.counted, h.below, h.most);
    bounded = omega (arith, h.below, h.most);
    positive = omega (arith, h.below);
    most = h.most;
  }

  push_changed-IsItem :
      (now : ℕ) (v : V) (encoded last : Option (List ℕ)) (mon : MonitoredItem V)
      → HasRoom mon
      → IsItem (push_changed now v encoded last mon)
  unfolding push_changed
  push_changed-IsItem now v encoded none mon h = push_value-IsItem now v encoded mon h
  push_changed-IsItem now v encoded (some bs) mon h = elim (Bool-cases (same_bytes encoded bs)) [
    | inl same ↦ rw same (record {
      counted = h.counted;
      bounded = omega (arith, h.below);
      positive = omega (arith, h.below);
      most = h.most;
    })
    | inr other ↦ rw other (push_value-IsItem now v encoded mon h)
  ]

  -- The call ends with an item that keeps the bounds, or memory is refused to it.
  abbrev pub KeepsItem : Bool → Option (MonitoredItem V) → Type 0
  KeepsItem buffered none = buffered ≡ false
  KeepsItem buffered (some mon) = IsItem mon

  push_into-KeepsItem :
      (buffered : Bool) (now : ℕ) (s : Sample V) (mon : MonitoredItem V) (r : Room V)
      → IsItem mon
      → GivesRoom r
      → KeepsItem buffered (push_into buffered now s mon r)
  unfolding push_into
  push_into-KeepsItem false now s mon (room m) ok h = refl
  push_into-KeepsItem true now s mon (room m) ok h =
      push_changed-IsItem now s.value s.encoded m.last_sampled_value m h
  push_into-KeepsItem buffered now s mon full ok h = ok
  push_into-KeepsItem buffered now s mon crash ok h = absurd h

  -- A sample, whatever its value, keeps the count of the queue and its bound, and does not take a
  -- value from an empty queue.
  pub queue_push_data_value-KeepsItem :
      (sampling : Sampling V) (buffered : Bool) (now later : ℕ) (sampled : Option (Sample V))
      (mon : MonitoredItem V)
      → IsItem mon
      → KeepsItem buffered (queue_push_data_value sampling buffered now later sampled mon)
  unfolding queue_push_data_value
  queue_push_data_value-KeepsItem sampling buffered now later none mon ok = ok
  queue_push_data_value-KeepsItem sampling buffered now later (some s) mon ok =
      elim (Bool-cases (ltb now (mon.last_sampled + mon.sampling_interval))) [
        | inl early ↦ rw early ok
        | inr due ↦ elim (Bool-cases (is_change mon.item_type)) [
          | inr other ↦ rw (due, other) ok
          | inl change ↦ elim (Bool-cases (sampling.typed s.value)) [
            | inr untyped ↦ rw (due, change, untyped) ok
            | inl typed ↦
                rw (due, change, typed)
                  (push_into-KeepsItem buffered later s mon (make_room mon) ok
                    (make_room-GivesRoom mon ok))
          ]
        ]
      ]

  keep_others_all : (seq_no : ℕ) (ns : List (Notification V)) → keep_others seq_no true ns ≡ []
  unfolding keep_others
  keep_others_all seq_no [] = refl
  keep_others_all seq_no (n ∷ ns) = keep_others_all seq_no ns

  pub length-keep_others :
      (seq_no : ℕ) (all : Bool) (ns : List (Notification V))
      → length (keep_others seq_no all ns) ≤ length ns
  unfolding keep_others
  length-keep_others seq_no all [] = omega arith
  length-keep_others seq_no all (n ∷ ns) = ground (arith, length-keep_others seq_no all ns)

  pub delete_unpublished-IsSubscription :
      (seq_no : ℕ) (all : Bool) (sub : Subscription V)
      → IsSubscription sub
      → IsSubscription (delete_unpublished seq_no all sub).1
  unfolding delete_unpublished
  delete_unpublished-IsSubscription seq_no all sub ok =
      let fewer = length-keep_others seq_no all sub.unpublished in
      record { counted = omega (arith, fewer, ok.counted); bounded = omega (arith, ok.bounded) }

  -- After the limit there are at most nine messages.
  pub limit_unpublished-below :
      (sub : Subscription V)
      → IsSubscription sub
      → IsSubscription (limit_unpublished sub) × ((limit_unpublished sub).unpublished_size < 10)
  unfolding limit_unpublished delete_unpublished
  limit_unpublished-below sub ok = elim (Bool-cases (leb 10 sub.unpublished_size)) [
    | inl many ↦
        rw (many, keep_others_all 0 sub.unpublished)
          (
            record { counted = omega (arith, ok.counted); bounded = omega (arith, ok.bounded) },
            omega (arith, ok.counted, ok.bounded),
          )
    | inr few ↦ rw few (ok, ground arith)
  ]

  generate_keep_alive-IsSubscription :
      (allocated : Bool) (now : ℕ) (sub : Subscription V)
      → IsSubscription sub
      → sub.unpublished_size < 10
      → IsSubscription (generate_keep_alive allocated now sub)
  unfolding generate_keep_alive
  generate_keep_alive-IsSubscription allocated now sub ok few =
      elim (Bool-cases (
        is_above sub.keep_alive sub.min_keep_alive
        && not (is_above sub.keep_alive sub.max_keep_alive))) [
          | inl enough ↦ rw enough ok
          | inr low ↦ elim (Bool-cases allocated) [
            | inl memory ↦
                rw (low, memory)
                  (record { counted = omega (arith, ok.counted); bounded = omega arith })
            | inr refused ↦ rw (low, refused) ok
          ]
        ]

  pub count_keep_alive-IsSubscription :
      (allocated : Bool) (now : ℕ) (sub : Subscription V)
      → IsSubscription sub
      → sub.unpublished_size < 10
      → IsSubscription (count_keep_alive allocated now sub)
  unfolding count_keep_alive
  count_keep_alive-IsSubscription allocated now sub ok few =
      let counted = record sub { keep_alive = decrement sub.keep_alive } in
      let still : IsSubscription counted = record { counted = ok.counted; bounded = ok.bounded } in
      elim (Bool-cases (is_below (decrement sub.keep_alive) sub.min_keep_alive)) [
        | inl low ↦ rw low (generate_keep_alive-IsSubscription allocated now counted still few)
        | inr high ↦ rw high still
      ]
