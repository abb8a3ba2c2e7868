-- ===== src/Subscription/Updates.antt =====
-- The timed update of a subscription in src/server/ua_subscription.c keeps its bounds.
use opc_ua.Common.{
  ℕ, ◌+◌, ◌<◌, ◌≡◌, ◌⊎◌, false, refl, arith, Bool-cases, inl, inr, Bool, not, ◌&&◌, ltb, leb, ◌==◌,
  Option, none, some, List, [], ◌∷◌, All,
}
use opc_ua.Subscription.Items.{Sampling, MonitoredItem, is_change, is_empty}
use opc_ua.Subscription.Notifications.{
  Subscription, delete_unpublished, is_above, is_below, decrement, generate_keep_alive,
  count_keep_alive, limit_unpublished, publish_queued, add_queued, count_queued, is_other,
  clear_collected, update_notifications,
}
use opc_ua.Subscription.Services.{Moment, sample_next, sample_items, with_items, timed_update}
use opc_ua.Subscription.Bounds.{
  IsItem, IsSubscription, KeepsItem, queue_push_data_value-KeepsItem, limit_unpublished-below,
  count_keep_alive-IsSubscription,
}

-- The counts are right and within their bounds.
pub record IsWell {V : Type 0} (sub : Subscription V) : Type 0 where
  pub messages : IsSubscription sub
  pub each : All IsItem sub.items

module _ {V : Type 0} where
  clear_collected-IsItem :
      (mons : List (MonitoredItem V)) → All IsItem mons → All IsItem (clear_collected mons)
  unfolding clear_collected
  clear_collected-IsItem [] ok = tt
  clear_collected-IsItem (mon ∷ mons) (h, hs) =
      let rest = clear_collected-IsItem mons hs in
      elim (Bool-cases (is_change mon.item_type && not (is_empty mon.queue))) [
        | inl filled ↦ rw filled (
          record { counted = refl; bounded = omega arith; positive = h.positive; most = h.most },
          rest,
        )
        | inr other ↦ rw other (h, rest)
      ]

  -- Memory is refused to a call, for a message or for the encoding of a sample.
  abbrev pub Refused : Moment V → Type 0
  Refused t = (t.allocated ≡ false) ⊎ ((id : ℕ) × (t.buffered id ≡ false))

  abbrev KeepsItems : Moment V → Option (List (MonitoredItem V)) → Type 0
  KeepsItems t none = Refused t
  KeepsItems t (some mons) = All IsItem mons

  sample_next-KeepsItems :
      (t : Moment V) (id : ℕ) (m : Option (MonitoredItem V)) (ms : Option (List (MonitoredItem V)))
      → KeepsItem (t.buffered id) m
      → KeepsItems t ms
      → KeepsItems t (sample_next m ms)
  unfolding sample_next
  sample_next-KeepsItems t id none ms h hs = inr (id, h)
  sample_next-KeepsItems t id (some m) none h hs = hs
  sample_next-KeepsItems t id (some m) (some ms) h hs = (h, hs)

  sample_items-KeepsItems :
      (t : Moment V) (mons : List (MonitoredItem V))
      → All IsItem mons
      → KeepsItems t (sample_items t mons)
  unfolding sample_items
  sample_items-KeepsItems t [] ok = tt
  sample_items-KeepsItems t (mon ∷ mons) (h, hs) =
      sample_next-KeepsItems t mon.item_id _ (sample_items t mons)
        (queue_push_data_value-KeepsItem t.sampling (t.buffered mon.item_id) t.now t.now
          (t.sampled mon.item_id) mon h)
        (sample_items-KeepsItems t mons hs)

  limit_unpublished-items : (sub : Subscription V) → (limit_unpublished sub).items ≡ sub.items
  unfolding limit_unpublished delete_unpublished
  limit_unpublished-items sub = elim (Bool-cases (leb 10 sub.unpublished_size)) [
    | inl many ↦ rw many refl
    | inr few ↦ rw few refl
  ]

  generate_keep_alive-items :
      (allocated : Bool) (now : ℕ) (sub : Subscription V)
      → (generate_keep_alive allocated now sub).items ≡ sub.items
  unfolding generate_keep_alive
  generate_keep_alive-items allocated now sub =
      elim (Bool-cases (
        is_above sub.keep_alive sub.min_keep_alive
        && not (is_above sub.keep_alive sub.max_keep_alive))) [
          | inl enough ↦ rw enough refl
          | inr low ↦ elim (Bool-cases allocated) [
            | inl memory ↦ rw (low, memory) refl
            | inr refused ↦ rw (low, refused) refl
          ]
        ]

  count_keep_alive-items :
      (allocated : Bool) (now : ℕ) (sub : Subscription V)
      → (count_keep_alive allocated now sub).items ≡ sub.items
  unfolding count_keep_alive
  count_keep_alive-items allocated now sub =
      elim (Bool-cases (is_below (decrement sub.keep_alive) sub.min_keep_alive)) [
        | inl low ↦ rw low (
            generate_keep_alive-items allocated now
              (record sub { keep_alive = decrement sub.keep_alive }))
        | inr high ↦ rw high refl
      ]

  add_queued-IsItem :
      (sampling : Sampling V) (now : ℕ) (sub : Subscription V)
      → All IsItem sub.items
      → All IsItem (add_queued sampling now sub).items
  unfolding add_queued
  add_queued-IsItem sampling now sub ok =
      elim (Bool-cases (count_queued is_change sub.items == 0)) [
        | inl nothing ↦ rw nothing ok
        | inr queued ↦ rw queued (clear_collected-IsItem sub.items ok)
      ]

  -- A call ends with a subscription that keeps the bounds, unless memory is refused to it.
  abbrev pub KeepsSubscription : Moment V → Option (Subscription V) → Type 0
  KeepsSubscription t none = Refused t
  KeepsSubscription t (some sub) = IsWell sub

  add_queued-IsWell :
      (sampling : Sampling V) (now : ℕ) (sub : Subscription V)
      → IsWell sub
      → sub.unpublished_size < 10
      → IsWell (add_queued sampling now sub)
  unfolding add_queued
  add_queued-IsWell sampling now sub ok few = record {
    messages = record {
      counted = omega (arith, ok.messages.counted);
      bounded = omega (arith, few);
    };
    each = add_queued-IsItem sampling now sub ok.each;
  }

  publish_queued-KeepsSubscription :
      (t : Moment V) (sub : Subscription V)
      → IsWell sub
      → sub.unpublished_size < 10
      → KeepsSubscription t (publish_queued t.sampling t.allocated t.now sub)
  unfolding publish_queued
  publish_queued-KeepsSubscription t sub ok few = elim (Bool-cases t.allocated) [
    | inl memory ↦ rw memory (add_queued-IsWell t.sampling t.now sub ok few)
    | inr refused ↦ rw refused (inl refl)
  ]

  update_notifications-KeepsSubscription :
      (t : Moment V) (sub : Subscription V)
      → IsWell sub
      → KeepsSubscription t (update_notifications t.sampling t.allocated t.now sub)
  unfolding update_notifications
  update_notifications-KeepsSubscription t sub ok =
      let limited = limit_unpublished sub in
      let (messages, few) = limit_unpublished-below sub ok.messages in
      let still : All IsItem limited.items = rw (limit_unpublished-items sub) ok.each in
      elim (Bool-cases (ltb t.now (sub.last_published + sub.publishing_interval))) [
        | inl early ↦ rw early ok
        | inr due ↦
            elim (Bool-cases
              ((count_queued is_change sub.items == 0) && (count_queued is_other sub.items == 0))) [
                | inl idle ↦
                    rw (due, idle)
                      (record {
                        messages =
                            count_keep_alive-IsSubscription t.allocated t.now limited messages few;
                        each = rw (count_keep_alive-items t.allocated t.now limited) still;
                      })
                | inr queued ↦
                    rw (due, queued)
                      (publish_queued-KeepsSubscription t limited
                        (record { messages = messages; each = still }) few)
              ]
      ]

  with_items-KeepsSubscription :
      (t : Moment V) (sub : Subscription V) (mons : Option (List (MonitoredItem V)))
      → IsWell sub
      → KeepsItems t mons
      → KeepsSubscription t (with_items t sub mons)
  unfolding with_items
  with_items-KeepsSubscription t sub none ok h = h
  with_items-KeepsSubscription t sub (some mons) ok h =
      update_notifications-KeepsSubscription t (record sub { items = mons })
        (record {
          messages = record { counted = ok.messages.counted; bounded = ok.messages.bounded };
          each = h;
        })

  pub timed_update-KeepsSubscription :
      (t : Moment V) (sub : Subscription V) → IsWell sub → KeepsSubscription t (timed_update t sub)
  unfolding timed_update
  timed_update-KeepsSubscription t sub ok = elim (Bool-cases (sub.subscription_id == 0)) [
    | inl gone ↦ rw gone ok
    | inr there ↦ rw there (
        with_items-KeepsSubscription t sub (sample_items t sub.items) ok
          (sample_items-KeepsItems t sub.items ok.each))
  ]
