-- ===== src/Subscription/Services.antt =====
-- The timed update of src/server/ua_subscription.c, and publishing in
-- src/server/ua_services_subscription.c.
use opc_ua.Subscription.Retransmission.{acknowledge}
use opc_ua.Common.{
  ℕ, ◌+◌, ◌%◌, ◌^◌, Bool, true, false, ltb, ◌==◌, if◌then◌else◌, Option, none, some, List, [], ◌∷◌,
}
use opc_ua.Subscription.Items.{Sampling, Sample, MonitoredItem, queue_push_data_value}
use opc_ua.Subscription.Notifications.{
  at, Notification, Subscription, delete_unpublished, generate_keep_alive, update_notifications,
  available_sequence_numbers,
}

-- What the clients of a publish request see of a subscription's message.
pub record Published (V : Type 0) : Type 0 where
  pub publishing_id : ℕ
  pub message : Notification V
  pub available : List ℕ

-- What the timed update and a publish request read besides the subscription: the value of an item,
-- by its id, whether memory is allocated for the encoding of it and for a message, and the time.
pub record Moment (V : Type 0) : Type 0 where
  pub sampling : Sampling V
  pub sampled : ℕ → Option (Sample V)
  pub buffered : ℕ → Bool
  pub allocated : Bool
  pub now : ℕ

module _ {V : Type 0} where
  unfoldable pub sample_next :
      Option (MonitoredItem V) → Option (List (MonitoredItem V)) → Option (List (MonitoredItem V))
  sample_next none rest = none
  sample_next (some mon) none = none
  sample_next (some mon) (some mons) = some (mon ∷ mons)

  -- The loop over the items, each with a fresh sample; `none` is a crash.
  unfoldable pub sample_items : Moment V → List (MonitoredItem V) → Option (List (MonitoredItem V))
  unfolding sample_next queue_push_data_value
  sample_items t [] = some []
  sample_items t (mon ∷ mons) =
      sample_next
        (queue_push_data_value t.sampling (t.buffered mon.item_id) t.now t.now
          (t.sampled mon.item_id) mon)
        (sample_items t mons)

  unfoldable pub with_items :
      Moment V → Subscription V → Option (List (MonitoredItem V)) → Option (Subscription V)
  unfolding update_notifications
  with_items t sub none = none
  with_items t sub (some mons) =
      update_notifications t.sampling t.allocated t.now (record sub { items = mons })

  -- `Subscription_timedUpdateNotificationsJob`
  unfoldable pub timed_update : Moment V → Subscription V → Option (Subscription V)
  unfolding sample_items with_items
  timed_update t sub =
      if sub.subscription_id == 0 then some sub else with_items t sub (sample_items t sub.items)

  -- The first message that was not published, and the list with its mark set.
  unfoldable pub first_unpublished : List (Notification V) → Option (Notification V)
  first_unpublished [] = none
  first_unpublished (n ∷ ns) = if n.published_once then first_unpublished ns else some n

  unfoldable pub mark_published : List (Notification V) → List (Notification V)
  mark_published [] = []
  mark_published (n ∷ ns) =
      if n.published_once then n ∷ mark_published ns else record n { published_once = true } ∷ ns

  -- The response for a message; a keep-alive message has the next number, and is deleted.
  unfoldable pub publish_message : Subscription V → Notification V → Published V × Subscription V
  unfolding mark_published delete_unpublished
  publish_message sub n =
      let marked = record sub { unpublished = mark_published sub.unpublished } in
      if ltb sub.sequence_number n.sequence_number
      then (
        record { publishing_id = sub.subscription_id; message = n; available = [] },
        (delete_unpublished ((sub.sequence_number + 1) % 2 ^ 32) false marked).1,
      )
      else (
        record {
          publishing_id = sub.subscription_id;
          message = n;
          available = available_sequence_numbers marked;
        },
        marked,
      )

  unfoldable pub publish_first :
      Option (Published V)
      → Subscription V
      → Option (Notification V)
      → Option (Published V) × Subscription V
  unfolding publish_message
  publish_first response sub none = (response, sub)
  publish_first response sub (some n) = let r = publish_message sub n in (some r.0, r.1)

  -- One round of the loop of `Service_Publish`, after the update: the response is overwritten.
  unfoldable pub publish_from :
      Option (Published V) → Subscription V → Option (Published V) × Subscription V
  unfolding first_unpublished publish_first
  publish_from response sub =
      if sub.unpublished_size == 0
      then (response, sub)
      else publish_first response sub (first_unpublished sub.unpublished)

  -- The update that a subscription without a timed job gets in `Service_Publish`.
  unfoldable pub force_update : Moment V → Subscription V → Option (Subscription V)
  unfolding sample_items with_items
  force_update t sub =
      if sub.timed_update_is_registered
      then some sub
      else with_items t sub (sample_items t sub.items)

  unfoldable pub add_first :
      Subscription V
      → Option (Option (Published V) × List (Subscription V))
      → Option (Option (Published V) × List (Subscription V))
  add_first sub none = none
  add_first sub (some (last, rest)) = some (last, sub ∷ rest)

  unfoldable pub publish_round :
      (Option (Published V) → Option (Option (Published V) × List (Subscription V)))
      → Option (Published V)
      → Option (Subscription V)
      → Option (Option (Published V) × List (Subscription V))
  unfolding publish_from add_first
  publish_round go response none = none
  publish_round go response (some updated) =
      let r = publish_from response updated in add_first r.1 (go r.0)

  -- The loop of `Service_Publish` over the subscriptions; `none` is a crash.
  unfoldable pub publish_loop :
      Moment V
      → Option (Published V)
      → List (Subscription V)
      → Option (Option (Published V) × List (Subscription V))
  unfolding force_update publish_round
  publish_loop t response [] = some (response, [])
  publish_loop t response (sub ∷ subs) =
      publish_round (λ (r : Option (Published V)). publish_loop t r subs) response
        (force_update t sub)

  unfoldable pub keep_alive_response :
      Subscription V
      → List (Subscription V)
      → List (Notification V)
      → Option (Option (Published V) × List (Subscription V))
  unfolding delete_unpublished
  keep_alive_response sub subs [] = none
  keep_alive_response sub subs (n ∷ ns) = some (
    some (record { publishing_id = sub.subscription_id; message = n; available = [] }),
    (delete_unpublished ((sub.sequence_number + 1) % 2 ^ 32) false sub).1 ∷ subs,
  )

  -- The end of `Service_Publish` when there is nothing to send: the first subscription is made to
  -- generate a keep-alive message. Without a message, `none`, NULL is read.
  unfoldable pub force_keep_alive :
      Moment V → List (Subscription V) → Option (Option (Published V) × List (Subscription V))
  unfolding generate_keep_alive keep_alive_response
  force_keep_alive t [] = some (none, [])
  force_keep_alive t (sub ∷ subs) =
      let kept =
        generate_keep_alive t.allocated t.now (record sub { keep_alive = at sub.min_keep_alive }) in
      keep_alive_response kept subs kept.unpublished

  -- The acknowledgements, each a subscription and a sequence number; the statuses.
  unfoldable pub acknowledge_all :
      List (ℕ × ℕ) → List (Subscription V) → List ℕ × List (Subscription V)
  unfolding acknowledge
  acknowledge_all [] subs = ([], subs)
  acknowledge_all ((id, seq_no) ∷ acks) subs =
      let r = acknowledge id seq_no subs in
      let rest = acknowledge_all acks r.1 in (r.0 ∷ rest.0, rest.1)

  unfoldable pub publish_end :
      Moment V
      → Option (Option (Published V) × List (Subscription V))
      → Option (Option (Published V) × List (Subscription V))
  unfolding force_keep_alive
  publish_end t none = none
  publish_end t (some (none, subs)) = force_keep_alive t subs
  publish_end t (some (some response, subs)) = some (some response, subs)

  -- `Service_Publish`: the statuses of the acknowledgements, and what is sent
  unfoldable pub publish :
      Moment V
      → List (ℕ × ℕ)
      → List (Subscription V)
      → List ℕ × Option (Option (Published V) × List (Subscription V))
  unfolding acknowledge_all publish_loop publish_end
  publish t acks subs =
      let acked = acknowledge_all acks subs in
      (acked.0, publish_end t (publish_loop t none acked.1))
