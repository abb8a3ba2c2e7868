-- ===== src/Subscription/Notifications.antt =====
-- The notifications of a subscription in src/server/ua_subscription.c.
use opc_ua.Common.{
  ℕ, zero, suc, ◌+◌, ◌-◌, ◌%◌, ◌^◌, Bool, true, false, not, ◌&&◌, ltb, leb, ◌==◌, if◌then◌else◌,
  Option, none, some, List, [], ◌∷◌, ◌++◌, map, length,
}
use opc_ua.Types.{Guid}
use opc_ua.Subscription.Items.{
  ItemType, change_notify, is_change, Sampling, MonitoredItem, ItemNotification, is_empty,
  clear_queue, queue_to_notifications,
}

-- An int32_t that goes down to below 0.
pub data Counter : Type 0 where
  at : ℕ → Counter
  below_zero : ℕ → Counter

abbrev pub decrement : Counter → Counter
decrement (at zero) = below_zero 0
decrement (at (suc n)) = at n
decrement (below_zero n) = below_zero (suc n)

abbrev pub is_below : Counter → ℕ → Bool
is_below (at n) m = ltb n m
is_below (below_zero n) m = true

abbrev pub is_above : Counter → ℕ → Bool
is_above (at n) m = ltb m n
is_above (below_zero n) m = false

-- A message, with `published_once`.
pub record Notification (V : Type 0) : Type 0 where
  pub published_once : Bool
  pub sequence_number : ℕ
  pub publish_time : ℕ
  pub changes : List (ItemNotification V)

pub record Subscription (V : Type 0) : Type 0 where
  pub subscription_id : ℕ
  pub keep_alive : Counter
  pub min_keep_alive : ℕ
  pub max_keep_alive : ℕ
  pub publishing_interval : ℕ
  pub last_published : ℕ
  pub sequence_number : ℕ
  pub update_job_id : Guid
  pub has_update_job : Bool
  pub timed_update_is_registered : Bool
  pub unpublished : List (Notification V)
  pub unpublished_size : ℕ
  pub items : List (MonitoredItem V)

abbrev pub is_other : ItemType → Bool
is_other change_notify = false
is_other t = true

module _ {V : Type 0} where
  -- The messages that `Subscription_deleteUnpublishedNotification` keeps.
  unfoldable pub keep_others : ℕ → Bool → List (Notification V) → List (Notification V)
  keep_others seq_no all [] = []
  keep_others seq_no all (n ∷ ns) =
      let rest = keep_others seq_no all ns in
      if not all && not (n.sequence_number == seq_no) then n ∷ rest else rest

  -- `Subscription_deleteUnpublishedNotification`, with the number of messages deleted
  unfoldable pub delete_unpublished : ℕ → Bool → Subscription V → ℕ × Subscription V
  unfolding keep_others
  delete_unpublished seq_no all sub =
      let kept = keep_others seq_no all sub.unpublished in
      let deleted = length sub.unpublished - length kept in
      (
        deleted,
        record sub { unpublished = kept; unpublished_size = sub.unpublished_size - deleted },
      )

  -- A new message at the head of the list.
  abbrev pub insert_head : Notification V → Subscription V → Subscription V
  insert_head n sub = record sub {
    unpublished = n ∷ sub.unpublished;
    unpublished_size = sub.unpublished_size + 1;
  }

  -- `Subscription_generateKeepAlive`; `allocated` is the outcome of `UA_calloc`
  unfoldable pub generate_keep_alive : Bool → ℕ → Subscription V → Subscription V
  generate_keep_alive allocated now sub =
      if is_above sub.keep_alive sub.min_keep_alive
        && not (is_above sub.keep_alive sub.max_keep_alive)
      then sub
      else if allocated
      then record (insert_head
          (record {
            published_once = false;
            sequence_number = (sub.sequence_number + 1) % 2 ^ 32;
            publish_time = now;
            changes = [];
          })
          sub) { keep_alive = at sub.max_keep_alive }
      else sub

  -- The counts of the queued values, of those items whose type the test accepts.
  unfoldable pub count_queued : (ItemType → Bool) → List (MonitoredItem V) → ℕ
  count_queued test [] = 0
  count_queued test (mon ∷ mons) =
      if not (is_empty mon.queue) && test mon.item_type
      then mon.current_queue_size + count_queued test mons
      else count_queued test mons

  -- The queues of the items for data changes, as notifications; and the items with these queues
  -- cleared.
  unfoldable pub collect : Sampling V → List (MonitoredItem V) → List (ItemNotification V)
  unfolding queue_to_notifications
  collect sampling [] = []
  collect sampling (mon ∷ mons) =
      if is_change mon.item_type && not (is_empty mon.queue)
      then queue_to_notifications sampling mon.client_handle mon.queue ++ collect sampling mons
      else collect sampling mons

  unfoldable pub clear_collected : List (MonitoredItem V) → List (MonitoredItem V)
  clear_collected [] = []
  clear_collected (mon ∷ mons) =
      (if is_change mon.item_type && not (is_empty mon.queue) then clear_queue mon else mon)
      ∷ clear_collected mons

  -- A message for the values that are queued, put at the head of the list.
  unfoldable pub add_queued : Sampling V → ℕ → Subscription V → Subscription V
  unfolding collect clear_collected count_queued
  add_queued sampling now sub =
      let has_changes = not (count_queued is_change sub.items == 0) in
      record (insert_head
        (record {
          published_once = false;
          sequence_number = sub.sequence_number;
          publish_time = now;
          changes = if has_changes then collect sampling sub.items else [];
        })
        sub) {
          sequence_number = (sub.sequence_number + 1) % 2 ^ 32;
          items = if has_changes then clear_collected sub.items else sub.items;
        }

  -- The source does not test the memory of the message: without it the update writes through NULL,
  -- which is `none`.
  unfoldable pub publish_queued : Sampling V → Bool → ℕ → Subscription V → Option (Subscription V)
  unfolding add_queued
  publish_queued sampling allocated now sub =
      if allocated then some (add_queued sampling now sub) else none

  -- Nothing is queued: the keep-alive counter goes down.
  unfoldable pub count_keep_alive : Bool → ℕ → Subscription V → Subscription V
  unfolding generate_keep_alive
  count_keep_alive allocated now sub =
      let counted = record sub { keep_alive = decrement sub.keep_alive } in
      if is_below counted.keep_alive sub.min_keep_alive
      then generate_keep_alive allocated now counted
      else counted

  -- At ten messages all are deleted.
  unfoldable pub limit_unpublished : Subscription V → Subscription V
  unfolding delete_unpublished
  limit_unpublished sub =
      if leb 10 sub.unpublished_size then (delete_unpublished 0 true sub).1 else sub

  -- `Subscription_updateNotifications`; `none` is a crash
  unfoldable pub update_notifications :
      Sampling V → Bool → ℕ → Subscription V → Option (Subscription V)
  unfolding count_queued limit_unpublished count_keep_alive publish_queued
  update_notifications sampling allocated now sub =
      if ltb now (sub.last_published + sub.publishing_interval)
      then some sub
      else if (count_queued is_change sub.items == 0) && (count_queued is_other sub.items == 0)
      then some (count_keep_alive allocated now (limit_unpublished sub))
      else publish_queued sampling allocated now (limit_unpublished sub)

  -- `Subscription_getAvailableSequenceNumbers`
  abbrev pub available_sequence_numbers : Subscription V → List ℕ
  available_sequence_numbers sub = map (λ (n : Notification V). n.sequence_number) sub.unpublished
