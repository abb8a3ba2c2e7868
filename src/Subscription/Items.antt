-- ===== src/Subscription/Items.antt =====
-- The monitored items of src/server/ua_subscription.c. A value, a UA_DataValue, is a parameter, and
-- the bytes that a sample is compared by come with it.
use opc_ua.Common.{
  ℕ, ◌+◌, ◌-◌, ◌%◌, ◌^◌, Bool, true, false, ltb, leb, if◌then◌else◌, Option, none, some, List, [],
  ◌∷◌,
}
use opc_ua.Types.{bytes_equal}

-- The type of an item; only the first one is ever set.
pub data ItemType : Type 0 where
  change_notify : ItemType
  status_notify : ItemType
  event_notify : ItemType

-- What is done with a value: `stamp` sets the server's timestamp, and `typed` is the test that its
-- variant has a type.
pub record Sampling (V : Type 0) : Type 0 where
  pub stamp : V → V
  pub typed : V → Bool

-- A value, and the 512 bytes that `UA_encodeBinary` has written its encoding into, with what was in
-- the memory behind it; `none` after a failure.
pub record Sample (V : Type 0) : Type 0 where
  pub value : V
  pub encoded : Option (List ℕ)

-- The head of the queue is the newest value. `last_sampled_value` is `none` for NULL.
pub record MonitoredItem (V : Type 0) : Type 0 where
  pub item_id : ℕ
  pub item_type : ItemType
  pub client_handle : ℕ
  pub sampling_interval : ℕ
  pub max_queue_size : ℕ
  pub current_queue_size : ℕ
  pub discard_oldest : Bool
  pub last_sampled : ℕ
  pub last_sampled_value : Option (List ℕ)
  pub queue : List V

pub record ItemNotification (V : Type 0) : Type 0 where
  pub handle : ℕ
  pub value : V

abbrev pub is_change : ItemType → Bool
is_change change_notify = true
is_change t = false

-- The test of the queue's size. `crash` is the removal of `TAILQ_LAST` from an empty queue, through a
-- NULL pointer; `full` says that the value is given up.
pub data Room (V : Type 0) : Type 0 where
  room : MonitoredItem V → Room V
  full : Room V
  crash : Room V

abbrev pub same_bytes : Option (List ℕ) → List ℕ → Bool
unfolding bytes_equal
same_bytes none [] = true
same_bytes none bs = false
same_bytes (some cs) bs = bytes_equal cs bs

module _ {V : Type 0} where
  abbrev pub is_empty : List V → Bool
  is_empty [] = true
  is_empty (v ∷ vs) = false

  -- All but the last value, the oldest.
  abbrev pub discard_last : List V → List V
  discard_last [] = []
  discard_last (v ∷ []) = []
  discard_last (v ∷ w ∷ vs) = v ∷ discard_last (w ∷ vs)

  -- `MonitoredItem_ClearQueue`
  abbrev pub clear_queue : MonitoredItem V → MonitoredItem V
  clear_queue mon = record mon { queue = []; current_queue_size = 0 }

  -- The removal of `TAILQ_LAST`.
  abbrev pub discard_from : MonitoredItem V → List V → Room V
  discard_from mon [] = crash
  discard_from mon (v ∷ vs) = room (record mon {
    queue = discard_last (v ∷ vs);
    current_queue_size = (mon.current_queue_size + (2 ^ 32 - 1)) % 2 ^ 32;
  })

  unfoldable pub make_room : MonitoredItem V → Room V
  make_room mon =
      if leb mon.max_queue_size mon.current_queue_size
      then (if mon.discard_oldest then discard_from mon mon.queue else full)
      else room mon

  -- `TAILQ_INSERT_HEAD` and the time of the sample
  abbrev pub push_value : ℕ → V → MonitoredItem V → MonitoredItem V
  push_value now v mon = record mon {
    queue = v ∷ mon.queue;
    current_queue_size = (mon.current_queue_size + 1) % 2 ^ 32;
    last_sampled = now;
  }

  -- The comparison with the last sample, and the push.
  unfoldable pub push_changed :
      ℕ → V → Option (List ℕ) → Option (List ℕ) → MonitoredItem V → MonitoredItem V
  push_changed now v encoded none mon =
      push_value now v (record mon { last_sampled_value = encoded })
  push_changed now v encoded (some bs) mon =
      if same_bytes encoded bs
      then mon
      else push_value now v (record mon { last_sampled_value = encoded })

  -- The encoding is into a buffer whose memory the source does not test: without it, `none`.
  unfoldable pub push_into :
      Bool → ℕ → Sample V → MonitoredItem V → Room V → Option (MonitoredItem V)
  unfolding push_changed
  push_into buffered now s mon (room m) =
      if buffered then some (push_changed now s.value s.encoded m.last_sampled_value m) else none
  push_into buffered now s mon full = some mon
  push_into buffered now s mon crash = none

  -- `MonitoredItem_QueuePushDataValue`; `sampled` is the value of the attribute, if the node is there,
  -- the attribute can be sampled and memory is allocated, and `buffered` says whether memory is
  -- allocated for its encoding. The clock is read twice. `none` is a crash.
  unfoldable pub queue_push_data_value :
      Sampling V → Bool → ℕ → ℕ → Option (Sample V) → MonitoredItem V → Option (MonitoredItem V)
  unfolding make_room push_into
  queue_push_data_value sampling buffered now later none mon = some mon
  queue_push_data_value sampling buffered now later (some s) mon =
      if ltb now (mon.last_sampled + mon.sampling_interval)
      then some mon
      else if is_change mon.item_type
      then (if sampling.typed s.value
          then push_into buffered later s mon (make_room mon)
          else some mon)
      else some mon

  -- `MonitoredItem_QueueToDataChangeNotifications`
  unfoldable pub queue_to_notifications : Sampling V → ℕ → List V → List (ItemNotification V)
  queue_to_notifications sampling handle [] = []
  queue_to_notifications sampling handle (v ∷ vs) =
      let rest = queue_to_notifications sampling handle vs in
      if sampling.typed v then record { handle = handle; value = sampling.stamp v } ∷ rest else rest
