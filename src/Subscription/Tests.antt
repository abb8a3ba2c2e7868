-- ===== src/Subscription/Tests.antt =====
-- A subscription with two items, and the theorems at it. A value is a number, and its bytes are the
-- number alone.
use opc_ua.Common.{ℕ, ◌<◌, ◌≡◌, refl, true, false, none, some, List, [], ◌∷◌}
use opc_ua.Status.{bad_sequence_number_invalid}
use opc_ua.Types.{null_guid, bytes_equal}
use opc_ua.Subscription.Items.{
  change_notify, Sampling, Sample, MonitoredItem, clear_queue, make_room, push_changed, push_into,
  queue_push_data_value, queue_to_notifications,
}
use opc_ua.Subscription.Notifications.{
  at, Notification, Subscription, keep_others, delete_unpublished, generate_keep_alive,
  count_queued, collect, clear_collected, add_queued, publish_queued, count_keep_alive,
  limit_unpublished, update_notifications,
}
use opc_ua.Subscription.Manager.{get_subscription, set_subscription, create_monitored_item}
use opc_ua.Subscription.Retransmission.{
  acknowledge_in, acknowledge, find_message, mark_message, republish_found, republish_in, republish,
}
use opc_ua.Subscription.Services.{
  Moment, sample_next, sample_items, with_items, timed_update, first_unpublished, mark_published,
  publish_message, publish_first, publish_from, force_update, add_first, publish_round,
  publish_loop, keep_alive_response, force_keep_alive, acknowledge_all, publish_end, publish,
}
use opc_ua.Subscription.Acknowledgement.{Acknowledged, acknowledge-Acknowledged}
use opc_ua.Subscription.Loss.{waiting, HasMessage, publish_loop-overwritten}

program : Unit {0}
unfolding bytes_equal make_room push_changed push_into queue_push_data_value queue_to_notifications
    keep_others delete_unpublished generate_keep_alive count_queued collect clear_collected
    add_queued publish_queued count_keep_alive limit_unpublished update_notifications
    get_subscription set_subscription create_monitored_item sample_next sample_items with_items
    timed_update first_unpublished mark_published publish_message publish_first publish_from
    force_update add_first publish_round publish_loop keep_alive_response force_keep_alive
    acknowledge_all publish_end publish acknowledge_in acknowledge find_message mark_message
    republish_found republish_in republish waiting
program = tt

abbrev numbers : Sampling ℕ
numbers = record { stamp = λ n. n; typed = λ n. true }

abbrev sample : ℕ → Sample ℕ
sample n = record { value = n; encoded = some (n ∷ []) }

-- A queue of two that holds 7, the newest, and 5.
abbrev item : MonitoredItem ℕ
item = record {
  item_id = 1;
  item_type = change_notify;
  client_handle = 9;
  sampling_interval = 100;
  max_queue_size = 2;
  current_queue_size = 2;
  discard_oldest = true;
  last_sampled = 1000;
  last_sampled_value = some (7 ∷ []);
  queue = 7 ∷ 5 ∷ [];
}

abbrev empty_subscription : ℕ → Subscription ℕ
empty_subscription id = record {
  subscription_id = id;
  keep_alive = at 3;
  min_keep_alive = 0;
  max_keep_alive = 3;
  publishing_interval = 50;
  last_published = 0;
  sequence_number = 1;
  update_job_id = null_guid;
  has_update_job = true;
  timed_update_is_registered = true;
  unpublished = [];
  unpublished_size = 0;
  items = [];
}

abbrev message : ℕ → Notification ℕ
message n = record { published_once = false; sequence_number = n; publish_time = 0; changes = [] }

abbrev with_messages : ℕ → Subscription ℕ
with_messages id = record (empty_subscription id) {
  unpublished = message 2 ∷ message 1 ∷ [];
  unpublished_size = 2;
  sequence_number = 3;
}

abbrev moment : ℕ → Moment ℕ
moment now = record {
  sampling = numbers;
  sampled = λ id. some (sample id);
  buffered = λ id. true;
  allocated = true;
  now = now;
}

-- A new value takes the place of the oldest one.
pushed :
    queue_push_data_value numbers true 1100 1101 (some (sample 8)) item
    ≡ some (record item {
      queue = 8 ∷ 7 ∷ [];
      last_sampled = 1101;
      last_sampled_value = some (8 ∷ []);
    })
unfolding program
pushed = refl

-- The newest message goes out first.
newest_first :
    (publish_loop (moment 10) none (with_messages 4 ∷ []))
    ≡ some (
      some (record { publishing_id = 4; message = message 2; available = 2 ∷ 1 ∷ [] }),
      record (with_messages 4) {
        unpublished = record (message 2) { published_once = true } ∷ message 1 ∷ [];
      }
          ∷ [],
    )
unfolding program
newest_first = refl

-- With nothing to send, the message is a keep-alive with the next number, which is not kept.
kept_alive : publish (moment 10) ((4, 7) ∷ []) (empty_subscription 4 ∷ []) ≡ (
  bad_sequence_number_invalid ∷ [],
  some (
    some (record {
      publishing_id = 4;
      message = record (message 2) { publish_time = 10 };
      available = [];
    }),
    empty_subscription 4 ∷ [],
  ),
)
unfolding program
kept_alive = refl

gone : (republish 4 2 (acknowledge 4 2 (with_messages 4 ∷ [])).1).0 ≡ bad_sequence_number_invalid
unfolding program
gone = refl

-- The ten messages that wait are all deleted for the one that is new.
abbrev ten : List (Notification ℕ)
ten =
    message 10
    ∷ message 9
    ∷ message 8
    ∷ message 7
    ∷ message 6
    ∷ message 5
    ∷ message 4
    ∷ message 3
    ∷ message 2
    ∷ message 1
    ∷ []

eleventh :
    update_notifications numbers true 60 (record (empty_subscription 4) {
      unpublished = ten;
      unpublished_size = 10;
      sequence_number = 11;
      items = item ∷ [];
    })
    ≡ some (record (empty_subscription 4) {
      unpublished =
          record {
            published_once = false;
            sequence_number = 11;
            publish_time = 60;
            changes = record { handle = 9; value = 7 } ∷ record { handle = 9; value = 5 } ∷ [];
          }
          ∷ [];
      unpublished_size = 1;
      sequence_number = 12;
      items = clear_queue item ∷ [];
    })
unfolding program
eleventh = refl

acknowledge-Acknowledged_example :
    Acknowledged 4 2
      (with_messages 3 ∷ with_messages 4 ∷ [])
      (acknowledge 4 2 (with_messages 3 ∷ with_messages 4 ∷ [])).1
      (acknowledge 4 2 (with_messages 3 ∷ with_messages 4 ∷ [])).0
acknowledge-Acknowledged_example =
    acknowledge-Acknowledged 4 2 (with_messages 3 ∷ with_messages 4 ∷ [])

-- What the creation of an item leaves of a new subscription.
abbrev with_item : Subscription ℕ
with_item = record (empty_subscription 4) {
  items =
      record {
        item_id = 5;
        item_type = change_notify;
        client_handle = 9;
        sampling_interval = 200;
        max_queue_size = 1;
        current_queue_size = 0;
        discard_oldest = true;
        last_sampled = 0;
        last_sampled_value = none;
        queue = [];
      }
      ∷ [];
}

abbrev waits : (id : ℕ) → HasMessage (with_messages id) (message 2)
unfolding first_unpublished
waits id = record { counted = refl; first = refl }

publish_loop-overwritten_example :
    (publish_loop (moment 10) none (with_messages 3 ∷ with_messages 4 ∷ [])
      ≡ some (
        some (publish_message (with_messages 4) (message 2)).0,
        (publish_message (with_messages 3) (message 2)).1
            ∷ (publish_message (with_messages 4) (message 2)).1
            ∷ [],
      ))
    × (waiting (publish_message (with_messages 3) (message 2)).1.unpublished
        < waiting (with_messages 3).unpublished)
publish_loop-overwritten_example =
    publish_loop-overwritten (moment 10) none (with_messages 3) (with_messages 4) (message 2)
      (message 2) refl refl (waits 3) (waits 4)
