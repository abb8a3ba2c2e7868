-- ===== src/Subscription/Manager.antt =====
-- The subscriptions of a session in src/server/ua_subscription_manager.c, and the creation of items in
-- src/server/ua_services_subscription.c.
use opc_ua.Common.{
  ℕ, ◌+◌, Bool, not, ◌&&◌, ltb, ◌==◌, if◌then◌else◌, Option, none, some, List, [], ◌∷◌,
}
use opc_ua.Status.{
  good, bad_node_id_invalid, bad_subscription_id_invalid, bad_monitored_item_id_invalid,
}
use opc_ua.Subscription.Items.{MonitoredItem, change_notify}
use opc_ua.Subscription.Notifications.{Subscription}

-- `UA_BOUNDEDVALUE_SETWBOUNDS`
abbrev pub set_with_bounds : ℕ → ℕ → ℕ → ℕ
set_with_bounds least most src = if ltb most src then most else if ltb src least then least else src

module _ {V : Type 0} where
  -- `SubscriptionManager_getSubscriptionByID`
  unfoldable pub get_subscription : ℕ → List (Subscription V) → Option (Subscription V)
  get_subscription id [] = none
  get_subscription id (sub ∷ subs) =
      if sub.subscription_id == id then some sub else get_subscription id subs

  -- The write through the pointer that `SubscriptionManager_getSubscriptionByID` returns.
  unfoldable pub set_subscription :
      ℕ → Subscription V → List (Subscription V) → List (Subscription V)
  set_subscription id new [] = []
  set_subscription id new (sub ∷ subs) =
      if sub.subscription_id == id then new ∷ subs else sub ∷ set_subscription id new subs

  -- `SubscriptionManager_deleteSubscription`
  unfoldable pub delete_subscription : ℕ → List (Subscription V) → ℕ × List (Subscription V)
  delete_subscription id [] = (bad_subscription_id_invalid, [])
  delete_subscription id (sub ∷ subs) =
      if sub.subscription_id == id
      then (good, subs)
      else let rest = delete_subscription id subs in (rest.0, sub ∷ rest.1)

  -- The loop of `SubscriptionManager_deleteMonitoredItem`
  unfoldable pub delete_item : ℕ → List (MonitoredItem V) → ℕ × List (MonitoredItem V)
  delete_item id [] = (bad_monitored_item_id_invalid, [])
  delete_item id (mon ∷ mons) =
      if mon.item_id == id
      then (good, mons)
      else let rest = delete_item id mons in (rest.0, mon ∷ rest.1)

  -- `SubscriptionManager_deleteMonitoredItem`
  unfoldable pub delete_monitored_item : ℕ → ℕ → List (Subscription V) → ℕ × List (Subscription V)
  unfolding get_subscription set_subscription delete_item
  delete_monitored_item id item_id subs = elim (get_subscription id subs) [
    | none ↦ (bad_subscription_id_invalid, subs)
    | some sub ↦
        let rest = delete_item item_id sub.items in
        (rest.0, set_subscription id (record sub { items = rest.1 }) subs)
  ]

  -- `createMonitoredItems`, with the status; `found` says that the node is there, `allocated` and
  -- `copied` that the memory is, and `interval` is the sampling interval cut to a whole number.
  -- `none` is undefined behaviour: without memory `UA_MonitoredItem_new` writes through NULL, and
  -- after a failed copy `MonitoredItem_delete` unlinks an entry that no list holds.
  unfoldable pub create_monitored_item :
      Bool → Bool → Bool → ℕ → ℕ → ℕ → ℕ → Bool → Subscription V → Option (ℕ × Subscription V)
  create_monitored_item found allocated copied id client interval size discard sub =
      if not found
      then some (bad_node_id_invalid, sub)
      else if not (allocated && copied)
      then none
      else some (
        good,
        record sub {
          items =
              record {
                item_id = id;
                item_type = change_notify;
                client_handle = client;
                sampling_interval = set_with_bounds 5 1000 interval;
                max_queue_size = set_with_bounds 0 100 size + 1;
                current_queue_size = 0;
                discard_oldest = discard;
                last_sampled = 0;
                last_sampled_value = none;
                queue = [];
              }
              ∷ sub.items;
        },
      )
