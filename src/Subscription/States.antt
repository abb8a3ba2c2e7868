-- ===== src/Subscription/States.antt =====
-- The states of a subscription: src/server/ua_subscription.c and the calls in
-- src/server/ua_services_subscription.c that change one.
use opc_ua.Common.{ℕ, ◌≡◌, Bool, false, Option, none, some, []}
use opc_ua.Subscription.Notifications.{Subscription, delete_unpublished}
use opc_ua.Subscription.Manager.{create_monitored_item, delete_item}
use opc_ua.Subscription.Retransmission.{mark_message}
use opc_ua.Subscription.Services.{Published, Moment, timed_update, publish_from}
use opc_ua.Subscription.Updates.{IsWell}

module _ {V : Type 0} where
  -- A new subscription: no messages and no items.
  pub data Step : Subscription V → Subscription V → Type 0 where
    create :
        (sub : Subscription V) (found allocated copied : Bool) (id client interval size : ℕ)
        (discard : Bool) (status : ℕ) (left : Subscription V)
        → create_monitored_item found allocated copied id client interval size discard sub
          ≡ some (status, left)
        → Step sub left
    remove :
        (sub : Subscription V) (id : ℕ)
        → Step sub (record sub { items = (delete_item id sub.items).1 })
    update :
        (sub left : Subscription V) (t : Moment V) → timed_update t sub ≡ some left → Step sub left
    publish :
        (sub : Subscription V) (response : Option (Published V))
        → Step sub (publish_from response sub).1
    acknowledge :
        (sub : Subscription V) (seq_no : ℕ) → Step sub (delete_unpublished seq_no false sub).1
    retransmit :
        (sub : Subscription V) (seq_no : ℕ)
        → Step sub (record sub { unpublished = mark_message seq_no sub.unpublished })

  pub data Reach : Subscription V → Type 0 where
    start :
        (sub : Subscription V)
        → sub.unpublished ≡ []
        → sub.unpublished_size ≡ 0
        → sub.items ≡ []
        → Reach sub
    next : {sub left : Subscription V} → Reach sub → Step sub left → Reach left

  -- What a call leaves, if its behaviour is defined.
  abbrev IsCreated : Option (ℕ × Subscription V) → Type 0
  IsCreated none = Unit {0}
  IsCreated (some (status, sub)) = IsWell sub
