-- ===== src/Subscription/Retransmission.antt =====
-- Acknowledging and retransmitting messages, in src/server/ua_services_subscription.c.
use opc_ua.Common.{ℕ, true, false, ◌==◌, if◌then◌else◌, Option, none, some, List, [], ◌∷◌}
use opc_ua.Status.{good, bad_subscription_id_invalid, bad_sequence_number_invalid}
use opc_ua.Subscription.Manager.{get_subscription, set_subscription}
use opc_ua.Subscription.Notifications.{Notification, Subscription, delete_unpublished}

module _ {V : Type 0} where
  -- The status of an acknowledgement, and the subscriptions without the message.
  unfoldable pub acknowledge_in :
      ℕ → ℕ → List (Subscription V) → Option (Subscription V) → ℕ × List (Subscription V)
  unfolding set_subscription delete_unpublished
  acknowledge_in id seq_no subs none = (bad_subscription_id_invalid, subs)
  acknowledge_in id seq_no subs (some sub) =
      let r = delete_unpublished seq_no false sub in
      (if r.0 == 0 then bad_sequence_number_invalid else good, set_subscription id r.1 subs)

  -- One acknowledgement of `Service_Publish`.
  unfoldable pub acknowledge : ℕ → ℕ → List (Subscription V) → ℕ × List (Subscription V)
  unfolding get_subscription acknowledge_in
  acknowledge id seq_no subs = acknowledge_in id seq_no subs (get_subscription id subs)

  unfoldable pub find_message : ℕ → List (Notification V) → Option (Notification V)
  find_message seq_no [] = none
  find_message seq_no (n ∷ ns) =
      if n.sequence_number == seq_no then some n else find_message seq_no ns

  unfoldable pub mark_message : ℕ → List (Notification V) → List (Notification V)
  mark_message seq_no [] = []
  mark_message seq_no (n ∷ ns) =
      if n.sequence_number == seq_no
      then record n { published_once = true } ∷ ns
      else n ∷ mark_message seq_no ns

  unfoldable pub republish_found :
      ℕ
      → ℕ
      → List (Subscription V)
      → Subscription V
      → Option (Notification V)
      → ℕ × Option (Notification V) × List (Subscription V)
  unfolding set_subscription mark_message
  republish_found id seq_no subs sub none = (bad_sequence_number_invalid, none, subs)
  republish_found id seq_no subs sub (some n) = (
    good,
    some n,
    set_subscription id (record sub { unpublished = mark_message seq_no sub.unpublished }) subs,
  )

  unfoldable pub republish_in :
      ℕ
      → ℕ
      → List (Subscription V)
      → Option (Subscription V)
      → ℕ × Option (Notification V) × List (Subscription V)
  unfolding republish_found find_message
  republish_in id seq_no subs none = (bad_subscription_id_invalid, none, subs)
  republish_in id seq_no subs (some sub) =
      republish_found id seq_no subs sub (find_message seq_no sub.unpublished)

  -- `Service_Republish`: the status, the message, and the subscriptions with its mark set
  unfoldable pub republish :
      ℕ → ℕ → List (Subscription V) → ℕ × Option (Notification V) × List (Subscription V)
  unfolding get_subscription republish_in
  republish id seq_no subs = republish_in id seq_no subs (get_subscription id subs)
