-- ===== src/Subscription/Acknowledgement.antt =====
-- The acknowledgements of `Service_Publish` and `Service_Republish`, in
-- src/server/ua_services_subscription.c.
use opc_ua.Common.{
  ℕ, ◌-◌, ◌<◌, ◌≡◌, refl, sym, ap, arith, Bool-cases, ◌⊎◌, inl, inr, true, false, ◌&&◌, ◌==◌,
  if◌then◌else◌, Option, none, some, List, [], ◌∷◌, length,
}
use opc_ua.Status.{good, bad_sequence_number_invalid}
use opc_ua.Subscription.Notifications.{Notification, Subscription, keep_others, delete_unpublished}
use opc_ua.Subscription.Manager.{get_subscription, set_subscription}
use opc_ua.Subscription.Retransmission.{
  acknowledge_in, acknowledge, find_message, republish_found, republish_in, republish,
}
use opc_ua.Subscription.Bounds.{length-keep_others}

module _ {V : Type 0} where
  find_message-keep_others-same :
      (seq_no : ℕ) (ns : List (Notification V))
      → find_message seq_no (keep_others seq_no false ns) ≡ none
  unfolding find_message keep_others
  find_message-keep_others-same seq_no [] = refl
  find_message-keep_others-same seq_no (n ∷ ns) = elim (Bool-cases (n.sequence_number == seq_no)) [
    | inl same ↦ rw same (find_message-keep_others-same seq_no ns)
    | inr other ↦ rw (other, other) (find_message-keep_others-same seq_no ns)
  ]

  find_message-keep_others :
      (seq_no m : ℕ) (ns : List (Notification V))
      → (seq_no == m) ≡ false
      → find_message m (keep_others seq_no false ns) ≡ find_message m ns
  unfolding find_message keep_others
  find_message-keep_others seq_no m [] apart = refl
  find_message-keep_others seq_no m (n ∷ ns) apart =
      let rest = find_message-keep_others seq_no m ns apart in
      elim (Bool-cases (n.sequence_number == seq_no)) [
        | inl same ↦
            let unlike : (n.sequence_number == m) ≡ false = ground (arith, same, apart) in
            rw (same, unlike) rest
        | inr other ↦ simp (other, rest) refl
      ]

  keep_others_missing :
      (seq_no : ℕ) (ns : List (Notification V))
      → find_message seq_no ns ≡ none
      → keep_others seq_no false ns ≡ ns
  unfolding find_message keep_others
  keep_others_missing seq_no [] missing = refl
  keep_others_missing seq_no (n ∷ ns) missing = elim (Bool-cases (n.sequence_number == seq_no)) [
    | inl same ↦ let e : ◌≡◌ {A = Option (Notification V)} (some n) none = rw same at missing in cc
    | inr other ↦ rw (other, keep_others_missing seq_no ns (rw other at missing)) refl
  ]

  length-keep_others-found :
      (seq_no : ℕ) (n : Notification V) (ns : List (Notification V))
      → find_message seq_no ns ≡ some n
      → length (keep_others seq_no false ns) < length ns
  unfolding find_message keep_others
  length-keep_others-found seq_no m [] found =
      let e : ◌≡◌ {A = Option (Notification V)} none (some m) = found in cc
  length-keep_others-found seq_no m (n ∷ ns) found =
      elim (Bool-cases (n.sequence_number == seq_no)) [
        | inl same ↦ rw same (omega (arith, length-keep_others seq_no false ns))
        | inr other ↦
            rw other (omega (arith, length-keep_others-found seq_no m ns (rw other at found)))
      ]

  get_subscription-set :
      (id : ℕ) (sub new : Subscription V) (subs : List (Subscription V))
      → get_subscription id subs ≡ some sub
      → new.subscription_id ≡ sub.subscription_id
      → get_subscription id (set_subscription id new subs) ≡ some new
  unfolding get_subscription set_subscription
  get_subscription-set id sub new [] found alike =
      let e : ◌≡◌ {A = Option (Subscription V)} none (some sub) = found in cc
  get_subscription-set id sub new (s ∷ subs) found alike =
      elim (Bool-cases (s.subscription_id == id)) [
        | inl same ↦
            let e : s ≡ sub = cc (rw same at found) in
            let id_same : (new.subscription_id == id) ≡ true =
              rw (alike, sym (ap (λ (x : Subscription V). x.subscription_id) e)) same in
            rw (same, id_same) refl
        | inr other ↦
            rw (other, other) (get_subscription-set id sub new subs (rw other at found) alike)
      ]

  get_subscription-set-other :
      (id i : ℕ) (sub new : Subscription V) (subs : List (Subscription V))
      → get_subscription id subs ≡ some sub
      → new.subscription_id ≡ sub.subscription_id
      → (id == i) ≡ false
      → get_subscription i (set_subscription id new subs) ≡ get_subscription i subs
  unfolding get_subscription set_subscription
  get_subscription-set-other id i sub new [] found alike apart = refl
  get_subscription-set-other id i sub new (s ∷ subs) found alike apart =
      elim (Bool-cases (s.subscription_id == id)) [
        | inl same ↦
            let e : s ≡ sub = cc (rw same at found) in
            let id_same : new.subscription_id ≡ s.subscription_id = cc in
            let unlike : (s.subscription_id == i) ≡ false = ground (arith, same, apart) in
            let new_unlike : (new.subscription_id == i) ≡ false = rw id_same unlike in
            rw (same, unlike, new_unlike) refl
        | inr other ↦
            simp
              (other, get_subscription-set-other id i sub new subs (rw other at found) alike apart)
              refl
      ]

  -- The message that `republish` answers with.
  unfoldable pub retransmitted : ℕ → ℕ → List (Subscription V) → Option (Notification V)
  unfolding republish
  retransmitted id seq_no subs = (republish id seq_no subs).1

  republish_found-message :
      (id seq_no : ℕ) (subs : List (Subscription V)) (sub : Subscription V)
      (found : Option (Notification V))
      → (republish_found id seq_no subs sub found).1 ≡ found
  unfolding republish_found
  republish_found-message id seq_no subs sub none = refl
  republish_found-message id seq_no subs sub (some n) = refl

  message_in : ℕ → Option (Subscription V) → Option (Notification V)
  message_in seq_no none = none
  message_in seq_no (some sub) = find_message seq_no sub.unpublished

  republish_in-message :
      (id seq_no : ℕ) (subs : List (Subscription V)) (at : Option (Subscription V))
      → (republish_in id seq_no subs at).1 ≡ message_in seq_no at
  unfolding republish_in message_in
  republish_in-message id seq_no subs none = refl
  republish_in-message id seq_no subs (some sub) =
      republish_found-message id seq_no subs sub (find_message seq_no sub.unpublished)

  retransmitted-get :
      (id seq_no : ℕ) (subs : List (Subscription V))
      → retransmitted id seq_no subs ≡ message_in seq_no (get_subscription id subs)
  unfolding retransmitted republish
  retransmitted-get id seq_no subs = republish_in-message id seq_no subs (get_subscription id subs)

  -- What an acknowledgement is to do.
  pub record Acknowledged (id seq_no : ℕ) (subs left : List (Subscription V)) (status : ℕ)
      : Type 0 where
    pub told : status ≡ (republish id seq_no subs).0
    pub gone : retransmitted id seq_no left ≡ none
    pub kept :
        (i m : ℕ)
        → ((id == i) && (seq_no == m)) ≡ false
        → retransmitted i m left ≡ retransmitted i m subs

  status_same :
      (id seq_no : ℕ) (subs : List (Subscription V)) (sub : Subscription V)
      (found : Option (Notification V))
      → find_message seq_no sub.unpublished ≡ found
      → (if (delete_unpublished seq_no false sub).0 == 0 then bad_sequence_number_invalid else good)
        ≡ (republish_found id seq_no subs sub found).0
  unfolding delete_unpublished republish_found
  status_same id seq_no subs sub none e = rw (keep_others_missing seq_no sub.unpublished e) (
      let e0 : (length sub.unpublished - length sub.unpublished == 0) ≡ true = ground arith in
      rw e0 refl)
  status_same id seq_no subs sub (some n) e =
      let fewer = length-keep_others-found seq_no n sub.unpublished e in
      let e0 : (length sub.unpublished - length (keep_others seq_no false sub.unpublished) == 0)
          ≡ false =
        ground arith in
      rw e0 refl

  messages_kept :
      (id seq_no i m : ℕ) (subs : List (Subscription V)) (sub : Subscription V)
      → get_subscription id subs ≡ some sub
      → ((id == i) && (seq_no == m)) ≡ false
      → ((id == i) ≡ true) ⊎ ((id == i) ≡ false)
      → message_in m
          (get_subscription i (set_subscription id (delete_unpublished seq_no false sub).1 subs))
        ≡ message_in m (get_subscription i subs)
  unfolding delete_unpublished message_in
  messages_kept id seq_no i m subs sub found apart (inr other) = ap (message_in m) (
      get_subscription-set-other id i sub (delete_unpublished seq_no false sub).1 subs found refl
        other)
  messages_kept id seq_no i m subs sub found apart (inl same) =
      let e : id ≡ i = ground (arith, same) in
      let unlike : (seq_no == m) ≡ false = rw same at apart in
      rw
        (
          sym e,
          get_subscription-set id sub (delete_unpublished seq_no false sub).1 subs found refl,
          found,
        )
        (find_message-keep_others seq_no m sub.unpublished unlike)

  acknowledge_in-Acknowledged :
      (id seq_no : ℕ) (subs : List (Subscription V)) (at : Option (Subscription V))
      → get_subscription id subs ≡ at
      → Acknowledged id seq_no subs
          (acknowledge_in id seq_no subs at).1
          (acknowledge_in id seq_no subs at).0
  unfolding republish republish_in republish_found acknowledge_in retransmitted message_in
  acknowledge_in-Acknowledged id seq_no subs none missing = record {
    told = rw missing refl;
    gone = rw (retransmitted-get id seq_no subs, missing) refl;
    kept = λ i m apart. refl;
  }
  acknowledge_in-Acknowledged id seq_no subs (some sub) found =
      let left = (delete_unpublished seq_no false sub).1 in
      let after = get_subscription-set id sub left subs found refl in
      record {
        told = rw found (status_same id seq_no subs sub (find_message seq_no sub.unpublished) refl);
        gone =
            rw (retransmitted-get id seq_no (set_subscription id left subs), after)
              (find_message-keep_others-same seq_no sub.unpublished);
        kept = λ i m apart.
            rw (retransmitted-get i m (set_subscription id left subs), retransmitted-get i m subs)
              (messages_kept id seq_no i m subs sub found apart (Bool-cases (id == i)));
      }

  -- An acknowledgement has the status that a request for the same message would have had. Afterwards
  -- that message is not retransmitted, and every other message, of this subscription or of another
  -- one, is retransmitted as before.
  pub acknowledge-Acknowledged :
      (id seq_no : ℕ) (subs : List (Subscription V))
      → Acknowledged id seq_no subs (acknowledge id seq_no subs).1 (acknowledge id seq_no subs).0
  unfolding acknowledge
  acknowledge-Acknowledged id seq_no subs =
      acknowledge_in-Acknowledged id seq_no subs (get_subscription id subs) refl
