-- ===== src/Subscription/Loss.antt =====
-- Messages that are lost in `Service_Publish` of src/server/ua_services_subscription.c.
use opc_ua.Common.{
  ℕ, suc, ◌+◌, ◌%◌, ◌^◌, ◌≤◌, ◌<◌, ◌≡◌, refl, arith, Bool-cases, inl, inr, true, false, ltb, ◌==◌,
  if◌then◌else◌, Option, none, some, List, [], ◌∷◌,
}
use opc_ua.Subscription.Notifications.{Notification, Subscription, keep_others, delete_unpublished}
use opc_ua.Subscription.Services.{
  Published, Moment, force_update, first_unpublished, mark_published, publish_message,
  publish_first, publish_from, add_first, publish_round, publish_loop,
}

module _ {V : Type 0} where
  -- The messages that were not published yet.
  unfoldable pub waiting : List (Notification V) → ℕ
  waiting [] = 0
  waiting (n ∷ ns) = if n.published_once then waiting ns else suc (waiting ns)

  waiting-mark_published :
      (n : Notification V) (ns : List (Notification V))
      → first_unpublished ns ≡ some n
      → waiting ns ≡ suc (waiting (mark_published ns))
  unfolding waiting first_unpublished mark_published
  waiting-mark_published n [] found =
      let e : ◌≡◌ {A = Option (Notification V)} none (some n) = found in cc
  waiting-mark_published n (m ∷ ns) found = elim (Bool-cases m.published_once) [
    | inl published ↦ simp (published) (waiting-mark_published n ns (rw published at found))
    | inr fresh ↦ rw fresh refl
  ]

  waiting-keep_others :
      (seq_no : ℕ) (ns : List (Notification V)) → waiting (keep_others seq_no false ns) ≤ waiting ns
  unfolding waiting keep_others
  waiting-keep_others seq_no [] = omega arith
  waiting-keep_others seq_no (n ∷ ns) =
      let rest = waiting-keep_others seq_no ns in
      elim (Bool-cases (n.sequence_number == seq_no)) [
        | inl same ↦ rw same (ground (arith, rest))
        | inr other ↦ rw other (ground (arith, rest))
      ]

  publish_message-waiting :
      (sub : Subscription V) (n : Notification V)
      → first_unpublished sub.unpublished ≡ some n
      → waiting (publish_message sub n).1.unpublished < waiting sub.unpublished
  unfolding publish_message delete_unpublished
  publish_message-waiting sub n found =
      let one_less = waiting-mark_published n sub.unpublished found in
      elim (Bool-cases (ltb sub.sequence_number n.sequence_number)) [
        | inl alive ↦ rw alive (
            omega (
              arith,
              one_less,
              waiting-keep_others ((sub.sequence_number + 1) % 2 ^ 32)
                  (mark_published sub.unpublished),
            ))
        | inr message ↦ rw message (omega (arith, one_less))
      ]

  -- A message that the client does not have waits in the subscription.
  pub record HasMessage (sub : Subscription V) (n : Notification V) : Type 0 where
    pub counted : (sub.unpublished_size == 0) ≡ false
    pub first : first_unpublished sub.unpublished ≡ some n

  force_update-registered :
      (t : Moment V) (sub : Subscription V)
      → sub.timed_update_is_registered ≡ true
      → force_update t sub ≡ some sub
  unfolding force_update
  force_update-registered t sub registered = simp (registered) refl

  publish_from-message :
      (response : Option (Published V)) (sub : Subscription V) (n : Notification V)
      → HasMessage sub n
      → publish_from response sub ≡ (some (publish_message sub n).0, (publish_message sub n).1)
  unfolding publish_from publish_first
  publish_from-message response sub n h = rw (h.counted, h.first) refl

  publish_loop-message :
      (t : Moment V) (response : Option (Published V)) (sub : Subscription V) (n : Notification V)
      (subs : List (Subscription V))
      → sub.timed_update_is_registered ≡ true
      → HasMessage sub n
      → publish_loop t response (sub ∷ subs)
        ≡ add_first (publish_message sub n).1 (publish_loop t (some (publish_message sub n).0) subs)
  unfolding publish_loop publish_round
  publish_loop-message t response sub n subs registered h =
      rw (force_update-registered t sub registered, publish_from-message response sub n h) refl

  -- If a session has exactly two subscriptions, the timed updates of both are registered, and each has
  -- a message that waits, the response of `Service_Publish` is that of the second one alone, and the
  -- first one has fewer messages that wait than before.
  pub publish_loop-overwritten :
      (t : Moment V) (response : Option (Published V)) (a b : Subscription V) (n m : Notification V)
      → a.timed_update_is_registered ≡ true
      → b.timed_update_is_registered ≡ true
      → HasMessage a n
      → HasMessage b m
      → (publish_loop t response (a ∷ b ∷ [])
          ≡ some (
            some (publish_message b m).0,
            (publish_message a n).1 ∷ (publish_message b m).1 ∷ [],
          ))
        × (waiting (publish_message a n).1.unpublished < waiting a.unpublished)
  unfolding publish_loop add_first
  publish_loop-overwritten t response a b n m timed_a timed_b ha hb = (
    rw
        (
          publish_loop-message t response a n (b ∷ []) timed_a ha,
          publish_loop-message t (some (publish_message a n).0) b m [] timed_b hb,
        )
        refl,
    publish_message-waiting a n ha.first,
  )
