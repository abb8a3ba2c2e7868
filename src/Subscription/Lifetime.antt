-- ===== src/Subscription/Lifetime.antt =====
-- The creation, change and deletion of subscriptions in src/server/ua_services_subscription.c and
-- src/server/ua_subscription.c, with the repeated job of each. The job of a subscription is its id,
-- which stands for the pointer to it; a requested publishing interval is a whole number.
use opc_ua.Common.{
  ℕ, Bool, true, false, not, leb, ◌==◌, if◌then◌else◌, Option, none, some, List, [], ◌∷◌,
}
use opc_ua.Status.{good, bad_not_supported, bad_out_of_memory, bad_subscription_id_invalid}
use opc_ua.Types.{Guid, null_guid}
use opc_ua.Worker.Jobs.{RepeatedJobs, server_add_repeated_job, remove_repeated_job}
use opc_ua.Subscription.Notifications.{at, Subscription}
use opc_ua.Subscription.Manager.{
  set_with_bounds, get_subscription, set_subscription, delete_subscription,
}

-- The subscriptions of a session and the repeated jobs of the server.
pub record Subscriptions (V : Type 0) : Type 0 where
  pub subs : List (Subscription V)
  pub jobs : List (RepeatedJobs ℕ)

-- What the allocations, the clock and `UA_Guid_random` return.
pub record Supply : Type 0 where
  pub subscription_allocated : Bool
  pub job_allocated : Bool
  pub entry_allocated : Bool
  pub now : ℕ
  pub random : Guid

module _ {V : Type 0} where
  -- `UA_Subscription_new`, and what `Service_CreateSubscription` sets before the job
  unfoldable pub new_subscription : ℕ → Guid → Bool → ℕ → ℕ → Subscription V
  new_subscription id job_id has_job interval keep_alive = record {
    subscription_id = id;
    keep_alive = at (set_with_bounds 0 100 keep_alive);
    min_keep_alive = 0;
    max_keep_alive = 100;
    publishing_interval = set_with_bounds 0 10000 interval;
    last_published = 0;
    sequence_number = 1;
    update_job_id = if has_job then job_id else null_guid;
    has_update_job = has_job;
    timed_update_is_registered = false;
    unpublished = [];
    unpublished_size = 0;
    items = [];
  }

  -- `Subscription_registerUpdateJob`; `none` is the read of a job that was not allocated
  unfoldable pub register_update_job :
      Supply
      → Subscription V
      → List (RepeatedJobs ℕ)
      → Option (ℕ × Subscription V × List (RepeatedJobs ℕ))
  unfolding server_add_repeated_job
  register_update_job t sub jobs =
      let r =
        server_add_repeated_job t.entry_allocated t.now (some t.random) sub.subscription_id
          sub.publishing_interval jobs in
      if leb sub.publishing_interval 5
      then some (bad_not_supported, sub, jobs)
      else if not sub.has_update_job
      then none
      else if r.0 == good
      then some
          (good, record sub { update_job_id = t.random; timed_update_is_registered = true }, r.1)
      else some (r.0, sub, r.1)

  unfoldable pub add_registered :
      List (Subscription V)
      → Option (ℕ × Subscription V × List (RepeatedJobs ℕ))
      → Option (ℕ × Subscriptions V)
  add_registered subs none = none
  add_registered subs (some (status, sub, jobs)) =
      some (good, record { subs = sub ∷ subs; jobs = jobs })

  -- `Service_CreateSubscription`, with the service result: the outcomes of the two calls for the job are
  -- not read
  unfoldable pub create_subscription :
      Supply → ℕ → Guid → ℕ → ℕ → Subscriptions V → Option (ℕ × Subscriptions V)
  unfolding new_subscription register_update_job add_registered
  create_subscription t id job_id interval keep_alive w =
      if not t.subscription_allocated
      then some (bad_out_of_memory, w)
      else add_registered w.subs (
          register_update_job t (new_subscription id job_id t.job_allocated interval keep_alive)
            w.jobs)

  unfoldable pub set_registered :
      ℕ
      → List (Subscription V)
      → Option (ℕ × Subscription V × List (RepeatedJobs ℕ))
      → Option (ℕ × Subscriptions V)
  unfolding set_subscription
  set_registered id subs none = none
  set_registered id subs (some (status, sub, jobs)) =
      some (good, record { subs = set_subscription id sub subs; jobs = jobs })

  unfoldable pub modify_found :
      Supply → ℕ → ℕ → ℕ → Subscriptions V → Option (Subscription V) → Option (ℕ × Subscriptions V)
  unfolding register_update_job set_registered
  modify_found t id interval keep_alive w none = some (bad_subscription_id_invalid, w)
  modify_found t id interval keep_alive w (some sub) = set_registered id w.subs (
      register_update_job t
        (record sub {
          publishing_interval = set_with_bounds 0 10000 interval;
          keep_alive = at (set_with_bounds 0 100 keep_alive);
          min_keep_alive = 0;
          max_keep_alive = 100;
        })
        w.jobs)

  -- `Service_ModifySubscription`, which registers the job once more
  unfoldable pub modify_subscription :
      Supply → ℕ → ℕ → ℕ → Subscriptions V → Option (ℕ × Subscriptions V)
  unfolding get_subscription modify_found
  modify_subscription t id interval keep_alive w =
      modify_found t id interval keep_alive w (get_subscription id w.subs)

  unfoldable pub unhook_job :
      Option (Subscription V) → List (RepeatedJobs ℕ) → List (RepeatedJobs ℕ)
  unfolding remove_repeated_job
  unhook_job none jobs = jobs
  unhook_job (some sub) jobs =
      if sub.has_update_job then remove_repeated_job sub.update_job_id jobs else jobs

  -- `SubscriptionManager_deleteSubscription` with `UA_Subscription_deleteMembers`
  unfoldable pub remove_subscription : ℕ → Subscriptions V → ℕ × Subscriptions V
  unfolding get_subscription delete_subscription unhook_job
  remove_subscription id w =
      let r = delete_subscription id w.subs in
      (r.0, record { subs = r.1; jobs = unhook_job (get_subscription id w.subs) w.jobs })
