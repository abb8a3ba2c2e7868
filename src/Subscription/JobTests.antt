-- ===== src/Subscription/JobTests.antt =====
-- The services that create, modify and delete a subscription, and the theorems on their jobs.
use opc_ua.Common.{ℕ, ◌≡◌, refl, arith, true, false, Option, none, some, List, [], ◌∷◌}
use opc_ua.Status.{good}
use opc_ua.Types.{Guid, null_guid, bytes_equal, guid_equal}
use opc_ua.Worker.Jobs.{
  RepeatedJobs, add_to, add_repeated_job, server_add_repeated_job, remove_job, remove_repeated_job,
}
use opc_ua.Subscription.Notifications.{Subscription}
use opc_ua.Subscription.Manager.{get_subscription, set_subscription, delete_subscription}
use opc_ua.Subscription.Lifetime.{
  Subscriptions, Supply, new_subscription, register_update_job, add_registered, create_subscription,
  set_registered, modify_found, modify_subscription, unhook_job, remove_subscription,
}
use opc_ua.Subscription.Jobs.{Continues, subscriptions-Continues}
use opc_ua.Subscription.Leftover.{InEntries, register_update_job-leaves}

program : Unit {0}
unfolding bytes_equal guid_equal add_to add_repeated_job server_add_repeated_job remove_job
    remove_repeated_job get_subscription set_subscription delete_subscription new_subscription
    register_update_job add_registered create_subscription set_registered modify_found
    modify_subscription unhook_job remove_subscription
program = tt

abbrev guid_of : ℕ → Guid
guid_of n = record null_guid { data1 = n }

abbrev supply : ℕ → Supply
supply n = record {
  subscription_allocated = true;
  job_allocated = true;
  entry_allocated = true;
  now = 1000;
  random = guid_of n;
}

abbrev nothing : Subscriptions ℕ
nothing = record { subs = []; jobs = [] }

abbrev or_nothing : Option (ℕ × Subscriptions ℕ) → Subscriptions ℕ
or_nothing none = nothing
or_nothing (some r) = r.1

abbrev created : Subscriptions ℕ
unfolding program
created = or_nothing (create_subscription (supply 1) 4 (guid_of 9) 200 50 nothing)

abbrev modified : Subscriptions ℕ
unfolding program
modified = or_nothing (modify_subscription (supply 2) 4 300 50 created)

-- A subscription that was not modified takes its job with it.
all_gone : remove_subscription 4 created ≡ (good, nothing)
unfolding program created
all_gone = refl

one_left : remove_subscription 4 modified ≡ (
  good,
  record {
    subs = [];
    jobs =
        record {
          next_time = 2_001_000;
          interval = 2_000_000;
          jobs = record { job = 4; id = guid_of 1 } ∷ [];
        }
        ∷ [];
  },
)
unfolding program created modified
one_left = refl

-- Without memory for the job, registering it reads a NULL pointer.
no_job :
    create_subscription (record (supply 1) { job_allocated = false }) 4 (guid_of 9) 200 50 nothing
    ≡ none
unfolding program
no_job = refl

subscriptions-Continues_example :
    Continues 5_000_000 (create_subscription (supply 1) 4 (guid_of 9) 268435456 50 nothing)
    × Continues 5_000_000 (modify_subscription (supply 1) 4 268435456 50 nothing)
subscriptions-Continues_example =
    subscriptions-Continues 5_000_000 (supply 1) 4 (guid_of 9) 268435456 50 nothing
      (record { can_run = record { sorted = tt; positive = tt }; has_jobs = tt }) refl

abbrev fresh : Subscription ℕ
unfolding program
fresh = new_subscription 4 (guid_of 9) true 200 50

abbrev registered : Subscription ℕ
unfolding program
registered = record fresh { update_job_id = guid_of 1; timed_update_is_registered = true }

abbrev first_jobs : List (RepeatedJobs ℕ)
first_jobs =
    record {
      next_time = 2_001_000;
      interval = 2_000_000;
      jobs = record { job = 4; id = guid_of 1 } ∷ [];
    }
    ∷ []

abbrev both_jobs : List (RepeatedJobs ℕ)
both_jobs =
    record {
      next_time = 2_001_000;
      interval = 2_000_000;
      jobs = record { job = 4; id = guid_of 1 } ∷ [];
    }
    ∷ record {
      next_time = 3_001_000;
      interval = 3_000_000;
      jobs = record { job = 4; id = guid_of 2 } ∷ [];
    }
    ∷ []

register_update_job-leaves_example :
    InEntries
      (record { job = 4; id = guid_of 1 })
      (unhook_job
        (some (record registered { publishing_interval = 300; update_job_id = guid_of 2 }))
        both_jobs)
unfolding program fresh registered
register_update_job-leaves_example =
    register_update_job-leaves (supply 1) (supply 2) fresh registered
      (record registered { publishing_interval = 300; update_job_id = guid_of 2 }) 300 [] first_jobs
      both_jobs good good refl refl refl (omega arith) (omega arith) refl refl
