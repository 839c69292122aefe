-- ===== src/Webhook/Manager/Tests.antt =====
-- A cache of one subscription, its pause, and a message on another channel.
use prm.Prelude.{◌≡◌, refl, nat_eq, inl, some, lookup, insert, ℕ}
use native.Mathlib.Omega.{arith}
use prm.Webhook.{Event}
use prm.Webhook.Manager.{Manager, new_manager, put, unindex_old, add_live}
use prm.Webhook.Manager.Index.{IsIndexed, IsIndexed-new_manager, add_live-IsIndexed}
use prm.Webhook.Manager.Notify.{Readings, notify}
use prm.Webhook.Manager.Notify.Bystanders.{IsLeftAlone, notify-IsLeftAlone}
use prm.Samples.{rows, permissive_engine, live_sub, deploy}

abbrev cached : Manager
cached = add_live new_manager live_sub

add_live-IsIndexed_example : IsIndexed cached
add_live-IsIndexed_example = add_live-IsIndexed new_manager live_sub IsIndexed-new_manager

-- The same cache, for the next test.
cached-IsIndexed : IsIndexed cached
cached-IsIndexed = add_live-IsIndexed new_manager live_sub IsIndexed-new_manager

abbrev elsewhere : Event
elsewhere = record deploy { channel_id = 21 }

abbrev clock : ℕ → Readings
clock id = record { now = 1; drained = 2; today_start = 0 }

cached_lem : lookup 40 cached.subs ≡ some live_sub
unfolding lookup insert add_live put unindex_old new_manager
cached_lem = refl

notify-IsLeftAlone_example :
    IsLeftAlone permissive_engine rows clock 40 live_sub
      (notify permissive_engine rows clock tt cached elsewhere)
notify-IsLeftAlone_example =
    notify-IsLeftAlone permissive_engine rows clock tt cached elsewhere 40 live_sub cached-IsIndexed
      cached_lem (inl (omega arith))
