-- ===== src/Storage/Sqlite/Isolation/Tests.antt =====
-- Two tenants, of which the second has a subscription, and the first writes one.
use native.Mathlib.Omega.{arith}
use prm.Prelude.{◌≡◌, refl, [], ◌∷◌, ok}
use prm.Storage
use prm.Storage.{Tenant}
use prm.Storage.Sqlite.{
  Database, get_subscription_by_id, create_subscription, update_subscription, delete_subscription,
}
use prm.Storage.Sqlite.Rows.{first}
use prm.Storage.Sqlite.Isolation.{SameFor, writes-SameFor}
use prm.Samples.{acme, stored_row}

abbrev globex : Tenant
globex = record acme { id = 2; slug = "globex" }

abbrev kept_row : Storage.Subscription
kept_row = record stored_row { id = 41; tenant_id = 2; match_json = "{}" }

abbrev new_row : Storage.Subscription
new_row = record stored_row { id = 42; match_json = "{}" }

abbrev shared : Database
shared = record {
  now = 50;
  next_id = 100;
  tenants = acme ∷ globex ∷ [];
  subscriptions = (40, kept_row) ∷ [];
  fires = [];
  tokens = [];
  messages = [];
  pauses = [];
  moderation = [];
}

created : (create_subscription shared 1 new_row).0 ≡ ok new_row
unfolding create_subscription
created = refl

found_again : get_subscription_by_id (create_subscription shared 1 new_row).1 2 41 ≡ ok kept_row
unfolding create_subscription get_subscription_by_id first
found_again = refl

writes-SameFor_example :
    SameFor 2 shared (create_subscription shared 1 new_row).1
    × SameFor 2 shared (update_subscription shared 1 new_row).1
    × SameFor 2 shared (delete_subscription shared 1 41).1
writes-SameFor_example = writes-SameFor shared 1 2 new_row 41 (omega arith)
