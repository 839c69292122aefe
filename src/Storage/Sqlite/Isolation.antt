-- ===== src/Storage/Sqlite/Isolation.antt =====
-- No write of a tenant reaches the subscriptions of another.
mod Tests
use native.Mathlib.Omega.{arith}
use prm.Prelude.{
  ℕ, String, ◌≡◌, ◌≢◌, refl, ap, ◌∙◌, Bool, true, false, not, ◌&&◌, ◌||◌, none, some, List,
  if◌then◌else◌, ◌==◌, nat_eq, string_eq, any, Result, ok, err, is_empty,
}
use prm.Channels.{Uuid, Time}
use prm.Storage
use prm.Storage.{Read, Write, StoreError, invalid, driver}
use prm.Storage.Sqlite.{
  Database, Stamped, is_sub, found, row_of, affected, has_tenant, completed, stored_sub, insert_sub,
  written, get_subscription_by_id, create_subscription, update_subscription, delete_subscription,
}
use prm.Storage.Sqlite.Rows.{first, keep, change}
use prm.Storage.Sqlite.Rows.Laws.{first-keep, first-change, first-append}

-- What another tenant reads is as before.
abbrev pub SameFor : Uuid → Database → Database → Type 0
SameFor other db db' =
    (id : Uuid) → get_subscription_by_id db' other id ≡ get_subscription_by_id db other id

module _ (db : Database) (tenant other : Uuid) (ne : tenant ≢ other) where
  is_sub-other :
      (id id' : Uuid) (r : Stamped Storage.Subscription)
      → is_sub tenant id r ≡ true
      → is_sub other id' r ≡ false
  is_sub-other id id' r e = ground (arith, e, ne)

  get-delete :
      (id id' : Uuid)
      → get_subscription_by_id (delete_subscription db tenant id).1 other id'
        ≡ get_subscription_by_id db other id'
  unfolding get_subscription_by_id delete_subscription affected
  get-delete id id' = by_count (any (is_sub tenant id) db.subscriptions)
    where
      by_count :
          (b : Bool)
          → get_subscription_by_id
              (affected b (record db {
                subscriptions = keep (λ r. not (is_sub tenant id r)) db.subscriptions;
              })).1
              other
              id'
            ≡ get_subscription_by_id db other id'
      by_count true =
          ap (λ o. found (row_of o))
            (first-keep (is_sub tenant id) (is_sub other id') (λ r. is_sub-other id id' r)
              db.subscriptions)
      by_count false =
          ap (λ o. found (row_of o))
            (first-keep (is_sub tenant id) (is_sub other id') (λ r. is_sub-other id id' r)
              db.subscriptions)

  get-update :
      (sub : Storage.Subscription) (id' : Uuid)
      → get_subscription_by_id (update_subscription db tenant sub).1 other id'
        ≡ get_subscription_by_id db other id'
  unfolding get_subscription_by_id update_subscription affected
  get-update sub id' = by_ids (tenant == 0 || sub.id == 0)
    where
      changed : Database
      changed = record db {
        subscriptions = change (is_sub tenant sub.id) (written sub) db.subscriptions;
      }

      after : get_subscription_by_id changed other id' ≡ get_subscription_by_id db other id'
      after =
          ap (λ o. found (row_of o))
            (first-change (is_sub tenant sub.id) (is_sub other id') (written sub)
              (λ r e. (is_sub-other sub.id id' r e, is_sub-other sub.id id' r e)) db.subscriptions)

      by_count :
          (b : Bool)
          → get_subscription_by_id (affected b changed).1 other id'
            ≡ get_subscription_by_id db other id'
      by_count true = after
      by_count false = after

      by_ids :
          (b : Bool)
          → get_subscription_by_id
              (if b
                then (err invalid, db)
                else affected (any (is_sub tenant sub.id) db.subscriptions) changed).1
              other
              id'
            ≡ get_subscription_by_id db other id'
      by_ids true = refl
      by_ids false = by_count (any (is_sub tenant sub.id) db.subscriptions)

  either :
      (b : Bool) (x y : Write Database Storage.Subscription) (id' : Uuid)
      → get_subscription_by_id x.1 other id' ≡ get_subscription_by_id db other id'
      → get_subscription_by_id y.1 other id' ≡ get_subscription_by_id db other id'
      → get_subscription_by_id (if b then x else y).1 other id'
        ≡ get_subscription_by_id db other id'
  either true x y id' p q = p
  either false x y id' p q = q

  get-insert :
      (sub row : Storage.Subscription) (id' : Uuid)
      → row.tenant_id ≡ tenant
      → get_subscription_by_id (insert_sub db sub row).1 other id'
        ≡ get_subscription_by_id db other id'
  unfolding insert_sub get_subscription_by_id
  get-insert sub row id' e = either _ _ _ id' refl (
      ap (λ o. found (row_of o))
        (first-append (is_sub other id') (is_sub other id') db.subscriptions (db.now, row)
          (ground (arith, e, ne))))

  get-create :
      (sub : Storage.Subscription) (id' : Uuid)
      → get_subscription_by_id (create_subscription db tenant sub).1 other id'
        ≡ get_subscription_by_id db other id'
  unfolding create_subscription
  get-create sub id' =
      let refused : Write Database Storage.Subscription = (err invalid, db) in
      let stored = insert_sub db (completed db tenant sub) (stored_sub db tenant sub) in
      let matched = if sub.match_json == "" then refused else stored in
      let addressed = if sub.url == "" then refused else matched in
      let owned =
        if not (sub.tenant_id == 0) && not (sub.tenant_id == tenant) then refused else addressed in
      either (tenant == 0) refused owned id' refl (
        either (not (sub.tenant_id == 0) && not (sub.tenant_id == tenant)) refused addressed id'
          refl
          (either (sub.url == "") refused matched id' refl (
            either (sub.match_json == "") refused stored id' refl
              (get-insert (completed db tenant sub) (stored_sub db tenant sub) id' refl))))

-- A tenant that creates, updates or deletes a subscription, whether the call succeeds or fails, changes
-- nothing that another tenant reads by id: each of its subscriptions is found as before, and no other.
pub writes-SameFor :
    (db : Database) (tenant other : Uuid) (sub : Storage.Subscription) (id : Uuid)
    → tenant ≢ other
    → SameFor other db (create_subscription db tenant sub).1
      × SameFor other db (update_subscription db tenant sub).1
      × SameFor other db (delete_subscription db tenant id).1
writes-SameFor db tenant other sub id ne = (
  λ id'. get-create db tenant other ne sub id',
  λ id'. get-update db tenant other ne sub id',
  λ id'. get-delete db tenant other ne id id',
)
