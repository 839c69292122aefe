-- ===== src/Subops/Isolation.antt =====
-- Whose subscriptions an account reads and changes.
use prm.Prelude.{
  String, ◌≡◌, ◌≢◌, refl, ap, subst, ◌∙◌, Bool, true, false, Option, none, some, if◌then◌else◌,
  ◌==◌, nat_eq, Result, ok, err,
}
use native.Mathlib.Omega.{arith}
use prm.Channels.{Uuid, Time}
use prm.Storage
use prm.Storage.{Store, Read, Tenant, Account}
use prm.Webhook.Manager.{Manager}
use prm.Subops.{
  OpError, not_owner, Env, UpdateInput, owned, get_by, get, update_found, update, delete_found,
  delete,
}

module _ {S : Type 0} (store : Store S) (env : Env) where
  owned_lem :
      (bot : Account) (r : Read Storage.Subscription) (sub : Storage.Subscription)
      → owned store env bot r ≡ ok sub
      → (r ≡ ok sub) × (sub.account_id ≡ bot.id)
  unfolding owned
  owned_lem bot (err e) sub h = absurd (ground (arith, h))
  owned_lem bot (ok row) sub h =
      let (same, mine) = by_test (row.account_id == bot.id) refl h in (ap ok same, mine)
    where
      by_test :
          (b : Bool)
          → (row.account_id == bot.id) ≡ b
          → Path
              (Result OpError Storage.Subscription)
              (if b then ok row else err not_owner)
              (ok sub)
          → (row ≡ sub) × (sub.account_id ≡ bot.id)
      by_test false e k = absurd (ground (arith, k))
      by_test true e k =
          let same : row ≡ sub = cc in
          (same, subst (λ x. x.account_id ≡ bot.id) same (ground (arith, e)))

  owned_ne :
      (bot : Account) (sub : Storage.Subscription)
      → sub.account_id ≢ bot.id
      → owned store env bot (ok sub) ≡ err not_owner
  unfolding owned
  owned_ne bot sub n = by_test (sub.account_id == bot.id) (ground (arith, n))
    where
      by_test :
          (b : Bool)
          → b ≡ false
          → Path
              (Result OpError Storage.Subscription)
              (if b then ok sub else err not_owner)
              (err not_owner)
      by_test false e = refl
      by_test true e = absurd (ground (arith, e))

  get_by_lem :
      (st : S) (tenant : Tenant) (bot : Account) (o : Option Uuid) (sub : Storage.Subscription)
      → get_by store env st tenant bot o ≡ ok sub
      → (id : Uuid) × (o ≡ some id)
        × (store.get_subscription_by_id st tenant.id id ≡ ok sub)
        × (sub.account_id ≡ bot.id)
  unfolding get_by
  get_by_lem st tenant bot none sub h = absurd (ground (arith, h))
  get_by_lem st tenant bot (some id) sub h =
      let (found, mine) = owned_lem bot (store.get_subscription_by_id st tenant.id id) sub h in
      (id, refl, found, mine)

  -- A subscription that `Get` returns is the stored row of the tenant under the id that the text
  -- spells, and belongs to the account that asks.
  pub get-owned :
      (st : S) (tenant : Tenant) (bot : Account) (text : String) (sub : Storage.Subscription)
      → get store env st tenant bot text ≡ ok sub
      → (id : Uuid) × (env.parse_uuid text ≡ some id)
        × (store.get_subscription_by_id st tenant.id id ≡ ok sub)
        × (sub.account_id ≡ bot.id)
  unfolding get
  get-owned st tenant bot text sub h = get_by_lem st tenant bot (env.parse_uuid text) sub h

  -- A row of another account is answered with `ErrNotOwner`, by `Get`, by `Update` whatever the
  -- patch, and by `Delete`; neither the store nor the cache changes.
  pub not_owner-all :
      (st : S) (mgr : Option Manager) (now : Time) (tenant : Tenant) (bot : Account) (text : String)
      (i : UpdateInput) (id : Uuid) (sub : Storage.Subscription)
      → env.parse_uuid text ≡ some id
      → store.get_subscription_by_id st tenant.id id ≡ ok sub
      → sub.account_id ≢ bot.id
      → (get store env st tenant bot text ≡ err not_owner)
        × (update store env now st mgr tenant bot text i ≡ (err not_owner, (st, mgr)))
        × (delete store env st mgr tenant bot text ≡ (err not_owner, (st, mgr)))
  unfolding update delete get get_by
  not_owner-all st mgr now tenant bot text i id sub e f n =
      let no = refused in
      (
        no,
        ap (update_found store env now st mgr tenant i) no,
        ap (delete_found store env st mgr tenant) no,
      )
    where
      refused : get store env st tenant bot text ≡ err not_owner
      refused =
          ap (get_by store env st tenant bot) e ∙ ap (owned store env bot) f ∙ owned_ne bot sub n
