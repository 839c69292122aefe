-- ===== src/Tenants/Fresh.antt =====
-- What the cache answers: a stored tenant that is not older than the time to live.
use prm.Prelude.{
  ◌+◌, ◌<◌, ◌≤◌, String, ◌≡◌, refl, true, false, nat_eq, string_eq, ltb, lookup-insert_self,
  lookup-delete_self, ok,
}
use native.Mathlib.Omega.{arith}
use prm.Channels.{Uuid, Time}
use prm.Storage.{Store, Tenant}
use prm.Tenants.{Service, put, fresh, from_store, cached_or, by_slug, by_id, invalidate}

-- `put t` at `now` is what `by_slug` answers for the whole time to live, and no longer.
module _ {S : Type 0} (store : Store S) (st : S) where
  -- A tenant that the cache took at `now` is answered, without a look at the store, at every time
  -- before `now` plus the time to live, under its slug and under its id.
  pub by_slug-put :
      (s : Service) (now later : Time) (t : Tenant)
      → later < now + s.ttl
      → (by_slug store st (put s now t) later t.slug ≡ (ok t, put s now t))
        × (by_id store st (put s now t) later t.id ≡ (ok t, put s now t))
  unfolding by_slug by_id put fresh cached_or
  by_slug-put s now later t l = (
    rw (lookup-insert_self t.slug (record { tenant = t; expiry = now + s.ttl }) s.by_slug, lt) refl,
    rw (lookup-insert_self t.id (record { tenant = t; expiry = now + s.ttl }) s.by_id, lt) refl,
  )
    where
      lt : ltb later (now + s.ttl) ≡ true
      lt = ground arith

  -- From that time on the answer under the slug is the store's, and a tenant that the store answers
  -- is cached again.
  pub by_slug-expired :
      (s : Service) (now later : Time) (t : Tenant)
      → now + s.ttl ≤ later
      → by_slug store st (put s now t) later t.slug
        ≡ from_store (put s now t) later (store.get_tenant_by_slug st t.slug)
  unfolding by_slug put fresh cached_or
  by_slug-expired s now later t l =
      rw (lookup-insert_self t.slug (record { tenant = t; expiry = now + s.ttl }) s.by_slug, ge)
        refl
    where
      ge : ltb later (now + s.ttl) ≡ false
      ge = ground arith

  -- After `Invalidate` the answer under the slug is the store's.
  pub by_slug-invalidate :
      (s : Service) (now : Time) (slug : String) (id : Uuid)
      → by_slug store st (invalidate s slug id) now slug
        ≡ from_store (invalidate s slug id) now (store.get_tenant_by_slug st slug)
  unfolding by_slug invalidate cached_or fresh
  by_slug-invalidate s now slug id = rw (lookup-delete_self slug s.by_slug) refl
