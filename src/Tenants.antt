-- ===== src/Tenants.antt =====
-- internal/tenants/tenants.go: the tenant cache in front of the store. Times are arguments.
pub mod Fresh
mod Tests
use prm.Prelude.{
  ℕ, ◌+◌, String, Bool, true, false, ◌&&◌, Option, none, some, List, [], if◌then◌else◌, nat_eq,
  string_eq, ltb, Assoc, lookup, insert, delete, Result, ok, err,
}
use prm.Channels.{Uuid, Time}
use prm.Storage.{Store, Read, StoreError, Tenant}

pub record CacheEntry : Type 0 where
  pub tenant : Tenant
  pub expiry : Time

pub record Service : Type 0 where
  pub ttl : ℕ
  pub by_slug : Assoc String CacheEntry
  pub by_id : Assoc Uuid CacheEntry

abbrev pub default_ttl : ℕ
default_ttl = 60_000_000_000

unfoldable pub new : Service
new = record { ttl = default_ttl; by_slug = []; by_id = [] }

unfoldable pub with_ttl : Service → ℕ → Service
with_ttl s ttl = record s { ttl = ttl }

unfoldable pub put : Service → Time → Tenant → Service
put s now t = record s {
  by_slug = insert t.slug (record { tenant = t; expiry = now + s.ttl }) s.by_slug;
  by_id = insert t.id (record { tenant = t; expiry = now + s.ttl }) s.by_id;
}

-- An entry that has not expired.
fresh : Time → Option CacheEntry → Option Tenant
fresh now none = none
fresh now (some e) = if ltb now e.expiry then some e.tenant else none

-- What the store answers is cached.
unfoldable pub from_store : Service → Time → Read Tenant → Read Tenant × Service
from_store s now (err e) = (err e, s)
from_store s now (ok t) = (ok t, put s now t)

unfoldable pub invalidate : Service → String → Uuid → Service
invalidate s slug id = record s { by_slug = delete slug s.by_slug; by_id = delete id s.by_id }

module _ {S : Type 0} (store : Store S) where
  cached_or : Option Tenant → Service → Time → Read Tenant → Read Tenant × Service
  unfolding from_store
  cached_or (some t) s now r = (ok t, s)
  cached_or none s now r = from_store s now r

  -- `now` is the time of the check and of the entry's expiry.
  unfoldable pub by_slug : S → Service → Time → String → Read Tenant × Service
  unfolding cached_or fresh
  by_slug st s now slug =
      cached_or (fresh now (lookup slug s.by_slug)) s now (store.get_tenant_by_slug st slug)

  unfoldable pub by_id : S → Service → Time → Uuid → Read Tenant × Service
  unfolding cached_or fresh
  by_id st s now id = cached_or (fresh now (lookup id s.by_id)) s now (store.get_tenant_by_id st id)

  created : Service → Time → Read Tenant → Service
  created s now (err e) = s
  created s now (ok t) = put s now t

  -- The store gives the row its identifier.
  unfoldable pub create : S → Service → Time → Tenant → Read Tenant × (S × Service)
  unfolding created
  create st s now t = let (r, st') = store.create_tenant st t in (r, (st', created s now r))
