-- ===== src/Tenants/Tests.antt =====
-- The sample tenant in an empty cache.
use prm.Prelude.{[]}
use prm.Tenants.{Service}

abbrev empty : Service
empty = record { ttl = 60; by_slug = []; by_id = [] }
