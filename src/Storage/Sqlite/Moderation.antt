-- ===== src/Storage/Sqlite/Moderation.antt =====
-- internal/storage/sqlite/sqlite.go: the log of what the operators of a channel did.
use prm.Prelude.{
  suc, ℤ, not, ◌&&◌, ◌||◌, List, [], ◌∷◌, ◌++◌, map, take, if◌then◌else◌, ◌==◌, nat_eq, string_eq,
  ok, err,
}
use prm.Channels.{Uuid}
use prm.Storage.{Read, Write, ModerationEvent, invalid, driver}
use prm.Storage.Sqlite.{Database, has_tenant}
use prm.Storage.Sqlite.Messages.{clamp}
use prm.Storage.Sqlite.Rows.{keep}
use prm.Storage.Sqlite.Ordering.{descending}

unfoldable pub record_moderation_event : Database → ModerationEvent → Write Database (Unit {0})
record_moderation_event db ev =
    if ev.tenant_id == 0 || (ev.channel_id == 0 || (ev.actor_id == 0 || ev.action == ""))
    then (err invalid, db)
    else if not (has_tenant db ev.tenant_id)
    then (err driver, db)
    else (
      ok tt,
      record db { next_id = suc db.next_id; moderation = db.moderation ++ (db.now, ev) ∷ [] },
    )

-- The newest first.
unfoldable pub list_moderation_events : Database → Uuid → Uuid → ℤ → Read (List ModerationEvent)
list_moderation_events db tenant_id channel_id limit = ok (
    map (λ r. r.1)
      (take (clamp limit) (
        descending (λ r. r.0)
          (keep (λ r. r.1.tenant_id == tenant_id && r.1.channel_id == channel_id) db.moderation))))
