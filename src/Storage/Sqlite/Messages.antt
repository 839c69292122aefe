-- ===== src/Storage/Sqlite/Messages.antt =====
-- internal/storage/sqlite/sqlite.go: the stored messages of a channel.
pub mod Newest
mod Tests
use prm.Prelude.{
  ℕ, suc, ◌-◌, ℤ, pos, negsuc, Bool, true, false, not, ◌&&◌, List, [], ◌∷◌, ◌++◌, reverse, take,
  ltb, any, length, if◌then◌else◌, ◌==◌, nat_eq, ok, err,
}
use prm.Channels.{Uuid, Time}
use prm.Storage.{Read, Write, StoredMessage, driver}
use prm.Storage.Sqlite.{Database, has_tenant, micro}
use prm.Storage.Sqlite.Rows.{keep}
use prm.Storage.Sqlite.Ordering.{descending}

-- An unset id and time are filled in, and the column keeps microseconds.
abbrev filled : Database → StoredMessage → StoredMessage
filled db m = record m {
  id = if m.id == 0 then db.next_id else m.id;
  ts = micro (if m.ts == 0 then db.now else m.ts);
}

unfoldable pub record_message : Database → StoredMessage → Write Database (Unit {0})
record_message db m =
    let row = filled db m in
    if has_tenant db m.tenant_id && not (any (λ r. r.id == row.id) db.messages)
    then (ok tt, record db { next_id = suc db.next_id; messages = db.messages ++ row ∷ [] })
    else (err driver, db)

-- `limit` between 1 and 500, 50 where it is not positive.
abbrev pub clamp : ℤ → ℕ
clamp (negsuc n) = 50
clamp (pos n) = if n == 0 then 50 else if ltb 500 n then 500 else n

abbrev older : Time → Time → Bool
older before_ts ts = if before_ts == 0 then true else ltb ts (micro before_ts)

-- The messages that a request is about.
abbrev pub asked_for : Uuid → Uuid → Time → StoredMessage → Bool
asked_for tenant_id channel_id before_ts m =
    m.tenant_id == tenant_id && (m.channel_id == channel_id && older before_ts m.ts)

unfoldable pub list_messages : Database → Uuid → Uuid → ℤ → Time → Read (List StoredMessage)
list_messages db tenant_id channel_id limit before_ts = ok (
    reverse (
      take (clamp limit)
        (descending (λ m. m.ts) (keep (asked_for tenant_id channel_id before_ts) db.messages))))

-- The messages before the cutoff, of every tenant, are counted and deleted; `now` is the clock to the
-- nanosecond.
unfoldable pub purge_messages_older_than : Database → Time → Time → Write Database ℕ
purge_messages_older_than db now retention =
    let cutoff = micro (now - retention) in
    (
      ok (length (keep (λ m. ltb m.ts cutoff) db.messages)),
      record db { messages = keep (λ m. not (ltb m.ts cutoff)) db.messages },
    )
