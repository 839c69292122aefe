-- ===== src/Storage/Sqlite/Messages/Tests.antt =====
-- Three messages of a channel, of which two are asked for.
use mathlib.Core.List.{Perm, Pairwise}
use prm.Prelude.{All, ℕ, ◌≤◌, ◌≡◌, ◌⊎◌, refl, pos, List, [], ◌∷◌, ◌++◌, reverse, length, ok}
use prm.Storage.{StoredMessage}
use prm.Storage.Sqlite.{Database}
use prm.Storage.Sqlite.Rows.{keep}
use prm.Storage.Sqlite.Ordering.{sort_by}
use prm.Storage.Sqlite.Messages.{list_messages}
use prm.Storage.Sqlite.Messages.Newest.{NotOlder, IsAsked, PageSize, list_messages-newest}
use prm.Samples.{acme}

abbrev said : ℕ → StoredMessage
said ts = record {
  id = ts;
  tenant_id = 1;
  channel_id = 20;
  from_account_id = 7;
  body = "hi";
  ts = ts;
}

abbrev talk : Database
talk = record {
  now = 50000;
  next_id = 100;
  tenants = acme ∷ [];
  subscriptions = [];
  fires = [];
  tokens = [];
  messages = said 30000 ∷ said 10000 ∷ said 20000 ∷ [];
  pauses = [];
  moderation = [];
}

listed : list_messages talk 1 20 (pos 2) 0 ≡ ok (said 20000 ∷ said 30000 ∷ [])
unfolding list_messages sort_by keep
listed = refl

list_messages-newest_example :
    (page : List StoredMessage) × (rest : List StoredMessage) × (asked : List StoredMessage)
    × (others : List StoredMessage) × (size : ℕ) × (list_messages talk 1 20 (pos 2) 0
        ≡ ok (reverse page))
    × Perm (asked ++ others) talk.messages
    × All (IsAsked 1 20 0) asked
    × All (λ m. ¬ IsAsked 1 20 0 m) others
    × Perm (page ++ rest) asked
    × Pairwise NotOlder (page ++ rest)
    × PageSize (pos 2) size
    × (length page ≤ size)
    × ((rest ≡ []) ⊎ (length page ≡ size))
list_messages-newest_example = list_messages-newest talk 1 20 (pos 2) 0
