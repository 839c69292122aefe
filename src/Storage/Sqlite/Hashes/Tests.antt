-- ===== src/Storage/Sqlite/Hashes/Tests.antt =====
-- A token is created where one is stored.
use prm.Prelude.{◌≡◌, refl, [], ◌∷◌, ok}
use prm.Auth.Parameters.{bytes_beq}
use prm.Storage.Sqlite.{Database, create_token, revoke_token}
use prm.Storage.Sqlite.Hashes.{HasOwnHashes, writes-HasOwnHashes}
use prm.Samples.{acme, bearer}

abbrev one_token : Database
one_token = record {
  now = 50;
  next_id = 100;
  tenants = acme ∷ [];
  subscriptions = [];
  fires = [];
  tokens = (40, (bearer, 0)) ∷ [];
  messages = [];
  pauses = [];
  moderation = [];
}

created :
    (create_token one_token 1 7 (8 ∷ []) "second").0
    ≡ ok (record bearer { id = 100; hash = 8 ∷ []; label = "second" })
unfolding create_token bytes_beq
created = refl

writes-HasOwnHashes_example :
    HasOwnHashes (create_token one_token 1 7 (8 ∷ []) "second").1.tokens
    × HasOwnHashes (revoke_token one_token 1 30).1.tokens
writes-HasOwnHashes_example = writes-HasOwnHashes one_token 1 7 (8 ∷ []) "second" 30 (tt, tt)
