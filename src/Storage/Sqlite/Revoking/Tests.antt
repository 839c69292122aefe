-- ===== src/Storage/Sqlite/Revoking/Tests.antt =====
-- The token of a bot is revoked.
use native.Mathlib.Omega.{arith}
use prm.Prelude.{◌≡◌, refl, [], ◌∷◌, ok, err}
use prm.Storage.{not_found}
use prm.Auth.Parameters.{bytes_beq}
use prm.Storage.Sqlite.{Database, get_token_by_hash, revoke_token}
use prm.Storage.Sqlite.Rows.{first}
use prm.Storage.Sqlite.Revoking.{get_token_by_hash-revoke_token}
use prm.Samples.{acme, bearer}

abbrev issued : Database
issued = record {
  now = 50;
  next_id = 100;
  tenants = acme ∷ [];
  subscriptions = [];
  fires = [];
  tokens = (40, (bearer, 0)) ∷ [];
  messages = [];
  pauses = [];
  moderation = [];
}

bearer_found : get_token_by_hash issued (9 ∷ []) ≡ ok bearer
unfolding get_token_by_hash first bytes_beq
bearer_found = refl

get_token_by_hash-revoke_token_example :
    ((revoke_token issued 1 30).0 ≡ ok tt)
    × (get_token_by_hash (revoke_token issued 1 30).1 (9 ∷ []) ≡ err not_found)
get_token_by_hash-revoke_token_example =
    get_token_by_hash-revoke_token issued (9 ∷ []) bearer (tt, tt) (omega arith) bearer_found
