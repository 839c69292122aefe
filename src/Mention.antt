-- ===== src/Mention.antt =====
-- internal/mention/mention.go: the accounts that a message mentions. `reader` is what the package calls:
-- `strings.Contains` for an '@', the tokens that the pattern captures, and `uuid.Parse`.
pub mod Distinct
use prm.Prelude.{
  String, Bool, true, false, Option, none, some, List, [], ◌∷◌, ◌++◌, if◌then◌else◌, ◌==◌, nat_eq,
  any, Result, ok, err,
}
use prm.Channels.{Uuid}
use prm.Storage.{Store, Read, Account}

pub record Reader : Type 0 where
  pub has_at : String → Bool
  pub tokens : String → List String
  pub parse_uuid : String → Option Uuid

-- A mention that is known already is not added again.
add_id : List Uuid → Option Uuid → List Uuid
add_id out none = out
add_id out (some id) = if any (λ x. x == id) out then out else out ++ id ∷ []

account_id_of : Read Account → Option Uuid
account_id_of (err e) = none
account_id_of (ok acc) = some acc.id

module _ {S : Type 0} (store : Store S) (st : S) (reader : Reader) (tenant_id : Uuid) where
  -- The UUID form is taken as it is; a username that is not found is skipped.
  token_id : Option Uuid → String → Option Uuid
  unfolding account_id_of
  token_id (some id) token = some id
  token_id none token = account_id_of (store.get_account_by_username st tenant_id token)

  resolve_tokens : List Uuid → List String → List Uuid
  unfolding add_id token_id
  resolve_tokens out [] = out
  resolve_tokens out (token ∷ tokens) =
      resolve_tokens (add_id out (token_id (reader.parse_uuid token) token)) tokens

  unfoldable pub resolve : String → List Uuid
  unfolding resolve_tokens
  resolve body = if reader.has_at body then resolve_tokens [] (reader.tokens body) else []
