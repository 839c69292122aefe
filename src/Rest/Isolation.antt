-- ===== src/Rest/Isolation.antt =====
-- A bot cannot see or change the subscriptions of another account over HTTP.
use prm.Storage
use prm.Storage.{Store, Token}
use prm.Subops
use prm.Server.{World}
use prm.Rest.{Calls}

module _ {S : Type 0} (store : Store S) (calls : Calls) (env : Subops.Env) where
  -- The state once the caller's token is touched.
  abbrev pub touched : World S → Token → World S
  touched w tok = record w { state = (store.touch_token_last_used w.state tok.id).1 }
