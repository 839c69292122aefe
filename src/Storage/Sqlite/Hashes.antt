-- ===== src/Storage/Sqlite/Hashes.antt =====
-- The hashes of the tokens, which the schema keeps apart.
mod Tests
use native.Mathlib.Omega.{arith}
use prm.Prelude.{
  suc, ◌≡◌, ◌≢◌, refl, sym, ap, subst, ◌∙◌, String, Bool, true, false, not, ◌&&◌, ◌||◌, List, [],
  ◌∷◌, ◌++◌, any, is_empty, if◌then◌else◌, ◌==◌, nat_eq, ok, err, All, All-append,
}
use prm.Channels.{Uuid, Time}
use prm.Storage.{Bytes, Token, Write, invalid, driver, already_exists}
use prm.Auth.Parameters.{bytes_beq}
use prm.Webhook.Payload.Signing.{bytes_beq_self}
use prm.Storage.Sqlite.{
  Database, Stamped, has_tenant, is_live, affected, create_token, revoke_token,
}
use prm.Storage.Sqlite.Rows.{change}

abbrev pub TokenRow : Type 0
TokenRow = Stamped (Token × Time)

-- No two rows have one hash.
abbrev pub HasOwnHashes : List TokenRow → Type 0
HasOwnHashes [] = Unit
HasOwnHashes (r ∷ rows) = All (λ s. r.1.0.hash ≢ s.1.0.hash) rows × HasOwnHashes rows

-- A row at the time that it is revoked.
abbrev pub revoked : Time → TokenRow → TokenRow
revoked now r = (r.0, (r.1.0, now))

hash_apart : (x y : Bytes) → bytes_beq x y ≡ false → x ≢ y
hash_apart x y e same =
    let own = subst (λ z. bytes_beq x z ≡ true) same (bytes_beq_self x) in
    absurd (ground (arith, e, own))

HasOwnHashes-append :
    (clash : TokenRow → Bool) (rows : List TokenRow) (new : TokenRow)
    → any (λ r. clash r || bytes_beq r.1.0.hash new.1.0.hash) rows ≡ false
    → HasOwnHashes rows
    → HasOwnHashes (rows ++ new ∷ [])
HasOwnHashes-append clash [] new e h = (tt, tt)
HasOwnHashes-append clash (r ∷ rows) new e (apart, own) =
    let differs : bytes_beq r.1.0.hash new.1.0.hash ≡ false = ground (arith, e) in
    let others : any (λ s. clash s || bytes_beq s.1.0.hash new.1.0.hash) rows ≡ false =
      ground (arith, e) in
    (
      All-append (λ s. r.1.0.hash ≢ s.1.0.hash) rows (new ∷ []) apart
          (hash_apart r.1.0.hash new.1.0.hash differs, tt),
      HasOwnHashes-append clash rows new others own,
    )

module _ (p : TokenRow → Bool) (now : Time) where
  All-change :
      (hash : Bytes) (rows : List TokenRow)
      → All (λ s. hash ≢ s.1.0.hash) rows
      → All (λ s. hash ≢ s.1.0.hash) (change p (revoked now) rows)
  unfolding change
  All-change hash [] h = tt
  All-change hash (r ∷ rows) (e, h) = (by_test (p r), All-change hash rows h)
    where
      by_test : (b : Bool) → hash ≢ (if b then revoked now r else r).1.0.hash
      by_test true = e
      by_test false = e

  HasOwnHashes-change :
      (rows : List TokenRow) → HasOwnHashes rows → HasOwnHashes (change p (revoked now) rows)
  unfolding change
  HasOwnHashes-change [] h = tt
  HasOwnHashes-change (r ∷ rows) (apart, own) = (by_test (p r), HasOwnHashes-change rows own)
    where
      by_test :
          (b : Bool)
          → All
              (λ s. (if b then revoked now r else r).1.0.hash ≢ s.1.0.hash)
              (change p (revoked now) rows)
      by_test true = All-change r.1.0.hash rows apart
      by_test false = All-change r.1.0.hash rows apart

-- The tokens after a call, whichever branch it takes.
own_if :
    (b : Bool) (x y : Write Database Token)
    → HasOwnHashes x.1.tokens
    → (b ≡ false → HasOwnHashes y.1.tokens)
    → HasOwnHashes (if b then x else y).1.tokens
own_if true x y h k = h
own_if false x y h k = k refl

module _ (db : Database) (own : HasOwnHashes db.tokens) where
  create_token-HasOwnHashes :
      (tenant_id account_id : Uuid) (hash : Bytes) (label : String)
      → HasOwnHashes (create_token db tenant_id account_id hash label).1.tokens
  unfolding create_token
  create_token-HasOwnHashes tenant_id account_id hash label =
      let tok : Token = record {
        id = db.next_id;
        tenant_id = tenant_id;
        account_id = account_id;
        hash = hash;
        label = label;
      } in
      let refused : Write Database Token = (err invalid, db) in
      let stored : Write Database Token = (
        ok tok,
        record db { next_id = suc db.next_id; tokens = db.tokens ++ (db.now, (tok, 0)) ∷ [] },
      ) in
      let homed : Write Database Token =
        if not (has_tenant db tenant_id) then (err driver, db) else stored in
      let clash = any (λ r. r.1.0.id == tok.id || bytes_beq r.1.0.hash hash) db.tokens in
      let fresh : Write Database Token = if clash then (err already_exists, db) else homed in
      let hashed : Write Database Token = if is_empty hash then refused else fresh in
      own_if (tenant_id == 0 || account_id == 0) refused hashed own (λ _.
        own_if (is_empty hash) refused fresh own (λ _.
          own_if clash (err already_exists, db) homed own
            (λ e.
              own_if (not (has_tenant db tenant_id)) (err driver, db) stored own
                (λ _.
                  HasOwnHashes-append (λ r. r.1.0.id == tok.id) db.tokens (db.now, (tok, 0)) e
                    own))))

  revoke_token-HasOwnHashes :
      (tenant_id id : Uuid) → HasOwnHashes (revoke_token db tenant_id id).1.tokens
  unfolding revoke_token affected
  revoke_token-HasOwnHashes tenant_id id = by_count (any (is_live tenant_id id) db.tokens)
    where
      after : Database
      after = record db { tokens = change (is_live tenant_id id) (revoked db.now) db.tokens }

      kept : HasOwnHashes after.tokens
      kept = HasOwnHashes-change (is_live tenant_id id) db.now db.tokens own

      by_count : (b : Bool) → HasOwnHashes (affected b after).1.tokens
      by_count true = kept
      by_count false = kept

-- Creating and revoking a token, whether the call succeeds or fails, keep the hashes of the tokens
-- different from each other.
pub writes-HasOwnHashes :
    (db : Database) (tenant_id account_id : Uuid) (hash : Bytes) (label : String) (id : Uuid)
    → HasOwnHashes db.tokens
    → HasOwnHashes (create_token db tenant_id account_id hash label).1.tokens
      × HasOwnHashes (revoke_token db tenant_id id).1.tokens
writes-HasOwnHashes db tenant_id account_id hash label id own = (
  create_token-HasOwnHashes db own tenant_id account_id hash label,
  revoke_token-HasOwnHashes db own tenant_id id,
)
