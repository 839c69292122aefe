-- ===== src/Storage/Sqlite/Revoking.antt =====
-- A token that is revoked no longer admits anyone.
mod Tests
use native.Mathlib.Omega.{arith}
use prm.Prelude.{
  ℕ, zero, suc, ◌≡◌, ◌≢◌, refl, sym, ap, subst, ◌∙◌, Bool, true, false, not, ◌&&◌, ◌||◌, Option,
  none, some, List, [], ◌∷◌, ◌++◌, any, is_empty, if◌then◌else◌, ◌==◌, nat_eq, Result, ok, err,
  ok_inj, All, All-append, All-imp,
}
use prm.Channels.{Uuid, Time}
use prm.Storage.{Bytes, Token, Write, StoreError, not_found, invalid, driver, already_exists}
use prm.Auth.Parameters.{bytes_beq}
use prm.Auth.Sound.{bytes_beq_lem}
use mathlib.Core.Option.{some-injective}
use prm.Storage.Sqlite.{
  Database, Stamped, answers, is_live, token_of, found, affected, get_token_by_hash, revoke_token,
}
use prm.Storage.Sqlite.Hashes.{TokenRow, HasOwnHashes, revoked}
use prm.Storage.Sqlite.Rows.{first, change}

module _ (hash : Bytes) (now : Time) (set_ : now ≢ 0) (p : TokenRow → Bool) where
  answers-revoked : (r : TokenRow) → answers hash (revoked now r) ≡ false
  answers-revoked r = ground (arith, set_)

  answers-change :
      (r : TokenRow)
      → answers hash r ≡ false
      → answers hash (if p r then revoked now r else r) ≡ false
  answers-change r e = by_test (p r)
    where
      by_test : (b : Bool) → answers hash (if b then revoked now r else r) ≡ false
      by_test true = answers-revoked r
      by_test false = e

  first-skip :
      (r : TokenRow) (rows : List TokenRow)
      → answers hash r ≡ false
      → first (answers hash) (change p (revoked now) rows) ≡ none
      → first (answers hash) (change p (revoked now) (r ∷ rows)) ≡ none
  unfolding first change
  first-skip r rows e h =
      by_test (answers hash (if p r then revoked now r else r)) (answers-change r e)
    where
      by_test :
          (b : Bool)
          → b ≡ false
          → (if b
              then some (if p r then revoked now r else r)
              else first (answers hash) (change p (revoked now) rows))
            ≡ none
      by_test true k = absurd (ground (arith, k))
      by_test false k = h

  first-none :
      (rows : List TokenRow)
      → All (λ s. answers hash s ≡ false) rows
      → first (answers hash) (change p (revoked now) rows) ≡ none
  unfolding first change
  first-none [] h = refl
  first-none (r ∷ rows) (e, h) = first-skip r rows e (first-none rows h)

  first-revoked :
      (r : TokenRow) (rows : List TokenRow)
      → p r ≡ true
      → All (λ s. answers hash s ≡ false) rows
      → first (answers hash) (change p (revoked now) (r ∷ rows)) ≡ none
  unfolding first change
  first-revoked r rows e h = by_test (p r) e
    where
      by_test :
          (b : Bool)
          → b ≡ true
          → (if answers hash (if b then revoked now r else r)
              then some (if b then revoked now r else r)
              else first (answers hash) (change p (revoked now) rows))
            ≡ none
      by_test true k = rw (answers-revoked r) (first-none rows h)
      by_test false k = absurd (ground (arith, k))

-- Where one row has a hash, the others have another.
answers-other :
    (hash : Bytes) (r s : TokenRow)
    → answers hash r ≡ true
    → r.1.0.hash ≢ s.1.0.hash
    → answers hash s ≡ false
answers-other hash r s e ne = by_hash (bytes_beq s.1.0.hash hash) refl
  where
    own : r.1.0.hash ≡ hash
    own = bytes_beq_lem r.1.0.hash hash (ground (arith, e))

    by_hash : (b : Bool) → bytes_beq s.1.0.hash hash ≡ b → (b && s.1.1 == 0) ≡ false
    by_hash true k = absurd (ne (own ∙ sym (bytes_beq_lem s.1.0.hash hash k)))
    by_hash false k = refl

module _ (hash : Bytes) (now : Time) (set_ : now ≢ 0) (r : TokenRow) where
  is_live-found : answers hash r ≡ true → is_live r.1.0.tenant_id r.1.0.id r ≡ true
  is_live-found e = ground (arith, e)

  gone :
      (rows : List TokenRow)
      → HasOwnHashes rows
      → first (answers hash) rows ≡ some r
      → first (answers hash) (change (is_live r.1.0.tenant_id r.1.0.id) (revoked now) rows) ≡ none
  unfolding first
  gone [] own e = absurd (ground (arith, e))
  gone (x ∷ rows) (apart, own) e = by_test (answers hash x) refl e (λ h. gone rows own h)
    where
      p : TokenRow → Bool
      p = is_live r.1.0.tenant_id r.1.0.id

      by_test :
          (b : Bool)
          → answers hash x ≡ b
          → (if b then some x else first (answers hash) rows) ≡ some r
          → (first (answers hash) rows ≡ some r
              → first (answers hash) (change p (revoked now) rows) ≡ none)
          → first (answers hash) (change p (revoked now) (x ∷ rows)) ≡ none
      by_test true a h rec =
          let same : x ≡ r = some-injective x r h in
          first-revoked hash now set_ p x rows
            (subst (λ y. p y ≡ true) (sym same)
              (is_live-found (subst (λ y. answers hash y ≡ true) same a)))
            (All-imp (λ s ne. answers-other hash x s a ne) rows apart)
      by_test false a h rec = first-skip hash now set_ p x rows a (rec h)

module _ (q : TokenRow → Bool) (r : TokenRow) where
  first-holds : (rows : List TokenRow) → first q rows ≡ some r → q r ≡ true
  unfolding first
  first-holds [] e = absurd (ground (arith, e))
  first-holds (x ∷ rows) e = by_test (q x) refl e (λ h. first-holds rows h)
    where
      by_test :
          (b : Bool)
          → q x ≡ b
          → (if b then some x else first q rows) ≡ some r
          → (first q rows ≡ some r → q r ≡ true)
          → q r ≡ true
      by_test true a h rec = subst (λ y. q y ≡ true) (some-injective x r h) a
      by_test false a h rec = rec h

  first-any :
      (p : TokenRow → Bool) (rows : List TokenRow)
      → p r ≡ true
      → first q rows ≡ some r
      → any p rows ≡ true
  unfolding first
  first-any p [] live e = absurd (ground (arith, e))
  first-any p (x ∷ rows) live e = by_test (q x) e (λ h. first-any p rows live h)
    where
      by_test :
          (b : Bool)
          → (if b then some x else first q rows) ≡ some r
          → (first q rows ≡ some r → any p rows ≡ true)
          → (p x || any p rows) ≡ true
      by_test true h rec =
          let holds : p x ≡ true = subst (λ y. p y ≡ true) (sym (some-injective x r h)) live in
          ground (arith, holds)
      by_test false h rec = ground (arith, rec h)

-- A row that is found.
row_found :
    (o : Option TokenRow) (tok : Token)
    → found (token_of o) ≡ ok tok
    → (r : TokenRow) × (o ≡ some r) × (r.1.0 ≡ tok)
unfolding found token_of
row_found none tok e = absurd (ground (arith, e))
row_found (some (at, (t, revoked_at))) tok e = ((at, (t, revoked_at)), refl, ok_inj e)

-- The call succeeds and the hash is not found.
abbrev Revokes : Database → Bytes → Token → Type 0
Revokes db hash tok =
    ((revoke_token db tok.tenant_id tok.id).0 ≡ ok tt)
    × (get_token_by_hash (revoke_token db tok.tenant_id tok.id).1 hash ≡ err not_found)

revoke_row :
    (db : Database) (hash : Bytes) (r : TokenRow)
    → any (is_live r.1.0.tenant_id r.1.0.id) db.tokens ≡ true
    → first (answers hash) (change (is_live r.1.0.tenant_id r.1.0.id) (revoked db.now) db.tokens)
      ≡ none
    → Revokes db hash r.1.0
unfolding get_token_by_hash revoke_token affected found token_of
revoke_row db hash r counted none_left =
    by_count (any (is_live r.1.0.tenant_id r.1.0.id) db.tokens) counted
  where
    after : Database
    after = record db {
      tokens = change (is_live r.1.0.tenant_id r.1.0.id) (revoked db.now) db.tokens;
    }

    by_count :
        (b : Bool)
        → b ≡ true
        → ((affected b after).0 ≡ ok tt)
          × (found (token_of (first (answers hash) (affected b after).1.tokens)) ≡ err not_found)
    by_count true k = (refl, ap (λ o. found (token_of o)) none_left)
    by_count false k = absurd (ground (arith, k))

-- A token that is found by its hash is revoked by its tenant and its id, and is not found by its hash
-- from then on, where no two tokens have one hash and the clock is not at its zero.
pub get_token_by_hash-revoke_token :
    (db : Database) (hash : Bytes) (tok : Token)
    → HasOwnHashes db.tokens
    → db.now ≢ 0
    → get_token_by_hash db hash ≡ ok tok
    → ((revoke_token db tok.tenant_id tok.id).0 ≡ ok tt)
      × (get_token_by_hash (revoke_token db tok.tenant_id tok.id).1 hash ≡ err not_found)
unfolding get_token_by_hash
get_token_by_hash-revoke_token db hash tok own set_ e =
    let (r, at, same) = row_found (first (answers hash) db.tokens) tok e in
    let live = is_live-found hash db.now set_ r (first-holds (answers hash) r db.tokens at) in
    let counted = first-any (answers hash) r (is_live r.1.0.tenant_id r.1.0.id) db.tokens live at in
    subst (Revokes db hash) same
      (revoke_row db hash r counted (gone hash db.now set_ r db.tokens own at))
