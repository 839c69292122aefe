-- ===== src/Server/Identity.antt =====
-- Who a connection is, and that a handler leaves it so.
use prm.Prelude.{◌≡◌, refl, ◌∙◌, Bool, true, false, if◌then◌else◌}
use prm.Server.{Conn, World}

-- Who a connection is.
abbrev pub Same : Conn → Conn → Type 0
Same c c' =
    (c'.authed ≡ c.authed)
    × (c'.id ≡ c.id)
    × (c'.tenant_id ≡ c.tenant_id)
    × (c'.account_id ≡ c.account_id)
    × (c'.display_name ≡ c.display_name)

pub Same-self : (c : Conn) → Same c c
Same-self c = (refl, refl, refl, refl, refl)

pub Same-trans : (a b c : Conn) → Same a b → Same b c → Same a c
Same-trans a b c (p, q, r, s, t) (p', q', r', s', t') = (p' ∙ p, q' ∙ q, r' ∙ r, s' ∙ s, t' ∙ t)

module _ {S : Type 0} where
  pub either :
      (b : Bool) (c : Conn) (x y : Conn × World S)
      → Same c x.0
      → Same c y.0
      → Same c (if b then x else y).0
  either true c x y p q = p
  either false c x y p q = q
