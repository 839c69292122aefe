-- ===== src/Server/Login/Open.antt =====
-- What authentication may change: the store, which a token is touched in, and what is sent to the
-- connection itself.
use prm.Prelude.{
  ◌≡◌, refl, ap, ◌∙◌, String, Bool, true, false, Option, none, some, List, [], ◌∷◌, ◌++◌, All, ◌==◌,
  ◌||◌, string_eq, if◌then◌else◌, Result, ok, err, append-nil, append_assoc, sym, All-append,
  All-imp,
}
use prm.Channels.{Uuid}
use prm.Storage.{Bytes, Store, Token}
use prm.Auth.{AuthError, Challenge, Verdict, accepted, refused}
use prm.Proto.Frames.{AuthRequest, AuthResponse}
use prm.Proto.Kinds.{Frame}
use prm.Server.{Conn, World, encodes, send_frame, send_frames}
use prm.Server.Login.{
  Wire, send_auth_err, sign_in, challenged, token_checked, touch, handle_auth_request,
  proof_checked, challenge_met, handle_auth_response,
}

module _ {S : Type 0} where
  -- The connection keeps its id and has joined nothing more; of the server only the store and the
  -- frames sent may differ, and those that are new go to the connection.
  abbrev pub Open : World S → Conn → Conn × World S → Type 0
  Open w c r =
      (r.0.id ≡ c.id)
      × (r.0.joined_channels ≡ c.joined_channels)
      × (r.0.joined_roles ≡ c.joined_roles)
      × (st : S) × (answers : List (Uuid × Frame)) × All (λ a. a.0 ≡ c.id) answers
      × (r.1 ≡ record w { state = st; sent = w.sent ++ answers })

  pub Open-one :
      (w : World S) (c c' : Conn) (st : S) (f : Frame)
      → c'.id ≡ c.id
      → c'.joined_channels ≡ c.joined_channels
      → c'.joined_roles ≡ c.joined_roles
      → Open w c (c', send_frame (record w { state = st }) c' f)
  unfolding send_frame send_frames
  Open-one w c c' st f p q r = by_encoding (encodes (record w { state = st }) f)
    where
      by_encoding :
          (b : Bool)
          → Open w c (
            c',
            if b
                then record w { state = st; sent = w.sent ++ (c'.id, f) ∷ [] }
                else record w { state = st },
          )
      by_encoding true = (p, q, r, st, (c'.id, f) ∷ [], (p, tt), refl)
      by_encoding false = (
        p,
        q,
        r,
        st,
        [],
        tt,
        ap {A = List (Uuid × Frame)} {B = World S} (λ s. record w { state = st; sent = s })
            (sym (append-nil w.sent)),
      )

  pub Open-none :
      (w : World S) (c c' : Conn)
      → c'.id ≡ c.id
      → c'.joined_channels ≡ c.joined_channels
      → c'.joined_roles ≡ c.joined_roles
      → Open w c (c', w)
  Open-none w c c' p q r =
      (p, q, r, w.state, [], tt, ap (λ s. record w { sent = s }) (sym (append-nil w.sent)))

  -- An answer to a connection that stays as it is.
  pub Open-answer : (w : World S) (c : Conn) (f : Frame) → Open w c (c, send_frame w c f)
  Open-answer w c f = Open-one w c c w.state f refl refl refl

  pub Open-either :
      (b : Bool) (w : World S) (c : Conn) (x y : Conn × World S)
      → Open w c x
      → Open w c y
      → Open w c (if b then x else y)
  Open-either true w c x y p q = p
  Open-either false w c x y p q = q

  challenged-Open :
      (wire : Wire) (w : World S) (c : Conn) (id : String) (r : Result AuthError Challenge)
      → Open w c (challenged wire w c id r)
  unfolding challenged send_auth_err send_frame
  challenged-Open wire w c id (ok chal) =
      Open-one w c (record c { pending_chal = some chal }) w.state _ refl refl refl
  challenged-Open wire w c id (err e) = Open-answer w c _

  token_checked-Open :
      (store : Store S) (w : World S) (c : Conn) (id : String)
      (r : Result AuthError (Verdict × Option Token))
      → Open w c (token_checked store w c id r)
  unfolding token_checked send_auth_err sign_in
  token_checked-Open store w c id (err e) = Open-answer w c _
  token_checked-Open store w c id (ok (refused reason, tok)) = Open-answer w c _
  token_checked-Open store w c id (ok (accepted account tenant, tok)) =
      Open-one w c _ (touch store w.state tok) _ refl refl refl

  pub handle_auth_request-Open :
      (store : Store S) (wire : Wire) (nonce : Bytes) (w : World S) (c : Conn) (r : AuthRequest)
      → Open w c (handle_auth_request store wire nonce w c r)
  unfolding handle_auth_request send_auth_err
  handle_auth_request-Open store wire nonce w c r =
      Open-either (r.method == "password") w c _ _
        (Open-either (r.tenant == "" || r.username == "") w c _ _ (Open-answer w c _)
          (challenged-Open wire w c r.id _))
        (Open-either (r.method == "token") w c _ _
          (Open-either (r.token == "") w c _ _ (Open-answer w c _)
            (token_checked-Open store w c r.id _))
          (Open-answer w c _))

  proof_checked-Open :
      (w : World S) (c : Conn) (id : String) (r : Result AuthError Verdict)
      → Open w c (proof_checked w (record c { pending_chal = none }) id r)
  unfolding proof_checked send_auth_err sign_in
  proof_checked-Open w c id (err e) = Open-one w c _ w.state _ refl refl refl
  proof_checked-Open w c id (ok (refused reason)) = Open-one w c _ w.state _ refl refl refl
  proof_checked-Open w c id (ok (accepted account tenant)) = Open-one w c _ w.state _ refl refl refl

  challenge_met-Open :
      (store : Store S) (wire : Wire) (w : World S) (c : Conn) (r : AuthResponse)
      (o : Option Challenge)
      → Open w c (challenge_met store wire w c r o)
  unfolding challenge_met send_auth_err
  challenge_met-Open store wire w c r none = Open-answer w c _
  challenge_met-Open store wire w c r (some chal) = proof_checked-Open w c r.id _

  pub handle_auth_response-Open :
      (store : Store S) (wire : Wire) (w : World S) (c : Conn) (r : AuthResponse)
      → Open w c (handle_auth_response store wire w c r)
  unfolding handle_auth_response
  handle_auth_response-Open store wire w c r = challenge_met-Open store wire w c r c.pending_chal

  -- Two steps in a row.
  pub Open-trans :
      (w : World S) (c : Conn) (s r : Conn × World S) → Open w c s → Open s.1 s.0 r → Open w c r
  Open-trans w c s r (p, q, m, st, a, h, e) (p', q', m', st', a', h', e') = (
    p' ∙ p,
    q' ∙ q,
    m' ∙ m,
    st',
    a ++ a',
    All-append (λ x. x.0 ≡ c.id) a a' h (All-imp (λ x k. k ∙ p) a' h'),
    e'
        ∙ ap {A = World S} (λ v. record v { state = st'; sent = v.sent ++ a' }) e
        ∙ ap {A = List (Uuid × Frame)} {B = World S} (λ l. record w { state = st'; sent = l })
            (append_assoc w.sent a a'),
  )
