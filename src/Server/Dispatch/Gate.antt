-- ===== src/Server/Dispatch/Gate.antt =====
-- What a connection can do before it is authenticated, and how it becomes so.
use prm.Prelude.{
  ◌≡◌, ◌⊎◌, inl, inr, refl, Bool, true, false, List, [], ◌∷◌, ◌++◌, ltb, length, if◌then◌else◌,
  Bool-cases, subst, sym,
}
use native.Mathlib.Omega.{arith}
use prm.Proto.Frames.{AuthRequest, AuthResponse, Pong}
use prm.Proto.Kinds.{Frame}
use prm.Server.{Conn, World, send_error}
use prm.Server.Login.{handle_hello, handle_ping}
use prm.Server.Login.Open.{
  Open, Open-none, Open-answer, Open-trans, handle_auth_request-Open, handle_auth_response-Open,
}
use prm.Server.Login.Granting.{
  ByToken, ByProof, handle_auth_request-authed, handle_auth_response-authed,
}
use prm.Server.Dispatch.{
  Setup, Chance, dispatch, dispatch_open, dispatch_authed, read_loop, handle_pong,
}
use prm.Server.Dispatch.Identity.{read_loop-Same}

module _ {S : Type 0} (setup : Setup S) where
  dispatch-closed :
      (chance : Chance) (w : World S) (c : Conn) (f : Frame)
      → c.authed ≡ false
      → dispatch setup chance w c f ≡ dispatch_open setup chance w c f
  unfolding dispatch
  dispatch-closed chance w c f e = by_test c.authed e
    where
      by_test :
          (b : Bool)
          → b ≡ false
          → (if b then dispatch_authed setup chance w c f else dispatch_open setup chance w c f)
            ≡ dispatch_open setup chance w c f
      by_test false e = refl
      by_test true e = absurd (ground (arith, e))

  handle_pong-Open : (w : World S) (c : Conn) (p : Pong) → Open w c (handle_pong c p, w)
  unfolding handle_pong
  handle_pong-Open w c p = by_test (ltb (length c.pongs) 4)
    where
      by_test :
          (b : Bool) → Open w c ((if b then record c { pongs = c.pongs ++ p.token ∷ [] } else c), w)
      by_test true = Open-none w c (record c { pongs = c.pongs ++ p.token ∷ [] }) refl refl refl
      by_test false = Open-none w c c refl refl refl

  dispatch_open-Open :
      (chance : Chance) (w : World S) (c : Conn) (f : Frame)
      → Open w c (dispatch_open setup chance w c f)
  unfolding dispatch_open handle_hello handle_ping send_error
  dispatch_open-Open chance w c (Frame.hello v) = Open-answer w c _
  dispatch_open-Open chance w c (Frame.ping v) = Open-answer w c _
  dispatch_open-Open chance w c (Frame.pong v) = handle_pong-Open w c v
  dispatch_open-Open chance w c (Frame.auth_request v) =
      handle_auth_request-Open setup.store setup.wire chance.nonce w c v
  dispatch_open-Open chance w c (Frame.auth_response v) =
      handle_auth_response-Open setup.store setup.wire w c v
  dispatch_open-Open chance w c f = Open-answer w c _

  authed-handle_pong : (c : Conn) (p : Pong) → (handle_pong c p).authed ≡ c.authed
  unfolding handle_pong
  authed-handle_pong c p = ground arith

  -- What an account takes: a token, or the proof of the pending challenge.
  abbrev pub Granted : World S → Conn → Frame → Conn → Type 0
  Granted w c f c' =
      ((v : AuthRequest) × (f ≡ Frame.auth_request v) × ByToken setup.store setup.wire w.state v c')
      ⊎ ((v : AuthResponse) × (f ≡ Frame.auth_response v)
          × ByProof setup.store setup.wire w.state v c.pending_chal c')

  dispatch_open-Granted :
      (chance : Chance) (w : World S) (c : Conn) (f : Frame)
      → c.authed ≡ false
      → (dispatch_open setup chance w c f).0.authed ≡ true
      → Granted w c f (dispatch_open setup chance w c f).0
  unfolding dispatch_open
  dispatch_open-Granted chance w c (Frame.auth_request v) closed e =
      inl (v, refl, handle_auth_request-authed setup.store setup.wire w c closed chance.nonce v e)
  dispatch_open-Granted chance w c (Frame.auth_response v) closed e =
      inr (v, refl, handle_auth_response-authed setup.store setup.wire w c closed v e)
  dispatch_open-Granted chance w c (Frame.pong v) closed e =
      absurd (ground (arith, closed, e, authed-handle_pong c v))
  dispatch_open-Granted chance w c f closed e = absurd (ground (arith, closed, e))

  -- A connection that is not authenticated becomes so only by a request whose token belongs to the
  -- account, or by a response whose proof meets the challenge that the connection has pending; it then
  -- speaks for that account and its tenant.
  pub dispatch-Granted :
      (chance : Chance) (w : World S) (c : Conn) (f : Frame)
      → c.authed ≡ false
      → (dispatch setup chance w c f).0.authed ≡ true
      → Granted w c f (dispatch setup chance w c f).0
  dispatch-Granted chance w c f closed =
      subst (λ r. r.0.authed ≡ true → Granted w c f r.0) (sym (dispatch-closed chance w c f closed))
        (dispatch_open-Granted chance w c f closed)

  dispatch-Open :
      (chance : Chance) (w : World S) (c : Conn) (f : Frame)
      → c.authed ≡ false
      → Open w c (dispatch setup chance w c f)
  dispatch-Open chance w c f closed =
      subst (Open w c) (sym (dispatch-closed chance w c f closed)) (dispatch_open-Open chance w c f)

  -- A client whose frames never authenticate it leaves the registry, the webhook cache, the queue of
  -- durable messages and the actions of the webhooks as they were; the connection keeps its id and
  -- joins nothing, and every frame that is sent goes to that connection.
  pub read_loop-Open :
      (w : World S) (c : Conn) (frames : List (Chance × Frame))
      → (read_loop setup w c frames).0.authed ≡ false
      → Open w c (read_loop setup w c frames)
  unfolding read_loop
  read_loop-Open w c [] e = Open-none w c c refl refl refl
  read_loop-Open w c ((chance, f) ∷ rest) e =
      let step = dispatch setup chance w c f in
      elim (Bool-cases c.authed) [
        | inl authed ↦
            absurd
              (ground (arith, e, (read_loop-Same setup w c ((chance, f) ∷ rest) authed).0, authed))
        | inr closed ↦
            Open-trans w c step (read_loop setup step.1 step.0 rest)
              (dispatch-Open chance w c f closed) (read_loop-Open step.1 step.0 rest e)
      ]
