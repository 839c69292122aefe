-- ===== src/Server/Dispatch/Identity.antt =====
-- An authenticated connection stays the account that it is.
use prm.Prelude.{◌≡◌, refl, ◌∙◌, Bool, true, false, List, [], ◌∷◌, ◌++◌, if◌then◌else◌, ltb, length}
use native.Mathlib.Omega.{arith}
use prm.Proto.Frames.{Pong}
use prm.Proto.Kinds.{Frame}
use prm.Server.{Conn, World}
use prm.Server.Identity.{Same, Same-self, Same-trans}
use prm.Server.Joining.Identity.{handle_join-Same, handle_part-Same}
use prm.Server.Messaging.Identity.{handle_msg-Same}
use prm.Server.Dispatch.{
  Setup, Chance, dispatch, dispatch_open, dispatch_authed, read_loop, handle_pong,
}

handle_pong-Same : (c : Conn) (p : Pong) → Same c (handle_pong c p)
unfolding handle_pong
handle_pong-Same c p = by_test (ltb (length c.pongs) 4)
  where
    by_test : (b : Bool) → Same c (if b then record c { pongs = c.pongs ++ p.token ∷ [] } else c)
    by_test true = (refl, refl, refl, refl, refl)
    by_test false = Same-self c

module _ {S : Type 0} (setup : Setup S) where
  dispatch_authed-Same :
      (chance : Chance) (w : World S) (c : Conn) (f : Frame)
      → Same c (dispatch_authed setup chance w c f).0
  unfolding dispatch_authed
  dispatch_authed-Same chance w c (Frame.join v) = handle_join-Same setup.store w c v.id v.channel
  dispatch_authed-Same chance w c (Frame.part v) = handle_part-Same w c v.id v.channel
  dispatch_authed-Same chance w c (Frame.msg v) =
      handle_msg-Same setup.store setup.messaging w c v.id v.channel chance.now v.body
  dispatch_authed-Same chance w c (Frame.pong v) = handle_pong-Same c v
  dispatch_authed-Same chance w c f = Same-self c

  pub dispatch-Same :
      (chance : Chance) (w : World S) (c : Conn) (f : Frame)
      → c.authed ≡ true
      → Same c (dispatch setup chance w c f).0
  unfolding dispatch
  dispatch-Same chance w c f e = by_test c.authed e
    where
      by_test :
          (b : Bool)
          → b ≡ true
          → Same c
              (if b then dispatch_authed setup chance w c f else dispatch_open setup chance w c f).0
      by_test true e = dispatch_authed-Same chance w c f
      by_test false e = absurd (ground (arith, e))

  -- Whatever frames an authenticated connection sends, it stays authenticated, with the same
  -- connection id, tenant, account and display name.
  pub read_loop-Same :
      (w : World S) (c : Conn) (frames : List (Chance × Frame))
      → c.authed ≡ true
      → Same c (read_loop setup w c frames).0
  unfolding read_loop
  read_loop-Same w c [] e = Same-self c
  read_loop-Same w c ((chance, f) ∷ rest) e =
      let step = dispatch setup chance w c f in
      let kept = dispatch-Same chance w c f e in
      Same-trans c step.0 (read_loop setup step.1 step.0 rest).0 kept
        (read_loop-Same step.1 step.0 rest (kept.0 ∙ e))
