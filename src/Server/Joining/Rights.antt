-- ===== src/Server/Joining/Rights.antt =====
-- Who may not get into a channel.
use prm.Prelude.{
  String, ◌≡◌, refl, ◌⊎◌, inl, inr, Bool, true, false, ◌||◌, [], ◌∷◌, ◌++◌, if◌then◌else◌, ◌==◌,
  string_eq, eq_iff, ok, err,
}
use native.Mathlib.Omega.{arith}
use prm.Channels.{Uuid}
use prm.Storage
use prm.Storage.{
  Store, Read, ChannelAclEntry, can_join, channel_public, channel_private, role_owner, role_admin,
  role_member, role_channel_op,
}
use prm.Proto.Kinds.{Frame}
use prm.Server.{Conn, World, encodes, send_frames, send_frame, send_error, may_join, acl_verdict}
use prm.Server.Joining.{join_allowed, join_found, handle_join}

-- A role with the right to join.
abbrev pub Joins : String → Type 0
Joins role =
    (role ≡ role_owner) ⊎ (role ≡ role_admin) ⊎ (role ≡ role_member) ⊎ (role ≡ role_channel_op)

abbrev granted : Bool × String → Bool
granted p = p.0

module _ {S : Type 0} where
  -- The connection is as it was, and of the server nothing but what is sent, which is at most one
  -- error frame to the connection.
  abbrev pub TurnedAway : World S → Conn → Conn × World S → Type 0
  TurnedAway w c r =
      (r.0 ≡ c)
      × ((r.1 ≡ w)
          ⊎ ((id : String) × (reason : String) × (r.1 ≡ record w {
            sent = w.sent ++ (c.id, Frame.error (record { id = id; reason = reason })) ∷ [];
          })))

  error-TurnedAway :
      (w : World S) (c : Conn) (reason id : String) → TurnedAway w c (c, send_error w c reason id)
  unfolding send_error send_frame send_frames
  error-TurnedAway w c reason id =
      by_encoding (encodes w (Frame.error (record { id = id; reason = reason })))
    where
      by_encoding :
          (b : Bool)
          → TurnedAway w c (
            c,
            if b
                then record w {
                  sent = w.sent ++ (c.id, Frame.error (record { id = id; reason = reason })) ∷ [];
                }
                else w,
          )
      by_encoding true = (refl, inr (id, reason, refl))
      by_encoding false = (refl, inl refl)

  module _ (store : Store S) where
    -- The channel is public, or it is private and the account has an entry with such a role.
    abbrev pub Admits : S → Uuid → Uuid → Storage.Channel → Type 0
    Admits st tenant_id account_id channel =
        (channel.visibility ≡ channel_public)
        ⊎ ((channel.visibility ≡ channel_private)
            × (entry : ChannelAclEntry) × (store.get_channel_acl st tenant_id channel.id account_id
                ≡ ok entry)
            × Joins entry.role)

    can_join_lem : (role : String) → can_join role ≡ true → Joins role
    unfolding can_join
    can_join_lem role e =
        by_tests (role == role_owner) (role == role_admin) (role == role_member) refl refl refl e
      where
        by_tests :
            (p q r : Bool)
            → (role == role_owner) ≡ p
            → (role == role_admin) ≡ q
            → (role == role_member) ≡ r
            → (p || (q || (r || role == role_channel_op))) ≡ true
            → Joins role
        by_tests true q r a b c h = inl ((eq_iff role role_owner).0 a)
        by_tests false true r a b c h = inr (inl ((eq_iff role role_admin).0 b))
        by_tests false false true a b c h = inr (inr (inl ((eq_iff role role_member).0 c)))
        by_tests false false false a b c h = inr (inr (inr ((eq_iff role role_channel_op).0 h)))

    acl_lem :
        (r : Read ChannelAclEntry)
        → (acl_verdict r).0 ≡ true
        → (entry : ChannelAclEntry) × (r ≡ ok entry) × Joins entry.role
    unfolding acl_verdict
    acl_lem (err e) h = absurd (ground (arith, h))
    acl_lem (ok entry) h = (entry, refl, can_join_lem entry.role (by_test (can_join entry.role) h))
      where
        by_test :
            (b : Bool)
            → granted (if b then (true, "") else (false, "permission_denied")) ≡ true
            → b ≡ true
        by_test true k = refl
        by_test false k = k

    may_join_lem :
        (st : S) (tenant_id account_id : Uuid) (channel : Storage.Channel)
        → (may_join store st tenant_id channel account_id).0 ≡ true
        → Admits st tenant_id account_id channel
    unfolding may_join
    may_join_lem st tenant_id account_id channel h =
        by_visibility (channel.visibility == channel_public) (channel.visibility == channel_private)
          refl refl h
      where
        by_visibility :
            (p q : Bool)
            → (channel.visibility == channel_public) ≡ p
            → (channel.visibility == channel_private) ≡ q
            → granted (
                if p
                then (true, "")
                else if q
                then acl_verdict (store.get_channel_acl st tenant_id channel.id account_id)
                else (false, "unknown_visibility"))
              ≡ true
            → Admits st tenant_id account_id channel
        by_visibility true q a b k = inl ((eq_iff channel.visibility channel_public).0 a)
        by_visibility false true a b k =
            let (entry, found, joins) = acl_lem _ k in
            inr ((eq_iff channel.visibility channel_private).0 b, entry, found, joins)
        by_visibility false false a b k = absurd (ground (arith, k))

    abbrev Outcome : World S → Conn → String → Conn × World S → Type 0
    Outcome w c name r =
        TurnedAway w c r
        ⊎ ((channel : Storage.Channel) × (store.get_channel_by_name w.state c.tenant_id name
              ≡ ok channel)
            × Admits w.state c.tenant_id c.account_id channel)

    join_allowed-Outcome :
        (w : World S) (c : Conn) (id name : String) (channel : Storage.Channel) (p : Bool × String)
        → (p.0 ≡ true → Admits w.state c.tenant_id c.account_id channel)
        → store.get_channel_by_name w.state c.tenant_id name ≡ ok channel
        → Outcome w c name (join_allowed store w c id name channel p)
    unfolding join_allowed
    join_allowed-Outcome w c id name channel (true, reason) h e = inr (channel, e, h refl)
    join_allowed-Outcome w c id name channel (false, reason) h e =
        inl (error-TurnedAway w c reason id)

    join_found-Outcome :
        (w : World S) (c : Conn) (id name : String) (r : Read Storage.Channel)
        → store.get_channel_by_name w.state c.tenant_id name ≡ r
        → Outcome w c name (join_found store w c id name r)
    unfolding join_found
    join_found-Outcome w c id name (err e) h = inl (error-TurnedAway w c "channel_not_found" id)
    join_found-Outcome w c id name (ok channel) h =
        join_allowed-Outcome w c id name channel
          (may_join store w.state c.tenant_id channel c.account_id)
          (λ k. may_join_lem w.state c.tenant_id c.account_id channel k) h

    -- Whatever a connection asks to join, either it is turned away, with nothing but at most one error
    -- frame to itself, or a channel of its tenant with the name is stored which is public, or which is
    -- private and has an entry for its account whose role is owner, admin, member or operator.
    pub handle_join_sound :
        (w : World S) (c : Conn) (id name : String)
        → TurnedAway w c (handle_join store w c id name)
          ⊎ ((channel : Storage.Channel) × (store.get_channel_by_name w.state c.tenant_id name
                ≡ ok channel)
              × Admits w.state c.tenant_id c.account_id channel)
    unfolding handle_join
    handle_join_sound w c id name = by_test (name == "")
      where
        by_test :
            (b : Bool)
            → Outcome w c name (
                if b
                then (c, send_error w c "invalid_request" id)
                else join_found store w c id name
                    (store.get_channel_by_name w.state c.tenant_id name))
        by_test true = inl (error-TurnedAway w c "invalid_request" id)
        by_test false = join_found-Outcome w c id name _ refl
