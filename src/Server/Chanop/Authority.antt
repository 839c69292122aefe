-- ===== src/Server/Chanop/Authority.antt =====
-- Who may pause a bot, and what a pause does.
use prm.Prelude.{
  String, ◌≡◌, refl, subst, ap, Bool, true, false, Option, none, some, if◌then◌else◌, ◌==◌,
  string_eq, nat_eq, eq_iff, lookup, Result, ok, err,
}
use native.Mathlib.Omega.{arith}
use prm.Channels.{Uuid, Time}
use prm.Storage
use prm.Storage.{Store, Read, Account, account_bot, can_moderate}
use prm.Server.{Conn, World, send_error}
use prm.Proto.Frames.{ChanopRequest}
use prm.Server.Chanop.{
  or_empty_role, target_channel, target_account, target_id, target_joined, resolve_chanop_target,
  pause_resolved, handle_pause_bot, resume_resolved, handle_resume_bot,
}

-- A condition whose other branch is an error.
guard_lem {ℓ} :
    {A : Type ℓ} (b : Bool) (r : Result String A) (why : String) (a : A)
    → (if b then r else err why) ≡ ok a
    → (b ≡ true) × (r ≡ ok a)
guard_lem true r why a e = (refl, e)
guard_lem false r why a e = absurd (ground (arith, e))

refuse_lem {ℓ} :
    {A : Type ℓ} (b : Bool) (r : Result String A) (why : String) (a : A)
    → (if b then err why else r) ≡ ok a
    → (b ≡ false) × (r ≡ ok a)
refuse_lem false r why a e = (refl, e)
refuse_lem true r why a e = absurd (ground (arith, e))

module _ {S : Type 0} (store : Store S) (parse_uuid : String → Option Uuid) (st : S)
    (target : Account) (ch : Storage.Channel) where
  target_channel_lem :
      (t : Account) (r : Read Storage.Channel)
      → target_channel store parse_uuid t r ≡ ok (target, ch)
      → (t ≡ target) × (r ≡ ok ch)
  unfolding target_channel
  target_channel_lem t (err e) h = absurd (ground (arith, h))
  target_channel_lem t (ok c) h = (cc, cc)

  target_account_lem :
      (tenant_id chan_id : Uuid) (r : Read Account)
      → target_account store parse_uuid st tenant_id chan_id r ≡ ok (target, ch)
      → (r ≡ ok target)
        × (target.kind ≡ account_bot)
        × (store.get_channel_by_id st tenant_id chan_id ≡ ok ch)
  unfolding target_account
  target_account_lem tenant_id chan_id (err e) h = absurd (ground (arith, h))
  target_account_lem tenant_id chan_id (ok t) h =
      let (bot, rest) = guard_lem (t.kind == account_bot) _ "not_a_bot" (target, ch) h in
      let (same, found) =
        target_channel_lem t (store.get_channel_by_id st tenant_id chan_id) rest in
      (
        ap ok same,
        subst (λ x. x.kind ≡ account_bot) same ((eq_iff t.kind account_bot).0 bot),
        found,
      )

  target_id_lem :
      (tenant_id chan_id : Uuid) (o : Option Uuid)
      → target_id store parse_uuid st tenant_id chan_id o ≡ ok (target, ch)
      → (bot_id : Uuid) × (o ≡ some bot_id)
        × (store.get_account_by_id st tenant_id bot_id ≡ ok target)
        × (target.kind ≡ account_bot)
        × (store.get_channel_by_id st tenant_id chan_id ≡ ok ch)
  unfolding target_id
  target_id_lem tenant_id chan_id none h = absurd (ground (arith, h))
  target_id_lem tenant_id chan_id (some bot_id) h =
      let (found, bot, channel) =
        target_account_lem tenant_id chan_id (store.get_account_by_id st tenant_id bot_id) h in
      (bot_id, refl, found, bot, channel)

  target_joined_lem :
      (c : Conn) (m : ChanopRequest) (o : Option Uuid)
      → target_joined store parse_uuid st c m o ≡ ok (target, ch)
      → (can_moderate (or_empty_role (lookup m.channel c.joined_roles)) ≡ true)
        × (chan_id : Uuid) × (o ≡ some chan_id)
        × (store.get_channel_by_id st c.tenant_id chan_id ≡ ok ch)
        × (bot_id : Uuid) × (parse_uuid m.bot_account_id ≡ some bot_id)
        × (store.get_account_by_id st c.tenant_id bot_id ≡ ok target)
        × (target.kind ≡ account_bot)
  unfolding target_joined
  target_joined_lem c m none h = absurd (ground (arith, h))
  target_joined_lem c m (some chan_id) h =
      let (role, rest) =
        guard_lem (can_moderate (or_empty_role (lookup m.channel c.joined_roles))) _
          "permission_denied" (target, ch) h in
      let (bot_id, parsed, found, bot, channel) =
        target_id_lem c.tenant_id chan_id (parse_uuid m.bot_account_id) rest in
      (role, chan_id, refl, channel, bot_id, parsed, found, bot)

  -- When the target of an operator verb is resolved, the role that the connection cached when it
  -- joined the channel moderates, the channel is the stored one under the id that was cached, and the
  -- target is the stored account of the tenant under the id that the request spells, and is a bot.
  pub resolve_chanop_target_sound :
      (c : Conn) (m : ChanopRequest)
      → resolve_chanop_target store parse_uuid st c m ≡ ok (target, ch)
      → (can_moderate (or_empty_role (lookup m.channel c.joined_roles)) ≡ true)
        × (chan_id : Uuid) × (lookup m.channel c.joined_channels ≡ some chan_id)
        × (store.get_channel_by_id st c.tenant_id chan_id ≡ ok ch)
        × (bot_id : Uuid) × (parse_uuid m.bot_account_id ≡ some bot_id)
        × (store.get_account_by_id st c.tenant_id bot_id ≡ ok target)
        × (target.kind ≡ account_bot)
  unfolding resolve_chanop_target
  resolve_chanop_target_sound c m h =
      let (named, rest) = refuse_lem (m.channel == "") _ "invalid_request" (target, ch) h in
      let (given, last) =
        refuse_lem (m.bot_account_id == "") _ "invalid_request" (target, ch) rest in
      target_joined_lem c m (lookup m.channel c.joined_channels) last

module _ {S : Type 0} (store : Store S) (parse_uuid : String → Option Uuid) (now : Time) where
  -- An operator verb whose target is not resolved changes nothing of the server but that the one
  -- error frame with the reason is sent to the connection: neither the pauses nor the store.
  pub handle_pause_bot-refused :
      (w : World S) (c : Conn) (m : ChanopRequest) (reason : String)
      → resolve_chanop_target store parse_uuid w.state c m ≡ err reason
      → (handle_pause_bot store parse_uuid now w c m ≡ send_error w c reason m.id)
        × (handle_resume_bot store parse_uuid now w c m ≡ send_error w c reason m.id)
  unfolding handle_pause_bot handle_resume_bot pause_resolved resume_resolved
  handle_pause_bot-refused w c m reason e =
      (ap (pause_resolved store now w c m) e, ap (resume_resolved store now w c m) e)
