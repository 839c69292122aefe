-- ===== src/Webhook/Manager/Notify/Bystanders.antt =====
-- Whom `Notify` leaves alone.
use prm.Prelude.{
  ◌≡◌, ◌≢◌, ◌⊎◌, inl, inr, refl, sym, ◌∙◌, ap, true, false, Option, none, some, List, [], ◌∷◌,
  arith, nat_eq, lookup, lookup-insert, All, Bool-cases,
}
use prm.Channels.{Uuid, is_some}
use prm.Matcher.{Engine, matches}
use prm.Storage.{Store}
use prm.Webhook.{Subscription, Event}
use prm.Webhook.Gate.{Action}
use prm.Webhook.Sets.{IdSet, or_empty, has}
use prm.Webhook.Manager.{Manager}
use prm.Webhook.Manager.Index.{IsIndexed, on_channel}
use prm.Webhook.Manager.Notify.{
  Readings, matcher_event, snapshot, Notified, notify_one, notify_all, notify, gate_one,
  record_paused_fire,
}

-- A subscription on another channel, one whose rules do not match, or one whose bot is paused.
abbrev pub IsBystander : Engine → Manager → Event → Subscription → Type 0
IsBystander engine m ev s =
    (s.channel_id ≢ ev.channel_id)
    ⊎ ((matches engine s.matcher (matcher_event ev) ≡ false)
        ⊎ (has ev.channel_id s.account_id m.pauses ≡ true))

-- No action is left for the subscription `i`.
abbrev pub NoAction : Uuid → List (Uuid × Action) → Type 0
NoAction i acts = All (λ p. p.0 ≢ i) acts

-- A subscription of the snapshot: it is the cached one under its id, and is on the channel.
abbrev IsCurrent : Manager → Event → Subscription → Type 0
IsCurrent m ev s = (lookup s.id m.subs ≡ some s) × (s.channel_id ≡ ev.channel_id)

snapshot-All :
    (m : Manager) (ev : Event) (set : IdSet)
    → ((i : Uuid) (s : Subscription) → lookup i m.subs ≡ some s → s.id ≡ i)
    → ((i : Uuid)
        → is_some (lookup i set) ≡ true
        → on_channel ev.channel_id (lookup i m.subs) ≡ true)
    → All (IsCurrent m ev) (snapshot set m)
unfolding snapshot lookup
snapshot-All m ev [] keyed on = tt
snapshot-All m ev ((id, u) ∷ rest) keyed on =
    let later = snapshot-All m ev rest keyed (λ i h. on i (ground arith)) in
    by_found (lookup id m.subs) refl later
  where
    by_found :
        (o : Option Subscription)
        → lookup id m.subs ≡ o
        → All (IsCurrent m ev) (snapshot rest m)
        → All (IsCurrent m ev) (snapshot ((id, u) ∷ rest) m)
    by_found none e later = rw (e, snapshot) later
    by_found (some s) e later =
        let own : s.id ≡ id = keyed id s e in
        let here : on_channel ev.channel_id (lookup id m.subs) ≡ true = on id (ground arith) in
        rw (e, snapshot)
          ((
            (
              ap (λ k. lookup k m.subs) own ∙ e,
              (nat_eq.beq_iff s.channel_id ev.channel_id).0 (rw e at here),
            ),
            later,
          ))

module _ {S : Type 0} (engine : Engine) (store : Store S) (clock : Uuid → Readings) where
  -- The subscription `i` is as it was, with nothing to be done for it.
  pub record IsLeftAlone (i : Uuid) (s : Subscription) (n : Notified S) : Type 0 where
    pub same : lookup i n.manager.subs ≡ some s
    pub idle : NoAction i n.actions

  -- A subscription of the snapshot that gets through to its gate is no bystander.
  not_bystander :
      (m : Manager) (x s : Subscription) (i : Uuid) (ev : Event)
      → IsCurrent m ev x
      → lookup i m.subs ≡ some s
      → IsBystander engine m ev s
      → matches engine x.matcher (matcher_event ev) ≡ true
      → has ev.channel_id x.account_id m.pauses ≡ false
      → x.id ≢ i
  not_bystander m x s i ev c e b fires free q =
      let found : some x ≡ some s = sym c.0 ∙ (ap (λ k. lookup k m.subs) q ∙ e) in
      let same : x ≡ s = cc in
      elim b [
        | inl off ↦ off (ap (λ y. y.channel_id) (sym same) ∙ c.1)
        | inr (inl quiet) ↦ let k = ap (λ y. matches engine y.matcher (matcher_event ev)) same in cc
        | inr (inr paused) ↦ let k = ap (λ y. has ev.channel_id y.account_id m.pauses) same in cc
      ]

  gate_one-IsLeftAlone :
      (x s : Subscription) (i : Uuid) (ev : Event) (n : Notified S)
      → x.id ≢ i
      → IsLeftAlone i s n
      → IsLeftAlone i s (gate_one engine store clock x ev n)
  unfolding gate_one
  gate_one-IsLeftAlone x s i ev n ne l = record {
    same = simp lookup-insert (ground (arith, l.same));
    idle = (ne, l.idle);
  }

  notify_one-IsLeftAlone :
      (m : Manager) (x s : Subscription) (i : Uuid) (ev : Event) (n : Notified S)
      → IsCurrent m ev x
      → lookup i m.subs ≡ some s
      → IsBystander engine m ev s
      → IsLeftAlone i s n
      → IsLeftAlone i s (notify_one engine store clock m x ev n)
  unfolding notify_one record_paused_fire
  notify_one-IsLeftAlone m x s i ev n c e b l =
      elim (Bool-cases (matches engine x.matcher (matcher_event ev))) [
        | inr quiet ↦ rw quiet l
        | inl fires ↦ elim (Bool-cases (has ev.channel_id x.account_id m.pauses)) [
          | inl paused ↦ rw (fires, paused) (record { same = l.same; idle = l.idle })
          | inr free ↦
              rw (fires, free)
                (gate_one-IsLeftAlone x s i ev n (not_bystander m x s i ev c e b fires free) l)
        ]
      ]

  notify_all-IsLeftAlone :
      (m : Manager) (xs : List Subscription) (s : Subscription) (i : Uuid) (ev : Event)
      (n : Notified S)
      → All (IsCurrent m ev) xs
      → lookup i m.subs ≡ some s
      → IsBystander engine m ev s
      → IsLeftAlone i s n
      → IsLeftAlone i s (notify_all engine store clock m xs ev n)
  unfolding notify_all
  notify_all-IsLeftAlone m [] s i ev n c e b l = l
  notify_all-IsLeftAlone m (x ∷ xs) s i ev n c e b l =
      notify_all-IsLeftAlone m xs s i ev (notify_one engine store clock m x ev n) c.1 e b
        (notify_one-IsLeftAlone m x s i ev n c.0 e b l)

  -- In a manager with an exact index, `Notify` changes nothing of a subscription, and leaves nothing
  -- to be done for it, if it is on another channel, its rules do not match, or its bot is paused on
  -- the channel.
  pub notify-IsLeftAlone :
      (st : S) (m : Manager) (ev : Event) (i : Uuid) (s : Subscription)
      → IsIndexed m
      → lookup i m.subs ≡ some s
      → IsBystander engine m ev s
      → IsLeftAlone i s (notify engine store clock st m ev)
  unfolding notify has
  notify-IsLeftAlone st m ev i s v e b =
      let set = or_empty (lookup ev.channel_id m.by_channel) in
      notify_all-IsLeftAlone m (snapshot set m) s i ev
        (record { state = st; manager = m; actions = [] })
        (snapshot-All m ev set v.keyed (λ j h. sym (v.agrees ev.channel_id j) ∙ h)) e b
        (record { same = e; idle = tt })
