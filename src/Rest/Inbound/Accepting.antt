-- ===== src/Rest/Inbound/Accepting.antt =====
-- What is published for an upstream system.
use native.Mathlib.Omega.{arith}
use prm.Prelude.{
  ℕ, String, ◌≡◌, ◌≢◌, ◌≤◌, refl, sym, ap, ◌∙◌, subst, Bool, true, false, Option, none, some,
  Result, ok, err, ok_inj, if-err, if-holds, ◌==◌, string_eq, nat_eq, eq_iff, length, ltb,
}
use prm.Channels.{Uuid, Time}
use prm.Storage.{Bytes, Store, Read, Tenant, Integration, tenant_suspended}
use prm.Inbound.{AdapterError, Event, Normalize, Adapters, lookup_adapter}
use prm.Rest.{Reply, error, status, bearer}
use prm.Server.{World}
use prm.Server.Messaging.{Env}
use prm.Server.Publish.{PublishError, publish_inbound}
use prm.Rest.Inbound.{
  Post, Calls, in_tenant, for_path, with_token, with_id, integration_of, within, body_of, made,
  adapted, event_of, replied, publish_event, with_body, admitted, handle_inbound,
  max_inbound_body_bytes, exceeds, Refusal,
}

module _ {S : Type 0} (store : Store S) (calls : Calls) where
  -- The token of the request is that of the integration that its path names, and the tenant is stored
  -- and not suspended.
  abbrev pub Admits : S → Post → Integration → Type 0
  Admits st p integ =
      (calls.parse_uuid p.path_id ≡ some integ.id)
      × (plain : String) × (bearer calls.trim_space p.authorization ≡ ok plain)
      × (store.get_integration_by_token_hash st (calls.sha256 plain) ≡ ok integ)
      × (tenant : Tenant) × (store.get_tenant_by_id st integ.tenant_id ≡ ok tenant)
      × (tenant.status ≢ tenant_suspended)

  -- The adapter of the integration makes an event of a body within the limit.
  abbrev pub Adapts : Adapters → Post → Integration → Time → Event → Type 0
  Adapts adapters p integ now ev =
      (body : Bytes) × (p.read_body ≡ some body)
      × (length body ≤ max_inbound_body_bytes)
      × (normalize : Normalize) × (lookup_adapter adapters integ.adapter ≡ ok normalize)
      × (normalize body p.headers integ.settings_json now ≡ ok ev)

  module _ (st : S) (p : Post) (integ : Integration) where
    in_tenant_lem :
        (i : Integration) (r : Read Tenant)
        → in_tenant store calls i r ≡ ok integ
        → (i ≡ integ) × (tenant : Tenant) × (r ≡ ok tenant) × (tenant.status ≢ tenant_suspended)
    unfolding in_tenant
    in_tenant_lem i (err e) h = absurd (ground (arith, h))
    in_tenant_lem i (ok t) h =
        let (live, same) = if-err (t.status == tenant_suspended) _ _ h in
        (
          ok_inj same,
          t,
          refl,
          λ s. absurd (ground (arith, live, (eq_iff t.status tenant_suspended).1 s)),
        )

    for_path_lem :
        (id : Uuid) (r : Read Integration)
        → for_path store calls st id r ≡ ok integ
        → (id ≡ integ.id)
          × (r ≡ ok integ)
          × (tenant : Tenant) × (store.get_tenant_by_id st integ.tenant_id ≡ ok tenant)
          × (tenant.status ≢ tenant_suspended)
    unfolding for_path
    for_path_lem id (err e) h = absurd (ground (arith, h))
    for_path_lem id (ok i) h =
        let (named, rest) = if-holds (i.id == id) _ _ h in
        let (same, t, found, live) = in_tenant_lem i _ rest in
        let n : i.id ≡ id = (nat_eq.beq_iff i.id id).0 named in
        (
          sym n ∙ ap (λ x. x.id) same,
          ap ok same,
          t,
          subst (λ x. store.get_tenant_by_id st x.tenant_id ≡ ok t) same found,
          live,
        )

    with_token_lem :
        (id : Uuid) (r : Result String String)
        → calls.parse_uuid p.path_id ≡ some id
        → bearer calls.trim_space p.authorization ≡ r
        → with_token store calls st id r ≡ ok integ
        → Admits st p integ
    unfolding with_token
    with_token_lem id (err code) f e h = absurd (ground (arith, h))
    with_token_lem id (ok plain) f e h =
        let (named, found, t, known, live) = for_path_lem id _ h in
        (f ∙ ap some named, plain, e, found, t, known, live)

    with_id_lem :
        (o : Option Uuid)
        → calls.parse_uuid p.path_id ≡ o
        → with_id store calls st p o ≡ ok integ
        → Admits st p integ
    unfolding with_id
    with_id_lem none f h = absurd (ground (arith, h))
    with_id_lem (some id) f h = with_token_lem id _ f refl h

    integration_of_lem : integration_of store calls st p ≡ ok integ → Admits st p integ
    unfolding integration_of
    integration_of_lem h = with_id_lem (calls.parse_uuid p.path_id) refl h

    within_lem :
        (body : Bytes) (o : Option Bytes)
        → within store calls o ≡ ok body
        → (o ≡ some body) × (length body ≤ max_inbound_body_bytes)
    unfolding within
    within_lem body none h = absurd (ground (arith, h))
    within_lem body (some b) h =
        let (small, same) = if-err (ltb max_inbound_body_bytes (length b)) _ _ h in
        let e : b ≡ body = ok_inj same in
        let bound : length b ≤ max_inbound_body_bytes = ground (arith, small) in
        (ap some e, subst (λ x. length x ≤ max_inbound_body_bytes) e bound)

    body_of_lem :
        (body : Bytes)
        → body_of store calls p ≡ ok body
        → (p.read_body ≡ some body) × (length body ≤ max_inbound_body_bytes)
    unfolding body_of
    body_of_lem body h = within_lem body p.read_body (if-err (exceeds p.content_length) _ _ h).1

    made_lem : (ev : Event) (r : Result AdapterError Event) → made store calls r ≡ ok ev → r ≡ ok ev
    unfolding made
    made_lem ev (err e) h = absurd (ground (arith, h))
    made_lem ev (ok x) h = ap ok (ok_inj h)

    adapted_lem :
        (body : Bytes) (now : Time) (ev : Event) (r : Result AdapterError Normalize)
        → adapted store calls p integ body now r ≡ ok ev
        → (normalize : Normalize) × (r ≡ ok normalize)
          × (normalize body p.headers integ.settings_json now ≡ ok ev)
    unfolding adapted
    adapted_lem body now ev (err e) h = absurd (ground (arith, h))
    adapted_lem body now ev (ok f) h = (f, refl, made_lem ev _ h)

  module _ (env : Env) (adapters : Adapters) (w w' : World S) (p : Post) (now : Time) where
    -- What is behind an answer 202.
    abbrev pub Accepted : Type 0
    Accepted =
        (integ : Integration) × Admits w.state p integ
        × (ev : Event) × Adapts adapters p integ now ev
        × (publish_inbound store env w integ.tenant_id integ.channel_id integ.account_id ev now
            ≡ (ok tt, w'))

    not_accepted {ℓ} :
        {P : Type ℓ} (n : ℕ) (code : String)
        → ◌≡◌ {A = Reply × World S} (error n code, w) (status 202, w')
        → P
    not_accepted n code h = absurd (ground (arith, ap (λ r. r.0) h))

    published_lem :
        (r : Result PublishError (Unit {0}) × World S)
        → replied store calls r ≡ (status 202, w')
        → r ≡ (ok tt, w')
    unfolding replied
    published_lem (err e, v) h = absurd (ground (arith, ap (λ x. x.0) h))
    published_lem (ok _, v) h = ap (λ x. (ok tt, x)) (ap (λ x. x.1) h)

    publish_event_lem :
        (integ : Integration) (r : Result Refusal Event)
        → publish_event store calls env w integ now r ≡ (status 202, w')
        → (ev : Event) × (r ≡ ok ev)
          × (publish_inbound store env w integ.tenant_id integ.channel_id integ.account_id ev now
              ≡ (ok tt, w'))
    unfolding publish_event
    publish_event_lem integ (err (n, code)) h = not_accepted n code h
    publish_event_lem integ (ok ev) h = (ev, refl, published_lem _ h)

    with_body_lem :
        (integ : Integration) (r : Result Refusal Bytes)
        → body_of store calls p ≡ r
        → Admits w.state p integ
        → with_body store calls env adapters w p integ now r ≡ (status 202, w')
        → Accepted
    unfolding with_body event_of
    with_body_lem integ (err (n, code)) e a h = not_accepted n code h
    with_body_lem integ (ok body) e a h =
        let (ev, f, done) = publish_event_lem integ _ h in
        let (sent, small) = body_of_lem w.state p integ body e in
        let (normalize, found, made) = adapted_lem w.state p integ body now ev _ f in
        (integ, a, ev, (body, sent, small, normalize, found, made), done)

    admitted_lem :
        (r : Result Refusal Integration)
        → integration_of store calls w.state p ≡ r
        → admitted store calls env adapters w p now r ≡ (status 202, w')
        → Accepted
    unfolding admitted
    admitted_lem (err (n, code)) e h = not_accepted n code h
    admitted_lem (ok integ) e h =
        with_body_lem integ _ refl (integration_of_lem w.state p integ e) h

    -- A post is answered 202 only if its token is that of the integration that its path names, the
    -- tenant is not suspended, the body is within 65536 bytes and the integration's adapter makes an
    -- event of it; the state is then that after the event is published on the integration's channel in
    -- the name of its account.
    pub handle_inbound_accepted :
        (has_publisher : Bool)
        → handle_inbound store calls has_publisher env adapters w p now ≡ (status 202, w')
        → Accepted
    unfolding handle_inbound
    handle_inbound_accepted true h = admitted_lem (integration_of store calls w.state p) refl h
    handle_inbound_accepted false h = not_accepted 501 "no_publisher" h
