-- ===== src/Webhook/Worker/Disabling.antt =====
-- The end of a delivery: the cache after it.
use prm.Prelude.{
  subst, ap, ◌≡◌, refl, ◌∙◌, Bool, true, false, Option, none, some, nat_eq, lookup, insert,
  lookup-insert, beq_refl, ℕ,
}
use native.Mathlib.Omega.{arith}
use prm.Channels.{Time}
use prm.Storage.{Store}
use prm.Webhook.{Subscription}
use prm.Webhook.Manager.{Manager}
use prm.Webhook.Manager.Index.{IsIndexed, remove-IsIndexed, keyed-insert, lookup-remove}
use prm.Webhook.Worker.{Outcome, auto_disable, set_consec, finish, counted, close_delivery}

-- A cache in which a subscription is replaced by one with the same id and channel.
replaced-IsIndexed :
    (m : Manager) (old live : Subscription)
    → lookup live.id m.subs ≡ some old
    → old.channel_id ≡ live.channel_id
    → IsIndexed m
    → IsIndexed (record m { subs = insert live.id live m.subs })
replaced-IsIndexed m old live e same v = record {
  agrees = λ c i. rw (lookup-insert live.id i live m.subs) (ground (arith, v.agrees c i));
  keyed = keyed-insert m live v;
  lean = v.lean;
}

set_consec-IsIndexed :
    (m : Manager) (s : Subscription) (n : ℕ) → IsIndexed m → IsIndexed (set_consec m s n)
unfolding set_consec counted
set_consec-IsIndexed m s n v = by_cached (lookup s.id m.subs) refl
  where
    by_cached : (o : Option Subscription) → lookup s.id m.subs ≡ o → IsIndexed (counted o m s n)
    by_cached none e = v
    by_cached (some live) e =
        let here : live.id ≡ s.id = v.keyed s.id live e in
        subst
          (λ k. IsIndexed (record m { subs = insert k (record live { consec_4xx = n }) m.subs }))
          here
          (replaced-IsIndexed m live (record live { consec_4xx = n })
            (ap (λ k. lookup k m.subs) here ∙ e) refl v)

module _ {S : Type 0} (store : Store S) (now : Time) where
  close_delivery-IsIndexed :
      (b : Bool) (st : S) (m : Manager) (s : Subscription)
      → IsIndexed m
      → IsIndexed (close_delivery store now b st m s).1
  unfolding close_delivery auto_disable
  close_delivery-IsIndexed true st m s v = remove-IsIndexed m s.id v
  close_delivery-IsIndexed false st m s v = v

  -- The end of a delivery keeps the channel index exact, whatever the outcome and the store.
  pub finish-IsIndexed :
      (st : S) (m : Manager) (s : Subscription) (o : Outcome)
      → IsIndexed m
      → IsIndexed (finish store now st m s o).1
  unfolding finish
  finish-IsIndexed st m s o v =
      close_delivery-IsIndexed o.disable _ _ s (set_consec-IsIndexed m s o.consec_4xx v)

  close_delivery_lem :
      (b : Bool) (st : S) (m : Manager) (s : Subscription)
      → b ≡ true
      → lookup s.id (close_delivery store now b st m s).1.subs ≡ none
  unfolding close_delivery auto_disable
  close_delivery_lem true st m s e = lookup-remove m s.id s.id ∙ ground (arith, beq_refl s.id)
  close_delivery_lem false st m s e = absurd (ground (arith, e))

  -- After a delivery whose outcome disables, the cache no longer holds the subscription, whatever
  -- the store answers.
  pub finish-disables :
      (st : S) (m : Manager) (s : Subscription) (o : Outcome)
      → o.disable ≡ true
      → lookup s.id (finish store now st m s o).1.subs ≡ none
  unfolding finish
  finish-disables st m s o e = close_delivery_lem o.disable _ _ s e
