-- ===== src/Server/Outbound/Accounting.antt =====
-- What becomes of the frames that are enqueued.
use native.Mathlib.Omega.{arith}
use prm.Prelude.{
  not, ◌||◌, ◌⊎◌, inl, inr, ◌<◌, ℕ, suc, ◌+◌, ◌≡◌, ◌≤◌, refl, ap, subst, sym, ◌∙◌, Bool, true,
  false, List, [], ◌∷◌, ◌++◌, length, length-append, append-nil, append_assoc, if◌then◌else◌, ltb,
}
use prm.Storage.{Bytes}
use prm.Server.Outbound.{
  Outbound, new_outbound, outbound_queue_size, enqueue, write_next, write_frame,
}

-- What happens to a queue: a frame is enqueued, or the write goroutine takes a turn, in which
-- a write succeeds or fails.
pub data Op : Type 0 where
  frame : Bytes → Op
  turn : Bool → Op

abbrev pub step : Outbound → Op → Outbound
step o (frame f) = enqueue o f
step o (turn success) = write_next success o

abbrev pub run : Outbound → List Op → Outbound
run o [] = o
run o (op ∷ ops) = run (step o op) ops

abbrev pub frames_of : List Op → List Bytes
frames_of [] = []
frames_of (frame f ∷ ops) = f ∷ frames_of ops
frames_of (turn success ∷ ops) = frames_of ops

-- Whether a write has failed by the end, where `failed` is whether one had before.
abbrev pub fails : Bool → List Op → Bool
fails failed [] = failed
fails failed (frame f ∷ ops) = fails failed ops
fails failed (turn success ∷ ops) = fails (failed || not success) ops

-- The first list is the second one less some of its elements.
pub data Thinned {ℓ} {A : Type ℓ} : List A → List A → Type ℓ where
  nil : Thinned [] []
  keep : {xs ys : List A} (x : A) → Thinned xs ys → Thinned (x ∷ xs) (x ∷ ys)
  skip : {xs ys : List A} (y : A) → Thinned xs ys → Thinned xs (y ∷ ys)

module _ {ℓ} {A : Type ℓ} where
  Thinned-keep : {xs ys : List A} (x : A) → Thinned xs ys → Thinned (xs ++ x ∷ []) (ys ++ x ∷ [])
  Thinned-keep x Thinned.nil = Thinned.keep x Thinned.nil
  Thinned-keep x (Thinned.keep y t) = Thinned.keep y (Thinned-keep x t)
  Thinned-keep x (Thinned.skip y t) = Thinned.skip y (Thinned-keep x t)

  Thinned-skip : {xs ys : List A} (x : A) → Thinned xs ys → Thinned xs (ys ++ x ∷ [])
  Thinned-skip x Thinned.nil = Thinned.skip x Thinned.nil
  Thinned-skip x (Thinned.keep y t) = Thinned.keep y (Thinned-skip x t)
  Thinned-skip x (Thinned.skip y t) = Thinned.skip y (Thinned-skip x t)

  -- One element less.
  Thinned-gone :
      (xs : List A) (x : A) (ys zs : List A) → Thinned (xs ++ x ∷ ys) zs → Thinned (xs ++ ys) zs
  Thinned-gone [] x ys [] t = elim t [ ]
  Thinned-gone [] x ys (z ∷ zs) (Thinned.keep _ t) = Thinned.skip z t
  Thinned-gone [] x ys (z ∷ zs) (Thinned.skip _ t) = Thinned.skip z (Thinned-gone [] x ys zs t)
  Thinned-gone (a ∷ xs) x ys [] t = elim t [ ]
  Thinned-gone (a ∷ xs) x ys (z ∷ zs) (Thinned.keep _ t) =
      Thinned.keep z (Thinned-gone xs x ys zs t)
  Thinned-gone (a ∷ xs) x ys (z ∷ zs) (Thinned.skip _ t) =
      Thinned.skip z (Thinned-gone (a ∷ xs) x ys zs t)

-- The frame whose write failed; there is none while the write goroutine runs or no write has failed.
abbrev pub HasLost : Outbound → Bool → ℕ → Type 0
HasLost o failed lost = (lost ≤ 1) × (o.writing ≡ true → lost ≡ 0) × (failed ≡ false → lost ≡ 0)

-- Of the frames enqueued so far, those written and waiting are in order, the rest is counted as dropped
-- but for one whose write failed, the queue is not longer than its size, and a drop needs more frames.
abbrev pub Accounted : Outbound → Bool → List Bytes → Type 0
Accounted o failed frames =
    (o.closed ≡ false)
    × Thinned (o.written ++ o.out) frames
    × ((lost : ℕ) × HasLost o failed lost
        × (length o.written + length o.out + o.drop_count + lost ≡ length frames))
    × (length o.out ≤ 1024)
    × ((o.drop_count ≡ 0) ⊎ (1024 < length frames))

enqueue-Accounted :
    (o : Outbound) (failed : Bool) (frames : List Bytes) (f : Bytes)
    → Accounted o failed frames
    → Accounted (enqueue o f) failed (frames ++ f ∷ [])
unfolding enqueue
enqueue-Accounted o failed frames f (c, t, (lost, l, n), b, d) = by_closed o.closed c
  where
    more : (o.drop_count ≡ 0) ⊎ (1024 < length (frames ++ f ∷ []))
    more = ground (arith, d, length-append frames (f ∷ []))

    by_room :
        (r : Bool)
        → ltb (length o.out) outbound_queue_size ≡ r
        → Accounted
            (if r
              then record o { out = o.out ++ f ∷ [] }
              else record o { drop_count = o.drop_count + 1 })
            failed
            (frames ++ f ∷ [])
    by_room true e = (
      c,
      subst (λ l. Thinned l (frames ++ f ∷ [])) (append_assoc o.written o.out (f ∷ []))
          (Thinned-keep f t),
      (lost, l, omega (arith, n, length-append frames (f ∷ []), length-append o.out (f ∷ []))),
      ground (arith, e, length-append o.out (f ∷ [])),
      more,
    )
    by_room false e = (
      c,
      Thinned-skip f t,
      (lost, l, omega (arith, n, length-append frames (f ∷ []))),
      b,
      inr (ground (arith, e, n, length-append frames (f ∷ []))),
    )

    by_closed :
        (d : Bool)
        → d ≡ false
        → Accounted
            (if d
              then o
              else if ltb (length o.out) outbound_queue_size
              then record o { out = o.out ++ f ∷ [] }
              else record o { drop_count = o.drop_count + 1 })
            failed
            (frames ++ f ∷ [])
    by_closed false e = by_room (ltb (length o.out) outbound_queue_size) refl
    by_closed true e = absurd (ground (arith, e))

write_frame-Accounted :
    (success : Bool) (o : Outbound) (failed : Bool) (f : Bytes) (rest frames : List Bytes)
    → o.out ≡ f ∷ rest
    → o.writing ≡ true
    → Accounted o failed frames
    → Accounted (write_frame success o f rest) (failed || not success) frames
unfolding write_frame
write_frame-Accounted true o failed f rest frames e r (c, t, (lost, l, n), b, d) =
    let m : length o.out ≡ suc (length rest) = ap length e in
    let none_lost : lost ≡ 0 = l.1 r in
    (
      c,
      subst (λ l. Thinned l frames)
          (ap (λ l. o.written ++ l) e ∙ sym (append_assoc o.written (f ∷ []) rest)) t,
      (
        lost,
        (l.0, (λ w. none_lost), λ w. none_lost),
        omega (arith, n, m, length-append o.written (f ∷ [])),
      ),
      omega (arith, m, b),
      d,
    )
write_frame-Accounted false o failed f rest frames e r (c, t, (lost, l, n), b, d) =
    let m : length o.out ≡ suc (length rest) = ap length e in
    let none_lost : lost ≡ 0 = l.1 r in
    (
      c,
      Thinned-gone o.written f rest frames
          (subst (λ l. Thinned l frames) (ap (λ l. o.written ++ l) e) t),
      (
        1,
        (omega arith, (λ w. absurd (ground (arith, w))), λ w. absurd (ground (arith, w))),
        omega (arith, n, m, none_lost),
      ),
      omega (arith, m, b),
      d,
    )

-- A turn with nothing to write.
idle-Accounted :
    (success : Bool) (o : Outbound) (failed : Bool) (frames : List Bytes)
    → Accounted o failed frames
    → Accounted o (failed || not success) frames
idle-Accounted success o failed frames (c, t, (lost, l, n), b, d) =
    (c, t, (lost, (l.0, l.1, λ w. l.2 (before failed w)), n), b, d)
  where
    before : (v : Bool) → (v || not success) ≡ false → v ≡ false
    before true w = w
    before false w = refl

write_next-Accounted :
    (success : Bool) (o : Outbound) (failed : Bool) (frames : List Bytes)
    → Accounted o failed frames
    → Accounted (write_next success o) (failed || not success) frames
unfolding write_next
write_next-Accounted success o failed frames a = by_writing o.writing refl
  where
    by_out :
        (l : List Bytes)
        → o.out ≡ l
        → o.writing ≡ true
        → Accounted
            (elim l [ [] ↦ o | f ∷ rest ↦ write_frame success o f rest ])
            (failed || not success)
            frames
    by_out [] e r = idle-Accounted success o failed frames a
    by_out (f ∷ rest) e r = write_frame-Accounted success o failed f rest frames e r a

    by_writing :
        (b : Bool)
        → o.writing ≡ b
        → Accounted
            (if b then elim o.out [ [] ↦ o | f ∷ rest ↦ write_frame success o f rest ] else o)
            (failed || not success)
            frames
    by_writing true r = by_out o.out refl r
    by_writing false r = idle-Accounted success o failed frames a

run-keeps :
    (ops : List Op) (o : Outbound) (failed : Bool) (frames : List Bytes)
    → Accounted o failed frames
    → Accounted (run o ops) (fails failed ops) (frames ++ frames_of ops)
run-keeps [] o failed frames a = subst (Accounted o failed) (sym (append-nil frames)) a
run-keeps (frame f ∷ ops) o failed frames a =
    subst (Accounted (run (enqueue o f) ops) (fails failed ops))
      (append_assoc frames (f ∷ []) (frames_of ops))
      (run-keeps ops (enqueue o f) failed (frames ++ f ∷ [])
        (enqueue-Accounted o failed frames f a))
run-keeps (turn success ∷ ops) o failed frames a =
    run-keeps ops (write_next success o) (failed || not success) frames
      (write_next-Accounted success o failed frames a)

-- However frames and turns of the write goroutine alternate on a new connection that is not closed,
-- and whichever writes fail, what is written and what waits are frames in the order in which they were
-- enqueued; they and the drops together are all of the frames but for at most one, whose write failed,
-- and for none while the write goroutine runs or where no write fails; at most 1024 frames wait, and
-- none is dropped before the 1025th is enqueued.
pub run-Accounted :
    (ops : List Op) → Accounted (run new_outbound ops) (fails false ops) (frames_of ops)
run-Accounted ops = run-keeps ops new_outbound false [] (
  refl,
  Thinned.nil,
  (0, (omega arith, (λ r. refl), λ r. refl), omega arith),
  omega arith,
  inl refl,
)
