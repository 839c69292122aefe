-- ===== src/Auth/Parameters/Bounds.antt =====
-- What the parameters of a stored hash can be.
use prm.Prelude.{
  ℕ, ◌^◌, ◌<◌, ◌≡◌, refl, subst, Bool, true, false, ◌||◌, Option, none, some, List, [], ◌∷◌, ltb,
  nat_beq, if◌then◌else◌,
}
use native.Mathlib.Omega.{arith}
use prm.Storage.{Bytes}
use prm.Auth.Parameters.{
  Params, parse_params, parse_rest, prefix, strip_prefix, split_commas, split_eq, digits,
  parse_uint32, assign, put_value, put_part, put_parts, and_then, required, default_params,
}

-- The ranges of the Go types.
pub record IsInRange (p : Params) : Type 0 where
  pub mem : p.mem < 2 ^ 32
  pub iters : p.iters < 2 ^ 32
  pub par : p.par < 256
  pub key_len : p.key_len < 2 ^ 32

parse_uint32-lt : (v : Bytes) (n : ℕ) → parse_uint32 v ≡ some n → n < 2 ^ 32
unfolding parse_uint32
parse_uint32-lt [] n e = absurd (ground (arith, e))
parse_uint32-lt (c ∷ cs) n e = by_digits (digits 0 (c ∷ cs)) e
  where
    by_digits :
        (o : Option ℕ)
        → elim o [ none ↦ none | some m ↦ if ltb m (2 ^ 32) then some m else none ] ≡ some n
        → n < 2 ^ 32
    by_digits none h = absurd (ground (arith, h))
    by_digits (some m) h = ground (arith, h)

assign-IsInRange :
    (p : Params) (k : Bytes) (n : ℕ) → n < 2 ^ 32 → IsInRange p → IsInRange (assign p k n)
unfolding assign
assign-IsInRange p [] n l v = v
assign-IsInRange p (c ∷ []) n l v = record {
  mem = let h = v.mem in ground arith;
  iters = let h = v.iters in ground arith;
  par = let h = v.par in ground arith;
  key_len = let h = v.key_len in ground arith;
}
assign-IsInRange p (c ∷ d ∷ cs) n l v = v

put_value-IsInRange :
    (p q : Params) (k : Bytes) (o : Option ℕ)
    → ((n : ℕ) → o ≡ some n → n < 2 ^ 32)
    → IsInRange p
    → put_value p k o ≡ some q
    → IsInRange q
unfolding put_value
put_value-IsInRange p q k none l v e = absurd (ground (arith, e))
put_value-IsInRange p q k (some n) l v e =
    let same : assign p k n ≡ q = cc in subst IsInRange same (assign-IsInRange p k n (l n refl) v)

put_part-IsInRange :
    (p q : Params) (o : Option (Bytes × Bytes)) → IsInRange p → put_part p o ≡ some q → IsInRange q
unfolding put_part
put_part-IsInRange p q none v e = let same : p ≡ q = cc in subst IsInRange same v
put_part-IsInRange p q (some kv) v e =
    put_value-IsInRange p q kv.0 (parse_uint32 kv.1) (parse_uint32-lt kv.1) v e

and_then_lem :
    (o : Option Params) (f : Params → Option Params) (q : Params)
    → and_then o f ≡ some q
    → (r : Params) × (o ≡ some r) × (f r ≡ some q)
unfolding and_then
and_then_lem none f q e = absurd (ground (arith, e))
and_then_lem (some r) f q e = (r, refl, e)

put_parts-IsInRange :
    (kvs : List Bytes) (p q : Params) → IsInRange p → put_parts kvs p ≡ some q → IsInRange q
unfolding put_parts
put_parts-IsInRange [] p q v e = let same : p ≡ q = cc in subst IsInRange same v
put_parts-IsInRange (kv ∷ kvs) p q v e =
    let (r, f, h) = and_then_lem (put_part p (split_eq kv)) (put_parts kvs) q e in
    put_parts-IsInRange kvs r q (put_part-IsInRange p r (split_eq kv) v f) h

required_lem :
    (q p : Params) → required q ≡ some p → (q ≡ p) × (0 < q.mem) × (0 < q.iters) × (0 < q.par)
unfolding required
required_lem q p h = by_test (nat_beq q.mem 0 || (nat_beq q.iters 0 || nat_beq q.par 0)) refl h
  where
    by_test :
        (b : Bool)
        → (nat_beq q.mem 0 || (nat_beq q.iters 0 || nat_beq q.par 0)) ≡ b
        → (if b then none else some q) ≡ some p
        → (q ≡ p) × (0 < q.mem) × (0 < q.iters) × (0 < q.par)
    by_test true e k = absurd (ground (arith, k))
    by_test false e k = (cc, ground (arith, e), ground (arith, e), ground (arith, e))

-- Parameters that parse have no zero among the three that have no default, and fit the Go types
-- `uint32`, `uint32`, `uint8` and `uint32`, whatever the bytes.
pub parse_params-IsInRange :
    (s : Bytes) (p : Params)
    → parse_params s ≡ some p
    → IsInRange p × (0 < p.mem) × (0 < p.iters) × (0 < p.par)
unfolding parse_params parse_rest and_then
parse_params-IsInRange s p e = by_prefix (strip_prefix prefix s) e
  where
    by_required :
        (q : Params)
        → IsInRange q
        → required q ≡ some p
        → IsInRange p × (0 < p.mem) × (0 < p.iters) × (0 < p.par)
    by_required q v h =
        let (same, m, i, r) = required_lem q p h in
        subst (λ x. IsInRange x × (0 < x.mem) × (0 < x.iters) × (0 < x.par)) same (v, m, i, r)

    by_parts :
        (o : Option Params)
        → ((q : Params) → o ≡ some q → IsInRange q)
        → and_then o required ≡ some p
        → IsInRange p × (0 < p.mem) × (0 < p.iters) × (0 < p.par)
    by_parts none v h = absurd (ground (arith, h))
    by_parts (some q) v h = by_required q (v q refl) h

    by_prefix :
        (o : Option Bytes)
        → parse_rest o ≡ some p
        → IsInRange p × (0 < p.mem) × (0 < p.iters) × (0 < p.par)
    by_prefix none h = absurd (ground (arith, h))
    by_prefix (some rest) h =
        by_parts (put_parts (split_commas rest) default_params)
          (λ q. put_parts-IsInRange (split_commas rest) default_params q (record {
            mem = omega arith;
            iters = omega arith;
            par = omega arith;
            key_len = omega arith;
          }))
          h
