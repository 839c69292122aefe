-- ===== src/Mention/Distinct.antt =====
-- Each account is mentioned once.
use prm.Prelude.{
  ℕ, ◌+◌, ◌≤◌, String, ◌≡◌, refl, false, Option, none, some, List, [], ◌∷◌, ◌++◌, if◌then◌else◌,
  ◌==◌, nat_eq, any, Bool-cases, inl, inr,
}
use native.Mathlib.Omega.{arith}
use prm.Channels.{Uuid}
use prm.Storage.{Store}
use prm.Mention.{Reader, add_id, token_id, resolve_tokens, resolve}

-- How often `id` stands in a list.
abbrev pub times : Uuid → List Uuid → ℕ
times id [] = 0
times id (x ∷ xs) = (if x == id then 1 else 0) + times id xs

times-append : (id : Uuid) (xs ys : List Uuid) → times id (xs ++ ys) ≡ times id xs + times id ys
times-append id [] ys = omega arith
times-append id (x ∷ xs) ys = omega (arith, times-append id xs ys)

times-absent : (id : Uuid) (xs : List Uuid) → any (λ x. x == id) xs ≡ false → times id xs ≡ 0
times-absent id [] e = refl
times-absent id (x ∷ xs) e =
    let head : (x == id) ≡ false = ground (arith, e) in
    let tail : any (λ y. y == id) xs ≡ false = ground (arith, e) in
    rw head (omega (arith, times-absent id xs tail))

times-add_id :
    (i : Uuid) (out : List Uuid) (o : Option Uuid) → times i out ≤ 1 → times i (add_id out o) ≤ 1
unfolding add_id
times-add_id i out none h = h
times-add_id i out (some id) h = elim (Bool-cases (any (λ x. x == id) out)) [
  | inl old ↦ rw old h
  | inr new ↦ rw (new, times-append i out (id ∷ [])) (ground (arith, times-absent id out new))
]

module _ {S : Type 0} (store : Store S) (st : S) (reader : Reader) (tenant_id : Uuid) where
  times-resolve_tokens :
      (i : Uuid) (out : List Uuid) (tokens : List String)
      → times i out ≤ 1
      → times i (resolve_tokens store st reader tenant_id out tokens) ≤ 1
  unfolding resolve_tokens
  times-resolve_tokens i out [] h = h
  times-resolve_tokens i out (token ∷ tokens) h =
      let o = token_id store st reader tenant_id (reader.parse_uuid token) token in
      times-resolve_tokens i (add_id out o) tokens (times-add_id i out o h)

  -- No account stands twice in what the mentions of a message resolve to, whatever the message.
  pub times-resolve :
      (i : Uuid) (body : String) → times i (resolve store st reader tenant_id body) ≤ 1
  unfolding resolve
  times-resolve i body = elim (Bool-cases (reader.has_at body)) [
    | inl at ↦ rw at (times-resolve_tokens i [] (reader.tokens body) (omega arith))
    | inr off ↦ rw off (omega arith)
  ]
