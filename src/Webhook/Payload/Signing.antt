-- ===== src/Webhook/Payload/Signing.antt =====
-- A header verifies with the body and the secret that it was made with, and with nothing that has
-- another MAC.
use prm.Prelude.{
  ℤ, ◌≡◌, ◌≢◌, ◌≤◌, refl, ap, ◌∙◌, Bool, true, false, none, some, [], ◌∷◌, ◌++◌, ◌||◌, All, All-imp,
  is_empty, if◌then◌else◌,
}
use native.Mathlib.Omega.{arith}
use prm.Storage.{Bytes}
use prm.Auth.Parameters.{bytes_beq, strip_prefix}
use prm.Auth.Parameters.Splitting.{
  split_commas_self, split_commas-comma, strip_prefix-append, CommaFree,
}
use prm.Webhook.Payload.{
  Calls, time_tag, mac_tag, sign, header, take_part, take_mac, take_parts, read_pair, with_time,
  parse_signature_header, matches, verify,
}

-- Visible ASCII characters other than the comma.
abbrev pub IsToken : Bytes → Type 0
IsToken = All (λ c. (33 ≤ c) × (c ≤ 126) × (c ≢ 44))

-- What the packages promise: the decimal text of a number and a hexadecimal MAC are tokens and not
-- empty, the text is read back as the number, and a token has no space to trim.
pub record Lawful (calls : Calls) : Type 0 where
  pub mac_token : (secret message : Bytes) → IsToken (calls.hex_mac secret message)
  pub mac_full : (secret message : Bytes) → is_empty (calls.hex_mac secret message) ≡ false
  pub int_token : (t : ℤ) → IsToken (calls.format_int t)
  pub int_full : (t : ℤ) → is_empty (calls.format_int t) ≡ false
  pub int_back : (t : ℤ) → calls.parse_int (calls.format_int t) ≡ some t
  pub trim_token : (xs : Bytes) → IsToken xs → calls.trim_space xs ≡ xs

pub bytes_beq_self : (xs : Bytes) → bytes_beq xs xs ≡ true
unfolding bytes_beq
bytes_beq_self [] = refl
bytes_beq_self (x ∷ xs) = ground (arith, bytes_beq_self xs)

comma_free : (xs : Bytes) → IsToken xs → CommaFree xs
comma_free xs h = All-imp (λ c k. k.2) xs h

time-IsToken : (xs : Bytes) → IsToken xs → IsToken (time_tag ++ xs)
time-IsToken xs h = (
  (omega arith, omega arith, λ e. absurd (omega (arith, e))),
  ((omega arith, omega arith, λ e. absurd (omega (arith, e))), h),
)

mac-IsToken : (xs : Bytes) → IsToken xs → IsToken (mac_tag ++ xs)
mac-IsToken xs h = (
  (omega arith, omega arith, λ e. absurd (omega (arith, e))),
  (
    (omega arith, omega arith, λ e. absurd (omega (arith, e))),
    ((omega arith, omega arith, λ e. absurd (omega (arith, e))), h),
  ),
)

module _ (calls : Calls) where
  take_part-time : (t v u : Bytes) → take_part calls (t, v) (time_tag ++ u) ≡ (u, v)
  unfolding take_part
  take_part-time t v u =
      ap
        (λ o. elim o [
          | some w ↦ (w, v)
          | none ↦ take_mac calls (t, v) (strip_prefix mac_tag (time_tag ++ u))
        ])
        (strip_prefix-append time_tag u)

  take_part-mac : (t v u : Bytes) → take_part calls (t, v) (mac_tag ++ u) ≡ (t, u)
  unfolding take_part take_mac strip_prefix
  take_part-mac t v u = ap (take_mac calls (t, v)) (strip_prefix-append mac_tag u)

  read_pair_lem :
      (i v : Bytes) (t : ℤ)
      → is_empty i ≡ false
      → is_empty v ≡ false
      → calls.parse_int i ≡ some t
      → read_pair calls (i, v) ≡ some (t, v)
  unfolding read_pair with_time
  read_pair_lem i v t p q r = by_test (is_empty i) (is_empty v) p q
    where
      by_test :
          (a b : Bool)
          → a ≡ false
          → b ≡ false
          → (if a || b then none else with_time calls v (calls.parse_int i)) ≡ some (t, v)
      by_test false false p q = ap (with_time calls v) r
      by_test true b p q = absurd (ground (arith, p))
      by_test false true p q = absurd (ground (arith, q))

module _ (calls : Calls) (lawful : Lawful calls) where
  trimmed :
      (tv : Bytes × Bytes) (xs : Bytes)
      → IsToken xs
      → take_part calls tv (calls.trim_space xs) ≡ take_part calls tv xs
  trimmed tv xs h = ap (take_part calls tv) (lawful.trim_token xs h)

  parse-header :
      (t : ℤ) (v : Bytes)
      → IsToken v
      → is_empty v ≡ false
      → parse_signature_header calls (header calls (record { t = t; v = v })) ≡ some (t, v)
  unfolding parse_signature_header header take_parts
  parse-header t v h k =
      let i = calls.format_int t in
      let n = time-IsToken i (lawful.int_token t) in
      let m = mac-IsToken v h in
      let split =
        split_commas-comma (time_tag ++ i) (mac_tag ++ v) (comma_free (time_tag ++ i) n)
        ∙ ap (λ l. (time_tag ++ i) ∷ l)
            (split_commas_self (mac_tag ++ v) (comma_free (mac_tag ++ v) m)) in
      ap (λ l. read_pair calls (take_parts calls ([], []) l)) split
      ∙ ap (λ tv. read_pair calls (take_part calls tv (calls.trim_space (mac_tag ++ v))))
          (trimmed ([], []) (time_tag ++ i) n ∙ take_part-time calls [] [] i)
      ∙ ap (read_pair calls) (trimmed (i, []) (mac_tag ++ v) m ∙ take_part-mac calls i [] v)
      ∙ read_pair_lem calls i v t (lawful.int_full t) k (lawful.int_back t)

  -- Where the packages keep their promises, a header that was made for a body, a secret and a time
  -- verifies with that body and secret.
  pub verify-header :
      (body secret : Bytes) (ts : ℤ)
      → verify calls (header calls (sign calls body secret ts)) body secret ≡ true
  unfolding verify sign matches
  verify-header body secret ts =
      let mac = calls.hex_mac secret (calls.format_int ts ++ 46 ∷ body) in
      ap (matches calls body secret)
        (parse-header ts mac (lawful.mac_token secret _) (lawful.mac_full secret _))
      ∙ bytes_beq_self mac
