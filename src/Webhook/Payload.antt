-- ===== src/Webhook/Payload.antt =====
-- internal/webhook/payload.go: the signature of a delivery. `calls` is what the file calls: the
-- hexadecimal HMAC-SHA256 of a message under a secret, the decimal text of a time and its reading, and
-- `strings.TrimSpace`.
pub mod Signing
mod Tests
use prm.Prelude.{
  ℤ, Bool, true, false, ◌||◌, Option, none, some, List, [], ◌∷◌, ◌++◌, is_empty, if◌then◌else◌,
}
use prm.Storage.{Bytes}
use prm.Auth.Parameters.{bytes_beq, split_commas, strip_prefix}

pub record Calls : Type 0 where
  pub hex_mac : Bytes → Bytes → Bytes
  pub format_int : ℤ → Bytes
  pub parse_int : Bytes → Option ℤ
  pub trim_space : Bytes → Bytes

pub record Signature : Type 0 where
  pub t : ℤ
  pub v : Bytes

-- "t=" and "v1="
abbrev pub time_tag : Bytes
time_tag = 116 ∷ 61 ∷ []

abbrev pub mac_tag : Bytes
mac_tag = 118 ∷ 49 ∷ 61 ∷ []

module _ (calls : Calls) where
  -- What is signed is `<t>.<body>`.
  unfoldable pub sign : Bytes → Bytes → ℤ → Signature
  sign body secret ts = record {
    t = ts;
    v = calls.hex_mac secret (calls.format_int ts ++ 46 ∷ body);
  }

  unfoldable pub header : Signature → Bytes
  header s = (time_tag ++ calls.format_int s.t) ++ 44 ∷ (mac_tag ++ s.v)

  -- One turn of the loop, with the texts of the time and of the MAC.
  take_mac : Bytes × Bytes → Option Bytes → Bytes × Bytes
  take_mac (t, v) none = (t, v)
  take_mac (t, v) (some w) = (t, w)

  take_part : Bytes × Bytes → Bytes → Bytes × Bytes
  unfolding take_mac
  take_part (t, v) part = elim (strip_prefix time_tag part) [
    | some u ↦ (u, v)
    | none ↦ take_mac (t, v) (strip_prefix mac_tag part)
  ]

  take_parts : Bytes × Bytes → List Bytes → Bytes × Bytes
  unfolding take_part
  take_parts tv [] = tv
  take_parts tv (part ∷ parts) = take_parts (take_part tv (calls.trim_space part)) parts

  with_time : Bytes → Option ℤ → Option (ℤ × Bytes)
  with_time v none = none
  with_time v (some t) = some (t, v)

  read_pair : Bytes × Bytes → Option (ℤ × Bytes)
  unfolding with_time
  read_pair (t, v) = if is_empty t || is_empty v then none else with_time v (calls.parse_int t)

  unfoldable pub parse_signature_header : Bytes → Option (ℤ × Bytes)
  unfolding take_parts read_pair
  parse_signature_header h = read_pair (take_parts ([], []) (split_commas h))

  matches : Bytes → Bytes → Option (ℤ × Bytes) → Bool
  matches body secret none = false
  matches body secret (some (t, v)) = bytes_beq (sign body secret t).v v

  unfoldable pub verify : Bytes → Bytes → Bytes → Bool
  unfolding matches
  verify h body secret = matches body secret (parse_signature_header h)
