-- ===== src/Webhook/Payload/Tests.antt =====
-- A signature with a MAC that is always "a" and times in unary.
use prm.Prelude.{
  ℕ, zero, suc, ℤ, pos, negsuc, ◌≡◌, refl, ap, true, Option, some, none, [], ◌∷◌, replicate, length,
  length-replicate, nat_beq, if◌then◌else◌, is_empty, false,
}
use native.Mathlib.Omega.{arith}
use prm.Storage.{Bytes}
use prm.Webhook.Payload.{Calls, sign, header, verify}
use prm.Webhook.Payload.Signing.{IsToken, Lawful, verify-header}

abbrev unary : ℤ → Bytes
unary (pos n) = 43 ∷ replicate n 49
unary (negsuc n) = 45 ∷ replicate n 49

abbrev read_unary : Bytes → Option ℤ
read_unary [] = none
read_unary (c ∷ xs) = if nat_beq c 43 then some (pos (length xs)) else some (negsuc (length xs))

abbrev calls : Calls
calls = record {
  hex_mac = λ secret message. 97 ∷ [];
  format_int = unary;
  parse_int = read_unary;
  trim_space = λ xs. xs;
}

ones-IsToken : (n : ℕ) → IsToken (replicate n 49)
ones-IsToken zero = tt
ones-IsToken (suc n) = ((omega arith, omega arith, λ e. absurd (omega (arith, e))), ones-IsToken n)

unary-IsToken : (t : ℤ) → IsToken (unary t)
unary-IsToken (pos n) = ((omega arith, omega arith, λ e. absurd (omega (arith, e))), ones-IsToken n)
unary-IsToken (negsuc n) =
    ((omega arith, omega arith, λ e. absurd (omega (arith, e))), ones-IsToken n)

read-unary : (t : ℤ) → read_unary (unary t) ≡ some t
read-unary (pos n) = ap (λ k. some (pos k)) (length-replicate n 49)
read-unary (negsuc n) = ap (λ k. some (negsuc k)) (length-replicate n 49)

unary-full : (t : ℤ) → is_empty (unary t) ≡ false
unary-full (pos n) = refl
unary-full (negsuc n) = refl

calls-Lawful : Lawful calls
calls-Lawful = record {
  mac_token = λ secret message. ((omega arith, omega arith, λ e. absurd (omega (arith, e))), tt);
  mac_full = λ secret message. refl;
  int_token = unary-IsToken;
  int_full = unary-full;
  int_back = read-unary;
  trim_token = λ xs h. refl;
}

verify-header_example :
    verify calls (header calls (sign calls (104 ∷ []) (1 ∷ []) (pos 5))) (104 ∷ []) (1 ∷ []) ≡ true
verify-header_example = verify-header calls calls-Lawful (104 ∷ []) (1 ∷ []) (pos 5)
