-- ===== src/Proto/Search.antt =====
-- The substring search, written out in internal/proto/codec.go and again in
-- internal/inbound/adapters/splunk.go.
pub mod Infix
mod Tests
use prm.Prelude.{
  ℕ, zero, suc, ◌+◌, ◌-◌, Bool, true, false, ◌&&◌, List, [], ◌∷◌, ltb, nat_beq, if◌then◌else◌,
  length,
}
use prm.Storage.{Bytes}

-- The inner loop: the needle at the head of the haystack.
starts_with : Bytes → Bytes → Bool
starts_with hay [] = true
starts_with [] (n ∷ needle) = false
starts_with (h ∷ hay) (n ∷ needle) = nat_beq h n && starts_with hay needle

-- The outer loop, with `k` places left.
search : ℕ → Bytes → Bytes → Bool
unfolding starts_with
search zero hay needle = false
search (suc k) [] needle = starts_with [] needle
search (suc k) (h ∷ hay) needle =
    let later = search k hay needle in if starts_with (h ∷ hay) needle then true else later

unfoldable pub bytes_contains : Bytes → Bytes → Bool
unfolding search
bytes_contains hay [] = true
bytes_contains hay (n ∷ needle) =
    if ltb (length hay) (length (n ∷ needle))
    then false
    else search (length hay - length (n ∷ needle) + 1) hay (n ∷ needle)
