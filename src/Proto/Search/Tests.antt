-- ===== src/Proto/Search/Tests.antt =====
-- A needle in the middle.
use prm.Prelude.{◌≡◌, refl, true, [], ◌∷◌}
use prm.Storage.{Bytes}
use prm.Proto.Search.{bytes_contains, search, starts_with}

abbrev hay : Bytes
hay = 1 ∷ 2 ∷ 3 ∷ []

middle_found : bytes_contains hay (2 ∷ []) ≡ true
unfolding bytes_contains search starts_with
middle_found = refl
