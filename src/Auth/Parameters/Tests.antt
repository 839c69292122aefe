-- ===== src/Auth/Parameters/Tests.antt =====
-- The parameters of the design, with a smaller memory.
use prm.Prelude.{◌≡◌, ◌<◌, refl, some, [], ◌∷◌}
use prm.Storage.{Bytes}
use prm.Auth.Parameters.{
  Params, parse_params, parse_rest, strip_prefix, split_commas, grow, split_eq, before, digits,
  parse_uint32, assign, put_value, put_part, put_parts, and_then, required,
}
use prm.Auth.Parameters.Bounds.{IsInRange, parse_params-IsInRange}

-- "argon2id,m=64,t=3,p=1"
abbrev params : Bytes
params =
    97 ∷ 114 ∷ 103 ∷ 111 ∷ 110 ∷ 50 ∷ 105 ∷ 100 ∷ 44 ∷ 109 ∷ 61 ∷ 54 ∷ 52 ∷ 44 ∷ 116 ∷ 61 ∷ 51 ∷ 44
    ∷ 112 ∷ 61 ∷ 49 ∷ []

abbrev parsed : Params
parsed = record { mem = 64; iters = 3; par = 1; key_len = 32 }

params-parse : parse_params params ≡ some parsed
unfolding parse_params parse_rest strip_prefix split_commas grow split_eq before digits parse_uint32
    assign put_value put_part put_parts and_then required
params-parse = refl

parse_params-IsInRange_example : IsInRange parsed × (0 < 64) × (0 < 3) × (0 < 1)
parse_params-IsInRange_example = parse_params-IsInRange params parsed params-parse
