-- ===== src/Auth/Parameters.antt =====
-- The parameters of a stored password hash: "argon2id,m=65536,t=3,p=1,k=32", as bytes.
pub mod Bounds
pub mod Splitting
mod Tests
use prm.Prelude.{
  ℕ, zero, suc, ◌+◌, ◌-◌, ◌*◌, ◌%◌, ◌^◌, ◌≤◌, ◌<◌, ◌≡◌, ◌↔◌, ◌⊎◌, inl, inr, refl, ap, subst, sym,
  Bool, true, false, ◌&&◌, ◌||◌, Option, none, some, List, [], ◌∷◌, ltb, leb, nat_beq,
  if◌then◌else◌, Bool-cases, Option-cases,
}
use native.Mathlib.Omega.{arith}
use prm.Storage.{Bytes}

pub record Params : Type 0 where
  pub mem : ℕ
  pub iters : ℕ
  pub par : ℕ
  pub key_len : ℕ

-- The comparison of two byte strings, also `subtle.ConstantTimeCompare`.
unfoldable pub bytes_beq : Bytes → Bytes → Bool
bytes_beq [] [] = true
bytes_beq [] (y ∷ ys) = false
bytes_beq (x ∷ xs) [] = false
bytes_beq (x ∷ xs) (y ∷ ys) = nat_beq x y && bytes_beq xs ys

-- "argon2id,"
abbrev prefix : Bytes
prefix = 97 ∷ 114 ∷ 103 ∷ 111 ∷ 110 ∷ 50 ∷ 105 ∷ 100 ∷ 44 ∷ []

-- `strings.HasPrefix` and `strings.TrimPrefix` at once.
unfoldable pub strip_prefix : Bytes → Bytes → Option Bytes
strip_prefix [] s = some s
strip_prefix (p ∷ ps) [] = none
strip_prefix (p ∷ ps) (c ∷ cs) = let rest = strip_prefix ps cs in if nat_beq p c then rest else none

-- `c` in front of the first part.
grow : ℕ → List Bytes → List Bytes
grow c [] = (c ∷ []) ∷ []
grow c (part ∷ parts) = (c ∷ part) ∷ parts

-- `strings.Split(s, ",")`
unfoldable pub split_commas : Bytes → List Bytes
unfolding grow
split_commas [] = [] ∷ []
split_commas (c ∷ cs) =
    let parts = split_commas cs in if nat_beq c 44 then [] ∷ parts else grow c parts

before : ℕ → Bytes × Bytes → Bytes × Bytes
before c (k, v) = (c ∷ k, v)

-- What is before and after the first '='.
split_eq : Bytes → Option (Bytes × Bytes)
unfolding before
split_eq [] = none
split_eq (c ∷ cs) =
    let rest = split_eq cs in
    if nat_beq c 61 then some ([], cs) else elim rest [ none ↦ none | some kv ↦ some (before c kv) ]

digits : ℕ → Bytes → Option ℕ
digits n [] = some n
digits n (c ∷ cs) =
    let rest = digits (n * 10 + (c - 48)) cs in if leb 48 c && leb c 57 then rest else none

-- `strconv.ParseUint(v, 10, 32)`: at least one digit, digits only, below 2^32.
parse_uint32 : Bytes → Option ℕ
unfolding digits
parse_uint32 [] = none
parse_uint32 (c ∷ cs) = elim (digits 0 (c ∷ cs)) [
  | none ↦ none
  | some n ↦ if ltb n (2 ^ 32) then some n else none
]

-- One `switch k`: the keys "m", "t", "p", "k".
assign : Params → Bytes → ℕ → Params
assign p [] n = p
assign p (c ∷ []) n =
    if nat_beq c 109
    then record p { mem = n }
    else if nat_beq c 116
    then record p { iters = n }
    else if nat_beq c 112
    then record p { par = n % 256 }
    else if nat_beq c 107
    then record p { key_len = n }
    else p
assign p (c ∷ d ∷ cs) n = p

-- A part without '=' is skipped; a value that is no number is an error.
put_value : Params → Bytes → Option ℕ → Option Params
unfolding assign
put_value p k none = none
put_value p k (some n) = some (assign p k n)

put_part : Params → Option (Bytes × Bytes) → Option Params
unfolding put_value parse_uint32
put_part p none = some p
put_part p (some kv) = put_value p kv.0 (parse_uint32 kv.1)

and_then : Option Params → (Params → Option Params) → Option Params
and_then none f = none
and_then (some p) f = f p

put_parts : List Bytes → Params → Option Params
unfolding put_part split_eq and_then
put_parts [] p = some p
put_parts (kv ∷ kvs) p = and_then (put_part p (split_eq kv)) (put_parts kvs)

abbrev default_params : Params
default_params = record { mem = 0; iters = 0; par = 0; key_len = 32 }

-- The three that have no default.
required : Params → Option Params
required p = if nat_beq p.mem 0 || (nat_beq p.iters 0 || nat_beq p.par 0) then none else some p

parse_rest : Option Bytes → Option Params
unfolding put_parts split_commas required and_then
parse_rest none = none
parse_rest (some rest) = and_then (put_parts (split_commas rest) default_params) required

unfoldable pub parse_params : Bytes → Option Params
unfolding parse_rest strip_prefix
parse_params s = parse_rest (strip_prefix prefix s)
