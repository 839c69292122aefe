-- ===== src/Subops/Tests.antt =====
-- The sample row, asked for by its owner and by another account.
use prm.Prelude.{◌≡◌, refl, none, some, ok, err}
use native.Mathlib.Omega.{arith}
use prm.Storage.{Account}
use prm.Subops.{not_owner, Env, UpdateInput, get, get_by, owned, update, delete}
use prm.Subops.Isolation.{not_owner-all}
use prm.Samples.{rows, permissive_engine, robot, acme, stored_row}

abbrev env : Env
env = record {
  engine = permissive_engine;
  parse_budget = λ json. none;
  reader = record { parse = λ raw. none; to_lower = λ s. s; trim_slash = λ s. s };
  parse_uuid = λ text. some 40;
}

row-found : get rows env tt acme robot "40" ≡ ok stored_row
unfolding get get_by owned
row-found = refl

abbrev stranger : Account
stranger = record robot { id = 8 }

abbrev enable : UpdateInput
enable = record {
  url = none;
  match_json = none;
  events = none;
  context_lines = none;
  debounce_ms = none;
  cooldown_ms = none;
  budget = none;
  disabled = none;
}

not_owner-all_example :
    (get rows env tt acme stranger "40" ≡ err not_owner)
    × (update rows env 5 tt none acme stranger "40" enable ≡ (err not_owner, (tt, none)))
    × (delete rows env tt none acme stranger "40" ≡ (err not_owner, (tt, none)))
not_owner-all_example =
    not_owner-all rows env tt none 5 acme stranger "40" enable 40 stored_row refl refl (omega arith)
