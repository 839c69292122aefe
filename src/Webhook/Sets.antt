-- ===== src/Webhook/Sets.antt =====
-- `map[uuid.UUID]map[uuid.UUID]struct{}` of internal/webhook/manager.go, which holds the pauses and
-- the channel index: the members of a channel, where a channel with none has no entry.
use prm.Prelude.{
  ◌≡◌, ◌≢◌, refl, sym, ◌∙◌, Bool, true, false, ◌&&◌, Option, none, some, [], ◌∷◌, arith,
  if◌then◌else◌, ◌==◌, nat_eq, is_empty, Assoc, lookup, insert, delete, lookup-insert,
  lookup-delete,
}
use prm.Channels.{Uuid, is_some}

abbrev pub IdSet : Type 0
IdSet = Assoc Uuid (Unit {0})

abbrev pub Sets : Type 0
Sets = Assoc Uuid IdSet

abbrev pub or_empty : Option IdSet → IdSet
or_empty none = []
or_empty (some set) = set

-- `set, ok := m[c]`, then `_, ok = set[i]`.
unfoldable pub has : Uuid → Uuid → Sets → Bool
has c i m = is_some (lookup i (or_empty (lookup c m)))

-- A missing set is made.
unfoldable pub add_to : Uuid → Uuid → Sets → Sets
add_to c i m = insert c (insert i tt (or_empty (lookup c m))) m

put_back : Uuid → IdSet → Bool → Sets → Sets
put_back c set true m = delete c m
put_back c set false m = insert c set m

drop_found : Uuid → Uuid → Option IdSet → Sets → Sets
drop_found c i none m = m
drop_found c i (some set) m = let rest = delete i set in put_back c rest (is_empty rest) m

-- A set that is left empty is dropped.
unfoldable pub drop_from : Uuid → Uuid → Sets → Sets
unfolding drop_found put_back
drop_from c i m = drop_found c i (lookup c m) m

pub has-add_to :
    (c i d j : Uuid) (m : Sets)
    → has d j (add_to c i m) ≡ (if (c == d) && (i == j) then true else has d j m)
unfolding has add_to
has-add_to c i d j m =
    let set = or_empty (lookup c m) in
    rw (lookup-insert c d (insert i tt set) m) (ground (arith, lookup-insert i j tt set))

lookup-put_back :
    (c d : Uuid) (set : IdSet) (b : Bool) (m : Sets)
    → is_empty set ≡ b
    → or_empty (lookup d (put_back c set b m)) ≡ (if c == d then set else or_empty (lookup d m))
unfolding put_back
lookup-put_back c d [] true m e = simp lookup-delete (ground arith)
lookup-put_back c d (x ∷ set) true m e = cc
lookup-put_back c d set false m e = simp lookup-insert (ground arith)

has-drop_found :
    (c i d j : Uuid) (o : Option IdSet) (m : Sets)
    → lookup c m ≡ o
    → has d j (drop_found c i o m) ≡ (if (c == d) && (i == j) then false else has d j m)
unfolding has drop_found lookup
has-drop_found c i d j none m e = ground arith
has-drop_found c i d j (some set) m e =
    rw (lookup-put_back c d (delete i set) (is_empty (delete i set)) m refl)
      (ground (arith, lookup-delete i j set))

pub has-drop_from :
    (c i d j : Uuid) (m : Sets)
    → has d j (drop_from c i m) ≡ (if (c == d) && (i == j) then false else has d j m)
unfolding drop_from
has-drop_from c i d j m = has-drop_found c i d j (lookup c m) m refl

-- No channel is kept with an empty set.
pub record IsLean (m : Sets) : Type 0 where
  pub at : (c : Uuid) → lookup c m ≢ some []

pub IsLean-add_to : (c i : Uuid) (m : Sets) → IsLean m → IsLean (add_to c i m)
unfolding add_to lookup
IsLean-add_to c i m l = record {
  at = λ d h.
      let e = sym (lookup-insert c d (insert i tt (or_empty (lookup c m))) m) ∙ h in
      ground (arith, l.at d, lookup-insert i i tt (or_empty (lookup c m)));
}

IsLean-put_back :
    (c : Uuid) (set : IdSet) (b : Bool) (m : Sets)
    → is_empty set ≡ b
    → IsLean m
    → IsLean (put_back c set b m)
unfolding put_back
IsLean-put_back c set true m e l = record {
  at = λ d h. let k = sym (lookup-delete c d m) ∙ h in ground (arith, l.at d);
}
IsLean-put_back c [] false m e l = cc
IsLean-put_back c (x ∷ set) false m e l = record {
  at = λ d h. let k = sym (lookup-insert c d (x ∷ set) m) ∙ h in ground (arith, l.at d);
}

IsLean-drop_found :
    (c i : Uuid) (o : Option IdSet) (m : Sets) → IsLean m → IsLean (drop_found c i o m)
unfolding drop_found
IsLean-drop_found c i none m l = l
IsLean-drop_found c i (some set) m l =
    IsLean-put_back c (delete i set) (is_empty (delete i set)) m refl l

pub IsLean-drop_from : (c i : Uuid) (m : Sets) → IsLean m → IsLean (drop_from c i m)
unfolding drop_from
IsLean-drop_from c i m l = IsLean-drop_found c i (lookup c m) m l
