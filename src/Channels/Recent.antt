-- ===== src/Channels/Recent.antt =====
-- What `RecentMessages` returns of the messages that a channel remembers.
use Prim.Native.String.{String}
use mathlib.Core.List.{reverse-cons, append_assoc}
use prm.Prelude.{
  ℕ, zero, suc, ◌+◌, ◌≤◌, min, ◌≡◌, refl, ap, ◌∙◌, false, List, [], ◌∷◌, ◌++◌, reverse, arith,
  get_or, take, All, append-nil, ℤ, pos, negsuc, to_nat,
}
use prm.Channels.{
  HistoryEntry, Channel, zero_entry, default_history_size, new_channel, is_unused, slot, walk_back,
  clamp, recent_messages,
}
use prm.Channels.Ring.{Remembers, Remembers-new_channel, Remembers-append_all, append_all}

-- The test that the walk stops at does not fire on a message.
abbrev pub IsMessage : HistoryEntry → Type 0
IsMessage e = is_unused e ≡ false

-- The walk from the `i`-th newest message, over a suffix `rest` of the log.
record Suffix (log : List HistoryEntry) (i : ℕ) (rest : List HistoryEntry) : Type 0 where
  at : (j : ℕ) → get_or log (i + j) zero_entry ≡ get_or rest j zero_entry

Suffix-tail :
    {log rest : List HistoryEntry} {i : ℕ} {e : HistoryEntry}
    → Suffix log i (e ∷ rest)
    → Suffix log (i + 1) rest
Suffix-tail {log} {i} s = record {
  at = λ j. ap (λ k. get_or log k zero_entry) (omega arith) ∙ s.at (suc j);
}

Suffix-head :
    {log rest : List HistoryEntry} {i : ℕ}
    → Suffix log i rest
    → get_or log i zero_entry ≡ get_or rest 0 zero_entry
Suffix-head {log} {i} s = ap (λ k. get_or log k zero_entry) (omega arith) ∙ s.at 0

walk_back-eq-take :
    {c : Channel} {log : List HistoryEntry} (i k : ℕ) (rest : List HistoryEntry)
    → Remembers c log
    → All IsMessage rest
    → Suffix log i rest
    → i + k ≤ default_history_size
    → walk_back c i k ≡ take k rest
unfolding walk_back
walk_back-eq-take i zero rest r a s h = refl
walk_back-eq-take {c} {log} i (suc k) [] r a s h =
    let stop : slot c i ≡ zero_entry = r.at i (omega arith) ∙ Suffix-head s in rw stop
walk_back-eq-take {c} {log} i (suc k) (e ∷ rest) r a s h =
    let found : slot c i ≡ e = r.at i (omega arith) ∙ Suffix-head s in
    let rec : walk_back c (i + 1) k ≡ take k rest =
      walk_back-eq-take (i + 1) k rest r a.1 (Suffix-tail s) (omega arith) in
    rw (found, a.0, rec)

clamp-eq-min : (n d : ℕ) → clamp n d ≡ min n d
clamp-eq-min n d = ground arith

recent_of_log :
    {c : Channel} {log : List HistoryEntry} (n : ℤ)
    → Remembers c log
    → All IsMessage log
    → recent_messages c n ≡ reverse (take (min (to_nat n) default_history_size) log)
unfolding recent_messages
recent_of_log (pos zero) r a = refl
recent_of_log {c} {log} (pos (suc n)) r a =
    rw (r.depth, clamp-eq-min (suc n) 32)
      (ap reverse (
        walk_back-eq-take 0 (min (suc n) 32) log r a
          (record { at = λ j. ap (λ k. get_or log k zero_entry) (omega arith) }) (omega arith)))
recent_of_log (negsuc n) r a = refl

All-reverse :
    (xs ys : List HistoryEntry)
    → All IsMessage xs
    → All IsMessage ys
    → All IsMessage (reverse xs ++ ys)
All-reverse [] ys a b = b
All-reverse (x ∷ xs) ys a b = rw (reverse-cons, append_assoc) (All-reverse xs (x ∷ ys) a.1 (a.0, b))

-- After the messages `es`, oldest first, on a new channel, `RecentMessages(n)` returns the last
-- `min n 32` of them, oldest first; for a negative `n` it returns none. The condition is that no
-- message has both a zero time and an empty body, which marks a slot as unused.
pub recent_messages-append_all :
    (tenant_id id : ℕ) (name : String) (es : List HistoryEntry) (n : ℤ)
    → All IsMessage es
    → recent_messages (append_all (new_channel tenant_id id name) es) n
      ≡ reverse (take (min (to_nat n) default_history_size) (reverse es))
recent_messages-append_all t i name es n a =
    let r : Remembers (append_all (new_channel t i name) es) (reverse es ++ []) =
      Remembers-append_all (new_channel t i name) [] es (Remembers-new_channel t i name) in
    rw (append-nil (reverse es)) at (recent_of_log n r (All-reverse es [] a tt))
