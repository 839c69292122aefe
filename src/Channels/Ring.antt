-- ===== src/Channels/Ring.antt =====
-- The history ring refines the list of all messages: what a channel remembers, newest first.
use Prim.Native.String.{String}
use mathlib.Core.List.{reverse-cons}
use prm.Prelude.{
  ℕ, zero, suc, ◌+◌, ◌-◌, ◌%◌, ◌<◌, ◌≡◌, ◌≢◌, refl, ◌∙◌, List, [], ◌∷◌, ◌++◌, reverse, arith,
  length, get_or, length-set, get_or-set_self, get_or-set_ne, get_or-replicate, append_assoc,
}
use prm.Channels.{
  Channel, HistoryEntry, zero_entry, default_history_size, new_channel, append_history, slot,
}

-- `log` is every message so far, newest first; slot `i` of the ring holds the `i`-th of them.
pub record Remembers (c : Channel) (log : List HistoryEntry) : Type 0 where
  pub depth : length c.hist ≡ default_history_size
  pub in_range : c.hist_pos < default_history_size
  pub at : (i : ℕ) → i < default_history_size → slot c i ≡ get_or log i zero_entry

pub Remembers-new_channel : (t i : ℕ) (n : String) → Remembers (new_channel t i n) []
unfolding new_channel
Remembers-new_channel t i n = record {
  depth = refl;
  in_range = omega arith;
  at = λ j h. get_or-replicate 32 zero_entry ((0 + 32 - 1 - j) % 32);
}

-- Where the entry `i + 1` steps back lies after a message: where the one `i` steps back lay.
step_back :
    (p d i : ℕ)
    → d ≡ 32
    → p < 32
    → suc i < 32
    → ((p + 1) % d + d - 1 - suc i) % d ≡ (p + d - 1 - i) % d
step_back p d i e h k = rw e (omega arith)

newest : (p d : ℕ) → d ≡ 32 → p < 32 → ((p + 1) % d + d - 1 - 0) % d ≡ p
newest p d e h = rw e (omega arith)

apart : (p d i : ℕ) → d ≡ 32 → p < 32 → suc i < 32 → p ≢ (p + d - 1 - i) % d
apart p d i e h k = rw e (omega arith)

slot_new :
    {c : Channel} {log : List HistoryEntry} (e : HistoryEntry)
    → Remembers c log
    → slot (append_history c e) 0 ≡ e
unfolding append_history
slot_new {c} e r =
    rw (length-set c.hist c.hist_pos e, newest c.hist_pos (length c.hist) r.depth r.in_range)
      (get_or-set_self c.hist c.hist_pos e zero_entry (omega (arith, r.depth, r.in_range)))

slot_old :
    {c : Channel} {log : List HistoryEntry} (e : HistoryEntry) (i : ℕ)
    → Remembers c log
    → suc i < default_history_size
    → slot (append_history c e) (suc i) ≡ slot c i
unfolding append_history
slot_old {c} e i r h =
    rw (length-set c.hist c.hist_pos e, step_back c.hist_pos (length c.hist) i r.depth r.in_range h)
      (get_or-set_ne c.hist c.hist_pos _ e zero_entry
        (apart c.hist_pos (length c.hist) i r.depth r.in_range h))

-- Appending a message to the ring appends it to what the channel remembers.
pub Remembers-append_history :
    {c : Channel} {log : List HistoryEntry} (e : HistoryEntry)
    → Remembers c log
    → Remembers (append_history c e) (e ∷ log)
Remembers-append_history {c} {log} e r = record {
  depth = unfold append_history in length-set c.hist c.hist_pos e ∙ r.depth;
  in_range = unfold append_history in rw r.depth (omega arith);
  at = old;
}
  where
    old :
        (i : ℕ)
        → i < default_history_size
        → slot (append_history c e) i ≡ get_or (e ∷ log) i zero_entry
    old zero h = slot_new e r
    old (suc i) h = slot_old e i r h ∙ r.at i (omega arith)

abbrev pub append_all : Channel → List HistoryEntry → Channel
append_all c [] = c
append_all c (e ∷ es) = append_all (append_history c e) es

pub Remembers-append_all :
    (c : Channel) (log es : List HistoryEntry)
    → Remembers c log
    → Remembers (append_all c es) (reverse es ++ log)
Remembers-append_all c log [] r = r
Remembers-append_all c log (e ∷ es) r =
    rw (reverse-cons, append_assoc)
      (Remembers-append_all (append_history c e) (e ∷ log) es (Remembers-append_history e r))
