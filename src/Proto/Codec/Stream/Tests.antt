-- ===== src/Proto/Codec/Stream/Tests.antt =====
-- Pings among blank lines, with a JSON that knows this one frame.
use prm.Prelude.{
  ℕ, ◌≡◌, ◌≢◌, ◌+◌, refl, ap, sym, ◌∙◌, Bool, true, false, Option, some, none, [], ◌∷◌, ◌++◌, any,
  length, ok, ◌==◌, nat_eq, string_eq, eq_iff, String, if◌then◌else◌,
}
use native.Mathlib.Omega.{arith}
use prm.Storage.{Bytes}
use prm.Proto.Kinds.{Frame, kind_of, frame_type}
use prm.Proto.Search.{bytes_contains}
use prm.Proto.Codec.{
  Json, eof, newline, line, encode_bytes, framed, marshal_with_type, typed, contains_type,
  max_frame_size,
}
use prm.Proto.Codec.Stream.{HasTypes, IsKept, IsScanned, Lines, decode_all, decode_all-Lines}

abbrev ping : Frame
ping = Frame.ping (record { id = ""; token = "t" })

abbrev untyped_text : Bytes
untyped_text = 123 ∷ 125 ∷ []

abbrev text : Bytes
text = 123 ∷ 34 ∷ 125 ∷ []

abbrev stamped_as : String → Option Bytes
stamped_as t = if t == "ping" then some text else none

abbrev one_json : Json
one_json = record {
  marshal = λ f. some untyped_text;
  stamp = λ bytes t. stamped_as t;
  envelope = λ bytes. some "ping";
  unmarshal = λ k bytes. some ping;
  needle = λ t. 34 ∷ [];
}

some_text : Option Bytes → Bytes
some_text none = text
some_text (some bytes) = bytes

stamped_lem :
    (t : String) (bytes : Bytes) → stamped_as t ≡ some bytes → (text ≡ bytes) × (t ≡ "ping")
unfolding some_text
stamped_lem t bytes e = by_test (t == "ping") refl e
  where
    by_test :
        (b : Bool)
        → (t == "ping") ≡ b
        → (if b then some text else none) ≡ some bytes
        → (text ≡ bytes) × (t ≡ "ping")
    by_test true a h = (ap some_text h, (eq_iff t "ping").0 a)
    by_test false a h = absurd (ground (arith, h))

one_json-HasTypes : HasTypes one_json
one_json-HasTypes = record {
  full = λ raw bytes t e. ground (arith, ap length (stamped_lem t bytes e).0);
  named = λ raw bytes t e. ap some (sym (stamped_lem t bytes e).1);
  one_line = λ raw bytes t e. ap (λ l. any (λ b. b == newline) l) (sym (stamped_lem t bytes e).0);
}

ping-IsKept : IsKept one_json ping
unfolding contains_type bytes_contains frame_type kind_of
ping-IsKept = record {
  raw = untyped_text;
  marshalled = refl;
  untyped = refl;
  kept = λ bytes e. refl;
}

ping-encoded : encode_bytes one_json ping ≡ ok (text ++ newline ∷ [])
unfolding encode_bytes framed marshal_with_type typed contains_type bytes_contains frame_type
    kind_of
ping-encoded = refl

but_last : Bytes → Bytes
but_last [] = []
but_last (x ∷ []) = []
but_last (x ∷ y ∷ l) = x ∷ but_last (y ∷ l)

but_last-append : (l : Bytes) (x : ℕ) → but_last (l ++ x ∷ []) ≡ l
unfolding but_last
but_last-append [] x = refl
but_last-append (y ∷ []) x = refl
but_last-append (y ∷ z ∷ l) x = ap (λ m. y ∷ m) (but_last-append (z ∷ l) x)

text-IsScanned : IsScanned (text ++ newline ∷ []) (line text)
text-IsScanned bytes e h k =
    ap line (sym (but_last-append text newline) ∙ ap but_last e ∙ but_last-append bytes newline)

text-short : length (text ++ newline ∷ []) ≢ max_frame_size + 1
text-short = λ e. absurd (omega (arith, e))

decode_all-Lines_example :
    decode_all one_json 3 (line [] ∷ line text ∷ line [] ∷ line text ∷ [])
    ≡ (ping ∷ ping ∷ [], some eof)
decode_all-Lines_example =
    decode_all-Lines one_json one_json-HasTypes (ping ∷ ping ∷ [])
      (line [] ∷ line text ∷ line [] ∷ line text ∷ []) 3
      (Lines.blank (
        Lines.next ping-IsKept ping-encoded text-short text-IsScanned
          (Lines.blank (Lines.next ping-IsKept ping-encoded text-short text-IsScanned Lines.end))))
      (omega arith)
