-- ===== src/Proto/Codec/Stream.antt =====
-- What is written is read again.
mod Tests
use prm.Prelude.{
  ℕ, zero, suc, ◌+◌, ◌≤◌, ◌<◌, String, ◌≡◌, ◌≢◌, refl, sym, ap, subst, ◌∙◌, Bool, true, false,
  Option, none, some, List, [], ◌∷◌, ◌++◌, ltb, if◌then◌else◌, length, Result, ok, err, map,
  append_assoc, append-nil, length-append, any, ◌==◌, nat_eq, ok_inj, if-err,
}
use native.Mathlib.Omega.{arith}
use prm.Storage.{Bytes}
use prm.Proto.Kinds.{Frame, Kind, kind_of, frame_type, frame_for_type, frame_for_type-frame_type}
use prm.Proto.Codec.{
  Json, CodecError, frame_too_large, bad_json, eof, max_frame_size, newline, Scanned, line,
  too_long, failed, contains_type, typed, marshal_with_type, framed, encode_bytes, decode,
  read_typed, read_kind, read_frame,
}

-- What `encoding/json` does with an object into which "type" is written: it is not the empty text, and
-- "type" is read from it, and it has no newline.
pub record HasTypes (json : Json) : Type 0 where
  pub full : (raw bytes : Bytes) (t : String) → json.stamp raw t ≡ some bytes → 0 < length bytes
  pub named :
      (raw bytes : Bytes) (t : String)
      → json.stamp raw t ≡ some bytes
      → json.envelope bytes ≡ some t
  pub one_line :
      (raw bytes : Bytes) (t : String)
      → json.stamp raw t ≡ some bytes
      → any (λ b. b == newline) bytes ≡ false

-- A frame whose text does not have its type yet, and which the struct of its kind reads from its own
-- text with a type: `encoding/json` keeps its values.
pub record IsKept (json : Json) (f : Frame) : Type 0 where
  pub raw : Bytes
  pub marshalled : json.marshal f ≡ some raw
  pub untyped : contains_type json raw (frame_type (kind_of f)) ≡ false
  pub kept :
      (bytes : Bytes)
      → json.stamp raw (frame_type (kind_of f)) ≡ some bytes
      → json.unmarshal (kind_of f) bytes ≡ some f

-- What is decoded up to the first error, with the error; nothing where the count of calls is used up.
abbrev pub collect :
    Result CodecError Frame → List Frame × Option CodecError → List Frame × Option CodecError
collect (ok f) later = (f ∷ later.0, later.1)
collect (err e) later = ([], some e)

-- What `bufio.Scanner` yields for what `EncodeBytes` made: the line, where it is whole and short of the
-- buffer.
abbrev pub IsScanned : Bytes → Scanned → Type 0
IsScanned sent x =
    (bytes : Bytes)
    → sent ≡ bytes ++ newline ∷ []
    → any (λ b. b == newline) bytes ≡ false
    → length bytes < max_frame_size
    → x ≡ line bytes

module _ (json : Json) where
  -- The frames of a stream up to its first error, which is the end where all is well.
  abbrev pub decode_all : ℕ → List Scanned → List Frame × Option CodecError
  decode_all zero s = ([], none)
  decode_all (suc n) s = collect (decode json s).0 (decode_all n (decode json s).1)

  -- What the scanner yields for some frames that `EncodeBytes` accepted, none of them of exactly the
  -- largest size, each with any number of blank lines before it.
  pub data Lines : List Frame → List Scanned → Type 0 where
    end : Lines [] []
    blank : {fs : List Frame} {s : List Scanned} → Lines fs s → Lines fs (line [] ∷ s)
    next :
        {f : Frame} {sent : Bytes} {x : Scanned} {fs : List Frame} {s : List Scanned}
        → IsKept json f
        → encode_bytes json f ≡ ok sent
        → length sent ≢ max_frame_size + 1
        → IsScanned sent x
        → Lines fs s
        → Lines (f ∷ fs) (x ∷ s)

module _ (json : Json) (laws : HasTypes json) where
  typed_lem :
      (f : Frame)
      → (k : IsKept json f) → marshal_with_type json f ≡ json.stamp k.raw (frame_type (kind_of f))
  unfolding marshal_with_type typed
  typed_lem f k = ap (λ o. typed json o (frame_type (kind_of f))) k.marshalled ∙ by_test _ k.untyped
    where
      by_test :
          (b : Bool)
          → b ≡ false
          → (if b then some k.raw else json.stamp k.raw (frame_type (kind_of f)))
            ≡ json.stamp k.raw (frame_type (kind_of f))
      by_test true e = absurd (ground (arith, e))
      by_test false e = refl

  framed_lem :
      (o : Option Bytes) (sent : Bytes)
      → framed json o ≡ ok sent
      → (stamped : Bytes) × (o ≡ some stamped)
        × (length stamped ≤ max_frame_size)
        × (sent ≡ stamped ++ newline ∷ [])
  unfolding framed
  framed_lem none sent e = absurd (ground (arith, e))
  framed_lem (some stamped) sent e =
      let (fits, same) =
        if-err (ltb max_frame_size (length stamped)) frame_too_large (ok (stamped ++ newline ∷ []))
          e in
      (stamped, refl, ground (arith, fits), sym (ok_inj same))

  -- A line with a type, which the struct of the kind reads.
  decode-line :
      (f : Frame) (bytes : Bytes) (rest : List Scanned)
      → 0 < length bytes
      → json.envelope bytes ≡ some (frame_type (kind_of f))
      → json.unmarshal (kind_of f) bytes ≡ some f
      → decode json (line bytes ∷ rest) ≡ (ok f, rest)
  unfolding decode read_typed read_kind read_frame
  decode-line f [] rest full named kept = absurd (omega arith)
  decode-line f (b ∷ bytes) rest full named kept =
      ap (λ x. (x, rest))
        (ap (read_typed json (b ∷ bytes)) named
          ∙ ap (read_kind json (b ∷ bytes)) (frame_for_type-frame_type (kind_of f))
          ∙ ap (read_frame json) kept)

  -- A frame that is encoded is decoded from what the scanner yields for it.
  decode-encode_bytes :
      (f : Frame) (sent : Bytes) (x : Scanned) (rest : List Scanned)
      → IsKept json f
      → encode_bytes json f ≡ ok sent
      → length sent ≢ max_frame_size + 1
      → IsScanned sent x
      → decode json (x ∷ rest) ≡ (ok f, rest)
  unfolding encode_bytes
  decode-encode_bytes f sent x rest k e ne scanned =
      let t = frame_type (kind_of f) in
      let (stamped, made, fits, same) = framed_lem (marshal_with_type json f) sent e in
      let done : json.stamp k.raw t ≡ some stamped = sym (typed_lem f k) ∙ made in
      let size : length sent ≡ length stamped + 1 =
        ap length same ∙ length-append stamped (newline ∷ []) in
      let short : length stamped < max_frame_size = omega (arith, fits, size, ne) in
      ap (λ y. decode json (y ∷ rest))
        (scanned stamped same (laws.one_line k.raw stamped t done) short)
      ∙ decode-line f stamped rest (laws.full k.raw stamped t done)
          (laws.named k.raw stamped t done) (k.kept stamped done)

  decode-next :
      (f : Frame) (fs : List Frame) (s : List Scanned)
      → Lines json (f ∷ fs) s
      → (rest : List Scanned) × (decode json s ≡ (ok f, rest)) × Lines json fs rest
  unfolding decode
  decode-next f fs (line [] ∷ s) (Lines.blank l) = decode-next f fs s l
  decode-next f fs (x ∷ s) (Lines.next {sent} k e ne scanned l) =
      (s, decode-encode_bytes f sent x s k e ne scanned, l)
  decode-next f fs [] l = elim l [ ]

  decode-end : (s : List Scanned) → Lines json [] s → decode json s ≡ (err eof, [])
  unfolding decode
  decode-end [] Lines.end = refl
  decode-end (line [] ∷ s) (Lines.blank l) = decode-end s l
  decode-end (line (b ∷ bytes) ∷ s) l = elim l [ ]
  decode-end (too_long ∷ s) l = elim l [ ]
  decode-end (failed ∷ s) l = elim l [ ]

  -- Where `encoding/json` writes a line that has the type it was given, frames that `EncodeBytes` accepts,
  -- none of exactly the largest size, whose text does not have their type already and whose values are
  -- kept, are decoded in their order from what the scanner yields for them, with blank lines among them,
  -- by a reader that makes more calls than there are frames, and the error after the last is `io.EOF`.
  pub decode_all-Lines :
      (fs : List Frame) (s : List Scanned) (n : ℕ)
      → Lines json fs s
      → length fs < n
      → decode_all json n s ≡ (fs, some eof)
  decode_all-Lines fs s zero l h = absurd (omega arith)
  decode_all-Lines [] s (suc n) l h = ap (λ x. collect x.0 (decode_all json n x.1)) (decode-end s l)
  decode_all-Lines (f ∷ fs) s (suc n) l h =
      let (rest, e, later) = decode-next f fs s l in
      ap (λ x. collect x.0 (decode_all json n x.1)) e
      ∙ ap (λ x. (f ∷ x.0, x.1)) (decode_all-Lines fs rest n later (omega arith))
