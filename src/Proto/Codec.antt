-- ===== src/Proto/Codec.antt =====
-- internal/proto/codec.go: a frame as one line of JSON. `Json` is what the file calls of `encoding/json`:
-- `marshal` of a frame, `stamp`, which reads the object into a map, sets "type" and writes it again,
-- `envelope`, which reads "type", and `unmarshal` into the struct of a kind. A reader is the list of what
-- each `bufio.Scanner.Scan` will yield.
pub mod Stream
use prm.Prelude.{
  ℕ, ◌+◌, String, Bool, true, false, Option, none, some, List, [], ◌∷◌, ◌++◌, ltb, if◌then◌else◌,
  length, Result, ok, err,
}
use prm.Storage.{Bytes}
use prm.Proto.Kinds.{Frame, Kind, kind_of, frame_type, frame_for_type}
use prm.Proto.Search.{bytes_contains}

pub record Json : Type 0 where
  pub marshal : Frame → Option Bytes
  pub stamp : Bytes → String → Option Bytes
  pub envelope : Bytes → Option String
  pub unmarshal : Kind → Bytes → Option Frame
  -- `"type":"` with the text and a quote after it, as bytes
  pub needle : String → Bytes

-- `ErrFrameTooLarge`, `ErrUnknownType`, `io.EOF`, a JSON error, an error of the reader.
pub data CodecError : Type 0 where
  frame_too_large unknown_type eof bad_json read_failed : CodecError

abbrev pub max_frame_size : ℕ
max_frame_size = 65536

abbrev pub newline : ℕ
newline = 10

pub data Scanned : Type 0 where
  line : Bytes → Scanned
  too_long failed : Scanned

module _ (json : Json) where
  unfoldable pub contains_type : Bytes → String → Bool
  contains_type raw want = bytes_contains raw (json.needle want)

  typed : Option Bytes → String → Option Bytes
  unfolding contains_type
  typed none want = none
  typed (some raw) want = if contains_type raw want then some raw else json.stamp raw want

  unfoldable pub marshal_with_type : Frame → Option Bytes
  unfolding typed
  marshal_with_type f = typed (json.marshal f) (frame_type (kind_of f))

  framed : Option Bytes → Result CodecError Bytes
  framed none = err bad_json
  framed (some stamped) =
      if ltb max_frame_size (length stamped)
      then err frame_too_large
      else ok (stamped ++ newline ∷ [])

  unfoldable pub encode_bytes : Frame → Result CodecError Bytes
  unfolding framed
  encode_bytes f = framed (marshal_with_type f)

  -- `Encode` writes what `EncodeBytes` returns.
  unfoldable pub encode : Bytes → Frame → Result CodecError (Unit {0}) × Bytes
  encode written f = elim (encode_bytes f) [
    | err e ↦ (err e, written)
    | ok bytes ↦ (ok tt, written ++ bytes)
  ]

  read_frame : Option Frame → Result CodecError Frame
  read_frame none = err bad_json
  read_frame (some f) = ok f

  read_kind : Bytes → Option Kind → Result CodecError Frame
  unfolding read_frame
  read_kind bytes none = err unknown_type
  read_kind bytes (some k) = read_frame (json.unmarshal k bytes)

  read_typed : Bytes → Option String → Result CodecError Frame
  unfolding read_kind
  read_typed bytes none = err bad_json
  read_typed bytes (some t) = read_kind bytes (frame_for_type t)

  -- Blank lines are skipped; the scanner stops for good at an error.
  unfoldable pub decode : List Scanned → Result CodecError Frame × List Scanned
  unfolding read_typed
  decode [] = (err eof, [])
  decode (too_long ∷ rest) = (err frame_too_large, rest)
  decode (failed ∷ rest) = (err read_failed, rest)
  decode (line [] ∷ rest) = decode rest
  decode (line (b ∷ bytes) ∷ rest) = (read_typed (b ∷ bytes) (json.envelope (b ∷ bytes)), rest)
