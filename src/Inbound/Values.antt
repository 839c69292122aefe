-- ===== src/Inbound/Values.antt =====
-- A decoded JSON value, Go's `any` of `encoding/json`. A number is the text that `%v` prints for it.
use prm.Prelude.{
  ℕ, zero, suc, String, Bool, Option, none, some, [], ◌==◌, string_eq, if◌then◌else◌, Assoc, insert,
}

mutual
  pub data Json : Type 0 where
    null : Json
    bool : Bool → Json
    number : String → Json
    text : String → Json
    array : Items → Json
    object : Members → Json

  pub data Items : Type 0 where
    no_items : Items
    item : Json → Items → Items

  pub data Members : Type 0 where
    no_members : Members
    member : String → Json → Members → Members

-- `m[k]` with its second result; a key stands once.
unfoldable pub get_member : String → Members → Option Json
get_member k no_members = none
get_member k (member j v rest) = if j == k then some v else get_member k rest

unfoldable pub get_item : ℕ → Items → Option Json
get_item i no_items = none
get_item zero (item v rest) = some v
get_item (suc i) (item v rest) = get_item i rest

unfoldable pub count : Items → ℕ
count no_items = 0
count (item v rest) = suc (count rest)

-- The type switch `v.(string)`.
unfoldable pub text_of : Json → Option String
text_of (text s) = some s
text_of v = none

of_text : Option Json → Option String
unfolding text_of
of_text none = none
of_text (some v) = text_of v

-- `m[k].(string)` with its second result.
unfoldable pub text_member : String → Members → Option String
unfolding of_text
text_member k m = of_text (get_member k m)

abbrev pub Fields : Type 0
Fields = Assoc String Json

-- A copy of every entry.
unfoldable pub put_members : Members → Fields → Fields
put_members no_members fields = fields
put_members (member k v rest) fields = put_members rest (insert k v fields)

-- An entry for a text that is not empty.
unfoldable pub put_text : String → String → Fields → Fields
put_text k s fields = if s == "" then fields else insert k (text s) fields

abbrev pub no_fields : Fields
no_fields = []
