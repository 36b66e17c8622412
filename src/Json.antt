-- ===== src/Json.antt =====
-- JSON documents, and what encoding/json does with a struct: the reading of one object member into
-- a field, for the field types that the program uses. The text syntax is not part of the model.
use take.Prelude.{
  ℕ, ◌+◌, ◌^◌, Bool, ◌&&◌, Option, none, some, [], ◌∷◌, Text, ltb, leb, text_eq, ◌==◌,
  if◌then◌else◌, ℤ, pos, negsuc,
}

-- `int` is a number written without fraction or exponent, `real` any other, by its literal.
mutual
  pub data Json : Type 0 where
    null : Json
    bool : Bool → Json
    int : ℤ → Json
    real : Text → Json
    str : Text → Json
    arr : Items → Json
    obj : Fields → Json

  pub data Items : Type 0 where
    nil : Items
    cons : Json → Items → Items

  pub data Fields : Type 0 where
    end : Fields
    field : Text → Json → Fields → Fields

-- The case folding by which encoding/json compares a member's name with a tag: ASCII letters, and
-- the two other code points that fold to one (U+017F to s, U+212A to k).
unfoldable pub fold_rune : ℕ → ℕ
fold_rune c =
    if leb b'A' c && leb c b'Z'
    then c + 32
    else if c == 0x17f
    then b's'
    else if c == 0x212a
    then b'k'
    else c

unfoldable pub fold_name : Text → Text
unfolding fold_rune
fold_name [] = []
fold_name (c ∷ s) = fold_rune c ∷ fold_name s

-- Whether a member's name selects the field with this lower-case tag.
unfoldable pub names : Text → Text → Bool
unfolding fold_name text_eq
names tag name = text_eq tag (fold_name name)

-- A member read into a string field: `null` leaves the field as it is, another kind is an error.
unfoldable pub read_text : Json → Text → Option Text
read_text null old = some old
read_text (str t) old = some t
read_text _ old = none

abbrev pub read_bool : Json → Bool → Option Bool
read_bool null old = some old
read_bool (bool b) old = some b
read_bool _ old = none

-- Into an int field of 64 bits.
unfoldable pub read_int : Json → ℤ → Option ℤ
read_int null old = some old
read_int (int (pos n)) old = if ltb n (2 ^ 63) then some (pos n) else none
read_int (int (negsuc n)) old = if ltb n (2 ^ 63) then some (negsuc n) else none
read_int _ old = none

-- A document read into a struct: the members in order, each by `step`; unknown ones are ignored.
module _ {A : Type 0} (step : Text → Json → A → Option A) where
  unfoldable pub read_fields : Fields → A → Option A
  read_fields end a = some a
  read_fields (field k v rest) a = elim (step k v a) [ none ↦ none | some a' ↦ read_fields rest a' ]

  unfoldable pub read_struct : Json → A → Option A
  unfolding read_fields
  read_struct null a = some a
  read_struct (obj fs) a = read_fields fs a
  read_struct _ a = none
