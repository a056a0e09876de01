-- ===== src/Json.antt =====
-- What the code uses of encoding/json. A json.RawMessage carries, beside its bytes, what the
-- decoder reads in them: nothing, a syntax error, or a first value and whether more follows.
pub mod Print
use kube_cure.Prelude.{
  ℕ, ◌+◌, ℤ, pos, negsuc, Bool, true, false, ◌&&◌, Option, List, [], ◌∷◌, ◌++◌, leb, ltb, ◌==◌,
  if◌then◌else◌,
}
use kube_cure.Text.{Text, codes, quote}

mutual
  pub data Json : Type 0 where
    null : Json
    boolean : Bool → Json
    integer : ℤ → Json
    fraction : Json
    string : Text → Json
    array : Items → Json
    object : Fields → Json

  pub data Items : Type 0 where
    no_items : Items
    item : Json → Items → Items

  pub data Fields : Type 0 where
    no_fields : Fields
    field : Text → Json → Fields → Fields

pub data Parsed : Type 0 where
  blank : Parsed
  malformed : Parsed
  value : Json → Bool → Parsed

-- `compacted` is what json.Compact makes of the bytes, `none` if it fails.
pub record RawMessage : Type 0 where
  pub bytes : Text
  pub compacted : Option Text
  pub parsed : Parsed

pub data JsonError : Type 0 where
  syntax_error type_mismatch : JsonError
  unknown_field : Text → JsonError

pub data Decoded {ℓ} (A : Type ℓ) : Type ℓ where
  decoded : A → Decoded A
  invalid : JsonError → Decoded A

infixl 5 ◌>>=◌
abbrev pub ◌>>=◌ {ℓ κ} : {A : Type ℓ} {B : Type κ} → Decoded A → (A → Decoded B) → Decoded B
decoded a >>= f = f a
invalid e >>= f = invalid e

abbrev fold : ℕ → ℕ
fold c = if leb 65 c && leb c 90 then c + 32 else c

-- Keys are matched without regard to case.
unfoldable pub same_key : Text → Text → Bool
same_key [] [] = true
same_key (a ∷ s) (b ∷ t) = fold a == fold b && same_key s t
same_key _ _ = false

-- A null leaves the value that is there.
unfoldable pub decode_string : Json → Text → Decoded Text
decode_string null old = decoded old
decode_string (string s) old = decoded s
decode_string _ old = invalid type_mismatch

unfoldable pub decode_bool : Json → Bool → Decoded Bool
decode_bool null old = decoded old
decode_bool (boolean b) old = decoded b
decode_bool _ old = invalid type_mismatch

-- A number outside int64 does not fit.
unfoldable pub decode_int : Json → ℤ → Decoded ℤ
decode_int null old = decoded old
decode_int (integer (pos n)) old =
    if ltb n 9223372036854775808 then decoded (pos n) else invalid type_mismatch
decode_int (integer (negsuc n)) old =
    if ltb n 9223372036854775808 then decoded (negsuc n) else invalid type_mismatch
decode_int _ old = invalid type_mismatch

module _ {ℓ} {A : Type ℓ} where
  unfoldable pub decode_fields : (Text → Json → A → Decoded A) → Fields → A → Decoded A
  decode_fields assign no_fields old = decoded old
  decode_fields assign (field key v rest) old = elim (assign key v old) [
    | decoded a ↦ decode_fields assign rest a
    | invalid e ↦ invalid e
  ]

  -- A struct, by what each key assigns.
  unfoldable pub decode_struct : (Text → Json → A → Decoded A) → Json → A → Decoded A
  unfolding decode_fields
  decode_struct assign null old = decoded old
  decode_struct assign (object fields) old = decode_fields assign fields old
  decode_struct assign _ old = invalid type_mismatch

  decode_items : (Json → Decoded A) → Items → Decoded (List A)
  decode_items one no_items = decoded []
  decode_items one (item j rest) = do a ← one j; as' ← decode_items one rest; decoded (a ∷ as')

  -- A slice; a null makes it nil.
  unfoldable pub decode_slice : (Json → Decoded A) → Json → Decoded (List A)
  unfolding decode_items
  decode_slice one null = decoded []
  decode_slice one (array items) = decode_items one items
  decode_slice one _ = invalid type_mismatch

  -- `json.NewDecoder(...).Decode(&v)`: the first value; what follows is not read.
  unfoldable pub decode_first : (Json → A → Decoded A) → RawMessage → A → Decoded A
  decode_first into raw zero_value = elim raw.parsed [
    | blank ↦ invalid syntax_error
    | malformed ↦ invalid syntax_error
    | value j more ↦ into j zero_value
  ]

unfoldable pub json_error_text : JsonError → Text
json_error_text syntax_error = codes "syntax error"
json_error_text type_mismatch = codes "json: cannot unmarshal"
json_error_text (unknown_field key) = codes "json: unknown field " ++ quote key
