-- ===== src/Json/Print.antt =====
-- What the code uses of json.MarshalIndent: two spaces a level, the keys of a map in order, and the
-- escapes of ASCII strings. A fraction has no text here, since the objects that are written hold
-- quantities as strings.
use kube_cure.Prelude.{
  ℕ, zero, suc, ◌+◌, ◌/◌, ◌%◌, pos, Bool, true, false, ◌||◌, ◌≡◌, refl, List, [], ◌∷◌, ◌++◌, ltb,
  ◌==◌, map, if◌then◌else◌,
}
use kube_cure.Text.{Text, codes}
use kube_cure.Text.Numbers.{show_int}
use kube_cure.Json.{
  Json, Items, Fields, null, boolean, integer, fraction, string, array, object, no_items, item,
  no_fields, field,
}

hex_digit : ℕ → ℕ
hex_digit d = if ltb d 10 then 48 + d else 87 + d

-- Control characters, and the three that HTML reads, are written in hexadecimal.
escape_byte : ℕ → Text
unfolding hex_digit
escape_byte c =
    if c == 34
    then codes "\\\""
    else if c == 92
    then codes "\\\\"
    else if c == 8
    then codes "\\b"
    else if c == 12
    then codes "\\f"
    else if c == 10
    then codes "\\n"
    else if c == 13
    then codes "\\r"
    else if c == 9
    then codes "\\t"
    else if ltb c 32 || c == 60 || c == 62 || c == 38
    then codes "\\u00" ++ hex_digit (c / 16) ∷ hex_digit (c % 16) ∷ []
    else c ∷ []

escape : Text → Text
unfolding escape_byte
escape [] = []
escape (c ∷ s) = escape_byte c ++ escape s

unfoldable pub string_text : Text → Text
unfolding escape
string_text s = 34 ∷ (escape s ++ 34 ∷ [])

indent : ℕ → Text
indent zero = []
indent (suc depth) = 32 ∷ 32 ∷ indent depth

-- What stands before an entry: a comma, unless it is the first, and a new line.
unfoldable pub before : ℕ → Bool → Text
unfolding indent
before depth true = 10 ∷ indent depth
before depth false = 44 ∷ 10 ∷ indent depth

-- What stands before the closing bracket.
unfoldable pub after : ℕ → Bool → Text
unfolding indent
after depth true = []
after depth false = 10 ∷ indent depth

unfoldable mutual
  pub print : ℕ → Json → Text
  print depth null = codes "null"
  print depth (boolean true) = codes "true"
  print depth (boolean false) = codes "false"
  print depth (integer z) = show_int z
  print depth fraction = []
  print depth (string s) = string_text s
  print depth (array items) = 91 ∷ (print_items depth true items ++ 93 ∷ [])
  print depth (object fields) = 123 ∷ (print_fields depth true fields ++ 125 ∷ [])

  pub print_items : ℕ → Bool → Items → Text
  print_items depth first no_items = after depth first
  print_items depth first (item j rest) =
      before (suc depth) first ++ (print (suc depth) j ++ print_items depth false rest)

  pub print_fields : ℕ → Bool → Fields → Text
  print_fields depth first no_fields = after depth first
  print_fields depth first (field key j rest) =
      before (suc depth) first
      ++ (string_text key ++ (codes ": " ++ (print (suc depth) j ++ print_fields depth false rest)))

-- json.MarshalIndent(v, "", "  ")
unfoldable pub marshal_indent : Json → Text
unfolding print
marshal_indent j = print 0 j

-- The order of strings in Go.
unfoldable pub text_lt : Text → Text → Bool
text_lt [] [] = false
text_lt [] (b ∷ t) = true
text_lt (a ∷ s) [] = false
text_lt (a ∷ s) (b ∷ t) = if ltb a b then true else if a == b then text_lt s t else false

unfoldable pub insert_key : Text → Json → Fields → Fields
unfolding text_lt
insert_key key j no_fields = field key j no_fields
insert_key key j (field k v rest) =
    if text_lt k key then field k v (insert_key key j rest) else field key j (field k v rest)

unfoldable pub sorted_fields : List (Text × Json) → Fields
unfolding insert_key
sorted_fields [] = no_fields
sorted_fields ((key, j) ∷ rest) = insert_key key j (sorted_fields rest)

-- A Go map with these entries.
unfoldable pub map_of : List (Text × Json) → Json
unfolding sorted_fields
map_of entries = object (sorted_fields entries)

-- The fields of a struct keep their order.
unfoldable pub fields_of : List (Text × Json) → Fields
fields_of [] = no_fields
fields_of ((key, j) ∷ rest) = field key j (fields_of rest)

unfoldable pub items_of : List Json → Items
items_of [] = no_items
items_of (j ∷ rest) = item j (items_of rest)

-- A slice that is not nil.
unfoldable pub slice_of : List Json → Json
unfolding items_of
slice_of items = array (items_of items)

-- A slice or a map that is nil if it is empty.
unfoldable pub slice_or_null : List Json → Json
unfolding slice_of
slice_or_null [] = null
slice_or_null (j ∷ rest) = slice_of (j ∷ rest)

string_entries : List (Text × Text) → List (Text × Json)
string_entries [] = []
string_entries ((key, s) ∷ rest) = (key, string s) ∷ string_entries rest

unfoldable pub string_map : List (Text × Text) → Json
unfolding map_of string_entries
string_map [] = null
string_map (entry ∷ rest) = map_of (string_entries (entry ∷ rest))

unfoldable pub strings : List Text → Json
unfolding slice_of
strings texts = slice_of (map string texts)

-- {"a": "<", "b": [1, {}], "c": []}
marshal_indent_test :
    marshal_indent (
      map_of (
        (codes "b", slice_of (integer (pos 1) ∷ object no_fields ∷ []))
        ∷ (codes "c", slice_of [])
        ∷ (codes "a", string (codes "<"))
        ∷ []))
    ≡ codes "{\n  \"a\": \"\\u003c\",\n  \"b\": [\n    1,\n    {}\n  ],\n  \"c\": []\n}"
unfolding marshal_indent map_of slice_of show_int kube_cure.Text.show_nat string_text before after
marshal_indent_test = refl
