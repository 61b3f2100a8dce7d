-- ===== src/Json.antt =====
-- The JSON values that the node passes around as `unknown` and `any`, and what JavaScript does with
-- them. A number is the text that `String` gives for it. `undefined` is `null` inside a value and
-- `none` where it is the answer of a lookup.
use Prim.Native.Char.{Char, code}
use Prim.Native.String.{◌++◌ as concat, count}
use nosana_node.Base.{
  String, ℕ, suc, ◌==◌, Bool, true, false, Option, none, some, List, [], ◌∷◌, if◌then◌else◌, str_eq,
  ◌+◌,
}

mutual
  pub data Value : Type 0 where
    null : Value
    bool : Bool → Value
    num : String → Value
    str : String → Value
    obj : Fields → Value
    arr : Items → Value

  -- The properties of an object, in their order.
  pub data Fields : Type 0 where
    field : String → Value → Fields → Fields
    end : Fields

  -- The elements of an array.
  pub data Items : Type 0 where
    cons : Value → Items → Items
    nil : Items

-- What the code takes from the engine: `JSON.parse`, with `none` where it throws, `JSON.stringify`,
-- `trim`, and `String` of an index.
pub record Engine : Type 0 where
  pub parse : String → Option Value
  pub stringify : Value → String
  pub trim : String → String
  pub decimal : ℕ → String

abbrev pub to_items : List Value → Items
to_items [] = nil
to_items (v ∷ vs) = cons v (to_items vs)

abbrev pub items_length : Items → ℕ
items_length nil = 0
items_length (cons v xs) = suc (items_length xs)

unfoldable pub get_field : String → Fields → Option Value
get_field k end = none
get_field k (field j v fs) = if str_eq j k then some v else get_field k fs

-- `o[k] = v`
unfoldable pub set_field : String → Value → Fields → Fields
set_field k v end = field k v end
set_field k v (field j w fs) = if str_eq j k then field j v fs else field j w (set_field k v fs)

-- `delete o[k]`
unfoldable pub delete_field : String → Fields → Fields
delete_field k end = end
delete_field k (field j v fs) =
    let rest = delete_field k fs in if str_eq j k then rest else field j v rest

abbrev pub is_null : Value → Bool
is_null null = true
is_null _ = false

-- A lookup that found something other than `null` or `undefined`.
abbrev pub present : Option Value → Option Value
present none = none
present (some null) = none
present (some v) = some v

unfoldable pub get_item : (ℕ → String) → ℕ → String → Items → Option Value
get_item decimal i k nil = none
get_item decimal i k (cons v xs) =
    if str_eq (decimal i) k then some v else get_item decimal (suc i) k xs

unfoldable pub get_char : (ℕ → String) → ℕ → String → String → Option Value
get_char decimal i k String.[] = none
get_char decimal i k (String.◌∷◌ c s) =
    if str_eq (decimal i) k
    then some (str (String.◌∷◌ c String.[]))
    else get_char decimal (suc i) k s

-- `v?.[k]`, for the properties of the value's own.
unfoldable pub get_property : (ℕ → String) → String → Value → Option Value
get_property decimal k (obj fs) = get_field k fs
get_property decimal k (arr xs) =
    if str_eq k "length" then some (num (decimal (items_length xs))) else get_item decimal 0 k xs
get_property decimal k (str s) =
    if str_eq k "length" then some (num (decimal (count s))) else get_char decimal 0 k s
get_property decimal k _ = none

abbrev pub bool_text : Bool → String
bool_text true = "true"
bool_text false = "false"

abbrev unless_null : Value → String → String
unless_null null s = ""
unless_null _ s = s

-- `String(v)`; in an array's text `null` is empty, and a comma stands between the elements.
unfoldable mutual
  pub text : Value → String
  text null = "null"
  text (bool b) = bool_text b
  text (num n) = n
  text (str s) = s
  text (arr xs) = items_text xs
  text (obj fs) = "[object Object]"

  pub items_text : Items → String
  items_text nil = ""
  items_text (cons v nil) = unless_null v (text v)
  items_text (cons v (cons w xs)) =
      concat (unless_null v (text v)) (concat "," (items_text (cons w xs)))

-- `texts.join(' ')`
unfoldable pub join_space : List Value → String
join_space [] = ""
join_space (v ∷ []) = text v
join_space (v ∷ vs) = concat (text v) (concat " " (join_space vs))

-- `path.split('.')`; `part` is read from the back of the text.
unfoldable pub split_dots : String → List String
split_dots String.[] = "" ∷ []
split_dots (String.◌∷◌ c s) = split_at c (split_dots s)
  where
    split_at : Char → List String → List String
    split_at c [] = []
    split_at c (part ∷ parts) =
        if code c == b'.' then "" ∷ part ∷ parts else String.◌∷◌ c part ∷ parts

-- The characters of all texts in a value.
unfoldable mutual
  pub text_size : Value → ℕ
  text_size (str s) = count s
  text_size (arr xs) = items_size xs
  text_size (obj fs) = fields_size fs
  text_size _ = 0

  pub items_size : Items → ℕ
  items_size nil = 0
  items_size (cons v xs) = text_size v + items_size xs

  pub fields_size : Fields → ℕ
  fields_size end = 0
  fields_size (field k v fs) = text_size v + fields_size fs
