-- ===== src/Collections/Markers.antt =====
-- What `transformCollections` does with values that have no markers, and with one object's markers.
use nosana_node.Base.{
  String, str_eq, eq_iff, ◌≡◌, refl, true, false, ◌||◌, ◌&&◌, not, Bool, none, some, is_some,
  if◌then◌else◌, arith, Result, ok, err, ap, ◌∙◌, sym, and_split, or_split, no_some, not_some,
}
use nosana_node.Json.{
  Value, null, bool, num, str, arr, obj, Items, nil, cons, Fields, end, field, Engine, get_field,
  set_field, is_null,
}
use nosana_node.Interpolate.{ArgsError, not_json}
use nosana_node.Collections.{
  Marker, pairs, get_marker, visit, visit_fields, visit_elements, marker_items, is_true,
  apply_markers, transform_collections, from_pairs, pair_value, object_handler, keep_field,
  push_items, push_item, first_items, parse_as, label,
}

-- No object in the value has a marker.
unfoldable mutual
  pub has_marker : Value → Bool
  has_marker (arr xs) = items_have_marker xs
  has_marker (obj fs) = fields_have_marker fs
  has_marker _ = false

  pub items_have_marker : Items → Bool
  items_have_marker nil = false
  items_have_marker (cons v xs) = has_marker v || items_have_marker xs

  pub fields_have_marker : Fields → Bool
  fields_have_marker end = false
  fields_have_marker (field k v fs) =
      is_some (get_marker k) || has_marker v || fields_have_marker fs

fields_split :
    (k : String) (v : Value) (fs : Fields)
    → fields_have_marker (field k v fs) ≡ false
    → (get_marker k ≡ none) × (has_marker v ≡ false) × (fields_have_marker fs ≡ false)
unfolding has_marker
fields_split k v fs h =
    let (front, rest) =
      or_split (is_some (get_marker k) || has_marker v) (fields_have_marker fs) h in
    let (key, value) = or_split (is_some (get_marker k)) (has_marker v) front in
    (not_some (get_marker k) key, value, rest)

module _ (js : Engine) where
  pub parse_as-ok :
      (marker : Marker) (s : String) (v : Value) → js.parse s ≡ some v → parse_as js marker s ≡ ok v
  unfolding parse_as
  parse_as-ok marker s v e = rw (e, parse_as)

  pub parse_as-err :
      (marker : Marker) (s : String)
      → js.parse s ≡ none
      → parse_as js marker s ≡ err (not_json (label marker))
  unfolding parse_as
  parse_as-err marker s e = rw (e, parse_as)

module _ (js : Engine) (overwrite : Bool) (texts : Marker → String → Result ArgsError Items) where
  apply_markers-same :
      (fs base : Fields)
      → fields_have_marker fs ≡ false
      → apply_markers js overwrite fs base ≡ ok base
  unfolding apply_markers
  apply_markers-same end base h = refl
  apply_markers-same (field k v fs) base h =
      let (key, value, rest) = fields_split k v fs h in
      rw (key, apply_markers) (apply_markers-same fs base rest)

  marker_items-none :
      (chunked : Bool) (fs : Fields)
      → fields_have_marker fs ≡ false
      → marker_items js overwrite texts chunked fs ≡ none
  unfolding marker_items first_items
  marker_items-none chunked end h = refl
  marker_items-none chunked (field k v fs) h =
      let (key, value, rest) = fields_split k v fs h in rw (key) (marker_items-none chunked fs rest)

  mutual
    unfolding visit has_marker keep_field push_items push_item

    visit-same : (v : Value) → has_marker v ≡ false → visit js overwrite texts v ≡ ok v
    visit-same null h = refl
    visit-same (bool b) h = refl
    visit-same (num n) h = refl
    visit-same (str s) h = refl
    visit-same (arr xs) h = rw (visit_elements-same xs h)
    visit-same (obj fs) h = rw (visit_fields-same fs h, apply_markers-same fs fs h)

    visit_fields-same :
        (fs : Fields) → fields_have_marker fs ≡ false → visit_fields js overwrite texts fs ≡ ok fs
    visit_fields-same end h = refl
    visit_fields-same (field k v fs) h =
        let (key, value, rest) = fields_split k v fs h in
        rw (key, visit-same v value, visit_fields-same fs rest)

    visit_elements-same :
        (xs : Items) → items_have_marker xs ≡ false → visit_elements js overwrite texts xs ≡ ok xs
    visit_elements-same nil h = refl
    visit_elements-same (cons null xs) h = rw (visit_elements-same xs h)
    visit_elements-same (cons (bool b) xs) h = rw (visit_elements-same xs h)
    visit_elements-same (cons (num n) xs) h = rw (visit_elements-same xs h)
    visit_elements-same (cons (str s) xs) h = rw (visit_elements-same xs h)
    visit_elements-same (cons (arr ys) xs) h =
        let (first, rest) = or_split (has_marker (arr ys)) (items_have_marker xs) h in
        rw (visit-same (arr ys) first, visit_elements-same xs rest)
    visit_elements-same (cons (obj fs) xs) h =
        let (first, rest) = or_split (has_marker (obj fs)) (items_have_marker xs) h in
        rw (
          marker_items-none (is_true (get_field "chunked" fs)) fs first,
          visit-same (obj fs) first,
          visit_elements-same xs rest,
        )

-- Arguments without a marker are left as they are, whether or not markers overwrite.
pub transform_collections-same :
    (js : Engine) (overwrite : Bool) (args : Value)
    → has_marker args ≡ false
    → transform_collections js overwrite args ≡ ok args
unfolding transform_collections
transform_collections-same js overwrite args h = visit-same js overwrite _ args h

pub get_set_field :
    (k j : String) (v : Value) (fs : Fields)
    → get_field j (set_field k v fs) ≡ (if str_eq k j then some v else get_field j fs)
unfolding get_field set_field
get_set_field k j v end = refl
get_set_field k j v (field i w fs) =
    ground (arith, eq_iff k j, eq_iff i k, eq_iff i j, get_set_field k j v fs)

-- `{key, value}` for each field.
abbrev pub to_pairs : Fields → Items
to_pairs end = nil
to_pairs (field k v fs) = cons (obj (field "key" (str k) (field "value" v end))) (to_pairs fs)

abbrev pub append_fields : Fields → Fields → Fields
append_fields end gs = gs
append_fields (field k v fs) gs = field k v (append_fields fs gs)

-- Keys that are distinct and no value that is `null`.
abbrev pub is_record : Fields → Bool
is_record end = true
is_record (field k v fs) = not (is_null v) && not (is_some (get_field k fs)) && is_record fs

-- No key of `fs` is a key of `out`.
abbrev is_apart : Fields → Fields → Bool
is_apart end out = true
is_apart (field k v fs) out = not (is_some (get_field k out)) && is_apart fs out

set_field-new :
    (k : String) (v : Value) (out : Fields)
    → get_field k out ≡ none
    → set_field k v out ≡ append_fields out (field k v end)
unfolding get_field set_field
set_field-new k v end h = refl
set_field-new k v (field j w out) h = ground (arith, set_field-new k v out)

is_apart-set :
    (fs : Fields) (k : String) (v : Value) (out : Fields)
    → is_apart fs out ≡ true
    → get_field k fs ≡ none
    → is_apart fs (set_field k v out) ≡ true
unfolding get_field
is_apart-set end k v out h n = refl
is_apart-set (field j w fs) k v out h n =
    let (new, rest) = and_split (not (is_some (get_field j out))) (is_apart fs out) h in
    ground
      (arith, get_set_field k j v out, eq_iff k j, eq_iff j k, new, is_apart-set fs k v out rest)

append_fields_assoc :
    (fs gs hs : Fields)
    → append_fields (append_fields fs gs) hs ≡ append_fields fs (append_fields gs hs)
append_fields_assoc end gs hs = refl
append_fields_assoc (field k v fs) gs hs = ap (field k v) (append_fields_assoc fs gs hs)

append_fields-end : (fs : Fields) → append_fields fs end ≡ fs
append_fields-end end = refl
append_fields-end (field k v fs) = ap (field k v) (append_fields-end fs)

pair_value-same : (v : Value) → not (is_null v) ≡ true → pair_value (some v) ≡ v
pair_value-same null h = cc
pair_value-same (bool b) h = refl
pair_value-same (num n) h = refl
pair_value-same (str s) h = refl
pair_value-same (arr xs) h = refl
pair_value-same (obj fs) h = refl

from_pairs-to_pairs :
    (fs out : Fields)
    → is_record fs ≡ true
    → is_apart fs out ≡ true
    → from_pairs (to_pairs fs) out ≡ ok (append_fields out fs)
unfolding from_pairs get_field
from_pairs-to_pairs end out r a = ap ok (sym (append_fields-end out))
from_pairs-to_pairs (field k v fs) out r a =
    let (front, later) =
      and_split (not (is_null v) && not (is_some (get_field k fs))) (is_record fs) r in
    let (filled, fresh) = and_split (not (is_null v)) (not (is_some (get_field k fs))) front in
    let (new, apart) = and_split (not (is_some (get_field k out))) (is_apart fs out) a in
    rw (pair_value-same v filled) (
      from_pairs-to_pairs fs (set_field k v out) later
        (is_apart-set fs k v out apart (no_some (get_field k fs) fresh))
      ∙ rw (
        set_field-new k v out (no_some (get_field k out) new),
        append_fields_assoc out (field k v end) fs,
      ))

is_apart-end : (fs : Fields) → is_apart fs end ≡ true
unfolding get_field
is_apart-end end = refl
is_apart-end (field k v fs) = is_apart-end fs

-- A `__pairs__` marker of an object gives back the object that its pairs were made from, in its
-- order, if no key is there twice and no value is `null`, whether the pairs come as a value or as
-- a text that parses to them.
pub object_handler-to_pairs :
    (js : Engine) (fs : Fields) (s : String)
    → is_record fs ≡ true
    → js.parse s ≡ some (arr (to_pairs fs))
    → (object_handler js pairs (arr (to_pairs fs)) ≡ ok fs)
      × (object_handler js pairs (str s) ≡ ok fs)
unfolding object_handler
object_handler-to_pairs js fs s r p =
    let made = from_pairs-to_pairs fs end r (is_apart-end fs) in
    (made, rw (parse_as-ok js pairs s (arr (to_pairs fs)) p) made)
