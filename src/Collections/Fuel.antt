-- ===== src/Collections/Fuel.antt =====
-- `transformCollections` parses the texts of its markers, which may have markers in them: that
-- this ends.
use Prim.Native.String.count
use Prim.Native.String.{count}
use text.Mathlib.TextLemmas.{length-append}
use nosana_node.Base.{
  String, ℕ, zero, suc, ◌≤◌, ◌<◌, ◌≡◌, refl, inl, inr, Bool, some, Option-cases, arith, Result,
  ◌>>=◌,
}
use nosana_node.Json.{
  Value, null, bool, num, str, arr, obj, Items, nil, cons, Fields, end, field, Engine, text_size,
  items_size, fields_size, get_field,
}
use nosana_node.Interpolate.{ArgsError}
use nosana_node.Collections.Markers.{parse_as-ok, parse_as-err}
use nosana_node.Collections.{
  Marker, spread, pairs, visit, visit_fields, visit_elements, marker_items, is_true, array_items,
  visit_each, visit_flat, parsed_items, text_items, join, parse_as,
}

count-join : (xs : Items) → count (join xs) ≤ items_size xs
unfolding join text_size
count-join nil = omega (arith, count.nil)
count-join (cons null xs) = omega (arith, count-join xs)
count-join (cons (bool b) xs) = omega (arith, count-join xs)
count-join (cons (num n) xs) = omega (arith, count-join xs)
count-join (cons (str s) xs) = omega (arith, count-join xs, length-append s (join xs))
count-join (cons (arr ys) xs) = omega (arith, count-join xs)
count-join (cons (obj fs) xs) = omega (arith, count-join xs)

module _ (js : Engine) (ow : Bool) (f g : Marker → String → Result ArgsError Items) (n : ℕ)
    (same : (marker : Marker) (s : String) → count s ≤ n → f marker s ≡ g marker s) where
  mutual
    unfolding visit text_size

    visit_agree : (v : Value) → text_size v ≤ n → visit js ow f v ≡ visit js ow g v
    visit_agree null h = refl
    visit_agree (bool b) h = refl
    visit_agree (num t) h = refl
    visit_agree (str s) h = refl
    visit_agree (arr xs) h = rw (elements_agree xs h)
    visit_agree (obj fs) h = rw (fields_agree fs h)

    fields_agree :
        (fs : Fields) → fields_size fs ≤ n → visit_fields js ow f fs ≡ visit_fields js ow g fs
    fields_agree end h = refl
    fields_agree (field k v fs) h = rw (visit_agree v (omega arith), fields_agree fs (omega arith))

    elements_agree :
        (xs : Items) → items_size xs ≤ n → visit_elements js ow f xs ≡ visit_elements js ow g xs
    elements_agree nil h = refl
    elements_agree (cons (obj fs) xs) h =
        let chunked = is_true (get_field "chunked" fs) in
        rw (
          visit_agree (obj fs) (omega arith),
          marker_agree chunked fs (omega arith),
          elements_agree xs (omega arith),
        )
    elements_agree (cons null xs) h = rw (elements_agree xs (omega arith))
    elements_agree (cons (bool b) xs) h = rw (elements_agree xs (omega arith))
    elements_agree (cons (num t) xs) h = rw (elements_agree xs (omega arith))
    elements_agree (cons (str s) xs) h = rw (elements_agree xs (omega arith))
    elements_agree (cons (arr ys) xs) h =
        rw (visit_agree (arr ys) (omega arith), elements_agree xs (omega arith))

    marker_agree :
        (chunked : Bool) (fs : Fields)
        → fields_size fs ≤ n
        → marker_items js ow f chunked fs ≡ marker_items js ow g chunked fs
    marker_agree chunked end h = refl
    marker_agree chunked (field k v fs) h = rw (
      array_agree spread chunked v (omega arith),
      array_agree pairs chunked v (omega arith),
      marker_agree chunked fs (omega arith),
    )

    array_agree :
        (marker : Marker) (chunked : Bool) (v : Value)
        → text_size v ≤ n
        → array_items js ow f marker chunked v ≡ array_items js ow g marker chunked v
    array_agree spread chunked null h = refl
    array_agree spread chunked (bool b) h = refl
    array_agree spread chunked (num t) h = refl
    array_agree spread chunked (obj fs) h = refl
    array_agree pairs chunked null h = refl
    array_agree pairs chunked (bool b) h = refl
    array_agree pairs chunked (num t) h = refl
    array_agree pairs chunked (obj fs) h = refl
    array_agree spread chunked (str s) h = same spread s h
    array_agree pairs chunked (str s) h = same pairs s h
    array_agree spread chunked (arr xs) h =
        rw (flat_agree xs h, same spread (join xs) (omega (arith, count-join xs)))
    array_agree pairs chunked (arr xs) h = each_agree xs h

    each_agree : (xs : Items) → items_size xs ≤ n → visit_each js ow f xs ≡ visit_each js ow g xs
    each_agree nil h = refl
    each_agree (cons v xs) h = rw (visit_agree v (omega arith), each_agree xs (omega arith))

    flat_agree : (xs : Items) → items_size xs ≤ n → visit_flat js ow f xs ≡ visit_flat js ow g xs
    flat_agree nil h = refl
    flat_agree (cons (arr ys) xs) h = rw (each_agree ys (omega arith), flat_agree xs (omega arith))
    flat_agree (cons null xs) h = rw (flat_agree xs (omega arith))
    flat_agree (cons (bool b) xs) h = rw (flat_agree xs (omega arith))
    flat_agree (cons (num t) xs) h = rw (flat_agree xs (omega arith))
    flat_agree (cons (str s) xs) h = rw (flat_agree xs (omega arith))
    flat_agree (cons (obj fs) xs) h =
        rw (visit_agree (obj fs) (omega arith), flat_agree xs (omega arith))

  parsed_agree :
      (marker : Marker) (v : Value)
      → text_size v ≤ n
      → parsed_items js ow f marker v ≡ parsed_items js ow g marker v
  unfolding text_size
  parsed_agree spread (arr xs) h = flat_agree xs h
  parsed_agree pairs (arr xs) h = each_agree xs h
  parsed_agree spread null h = refl
  parsed_agree spread (bool b) h = refl
  parsed_agree spread (num t) h = refl
  parsed_agree spread (str s) h = refl
  parsed_agree spread (obj fs) h = refl
  parsed_agree pairs null h = refl
  parsed_agree pairs (bool b) h = refl
  parsed_agree pairs (num t) h = refl
  parsed_agree pairs (str s) h = refl
  parsed_agree pairs (obj fs) h = refl

module _ (js : Engine) (overwrite : Bool)
    (parse_shrinks : (s : String) (v : Value) → js.parse s ≡ some v → text_size v < count s) where
  text_items_fuel :
      (k m : ℕ) (marker : Marker) (s : String)
      → count s < k
      → count s < m
      → text_items js overwrite k marker s ≡ text_items js overwrite m marker s
  unfolding text_items
  text_items_fuel zero m marker s h l = absurd (omega arith)
  text_items_fuel (suc k) zero marker s h l = absurd (omega arith)
  text_items_fuel (suc k) (suc m) marker s h l = elim (Option-cases (js.parse s)) [
    | inl e ↦ rw (parse_as-err js marker s e)
    | inr (v, e) ↦
        let small = parse_shrinks s v e in
        rw (parse_as-ok js marker s v e) (
          parsed_agree js overwrite (text_items js overwrite k) (text_items js overwrite m)
            (text_size v) (λ mark t le. text_items_fuel k m mark t (omega arith) (omega arith))
            marker v (omega arith))
  ]

  abbrev pub read_text : Marker → String → Result ArgsError Items
  read_text marker s = text_items js overwrite (suc (count s)) marker s

  -- If what `JSON.parse` reads from a text has fewer characters in its own texts than that text,
  -- the fuel is enough: a marker's text in an array gives the visited items of the array that it
  -- parses to, in which the texts of markers are read in the same way.
  pub text_items-eq :
      (marker : Marker) (s : String)
      → read_text marker s ≡ (parse_as js marker s >>= parsed_items js overwrite read_text marker)
  unfolding text_items
  text_items-eq marker s = elim (Option-cases (js.parse s)) [
    | inl e ↦ rw (parse_as-err js marker s e)
    | inr (v, e) ↦
        let small = parse_shrinks s v e in
        rw (parse_as-ok js marker s v e) (
          parsed_agree js overwrite (text_items js overwrite (count s)) read_text (text_size v)
            (λ mark t le.
              text_items_fuel (count s) (suc (count t)) mark t (omega arith) (omega arith))
            marker v (omega arith))
  ]
