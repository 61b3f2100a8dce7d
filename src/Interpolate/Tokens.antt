-- ===== src/Interpolate/Tokens.antt =====
-- `valueToArrayTokens` parses the texts that it finds in a text: that this ends.
use Prim.Native.String.{count}
use nosana_node.Base.{
  String, ℕ, zero, suc, ◌≤◌, ◌<◌, ◌≡◌, refl, inl, inr, Bool-cases, some, Option-cases, List, [],
  ◌∷◌, ◌++◌, arith, ◌∙◌,
}
use nosana_node.Json.{
  Value, null, bool, num, str, arr, obj, Items, nil, cons, Engine, text_size, items_size,
}
use nosana_node.Interpolate.{
  starts_as_json, tokens, items_tokens, parsed_tokens, parse_if_json, parse_value, string_tokens,
  value_to_array_tokens,
}

-- Two readings of texts that agree on the texts of a value give the same tokens.
mutual
  unfolding tokens text_size

  pub tokens_agree :
      (f g : String → List Value) (n : ℕ) (v : Value)
      → text_size v ≤ n
      → ((s : String) → count s ≤ n → f s ≡ g s)
      → tokens f v ≡ tokens g v
  tokens_agree f g n null h e = refl
  tokens_agree f g n (bool b) h e = refl
  tokens_agree f g n (num t) h e = refl
  tokens_agree f g n (str s) h e = e s h
  tokens_agree f g n (arr xs) h e = items_agree f g n xs h e
  tokens_agree f g n (obj fs) h e = refl

  pub items_agree :
      (f g : String → List Value) (n : ℕ) (xs : Items)
      → items_size xs ≤ n
      → ((s : String) → count s ≤ n → f s ≡ g s)
      → items_tokens f xs ≡ items_tokens g xs
  items_agree f g n nil h e = refl
  items_agree f g n (cons v xs) h e =
      cc (tokens_agree f g n v (omega arith) e, items_agree f g n xs (omega arith) e)

parsed_agree :
    (f g : String → List Value) (n : ℕ) (v : Value)
    → text_size v ≤ n
    → ((s : String) → count s ≤ n → f s ≡ g s)
    → parsed_tokens f v ≡ parsed_tokens g v
parsed_agree f g n null h e = tokens_agree f g n null h e
parsed_agree f g n (bool b) h e = tokens_agree f g n (bool b) h e
parsed_agree f g n (num t) h e = tokens_agree f g n (num t) h e
parsed_agree f g n (str s) h e = refl
parsed_agree f g n (arr xs) h e = tokens_agree f g n (arr xs) h e
parsed_agree f g n (obj fs) h e = tokens_agree f g n (obj fs) h e

module _ (js : Engine)
    (parse_shrinks : (s : String) (v : Value) → js.parse s ≡ some v → text_size v < count s)
    (trim_shrinks : (s : String) → count (js.trim s) ≤ count s) where
  parse_if_json-shrinks :
      (s : String) (v : Value) → parse_if_json js s ≡ some v → text_size v < count s
  unfolding parse_if_json
  parse_if_json-shrinks s v h = elim (Bool-cases (starts_as_json (js.trim s))) [
    | inl e ↦
        let parsed : js.parse (js.trim s) ≡ some v = ground arith in
        omega (arith, parse_shrinks (js.trim s) v parsed, trim_shrinks s)
    | inr e ↦ ground arith
  ]

  string_tokens_fuel :
      (k m : ℕ) (s : String)
      → count s < k
      → count s < m
      → string_tokens js k s ≡ string_tokens js m s
  unfolding string_tokens
  string_tokens_fuel zero m s h l = absurd (omega arith)
  string_tokens_fuel (suc k) zero s h l = absurd (omega arith)
  string_tokens_fuel (suc k) (suc m) s h l = elim (Option-cases (parse_if_json js s)) [
    | inl e ↦ rw (e, string_tokens)
    | inr (v, e) ↦
        let small = parse_if_json-shrinks s v e in
        rw (e, string_tokens)
          (parsed_agree (string_tokens js k) (string_tokens js m) (text_size v) v (omega arith)
            (λ t le. string_tokens_fuel k m t (omega arith) (omega arith)))
  ]

  abbrev string_reader : String → List Value
  string_reader s = string_tokens js (suc (count s)) s

  -- The fuel left in the recursion reads as the fuel of each text.
  step_agree :
      (s : String) (v : Value)
      → parse_if_json js s ≡ some v
      → parsed_tokens (string_tokens js (count s)) v ≡ parsed_tokens string_reader v
  step_agree s v e =
      let small = parse_if_json-shrinks s v e in
      parsed_agree (string_tokens js (count s)) string_reader (text_size v) v (omega arith)
        (λ t le. string_tokens_fuel (count s) (suc (count t)) t (omega arith) (omega arith))

  -- The tokens of an array, element by element.
  abbrev pub flat_tokens : Items → List Value
  flat_tokens nil = []
  flat_tokens (cons v xs) = value_to_array_tokens js v ++ flat_tokens xs

  abbrev pub tokens_of_parsed : Value → List Value
  tokens_of_parsed (arr xs) = flat_tokens xs
  tokens_of_parsed null = []
  tokens_of_parsed v = v ∷ []

  items_tokens-eq : (xs : Items) → items_tokens string_reader xs ≡ flat_tokens xs
  unfolding items_tokens value_to_array_tokens
  items_tokens-eq nil = refl
  items_tokens-eq (cons v xs) = cc (items_tokens-eq xs)

  parsed_tokens-eq : (v : Value) → parsed_tokens string_reader v ≡ tokens_of_parsed v
  unfolding tokens
  parsed_tokens-eq null = refl
  parsed_tokens-eq (bool b) = refl
  parsed_tokens-eq (num t) = refl
  parsed_tokens-eq (str s) = refl
  parsed_tokens-eq (arr xs) = items_tokens-eq xs
  parsed_tokens-eq (obj fs) = refl

  -- If what `JSON.parse` reads from a text has fewer characters in its own texts than that text,
  -- and `trim` adds none, the fuel is enough: the tokens of a value are, as the method has it,
  -- those of each element of the array that the value is or is parsed to, and else the parsed
  -- value alone, or nothing for `null`.
  pub value_to_array_tokens-eq :
      (v : Value) → value_to_array_tokens js v ≡ tokens_of_parsed (parse_value js v)
  unfolding value_to_array_tokens tokens string_tokens
  value_to_array_tokens-eq null = refl
  value_to_array_tokens-eq (bool b) = refl
  value_to_array_tokens-eq (num t) = refl
  value_to_array_tokens-eq (str s) = elim (Option-cases (parse_if_json js s)) [
    | inl e ↦ rw (e, string_tokens)
    | inr (v, e) ↦ rw (e, string_tokens) (step_agree s v e ∙ parsed_tokens-eq v)
  ]
  value_to_array_tokens-eq (arr xs) = items_tokens-eq xs
  value_to_array_tokens-eq (obj fs) = refl
