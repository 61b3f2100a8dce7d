-- ===== src/Literals/Dots.antt =====
-- How many dots the two kinds of literal have, which keeps them apart.
use Prim.Native.Char.{code}
use Prim.Native.String.count
use Prim.Native.String.{count}
use nosana_node.Base.{
  String, ℕ, zero, suc, ◌+◌, ◌≤◌, ◌≡◌, refl, inl, inr, true, Bool-cases, Option, none, some,
  Option-cases, [], ◌∷◌, ◌==◌, if◌then◌else◌, arith, ◌⊎◌, some_inj, ap, ==_iff, ◌∙◌,
}
use nosana_node.Literals.{
  Literal, strip, until_dot, match_parts, match_literal, last_close, variable_at, match_variable,
  exact, matches_from, match_rest, is_empty_text,
}

pub dots : String → ℕ
dots String.[] = 0
dots (String.◌∷◌ c s) = if code c == b'.' then suc (dots s) else dots s

strip-dots : (p s r : String) → strip p s ≡ some r → dots s ≡ dots p + dots r
unfolding strip dots
strip-dots String.[] s r h = ground (arith, ap dots (some_inj h))
strip-dots (String.◌∷◌ c p) String.[] r h = absurd (ground arith)
strip-dots (String.◌∷◌ c p) (String.◌∷◌ d s) r h = elim (Bool-cases (code c == code d)) [
  | inl e ↦
      let same : code c ≡ code d = ground (arith, ==_iff (code c) (code d)) in
      let rest = strip-dots p s r (rw e at h) in ground (arith, same, rest)
  | inr e ↦ absurd (ground arith)
]

until_dot-none : (s : String) → dots s ≡ 0 → until_dot s ≡ none
unfolding until_dot dots
until_dot-none String.[] h = refl
until_dot-none (String.◌∷◌ c s) h = ground (arith, until_dot-none s)

match_parts-none : (s : String) → dots s ≡ 0 → match_parts s ≡ none
unfolding match_parts
match_parts-none s h = rw (until_dot-none s h, match_parts)

pub match_literal-none : (s : String) → dots s ≤ 1 → match_literal s ≡ none
unfolding match_literal dots
match_literal-none s h = elim (Option-cases (strip "%%ops." s)) [
  | inr (r, e) ↦
      let fewer = strip-dots "%%ops." s r e in
      rw (e, match_literal, match_parts-none r (ground (arith, fewer)))
  | inl e ↦ elim (Option-cases (strip "%%global." s)) [
    | inr (r, f) ↦
        let fewer = strip-dots "%%global." s r f in
        rw (e, match_literal, f, match_parts-none r (ground (arith, fewer)))
    | inl f ↦ rw (e, match_literal, f)
  ]
]

pub matches_from-nil : (skip : ℕ) (s : String) → dots s ≤ 1 → matches_from match_literal skip s ≡ []
unfolding matches_from dots
matches_from-nil skip String.[] h = refl
matches_from-nil (suc skip) (String.◌∷◌ c s) h = matches_from-nil skip s (ground arith)
matches_from-nil zero (String.◌∷◌ c s) h =
    rw (match_literal-none (String.◌∷◌ c s) h, matches_from)
      (matches_from-nil zero s (ground arith))

last_close_cases :
    (s : String)
    → (last_close s ≡ none)
      ⊎ ((k : String) × (after : String) × (last_close s ≡ some (k, after)) × (dots s ≡ dots after))
unfolding last_close dots
last_close_cases String.[] = inl refl
last_close_cases (String.◌∷◌ c s) = elim (Bool-cases (code c == b'.')) [
  | inl e ↦ inl (ground arith)
  | inr e ↦ elim (last_close_cases s) [
    | inr (k, after, f, d) ↦ inr (String.◌∷◌ c k, after, rw (e, f), ground (arith, d))
    | inl f ↦ elim (Option-cases (strip "%%" s)) [
      | inl g ↦ inl (rw (e, f, g))
      | inr (after, g) ↦
          inr
            (String.◌∷◌ c String.[], after, rw (e, f, g), ground (arith, strip-dots "%%" s after g))
    ]
  ]
]

abbrev whole : Option (Literal × String) → Option Literal
whole none = none
whole (some (literal, after)) = if is_empty_text after then some literal else none

exact-whole :
    (match : String → Option (Literal × String)) (s : String) → exact match s ≡ whole (match s)
unfolding exact
exact-whole match s = elim (Option-cases (match s)) [
  | inl e ↦ rw (e, exact)
  | inr (found, e) ↦ rw (e, exact)
]

empty_dots : (s : String) → is_empty_text s ≡ true → dots s ≡ 0
unfolding dots
empty_dots String.[] h = refl
empty_dots (String.◌∷◌ c s) h = cc

variable_at-dots : (r : String) (l : Literal) → whole (variable_at (some r)) ≡ some l → dots r ≡ 0
variable_at-dots r l h = elim (last_close_cases r) [
  | inl e ↦ absurd (ground (arith, rw (e, variable_at, whole) at h))
  | inr (k, after, e, d) ↦ elim (Bool-cases (is_empty_text after)) [
    | inl f ↦ d ∙ empty_dots after f
    | inr f ↦ absurd (ground (arith, rw (e, variable_at, whole, f) at h))
  ]
]

-- A `%%global.…%%` that is a whole text has one dot.
pub exact_variable-dots : (s : String) (l : Literal) → exact match_variable s ≡ some l → dots s ≤ 1
unfolding match_variable dots
exact_variable-dots s l h = elim (Option-cases (strip "%%globals." s)) [
  | inr (r, e) ↦
      let none_left =
        variable_at-dots r l (rw (exact-whole match_variable s, match_variable, e) at h) in
      ground (arith, strip-dots "%%globals." s r e, none_left)
  | inl e ↦ elim (Option-cases (strip "%%global." s)) [
    | inr (r, f) ↦
        let none_left =
          variable_at-dots r l (rw (exact-whole match_variable s, match_variable, e, f) at h) in
        ground (arith, strip-dots "%%global." s r f, none_left)
    | inl f ↦ absurd (ground (arith, rw (exact-whole match_variable s, match_variable, e, f) at h))
  ]
]

matches_from_skip :
    (match : String → Option (Literal × String)) (skip : ℕ) (s : String)
    → count s ≤ skip
    → matches_from match skip s ≡ []
unfolding matches_from
matches_from_skip match skip String.[] h = refl
matches_from_skip match zero (String.◌∷◌ c s) h = absurd (omega (arith, count.cons c s))
matches_from_skip match (suc skip) (String.◌∷◌ c s) h =
    matches_from_skip match skip s (omega (arith, count.cons c s))

empty_count : (s : String) → is_empty_text s ≡ true → count s ≡ 0
empty_count String.[] h = count.nil
empty_count (String.◌∷◌ c s) h = cc

-- A literal that is a whole text is the only one in it.
pub matches_from-exact :
    (match : String → Option (Literal × String)) (s : String) (l : Literal)
    → match "" ≡ none
    → exact match s ≡ some l
    → matches_from match 0 s ≡ l ∷ []
unfolding matches_from
matches_from-exact match String.[] l n h =
    absurd (ground (arith, rw (exact-whole match "", n) at h))
matches_from-exact match (String.◌∷◌ c s) l n h = elim (Option-cases (match (String.◌∷◌ c s))) [
  | inl e ↦ absurd (ground (arith, rw (exact-whole match (String.◌∷◌ c s), e) at h))
  | inr ((found, after), e) ↦ elim (Bool-cases (is_empty_text after)) [
    | inr f ↦ absurd (ground (arith, rw (exact-whole match (String.◌∷◌ c s), e, f) at h))
    | inl f ↦
        let same = some_inj (rw (exact-whole match (String.◌∷◌ c s), e, f) at h) in
        let over =
          matches_from_skip match (match_rest s after) s (omega (arith, empty_count after f)) in
        rw (e, matches_from, over, same)
  ]
]

pub match_literal_empty : match_literal "" ≡ none
unfolding match_literal strip
match_literal_empty = refl
