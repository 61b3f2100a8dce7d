-- ===== src/Literals.antt =====
-- The literals of NodeManager/node/task/globalStore/interpolateOperation.ts: what its four regular
-- expressions match. `LITERAL_RE` is `%%(ops|global)\.([^.]+)\.([A-Za-z0-9._-]+)%%` and `GLOBAL_RE`
-- is `%%(global|globals)\.([^.]+)%%`; the exact forms are anchored at both ends.
pub mod Dots
use Prim.Native.Char.{Char, code}
use Prim.Native.String.{◌++◌ as concat, count}
use nosana_node.Base.{
  String, ℕ, zero, suc, ◌-◌, ◌==◌, Bool, true, false, not, ◌&&◌, ◌||◌, Option, none, some, List, [],
  ◌∷◌, ◌++◌, if◌then◌else◌, leb, is_some, Result, ok, err, ◌>>=◌,
}

pub data Literal : Type 0 where
  ops : String → String → Literal
  global : String → String → Literal
  variable : String → Literal

-- What follows a prefix of a text.
unfoldable pub strip : String → String → Option String
strip String.[] s = some s
strip (String.◌∷◌ c p) String.[] = none
strip (String.◌∷◌ c p) (String.◌∷◌ d s) = if code c == code d then strip p s else none

abbrev pub prepend : Char → Option (String × String) → Option (String × String)
prepend c none = none
prepend c (some (part, after)) = some (String.◌∷◌ c part, after)

-- `[^.]+\.`, and what follows
unfoldable pub until_dot : String → Option (String × String)
until_dot String.[] = none
until_dot (String.◌∷◌ c s) = if code c == b'.' then some (String.[], s) else prepend c (until_dot s)

-- `[A-Za-z0-9._-]`
unfoldable pub is_path_char : ℕ → Bool
is_path_char c =
    (leb b'A' c && leb c b'Z')
    || (leb b'a' c && leb c b'z')
    || (leb b'0' c && leb c b'9')
    || c == b'.'
    || c == b'_'
    || c == b'-'

-- `[A-Za-z0-9._-]*%%`, and what follows. A percent sign is no character of a path.
unfoldable pub until_close : String → Option (String × String)
until_close String.[] = none
until_close (String.◌∷◌ c s) =
    if is_path_char (code c)
    then prepend c (until_close s)
    else elim (strip "%%" (String.◌∷◌ c s)) [ none ↦ none | some after ↦ some (String.[], after) ]

-- `[^.]+%%`, as much of it as there is, and what follows
unfoldable pub last_close : String → Option (String × String)
last_close String.[] = none
last_close (String.◌∷◌ c s) =
    let longer = last_close s in
    if code c == b'.' then none else elim longer [
      | some found ↦ prepend c (some found)
      | none ↦ elim (strip "%%" s) [
        | none ↦ none
        | some after ↦ some (String.◌∷◌ c String.[], after)
      ]
    ]

abbrev pub is_empty_text : String → Bool
is_empty_text String.[] = true
is_empty_text _ = false

-- `([^.]+)\.([A-Za-z0-9._-]+)%%`
unfoldable pub match_parts : String → Option (String × String × String)
match_parts s = elim (until_dot s) [
  | none ↦ none
  | some (id, rest) ↦ elim (until_close rest) [
    | none ↦ none
    | some (path, after) ↦
        if is_empty_text id || is_empty_text path then none else some (id, path, after)
  ]
]

-- `LITERAL_RE` at the start of a text, with what follows.
unfoldable pub match_literal : String → Option (Literal × String)
match_literal s = elim (strip "%%ops." s) [
  | some rest ↦ elim (match_parts rest) [
    | none ↦ none
    | some (id, path, after) ↦ some (ops id path, after)
  ]
  | none ↦ elim (strip "%%global." s) [
    | none ↦ none
    | some rest ↦ elim (match_parts rest) [
      | none ↦ none
      | some (key, path, after) ↦ some (global key path, after)
    ]
  ]
]

abbrev pub variable_at : Option String → Option (Literal × String)
variable_at none = none
variable_at (some rest) = elim (last_close rest) [
  | none ↦ none
  | some (key, after) ↦ some (variable key, after)
]

-- `GLOBAL_RE` at the start of a text, with what follows.
unfoldable pub match_variable : String → Option (Literal × String)
match_variable s = elim (strip "%%globals." s) [
  | some rest ↦ variable_at (some rest)
  | none ↦ variable_at (strip "%%global." s)
]

-- The regular expression between `^` and `$`.
unfoldable pub exact : (String → Option (Literal × String)) → String → Option Literal
exact match s = elim (match s) [
  | none ↦ none
  | some (literal, after) ↦ if is_empty_text after then some literal else none
]

-- `re.test(s)`
unfoldable pub has_match : (String → Option (Literal × String)) → String → Bool
has_match match String.[] = false
has_match match (String.◌∷◌ c s) = is_some (match (String.◌∷◌ c s)) || has_match match s

-- The characters of a match after its first.
abbrev pub match_rest : String → String → ℕ
match_rest s after = count s - count after

-- The matches of `s.replace(re, …)` from the left, none of which overlap; `skip` is how much of
-- the last one is still to come.
unfoldable pub matches_from : (String → Option (Literal × String)) → ℕ → String → List Literal
matches_from match skip String.[] = []
matches_from match (suc skip) (String.◌∷◌ c s) = matches_from match skip s
matches_from match zero (String.◌∷◌ c s) = elim (match (String.◌∷◌ c s)) [
  | none ↦ matches_from match zero s
  | some (literal, after) ↦ literal ∷ matches_from match (match_rest s after) s
]

module _ {E : Type 0} (match : String → Option (Literal × String))
    (render : Literal → Result E String) where
  -- `s.replace(re, render)`, which throws what the callback throws.
  unfoldable pub replace_from : ℕ → String → Result E String
  replace_from skip String.[] = ok ""
  replace_from (suc skip) (String.◌∷◌ c s) = replace_from skip s
  replace_from zero (String.◌∷◌ c s) = elim (match (String.◌∷◌ c s)) [
    | none ↦ replace_from zero s >>= λ rest. ok (String.◌∷◌ c rest)
    | some (literal, after) ↦ render literal >>= λ text.
        replace_from (match_rest s after) s >>= λ rest. ok (concat text rest)
  ]
