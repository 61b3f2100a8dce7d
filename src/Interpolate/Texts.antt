-- ===== src/Interpolate/Texts.antt =====
-- What `interpolateAnyStrict` does with a text that is no literal as a whole.
use nosana_node.Base.{String, ◌≡◌, none, ok, ◌>>=◌}
use nosana_node.Json.{str, Fields, Engine}
use nosana_node.Literals.{match_literal, match_variable, exact, replace_from}
use nosana_node.Interpolate.{render, resolve_raw_if_exact, resolve_string_strict, interpolate_text}

module _ (js : Engine) (globals buckets : Fields) where
  resolve_raw-none :
      (s : String)
      → exact match_literal s ≡ none
      → exact match_variable s ≡ none
      → resolve_raw_if_exact js globals buckets s ≡ ok none
  unfolding resolve_raw_if_exact
  resolve_raw-none s e f = rw (e, resolve_raw_if_exact, f)

  resolve_string-none :
      (s : String)
      → resolve_raw_if_exact js globals buckets s ≡ ok none
      → resolve_string_strict js globals buckets s ≡ (
          replace_from match_literal (render js globals buckets) 0 s
          >>= replace_from match_variable (render js globals buckets) 0)
  unfolding resolve_string_strict
  resolve_string-none s h = rw (h, resolve_string_strict)

  pub interpolate_text-replaces :
      (s : String)
      → exact match_literal s ≡ none
      → exact match_variable s ≡ none
      → interpolate_text js globals buckets s ≡ (
          replace_from match_literal (render js globals buckets) 0 s
          >>= replace_from match_variable (render js globals buckets) 0
          >>= λ t. ok (str t))
  unfolding interpolate_text
  interpolate_text-replaces s e f =
      let raw = resolve_raw-none s e f in rw (raw, interpolate_text, resolve_string-none s raw)
