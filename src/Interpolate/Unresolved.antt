-- ===== src/Interpolate/Unresolved.antt =====
-- An operation with a literal that the stores do not resolve is not run.
use Prim.Native.String.{◌++◌ as concat}
use nosana_node.Literals.Dots.{
  matches_from-exact, matches_from-nil, exact_variable-dots, match_literal_empty,
}
use nosana_node.Base.{
  String, ℕ, zero, suc, ◌≡◌, inl, inr, true, false, ◌||◌, Bool, Bool-cases, Option-cases, List, [],
  ◌∷◌, arith, is_some, Result, ok, ◌>>=◌, not, failed, failed_bind, failed_then,
}
use nosana_node.Json.{
  Value, null, bool, num, str, arr, obj, Items, nil, cons, Fields, end, field, Engine,
}
use nosana_node.Literals.{
  Literal, match_literal, match_variable, match_rest, exact, matches_from, replace_from,
}
use nosana_node.Interpolate.Texts.{interpolate_text-replaces}
use nosana_node.Interpolate.{
  ArgsError, lookup, resolve, render, resolve_raw_if_exact, interpolate_text,
  interpolate_any_strict, interpolate_items, interpolate_fields, interpolate_operation,
}

module _ (js : Engine) (globals buckets : Fields) where
  abbrev pub is_unresolved : Literal → Bool
  is_unresolved literal = not (is_some (lookup js globals buckets literal))

  abbrev any_unresolved : List Literal → Bool
  any_unresolved [] = false
  any_unresolved (l ∷ ls) = is_unresolved l || any_unresolved ls

  -- Some `%%ops.…%%` or `%%global.….…%%` in a text of the value has nothing in the stores.
  unfoldable mutual
    pub has_unresolved : Value → Bool
    has_unresolved (str s) = any_unresolved (matches_from match_literal 0 s)
    has_unresolved (arr xs) = items_unresolved xs
    has_unresolved (obj fs) = fields_unresolved fs
    has_unresolved _ = false

    pub items_unresolved : Items → Bool
    items_unresolved nil = false
    items_unresolved (cons v xs) = has_unresolved v || items_unresolved xs

    pub fields_unresolved : Fields → Bool
    fields_unresolved end = false
    fields_unresolved (field k v fs) = has_unresolved v || fields_unresolved fs

  failed-resolve :
      (l : Literal) → is_unresolved l ≡ true → failed (resolve js globals buckets l) ≡ true
  unfolding resolve
  failed-resolve l h = elim (Option-cases (lookup js globals buckets l)) [
    | inl e ↦ rw (e, resolve)
    | inr (v, e) ↦ absurd (ground arith)
  ]

  failed_head :
      (l : Literal) (ls : List Literal) (rest : Result ArgsError String)
      → (any_unresolved ls ≡ true → failed rest ≡ true)
      → (is_unresolved l || any_unresolved ls) ≡ true
      → failed (render js globals buckets l >>= λ t. rest >>= λ r. ok (concat t r)) ≡ true
  unfolding render
  failed_head l ls rest later h = elim (Bool-cases (is_unresolved l)) [
    | inl e ↦ failed_bind _ _ (failed_bind _ _ (failed-resolve l e))
    | inr e ↦ failed_then _ _ (λ t. failed_bind _ _ (later (rw e at h)))
  ]

  failed-replace_from :
      (skip : ℕ) (s : String)
      → any_unresolved (matches_from match_literal skip s) ≡ true
      → failed (replace_from match_literal (render js globals buckets) skip s) ≡ true
  unfolding matches_from replace_from
  failed-replace_from skip String.[] h = cc
  failed-replace_from (suc skip) (String.◌∷◌ c s) h = failed-replace_from skip s h
  failed-replace_from zero (String.◌∷◌ c s) h =
      elim (Option-cases (match_literal (String.◌∷◌ c s))) [
        | inl e ↦
            rw (e, replace_from)
              (failed_bind _ _ (failed-replace_from zero s (rw (e, matches_from) at h)))
        | inr ((l, after), e) ↦
            rw (e, replace_from)
              (failed_head l (matches_from match_literal (match_rest s after) s) _
                (failed-replace_from (match_rest s after) s) (rw (e, matches_from) at h))
      ]

  failed-interpolate_text :
      (s : String)
      → any_unresolved (matches_from match_literal 0 s) ≡ true
      → failed (interpolate_text js globals buckets s) ≡ true
  unfolding interpolate_text resolve_raw_if_exact
  failed-interpolate_text s h = elim (Option-cases (exact match_literal s)) [
    | inr (l, e) ↦
        let found = matches_from-exact match_literal s l match_literal_empty e in
        failed_bind (resolve_raw_if_exact js globals buckets s) _ (
          rw (e, resolve_raw_if_exact)
            (failed_bind _ _ (failed-resolve l (ground (arith, rw found at h)))))
    | inl e ↦ elim (Option-cases (exact match_variable s)) [
      | inr (l, f) ↦
          absurd (ground (arith, rw (matches_from-nil 0 s (exact_variable-dots s l f)) at h))
      | inl f ↦
          rw (interpolate_text-replaces js globals buckets s e f)
            (failed_bind _ _ (failed_bind _ _ (failed-replace_from 0 s h)))
    ]
  ]

  mutual
    unfolding interpolate_any_strict has_unresolved

    failed-interpolate_any_strict :
        (v : Value)
        → has_unresolved v ≡ true
        → failed (interpolate_any_strict js globals buckets v) ≡ true
    failed-interpolate_any_strict null h = cc
    failed-interpolate_any_strict (bool b) h = cc
    failed-interpolate_any_strict (num n) h = cc
    failed-interpolate_any_strict (str s) h = failed-interpolate_text s h
    failed-interpolate_any_strict (arr xs) h = failed_bind _ _ (failed-interpolate_items xs h)
    failed-interpolate_any_strict (obj fs) h = failed_bind _ _ (failed-interpolate_fields fs h)

    failed-interpolate_items :
        (xs : Items)
        → items_unresolved xs ≡ true
        → failed (interpolate_items js globals buckets xs) ≡ true
    failed-interpolate_items nil h = cc
    failed-interpolate_items (cons v xs) h = elim (Bool-cases (has_unresolved v)) [
      | inl e ↦ failed_bind _ _ (failed-interpolate_any_strict v e)
      | inr e ↦ failed_then _ _ (λ w. failed_bind _ _ (failed-interpolate_items xs (rw e at h)))
    ]

    failed-interpolate_fields :
        (fs : Fields)
        → fields_unresolved fs ≡ true
        → failed (interpolate_fields js globals buckets fs) ≡ true
    failed-interpolate_fields end h = cc
    failed-interpolate_fields (field k v fs) h = elim (Bool-cases (has_unresolved v)) [
      | inl e ↦ failed_bind _ _ (failed-interpolate_any_strict v e)
      | inr e ↦ failed_then _ _ (λ w. failed_bind _ _ (failed-interpolate_fields fs (rw e at h)))
    ]

  -- If a text somewhere in the arguments has a literal `%%ops.<id>.<path>%%` or
  -- `%%global.<key>.<path>%%` for which the stores hold nothing, the interpolation throws.
  pub failed-interpolate_operation :
      (args : Value)
      → has_unresolved args ≡ true
      → failed (interpolate_operation js globals buckets args) ≡ true
  unfolding interpolate_operation
  failed-interpolate_operation args h = failed_bind _ _ (failed-interpolate_any_strict args h)
