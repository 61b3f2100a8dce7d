-- ===== src/Base/Window.antt =====
-- Buffers that drop their oldest item: what they hold of a history.
use nosana_node.Base.{
  ℕ, suc, zero, ◌-◌, ◌≤◌, ◌<◌, ◌≡◌, refl, inl, inr, List, [], ◌∷◌, ◌++◌, arith, if◌then◌else◌,
  Bool-cases, leb, length, drop, length-append, length-drop, drop-append_of_le,
}

module _ {ℓ} {A : Type ℓ} where
  -- The last `cap` items of a history.
  abbrev pub keep_last : ℕ → List A → List A
  keep_last cap xs = drop (length xs - cap) xs

  pub drop-drop_one : (n : ℕ) (xs : List A) → drop 1 (drop n xs) ≡ drop (suc n) xs
  drop-drop_one zero xs = refl
  drop-drop_one (suc n) [] = refl
  drop-drop_one (suc n) (x ∷ xs) = drop-drop_one n xs

  pub length-keep_last : (cap : ℕ) (xs : List A) → length (keep_last cap xs) ≤ cap
  length-keep_last cap xs = omega (arith, length-drop (length xs - cap) xs)

  -- Dropping the oldest item when the buffer is full, then appending, keeps the last `cap`.
  pub keep_last-push :
      (cap : ℕ) (xs : List A) (x : A)
      → 0 < cap
      → (if leb cap (length (keep_last cap xs))
            then drop 1 (keep_last cap xs)
            else keep_last cap xs)
          ++ (x ∷ [])
        ≡ keep_last cap (xs ++ (x ∷ []))
  keep_last-push cap xs x pos = elim (Bool-cases (leb cap (length (keep_last cap xs)))) [
    | inl full ↦
        let n = length xs - cap in
        let more : cap ≤ length xs = ground (arith, length-drop (length xs - cap) xs) in
        let amount : length (xs ++ (x ∷ [])) - cap ≡ suc n =
          omega (arith, length-append xs (x ∷ [])) in
        rw (full, amount, drop-append_of_le (suc n) xs (x ∷ []) (omega arith), drop-drop_one n xs)
    | inr room ↦
        let fewer : length xs - cap ≡ 0 = ground (arith, length-drop (length xs - cap) xs) in
        let amount : length (xs ++ (x ∷ [])) - cap ≡ 0 =
          ground (arith, length-append xs (x ∷ []), length-drop (length xs - cap) xs) in
        rw (room, amount, fewer)
  ]
