-- ===== src/Update/Versions.antt =====
-- When a version of the node is outdated: the order of the versions' numbers.
use nosana_node.Base.{
  String, ℕ, ◌<◌, ◌≡◌, ◌↔◌, ◌⊎◌, inl, inr, refl, true, false, Option, none, some, Result, arith,
  Bool-cases, Option-cases,
}
use nosana_node.Base.Map.{Map}
use nosana_node.Update.{
  update, part, requires_new_version, is_outdated, is_dev, dist_tag, registry_version,
  validate_cli_version,
}

-- The first three parts of a version are numbers.
pub record Numbers (version : String) : Type 0 where
  pub major : ℕ
  pub minor : ℕ
  pub patch : ℕ
  pub at_major : part version 0 ≡ some major
  pub at_minor : part version 1 ≡ some minor
  pub at_patch : part version 2 ≡ some patch

-- The order of versions by their first difference.
abbrev pub Older : {current latest : String} → Numbers current → Numbers latest → Type 0
Older c l =
    (c.major < l.major)
    ⊎ ((c.major ≡ l.major) × (c.minor < l.minor))
    ⊎ ((c.major ≡ l.major) × (c.minor ≡ l.minor) × (c.patch < l.patch))

is_outdated_iff :
    (latest current : String) (c : Numbers current) (l : Numbers latest)
    → (is_outdated latest current ≡ true) ↔ Older c l
unfolding is_outdated requires_new_version
is_outdated_iff latest current c l = (λ h. ground arith, λ o. ground arith)

-- In the job loop, a version that is not 0.0.0 asks for an update to the version under its tag in
-- the registry exactly if its first three numbers are before those of that version, where both
-- versions have them; it asks for nothing else.
pub validate_cli_version_iff :
    (version latest : String) (seed : Option String) (tags : Result String (Option (Map String)))
    (c : Numbers version) (l : Numbers latest)
    → is_dev version ≡ false
    → registry_version tags (dist_tag version) ≡ some latest
    → ((validate_cli_version true version seed tags ≡ some (update true (some latest))) ↔ Older c l)
      × ((validate_cli_version true version seed tags ≡ none) ↔ (¬ Older c l))
unfolding validate_cli_version
validate_cli_version_iff version latest seed tags c l dev found =
    elim (Bool-cases (is_outdated latest version)) [
      | inl h ↦ (
        (λ _. (is_outdated_iff latest version c l).0 h, λ _. rw (dev, found, h) refl),
        (
          λ e. ground (arith, dev, found, h),
          λ n. absurd (n ((is_outdated_iff latest version c l).0 h)),
        ),
      )
      | inr h ↦ (
        (
          λ e. ground (arith, dev, found, h),
          λ o. ground (arith, (is_outdated_iff latest version c l).1 o),
        ),
        (
          λ _ o. ground (arith, (is_outdated_iff latest version c l).1 o),
          λ _. rw (dev, found, h) refl,
        ),
      )
    ]

-- All that a check in the job loop can ask for.
pub validate_cli_version_cases :
    (version : String) (seed : Option String) (tags : Result String (Option (Map String)))
    → (validate_cli_version true version seed tags ≡ none)
      ⊎ ((latest : String) × (registry_version tags (dist_tag version) ≡ some latest)
          × (validate_cli_version true version seed tags ≡ some (update true (some latest))))
unfolding validate_cli_version
validate_cli_version_cases version seed tags = elim (Bool-cases (is_dev version)) [
  | inl dev ↦ inl (rw dev refl)
  | inr dev ↦ elim (Option-cases (registry_version tags (dist_tag version))) [
    | inl r ↦ inl (rw (dev, r) refl)
    | inr (latest, r) ↦ elim (Bool-cases (is_outdated latest version)) [
      | inl o ↦ inr (latest, r, rw (dev, r, o) refl)
      | inr o ↦ inl (rw (dev, r, o) refl)
    ]
  ]
]
