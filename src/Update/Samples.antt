-- ===== src/Update/Samples.antt =====
-- A node of version 1.2.9 and a registry that has 1.10.0, and a wrapper with a pinned version.
use nosana_node.Base.{
  String, ◌≡◌, ◌⊎◌, refl, true, false, Option, none, some, Result, ok, [], ◌∷◌, arith, inr, inl,
}
use nosana_node.Base.Map
use nosana_node.Base.Map.{Map}
use nosana_node.Json.{split_dots}
use nosana_node.Update.{
  registry_version, dist_tag, ExitRequest, update, restart, Exit, goes_on, on_error, exit_of,
  request_exit, validate_cli_version, parse_int, digits_from,
}
use nosana_node.Update.Versions.{Numbers, validate_cli_version_iff}
use nosana_node.Update.Wrapper.{respawns, after_exit}
use nosana_node.Update.Loop.{on_error-respawns}
use nosana_node.Resources.{includes}
use nosana_node.Literals.{strip}

abbrev tags : Result String (Option (Map String))
tags = ok (some (("latest", "1.10.0") ∷ []))

current : Numbers "1.2.9"
unfolding split_dots parse_int digits_from
current = record {
  major = 1;
  minor = 2;
  patch = 9;
  at_major = refl;
  at_minor = refl;
  at_patch = refl;
}

latest : Numbers "1.10.0"
unfolding split_dots parse_int digits_from
latest = record {
  major = 1;
  minor = 10;
  patch = 0;
  at_major = refl;
  at_minor = refl;
  at_patch = refl;
}

abbrev asked : Option ExitRequest
asked = validate_cli_version true "1.2.9" none tags

validate_cli_version_iff_example : asked ≡ some (update true (some "1.10.0"))
unfolding split_dots parse_int digits_from current latest includes strip Map.get
validate_cli_version_iff_example =
    (validate_cli_version_iff "1.2.9" "1.10.0" none tags current latest refl refl).0.1
      (inr (inl (refl, omega arith)))

abbrev updated : Exit
updated = request_exit true (update true (some "1.10.0"))

abbrev crashed : Exit
crashed = request_exit false (restart false)

on_error-respawns_example :
    let ending = (on_error "TypeError" false true asked).1 in
    (ending ≡ goes_on)
    ⊎ ((version : String) × (e : Exit) × (registry_version tags (dist_tag "1.2.9") ≡ some version)
        × (exit_of true ending ≡ some e)
        × (after_exit none (record { exit = e; stop_signal = false })
            ≡ respawns 0 (some version ∷ []) true))
on_error-respawns_example = on_error-respawns "TypeError" "1.2.9" none tags refl refl
