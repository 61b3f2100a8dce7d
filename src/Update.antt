-- ===== src/Update.antt =====
-- version/index.ts, exitCodes.ts and cli/commands/start/action.ts: when the node asks for another
-- version of itself, how it leaves, and what becomes of its errors. The wrapper that it asks is in
-- Update/Wrapper.
pub mod Wrapper
pub mod Versions
pub mod Loop
mod Samples
use Prim.Native.Char.{code}
use nosana_node.Base.{
  String, str_eq, ℕ, suc, ◌+◌, ◌-◌, ◌*◌, ltb, leb, ◌==◌, Bool, true, false, not, ◌&&◌, ◌||◌, Option,
  none, some, List, [], ◌∷◌, if◌then◌else◌, get_elem?, Result, ok, err, contains,
}
use nosana_node.Base.Map
use nosana_node.Base.Map.{Map}
use nosana_node.Json.{split_dots}
use nosana_node.Literals.{is_empty_text}
use nosana_node.Resources.{includes}

-- `ExitRequest`; the wrapper's own type has an optional version.
pub data ExitRequest : Type 0 where
  update : Bool → Option String → ExitRequest
  restart : Bool → ExitRequest

abbrev is_digit : ℕ → Bool
is_digit c = leb b'0' c && leb c b'9'

-- The digits that a text begins with, after the number `n`.
unfoldable pub digits_from : ℕ → String → ℕ
digits_from n String.[] = n
digits_from n (String.◌∷◌ c s) =
    let rest = digits_from (n * 10 + (code c - b'0')) s in if is_digit (code c) then rest else n

-- `parseInt`, of a text that begins with a digit or is not a number: `none` is `NaN`.
unfoldable pub parse_int : String → Option ℕ
parse_int String.[] = none
parse_int (String.◌∷◌ c s) =
    if is_digit (code c) then some (digits_from 0 (String.◌∷◌ c s)) else none

-- `parseInt(part)`, of a part of a version that may be missing.
abbrev pub part : String → ℕ → Option ℕ
part version i = elim (get_elem? (split_dots version) i) [ none ↦ none | some s ↦ parse_int s ]

-- `a > b`
unfoldable pub requires_new_version : Option ℕ → Option ℕ → Bool
requires_new_version (some required) (some current) = ltb current required
requires_new_version _ _ = false

-- `a === b`; `NaN` is not equal to itself.
abbrev pub same_number : Option ℕ → Option ℕ → Bool
same_number (some a) (some b) = a == b
same_number _ _ = false

-- The tests of `validateCLIVersion` on the registry's version and on the version that runs.
unfoldable pub is_outdated : String → String → Bool
is_outdated latest current =
    if same_number (part latest 0) (part current 0)
    then if same_number (part latest 1) (part current 1)
      then requires_new_version (part latest 2) (part current 2)
      else requires_new_version (part latest 1) (part current 1)
    else requires_new_version (part latest 0) (part current 0)

abbrev pub is_dev : String → Bool
is_dev version =
    same_number (part version 0) (some 0)
    && same_number (part version 1) (some 0)
    && same_number (part version 2) (some 0)

abbrev pub dist_tag : String → String
dist_tag version = if includes "-rc" version then "next" else "latest"

abbrev pub is_seeded : Option String → String → Bool
is_seeded none version = false
is_seeded (some seed) version = str_eq version seed

-- The registry's version under the tag, unless the request failed or has no text there.
abbrev pub registry_version : Result String (Option (Map String)) → String → Option String
registry_version (ok (some tags)) tag = elim (Map.get tag tags) [
  | some version ↦ if is_empty_text version then none else some version
  | none ↦ none
]
registry_version _ tag = none

-- `validateCLIVersion`, with the answer of `fetchDistTags`: the exit that it asks for, if it does.
-- `seed` is the environment's `NOSANA_NODE_INITIAL_VERSION`.
unfoldable pub validate_cli_version :
    Bool → String → Option String → Result String (Option (Map String)) → Option ExitRequest
validate_cli_version in_job_loop version seed tags =
    if not in_job_loop && is_seeded seed version
    then none
    else if is_dev version
    then none
    else elim (registry_version tags (dist_tag version)) [
      | none ↦ none
      | some latest ↦
          if is_outdated latest version then some (update in_job_loop (some latest)) else none
    ]

-- How a process ends: its exit code, and the messages that its parent has taken.
pub record Exit : Type 0 where
  pub exit_code : ℕ
  pub messages : List (Option ExitRequest)

abbrev pub respawn_exit_code : ℕ
respawn_exit_code = 129

-- `requestExit`: `delivered` is whether there is a channel and the message is taken before the exit.
unfoldable pub request_exit : Bool → ExitRequest → Exit
request_exit delivered request = record {
  exit_code = respawn_exit_code;
  messages = if delivered then some request ∷ [] else [];
}

abbrev pub terminal_errors : List String
terminal_errors = "NodeBannedError" ∷ "NodeNotQualifiedError" ∷ []

-- What the loop of `startNode` does with an error, in order.
pub data Act : Type 0 where
  clean error stop : Act
  delay : ℕ → Act

-- How that ends: the loop returns, goes on, exits with a code, or asks for another process.
pub data Ending : Type 0 where
  returns goes_on : Ending
  exits : ℕ → Ending
  asks : ExitRequest → Ending

abbrev pub check_ending : Option ExitRequest → Ending
check_ending none = goes_on
check_ending (some request) = asks request

-- The `catch` of the loop, for an error of a name. `outdated` is what `validateCLIVersion(true)`
-- asks for.
unfoldable pub on_error : String → Bool → Bool → Option ExitRequest → List Act × Ending
on_error name stopping in_job_loop outdated =
    if stopping
    then ([], returns)
    else if str_eq name "WSLBlockedError"
    then (stop ∷ [], exits 1)
    else if str_eq name "NodeAlreadyActiveError"
    then ([], exits 0)
    else if in_job_loop
    then (clean ∷ delay 60 ∷ [], check_ending outdated)
    else (
      error ∷ stop ∷ [],
      if contains name terminal_errors then exits 0 else asks (restart in_job_loop),
    )

-- The process's exit, where there is one.
unfoldable pub exit_of : Bool → Ending → Option Exit
exit_of delivered returns = none
exit_of delivered goes_on = none
exit_of delivered (exits n) = some (record { exit_code = n; messages = [] })
exit_of delivered (asks request) = some (request_exit delivered request)
