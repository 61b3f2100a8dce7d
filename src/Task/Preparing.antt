-- ===== src/Task/Preparing.antt =====
-- The preparation of an operation's arguments as a part of its run: what
-- operations/runTaskManagerOperation.ts does with an operation whose literals do not resolve.
use mathlib.Core.Option
use nosana_node.Base.{String, ◌≡◌, true, Option, none, some, Result, ok, err, failed, failed_bind}
use nosana_node.Base.Map
use nosana_node.Json.{Value, Fields, Engine}
use nosana_node.Interpolate.{ArgsError}
use nosana_node.Interpolate.Unresolved.{has_unresolved, failed-interpolate_operation}
use nosana_node.Collections.{prepare_args}
use nosana_node.Operation.{Operation}

-- The message of the error, or `none` where the provider is given the operation.
abbrev pub error_message : (ArgsError → String) → Result ArgsError Value → Option String
error_message message (err e) = some (message e)
error_message message (ok args) = none

module _ (js : Engine) (args_of : Operation → Value) (message : ArgsError → String)
    (globals buckets : Fields) where
  unfoldable pub prepare : Operation → Option String
  prepare op = error_message message (prepare_args js globals buckets (args_of op))

  -- Arguments with an unresolved literal are such.
  pub unresolved-prepare_args :
      (args : Value)
      → has_unresolved js globals buckets args ≡ true
      → failed (prepare_args js globals buckets args) ≡ true
  unfolding prepare_args
  unresolved-prepare_args args h =
      failed_bind _ _ (failed_bind _ _ (failed-interpolate_operation js globals buckets args h))
