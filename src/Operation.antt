-- ===== src/Operation.antt =====
-- The operations of a job definition, as far as the node reads them: the `Operation` of the SDK
-- that NodeManager/node/task takes, with `op.execution?.…` read through the helpers below.
use mathlib.Core.Option
use nosana_node.Base.{
  String, ℕ, suc, Bool, false, Option, none, some, List, [], ◌∷◌, map, or_else, str_eq,
  if◌then◌else◌,
}

pub record Execution : Type 0 where
  pub group : Option String
  pub depends_on : Option (List String)
  pub stop_if_dependent_stops : Option Bool
  pub timeout : Option ℕ

pub record Operation : Type 0 where
  pub id : String
  pub execution : Option Execution

-- `op.execution?.group`
abbrev pub declared_group : Operation → Option String
declared_group op = elim (op.execution) [ none ↦ none | some e ↦ e.group ]

-- `op.execution?.group ?? op.id`
abbrev pub group_of : Operation → String
group_of op = or_else (declared_group op) op.id

-- `op.execution?.depends_on ?? []`
abbrev pub depends_on : Operation → List String
depends_on op = elim (op.execution) [ none ↦ [] | some e ↦ or_else e.depends_on [] ]

-- `op.execution?.stop_if_dependent_stops === true`
abbrev pub serves : Operation → Bool
serves op = elim (op.execution) [ none ↦ false | some e ↦ or_else e.stop_if_dependent_stops false ]

abbrev pub ids : List Operation → List String
ids ops = map (λ op. op.id) ops

-- The first operation of a name: `ops.find((op) => op.id === id)`.
unfoldable pub find_operation : String → List Operation → Option Operation
find_operation id [] = none
find_operation id (op ∷ ops) = if str_eq op.id id then some op else find_operation id ops

-- `ops.findIndex((op) => op.id === id)`, `none` for -1.
unfoldable pub find_index : String → List Operation → Option ℕ
find_index id [] = none
find_index id (op ∷ ops) =
    if str_eq op.id id then some 0 else Option.map (λ n. suc n) (find_index id ops)
