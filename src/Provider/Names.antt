-- ===== src/Provider/Names.antt =====
-- The containers of an operation, by their names.
use Prim.Native.String.{count}
use text.Mathlib.TextLemmas.{length-append}
use nosana_node.Base.{
  String, str_eq, eq_iff, eq_refl, ◌+◌, ap, ◌≢◌, ◌≡◌, Bool, true, false, not, ◌&&◌, List, ◌∷◌,
  if◌then◌else◌, contains, remove, ok, arith, Bool-cases, inl, inr, contains-remove,
}
use nosana_node.Provider.{
  Runtime, frpc_name, bridge_name, create_container, remove_container, remove_containers, launch,
  tear_down,
}

apart : (s t : String) → count s ≢ count t → str_eq s t ≡ false
apart s t h = elim (Bool-cases (str_eq s t)) [
  | inl e ↦ absurd (h (ap count ((eq_iff s t).0 e)))
  | inr e ↦ e
]

-- The three names are different.
pub record IsApart (name : String) : Type 0 where
  pub frpc_op : str_eq (frpc_name name) name ≡ false
  pub bridge_op : str_eq (bridge_name name) name ≡ false
  pub frpc_bridge : str_eq (frpc_name name) (bridge_name name) ≡ false

names-IsApart : (name : String) → IsApart name
names-IsApart name =
    let frpc : count (frpc_name name) ≡ 5 + count name = length-append "frpc-" name in
    let bridge : count (bridge_name name) ≡ 7 + count name = length-append "bridge-" name in
    record {
      frpc_op = apart (frpc_name name) name (λ e. absurd (omega (arith, frpc, e)));
      bridge_op = apart (bridge_name name) name (λ e. absurd (omega (arith, bridge, e)));
      frpc_bridge =
          apart (frpc_name name) (bridge_name name) (λ e. absurd (omega (arith, frpc, bridge, e)));
    }

-- What is left without the containers of an operation.
abbrev pub is_other : String → String → Bool
is_other name x =
    not (str_eq name x) && not (str_eq (frpc_name name) x) && not (str_eq (bridge_name name) x)

-- The runtime can remove the containers of an operation.
abbrev pub IsRemovable : String → Runtime → Type 0
IsRemovable name r =
    (contains name r.stuck ≡ false)
    × (contains (frpc_name name) r.stuck ≡ false)
    × (contains (bridge_name name) r.stuck ≡ false)

contains-remove_containers :
    (name x : String) (r : Runtime)
    → IsRemovable name r
    → contains x (remove_containers name r).containers
      ≡ (is_other name x && contains x r.containers)
unfolding remove_containers remove_container
contains-remove_containers name x r free =
    let kept = remove name r.containers in
    ground (
      arith,
      contains-remove x name r.containers,
      contains-remove x (frpc_name name) kept,
      contains-remove x (bridge_name name) (remove (frpc_name name) kept),
    )

-- What a launch leaves in the runtime.
abbrev pub launched : Bool → Bool → String → Runtime → List String
launched exposed trusted name r =
    let cleared = (remove_containers name r).containers in
    let proxied = if exposed then frpc_name name ∷ cleared else cleared in
    let bridged = if trusted then bridge_name name ∷ proxied else proxied in name ∷ bridged

launch-eq :
    (exposed trusted : Bool) (name : String) (r : Runtime)
    → IsRemovable name r
    → launch exposed trusted name r ≡ ok (record r { containers = launched exposed trusted name r })
unfolding launch create_container remove_containers remove_container
launch-eq exposed trusted name r free =
    let d = names-IsApart name in
    ground (
      arith,
      d.frpc_op,
      d.bridge_op,
      d.frpc_bridge,
      eq_refl name,
      eq_refl (frpc_name name),
      eq_refl (bridge_name name),
      contains-remove_containers name name r free,
      contains-remove_containers name (frpc_name name) r free,
      contains-remove_containers name (bridge_name name) r free,
    )

contains-launched :
    (exposed trusted : Bool) (name x : String) (r : Runtime)
    → IsRemovable name r
    → is_other name x ≡ true
    → contains x (launched exposed trusted name r) ≡ contains x r.containers
contains-launched exposed trusted name x r free other =
    ground (arith, contains-remove_containers name x r free)

-- Whatever containers the runtime has, if it can remove those with the names of an operation, the
-- launch of the operation creates all that it needs: none of its names is taken. Then the
-- operation's own container is there, and every container is there that was there before and has
-- none of the three names of the operation. After its removal just the latter are left.
pub tear_down-launch :
    (exposed trusted : Bool) (name : String) (r : Runtime)
    → IsRemovable name r
    → (after : Runtime) × (launch exposed trusted name r ≡ ok after)
      × (contains name after.containers ≡ true)
      × ((x : String)
          → is_other name x ≡ true
          → contains x after.containers ≡ contains x r.containers)
      × ((x : String)
          → contains x (tear_down name after).containers
            ≡ (is_other name x && contains x r.containers))
unfolding tear_down
tear_down-launch exposed trusted name r free =
    let after = record r { containers = launched exposed trusted name r } in
    (
      after,
      launch-eq exposed trusted name r free,
      ground (arith, eq_refl name),
      λ x other. contains-launched exposed trusted name x r free other,
      λ x. elim (Bool-cases (is_other name x)) [
        | inl o ↦ ground (
          arith,
          o,
          contains-remove_containers name x after free,
          contains-launched exposed trusted name x r free o,
        )
        | inr o ↦ ground (arith, o, contains-remove_containers name x after free)
      ],
    )

-- A container of the operation's name that is there and cannot be removed makes every launch throw.
pub launch-stuck :
    (exposed trusted : Bool) (name : String) (r : Runtime)
    → contains name r.stuck ≡ true
    → contains name r.containers ≡ true
    → (next : Runtime) → launch exposed trusted name r ≢ ok next
unfolding launch create_container remove_containers remove_container
launch-stuck exposed trusted name r held there next h =
    let d = names-IsApart name in
    absurd (
      ground (
        arith,
        h,
        d.frpc_op,
        d.bridge_op,
        contains-remove name (frpc_name name) r.containers,
        contains-remove name (bridge_name name) r.containers,
        contains-remove name (bridge_name name) (remove (frpc_name name) r.containers),
      ))
