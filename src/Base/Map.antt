-- ===== src/Base/Map.antt =====
-- JavaScript's `Map<string, V>` and the objects used as dictionaries: an association list in
-- insertion order. `set` writes in place or at the end, as both do for names that are no integers.
use mathlib.Core.Option
use nosana_node.Base.{
  String, str_eq, eq_iff, eq_refl, ◌≡◌, refl, Bool, false, Option, none, some, List, [], ◌∷◌, ◌++◌,
  map, if◌then◌else◌, is_some, contains, IsDistinct, arith, Bool-cases, inl, inr, contains-append,
}

abbrev pub Map {ℓ} : Type ℓ → Type ℓ
Map V = List (String × V)

module _ {ℓ} {V : Type ℓ} where
  unfoldable pub get : String → Map V → Option V
  get k [] = none
  get k ((j, v) ∷ m) = if str_eq j k then some v else get k m

  abbrev pub has : String → Map V → Bool
  has k m = is_some (get k m)

  unfoldable pub set : String → V → Map V → Map V
  set k v [] = (k, v) ∷ []
  set k v ((j, w) ∷ m) = if str_eq j k then (j, v) ∷ m else (j, w) ∷ set k v m

  unfoldable pub delete : String → Map V → Map V
  delete k [] = []
  delete k ((j, w) ∷ m) = let rest = delete k m in if str_eq j k then rest else (j, w) ∷ rest

  -- A change of the value under a key, if there is one.
  unfoldable pub modify : String → (V → V) → Map V → Map V
  modify k f [] = []
  modify k f ((j, w) ∷ m) = if str_eq j k then (j, f w) ∷ m else (j, w) ∷ modify k f m

  abbrev pub keys : Map V → List String
  keys m = map (λ e. e.0) m

  abbrev pub values : Map V → List V
  values m = map (λ e. e.1) m

  pub get-set :
      (k j : String) (v : V) (m : Map V)
      → get j (set k v m) ≡ (if str_eq k j then some v else get j m)
  unfolding get set
  get-set k j v [] = refl
  get-set k j v ((i, w) ∷ m) = ground (arith, eq_iff k j, eq_iff i k, eq_iff i j, get-set k j v m)

  pub get-delete :
      (k j : String) (m : Map V) → get j (delete k m) ≡ (if str_eq k j then none else get j m)
  unfolding get delete
  get-delete k j [] = ground arith
  get-delete k j ((i, w) ∷ m) = ground (arith, eq_iff k j, eq_iff i k, eq_iff i j, get-delete k j m)

  pub get-modify :
      (k j : String) (f : V → V) (m : Map V)
      → get j (modify k f m) ≡ (if str_eq k j then Option.map f (get j m) else get j m)
  unfolding get modify
  get-modify k j f [] = ground arith
  get-modify k j f ((i, w) ∷ m) =
      ground (arith, eq_iff k j, eq_iff i k, eq_iff i j, get-modify k j f m)

  pub has-modify : (k j : String) (f : V → V) (m : Map V) → has j (modify k f m) ≡ has j m
  has-modify k j f m = ground (arith, get-modify k j f m)

  pub get-set_self : (k : String) (v : V) (m : Map V) → get k (set k v m) ≡ some v
  get-set_self k v m = ground (arith, get-set k k v m, eq_refl k)

  pub get-delete_self : (k : String) (m : Map V) → get k (delete k m) ≡ none
  get-delete_self k m = ground (arith, get-delete k k m, eq_refl k)

  pub has-contains : (k : String) (m : Map V) → has k m ≡ contains k (keys m)
  unfolding get
  has-contains k [] = refl
  has-contains k ((j, v) ∷ m) = ground (arith, has-contains k m)

  -- A key that is there keeps its place, and a new one comes last.
  pub keys-set :
      (k : String) (v : V) (m : Map V)
      → keys (set k v m) ≡ (if has k m then keys m else keys m ++ (k ∷ []))
  unfolding get set
  keys-set k v [] = refl
  keys-set k v ((j, w) ∷ m) = ground (arith, keys-set k v m)

  pub set-eq-append :
      (k : String) (v : V) (m : Map V) → has k m ≡ false → set k v m ≡ m ++ ((k, v) ∷ [])
  unfolding get set
  set-eq-append k v [] h = refl
  set-eq-append k v ((j, w) ∷ m) h = ground (arith, set-eq-append k v m)

pub IsDistinct-concat :
    (xs : List String) (k : String)
    → IsDistinct xs
    → contains k xs ≡ false
    → IsDistinct (xs ++ (k ∷ []))
IsDistinct-concat [] k h n = (refl, tt)
IsDistinct-concat (x ∷ xs) k h n = (
  ground (arith, contains-append x xs (k ∷ []), eq_iff k x, eq_iff x k, eq_refl k),
  IsDistinct-concat xs k h.1 (ground arith),
)

-- A map's keys stay distinct.
pub keys-IsDistinct-set {ℓ} :
    {V : Type ℓ} (k : String) (v : V) (m : Map V)
    → IsDistinct (keys m)
    → IsDistinct (keys (set k v m))
keys-IsDistinct-set k v m h = elim (Bool-cases (has k m)) [
  | inl old ↦ rw (keys-set k v m, old) h
  | inr new ↦
      rw (keys-set k v m, new) (IsDistinct-concat (keys m) k h (ground (arith, has-contains k m)))
]
