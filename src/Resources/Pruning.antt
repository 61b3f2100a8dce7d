-- ===== src/Resources/Pruning.antt =====
-- What `pullMarketRequiredImages` marks, and that `pruneImages` leaves it.
use nosana_node.Base.{
  String, str_eq, eq_iff, eq_refl, ℕ, ◌≡◌, inl, inr, Bool, true, false, ◌||◌, Option, none, some,
  List, [], ◌∷◌, map, if◌then◌else◌, contains, arith, Bool-cases, Option-cases, Result, ok, err,
  >>=-eq-ok, sym, ok_inj, some_inj, ap,
}
use nosana_node.Base.Map
use nosana_node.Base.Map.{Map}
use nosana_node.Resources.{Docker, CachedImage, RequiredImage}
use nosana_node.Resources.Images.{
  ImageResource, ImageManager, find_entry, repo_tags_contains_image, prune_image, prune_loop,
  prune_images, on_host, mark_required, pull_loop, pull_market_required_images,
  update_image_resource,
}

-- Whether a name has an entry that is marked as required.
abbrev pub flagged : Option ImageResource → Bool
flagged none = false
flagged (some entry) = entry.required

find_entry-get :
    (tags : Option (List String)) (name : String) (entry : ImageResource)
    (images : Map ImageResource)
    → find_entry tags images ≡ some (name, entry)
    → (repo_tags_contains_image name tags ≡ true) × (Map.get name images ≡ some entry)
unfolding find_entry Map.get
find_entry-get tags name entry [] h = absurd (ground arith)
find_entry-get tags name entry ((j, w) ∷ images) h =
    elim (Bool-cases (repo_tags_contains_image j tags)) [
      | inl e ↦
          let found = some_inj (rw (e, find_entry) at h) in
          let same : j ≡ name = ap (λ p. p.0) found in
          let held : w ≡ entry = ap (λ p. p.1) found in
          (rw same at e, rw (same, eq_refl name, held))
      | inr e ↦
          let (matched, there) = find_entry-get tags name entry images (rw (e, find_entry) at h) in
          let apart : str_eq j name ≡ false = ground (arith, eq_iff j name, matched, e) in
          (matched, rw apart there)
    ]

module _ {D : Type 0} (docker : Docker D) (now : ℕ) where
  on_host-images :
      (r : Result String D) (m next : ImageManager D)
      → on_host docker now r m ≡ ok next
      → next.images ≡ m.images
  on_host-images (err message) m next h = absurd (ground arith)
  on_host-images (ok host) m next h = rw (sym (ok_inj h))

  -- The entry that a round finds for an image to delete is no required one.
  flagged-delete :
      (name found : String) (entry : ImageResource) (images : Map ImageResource)
      → flagged (Map.get name images) ≡ true
      → entry.required ≡ false
      → Map.get found images ≡ some entry
      → flagged (Map.get name (Map.delete found images)) ≡ true
  flagged-delete name found entry images f r there = elim (Bool-cases (str_eq found name)) [
    | inl s ↦
        let same : found ≡ name = ground (arith, eq_iff found name) in
        absurd (ground (arith, r, rw (sym same, there) at f))
    | inr s ↦ rw (Map.get-delete found name images, s) f
  ]

  flagged-prune_image :
      (name : String) (cached : CachedImage) (m next : ImageManager D)
      → flagged (Map.get name m.images) ≡ true
      → prune_image docker now cached m ≡ ok next
      → flagged (Map.get name next.images) ≡ true
  unfolding prune_image
  flagged-prune_image name cached m next f h =
      elim (Option-cases (find_entry cached.repo_tags m.images)) [
        | inl e ↦
            let (deleted, did, same) =
              >>=-eq-ok (on_host docker now (docker.delete_image cached.id m.host) m) _
                (rw (e, prune_image) at h) in
            rw (sym (ok_inj same), on_host-images _ m deleted did) f
        | inr ((found, entry), e) ↦
            let (matched, there) = find_entry-get cached.repo_tags found entry m.images e in
            elim (Bool-cases (entry.required)) [
              | inl r ↦ rw (sym (ok_inj (rw (e, prune_image, r) at h))) f
              | inr r ↦
                  let (deleted, did, same) =
                    >>=-eq-ok (on_host docker now (docker.delete_image cached.id m.host) m) _
                      (rw (e, prune_image, r) at h) in
                  rw (sym (ok_inj same), on_host-images _ m deleted did)
                    (flagged-delete name found entry m.images f r there)
            ]
      ]

  flagged-prune_loop :
      (name : String) (cached : List CachedImage) (m next : ImageManager D)
      → flagged (Map.get name m.images) ≡ true
      → prune_loop docker now cached m ≡ ok next
      → flagged (Map.get name next.images) ≡ true
  unfolding prune_loop
  flagged-prune_loop name [] m next f h = rw (sym (ok_inj h)) f
  flagged-prune_loop name (c ∷ cs) m next f h =
      let (mid, first, rest) = >>=-eq-ok (prune_image docker now c m) _ h in
      flagged-prune_loop name cs mid next (flagged-prune_image name c m mid f first) rest

  flagged-mark_required :
      (name : String) (image : RequiredImage) (m : ImageManager D)
      → flagged (Map.get name (mark_required docker now image m).images)
        ≡ (str_eq image.name name || flagged (Map.get name m.images))
  unfolding mark_required update_image_resource
  flagged-mark_required name image m = elim (Bool-cases (str_eq image.name name)) [
    | inl s ↦ rw (Map.get-set image.name name _ m.images, s)
    | inr s ↦ rw (Map.get-set image.name name _ m.images, s)
  ]

  abbrev required_names : List RequiredImage → List String
  required_names images = map (λ image. image.name) images

  pull_step-images :
      (image : RequiredImage) (m pulled : ImageManager D)
      → (if docker.has_image image.name m.host
          then ok m
          else on_host docker now (docker.pull_image image.name image.auth m.host) m)
        ≡ ok pulled
      → pulled.images ≡ m.images
  pull_step-images image m pulled h = elim (Bool-cases (docker.has_image image.name m.host)) [
    | inl e ↦ rw (sym (ok_inj (rw e at h)))
    | inr e ↦ on_host-images _ m pulled (rw e at h)
  ]

  flagged-pull_loop :
      (name : String) (images : List RequiredImage) (m next : ImageManager D)
      → (contains name (required_names images) || flagged (Map.get name m.images)) ≡ true
      → pull_loop docker now images m ≡ ok next
      → flagged (Map.get name next.images) ≡ true
  unfolding pull_loop
  flagged-pull_loop name [] m next f h = rw (sym (ok_inj h)) f
  flagged-pull_loop name (image ∷ images) m next f h =
      let (pulled, first, rest) = >>=-eq-ok _ _ h in
      let same = pull_step-images image m pulled first in
      flagged-pull_loop name images (mark_required docker now image pulled) next
        (ground (
          arith,
          flagged-mark_required name image pulled,
          same,
          f,
          eq_iff image.name name,
          eq_iff name image.name,
        ))
        rest

  -- An image on the market's list still has its entry, marked as required, after the list is
  -- pulled and the images are then pruned, if neither throws.
  pub prune_images-required :
      (name : String) (images : List RequiredImage) (m pulled next : ImageManager D)
      → contains name (required_names images) ≡ true
      → pull_market_required_images docker now images m ≡ ok pulled
      → prune_images docker now pulled ≡ ok next
      → flagged (Map.get name next.images) ≡ true
  unfolding pull_market_required_images prune_images
  prune_images-required name images m pulled next c p h =
      flagged-prune_loop name (docker.list_images pulled.host) pulled next
        (flagged-pull_loop name images _ pulled (rw c) p) h
