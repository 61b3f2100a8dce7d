-- ===== src/Resources/Resync.antt =====
-- Which images `resyncImagesDB` keeps.
use nosana_node.Base.{
  String, str_eq, eq_iff, ℕ, ◌≡◌, refl, inl, inr, Bool, true, false, ◌||◌, ◌&&◌, not, Option, none,
  some, [], ◌∷◌, if◌then◌else◌, contains, arith, Bool-cases, ok, ◌>>=◌, >>=-eq-ok, IsDistinct, sym,
  ok_inj, Result-cases, ◌∙◌,
}
use nosana_node.Base.Map
use nosana_node.Base.Map.{Map}
use nosana_node.Resources.{Docker}
use nosana_node.Resources.Images.{
  ImageResource, ImageManager, is_protected, is_expired, resync_image, resync_loop,
  resync_images_db, forget, on_host,
}

module _ {D : Type 0} (docker : Docker D) (now : ℕ)
    (delete_image-apart : (name other : String) (host next : D)
      → docker.delete_image name host ≡ ok next
      → str_eq name other ≡ false
      → docker.has_image other next ≡ docker.has_image other host) where
  -- What is kept: an image that the runtime has, and that the market may need, or that is public
  -- and was used within a day.
  abbrev pub keeps : String → ImageResource → ImageManager D → Bool
  keeps name entry m =
      docker.has_image name m.host
      && (is_protected docker now name entry m || not (is_expired docker now entry))

  -- `next` differs from `m` in nothing that matters for another image.
  abbrev Framed : String → ImageManager D → ImageManager D → Type 0
  Framed name m next =
      (next.fetched ≡ m.fetched)
      × (next.market_required_images ≡ m.market_required_images)
      × ((other : String)
          → str_eq name other ≡ false
          → docker.has_image other next.host ≡ docker.has_image other m.host)

  deleted_cases :
      (name : String) (entry : ImageResource) (m next : ImageManager D)
      → docker.has_image name m.host ≡ true
      → is_protected docker now name entry m ≡ false
      → is_expired docker now entry ≡ true
      → (on_host docker now (docker.delete_image name m.host) m >>= λ deleted.
          ok (forget docker now name deleted))
        ≡ ok next
      → Framed name m next
        × (next.images ≡ (if keeps name entry m then m.images else Map.delete name m.images))
  deleted_cases name entry m next there free old h =
      elim (Result-cases (docker.delete_image name m.host)) [
        | inl (message, e) ↦ absurd (ground (arith, rw (e, on_host) at h))
        | inr (host, e) ↦
            let same = ok_inj (rw (e, on_host) at h) in
            rw (sym same, there, free, old)
              ((refl, refl, λ o n. delete_image-apart name o m.host host e n), refl)
      ]

  resync_image_cases :
      (name : String) (entry : ImageResource) (m next : ImageManager D)
      → resync_image docker now (name, entry) m ≡ ok next
      → Framed name m next
        × (next.images ≡ (if keeps name entry m then m.images else Map.delete name m.images))
  unfolding resync_image
  resync_image_cases name entry m next h = elim (Bool-cases (docker.has_image name m.host)) [
    | inr gone ↦
        let same = ok_inj (rw (gone, resync_image) at h) in
        rw (sym same, gone) ((refl, refl, λ o n. refl), refl)
    | inl there ↦ elim (Bool-cases (is_protected docker now name entry m)) [
      | inl needed ↦
          let same = ok_inj (rw (there, needed, resync_image) at h) in
          rw (sym same, there, needed) ((refl, refl, λ o n. refl), refl)
      | inr free ↦ elim (Bool-cases (is_expired docker now entry)) [
        | inr fresh ↦
            let same = ok_inj (rw (there, free, fresh, resync_image) at h) in
            rw (sym same, there, free, fresh) ((refl, refl, λ o n. refl), refl)
        | inl old ↦
            deleted_cases name entry m next there free old
              (rw (there, free, old, resync_image) at h)
      ]
    ]
  ]

  -- What is left of an entry: `current` is what stands under the name now.
  abbrev pub left_of :
      String → Option ImageResource → Option ImageResource → ImageManager D → Option ImageResource
  left_of name none current m = current
  left_of name (some entry) current m = if keeps name entry m then current else none

  images_of_other :
      (n name : String) (kept : Bool) (images : Map ImageResource)
      → str_eq n name ≡ false
      → Map.get name (if kept then images else Map.delete n images) ≡ Map.get name images
  images_of_other n name true images h = refl
  images_of_other n name false images h = ground (arith, Map.get-delete n name images)

  left_of-frame :
      (n name : String) (entry : ImageResource) (old : Option ImageResource)
      (m mid : ImageManager D)
      → str_eq n name ≡ false
      → Framed n m mid
      → mid.images ≡ (if keeps n entry m then m.images else Map.delete n m.images)
      → left_of name old (Map.get name mid.images) mid ≡ left_of name old (Map.get name m.images) m
  left_of-frame n name entry none m mid apart framed images =
      rw images (images_of_other n name (keeps n entry m) m.images apart)
  left_of-frame n name entry (some e) m mid apart (fetched, market, has) images =
      let looked : Map.get name mid.images ≡ Map.get name m.images =
        rw images (images_of_other n name (keeps n entry m) m.images apart) in
      rw (looked, fetched, market, has name apart)

  images_of_same :
      (name : String) (kept : Bool) (images : Map ImageResource)
      → Map.get name (if kept then images else Map.delete name images)
        ≡ (if kept then Map.get name images else none)
  images_of_same name true images = refl
  images_of_same name false images = Map.get-delete_self name images

  get-missing :
      (name : String) (entries : Map ImageResource)
      → contains name (Map.keys entries) ≡ false
      → Map.get name entries ≡ none
  get-missing name entries h = ground (arith, Map.has-contains name entries)

  resync_loop-get :
      (name : String) (entries : Map ImageResource) (m next : ImageManager D)
      → IsDistinct (Map.keys entries)
      → resync_loop docker now entries m ≡ ok next
      → Map.get name next.images ≡ left_of name (Map.get name entries) (Map.get name m.images) m
  unfolding resync_loop Map.get
  resync_loop-get name [] m next d h = rw (ok_inj h)
  resync_loop-get name ((n, entry) ∷ entries) m next d h =
      let (mid, first, rest) = >>=-eq-ok (resync_image docker now (n, entry) m) _ h in
      let (framed, images) = resync_image_cases n entry m mid first in
      let later = resync_loop-get name entries mid next d.1 rest in
      elim (Bool-cases (str_eq n name)) [
        | inr apart ↦
            rw apart
              (later ∙ left_of-frame n name entry (Map.get name entries) m mid apart framed images)
        | inl same ↦
            let named : n ≡ name = ground (arith, eq_iff n name) in
            let gone : Map.get name entries ≡ none = get-missing name entries (rw named at (d.0)) in
            rw (same, later, gone, images, named)
              (images_of_same name (keeps name entry m) m.images)
      ]

  -- Where deleting an image does not touch images of other names, and no name is twice in the
  -- table: if `resyncImagesDB` does not throw, it keeps exactly the entries of images that the
  -- runtime has and that are either protected (marked as required while the market's list is not
  -- fetched, or on that list) or both public and used within 24 hours.
  pub resync_images_db-get :
      (name : String) (m next : ImageManager D)
      → IsDistinct (Map.keys m.images)
      → resync_images_db docker now m ≡ ok next
      → Map.get name next.images ≡ left_of name (Map.get name m.images) (Map.get name m.images) m
  unfolding resync_images_db
  resync_images_db-get name m next d h = resync_loop-get name m.images m next d h
