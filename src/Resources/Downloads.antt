-- ===== src/Resources/Downloads.antt =====
-- When the volume of a resource counts as complete.
use nosana_node.Base.{
  String, str_eq, eq_iff, ℕ, ◌≡◌, refl, inl, inr, Bool, true, false, ◌||◌, not, Option, none, some,
  List, [], ◌∷◌, map, if◌then◌else◌, contains, arith, Bool-cases, Option-cases, Result, ok, err,
  >>=-eq-ok, sym, ok_inj, Result-cases, ◌∙◌, is_some,
}
use nosana_node.Base.Map
use nosana_node.Base.Map.{Map}
use nosana_node.Resources.{Docker, Resource, create_resource_name}
use nosana_node.Resources.Volumes.{
  VolumeResource, VolumeManager, is_pending, is_ok, volume_of, lacks_repo, parts_of, set_volume,
  clean_up, follow_download, run_resource_manager_container, download_all, open_volume,
  create_remote_volume, pull_loop, pull_market_required_volumes, pull_volume, pull_helper,
}

-- An entry whose download is not pending.
abbrev pub is_complete : Option VolumeResource → Bool
is_complete none = false
is_complete (some entry) = not entry.pending

-- The manager after a call, whether or not it threw.
abbrev pub left_by {ℓ} : {S : Type 0} {A : Type ℓ} → (A → S) → Result (String × S) A → S
left_by of (err (message, s)) = s
left_by of (ok a) = of a

module _ {D : Type 0} (docker : Docker D) (now : ℕ) where
  abbrev entry_at : String → VolumeManager D → Option VolumeResource
  entry_at name m = Map.get name m.volumes

  -- What a failed step of the resource `name` may leave: no complete entry of that name if there
  -- was none, and every other entry.
  abbrev IsFrame : String → VolumeManager D → VolumeManager D → Type 0
  IsFrame name m next =
      (is_complete (entry_at name m) ≡ false → is_complete (entry_at name next) ≡ false)
      × ((other : String) → str_eq name other ≡ false → entry_at other next ≡ entry_at other m)

  IsFrame-same :
      (name : String) (m next : VolumeManager D) → next.volumes ≡ m.volumes → IsFrame name m next
  IsFrame-same name m next h = ((λ c. rw h c), λ other n. rw h)

  IsFrame-trans :
      (name : String) (a b c : VolumeManager D)
      → IsFrame name a b
      → IsFrame name b c
      → IsFrame name a c
  IsFrame-trans name a b c f g = ((λ h. g.0 (f.0 h)), λ other n. g.1 other n ∙ f.1 other n)

  IsFrame-clean_up :
      (volume name : String) (m : VolumeManager D)
      → IsFrame name m (clean_up docker now volume name m)
  unfolding clean_up
  IsFrame-clean_up volume name m = elim (Result-cases (docker.delete_volume volume m.host)) [
    | inl (message, e) ↦ rw (e, clean_up) (IsFrame-same name m m refl)
    | inr (host, e) ↦
        rw (e, clean_up)
          (
            (λ c. rw (Map.get-delete_self name m.volumes)),
            λ other n. rw (Map.get-delete name other m.volumes, n),
          )
  ]

  -- A download that returns leaves the entries, and one that throws those of other resources.
  IsFrame-follow_download :
      (volume name : String) (part : Resource) (m : VolumeManager D)
      → IsFrame name m (left_by (λ s. s) (follow_download docker now volume name part m))
  unfolding follow_download
  IsFrame-follow_download volume name part m =
      elim (Result-cases (docker.download volume part m.host)) [
        | inl ((message, host), e) ↦
            rw (e, follow_download) (IsFrame-clean_up volume name (record m { host = host }))
        | inr (host, e) ↦
            rw (e, follow_download) (IsFrame-same name m (record m { host = host }) refl)
      ]

  IsFrame-run_container :
      (volume name : String) (part : Resource) (m : VolumeManager D)
      → IsFrame name m
          (left_by (λ s. s) (run_resource_manager_container docker now volume name part m))
  unfolding run_resource_manager_container
  IsFrame-run_container volume name part m =
      elim (Result-cases (docker.run_container volume part m.host)) [
        | inl ((message, host), e) ↦
            rw (e, run_resource_manager_container)
              (IsFrame-same name m (record m { host = host }) refl)
        | inr (host, e) ↦
            rw (e, run_resource_manager_container)
              (IsFrame-follow_download volume name part (record m { host = host }))
      ]

  IsFrame-download_all :
      (volume name : String) (parts : List Resource) (m : VolumeManager D)
      → IsFrame name m (left_by (λ s. s) (download_all docker now volume name parts m))
  unfolding download_all
  IsFrame-download_all volume name [] m = IsFrame-same name m m refl
  IsFrame-download_all volume name (part ∷ parts) m =
      let ran = IsFrame-run_container volume name part m in
      elim (Result-cases (run_resource_manager_container docker now volume name part m)) [
        | inl ((message, left), e) ↦ rw (e, download_all) (rw e at ran)
        | inr (done, e) ↦
            rw (e, download_all)
              (IsFrame-trans name m done
                (left_by (λ s. s) (download_all docker now volume name parts done)) (rw e at ran)
                (IsFrame-download_all volume name parts done))
      ]

  IsFrame-open_volume :
      (name : String) (m : VolumeManager D)
      → IsFrame name m (left_by (λ p. p.1) (open_volume docker now name m))
  unfolding open_volume
  IsFrame-open_volume name m = elim (Option-cases (volume_of (Map.get name m.volumes))) [
    | inr (volume, e) ↦ rw (e, open_volume) (IsFrame-same name m m refl)
    | inl e ↦ elim (Result-cases (docker.create_volume m.host)) [
      | inl (message, f) ↦ rw (e, open_volume, f) (IsFrame-same name m m refl)
      | inr ((volume, host), f) ↦
          rw (e, open_volume, f)
            (
              (λ c. rw (Map.get-set_self name _ m.volumes)),
              λ other n. rw (Map.get-set name other _ m.volumes, n),
            )
    ]
  ]

  set_volume_complete :
      (name volume : String) (m : VolumeManager D)
      → is_complete (entry_at name (set_volume docker now name volume m)) ≡ true
  unfolding set_volume
  set_volume_complete name volume m = rw (Map.get-set_self name _ m.volumes)

  set_volume-other :
      (name volume other : String) (m : VolumeManager D)
      → str_eq name other ≡ false
      → entry_at other (set_volume docker now name volume m) ≡ entry_at other m
  unfolding set_volume
  set_volume-other name volume other m n = rw (Map.get-set name other _ m.volumes, n)

  abbrev after_create : Resource → VolumeManager D → VolumeManager D
  after_create resource m = left_by (λ p. p.1) (create_remote_volume docker now resource m)

  abbrev Leaves : String → String → VolumeManager D → VolumeManager D → Bool → Type 0
  Leaves name other m next complete =
      (is_complete (entry_at name next) ≡ complete)
      × (entry_at other next ≡ (if str_eq name other then entry_at name next else entry_at other m))

  Leaves-other :
      (name other : String) (m next : VolumeManager D)
      → (str_eq name other ≡ false → entry_at other next ≡ entry_at other m)
      → entry_at other next ≡ (if str_eq name other then entry_at name next else entry_at other m)
  Leaves-other name other m next f = elim (Bool-cases (str_eq name other)) [
    | inl s ↦ let same : name ≡ other = ground (arith, eq_iff name other) in rw (s, same)
    | inr n ↦ rw (n, f n)
  ]

  Leaves-frame :
      (name other : String) (m next : VolumeManager D)
      → is_complete (entry_at name m) ≡ false
      → IsFrame name m next
      → Leaves name other m next false
  Leaves-frame name other m next c f = (f.0 c, Leaves-other name other m next (f.1 other))

  -- If a resource has no complete entry, `createRemoteVolume` leaves a complete one exactly if it
  -- returns: wherever it throws, what is left is no entry or a pending one. The entries of other
  -- resources are as they were.
  pub create_remote_volume_complete :
      (resource : Resource) (m : VolumeManager D) (other : String)
      → is_complete (entry_at (create_resource_name resource) m) ≡ false
      → (is_complete (entry_at (create_resource_name resource) (after_create resource m))
          ≡ is_ok (create_remote_volume docker now resource m))
        × (entry_at other (after_create resource m) ≡ (
            if str_eq (create_resource_name resource) other
            then entry_at (create_resource_name resource) (after_create resource m)
            else entry_at other m))
  unfolding create_remote_volume
  create_remote_volume_complete resource m other c =
      let name = create_resource_name resource in
      elim (Bool-cases (lacks_repo resource)) [
        | inl l ↦
            rw (l, create_remote_volume)
              (Leaves-frame name other m m c (IsFrame-same name m m refl))
        | inr l ↦ elim (Result-cases (open_volume docker now name m)) [
          | inl ((message, left), e) ↦
              let frame = rw e at (IsFrame-open_volume name m) in
              rw (l, create_remote_volume, e) (Leaves-frame name other m left c frame)
          | inr ((volume, opened), e) ↦
              let parts = parts_of resource in
              let before = rw e at (IsFrame-open_volume name m) in
              let during = IsFrame-download_all volume name parts opened in
              elim (Result-cases (download_all docker now volume name parts opened)) [
                | inl ((message, left), f) ↦
                    let frame = IsFrame-trans name m opened left before (rw f at during) in
                    rw (l, create_remote_volume, e, f) (Leaves-frame name other m left c frame)
                | inr (done, f) ↦
                    let frame = IsFrame-trans name m opened done before (rw f at during) in
                    let next = set_volume docker now name volume done in
                    rw (l, create_remote_volume, e, f)
                      (
                        set_volume_complete name volume done,
                        Leaves-other name other m next
                            (λ n. set_volume-other name volume other done n ∙ frame.1 other n),
                      )
              ]
        ]
      ]

  needs_complete :
      (o : Option VolumeResource) → (not (is_some o) || is_pending o) ≡ not (is_complete o)
  needs_complete none = refl
  needs_complete (some entry) = ground arith

  -- One round of the market's volumes completes its own and keeps what is complete.
  pull_step_complete :
      (resource : Resource) (m next : VolumeManager D) (other : String)
      → pull_volume docker now resource m ≡ ok next
      → (str_eq (create_resource_name resource) other || is_complete (entry_at other m)) ≡ true
      → is_complete (entry_at other next) ≡ true
  unfolding pull_volume
  pull_step_complete resource m next other h c =
      let name = create_resource_name resource in
      elim (Bool-cases (is_complete (entry_at name m))) [
        | inl done ↦
            let same = ok_inj (rw (pull_volume, needs_complete (entry_at name m), done) at h) in
            rw (sym same) (elim (Bool-cases (str_eq name other)) [
              | inl s ↦
                  let named : name ≡ other = ground (arith, eq_iff name other) in rw named at done
              | inr n ↦ rw n at c
            ])
        | inr lacking ↦
            let ((volume, made), created, same) =
              >>=-eq-ok (create_remote_volume docker now resource m) _
                (rw (pull_volume, needs_complete (entry_at name m), lacking) at h) in
            let (own, others) =
              rw created at (create_remote_volume_complete resource m other lacking) in
            rw (sym (ok_inj same), others)
              (elim (Bool-cases (str_eq name other)) [
                | inl s ↦ rw s own
                | inr n ↦ rw n (rw n at c)
              ])
      ]

  pull_helper-volumes :
      (helper : String) (m next : VolumeManager D)
      → pull_helper docker now helper m ≡ ok next
      → next.volumes ≡ m.volumes
  unfolding pull_helper
  pull_helper-volumes helper m next h = elim (Bool-cases (docker.has_image helper m.host)) [
    | inl e ↦ rw (sym (ok_inj (rw (e, pull_helper) at h)))
    | inr e ↦ elim (Result-cases (docker.pull_image helper none m.host)) [
      | inl (message, f) ↦ absurd (ground (arith, rw (e, pull_helper, f) at h))
      | inr (host, f) ↦ rw (sym (ok_inj (rw (e, pull_helper, f) at h)))
    ]
  ]

  abbrev resource_names : List Resource → List String
  resource_names rs = map create_resource_name rs

  pull_loop_complete :
      (resources : List Resource) (m next : VolumeManager D) (other : String)
      → (contains other (resource_names resources) || is_complete (entry_at other m)) ≡ true
      → pull_loop docker now resources m ≡ ok next
      → is_complete (entry_at other next) ≡ true
  unfolding pull_loop
  pull_loop_complete [] m next other c h = rw (sym (ok_inj h)) c
  pull_loop_complete (r ∷ rs) m next other c h =
      let (mid, first, rest) = >>=-eq-ok (pull_volume docker now r m) (pull_loop docker now rs) h in
      let still = pull_step_complete r m mid other first in
      pull_loop_complete rs mid next other
        (elim (Bool-cases (contains other (resource_names rs))) [
          | inl later ↦ rw later
          | inr n ↦ rw n (still (ground (arith, n, c)))
        ])
        rest

  -- If the market's volumes are pulled without an error, each of its resources has a complete
  -- entry, and so has each resource that had one.
  pub pull_market_required_volumes_complete :
      (helper : String) (resources : List Resource) (m next : VolumeManager D) (other : String)
      → (contains other (resource_names resources) || is_complete (entry_at other m)) ≡ true
      → pull_market_required_volumes docker now helper resources m ≡ ok next
      → is_complete (entry_at other next) ≡ true
  unfolding pull_market_required_volumes
  pull_market_required_volumes_complete helper resources m next other c h =
      let marked : VolumeManager D = record m {
        fetched = true;
        market_required_volumes = resources;
      } in
      let (started, first, rest) =
        >>=-eq-ok (pull_helper docker now helper marked) (pull_loop docker now resources) h in
      let same = pull_helper-volumes helper marked started first in
      pull_loop_complete resources started next other (rw same c) rest
