-- ===== src/Keppel/Pushed.antt =====
-- The push times that `FetchKeppelTags` answers with, and the manifests that they are from.
use cloud_profile_sync.Common.{
  ◌≡◌, sym, subst, ◌⊎◌, inl, inr, String, Bool, false, List, [], ◌∷◌, Bool-cases, string_eq, nat_eq,
  ◌==◌, if◌then◌else◌, arith,
}
use cloud_profile_sync.Common.Int.{ℤ}
use cloud_profile_sync.Common.Dict.{Dict, insert}
use cloud_profile_sync.Common.Result.{Result, ok, >>=-eq-ok, wrapped, wrapped-eq-ok, ok_inj}
use cloud_profile_sync.Gardener.{Time}
use cloud_profile_sync.Keppel.{
  KeppelTag, KeppelManifest, HttpClient, http_client, Response, is_zero, add_tags, add_manifests,
  keppel_url, registry_base_url, check_status, fetch_keppel_tags,
}

-- The map has this entry.
abbrev pub HasEntry : String → Time → Dict String Time → Type 0
HasEntry k v [] = ⊥
HasEntry k v ((j, w) ∷ m) = ((k ≡ j) × (v ≡ w)) ⊎ HasEntry k v m

insert-HasEntry :
    (k j : String) (v w : Time) (m : Dict String Time)
    → HasEntry k v (insert j w m)
    → ((k ≡ j) × (v ≡ w)) ⊎ HasEntry k v m
unfolding insert
insert-HasEntry k j v w [] h = h
insert-HasEntry k j v w ((i, u) ∷ m) h = elim (Bool-cases (j == i)) [
  | inl e ↦ elim (subst (λ b. HasEntry k v (if b then (j, w) ∷ m else (i, u) ∷ insert j w m)) e h) [
    | inl same ↦ inl same
    | inr later ↦ inr (inr later)
  ]
  | inr e ↦ elim (subst (λ b. HasEntry k v (if b then (j, w) ∷ m else (i, u) ∷ insert j w m)) e h) [
    | inl here ↦ inr (inl here)
    | inr later ↦ elim (insert-HasEntry k j v w m later) [
      | inl same ↦ inl same
      | inr found ↦ inr (inr found)
    ]
  ]
]

module _ (unix : ℤ → Time) where
  -- One of the tags has this name and, with a push time that is not zero, was pushed then.
  abbrev pub HasPush : String → Time → List KeppelTag → Type 0
  HasPush k v [] = ⊥
  HasPush k v (t ∷ ts) =
      ((k ≡ t.name) × (v ≡ unix t.pushed_at) × (is_zero t.pushed_at ≡ false)) ⊎ HasPush k v ts

  -- One of the manifests has such a tag.
  abbrev pub IsPushed : String → Time → List KeppelManifest → Type 0
  IsPushed k v [] = ⊥
  IsPushed k v (m ∷ ms) = HasPush k v m.tags ⊎ IsPushed k v ms

  add_tags-HasEntry :
      (k : String) (v : Time) (ts : List KeppelTag) (tag_map : Dict String Time)
      → HasEntry k v (add_tags unix ts tag_map)
      → HasEntry k v tag_map ⊎ HasPush k v ts
  unfolding add_tags
  add_tags-HasEntry k v [] tag_map h = inl h
  add_tags-HasEntry k v (t ∷ ts) tag_map h =
      let next = λ (b : Bool). if b then tag_map else insert t.name (unix t.pushed_at) tag_map in
      elim (add_tags-HasEntry k v ts (next (is_zero t.pushed_at)) h) [
        | inr later ↦ inr (inr later)
        | inl found ↦ elim (Bool-cases (is_zero t.pushed_at)) [
          | inl e ↦ inl (subst (λ b. HasEntry k v (next b)) e found)
          | inr e ↦
              elim (insert-HasEntry k t.name v (unix t.pushed_at) tag_map
                (subst (λ b. HasEntry k v (next b)) e found)) [
                  | inl (p, q) ↦ inr (inl (p, q, e))
                  | inr before ↦ inl before
                ]
        ]
      ]

  add_manifests-HasEntry :
      (k : String) (v : Time) (ms : List KeppelManifest) (tag_map : Dict String Time)
      → HasEntry k v (add_manifests unix ms tag_map)
      → HasEntry k v tag_map ⊎ IsPushed k v ms
  unfolding add_manifests
  add_manifests-HasEntry k v [] tag_map h = inl h
  add_manifests-HasEntry k v (m ∷ ms) tag_map h =
      elim (add_manifests-HasEntry k v ms (add_tags unix m.tags tag_map) h) [
        | inr later ↦ inr (inr later)
        | inl found ↦ elim (add_tags-HasEntry k v m.tags tag_map found) [
          | inl before ↦ inl before
          | inr here ↦ inr (inl here)
        ]
      ]

  module _ {Request : Type 0} (url_string : String → String → String)
      (new_request : String → Result Request) (send : HttpClient → Request → Result Response) where
    -- If the tags are read, then the registry answered a request for the repository's URL with
    -- status 200 and manifests, and each entry is the name and the push time of one of their tags.
    pub fetch_keppel_tags-IsPushed :
        (registry repository : String) (tags : Dict String Time)
        → fetch_keppel_tags unix url_string new_request send registry repository ≡ ok tags
        → (url : String) × (req : Request) × (resp : Response) × (manifests : List KeppelManifest)
          × (keppel_url (url_string "https" registry) repository ≡ ok url)
          × (new_request url ≡ ok req)
          × (send http_client req ≡ ok resp)
          × (resp.status ≡ 200)
          × (resp.body ≡ ok manifests)
          × ((k : String) (v : Time) → HasEntry k v tags → IsPushed k v manifests)
    unfolding fetch_keppel_tags registry_base_url
    fetch_keppel_tags-IsPushed registry repository tags h =
        let built = keppel_url (url_string "https" registry) repository in
        let (url, url_e, rest) =
          >>=-eq-ok (wrapped "failed to build keppel URL: %w" [] built) _ h in
        let (req, req_e, sending) =
          >>=-eq-ok (wrapped "failed to create keppel request: %w" [] (new_request url)) _ rest in
        let (resp, resp_e, reading) = >>=-eq-ok (send http_client req) _ sending in
        let (manifests, read, last) =
          >>=-eq-ok (check_status unix url_string new_request send resp) _ reading in
        (
          url,
          req,
          resp,
          manifests,
          wrapped-eq-ok _ _ built url_e,
          wrapped-eq-ok _ _ (new_request url) req_e,
          resp_e,
          ground (arith, read),
          ground (arith, read),
          λ k v entry.
              elim (add_manifests-HasEntry k v manifests []
                (subst (HasEntry k v) (sym (ok_inj last)) entry)) [
                  | inl none_yet ↦ absurd none_yet
                  | inr pushed ↦ pushed
                ],
        )
