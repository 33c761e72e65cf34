-- ===== src/OciSource/Order.antt =====
-- What the order in which the tags' results arrive changes: nothing that `Fetch` of
-- os_image_updater.go returns.
use mathlib.Core.List.{Permᴰ}
use mathlib.Core.List.Permᴰ
use cloud_profile_sync.Permuted.{loop-Permᴰ, All-Permᴰ, nil_of_Permᴰ}
use cloud_profile_sync.Common.{
  ◌≡◌, ◌≢◌, refl, sym, ap, subst, ◌∙◌, ◌⊎◌, inl, inr, String, Option, true, List, [], ◌∷◌, ◌++◌,
  map, All, Bool-cases, if◌then◌else◌, arith, string_eq,
}
use cloud_profile_sync.Common.Result.{Result, ok, err, Error}
use cloud_profile_sync.Common.Sort.Unique.{AreSeparate}
use cloud_profile_sync.Semver.{Semver}
use cloud_profile_sync.Source.{SourceImage}
use cloud_profile_sync.Api.{ImageFilter}
use cloud_profile_sync.Workers.{Message, Run, started}
use cloud_profile_sync.Workers.Outcome.{answers_of, received_answers}
use cloud_profile_sync.OciSource.{
  CollectedImage, Oci, GetVersions, unlisted, listed, fetching, IsContextEnd, is_context_error,
  is_excluded, apply_image_filter, get_versions, join_errors,
}
use cloud_profile_sync.OciSource.Laws.{
  collected_items, errors_where, get_versions_answer, get_versions_context,
}
use cloud_profile_sync.Updater.{ImageUpdater, fetch, compare_images, validate_image_versions}
use cloud_profile_sync.Updater.Fetch.{compare_images-IsOrder, fetch-perm}

-- No result is the end of a context.
abbrev pub NoContextEnd : List (Result CollectedImage) → Type 0
NoContextEnd = All (λ r. ¬ IsContextEnd r)

errors_where-true :
    (arrivals : List (Result CollectedImage))
    → NoContextEnd arrivals
    → errors_where true arrivals ≡ []
unfolding errors_where
errors_where-true [] h = refl
errors_where-true (ok item ∷ rest) (_, h) = errors_where-true rest h
errors_where-true (err e ∷ rest) (n, h) = elim (Bool-cases (is_context_error e)) [
  | inl c ↦ absurd (n c)
  | inr c ↦ rw c (errors_where-true rest h)
]

context_end_or_not :
    (arrivals : List (Result CollectedImage))
    → ((e : Error) × (es : List Error) × (errors_where true arrivals ≡ e ∷ es))
      ⊎ NoContextEnd arrivals
unfolding errors_where
context_end_or_not [] = inr tt
context_end_or_not (ok item ∷ rest) = elim (context_end_or_not rest) [
  | inl found ↦ inl found
  | inr h ↦ inr (λ c. c, h)
]
context_end_or_not (err e ∷ rest) = elim (Bool-cases (is_context_error e)) [
  | inl c ↦ inl (e, errors_where true rest, rw c refl)
  | inr c ↦ elim (context_end_or_not rest) [
    | inl (d, ds, q) ↦ inl (d, ds, rw c q)
    | inr h ↦ inr (λ t. ground (arith, c, t), h)
  ]
]

errors_where-All :
    (arrivals : List (Result CollectedImage))
    → All (λ e. is_context_error e ≡ true) (errors_where true arrivals)
unfolding errors_where
errors_where-All [] = tt
errors_where-All (ok item ∷ rest) = errors_where-All rest
errors_where-All (err e ∷ rest) = elim (Bool-cases (is_context_error e)) [
  | inl c ↦ rw c (c, errors_where-All rest)
  | inr c ↦ rw c (errors_where-All rest)
]

item_of : Result CollectedImage → List CollectedImage
item_of (ok item) = item ∷ []
item_of (err e) = []

collected-cons :
    (r : Result CollectedImage) (rest : List (Result CollectedImage))
    → collected_items (r ∷ rest) ≡ item_of r ++ collected_items rest
unfolding collected_items item_of
collected-cons (ok item) rest = refl
collected-cons (err e) rest = refl

collected-Permᴰ :
    (l m : List (Result CollectedImage)) → Permᴰ l m → Permᴰ (collected_items l) (collected_items m)
unfolding collected_items
collected-Permᴰ = loop-Permᴰ collected_items item_of refl collected-cons

module _ (filter : Option ImageFilter) where
  passing : CollectedImage → List SourceImage
  passing item = if is_excluded filter item then [] else item.image ∷ []

  filter-cons :
      (item : CollectedImage) (rest : List CollectedImage)
      → apply_image_filter filter (item ∷ rest) ≡ passing item ++ apply_image_filter filter rest
  unfolding apply_image_filter passing
  filter-cons item rest = elim (Bool-cases (is_excluded filter item)) [
    | inl e ↦ rw e refl
    | inr e ↦ rw e refl
  ]

  filter-Permᴰ :
      (l m : List CollectedImage)
      → Permᴰ l m
      → Permᴰ (apply_image_filter filter l) (apply_image_filter filter m)
  unfolding apply_image_filter
  filter-Permᴰ = loop-Permᴰ (apply_image_filter filter) passing refl filter-cons

List-cases {ℓ} : {A : Type ℓ} (xs : List A) → (xs ≡ []) ⊎ (xs ≢ [])
List-cases [] = inl refl
List-cases (x ∷ xs) = inr (λ e. ground (arith, e))

module _ (S : Semver) (iu : ImageUpdater) (filter : Option ImageFilter)
    (l m : List (Result CollectedImage)) (p : Permᴰ l m) (h : NoContextEnd l)
    (separate : AreSeparate compare_images compare_images-IsOrder
      (validate_image_versions S (apply_image_filter filter (collected_items l)))) where
  -- Results that arrive in another order.
  fetch-arrivals :
      fetch S (record iu { source = get_versions filter l })
      ≡ fetch S (record iu { source = get_versions filter m })
  fetch-arrivals =
      let clean_l = errors_where-true l h in
      let clean_m = errors_where-true m (All-Permᴰ (λ r. ¬ IsContextEnd r) l m p h) in
      let (some_l, none_l) = get_versions_answer filter l clean_l in
      let (some_m, none_m) = get_versions_answer filter m clean_m in
      let q = collected-Permᴰ l m p in
      elim (List-cases (collected_items l)) [
        | inl e ↦
            let empty_m =
              nil_of_Permᴰ (collected_items m) (subst (λ k. Permᴰ k (collected_items m)) e q) in
            ap (λ a. fetch S (record iu { source = a })) (none_l e ∙ sym (none_m empty_m))
        | inr n ↦
            let some_in_m : collected_items m ≢ [] = λ e. n (
              nil_of_Permᴰ (collected_items l)
                (subst (λ k. Permᴰ k (collected_items l)) e (Permᴰ.symm q))) in
            rw (some_l n)
              (rw (some_m some_in_m) (fetch-perm S iu _ _ (filter-Permᴰ filter _ _ q) separate))
      ]

tags_agree : {ts us : List String} {r : Result (List String)} → r ≡ ok ts → r ≡ ok us → ts ≡ us
tags_agree e f = ground (arith, e, f)

messages_go_on :
    (o : Oci) (ms : List (Message String (Result CollectedImage)))
    → NoContextEnd (answers_of (fetching o) ms)
    → All (λ m. ¬ (fetching o).IsRefusal m.answer) ms
unfolding fetching
messages_go_on o [] h = tt
messages_go_on o (m ∷ ms) (n, h) = (n, messages_go_on o ms h)

module _ (S : Semver) (iu : ImageUpdater) (o : Oci) (tags : List String) (e : o.repo.tags ≡ ok tags)
    (separate : AreSeparate compare_images compare_images-IsOrder (
      validate_image_versions S
        (apply_image_filter o.image_filter (collected_items (map (fetching o).work tags))))) where
  abbrev one_after_the_other : Result (List SourceImage)
  one_after_the_other = get_versions o.image_filter (map (fetching o).work tags)

  -- Whatever the schedule of the goroutines, `GetVersions` either answers with an error that joins
  -- errors of which each is the end of a context, or `Fetch` of the updater returns the same as if the tags were fetched
  -- one after the other, in the order in which the repository lists them. The condition is that the
  -- repository lists its tags and that no two different images that pass the filter and the
  -- validation compare as equal.
  pub concurrent_as_sequential :
      (answer : Result (List SourceImage))
      → GetVersions o answer
      → ((first : Error) × (others : List Error) × (answer ≡ err (join_errors first others))
          × All (λ e. is_context_error e ≡ true) (first ∷ others))
        ⊎ (fetch S (record iu { source = answer })
            ≡ fetch S (record iu { source = one_after_the_other }))
  concurrent_as_sequential answer (unlisted d f q) = absurd (ground (arith, e, f))
  concurrent_as_sequential answer (listed ts {n} s f r done q) =
      let arrivals = answers_of (fetching o) s.received in
      let same = tags_agree e f in
      elim (context_end_or_not arrivals) [
        | inl (first, others, c) ↦ inl (
          first,
          others,
          q ∙ get_versions_context o.image_filter arrivals first others c,
          subst (All (λ e. is_context_error e ≡ true)) c (errors_where-All arrivals),
        )
        | inr h ↦
            let runs = subst (λ us. Run (fetching o) n (started us) s) (sym same) r in
            let (_, _, sent) = received_answers (fetching o) tags s runs done in
            let p = Permᴰ.symm (sent (messages_go_on o s.received h)) in
            inr (
              ap (λ a. fetch S (record iu { source = a })) q
              ∙ sym (
                  fetch-arrivals S iu o.image_filter _ arrivals (Permᴰ.symm p)
                    (All-Permᴰ (λ a. ¬ IsContextEnd a) arrivals _ p h) separate))
      ]
