-- ===== src/Glance/Order.antt =====
-- The order in which the regions answer, and the goroutines behind a loop that has stopped.
use mathlib.Core.List.{Permᴰ}
use mathlib.Core.List.Permᴰ
use cloud_profile_sync.Permuted.{loop-Permᴰ, All-Permᴰ, append_assoc, append-nil}
use cloud_profile_sync.Common.{
  ℕ, ◌<◌, ◌≡◌, refl, sym, ◌∙◌, ◌⊎◌, inl, inr, String, List, [], ◌∷◌, ◌++◌, map, All, Bool-cases,
  if◌then◌else◌, arith, string_eq, ◌==◌, is_empty,
}
use cloud_profile_sync.Common.Int.{ℤ, pos, ltb_ℤ, pos_part}
use cloud_profile_sync.Common.Result.{Result, ok, err, Error}
use cloud_profile_sync.Source.{SourceImage, RegionImage}
use cloud_profile_sync.Workers.{Message, Pool, Run, started, Work}
use cloud_profile_sync.Workers.Outcome.{IsDone, answers_of, received_answers}
use cloud_profile_sync.Workers.Progress.{senders_never_wait}
use cloud_profile_sync.OciSource.{IsContextEnd}
use cloud_profile_sync.Glance.{Glance, GlanceParams, new_glance}
use cloud_profile_sync.Glance.Versions.{Gathered, add_images, gather, querying}
use cloud_profile_sync.Glance.Gather.{regions_of, offered, add_images_regions, GoesOn}

-- What a region's answer adds: the regions of a version, the names of the baseline, and the errors.
unfoldable pub offers : String → Result (List SourceImage) → List RegionImage
offers k (ok imgs) = offered k imgs
offers k (err e) = []

unfoldable pub names : List SourceImage → List String
names [] = []
names (img ∷ imgs) = map (λ r. r.region) img.regions ++ names imgs

unfoldable pub seen : Result (List SourceImage) → List String
seen (ok imgs) = names imgs
seen (err e) = []

unfoldable pub failed : Result (List SourceImage) → List Error
failed (ok imgs) = []
failed (err e) = e ∷ []

abbrev pub collect {ℓ} :
    {B : Type ℓ} → (Result (List SourceImage) → List B) → List (Result (List SourceImage)) → List B
collect f [] = []
collect f (r ∷ rs) = f r ++ collect f rs

pub collect-Permᴰ {ℓ} :
    {B : Type ℓ} (f : Result (List SourceImage) → List B) (l m : List (Result (List SourceImage)))
    → Permᴰ l m
    → Permᴰ (collect f l) (collect f m)
collect-Permᴰ f = loop-Permᴰ (collect f) f refl (λ x xs. refl)

add_images_rest :
    (imgs : List SourceImage) (s : Gathered)
    → ((add_images s imgs).all_regions ≡ s.all_regions ++ names imgs)
      × ((add_images s imgs).skipped ≡ s.skipped)
unfolding add_images names
add_images_rest [] s = (sym (append-nil s.all_regions), refl)
add_images_rest (img ∷ imgs) s =
    let (seen, skipped) = add_images_rest imgs _ in
    (seen ∙ append_assoc s.all_regions _ (names imgs), skipped)

-- What `gather` has when all goes on.
abbrev pub Has : Gathered → Gathered → List (Result (List SourceImage)) → Type 0
Has t s arrivals =
    ((k : String) → regions_of k t.images ≡ regions_of k s.images ++ collect (offers k) arrivals)
    × (t.all_regions ≡ s.all_regions ++ collect seen arrivals)
    × (t.skipped ≡ s.skipped ++ collect failed arrivals)

pub gather-All :
    (arrivals : List (Result (List SourceImage))) (s : Gathered)
    → All GoesOn arrivals
    → (t : Gathered) × (gather s arrivals ≡ ok t) × Has t s arrivals
unfolding gather offers seen failed
gather-All [] s h = (s, refl, (λ k. sym (append-nil _), sym (append-nil _), sym (append-nil _)))
gather-All (ok imgs ∷ rest) s (_, h) =
    let (t, e, (of_version, all, skipped)) = gather-All rest (add_images s imgs) h in
    let (seen_here, same) = add_images_rest imgs s in
    (
      t,
      e,
      (
        λ k. of_version k ∙ rw (add_images_regions imgs s k) (append_assoc _ (offered k imgs) _),
        all ∙ rw seen_here (append_assoc _ (names imgs) _),
        skipped ∙ rw same refl,
      ),
    )
gather-All (err e ∷ rest) s (g, h) =
    let (t, q, (of_version, all, skipped)) =
      gather-All rest (record s { skipped = s.skipped ++ e ∷ [] }) h in
    (t, rw g q, (of_version, all, skipped ∙ append_assoc s.skipped (e ∷ []) _))

abbrev pub nothing : Gathered
nothing = record { images = []; all_regions = []; skipped = [] }

-- The same regions of each version, the same baseline and the same errors, each in some order.
abbrev pub IsSameGathered : Gathered → Gathered → Type 0
IsSameGathered c q =
    ((k : String) → Permᴰ (regions_of k c.images) (regions_of k q.images))
    × Permᴰ c.all_regions q.all_regions
    × Permᴰ c.skipped q.skipped

gather-Permᴰ :
    (l m : List (Result (List SourceImage)))
    → Permᴰ l m
    → All GoesOn l
    → (c : Gathered) × (q : Gathered) × (gather nothing l ≡ ok c)
      × (gather nothing m ≡ ok q)
      × IsSameGathered c q
unfolding regions_of
gather-Permᴰ l m p h =
    let (c, e, (c_of, c_all, c_skipped)) = gather-All l nothing h in
    let (q, f, (q_of, q_all, q_skipped)) = gather-All m nothing (All-Permᴰ GoesOn l m p h) in
    (
      c,
      q,
      e,
      f,
      (
        λ k. rw (c_of k, q_of k) (collect-Permᴰ (offers k) l m p),
        rw (c_all, q_all) (collect-Permᴰ seen l m p),
        rw (c_skipped, q_skipped) (collect-Permᴰ failed l m p),
      ),
    )

not_refused :
    (g : Glance) (discover : String → Result (List SourceImage))
    (ms : List (Message String (Result (List SourceImage))))
    → All GoesOn (answers_of (querying g discover) ms)
    → All (λ m. ¬ (querying g discover).IsRefusal m.answer) ms
unfolding querying
not_refused g discover [] h = tt
not_refused g discover (m ∷ ms) (n, h) = (goes_on_no_end m.answer n, not_refused g discover ms h)
  where
    goes_on_no_end : (r : Result (List SourceImage)) → GoesOn r → ¬ IsContextEnd r
    goes_on_no_end (ok imgs) g c = c
    goes_on_no_end (err e) g c = ground (arith, g, c)

default_weight : (parallel : ℤ) → 0 < (if ltb_ℤ (pos 0) parallel then pos_part parallel else 8)
default_weight parallel = ground arith

parallel_pos : (params : GlanceParams) (g : Glance) → new_glance params ≡ ok g → 0 < g.parallel
unfolding new_glance
parallel_pos params g e = elim (Bool-cases (params.auth_url_format == "")) [
  | inl bad ↦ absurd (ground (arith, bad, e))
  | inr h ↦ elim (Bool-cases (is_empty params.regions)) [
    | inl bad ↦ absurd (ground (arith, h, bad, e))
    | inr k ↦ ground (arith, h, k, e, default_weight params.parallel)
  ]
]

module _ (g : Glance) (discover : String → Result (List SourceImage)) where
  pub arrivals-Permᴰ :
      {n : ℕ} (s : Pool String (Result (List SourceImage)))
      → Run (querying g discover) n (started g.params.regions) s
      → IsDone (querying g discover) s
      → All GoesOn (answers_of (querying g discover) s.received)
      → Permᴰ (answers_of (querying g discover) s.received) (map discover g.params.regions)
  unfolding querying
  arrivals-Permᴰ s r d h =
      let (_, _, sent) = received_answers (querying g discover) g.params.regions s r d in
      Permᴰ.symm (sent (not_refused g discover s.received h))

  -- Whatever the schedule of the goroutines, if no answer is the end of a context, then
  -- `GetVersions` gathers the same as if it queried one region after the other: for each version
  -- the same regions, the same baseline and the same errors, each in some order.
  pub concurrent_regions :
      {n : ℕ} (s : Pool String (Result (List SourceImage)))
      → Run (querying g discover) n (started g.params.regions) s
      → IsDone (querying g discover) s
      → All GoesOn (answers_of (querying g discover) s.received)
      → (c : Gathered) × (q : Gathered) × (gather nothing
            (answers_of (querying g discover) s.received)
          ≡ ok c)
        × (gather nothing (map discover g.params.regions) ≡ ok q)
        × IsSameGathered c q
  unfolding querying
  concurrent_regions s r d h = gather-Permᴰ _ _ (arrivals-Permᴰ s r d h) h

  -- `NewGlance` returns a source whose semaphore has a positive weight and whose channel has room
  -- for all regions, and with those no goroutine waits for the loop of `GetVersions` forever: as
  -- long as one is left, a goroutine can make a step of its own, also behind a loop that has
  -- returned.
  pub no_goroutine_waits :
      (params : GlanceParams)
      → new_glance params ≡ ok g
      → {n : ℕ} (s : Pool String (Result (List SourceImage)))
      → Run (querying g discover) n (started g.params.regions) s
      → ((t : Pool String (Result (List SourceImage))) × Work (querying g discover) s t)
        ⊎ ((s.waiting ≡ []) × (s.running ≡ []) × (s.sending ≡ []))
  unfolding querying new_glance
  no_goroutine_waits params e s r =
      senders_never_wait (querying g discover) (parallel_pos params g e) g.params.regions s
        (omega arith) r
