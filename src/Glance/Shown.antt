-- ===== src/Glance/Shown.antt =====
-- What `GetVersions` of the Glance source shows, with a schedule of its goroutines and with one
-- region after the other.
use Prim.Native.Nat.{Ordering}
use mathlib.Core.List.{Permᴰ}
use cloud_profile_sync.Common.{
  ℕ, ◌≡◌, refl, sym, ap, subst, ◌∙◌, inl, inr, String, Option, none, some, Bool, true, false, ◌&&◌,
  List, [], ◌∷◌, map, All, string_eq, length, is_empty, select, ◌==◌, nat_eq, if◌then◌else◌, arith,
}
use mathlib.Core.Path.{ap₂}
use cloud_profile_sync.Common.Dict.{Dict, lookup-nil, lookup-cons}
use cloud_profile_sync.Common.Keys.{keys, HaveSameKeys}
use cloud_profile_sync.Common.Mapped.{select-map, sort_func-map}
use cloud_profile_sync.Common.Result.{Result, ok, err, Error, wrap}
use cloud_profile_sync.Common.Sort.{sort_func}
use cloud_profile_sync.Common.Sort.Unique.{AreSeparate, sort_func-Permᴰ}
use cloud_profile_sync.Semver.{Semver, IsSemver}
use cloud_profile_sync.Gardener.{Time}
use cloud_profile_sync.Source.{SourceImage}
use cloud_profile_sync.Glance.{Glance, compare_semver_desc}
use cloud_profile_sync.Glance.Versions.{
  Gathered, gather, filter_require_regions, window, classify, finish, get_versions, fold_errors,
}
use cloud_profile_sync.Glance.Order.{IsSameGathered, nothing}
use cloud_profile_sync.Glance.Ordered.{compare_semver_desc-IsOrder}
use cloud_profile_sync.Glance.Entries.{HasKept, entry_of, values, values-keys, regions-HaveSameKeys}
use cloud_profile_sync.Glance.Same.{
  IsSameImage, IsSameAnswer, map_option, window-map, same_entries, classify-AreSameImages,
}
use cloud_profile_sync.Workers.{Pool, Run, started}
use cloud_profile_sync.Workers.Outcome.{IsDone, answers_of}
use cloud_profile_sync.Glance.{GlanceImage, AuthOptions, region_image}
use cloud_profile_sync.Glance.Versions.{querying}
use cloud_profile_sync.Glance.Gather.{GoesOn}
use cloud_profile_sync.Glance.Order.{concurrent_regions, arrivals-Permᴰ}
use cloud_profile_sync.Glance.Written.{discover, discovered}
use cloud_profile_sync.Glance.Entries.{IsPlain, IsPlainAnswer, gather-HasKept}
use cloud_profile_sync.Permuted.{All-Permᴰ}
use mathlib.Core.List.Permᴰ
use cloud_profile_sync.Glance.Kept.{
  in_all, filter-select, kept_keys, kept_keys-Permᴰ, kept_keys-AreSeparate,
}

length-Permᴰ {ℓ} : {A : Type ℓ} (l m : List A) → Permᴰ l m → length l ≡ length m
length-Permᴰ _ _ Permᴰ.nil = refl
length-Permᴰ _ _ (Permᴰ.cons {l₁ = l} {l₂ = m} e p) = omega (arith, length-Permᴰ l m p)
length-Permᴰ _ _ (Permᴰ.swap e f) = refl
length-Permᴰ l m (Permᴰ.trans {l₂ = k} p q) = length-Permᴰ l k p ∙ length-Permᴰ k m q

is_empty_same : (a b : Dict String SourceImage) → HaveSameKeys a b → is_empty a ≡ is_empty b
is_empty_same [] [] h = refl
is_empty_same [] ((k, v) ∷ b) h =
    absurd (ground (arith, (h k).0 (lookup-nil k), lookup-cons k k v b))
is_empty_same ((k, v) ∷ a) [] h =
    absurd (ground (arith, (h k).1 (lookup-nil k), lookup-cons k k v a))
is_empty_same (_ ∷ a) (_ ∷ b) h = refl

module _ (S : Semver) (laws : IsSemver S) (g : Glance) (now : Time) where
  abbrev pub shown :
      (String → SourceImage) → Option (List String) → Option (Result (List SourceImage))
  shown f o = elim o [ none ↦ none | some ks ↦ some (ok (classify now (map f ks))) ]

  abbrev answer : Option (List SourceImage) → Option (Result (List SourceImage))
  answer o = elim o [ none ↦ none | some vs ↦ some (ok (classify now vs)) ]

  answer-shown :
      (f : String → SourceImage) (o : Option (List String)) → answer (map_option f o) ≡ shown f o
  unfolding map_option
  answer-shown f none = refl
  answer-shown f (some ks) = refl

  kept_images :
      (required : Bool) (s : Gathered)
      → HasKept s.images
      → (if required
          then filter_require_regions (values s.images) s.all_regions
          else values s.images)
        ≡ map (entry_of s.images) (kept_keys required s)
  kept_images false s h = values-keys s.images h
  kept_images true s h =
      filter-select (values s.images) s.all_regions
      ∙ ap (select (in_all s.all_regions)) (values-keys s.images h)
      ∙ select-map (entry_of s.images) (in_all s.all_regions) (keys s.images)

  abbrev pub all_failed : Gathered → Bool
  all_failed s = is_empty s.images && length s.skipped == length g.params.regions

  abbrev pub chosen_keys : Gathered → Option (List String)
  chosen_keys s =
      window g.keep_latest g.offset
        (sort_func (compare_semver_desc S) (kept_keys g.params.require_all_regions s))

  pub finish-shown :
      (s : Gathered)
      → HasKept s.images
      → finish S g now s ≡ (
          if all_failed s
          then some (err (wrap "all %d regions failed: %w" [] (fold_errors s.skipped)))
          else shown (entry_of s.images) (chosen_keys s))
  unfolding finish
  finish-shown s h =
      let f = entry_of s.images in
      let by_version : SourceImage → SourceImage → Ordering =
        λ a b. compare_semver_desc S a.version b.version in
      let e : Option (Result (List SourceImage)) =
        some (err (wrap "all %d regions failed: %w" [] (fold_errors s.skipped))) in
      let ks = kept_keys g.params.require_all_regions s in
      ap
        (λ vs.
          if all_failed s
          then e
          else answer (window g.keep_latest g.offset (sort_func by_version vs)))
        (kept_images g.params.require_all_regions s h)
      ∙ ap (λ o. if all_failed s then e else answer o)
          (ap (window g.keep_latest g.offset)
              (sort_func-map f (compare_semver_desc S) by_version (λ j k. refl) ks)
            ∙ window-map f g.keep_latest g.offset (sort_func (compare_semver_desc S) ks))
      ∙ ap (λ r. if all_failed s then e else r) (answer-shown f (chosen_keys s))

  same_if :
      (b : Bool) (d e : Error) (a f : String → SourceImage) (o : Option (List String))
      → ((k : String) → IsSameImage (a k) (f k))
      → IsSameAnswer (if b then some (err d) else shown a o) (if b then some (err e) else shown f o)
  same_if true d e a f o h = tt
  same_if false d e a f none h = tt
  same_if false d e a f (some ks) h =
      classify-AreSameImages now (map a ks) (map f ks) (same_entries a f ks h)

  module _ (c q : Gathered) (h : HasKept c.images) (k : HasKept q.images)
      (same : IsSameGathered c q)
      (told : AreSeparate
        (compare_semver_desc S)
        (compare_semver_desc-IsOrder S laws)
        (keys q.images)) where
    chosen_keys_same : chosen_keys c ≡ chosen_keys q
    chosen_keys_same =
        let required = g.params.require_all_regions in
        let order = compare_semver_desc-IsOrder S laws in
        ap (window g.keep_latest g.offset) (
          sym (
            sort_func-Permᴰ (compare_semver_desc S) order (kept_keys-Permᴰ c q h k same required)
              (kept_keys-AreSeparate (compare_semver_desc S) order required q told)))

    all_failed_same : all_failed c ≡ all_failed q
    all_failed_same =
        let (regions, _, skipped) = same in
        ap₂ (λ b n. b && n == length g.params.regions)
          (is_empty_same c.images q.images (regions-HaveSameKeys c.images q.images h k regions))
          (length-Permᴰ c.skipped q.skipped skipped)

    finish-IsSameAnswer : IsSameAnswer (finish S g now c) (finish S g now q)
    finish-IsSameAnswer =
        let joined =
          λ (s : Gathered). wrap "all %d regions failed: %w" [] (fold_errors s.skipped) in
        let answer_c : finish S g now c ≡ (
            if all_failed q
            then some (err (joined c))
            else shown (entry_of c.images) (chosen_keys q)) =
          finish-shown c h
          ∙ ap₂ (λ b o. if b then some (err (joined c)) else shown (entry_of c.images) o)
              all_failed_same chosen_keys_same in
        subst (IsSameAnswer (finish S g now c)) (sym (finish-shown q k)) (
          subst
            (λ r. IsSameAnswer r (
              if all_failed q
              then some (err (joined q))
              else shown (entry_of q.images) (chosen_keys q)))
            (sym answer_c)
            (same_if (all_failed q) (joined c) (joined q) (entry_of c.images) (entry_of q.images)
              (chosen_keys q) (λ j. (refl, same.0 j))))

  pub gathered-answer :
      (arrivals : List (Result (List SourceImage))) (s : Gathered)
      → gather nothing arrivals ≡ ok s
      → get_versions S g now arrivals ≡ finish S g now s
  unfolding get_versions
  gathered-answer arrivals s e = rw (get_versions, e) refl

  -- What the regions give, one after the other.
  module _ {Client : Type 0} (sprintf : String → String → String)
      (authenticate : String → AuthOptions → Result Client)
      (list_images : Client → String → Result (List GlanceImage)) where
    abbrev pub ask : String → Result (List SourceImage)
    ask = discover S g sprintf authenticate list_images

    region_images-IsPlain :
        (r : String) (images : Dict String GlanceImage)
        → All IsPlain (map (region_image S r) images)
    unfolding region_image
    region_images-IsPlain r [] = tt
    region_images-IsPlain r ((k, img) ∷ images) =
        ((refl, λ e. absurd (ground (arith, e))), region_images-IsPlain r images)

    pub ask-IsPlainAnswer : (rs : List String) → All IsPlainAnswer (map ask rs)
    ask-IsPlainAnswer [] = tt
    ask-IsPlainAnswer (r ∷ rs) = elim (discovered S g sprintf authenticate list_images r) [
      | inl (e, p) ↦ (subst IsPlainAnswer (sym p) tt, ask-IsPlainAnswer rs)
      | inr (images, _, p) ↦
          (subst IsPlainAnswer (sym p) (region_images-IsPlain r images), ask-IsPlainAnswer rs)
    ]

    -- Whatever the schedule of the goroutines, if no answer is the end of a context, then
    -- `GetVersions` answers as if it queried one region after the other: both panic, both fail, or
    -- both show the same versions in the same order, with the same classifications and dates, each
    -- with the same regions in some order. The condition is that no two different versions that are
    -- gathered have the same precedence.
    pub concurrent_answer :
        {n : ℕ} (s : Pool String (Result (List SourceImage)))
        → Run (querying g ask) n (started g.params.regions) s
        → IsDone (querying g ask) s
        → All GoesOn (answers_of (querying g ask) s.received)
        → ((q : Gathered)
            → gather nothing (map ask g.params.regions) ≡ ok q
            → AreSeparate
                (compare_semver_desc S)
                (compare_semver_desc-IsOrder S laws)
                (keys q.images))
        → IsSameAnswer
            (get_versions S g now (answers_of (querying g ask) s.received))
            (get_versions S g now (map ask g.params.regions))
    concurrent_answer s r d goes told =
        let (c, q, e, f, same) = concurrent_regions g ask s r d goes in
        let arrivals = answers_of (querying g ask) s.received in
        let plain = ask-IsPlainAnswer g.params.regions in
        let order = arrivals-Permᴰ g ask s r d goes in
        let h =
          gather-HasKept arrivals nothing {t = c}
            (All-Permᴰ IsPlainAnswer _ _ (Permᴰ.symm order) plain) (tt, tt) e in
        let k = gather-HasKept (map ask g.params.regions) nothing {t = q} plain (tt, tt) f in
        subst (λ a. IsSameAnswer a (get_versions S g now (map ask g.params.regions)))
          (sym (gathered-answer arrivals c e))
          (subst (IsSameAnswer (finish S g now c))
            (sym (gathered-answer (map ask g.params.regions) q f))
            (finish-IsSameAnswer c q h k same (told q f)))
