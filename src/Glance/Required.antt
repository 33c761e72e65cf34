-- ===== src/Glance/Required.antt =====
-- Which versions `GetVersions` of the Glance source shows where all regions are required.
use Prim.Native.Nat.{Ordering}
use cloud_profile_sync.Common.{
  ◌≡◌, refl, sym, ap, ◌∙◌, ◌↔◌, inl, inr, String, Option, some, true, ◌&&◌, ◌||◌, List, [], ◌∷◌,
  map, All, length, contains, contains-select, modify, ◌==◌, Bool-cases, string_eq, nat_eq,
  if◌then◌else◌, ◌-◌, zero, suc, ℕ, arith,
}
use cloud_profile_sync.Common.Int.{negsuc}
use cloud_profile_sync.Common.Keys.{keys}
use cloud_profile_sync.Common.Dict.{Dict}
use cloud_profile_sync.Common.Result.{Result, ok, err, wrap}
use cloud_profile_sync.Common.Sort.{insert_sorted, sort_func}
use cloud_profile_sync.Semver.{Semver, IsSemver}
use cloud_profile_sync.Gardener.{Time}
use cloud_profile_sync.Source.{SourceImage}
use cloud_profile_sync.Glance.{Glance, GlanceImage, AuthOptions, compare_semver_desc}
use cloud_profile_sync.Glance.Versions.{
  Gathered, window, classify, classify_supported, classify_last, finish, fold_errors, gather,
  get_versions,
}
use cloud_profile_sync.Glance.Gather.{missing_none, present_in, regions_of}
use cloud_profile_sync.Glance.Order.{nothing}
use cloud_profile_sync.Glance.Entries.{HasKept, entry_of, gather-HasKept}
use cloud_profile_sync.Glance.Kept.{in_all, kept_keys}
use cloud_profile_sync.Glance.Shown.{
  finish-shown, shown, all_failed, chosen_keys, ask, ask-IsPlainAnswer, gathered-answer,
}

abbrev pub version_of : SourceImage → String
version_of v = v.version

module _ (cmp : String → String → Ordering) where
  contains-insert_sorted :
      (x : String) (xs : List String) (a : String)
      → contains (insert_sorted cmp x xs) a ≡ a == x || contains xs a
  unfolding insert_sorted contains
  contains-insert_sorted x [] a = refl
  contains-insert_sorted x (y ∷ ys) a = go (cmp x y) (contains-insert_sorted x ys a)
    where
      go :
          (o : Ordering)
          → contains (insert_sorted cmp x ys) a ≡ a == x || contains ys a
          → contains (elim o [ Ordering.gt ↦ y ∷ insert_sorted cmp x ys | _ ↦ x ∷ y ∷ ys ]) a
            ≡ a == x || contains (y ∷ ys) a
      go Ordering.gt ih = ground (arith, ih)
      go Ordering.lt ih = refl
      go Ordering.eq ih = refl

  contains-sort_func :
      (xs : List String) (a : String) → contains (sort_func cmp xs) a ≡ contains xs a
  unfolding sort_func contains
  contains-sort_func [] a = refl
  contains-sort_func (x ∷ xs) a =
      contains-insert_sorted x (sort_func cmp xs) a
      ∙ ap (λ b. a == x || b) (contains-sort_func xs a)

versions-modify :
    (now : Time) (vs : List SourceImage) (i : ℕ)
    → map version_of (modify vs i (classify_last now)) ≡ map version_of vs
unfolding modify classify_last
versions-modify now [] i = refl
versions-modify now (v ∷ vs) zero = refl
versions-modify now (v ∷ vs) (suc i) = ap (◌∷◌ v.version) (versions-modify now vs i)

versions-supported :
    (vs : List SourceImage) → map version_of (map classify_supported vs) ≡ map version_of vs
unfolding classify_supported
versions-supported [] = refl
versions-supported (v ∷ vs) = ap (◌∷◌ v.version) (versions-supported vs)

versions-classify :
    (now : Time) (vs : List SourceImage) → map version_of (classify now vs) ≡ map version_of vs
unfolding classify
versions-classify now vs =
    let all = map classify_supported vs in
    versions-modify now all (length all - 1) ∙ versions-supported vs

versions-entry_of :
    (images : Dict String SourceImage) (ks : List String)
    → map version_of (map (entry_of images) ks) ≡ ks
versions-entry_of images [] = refl
versions-entry_of images (k ∷ ks) = ap (◌∷◌ k) (versions-entry_of images ks)

window_all : (n : ℕ) (xs : List String) → window (negsuc n) 0 xs ≡ some xs
unfolding window
window_all n xs = ground arith

module _ (S : Semver) (laws : IsSemver S) (g : Glance) (now : Time) (n : ℕ)
    (unlimited : g.keep_latest ≡ negsuc n) (from_newest : g.offset ≡ 0)
    (required : g.params.require_all_regions ≡ true) where
  chosen_all :
      (s : Gathered)
      → chosen_keys S laws g now s ≡ some (sort_func (compare_semver_desc S) (kept_keys true s))
  chosen_all s =
      ap (λ b. window g.keep_latest g.offset (sort_func (compare_semver_desc S) (kept_keys b s)))
        required
      ∙ ap (λ k. window k g.offset (sort_func (compare_semver_desc S) (kept_keys true s))) unlimited
      ∙ ap (λ o. window (negsuc n) o (sort_func (compare_semver_desc S) (kept_keys true s)))
          from_newest
      ∙ window_all n (sort_func (compare_semver_desc S) (kept_keys true s))

  finish_shows :
      (s : Gathered) (vs : List SourceImage)
      → HasKept s.images
      → finish S g now s ≡ some (ok vs)
      → map version_of vs ≡ sort_func (compare_semver_desc S) (kept_keys true s)
  finish_shows s vs h e =
      let f = entry_of s.images in
      let ks = sort_func (compare_semver_desc S) (kept_keys true s) in
      let failure : Option (Result (List SourceImage)) =
        some (err (wrap "all %d regions failed: %w" [] (fold_errors s.skipped))) in
      let answer : (if all_failed S laws g now s then failure else shown S laws g now f (some ks))
          ≡ some (ok vs) =
        ap (λ o. if all_failed S laws g now s then failure else shown S laws g now f o)
          (sym (chosen_all s))
        ∙ sym (finish-shown S laws g now s h)
        ∙ e in
      elim (Bool-cases (all_failed S laws g now s)) [
        | inl failed ↦ absurd (ground (arith, answer, failed))
        | inr some_found ↦
            let same : vs ≡ classify now (map f ks) = ground (arith, answer, some_found) in
            ap (map version_of) same
            ∙ versions-classify now (map f ks)
            ∙ versions-entry_of s.images ks
      ]

  module _ {Client : Type 0} (sprintf : String → String → String)
      (authenticate : String → AuthOptions → Result Client)
      (list_images : Client → String → Result (List GlanceImage)) where
    pub required_shown_iff :
        (s : Gathered) (vs : List SourceImage)
        → gather nothing (map (ask S laws g now sprintf authenticate list_images) g.params.regions)
          ≡ ok s
        → get_versions S g now
            (map (ask S laws g now sprintf authenticate list_images) g.params.regions)
          ≡ some (ok vs)
        → (version : String)
        → (contains (map version_of vs) version ≡ true) ↔ (
            (contains (keys s.images) version ≡ true)
            × All
                (λ region.
                  contains (map (λ r. r.region) (regions_of version s.images)) region ≡ true)
                s.all_regions)
    required_shown_iff s vs e answered version =
        let arrivals = map (ask S laws g now sprintf authenticate list_images) g.params.regions in
        let plain =
          ask-IsPlainAnswer S laws g now sprintf authenticate list_images g.params.regions in
        let h = gather-HasKept arrivals nothing {t = s} plain (tt, tt) e in
        let shows =
          finish_shows s vs h (sym (gathered-answer S laws g now arrivals s e) ∙ answered) in
        let entry = entry_of s.images version in
        let (to, from) = missing_none (present_in entry) s.all_regions in
        let same : contains (map version_of vs) version
            ≡ contains (keys s.images) version && in_all s.all_regions entry =
          ap (λ l. contains l version) shows
          ∙ contains-sort_func (compare_semver_desc S) (kept_keys true s) version
          ∙ contains-select (λ k. in_all s.all_regions (entry_of s.images k)) (keys s.images)
              version in
        (
          λ c. (ground (arith, same, c), to (ground (arith, same, c))),
          λ (c, all). same ∙ rw (c, from all) refl,
        )
