-- ===== src/OciSource/Laws.antt =====
-- What the filter keeps, and how `GetVersions` answers.
use cloud_profile_sync.Permuted.{append_assoc, append-nil}
use cloud_profile_sync.Common.{
  ◌+◌, ◌≡◌, ◌≢◌, refl, ◌∙◌, ◌↔◌, String, Option, Bool, true, false, ◌&&◌, ◌<◌, List, [], ◌∷◌, ◌++◌,
  length, contains, All, Bool-cases, inl, inr, ◌==◌, string_eq, nat_eq, if◌then◌else◌, arith,
}
use cloud_profile_sync.Common.Result.{Result, ok, err, Error, plain, is_kind}
use cloud_profile_sync.Api.{ImageFilter}
use cloud_profile_sync.OciSource.{
  CollectedImage, Collected, receive, passes_image_filter, apply_image_filter, is_context_error,
  join_errors, get_versions,
}

-- The filter lets an image through exactly if its feature set has every required value.
pub passes_image_filter_iff :
    (features required : List String)
    → passes_image_filter features required ≡ true ↔ All (λ r. contains features r ≡ true) required
unfolding passes_image_filter
passes_image_filter_iff features [] = (λ _. tt, λ _. refl)
passes_image_filter_iff features (r ∷ rs) =
    let (to, from) = passes_image_filter_iff features rs in
    (
      λ h. elim (Bool-cases (contains features r)) [
        | inl e ↦ (e, to (ground arith))
        | inr e ↦ absurd (ground arith)
      ],
      λ (e, h). rw e (from h),
    )

-- What the results of the tags are, each in its order.
unfoldable pub collected_items : List (Result CollectedImage) → List CollectedImage
collected_items [] = []
collected_items (ok item ∷ rest) = item ∷ collected_items rest
collected_items (err e ∷ rest) = collected_items rest

unfoldable pub errors_where : Bool → List (Result CollectedImage) → List Error
unfolding is_kind
errors_where b [] = []
errors_where b (ok item ∷ rest) = errors_where b rest
errors_where true (err e ∷ rest) =
    let es = errors_where true rest in if is_context_error e then e ∷ es else es
errors_where false (err e ∷ rest) =
    let es = errors_where false rest in if is_context_error e then es else e ∷ es

receive_lists :
    (c : Collected) (arrivals : List (Result CollectedImage))
    → receive c arrivals ≡ record {
      items = c.items ++ collected_items arrivals;
      skipped = c.skipped ++ errors_where false arrivals;
      errs = c.errs ++ errors_where true arrivals;
    }
unfolding receive collected_items errors_where
receive_lists c [] = simp (append-nil) refl
receive_lists c (ok item ∷ rest) =
    receive_lists (record c { items = c.items ++ item ∷ [] }) rest ∙ simp (append_assoc) refl
receive_lists c (err e ∷ rest) = elim (Bool-cases (is_context_error e)) [
  | inl h ↦
      rw h (receive_lists (record c { errs = c.errs ++ e ∷ [] }) rest ∙ simp (append_assoc) refl)
  | inr h ↦
      rw h
        (receive_lists (record c { skipped = c.skipped ++ e ∷ [] }) rest ∙ simp (append_assoc) refl)
]

abbrev nothing : Collected
nothing = record { items = []; skipped = []; errs = [] }

lengths :
    (arrivals : List (Result CollectedImage))
    → length (collected_items arrivals)
        + length (errors_where false arrivals)
        + length (errors_where true arrivals)
      ≡ length arrivals
unfolding collected_items errors_where
lengths [] = refl
lengths (ok item ∷ rest) = omega (arith, lengths rest)
lengths (err e ∷ rest) = elim (Bool-cases (is_context_error e)) [
  | inl h ↦ rw h (omega (arith, lengths rest))
  | inr h ↦ rw h (omega (arith, lengths rest))
]

-- If results are the end of a context, the answer is the error that joins those, in their order.
pub get_versions_context :
    (filter : Option ImageFilter) (arrivals : List (Result CollectedImage)) (e : Error)
    (es : List Error)
    → errors_where true arrivals ≡ e ∷ es
    → get_versions filter arrivals ≡ err (join_errors e es)
unfolding get_versions
get_versions_context filter arrivals e es h = rw (receive_lists nothing arrivals) (rw h refl)

and_false : (b : Bool) → (b && false) ≡ false
and_false true = refl
and_false false = refl

length_pos {ℓ} : {A : Type ℓ} (xs : List A) → xs ≢ [] → 0 < length xs
length_pos [] n = absurd (n refl)
length_pos (x ∷ xs) n = omega arith

-- Without the end of a context the answer is the images that pass the filter, in the order in which
-- they arrived, and nothing of the skipped tags; but it is an error if all tags were skipped.
pub get_versions_answer :
    (filter : Option ImageFilter) (arrivals : List (Result CollectedImage))
    → errors_where true arrivals ≡ []
    → (collected_items arrivals ≢ []
        → get_versions filter arrivals ≡ ok (apply_image_filter filter (collected_items arrivals)))
      × (collected_items arrivals ≡ []
          → get_versions filter arrivals
            ≡ err (plain "all %d tags were skipped; possible registry issue" []))
unfolding get_versions
get_versions_answer filter arrivals h = (
  λ n.
      let some_item : 0 < length (collected_items arrivals) =
        length_pos (collected_items arrivals) n in
      let fewer : (length (errors_where false arrivals) == length arrivals) ≡ false =
        ground (arith, lengths arrivals) in
      rw (receive_lists nothing arrivals) (rw h (rw fewer (simp (and_false) refl))),
  λ e.
      let all : (length (errors_where false arrivals) == length arrivals) ≡ true =
        ground (arith, lengths arrivals, h, e) in
      rw (receive_lists nothing arrivals) (rw h (rw e (rw all refl))),
)
