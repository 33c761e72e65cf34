-- ===== src/Capabilities/Allowed.antt =====
-- What `filterCapabilities` lets through.
use cloud_profile_sync.Common.{
  ◌≡◌, refl, String, none, some, Bool, false, ◌&&◌, List, [], ◌∷◌, contains, contains-select,
  Option-cases, inl, inr, nat_eq, string_eq, ◌≢◌, All, arith,
}
use cloud_profile_sync.Common.Dict.{Dict, lookup, NodupKeys}
use cloud_profile_sync.Gardener.{Capabilities}
use cloud_profile_sync.Capabilities.{
  entries, allowed_values, filter_entries, some_unless_empty, filter_capabilities,
}

-- Whether a map lists a value under a key.
unfoldable pub has_value : Dict String (List String) → String → String → Bool
has_value m key v = elim (lookup key m) [ none ↦ false | some vals ↦ contains vals v ]

contains-allowed_values :
    (allowed : Dict String (List String)) (key : String) (values : List String) (v : String)
    → contains (allowed_values allowed key values) v ≡ contains values v && has_value allowed key v
unfolding allowed_values has_value
contains-allowed_values allowed key values v = elim (Option-cases (lookup key allowed)) [
  | inl e ↦ ground arith
  | inr (vals, e) ↦ ground (arith, contains-select (contains vals) values v)
]

module _ (allowed : Dict String (List String)) where
  lookup-filter_absent :
      (caps : Dict String (List String)) (key : String)
      → lookup key caps ≡ none
      → lookup key (filter_entries caps allowed) ≡ none
  unfolding filter_entries lookup
  lookup-filter_absent [] key h = h
  lookup-filter_absent ((j, values) ∷ caps) key h = ground (arith, lookup-filter_absent caps key)

  has_value-filter_entries :
      (caps : Dict String (List String)) (key v : String)
      → NodupKeys caps
      → has_value (filter_entries caps allowed) key v
        ≡ has_value caps key v && has_value allowed key v
  unfolding filter_entries has_value lookup contains
  has_value-filter_entries [] key v u = refl
  has_value-filter_entries ((j, values) ∷ caps) key v (fresh, u) = ground (
    arith,
    has_value-filter_entries caps key v u,
    contains-allowed_values allowed j values v,
    lookup-filter_absent caps j fresh,
  )

entries-some_unless_empty : (m : Dict String (List String)) → entries (some_unless_empty m) ≡ m
entries-some_unless_empty [] = refl
entries-some_unless_empty (e ∷ es) = refl

-- For a map that has each key once, a value stands under a key of the result exactly if it stands
-- there before and is allowed there.
pub filter_capabilities_values :
    (caps : Capabilities) (allowed : Dict String (List String)) (key v : String)
    → NodupKeys (entries caps)
    → has_value (entries (filter_capabilities caps allowed)) key v
      ≡ has_value (entries caps) key v && has_value allowed key v
unfolding filter_capabilities
filter_capabilities_values caps [] key v u = unfold has_value lookup in ground arith
filter_capabilities_values caps (a ∷ as') key v u =
    rw (entries-some_unless_empty (filter_entries (entries caps) (a ∷ as')))
      (has_value-filter_entries (a ∷ as') (entries caps) key v u)

-- No key of a map has the empty list of values.
abbrev pub HasValues : Dict String (List String) → Type 0
HasValues = All (λ e. e.1 ≢ [])

filter_entries-HasValues :
    (caps allowed : Dict String (List String)) → HasValues (filter_entries caps allowed)
unfolding filter_entries
filter_entries-HasValues [] allowed = tt
filter_entries-HasValues ((key, values) ∷ caps) allowed =
    ground (arith, filter_entries-HasValues caps allowed)

-- The result is nil, or a map with at least one key and no empty list of values.
pub filter_capabilities_shape :
    (caps : Capabilities) (allowed : Dict String (List String))
    → (filter_capabilities caps allowed ≢ some [])
      × HasValues (entries (filter_capabilities caps allowed))
unfolding filter_capabilities
filter_capabilities_shape caps [] = (λ h. ground arith, tt)
filter_capabilities_shape caps (a ∷ as') =
    let kept = filter_entries-HasValues (entries caps) (a ∷ as') in ground arith
