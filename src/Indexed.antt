-- ===== src/Indexed.antt =====
-- A list of keyed entries beside a map from keys to positions, as loops that update entries in
-- place keep it.
use cloud_profile_sync.Common.{
  ℕ, zero, suc, ◌+◌, ◌≡◌, refl, sym, ap, ◌∙◌, String, Option, none, some, Bool, false, not, List,
  [], ◌∷◌, ◌++◌, length, modify, select, index_func, index_func-append, index_func-modify,
  Option-cases, inl, inr, ◌==◌, string_eq, if◌then◌else◌, arith,
}
use cloud_profile_sync.Common.Dict.{Dict, lookup, insert, lookup-insert, lookup-nil}

module _ {ℓ} {A : Type ℓ} where
  pub modify-snoc :
      (xs : List A) (y : A) (f : A → A) → modify (xs ++ y ∷ []) (length xs) f ≡ xs ++ f y ∷ []
  unfolding modify
  modify-snoc [] y f = refl
  modify-snoc (x ∷ xs) y f = ap (◌∷◌ x) (modify-snoc xs y f)

  pub select-snoc :
      (p : A → Bool) (xs : List A) (y : A) → p y ≡ false → select p (xs ++ y ∷ []) ≡ select p xs
  unfolding select
  select-snoc p [] y h = ground arith
  select-snoc p (x ∷ xs) y h = ground (arith, select-snoc p xs y h)

  -- Changing the first element of a property leaves the elements without it.
  pub select-modify_first :
      (p : A → Bool) (f : A → A)
      → ((x : A) → p (f x) ≡ p x)
      → (xs : List A) (i : ℕ) → index_func p xs ≡ some i
      → select (λ x. not (p x)) (modify xs i f) ≡ select (λ x. not (p x)) xs
  unfolding select modify index_func
  select-modify_first p f same [] i h = refl
  select-modify_first p f same (x ∷ xs) zero h = ground (arith, same x)
  select-modify_first p f same (x ∷ xs) (suc i) h =
      ground (arith, select-modify_first p f same xs i)

module _ {ℓ} {A : Type ℓ} (key : A → String) where
  abbrev pub has_key : String → A → Bool
  has_key k v = key v == k

  -- The index has the position of each key that is listed, and of no other.
  abbrev pub IsIndexed : List A → Dict String ℕ → Type 0
  IsIndexed vs existing = (k : String) → lookup k existing ≡ index_func (has_key k) vs

  -- The first entry of a key.
  unfoldable pub find : String → List A → Option A
  find k [] = none
  find k (v ∷ vs) = if key v == k then some v else find k vs

  abbrev pub AreDistinct : List A → Type ℓ
  AreDistinct [] = Unit
  AreDistinct (v ∷ vs) = (find (key v) vs ≡ none) × AreDistinct vs

  find-index_func : (k : String) (vs : List A) → find k vs ≡ none → index_func (has_key k) vs ≡ none
  unfolding find index_func
  find-index_func k [] h = refl
  find-index_func k (v ∷ vs) h = ground (arith, find-index_func k vs)

  abbrev pub plus : ℕ → Option ℕ → Option ℕ → Option ℕ
  plus i none d = d
  plus i (some j) d = some (i + j)

  plus-zero : (o : Option ℕ) → plus 0 o none ≡ o
  plus-zero none = refl
  plus-zero (some j) = ap some (omega arith)

  -- A loop that numbers the entries from `i` on builds the index.
  module _ (index : List A → ℕ → Dict String ℕ → Dict String ℕ)
      (index-nil : (i : ℕ) (existing : Dict String ℕ) → index [] i existing ≡ existing)
      (index-cons : (v : A) (vs : List A) (i : ℕ) (existing : Dict String ℕ)
        → index (v ∷ vs) i existing ≡ index vs (suc i) (insert (key v) i existing)) where
    lookup-index :
        (vs : List A) (i : ℕ) (existing : Dict String ℕ) (k : String)
        → AreDistinct vs
        → lookup k (index vs i existing) ≡ plus i (index_func (has_key k) vs) (lookup k existing)
    unfolding index_func
    lookup-index [] i existing k _ = ap (lookup k) (index-nil i existing)
    lookup-index (v ∷ vs) i existing k (fresh, d) =
        ap (lookup k) (index-cons v vs i existing)
        ∙ lookup-index vs (suc i) (insert (key v) i existing) k d
        ∙ ground (arith, lookup-insert k (key v) i existing, find-index_func (key v) vs fresh)

    pub index-IsIndexed : (vs : List A) → AreDistinct vs → IsIndexed vs (index vs 0 [])
    index-IsIndexed vs d k =
        lookup-index vs 0 [] k d ∙ rw lookup-nil (plus-zero (index_func (has_key k) vs))

  pub append-IsIndexed :
      (vs : List A) (existing : Dict String ℕ) (v : A) (new : String)
      → key v ≡ new
      → IsIndexed vs existing
      → lookup new existing ≡ none
      → IsIndexed (vs ++ v ∷ []) (insert new (length vs) existing)
  append-IsIndexed vs existing v new same h fresh k =
      ground
        (arith, h k, lookup-insert k new (length vs) existing, index_func-append (has_key k) vs v)

  pub find_absent : (k : String) (vs : List A) → index_func (has_key k) vs ≡ none → find k vs ≡ none
  unfolding find index_func
  find_absent k [] h = refl
  find_absent k (v ∷ vs) h = ground (arith, find_absent k vs)

  pub find_present :
      (k : String) (vs : List A) (i : ℕ)
      → index_func (has_key k) vs ≡ some i
      → (v : A) × (find k vs ≡ some v)
  unfolding find index_func
  find_present k [] i h = ground arith
  find_present k (v ∷ vs) i h = elim (string_eq.dec (key v) k) [
    | yes e ↦ (v, ground arith)
    | no n ↦ elim (Option-cases (index_func (has_key k) vs)) [
      | inl e ↦ absurd (ground arith)
      | inr (j, e) ↦ let (w, p) = find_present k vs j e in (w, ground arith)
    ]
  ]

  pub find-append :
      (k : String) (vs : List A) (v : A)
      → find k (vs ++ v ∷ [])
        ≡ elim (find k vs) [ some w ↦ some w | none ↦ if key v == k then some v else none ]
  unfolding find
  find-append k [] v = refl
  find-append k (w ∷ vs) v = ground (arith, find-append k vs v)

  module _ (f : A → A) (same : (v : A) → key (f v) ≡ key v) where
    pub modify-IsIndexed :
        (vs : List A) (existing : Dict String ℕ) (i : ℕ)
        → IsIndexed vs existing
        → IsIndexed (modify vs i f) existing
    modify-IsIndexed vs existing i h k =
        h k ∙ sym (index_func-modify (has_key k) f (λ v. ap (λ x. x == k) (same v)) vs i)

    pub find-modify_self :
        (k : String) (vs : List A) (i : ℕ) (v : A)
        → index_func (has_key k) vs ≡ some i
        → find k vs ≡ some v
        → find k (modify vs i f) ≡ some (f v)
    unfolding find index_func modify
    find-modify_self k [] i v h e = ground arith
    find-modify_self k (w ∷ vs) zero v h e = ground (arith, same w)
    find-modify_self k (w ∷ vs) (suc i) v h e = ground (arith, find-modify_self k vs i v)

    pub find-modify_ne :
        (j k : String) (vs : List A) (i : ℕ)
        → index_func (has_key k) vs ≡ some i
        → (j == k) ≡ false
        → find j (modify vs i f) ≡ find j vs
    unfolding find index_func modify
    find-modify_ne j k [] i h n = refl
    find-modify_ne j k (w ∷ vs) zero h n = ground (arith, same w)
    find-modify_ne j k (w ∷ vs) (suc i) h n = ground (arith, find-modify_ne j k vs i)

    find-modify-none :
        (k : String) (vs : List A) (i : ℕ) → find k vs ≡ none → find k (modify vs i f) ≡ none
    unfolding find modify
    find-modify-none k [] i h = refl
    find-modify-none k (v ∷ vs) zero h = ground (arith, same v)
    find-modify-none k (v ∷ vs) (suc i) h = ground (arith, find-modify-none k vs i)

    pub modify-AreDistinct : (vs : List A) (i : ℕ) → AreDistinct vs → AreDistinct (modify vs i f)
    unfolding modify
    modify-AreDistinct [] i d = tt
    modify-AreDistinct (v ∷ vs) zero (fresh, d) = (rw (same v) fresh, d)
    modify-AreDistinct (v ∷ vs) (suc i) (fresh, d) =
        (find-modify-none (key v) vs i fresh, modify-AreDistinct vs i d)

  pub append-AreDistinct :
      (vs : List A) (v : A) → AreDistinct vs → find (key v) vs ≡ none → AreDistinct (vs ++ v ∷ [])
  unfolding find
  append-AreDistinct [] v d h = (refl, tt)
  append-AreDistinct (w ∷ vs) v (fresh, d) h =
      (find-append (key w) vs v ∙ ground arith, append-AreDistinct vs v d (ground arith))
