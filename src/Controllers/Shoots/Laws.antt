-- ===== src/Controllers/Shoots/Laws.antt =====
-- `gardenerVersionFromShoots` answers the least version that runs.
use Prim.Native.Nat.{Ordering}
use cloud_profile_sync.Common.{
  ◌≡◌, ◌≢◌, refl, sym, ap, subst, ◌∙◌, ◌⊎◌, String, true, List, [], ◌∷◌, All, contains, inl, inr,
  string_eq, arith,
}
use cloud_profile_sync.Common.Sort.{sort_func}
use cloud_profile_sync.Common.Sort.Sorted.{
  sort_func-IsSorted, All-sort_func, All-of_sort_func, head-le-All,
}
use cloud_profile_sync.Common.Order.{IsOrder, by_key-IsOrder}
use cloud_profile_sync.Common.Result.{Result, ok, err, no_shoots}
use cloud_profile_sync.Semver.{Semver, IsSemver}
use cloud_profile_sync.Gardener.{Shoot}
use cloud_profile_sync.Controllers.Shoots.{
  version_set, Entry, read_entries, compare_entries, first_raw, gardener_version_from_shoots,
}

version_set-has :
    (shoots : List Shoot) (set : List String) (x : String)
    → contains set x ≡ true
    → contains (version_set shoots set) x ≡ true
unfolding version_set
version_set-has [] set x h = h
version_set-has (s ∷ shoots) set x h = version_set-has shoots _ x (ground arith)

module _ (Q : String → Type 0) where
  -- What holds of the versions of the set holds of each version that a shoot names.
  All-shoots :
      (shoots : List Shoot) (set : List String)
      → ((x : String) → contains (version_set shoots set) x ≡ true → Q x)
      → All (λ s. s.gardener_version ≢ "" → Q s.gardener_version) shoots
  unfolding version_set
  All-shoots [] set h = tt
  All-shoots (s ∷ shoots) set h = (
    λ n. h s.gardener_version (version_set-has shoots _ s.gardener_version (ground arith)),
    All-shoots shoots _ h,
  )

  All-version_set :
      (shoots : List Shoot) (set : List String)
      → All Q set
      → All (λ s. Q s.gardener_version) shoots
      → All Q (version_set shoots set)
  unfolding version_set
  All-version_set [] set h _ = h
  All-version_set (s ∷ shoots) set h (q, qs) = All-version_set shoots _ (ground arith) qs

abbrev pub names : List Shoot → List String
names [] = []
names (s ∷ shoots) = s.gardener_version ∷ names shoots

-- A shoot has this version.
abbrev pub IsRun : List Shoot → String → Type 0
IsRun shoots x = contains (names shoots) x ≡ true

All-IsRun :
    (all shoots : List Shoot)
    → ((x : String) → IsRun shoots x → IsRun all x)
    → All (λ s. IsRun all s.gardener_version) shoots
unfolding contains
All-IsRun all [] h = tt
All-IsRun all (s ∷ shoots) h =
    (h s.gardener_version (ground arith), All-IsRun all shoots (λ x k. h x (ground arith)))

module _ (S : Semver) where
  abbrev IsRead : Entry S → Type 0
  IsRead e = S.parse_tolerant e.0 ≡ ok e.1

  cons_read : String → Result S.Version → List (Entry S) → List (Entry S)
  cons_read raw (ok v) rest = (raw, v) ∷ rest
  cons_read raw (err e) rest = rest

  read_entries-cons :
      (raw : String) (raws : List String) (r : Result S.Version)
      → S.parse_tolerant raw ≡ r
      → read_entries S (raw ∷ raws) ≡ cons_read raw r (read_entries S raws)
  unfolding read_entries cons_read
  read_entries-cons raw raws (ok v) e = ground arith
  read_entries-cons raw raws (err x) e = ground arith

  module _ (P : String → Type 0) where
    All-read_entries :
        (raws : List String) → All P raws → All (λ e. P e.0 × IsRead e) (read_entries S raws)
    unfolding cons_read
    All-read_entries [] _ = unfold read_entries in tt
    All-read_entries (raw ∷ raws) (p, ps) =
        go (S.parse_tolerant raw) refl (All-read_entries raws ps)
      where
        go :
            (r : Result S.Version)
            → S.parse_tolerant raw ≡ r
            → All (λ e. P e.0 × IsRead e) (read_entries S raws)
            → All (λ e. P e.0 × IsRead e) (read_entries S (raw ∷ raws))
        go (ok v) e ih =
            subst (All (λ e. P e.0 × IsRead e)) (sym (read_entries-cons raw raws (ok v) e))
              ((p, e), ih)
        go (err x) e ih =
            subst (All (λ e. P e.0 × IsRead e)) (sym (read_entries-cons raw raws (err x) e)) ih

  module _ (Q : Entry S → Type 0) where
    All-rest :
        (raw : String) (raws : List String)
        → All Q (read_entries S (raw ∷ raws))
        → All Q (read_entries S raws)
    unfolding cons_read
    All-rest raw raws = go (S.parse_tolerant raw) refl
      where
        go :
            (r : Result S.Version)
            → S.parse_tolerant raw ≡ r
            → All Q (read_entries S (raw ∷ raws))
            → All Q (read_entries S raws)
        go (ok v) e h = (subst (All Q) (read_entries-cons raw raws (ok v) e) h).1
        go (err x) e h = subst (All Q) (read_entries-cons raw raws (err x) e) h

    entry_of :
        (raws : List String) (x : String) (w : S.Version)
        → All Q (read_entries S raws)
        → contains raws x ≡ true
        → S.parse_tolerant x ≡ ok w
        → Q (x, w)
    unfolding contains cons_read
    entry_of [] x w h k e = absurd (ground arith)
    entry_of (raw ∷ raws) x w h k e = elim (string_eq.dec x raw) [
      | yes same ↦
          subst (λ y. Q (y, w)) (sym same)
            (subst (All Q) (read_entries-cons raw raws (ok w) (ap S.parse_tolerant (sym same) ∙ e))
              h).0
      | no n ↦ entry_of raws x w (All-rest raw raws h) (ground arith) e
    ]

  -- The two outcomes.
  abbrev pub IsLeastOrNone : List Shoot → Type 0
  IsLeastOrNone shoots =
      ((gardener_version_from_shoots S shoots ≡ err no_shoots)
        × All
            (λ s.
              s.gardener_version ≢ ""
              → (w : S.Version) → S.parse_tolerant s.gardener_version ≢ ok w)
            shoots)
      ⊎ ((raw : String) × (v : S.Version) × (gardener_version_from_shoots S shoots ≡ ok raw)
          × IsRun shoots raw
          × (S.parse_tolerant raw ≡ ok v)
          × All
              (λ s.
                s.gardener_version ≢ ""
                → (w : S.Version) → S.parse_tolerant s.gardener_version ≡ ok w
                → S.compare v w ≢ Ordering.gt)
              shoots)

  -- With the laws of semver, either no shoot has a version that can be read, and the answer is
  -- `ErrNoShoots`; or the answer is a version of a shoot that can be read, and no version of a
  -- shoot that can be read is lower.
  pub gardener_version_cases : IsSemver S → (shoots : List Shoot) → IsLeastOrNone shoots
  unfolding gardener_version_from_shoots sort_func
  gardener_version_cases L shoots = go (sort_func cmp entries) refl
    where
      set : List String
      set = version_set shoots []

      entries : List (Entry S)
      entries = read_entries S set

      cmp : Entry S → Entry S → Ordering
      cmp = compare_entries S

      order : IsOrder cmp
      order = by_key-IsOrder (λ (e : Entry S). e.1) L.order

      facts : All (λ e. IsRun shoots e.0 × IsRead e) (sort_func cmp entries)
      facts =
          All-sort_func cmp (λ e. IsRun shoots e.0 × IsRead e) entries
            (All-read_entries (IsRun shoots) set
              (All-version_set (IsRun shoots) shoots [] tt (All-IsRun shoots shoots (λ x h. h))))

      each :
          (Q : Entry S → Type 0)
          → All Q entries
          → All
              (λ s.
                s.gardener_version ≢ ""
                → (w : S.Version) → S.parse_tolerant s.gardener_version ≡ ok w
                → Q (s.gardener_version, w))
              shoots
      each Q h =
          All-shoots (λ x. (w : S.Version) → S.parse_tolerant x ≡ ok w → Q (x, w)) shoots []
            (λ x k w e. entry_of Q set x w h k e)

      go : (l : List (Entry S)) → sort_func cmp entries ≡ l → IsLeastOrNone shoots
      go [] e = inl (
        ap (first_raw S) e,
        each (λ _. ⊥) (All-of_sort_func cmp (λ _. ⊥) entries (subst (All (λ _. ⊥)) (sym e) tt)),
      )
      go ((raw, v) ∷ rest) e = inr (
        raw,
        v,
        ap (first_raw S) e,
        (subst (All (λ e. IsRun shoots e.0 × IsRead e)) e facts).0.0,
        (subst (All (λ e. IsRun shoots e.0 × IsRead e)) e facts).0.1,
        each (λ x. cmp (raw, v) x ≢ Ordering.gt)
            (head-le-All cmp order entries e (sort_func-IsSorted cmp order entries)),
      )
