-- ===== src/Glance/Kept.antt =====
-- The versions that `GetVersions` of the Glance source keeps of what it has gathered.
use Prim.Native.Nat.{Ordering}
use mathlib.Core.Path.{fun_ext}
use mathlib.Core.List.{Permᴰ, Mem, eq-or-mem_of_mem-cons, mem-cons_self, mem-cons_of_mem, Mem-prop}
use mathlib.Core.List.Permᴰ
use mathlib.Core.Logic.Or
use cloud_profile_sync.Common.{
  ◌≡◌, refl, sym, ap, subst, ◌∙◌, inl, inr, String, Bool, true, false, not, List, [], ◌∷◌, map, All,
  is_empty, contains, select, Bool-cases, string_eq, nat_eq, if◌then◌else◌, arith,
}
use cloud_profile_sync.Common.Keys.{keys, keys-Permᴰ}
use cloud_profile_sync.Common.Order.{IsOrder}
use cloud_profile_sync.Common.Sort.Unique.{AreSeparate}
use cloud_profile_sync.Permuted.{loop-Permᴰ, All-Permᴰ}
use cloud_profile_sync.Source.{SourceImage, RegionImage}
use cloud_profile_sync.Glance.Versions.{Gathered, filter_require_regions}
use cloud_profile_sync.Glance.Gather.{present_in, missing_none}
use cloud_profile_sync.Glance.Order.{IsSameGathered}
use cloud_profile_sync.Glance.Entries.{HasKept, entry_of, regions-HaveSameKeys}

contains-Permᴰ : (l m : List String) (a : String) → Permᴰ l m → contains l a ≡ contains m a
unfolding contains
contains-Permᴰ _ _ a Permᴰ.nil = refl
contains-Permᴰ _ _ a (Permᴰ.cons {l₁ = l} {l₂ = m} e p) = ground (arith, e, contains-Permᴰ l m a p)
contains-Permᴰ _ _ a (Permᴰ.swap e f) = ground (arith, e, f)
contains-Permᴰ l m a (Permᴰ.trans {l₂ = k} p q) = contains-Permᴰ l k a p ∙ contains-Permᴰ k m a q

map-Permᴰ {ℓ κ} :
    {A : Type ℓ} {B : Type κ} (f : A → B) (l m : List A) → Permᴰ l m → Permᴰ (map f l) (map f m)
map-Permᴰ f = loop-Permᴰ (map f) (λ x. f x ∷ []) refl (λ x xs. refl)

select-Permᴰ {ℓ} :
    {A : Type ℓ} (p : A → Bool) (l m : List A) → Permᴰ l m → Permᴰ (select p l) (select p m)
unfolding select
select-Permᴰ p = loop-Permᴰ (select p) (λ x. if p x then x ∷ [] else []) refl (λ x xs. ground arith)

-- Whether an image is in every region of a baseline.
abbrev pub in_all : List String → SourceImage → Bool
in_all baseline v = is_empty (select (λ region. not (contains (present_in v) region)) baseline)

pub filter-select :
    (versions : List SourceImage) (baseline : List String)
    → filter_require_regions versions baseline ≡ select (in_all baseline) versions
unfolding filter_require_regions select
filter-select versions (b ∷ baseline) = refl
filter-select [] [] = refl
filter-select (v ∷ versions) [] = ap (◌∷◌ v) (filter-select versions [])

same_if_iff : (b c : Bool) → (b ≡ true → c ≡ true) → (c ≡ true → b ≡ true) → b ≡ c
same_if_iff true c f g = sym (f refl)
same_if_iff false true f g = g refl
same_if_iff false false f g = refl

All-contains :
    (l m baseline : List String)
    → ((a : String) → contains l a ≡ contains m a)
    → All (λ b. contains l b ≡ true) baseline
    → All (λ b. contains m b ≡ true) baseline
All-contains l m [] h _ = tt
All-contains l m (b ∷ baseline) h (p, ps) = (sym (h b) ∙ p, All-contains l m baseline h ps)

-- The versions that are kept, by name.
abbrev pub kept_keys : Bool → Gathered → List String
kept_keys required s =
    if required
    then select (λ k. in_all s.all_regions (entry_of s.images k)) (keys s.images)
    else keys s.images

module _ (c q : Gathered) (h : HasKept c.images) (g : HasKept q.images)
    (same : IsSameGathered c q) where
  in_all_same :
      (k : String)
      → in_all c.all_regions (entry_of c.images k) ≡ in_all q.all_regions (entry_of q.images k)
  in_all_same k =
      let (regions, all, _) = same in
      let present_c = present_in (entry_of c.images k) in
      let present_q = present_in (entry_of q.images k) in
      let present : (a : String) → contains present_c a ≡ contains present_q a =
        λ a. contains-Permᴰ _ _ a (map-Permᴰ (λ (r : RegionImage). r.region) _ _ (regions k)) in
      let (to_c, from_c) = missing_none present_c c.all_regions in
      let (to_q, from_q) = missing_none present_q q.all_regions in
      same_if_iff _ _
        (λ e.
          from_q
            (All-Permᴰ _ _ _ all (All-contains present_c present_q c.all_regions present (to_c e))))
        (λ e. from_c (
          All-Permᴰ _ _ _ (Permᴰ.symm all)
            (All-contains present_q present_c q.all_regions (λ a. sym (present a)) (to_q e))))

  same_keys : Permᴰ (keys q.images) (keys c.images)
  same_keys =
      Permᴰ.symm
        (keys-Permᴰ c.images q.images h.0 g.0 (regions-HaveSameKeys c.images q.images h g same.0))

  pub kept_keys-Permᴰ : (required : Bool) → Permᴰ (kept_keys required q) (kept_keys required c)
  kept_keys-Permᴰ false = same_keys
  kept_keys-Permᴰ true =
      subst (λ p. Permᴰ (kept_keys true q) (select p (keys c.images)))
        (fun_ext λ k. sym (in_all_same k))
        (select-Permᴰ (λ k. in_all q.all_regions (entry_of q.images k)) _ _ same_keys)

Mem-select {ℓ} : {A : Type ℓ} (p : A → Bool) (l : List A) (x : A) → Mem x (select p l) → Mem x l
unfolding select
Mem-select p [] x m = m
Mem-select p (y ∷ l) x m = elim (Bool-cases (p y)) [
  | inl e ↦
      let split : Mem x (y ∷ select p l) = subst (Mem x) (ground (arith, e)) m in
      Or.elim Mem-prop (eq-or-mem_of_mem-cons split)
        (λ d. subst (λ z. Mem z (y ∷ l)) (sym d) mem-cons_self)
        (λ k. mem-cons_of_mem y (Mem-select p l x k))
  | inr e ↦
      let rest : Mem x (select p l) = subst (Mem x) (ground (arith, e)) m in
      mem-cons_of_mem y (Mem-select p l x rest)
]

pub kept_keys-AreSeparate :
    (cmp : String → String → Ordering) (o : IsOrder cmp) (required : Bool) (s : Gathered)
    → AreSeparate cmp o (keys s.images)
    → AreSeparate cmp o (kept_keys required s)
kept_keys-AreSeparate cmp o false s h x y m n = h x y m n
kept_keys-AreSeparate cmp o true s h x y m n =
    let p = λ (k : String). in_all s.all_regions (entry_of s.images k) in
    h x y (Mem-select p (keys s.images) x m) (Mem-select p (keys s.images) y n)
