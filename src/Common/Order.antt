-- ===== src/Common/Order.antt =====
-- Go's `cmp.Compare` and `strings.Compare` on texts, and the laws of a comparison.
use Prim.Native.Nat.{compare, Ordering}
use Prim.Native.Char.{code}
use Prim.Native.String.{String}
use mathlib.Core.Path.{◌≡◌, refl, ap₂}
use mathlib.Core.Logic.{◌≢◌}
use native.Mathlib.Omega.{arith}
use text.Mathlib.TextEquality.{Char-path}

-- `if c := first; c != 0 { return c }; return second`
abbrev pub or_then : Ordering → Ordering → Ordering
or_then Ordering.lt o = Ordering.lt
or_then Ordering.eq o = o
or_then Ordering.gt o = Ordering.gt

abbrev pub flip : Ordering → Ordering
flip Ordering.lt = Ordering.gt
flip Ordering.eq = Ordering.eq
flip Ordering.gt = Ordering.lt

-- Lexicographic by code point, which is the order of the bytes of UTF-8.
unfoldable pub compare_text : String → String → Ordering
compare_text String.[] String.[] = Ordering.eq
compare_text String.[] (String.◌∷◌ d t) = Ordering.lt
compare_text (String.◌∷◌ c s) String.[] = Ordering.gt
compare_text (String.◌∷◌ c s) (String.◌∷◌ d t) =
    or_then (compare (code c) (code d)) (compare_text s t)

-- A total preorder, as Go's sort wants it of its comparison.
pub record IsOrder {ℓ} {A : Type ℓ} (cmp : A → A → Ordering) : Type ℓ where
  pub turn : (x y : A) → cmp y x ≡ flip (cmp x y)
  pub le_trans : (x y z : A) → cmp x y ≢ Ordering.gt → cmp y z ≢ Ordering.gt → cmp x z ≢ Ordering.gt

compare_text-turn : (s t : String) → compare_text t s ≡ flip (compare_text s t)
unfolding compare_text
compare_text-turn String.[] String.[] = refl
compare_text-turn String.[] (String.◌∷◌ d t) = refl
compare_text-turn (String.◌∷◌ c s) String.[] = refl
compare_text-turn (String.◌∷◌ c s) (String.◌∷◌ d t) = ground (arith, compare_text-turn s t)

pub compare_text_eq : (s t : String) → compare_text s t ≡ Ordering.eq → s ≡ t
unfolding compare_text
compare_text_eq String.[] String.[] h = refl
compare_text_eq String.[] (String.◌∷◌ d t) h = ground arith
compare_text_eq (String.◌∷◌ c s) String.[] h = ground arith
compare_text_eq (String.◌∷◌ c s) (String.◌∷◌ d t) h =
    ap₂ String.◌∷◌ (Char-path c d (ground arith)) (compare_text_eq s t (ground arith))

compare_text_trans :
    (s t u : String)
    → compare_text s t ≢ Ordering.gt
    → compare_text t u ≢ Ordering.gt
    → compare_text s u ≢ Ordering.gt
unfolding compare_text
compare_text_trans String.[] t String.[] h k = ground arith
compare_text_trans String.[] t (String.◌∷◌ e u) h k = ground arith
compare_text_trans (String.◌∷◌ c s) String.[] u h k = ground arith
compare_text_trans (String.◌∷◌ c s) (String.◌∷◌ d t) String.[] h k = ground arith
compare_text_trans (String.◌∷◌ c s) (String.◌∷◌ d t) (String.◌∷◌ e u) h k =
    ground (arith, compare_text_trans s t u)

pub compare_text-IsOrder : IsOrder compare_text
compare_text-IsOrder = record { turn = compare_text-turn; le_trans = compare_text_trans }

module _ {ℓ} {A : Type ℓ} {f g : A → A → Ordering} (o : IsOrder f) (q : IsOrder g) where
  -- One comparison behind another.
  pub or_then-IsOrder : IsOrder (λ a b. or_then (f a b) (g a b))
  or_then-IsOrder = record {
    turn = λ x y. ground (arith, o.turn x y, q.turn x y);
    le_trans = λ x y z h k. ground (
      arith,
      o.le_trans x y z,
      o.le_trans z x y,
      o.le_trans y z x,
      o.turn x y,
      o.turn y z,
      o.turn x z,
      q.le_trans x y z,
    );
  }

module _ {ℓ κ} {A : Type ℓ} {B : Type κ} (key : A → B) {f : B → B → Ordering} (o : IsOrder f) where
  -- The comparison of keys, and the same the other way round.
  pub by_key-IsOrder : IsOrder (λ a b. f (key a) (key b))
  by_key-IsOrder = record {
    turn = λ x y. o.turn (key x) (key y);
    le_trans = λ x y z. o.le_trans (key x) (key y) (key z);
  }

  pub by_key_desc-IsOrder : IsOrder (λ a b. f (key b) (key a))
  by_key_desc-IsOrder = record {
    turn = λ x y. o.turn (key y) (key x);
    le_trans = λ x y z h k. o.le_trans (key z) (key y) (key x) k h;
  }
