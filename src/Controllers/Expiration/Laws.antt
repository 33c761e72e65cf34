-- ===== src/Controllers/Expiration/Laws.antt =====
-- Which dates are carried over, and that doing so again changes nothing.
use Prim.Native.Char.{Char}
use Prim.Native.String.{String}
use mathlib.Core.Path.{ap₂}
use text.Mathlib.TextLemmas.{nil-append, cons-append, head-eq_of_cons-eq, tail-eq_of_cons-eq}
use cloud_profile_sync.Common.{◌≡◌, refl, sym, ap, subst, ◌∙◌, List, [], ◌∷◌, map, string_eq, arith}
use cloud_profile_sync.Common.Text.{◌<>◌}
use cloud_profile_sync.Gardener.{MachineImage, MachineImageVersion}
use cloud_profile_sync.Keppel.Laws.{Lacks}
use cloud_profile_sync.Controllers.Expiration.{
  expiration_date_key, Stored, store_images, carry_version, carry_image, carry_expiration_dates,
}

Lacks-slash : (m w : String) → Lacks b'/' (m <> "/" <> w) → ⊥
Lacks-slash String.[] w h =
    (subst (Lacks b'/') (nil-append ("/" <> w) ∙ cons-append "/" String.[] w) h).0 refl
Lacks-slash (String.◌∷◌ c m) w h =
    Lacks-slash m w (subst (Lacks b'/') (cons-append c m ("/" <> w)) h).1

slash-inj : (v w : String) → "/" <> v ≡ "/" <> w → v ≡ w
slash-inj v w e =
    sym (nil-append v)
    ∙ tail-eq_of_cons-eq (sym (cons-append "/" String.[] v) ∙ e ∙ cons-append "/" String.[] w)
    ∙ nil-append w

key_head : (c : Char) (n v : String) → String.◌∷◌ c n <> "/" <> v ≡ String.◌∷◌ c (n <> "/" <> v)
key_head c n v = cons-append c n ("/" <> v)

key_slash : (v : String) → String.[] <> "/" <> v ≡ String.◌∷◌ "/" v
key_slash v =
    nil-append ("/" <> v) ∙ cons-append "/" String.[] v ∙ ap (String.◌∷◌ "/") (nil-append v)

-- Two images' versions have one key only if both name and version are the same, where versions have
-- no slash.
pub expiration_date_key_injective :
    (n m v w : String)
    → Lacks b'/' v
    → Lacks b'/' w
    → expiration_date_key n v ≡ expiration_date_key m w
    → (n ≡ m) × (v ≡ w)
unfolding expiration_date_key
expiration_date_key_injective String.[] String.[] v w p q e =
    (refl, tail-eq_of_cons-eq (sym (key_slash v) ∙ e ∙ key_slash w))
expiration_date_key_injective String.[] (String.◌∷◌ d m) v w p q e = absurd (
    Lacks-slash m w
      (subst (Lacks b'/') (tail-eq_of_cons-eq (sym (key_slash v) ∙ e ∙ key_head d m w)) p))
expiration_date_key_injective (String.◌∷◌ c n) String.[] v w p q e = absurd (
    Lacks-slash n v
      (subst (Lacks b'/') (tail-eq_of_cons-eq (sym (key_slash w) ∙ sym e ∙ key_head c n v)) q))
expiration_date_key_injective (String.◌∷◌ c n) (String.◌∷◌ d m) v w p q e =
    let whole = sym (key_head c n v) ∙ e ∙ key_head d m w in
    let (names, versions) = expiration_date_key_injective n m v w p q (tail-eq_of_cons-eq whole) in
    (ap₂ String.◌∷◌ (head-eq_of_cons-eq whole) names, versions)

module _ (stored : Stored) where
  carry_version_idem :
      (name : String) (v : MachineImageVersion)
      → carry_version stored name (carry_version stored name v) ≡ carry_version stored name v
  unfolding carry_version
  carry_version_idem name v = ground arith

  carry_versions_idem :
      (name : String) (vs : List MachineImageVersion)
      → map (carry_version stored name) (map (carry_version stored name) vs)
        ≡ map (carry_version stored name) vs
  carry_versions_idem name [] = refl
  carry_versions_idem name (v ∷ vs) =
      ap₂ ◌∷◌ (carry_version_idem name v) (carry_versions_idem name vs)

  carry_images_idem :
      (imgs : List MachineImage)
      → map (carry_image stored) (map (carry_image stored) imgs) ≡ map (carry_image stored) imgs
  unfolding carry_image
  carry_images_idem [] = refl
  carry_images_idem (img ∷ imgs) =
      ap₂ ◌∷◌ (ap (λ vs. record img { versions = vs }) (carry_versions_idem img.name img.versions))
        (carry_images_idem imgs)

-- Carrying the same dates over once more changes nothing.
pub carry_idempotent :
    (existing next : List MachineImage)
    → carry_expiration_dates existing (carry_expiration_dates existing next)
      ≡ carry_expiration_dates existing next
unfolding carry_expiration_dates
carry_idempotent existing next = carry_images_idem (store_images existing []) next
