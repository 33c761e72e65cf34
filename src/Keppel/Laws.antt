-- ===== src/Keppel/Laws.antt =====
-- Normalised tags, and splitting a repository's name.
use Prim.Native.Char.{Char, code}
use Prim.Native.String.{String}
use mathlib.Core.Path.{ap₂}
use text.Mathlib.TextEquality.{Char-path}
use text.Mathlib.TextLemmas.{nil-append, cons-append}
use cloud_profile_sync.Common.{
  ℕ, ◌≡◌, ◌≢◌, refl, sym, ap, ◌∙◌, ◌↔◌, inl, inr, some, Option-cases, nat_eq, string_eq, arith,
}
use cloud_profile_sync.Common.Text.{replace_all, cut, ◌<>◌}
use cloud_profile_sync.Common.Result.{ok}
use cloud_profile_sync.Keppel.{normalize_tag, split_keppel_repository}

-- No character of the text has this code.
abbrev pub Lacks : ℕ → String → Type 0
Lacks n String.[] = Unit
Lacks n (String.◌∷◌ c s) = (code c ≢ n) × Lacks n s

replace_all-Lacks :
    (s : String) (old : ℕ) (new : Char) → code new ≢ old → Lacks old (replace_all s old new)
unfolding replace_all
replace_all-Lacks String.[] old new h = tt
replace_all-Lacks (String.◌∷◌ c s) old new h = ground (arith, replace_all-Lacks s old new h)

replace_all_of_Lacks : (s : String) (old : ℕ) (new : Char) → Lacks old s → replace_all s old new ≡ s
unfolding replace_all
replace_all_of_Lacks String.[] old new h = refl
replace_all_of_Lacks (String.◌∷◌ c s) old new (h, hs) =
    ground (arith, replace_all_of_Lacks s old new hs)

-- A normalised tag has no underscore, and normalising it again changes nothing.
pub normalize_tag_idempotent :
    (tag : String)
    → Lacks b'_' (normalize_tag tag) × (normalize_tag (normalize_tag tag) ≡ normalize_tag tag)
unfolding normalize_tag
normalize_tag_idempotent tag =
    let clean = replace_all-Lacks tag b'_' "+" (omega arith) in
    (clean, replace_all_of_Lacks _ b'_' "+" clean)

abbrev slash : Char
slash = "/"

slash-cons : (c : Char) (s : String) → code c ≡ b'/' → String.◌∷◌ c s ≡ "/" <> s
slash-cons c s e =
    ap₂ String.◌∷◌ (Char-path c slash e) (sym (nil-append s)) ∙ sym (cons-append slash String.[] s)

cut_sound :
    (s : String) (a b : String) → cut s b'/' ≡ some (a, b) → Lacks b'/' a × (s ≡ a <> "/" <> b)
unfolding cut
cut_sound String.[] a b h = absurd (ground arith)
cut_sound (String.◌∷◌ c s) a b h = elim (nat_eq.dec (code c) b'/') [
  | yes e ↦
      let p : a ≡ String.[] = ground arith in
      let q : b ≡ s = ground arith in rw (p, q) (tt, slash-cons c s e ∙ sym (nil-append ("/" <> s)))
  | no n ↦ elim (Option-cases (cut s b'/')) [
    | inl e ↦ absurd (ground arith)
    | inr ((a', b'), e) ↦
        let (clean, same) = cut_sound s a' b' e in
        let p : a ≡ String.◌∷◌ c a' = ground arith in
        let q : b ≡ b' = ground arith in
        rw (p, q) ((n, clean), ap (String.◌∷◌ c) same ∙ sym (cons-append c a' ("/" <> b')))
  ]
]

cut_complete : (a b : String) → Lacks b'/' a → cut (a <> "/" <> b) b'/' ≡ some (a, b)
unfolding cut
cut_complete String.[] b h = rw (nil-append ("/" <> b), ← slash-cons slash b refl) (ground arith)
cut_complete (String.◌∷◌ c a) b (n, h) =
    rw (cons-append c a ("/" <> b)) (ground (arith, cut_complete a b h))

-- A repository's name is split into two texts exactly if both are not empty, the first has no
-- slash and the name is the two with a slash between them.
pub split_keppel_repository_iff :
    (repository account repo : String)
    → (split_keppel_repository repository ≡ ok (account, repo))
      ↔ ((repository ≡ account <> "/" <> repo) × Lacks b'/' account × (account ≢ "") × (repo ≢ ""))
unfolding split_keppel_repository
split_keppel_repository_iff repository account repo = (
  λ h. elim (Option-cases (cut repository b'/')) [
    | inl e ↦ absurd (ground arith)
    | inr ((a, b), e) ↦
        let (clean, same) = cut_sound repository a b e in
        let p : account ≡ a = ground arith in
        let q : repo ≡ b = ground arith in (rw (p, q) same, rw p clean, ground arith, ground arith)
  ],
  λ (same, clean, p, q). rw same (ground (arith, cut_complete account repo clean)),
)
