-- ===== src/Glance/Names.antt =====
-- The names of images and the versions in them.
use Prim.Native.Char.{Char, code}
use mathlib.Core.Path.{ap₂}
use text.Mathlib.TextEquality.{Char-path}
use text.Mathlib.TextLemmas.{nil-append, cons-append}
use cloud_profile_sync.Common.{
  ◌≡◌, ◌≢◌, refl, sym, ap, ◌∙◌, String, Option, none, some, Bool, true, false, ◌↔◌, inl, inr,
  Option-cases, Bool-cases, string_eq, nat_eq, arith,
}
use cloud_profile_sync.Common.Text.{cut_prefix, before_last, ◌<>◌}
use cloud_profile_sync.Common.Result.{ok, Result-cases}
use cloud_profile_sync.Keppel.Laws.{Lacks}
use cloud_profile_sync.Semver.{Semver, IsSemver}
use cloud_profile_sync.Glance.{Glance, is_excluded, parse_version, parse_rest}

cut_prefix-append : (p s : String) → cut_prefix (p <> s) p ≡ some s
unfolding cut_prefix
cut_prefix-append String.[] s = rw (nil-append s) refl
cut_prefix-append (String.◌∷◌ c p) s =
    rw (cons-append c p s) (ground (arith, cut_prefix-append p s))

before_last-Lacks : (s : String) → Lacks b'-' s → before_last s b'-' ≡ none
unfolding before_last
before_last-Lacks String.[] h = refl
before_last-Lacks (String.◌∷◌ c s) (n, h) = ground (arith, before_last-Lacks s h)

before_last-append : (s h : String) → Lacks b'-' h → before_last (s <> "-" <> h) b'-' ≡ some s
unfolding before_last
before_last-append String.[] h l =
    rw (nil-append ("-" <> h))
      (rw (cons-append "-" String.[] h) (rw (nil-append h) ground (arith, before_last-Lacks h l)))
before_last-append (String.◌∷◌ c s) h l =
    rw (cons-append c s ("-" <> h)) (ground (arith, before_last-append s h l))

cut_prefix_sound : (s p rest : String) → cut_prefix s p ≡ some rest → s ≡ p <> rest
unfolding cut_prefix
cut_prefix_sound s String.[] rest h = ground (arith, h, nil-append rest)
cut_prefix_sound String.[] (String.◌∷◌ p ps) rest h = absurd (ground arith)
cut_prefix_sound (String.◌∷◌ c s) (String.◌∷◌ p ps) rest h = elim (nat_eq.dec (code c) (code p)) [
  | yes e ↦
      ap₂ String.◌∷◌ (Char-path c p e) (cut_prefix_sound s ps rest (ground arith))
      ∙ sym (cons-append p ps rest)
  | no n ↦ absurd (ground arith)
]

before_last-none : (s : String) → before_last s b'-' ≡ none → Lacks b'-' s
unfolding before_last
before_last-none String.[] h = tt
before_last-none (String.◌∷◌ c s) h = elim (Option-cases (before_last s b'-')) [
  | inl e ↦ (ground arith, before_last-none s e)
  | inr (a, e) ↦ absurd (ground arith)
]

dash_cons : (c : Char) (s : String) → code c ≡ b'-' → String.◌∷◌ c s ≡ String.[] <> "-" <> s
dash_cons c s e =
    ap₂ String.◌∷◌ (Char-path c "-" e) (sym (nil-append s))
    ∙ sym (cons-append "-" String.[] s)
    ∙ sym (nil-append ("-" <> s))

before_last_sound :
    (s raw : String)
    → before_last s b'-' ≡ some raw
    → (build : String) × Lacks b'-' build × (s ≡ raw <> "-" <> build)
unfolding before_last
before_last_sound String.[] raw h = absurd (ground arith)
before_last_sound (String.◌∷◌ c s) raw h = elim (Option-cases (before_last s b'-')) [
  | inr (a, e) ↦
      let (build, clean, same) = before_last_sound s a e in
      let p : raw ≡ String.◌∷◌ c a = ground arith in
      (build, clean, rw p (ap (String.◌∷◌ c) same ∙ sym (cons-append c a ("-" <> build))))
  | inl e ↦ elim (nat_eq.dec (code c) b'-') [
    | yes q ↦
        let p : raw ≡ String.[] = ground arith in (s, before_last-none s e, rw p (dash_cons c s q))
    | no n ↦ absurd (ground arith)
  ]
]

empty : String → Bool
empty String.[] = true
empty (String.◌∷◌ c s) = false

cons-ne-nil : (c : Char) (s : String) → String.◌∷◌ c s ≢ ""
unfolding empty
cons-ne-nil c s q = let e = ap empty q in absurd (ground (arith, e))

module _ (S : Semver) (g : Glance) where
  -- A name of an image that has a version: the prefix, a text that reads as the version, a dash and
  -- a build without a dash.
  abbrev pub Names : String → String → Type 0
  Names name k =
      (raw : String) × (build : String) × (v : S.Version) × (name
        ≡ g.name_prefix <> raw <> "-" <> build)
      × Lacks b'-' build
      × (raw ≢ "")
      × (S.parse_tolerant raw ≡ ok v)
      × (k ≡ S.string v)

  parse_rest_sound :
      (o : Option String) (k : String)
      → parse_rest S o ≡ some k
      → (raw : String) × (v : S.Version) × (o ≡ some raw)
        × (raw ≢ "")
        × (S.parse_tolerant raw ≡ ok v)
        × (k ≡ S.string v)
  parse_rest_sound none k h = absurd (ground arith)
  parse_rest_sound (some String.[]) k h = absurd (ground arith)
  parse_rest_sound (some (String.◌∷◌ c raw)) k h =
      elim (Result-cases (S.parse_tolerant (String.◌∷◌ c raw))) [
        | inl (e, p) ↦ absurd (ground arith)
        | inr (v, p) ↦ (String.◌∷◌ c raw, v, refl, cons-ne-nil c raw, p, ground (arith, h, p))
      ]

  parse_rest_complete :
      (raw : String) (v : S.Version)
      → raw ≢ ""
      → S.parse_tolerant raw ≡ ok v
      → parse_rest S (some raw) ≡ some (S.string v)
  parse_rest_complete String.[] v n h = absurd (n refl)
  parse_rest_complete (String.◌∷◌ c raw) v n h = ground arith

  -- A name has a version exactly if no excluded text is in it and it is the prefix, a text that
  -- reads as a version, a dash and a build without a dash; its version is what semver prints of it.
  pub parse_version_iff :
      (name k : String)
      → (parse_version S g name ≡ some k)
        ↔ ((is_excluded g.params.excluded_suffixes name ≡ false) × Names name k)
  unfolding parse_version
  parse_version_iff name k = (
    λ h. elim (Bool-cases (is_excluded g.params.excluded_suffixes name)) [
      | inl bad ↦ absurd (ground arith)
      | inr clean ↦ elim (Option-cases (cut_prefix name g.name_prefix)) [
        | inl e ↦ absurd (ground arith)
        | inr (rest, e) ↦
            let read : parse_rest S (before_last rest b'-') ≡ some k = ground arith in
            let (raw, v, f, n, p, q) = parse_rest_sound (before_last rest b'-') k read in
            let (build, lacks, same) = before_last_sound rest raw f in
            (
              clean,
              (
                raw,
                build,
                v,
                cut_prefix_sound name g.name_prefix rest e ∙ ap (λ t. g.name_prefix <> t) same,
                lacks,
                n,
                p,
                q,
              ),
            )
      ]
    ],
    λ (clean, (raw, build, v, same, lacks, n, p, q)).
        let rest : cut_prefix name g.name_prefix ≡ some (raw <> "-" <> build) =
          ap (λ t. cut_prefix t g.name_prefix) same
          ∙ cut_prefix-append g.name_prefix (raw <> "-" <> build) in
        rw clean (
          rw rest (
            rw (before_last-append raw build lacks)
              (parse_rest_complete raw v n p ∙ ap some (sym q)))),
  )

  -- The name that is made of the prefix, a version as semver prints it, a dash and a build without
  -- a dash is read back as that version, unless an excluded text is in it.
  pub parse_version-name :
      IsSemver S
      → (v : S.Version) (build : String) → Lacks b'-' build
      → is_excluded g.params.excluded_suffixes (g.name_prefix <> S.string v <> "-" <> build) ≡ false
      → parse_version S g (g.name_prefix <> S.string v <> "-" <> build) ≡ some (S.string v)
  parse_version-name laws v build lacks clean = (parse_version_iff _ (S.string v)).1 (
    clean,
    (S.string v, build, v, refl, lacks, laws.string-ne-nil v, laws.parse_tolerant-string v, refl),
  )
