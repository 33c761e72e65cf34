-- ===== src/Common/Result.antt =====
-- Go's `(T, error)` results. An error keeps the format text and the texts that it was built with,
-- and what it wraps (`%w`), so that `errors.Is` sees through it.
use mathlib.Core.Path.{◌≡◌, refl}
use mathlib.Core.Logic.{◌⊎◌, inl, inr}
use mathlib.Core.Bool.{Bool, true, false, ◌||◌}
use mathlib.Core.List.{List}
use Prim.Native.String.{String}
use native.Mathlib.Omega.{arith}

-- What the program tells errors of other code apart by.
pub data Kind : Type 0 where
  other canceled deadline_exceeded invalid not_found : Kind

pub data Error : Type 0 where
  -- an error of code outside the program, with its text
  foreign : Kind → String → Error
  -- `errors.New` and `fmt.Errorf` without `%w`
  plain : String → List String → Error
  -- `fmt.Errorf` with `%w` at its end
  wrap : String → List String → Error → Error
  -- `ErrNoShoots`
  no_shoots : Error
  -- `errors.Join`, of two errors at a time
  join : Error → Error → Error

-- `errors.Is` for an error of this kind, and `apierrors.IsInvalid`
unfoldable pub is_kind : Kind → Error → Bool
is_kind k (foreign other t) = false
is_kind canceled (foreign canceled t) = true
is_kind deadline_exceeded (foreign deadline_exceeded t) = true
is_kind invalid (foreign invalid t) = true
is_kind not_found (foreign not_found t) = true
is_kind k (foreign j t) = false
is_kind k (plain f args) = false
is_kind k (wrap f args e) = is_kind k e
is_kind k no_shoots = false
is_kind k (join d e) = is_kind k d || is_kind k e

-- `errors.Is(err, ErrNoShoots)`
unfoldable pub is_no_shoots : Error → Bool
is_no_shoots (foreign k t) = false
is_no_shoots (plain f args) = false
is_no_shoots (wrap f args e) = is_no_shoots e
is_no_shoots no_shoots = true
is_no_shoots (join d e) = is_no_shoots d || is_no_shoots e

-- A value beside a nil error, or an error.
pub data Result {ℓ} (T : Type ℓ) : Type ℓ where
  ok : (value : T) → Result T
  err : (failure : Error) → Result T

-- `if err != nil { return fmt.Errorf("…: %w", args, err) }`
abbrev pub wrapped {ℓ} : {T : Type ℓ} → String → List String → Result T → Result T
wrapped f args (ok x) = ok x
wrapped f args (err e) = err (wrap f args e)

-- `if err != nil { return err }`
infixl 5 ◌>>=◌
abbrev pub ◌>>=◌ {ι κ} :
    {S : Type ι} {T : Type κ} (before : Result S) (continue : S → Result T) → Result T
err e >>= continue = err e
ok x >>= continue = continue x

-- The same for a call that answers with an error only.
infixl 5 ◌>>◌
abbrev pub ◌>>◌ {κ} : {T : Type κ} (check : Result (Unit {0})) (next : Result T) → Result T
err e >> next = err e
ok _ >> next = next

-- Where the whole answers, so do both parts.
pub >>=-eq-ok {ι κ} :
    {S : Type ι} {T : Type κ} (before : Result S) (continue : S → Result T) {y : T}
    → (before >>= continue) ≡ ok y
    → (x : S) × (before ≡ ok x) × (continue x ≡ ok y)
>>=-eq-ok (err e) continue answer = cc
>>=-eq-ok (ok x) continue answer = (x, refl, answer)

pub >>-eq-ok {κ} :
    {T : Type κ} (check : Result (Unit {0})) (next : Result T) {y : T}
    → (check >> next) ≡ ok y
    → next ≡ ok y
>>-eq-ok (err e) next answer = cc
>>-eq-ok (ok _) next answer = answer

pub wrapped-eq-ok {ℓ} :
    {T : Type ℓ} (f : String) (args : List String) (r : Result T) {x : T}
    → wrapped f args r ≡ ok x
    → r ≡ ok x
wrapped-eq-ok f args (ok y) h = h
wrapped-eq-ok f args (err e) h = absurd (ground (arith, h))

pub ok_inj {ℓ} : {A : Type ℓ} {a b : A} → ok a ≡ ok b → a ≡ b
ok_inj e = ground (arith, e)

pub Result-cases {ℓ} :
    {A : Type ℓ} (m : Result A) → ((e : Error) × (m ≡ err e)) ⊎ ((a : A) × (m ≡ ok a))
Result-cases (ok a) = inr (a, refl)
Result-cases (err e) = inl (e, refl)
