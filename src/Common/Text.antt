-- ===== src/Common/Text.antt =====
-- What the program uses of Go's package strings. Texts are walked by code point.
use Prim.Native.Nat.{ℕ}
use Prim.Native.Char.{Char, code}
use Prim.Native.String
use Prim.Native.String.{String}
use mathlib.Core.Bool.{Bool, true, ◌||◌}
use mathlib.Core.Option.{Option, none, some}
use mathlib.Core.List.{List, [], ◌∷◌}
use cloud_profile_sync.Common.Equality.{◌==◌, nat_eq, string_eq, if◌then◌else◌}

infixr 66 ◌<>◌
abbrev pub ◌<>◌ : String → String → String
s <> t = String.◌++◌ s t

-- `strings.ReplaceAll(s, old, new)` for two single characters
unfoldable pub replace_all : String → ℕ → Char → String
replace_all String.[] old new = String.[]
replace_all (String.◌∷◌ c s) old new =
    String.◌∷◌ (if code c == old then new else c) (replace_all s old new)

-- `strings.SplitN(s, sep, 2)` for a single character that occurs; none where it does not
unfoldable pub cut : String → ℕ → Option (String × String)
cut String.[] sep = none
cut (String.◌∷◌ c s) sep =
    let rest = cut s sep in
    if code c == sep
    then some (String.[], s)
    else elim rest [ none ↦ none | some (a, b) ↦ some (String.◌∷◌ c a, b) ]

-- `strings.LastIndex` with the slice before it: the text before the last `sep`
unfoldable pub before_last : String → ℕ → Option String
before_last String.[] sep = none
before_last (String.◌∷◌ c s) sep = elim (before_last s sep) [
  | some a ↦ some (String.◌∷◌ c a)
  | none ↦ if code c == sep then some String.[] else none
]

-- `strings.Split(s, sep)` for a single character
unfoldable pub split : String → ℕ → List String
split String.[] sep = String.[] ∷ []
split (String.◌∷◌ c s) sep =
    let rest = split s sep in
    if code c == sep
    then String.[] ∷ rest
    else elim rest [ [] ↦ String.◌∷◌ c String.[] ∷ [] | p ∷ ps ↦ String.◌∷◌ c p ∷ ps ]

-- `strings.CutPrefix`
unfoldable pub cut_prefix : String → String → Option String
cut_prefix s String.[] = some s
cut_prefix String.[] (String.◌∷◌ p ps) = none
cut_prefix (String.◌∷◌ c s) (String.◌∷◌ p ps) =
    let rest = cut_prefix s ps in if code c == code p then rest else none

-- `strings.TrimPrefix`
unfoldable pub trim_prefix : String → String → String
unfolding cut_prefix
trim_prefix s p = elim (cut_prefix s p) [ none ↦ s | some rest ↦ rest ]

-- `strings.Contains`
unfoldable pub has_text : String → String → Bool
unfolding cut_prefix
has_text String.[] t = t == String.[]
has_text (String.◌∷◌ c s) t =
    let rest = has_text s t in elim (cut_prefix (String.◌∷◌ c s) t) [ some _ ↦ true | none ↦ rest ]

lower_in : String → String → Char → Char
lower_in (String.◌∷◌ u us) (String.◌∷◌ l ls) c = if code c == code u then l else lower_in us ls c
lower_in String.[] ls c = c
lower_in (String.◌∷◌ u us) String.[] c = c

-- `strings.ToLower`, on ASCII texts
unfoldable pub to_lower : String → String
unfolding lower_in
to_lower String.[] = String.[]
to_lower (String.◌∷◌ c s) =
    String.◌∷◌ (lower_in "ABCDEFGHIJKLMNOPQRSTUVWXYZ" "abcdefghijklmnopqrstuvwxyz" c) (to_lower s)

-- `strings.HasSuffix`
unfoldable pub has_suffix : String → String → Bool
has_suffix String.[] t = t == String.[]
has_suffix (String.◌∷◌ c s) t = (String.◌∷◌ c s == t) || has_suffix s t

-- The ASCII white space that `strings.TrimSpace` removes.
unfoldable pub is_space : ℕ → Bool
is_space c = c == 32 || c == 9 || c == 10 || c == 11 || c == 12 || c == 13

trim_left : String → String
trim_left String.[] = String.[]
trim_left (String.◌∷◌ c s) =
    let rest = trim_left s in if is_space (code c) then rest else String.◌∷◌ c s

trim_right : String → String
trim_right String.[] = String.[]
trim_right (String.◌∷◌ c s) = elim (trim_right s) [
  | String.[] ↦ if is_space (code c) then String.[] else String.◌∷◌ c String.[]
  | String.◌∷◌ d r ↦ String.◌∷◌ c (String.◌∷◌ d r)
]

-- `strings.TrimSpace`, on ASCII texts
unfoldable pub trim_space : String → String
unfolding trim_left trim_right is_space
trim_space s = trim_right (trim_left s)

-- A Go string where it is cut by bytes.
abbrev pub Bytes : Type 0
Bytes = List ℕ

-- The bytes of an ASCII text.
abbrev pub ascii : String → Bytes
ascii String.[] = []
ascii (String.◌∷◌ c s) = code c ∷ ascii s
