-- ===== src/Base/Text.antt =====
-- Go strings as lists of bytes, and the functions of Go's `strings` that the program calls.
use Prim.Native.Char.{code}
use Prim.Native.Nat.{ℕ, ◌+◌}
use Prim.Native.String.{String}
use mathlib.Core.Bool.{Bool, true, false, ◌&&◌, ◌||◌}
use mathlib.Core.List.{List, [], ◌∷◌, ◌++◌, map, reverse}
use mathlib.Core.Logic.{◌↔◌, ◌≢◌}
use mathlib.Core.Option.{Option, none, some}
use mathlib.Core.Path.{◌≡◌, refl, ap}
use native.Mathlib.Omega.{arith}
use package.meshbridge.Base.Keys.{Eq}
use package.meshbridge.Base.Lists.{All}
use package.meshbridge.Base.Tests.{◌==◌, leb, if◌then◌else◌}

abbrev pub Text : Type 0
Text = List ℕ

-- The bytes of a literal, which is ASCII.
abbrev pub codes : String → Text
codes String.[] = []
codes (String.◌∷◌ c s) = code c ∷ codes s

-- Go's `==` on strings.
unfoldable pub text_eq : Text → Text → Bool
text_eq [] [] = true
text_eq [] (b ∷ t) = false
text_eq (a ∷ s) [] = false
text_eq (a ∷ s) (b ∷ t) = a == b && text_eq s t

text_eq→eq : (s t : Text) → text_eq s t ≡ true → s ≡ t
unfolding text_eq
text_eq→eq [] [] h = refl
text_eq→eq [] (b ∷ t) h = cc
text_eq→eq (a ∷ s) [] h = cc
text_eq→eq (a ∷ s) (b ∷ t) h = ground (arith, text_eq→eq s t)

eq→text_eq : (s t : Text) → s ≡ t → text_eq s t ≡ true
unfolding text_eq
eq→text_eq [] [] h = refl
eq→text_eq [] (b ∷ t) h = cc
eq→text_eq (a ∷ s) [] h = cc
eq→text_eq (a ∷ s) (b ∷ t) h = ground (arith, eq→text_eq s t)

pub text_eq_iff : (s t : Text) → (text_eq s t ≡ true) ↔ (s ≡ t)
text_eq_iff s t = (text_eq→eq s t, eq→text_eq s t)

instance abbrev pub eq_text : Eq Text
eq_text = record { beq = text_eq; beq_iff = text_eq_iff }

-- strings.TrimPrefix and strings.HasPrefix: `none` where the prefix does not stand.
unfoldable pub strip : Text → Text → Option Text
strip [] s = some s
strip (p ∷ ps) [] = none
strip (p ∷ ps) (c ∷ s) = let rest = strip ps s in if p == c then rest else none

unfoldable pub is_found : Option Text → Bool
is_found none = false
is_found (some rest) = true

unfoldable pub has_prefix : Text → Text → Bool
unfolding strip is_found
has_prefix s p = is_found (strip p s)

unfoldable pub trim_prefix : Text → Text → Text
unfolding strip
trim_prefix s p = elim (strip p s) [ none ↦ s | some rest ↦ rest ]

unfoldable pub has_suffix : Text → Text → Bool
unfolding has_prefix
has_suffix s p = has_prefix (reverse s) (reverse p)

unfoldable pub contains : Text → Text → Bool
unfolding has_prefix
contains [] p = has_prefix [] p
contains (c ∷ s) p = has_prefix (c ∷ s) p || contains s p

-- strings.Cut at one byte: what stands before it, what stands behind it, and whether it was found.
unfoldable pub cut : Text → ℕ → Text × Text × Bool
cut [] sep = ([], [], false)
cut (c ∷ s) sep =
    let (before, behind, found) = cut s sep in
    if c == sep then ([], s, true) else (c ∷ before, behind, found)

-- strings.Split at one byte: always one part or more.
unfoldable pub split : Text → ℕ → List Text
split [] sep = [] ∷ []
split (c ∷ s) sep =
    if c == sep
    then [] ∷ split s sep
    else elim (split s sep) [ [] ↦ (c ∷ []) ∷ [] | part ∷ parts ↦ (c ∷ part) ∷ parts ]

-- strings.ToLower on ASCII.
unfoldable pub lower : ℕ → ℕ
lower c = if leb b'A' c && leb c b'Z' then c + 32 else c

unfoldable pub to_lower : Text → Text
unfolding lower
to_lower = map lower

-- The bytes that strings.TrimSpace cuts from ASCII text.
unfoldable pub is_space : ℕ → Bool
is_space c = (leb 9 c && leb c 13) || c == 32

unfoldable pub trim_left : (ℕ → Bool) → Text → Text
trim_left p [] = []
trim_left p (c ∷ s) = let rest = trim_left p s in if p c then rest else c ∷ s

unfoldable pub trim : (ℕ → Bool) → Text → Text
unfolding trim_left
trim p s = reverse (trim_left p (reverse (trim_left p s)))

unfoldable pub trim_space : Text → Text
unfolding trim is_space
trim_space = trim is_space

pub cut-append :
    (s t : Text) (sep : ℕ) → All (λ c. c ≢ sep) s → cut (s ++ sep ∷ t) sep ≡ (s, t, true)
unfolding cut
cut-append [] t sep _ = ground arith
cut-append (c ∷ s) t sep (off, rest) = ground (arith, cut-append s t sep rest)

-- A separator that was found stands between the two parts.
pub cut_found :
    (s : Text) (sep : ℕ) → (cut s sep).2 ≡ true → s ≡ (cut s sep).0 ++ sep ∷ (cut s sep).1
unfolding cut
cut_found [] sep h = absurd (cc)
cut_found (c ∷ s) sep h = ground (arith, cut_found s sep)

pub strip-append : (p s : Text) → strip p (p ++ s) ≡ some s
unfolding strip
strip-append [] s = refl
strip-append (c ∷ p) s = ground (arith, strip-append p s)

pub strip_found : (p s rest : Text) → strip p s ≡ some rest → s ≡ p ++ rest
unfolding strip
strip_found [] s rest h = ground arith
strip_found (c ∷ p) [] rest h = absurd (cc)
strip_found (c ∷ p) (d ∷ s) rest h = ground (arith, strip_found p s rest)

pub has_prefix-append : (p s : Text) → has_prefix (p ++ s) p ≡ true
unfolding has_prefix is_found
has_prefix-append p s = ap is_found (strip-append p s)
