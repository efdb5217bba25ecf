-- ===== src/Base/Texts.antt =====
-- Go strings as lists of bytes, with the functions of the package strings that the source calls.
use Prim.Native.Char.{code}
use Prim.Native.String.{String}
use Prim.Native.Nat.{ℕ, ◌+◌, ◌-◌}
use mathlib.Core.Bool.{Bool, false, ◌&&◌, ◌||◌}
use mathlib.Core.List.{List, [], ◌∷◌, map, reverse}
use mathlib.Core.Option.{Option, none, some}
use yabber.Base.Tests.{eqb, leb, if◌then◌else◌, is_some}

abbrev pub Bytes : Type 0
Bytes = List ℕ

-- A literal of the source.
abbrev pub str : String → Bytes
str String.[] = []
str (String.◌∷◌ c s) = code c ∷ str s

-- strings.CutPrefix: the rest behind a prefix.
unfoldable pub cut_prefix : Bytes → Bytes → Option Bytes
cut_prefix s [] = some s
cut_prefix [] (p ∷ ps) = none
cut_prefix (c ∷ s) (p ∷ ps) = if eqb c p then cut_prefix s ps else none

-- strings.HasPrefix
unfoldable pub has_prefix : Bytes → Bytes → Bool
unfolding cut_prefix
has_prefix s p = is_some (cut_prefix s p)

abbrev pub or_else {ℓ} : {A : Type ℓ} → Option A → A → A
or_else none d = d
or_else (some a) d = a

-- strings.TrimPrefix
unfoldable pub trim_prefix : Bytes → Bytes → Bytes
unfolding cut_prefix
trim_prefix s p = or_else (cut_prefix s p) s

-- strings.HasSuffix and strings.TrimSuffix
unfoldable pub has_suffix : Bytes → Bytes → Bool
unfolding has_prefix
has_suffix s p = has_prefix (reverse s) (reverse p)

unfoldable pub trim_suffix : Bytes → Bytes → Bytes
unfolding trim_prefix
trim_suffix s p = reverse (trim_prefix (reverse s) (reverse p))

-- strings.ContainsRune for one byte.
unfoldable pub contains_byte : ℕ → Bytes → Bool
contains_byte b [] = false
contains_byte b (c ∷ s) = eqb c b || contains_byte b s

-- strings.ContainsAny
unfoldable pub contains_any : Bytes → Bytes → Bool
unfolding contains_byte
contains_any [] chars = false
contains_any (c ∷ s) chars = contains_byte c chars || contains_any s chars

-- strings.ToLower on ASCII.
unfoldable pub lower_byte : ℕ → ℕ
lower_byte c = if leb b'A' c && leb c b'Z' then c + 32 else c

unfoldable pub to_lower : Bytes → Bytes
unfolding lower_byte
to_lower = map lower_byte

unfoldable pub upper_byte : ℕ → ℕ
upper_byte c = if leb b'a' c && leb c b'z' then c - 32 else c

unfoldable pub to_upper : Bytes → Bytes
unfolding upper_byte
to_upper = map upper_byte

-- The white space of strings.TrimSpace, on ASCII.
unfoldable pub is_space : ℕ → Bool
is_space c = eqb c 32 || (leb 9 c && leb c 13)

unfoldable pub trim_left : (ℕ → Bool) → Bytes → Bytes
trim_left p [] = []
trim_left p (c ∷ s) = if p c then trim_left p s else c ∷ s

-- strings.Trim by a set of bytes.
unfoldable pub trim : (ℕ → Bool) → Bytes → Bytes
unfolding trim_left
trim p s = reverse (trim_left p (reverse (trim_left p s)))

-- strings.TrimSpace
unfoldable pub trim_space : Bytes → Bytes
unfolding trim is_space
trim_space = trim is_space

-- strings.Cut at one byte: what stands before and behind its first occurrence.
unfoldable pub cut : Bytes → ℕ → Option (Bytes × Bytes)
cut [] b = none
cut (c ∷ s) b =
    if eqb c b then some ([], s) else elim (cut s b) [ none ↦ none | some (l, r) ↦ some (c ∷ l, r) ]

abbrev pub grow : ℕ → List Bytes → List Bytes
grow c [] = (c ∷ []) ∷ []
grow c (w ∷ ws) = (c ∷ w) ∷ ws

-- strings.Split at one byte: never empty.
unfoldable pub split : Bytes → ℕ → List Bytes
split [] b = [] ∷ []
split (c ∷ s) b = if eqb c b then [] ∷ split s b else grow c (split s b)
