-- ===== src/Prelude/Text.antt =====
-- What the program uses of Go's `strings`, `len` and regular expressions, over code points.
use Prim.Native.Nat.{ℕ, ◌+◌, ◌-◌}
use Prim.Native.Char.{code}
use Prim.Native.String.{String, len}
use mathlib.Core.Bool.{Bool, true, false, ◌&&◌, ◌||◌, not}
use mathlib.Core.List.{List, [], ◌∷◌, reverse, map}
use engineering_platform.Prelude.Tests.{if◌then◌else◌, leb, ◌==◌, nat_eq, string_eq}
use engineering_platform.Prelude.Lists.{contains, is_empty}

abbrev pub codes : String → List ℕ
codes String.[] = []
codes (String.◌∷◌ c s) = code c ∷ codes s

abbrev pub all_codes : (ℕ → Bool) → List ℕ → Bool
all_codes p [] = true
all_codes p (c ∷ cs) = p c && all_codes p cs

-- unicode.IsSpace
is_space : ℕ → Bool
is_space c =
    (leb 9 c && leb c 13)
    || c == 32
    || c == 0x85
    || c == 0xa0
    || c == 0x1680
    || (leb 0x2000 c && leb c 0x200a)
    || c == 0x2028
    || c == 0x2029
    || c == 0x202f
    || c == 0x205f
    || c == 0x3000

starts_bare : List ℕ → Bool
starts_bare [] = true
starts_bare (c ∷ cs) = not (is_space c)

-- strings.TrimSpace(v) == v: there is no space at either end.
unfoldable pub is_trimmed : String → Bool
unfolding is_space starts_bare
is_trimmed v = starts_bare (codes v) && starts_bare (reverse (codes v))

abbrev contains_any_codes : List ℕ → List ℕ → Bool
contains_any_codes [] set = false
contains_any_codes (c ∷ cs) set = contains set c || contains_any_codes cs set

-- strings.ContainsAny(v, chars)
unfoldable pub contains_any : String → List ℕ → Bool
unfolding contains
contains_any v chars = contains_any_codes (codes v) chars

-- len(v) <= n, in bytes.
abbrev pub fits : String → ℕ → Bool
fits v n = leb (len v) n

-- value != "" && len(value) <= max && strings.TrimSpace(value) == value
unfoldable pub bounded : String → ℕ → Bool
unfolding is_trimmed
bounded v max = not (v == "") && fits v max && is_trimmed v

-- unicode.ToUpper and unicode.ToLower as far as an ASCII letter comes out: of all others, only the
-- dotless i and the long s have an ASCII capital, and only the dotted I and the Kelvin sign have an
-- ASCII small letter. What the other letters become is not ASCII, and they stay as they are here.
upper_code : ℕ → ℕ
upper_code c =
    if leb 97 c && leb c 122
    then c - 32
    else if c == 0x131
    then 73
    else if c == 0x17f
    then 83
    else c

lower_code : ℕ → ℕ
lower_code c =
    if leb 65 c && leb c 90
    then c + 32
    else if c == 0x130
    then 105
    else if c == 0x212a
    then 107
    else c

same_codes : List ℕ → List ℕ → Bool
same_codes [] [] = true
same_codes (a ∷ xs) (b ∷ ys) = a == b && same_codes xs ys
same_codes _ _ = false

begins_with : List ℕ → List ℕ → Bool
begins_with [] cs = true
begins_with (p ∷ ps) [] = false
begins_with (p ∷ ps) (c ∷ cs) = p == c && begins_with ps cs

occurs_in : List ℕ → List ℕ → Bool
occurs_in ps [] = is_empty ps
occurs_in ps (c ∷ cs) = begins_with ps (c ∷ cs) || occurs_in ps cs

-- strings.HasPrefix(v, prefix)
unfoldable pub has_prefix : String → String → Bool
unfolding begins_with
has_prefix v prefix = begins_with (codes prefix) (codes v)

-- strings.ToUpper(v) == word, for a word in ASCII.
unfoldable pub upper_is : String → String → Bool
unfolding upper_code same_codes
upper_is v word = same_codes (map upper_code (codes v)) (codes word)

-- strings.Contains(strings.ToLower(v), word), for a word in ASCII.
unfoldable pub lower_contains : String → String → Bool
unfolding lower_code occurs_in begins_with
lower_contains v word = occurs_in (codes word) (map lower_code (codes v))

-- strings.TrimSpace(v) == ""
unfoldable pub is_blank : String → Bool
unfolding is_space
is_blank v = all_codes is_space (codes v)
