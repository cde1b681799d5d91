-- ===== src/Prelude/Text.antt =====
-- `s.lower()` and `pattern in s` over the code points of a text. Of the characters outside ASCII
-- only two have a lower case that holds an ASCII letter: U+0130 and U+212A. The others are kept as
-- they are, which a search for ASCII patterns cannot tell from their own lower case.
use Prim.Native.Nat.{ℕ, ◌+◌}
use Prim.Native.Char.{code}
use Prim.Native.String.{String}
use mathlib.Core.Path.{◌≡◌, refl}
use mathlib.Core.Bool.{Bool, true, false, ◌&&◌, ◌||◌}
use mathlib.Core.List.{List, [], ◌∷◌, ◌++◌}
use native.Mathlib.Omega.{arith}
use application_as_service.Prelude.Tests.{leb, ◌==◌, if◌then◌else◌}

abbrev pub codes : String → List ℕ
codes String.[] = []
codes (String.◌∷◌ c s) = code c ∷ codes s

-- `s + t`
unfoldable pub append : String → String → String
append String.[] t = t
append (String.◌∷◌ c s) t = String.◌∷◌ c (append s t)

lower_code : ℕ → List ℕ
lower_code c =
    if leb b'A' c && leb c b'Z'
    then (c + 32) ∷ []
    else if c == 0x130
    then b'i' ∷ 0x307 ∷ []
    else if c == 0x212A
    then b'k' ∷ []
    else c ∷ []

lower_codes : List ℕ → List ℕ
unfolding lower_code
lower_codes [] = []
lower_codes (c ∷ cs) = lower_code c ++ lower_codes cs

unfoldable pub lower : String → List ℕ
unfolding lower_codes
lower s = lower_codes (codes s)

unfoldable pub is_prefix : List ℕ → List ℕ → Bool
is_prefix [] s = true
is_prefix (p ∷ ps) [] = false
is_prefix (p ∷ ps) (c ∷ cs) = p == c && is_prefix ps cs

-- `p in s`
unfoldable pub contains : List ℕ → List ℕ → Bool
unfolding is_prefix
contains p [] = is_prefix p []
contains p (c ∷ cs) = is_prefix p (c ∷ cs) || contains p cs

is_prefix-prefix :
    (p q s : List ℕ) → is_prefix p q ≡ true → is_prefix q s ≡ true → is_prefix p s ≡ true
unfolding is_prefix
is_prefix-prefix [] q s h k = refl
is_prefix-prefix (p ∷ ps) [] s h k = ground arith
is_prefix-prefix (p ∷ ps) (q ∷ qs) [] h k = ground arith
is_prefix-prefix (p ∷ ps) (q ∷ qs) (c ∷ cs) h k = ground (arith, is_prefix-prefix ps qs cs)

-- What occurs in a prefix of a text occurs in the text.
contains-prefix :
    (p q s : List ℕ) → contains p q ≡ true → is_prefix q s ≡ true → contains p s ≡ true
unfolding contains
contains-prefix p [] [] h k = h
contains-prefix [] [] (c ∷ cs) h k = refl
contains-prefix (p ∷ ps) [] (c ∷ cs) h k = ground arith
contains-prefix p (q ∷ qs) [] h k = ground arith
contains-prefix p (q ∷ qs) (c ∷ cs) h k =
    ground (arith, is_prefix-prefix p (q ∷ qs) (c ∷ cs), contains-prefix p qs cs)

-- What occurs in a part of a text occurs in the text.
pub contains_trans :
    (p q s : List ℕ) → contains p q ≡ true → contains q s ≡ true → contains p s ≡ true
unfolding contains
contains_trans p q [] h k = contains-prefix p q [] h k
contains_trans p q (c ∷ cs) h k =
    ground (arith, contains-prefix p q (c ∷ cs), contains_trans p q cs)
