-- ===== src/Prelude/Strip.antt =====
-- `s.strip()`, and a text without a suffix that it ends with.
use Prim.Native.Nat.{ℕ}
use Prim.Native.Char.{code}
use Prim.Native.String.{String, [] as empty, ◌∷◌ as ◌::◌}
use mathlib.Core.Bool.{Bool, ◌&&◌, ◌||◌}
use mathlib.Core.Option.{Option, none, some}
use application_as_service.Prelude.Tests.{leb, ◌==◌, str_eq, if◌then◌else◌}

-- The code points that `str.isspace` holds for.
abbrev pub is_space : ℕ → Bool
is_space c =
    (leb 9 c && leb c 13)
    || (leb 28 c && leb c 32)
    || c == 0x85
    || c == 0xA0
    || c == 0x1680
    || (leb 0x2000 c && leb c 0x200A)
    || c == 0x2028
    || c == 0x2029
    || c == 0x202F
    || c == 0x205F
    || c == 0x3000

unfoldable pub strip_left : String → String
strip_left empty = empty
strip_left (c :: s) = let rest = strip_left s in if is_space (code c) then rest else c :: s

unfoldable pub strip_right : String → String
strip_right empty = empty
strip_right (c :: s) =
    let rest = strip_right s in if is_space (code c) && str_eq rest "" then empty else c :: rest

unfoldable pub strip : String → String
unfolding strip_left strip_right
strip s = strip_left (strip_right s)

-- `s[:-len(suffix)]` if `s.endswith(suffix)`
unfoldable pub without_suffix : String → String → Option String
without_suffix suffix empty = if str_eq suffix "" then some empty else none
without_suffix suffix (c :: s) =
    let rest = without_suffix suffix s in
    if str_eq (c :: s) suffix
    then some empty
    else elim rest [ none ↦ none | some t ↦ some (c :: t) ]
