-- ===== src/Prelude/Text.antt =====
-- Texts as Go's standard library reads them: a text is its list of code points.
use Prim.Native.Nat.{ℕ, ◌+◌}
use Prim.Native.Char.{code}
use Prim.Native.String.{String}
use mathlib.Core.Path.{◌≡◌, refl}
use mathlib.Core.Bool.{Bool, true, false, ◌&&◌, ◌||◌}
use mathlib.Core.List.{List, [], ◌∷◌}
use launlog_api.Prelude.Tests.{ltb, leb, ◌==◌, if◌then◌else◌}

-- A valid text, one number for each rune.
abbrev pub Text : Type 0
Text = List ℕ

-- A byte string.
abbrev pub Bytes : Type 0
Bytes = List ℕ

abbrev pub codes : String → List ℕ
codes String.[] = []
codes (String.◌∷◌ c s) = code c ∷ codes s

-- The bytes of a rune's UTF-8 encoding.
abbrev pub rune_len : ℕ → ℕ
rune_len r = if ltb r 0x80 then 1 else if ltb r 0x800 then 2 else if ltb r 0x10000 then 3 else 4

-- Go's `len` of a text: its length in bytes.
abbrev pub byte_len : Text → ℕ
byte_len [] = 0
byte_len (r ∷ rs) = rune_len r + byte_len rs

-- `unicode.IsSpace`.
unfoldable pub is_space : ℕ → Bool
is_space r =
    (leb 9 r && leb r 13)
    || r == 0x20
    || r == 0x85
    || r == 0xa0
    || r == 0x1680
    || (leb 0x2000 r && leb r 0x200a)
    || r == 0x2028
    || r == 0x2029
    || r == 0x202f
    || r == 0x205f
    || r == 0x3000

-- Drops the runes of a prefix that pass the test.
abbrev pub trim_left : (ℕ → Bool) → Text → Text
trim_left test [] = []
trim_left test (r ∷ rs) = let rest = trim_left test rs in if test r then rest else r ∷ rs

-- A rune before a trimmed rest: it goes when nothing is left behind it and it passes the test.
abbrev pub keep_rune : Bool → ℕ → Text → Text
keep_rune true r [] = []
keep_rune false r [] = r ∷ []
keep_rune _ r (k ∷ ks) = r ∷ k ∷ ks

-- Drops the runes of a suffix that pass the test.
abbrev pub trim_right : (ℕ → Bool) → Text → Text
trim_right test [] = []
trim_right test (r ∷ rs) = keep_rune (test r) r (trim_right test rs)

-- `strings.TrimSpace`.
unfoldable pub trim_space : Text → Text
unfolding is_space
trim_space s = trim_right is_space (trim_left is_space s)

trim_space_both : trim_space (codes "  a b\n") ≡ codes "a b"
unfolding trim_space
trim_space_both = refl

abbrev pub is_empty : Text → Bool
is_empty [] = true
is_empty (r ∷ rs) = false
