-- ===== src/Prelude/Utf8.antt =====
-- `unicode/utf8`, `unicode.IsSpace`, `[]rune(s)` and the trimming of package `strings`: the text
-- of a Go string is decoded from the left, and an invalid byte is one U+FFFD of width 1.
use Prim.Native.Nat.{ℕ, zero, suc, ◌+◌, ◌-◌, ◌*◌, ◌%◌}
use mathlib.Core.Path.{◌≡◌, refl}
use mathlib.Core.Bool.{Bool, true, false, ◌&&◌, ◌||◌}
use mathlib.Core.List.{List, [], ◌∷◌}
use cortex_go.Prelude.Tests.{ltb, leb, ◌==◌, if◌then◌else◌}
use cortex_go.Prelude.Lists.{length}
use cortex_go.Prelude.Strings.{Str}

abbrev within : ℕ → ℕ → ℕ → Bool
within lo hi b = leb lo b && leb b hi

abbrev replacement : ℕ × ℕ
replacement = (0xfffd, 1)

-- The least and the greatest second byte after a lead byte of three or of four bytes.
second_ok : ℕ → ℕ → Bool
second_ok lead b =
    if lead == 0xe0
    then within 0xa0 0xbf b
    else if lead == 0xed
    then within 0x80 0x9f b
    else if lead == 0xf0
    then within 0x90 0xbf b
    else if lead == 0xf4
    then within 0x80 0x8f b
    else within 0x80 0xbf b

-- utf8.DecodeRune at a first byte and the bytes after it: the rune and its width.
unfoldable pub decode_rune : ℕ → Str → ℕ × ℕ
unfolding second_ok
decode_rune a [] = if ltb a 0x80 then (a, 1) else replacement
decode_rune a (b ∷ []) =
    if ltb a 0x80
    then (a, 1)
    else if within 0xc2 0xdf a && within 0x80 0xbf b
    then ((a % 32) * 64 + b % 64, 2)
    else replacement
decode_rune a (b ∷ c ∷ []) =
    if ltb a 0x80
    then (a, 1)
    else if within 0xc2 0xdf a && within 0x80 0xbf b
    then ((a % 32) * 64 + b % 64, 2)
    else if within 0xe0 0xef a && second_ok a b && within 0x80 0xbf c
    then ((a % 16) * 4096 + (b % 64) * 64 + c % 64, 3)
    else replacement
decode_rune a (b ∷ c ∷ d ∷ _) =
    if ltb a 0x80
    then (a, 1)
    else if within 0xc2 0xdf a && within 0x80 0xbf b
    then ((a % 32) * 64 + b % 64, 2)
    else if within 0xe0 0xef a && second_ok a b && within 0x80 0xbf c
    then ((a % 16) * 4096 + (b % 64) * 64 + c % 64, 3)
    else if within 0xf0 0xf4 a && second_ok a b && within 0x80 0xbf c && within 0x80 0xbf d
    then ((a % 8) * 262144 + (b % 64) * 4096 + (c % 64) * 64 + d % 64, 4)
    else replacement

-- The runes, the first `skip` bytes being the rest of a rune that is already read.
unfoldable pub runes_from : ℕ → Str → List ℕ
unfolding decode_rune
runes_from skip [] = []
runes_from (suc skip) (b ∷ s) = runes_from skip s
runes_from zero (b ∷ s) = let (r, width) = decode_rune b s in r ∷ runes_from (width - 1) s

-- []rune(s)
unfoldable pub runes : Str → List ℕ
unfolding runes_from
runes s = runes_from 0 s

-- utf8.RuneCountInString
unfoldable pub rune_count : Str → ℕ
unfolding runes
rune_count s = length (runes s)

-- unicode.IsSpace
unfoldable pub is_space : ℕ → Bool
is_space r =
    within 9 13 r
    || r == 0x20
    || r == 0x85
    || r == 0xa0
    || r == 0x1680
    || within 0x2000 0x200a r
    || r == 0x2028
    || r == 0x2029
    || r == 0x202f
    || r == 0x205f
    || r == 0x3000

unfoldable pub all_space : List ℕ → Bool
unfolding is_space
all_space [] = true
all_space (r ∷ rs) = is_space r && all_space rs

-- strings.TrimSpace(s) == ""
unfoldable pub is_blank : Str → Bool
unfolding all_space runes
is_blank s = all_space (runes s)

-- strings.TrimLeftFunc(s, unicode.IsSpace), inside the `skip` bytes of a space that is dropped
unfoldable pub trim_left : ℕ → Str → Str
unfolding decode_rune is_space
trim_left skip [] = []
trim_left (suc skip) (b ∷ s) = trim_left skip s
trim_left zero (b ∷ s) =
    let (r, width) = decode_rune b s in
    let rest = trim_left (width - 1) s in if is_space r then rest else b ∷ s

-- strings.TrimRightFunc(s, unicode.IsSpace): the text ends where only spaces follow
unfoldable pub trim_right : ℕ → Str → Str
unfolding decode_rune is_blank
trim_right skip [] = []
trim_right (suc skip) (b ∷ s) = b ∷ trim_right skip s
trim_right zero (b ∷ s) =
    let (r, width) = decode_rune b s in
    let rest = b ∷ trim_right (width - 1) s in if is_blank (b ∷ s) then [] else rest

-- strings.TrimSpace
unfoldable pub trim_space : Str → Str
unfolding trim_left trim_right
trim_space s = trim_right 0 (trim_left 0 s)

-- s == ""
abbrev pub is_empty {ℓ} : {A : Type ℓ} → List A → Bool
is_empty [] = true
is_empty (b ∷ s) = false

trim_space_runs :
    trim_space (0x20 ∷ 0xe3 ∷ 0x80 ∷ 0x80 ∷ 0x61 ∷ 0x20 ∷ 0x62 ∷ 0xc2 ∷ 0xa0 ∷ [])
    ≡ 0x61 ∷ 0x20 ∷ 0x62 ∷ []
unfolding trim_space
trim_space_runs = refl

rune_count_runs : rune_count (0xe4 ∷ 0xbd ∷ 0xa0 ∷ 0xff ∷ 0x41 ∷ []) ≡ 3
unfolding rune_count
rune_count_runs = refl
