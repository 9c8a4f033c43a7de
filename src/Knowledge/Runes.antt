-- ===== src/Knowledge/Runes.antt =====
-- string(runes) and fmt's %d, which the chunks use.
use cortex_go.Prelude.{
  ℕ, zero, suc, ◌+◌, ◌/◌, ◌%◌, ◌&&◌, ◌||◌, List, [], ◌∷◌, ◌++◌, reverse, ltb, leb, if◌then◌else◌,
  Str,
}

-- utf8.EncodeRune; a value that is no rune is U+FFFD.
unfoldable pub encode_rune : ℕ → Str
encode_rune r =
    if ltb r 0x80
    then r ∷ []
    else if ltb r 0x800
    then (0xc0 + r / 64) ∷ (0x80 + r % 64) ∷ []
    else if (leb 0xd800 r && ltb r 0xe000) || ltb 0x10ffff r
    then 0xef ∷ 0xbf ∷ 0xbd ∷ []
    else if ltb r 0x10000
    then (0xe0 + r / 4096) ∷ (0x80 + (r / 64) % 64) ∷ (0x80 + r % 64) ∷ []
    else (0xf0 + r / 262144)
      ∷ (0x80 + (r / 4096) % 64)
      ∷ (0x80 + (r / 64) % 64)
      ∷ (0x80 + r % 64)
      ∷ []

unfoldable pub encode_runes : List ℕ → Str
encode_runes [] = []
encode_runes (r ∷ rs) = encode_rune r ++ encode_runes rs

-- The decimal digits, the last one first; a number has fewer digits than it counts, and one more.
unfoldable pub digits_back : ℕ → ℕ → Str
digits_back zero n = []
digits_back (suc fuel) n =
    let rest = digits_back fuel (n / 10) in
    if ltb n 10 then (b'0' + n) ∷ [] else (b'0' + n % 10) ∷ rest

unfoldable pub decimal : ℕ → Str
decimal n = reverse (digits_back (suc n) n)
