-- ===== src/Knowledge/Tokens.antt =====
-- internal/knowledge/knowledge.go: `tokenize` and `scoreChunk`. The Unicode tables of Go and its
-- float64 are parameters.
use cortex_go.Knowledge.Runes.{encode_rune, encode_runes}
use cortex_go.Prelude.{
  ℕ, suc, Bool, List, [], ◌∷◌, ◌++◌, map, ltb, if◌then◌else◌, Str, str_eq, runes, is_empty,
}

-- strings.ToLower, unicode.Is(unicode.Han, r), and unicode.IsLetter(r) || unicode.IsDigit(r)
pub record Unicode : Type 0 where
  pub to_lower : Str → Str
  pub is_han : ℕ → Bool
  pub is_word : ℕ → Bool

-- float64: the operations and the constants that the scores use.
pub record Float : Type 1 where
  pub Carrier : Type 0
  pub of_int : ℕ → Carrier
  pub add : Carrier → Carrier → Carrier
  pub mul : Carrier → Carrier → Carrier
  pub div : Carrier → Carrier → Carrier
  pub sqrt : Carrier → Carrier
  pub greater : Carrier → Carrier → Bool
  pub equal : Carrier → Carrier → Bool
  pub two_point_two : Carrier
  pub one_point_two : Carrier

pub record Tokens : Type 0 where
  pub tokens : List Str
  pub word : List ℕ
  pub han : List ℕ

unfoldable pub flush : Tokens → Tokens
flush s =
    if is_empty s.word
    then s
    else record s { tokens = s.tokens ++ encode_runes s.word ∷ []; word = [] }

-- for i := 0; i+1 < len(han); i++ { ... han[i:i+2] ... }
unfoldable pub bigrams : List ℕ → List Str
bigrams [] = []
bigrams (r ∷ []) = []
bigrams (r ∷ q ∷ rs) = encode_runes (r ∷ q ∷ []) ∷ bigrams (q ∷ rs)

-- A run of Han runes: the run, its runes and its pairs.
unfoldable pub han_tokens : List ℕ → List Str
han_tokens rs = encode_runes rs ∷ map encode_rune rs ++ bigrams rs

unfoldable pub flush_han : Tokens → Tokens
flush_han s =
    if is_empty s.han then s else record s { tokens = s.tokens ++ han_tokens s.han; han = [] }

unfoldable pub read_rune : Unicode → Tokens → ℕ → Tokens
read_rune u s r =
    if u.is_han r
    then (let t = flush s in record t { han = t.han ++ r ∷ [] })
    else if u.is_word r
    then (let t = flush_han s in record t { word = t.word ++ r ∷ [] })
    else flush (flush_han s)

unfoldable pub read_runes : Unicode → Tokens → List ℕ → Tokens
read_runes u s [] = s
read_runes u s (r ∷ rs) = read_runes u (read_rune u s r) rs

unfoldable pub tokenize : Unicode → Str → List Str
tokenize u text =
    let s = read_runes u (record { tokens = []; word = []; han = [] }) (runes (u.to_lower text)) in
    (flush (flush_han s)).tokens

-- counts[term]
unfoldable pub count : Str → List Str → ℕ
count term [] = 0
count term (t ∷ ts) = let rest = count term ts in if str_eq t term then suc rest else rest

unfoldable pub term_score : (fl : Float) → ℕ → fl.Carrier
term_score fl n =
    fl.div (fl.mul (fl.of_int n) fl.two_point_two) (fl.add (fl.of_int n) fl.one_point_two)

-- The loop over the terms.
unfoldable pub add_scores : (fl : Float) → fl.Carrier → List Str → List Str → fl.Carrier
add_scores fl score tokens [] = score
add_scores fl score tokens (term ∷ terms) =
    let n = count term tokens in
    add_scores fl (if ltb 0 n then fl.add score (term_score fl n) else score) tokens terms

unfoldable pub score_chunk : (fl : Float) → Unicode → List Str → Str → fl.Carrier
score_chunk fl u terms text = add_scores fl (fl.of_int 0) (tokenize u text) terms
