-- ===== src/Api/Http/Layers.antt =====
-- internal/api/observability.go: what the layers around the routes decide: the ID of a request, and
-- whether its reply is compressed.
use cortex_go.Api.Http.{ServerRequest}
use cortex_go.Knowledge.Runes.{decimal}
use cortex_go.Prelude.{
  ℕ, ◌+◌, ◌-◌, ◌/◌, ◌%◌, Bool, true, false, not, ◌&&◌, ◌||◌, Option, none, some, List, [], ◌∷◌, map,
  ltb, leb, ◌==◌, if◌then◌else◌, length, Str, bytes, str_eq, trim_space, is_empty,
}

-- crypto/rand and the clock: 16 random bytes, where they can be read, and the nanoseconds.
pub record Source : Type 0 where
  pub random : Option (List ℕ)
  pub now : ℕ

-- %x of one byte
unfoldable pub hex_digit : ℕ → ℕ
hex_digit n = if ltb n 10 then b'0' + n else b'a' + (n - 10)

unfoldable pub hex : List ℕ → Str
hex [] = []
hex (b ∷ bs) = hex_digit (b / 16 % 16) ∷ hex_digit (b % 16) ∷ hex bs

-- newID
unfoldable pub new_id : Source → Str
new_id s = elim s.random [ some bs ↦ hex bs | none ↦ decimal s.now ]

-- strings.ContainsAny(id, "\r\n \t")
abbrev pub is_gap : ℕ → Bool
is_gap c = c == 13 || c == 10 || c == 32 || c == 9

unfoldable pub has_gap : Str → Bool
has_gap [] = false
has_gap (c ∷ s) = let rest = has_gap s in is_gap c || rest

-- requestMiddleware: the ID of the header, or a new one
unfoldable pub request_id_of : Source → Str → Str
request_id_of source id =
    if is_empty id || ltb 128 (length id) || has_gap id then new_id source else id

-- strings.EqualFold(s, "gzip"): no other letter folds to one of these.
abbrev pub lower_ascii : ℕ → ℕ
lower_ascii c = if leb b'A' c && leb c b'Z' then c + 32 else c

unfoldable pub equal_fold : Str → Str → Bool
equal_fold s t = str_eq (map lower_ascii s) t

-- strings.Split(v, sep) of one byte: the first part, and the others
unfoldable pub split_first : ℕ → Str → Str × List Str
split_first sep [] = ([], [])
split_first sep (c ∷ s) =
    let rest = split_first sep s in if c == sep then ([], rest.0 ∷ rest.1) else (c ∷ rest.0, rest.1)

unfoldable pub is_q_zero : Str → Bool
is_q_zero x = str_eq (trim_space x) (bytes "q=0") || str_eq (trim_space x) (bytes "q=0.0")

-- for _, x := range p[1:] { ... }
unfoldable pub none_q_zero : List Str → Bool
none_q_zero [] = true
none_q_zero (x ∷ xs) = let rest = none_q_zero xs in if is_q_zero x then false else rest

-- The parts of Accept-Encoding; the first that names gzip decides.
unfoldable pub accepts_part : List Str → Bool
accepts_part [] = false
accepts_part (part ∷ parts) =
    let rest = accepts_part parts in
    let p = split_first b';' (trim_space part) in
    if equal_fold (trim_space p.0) (bytes "gzip") then none_q_zero p.1 else rest

-- acceptsGzip
unfoldable pub accepts_gzip : Str → Bool
accepts_gzip v = let p = split_first b',' v in accepts_part (p.0 ∷ p.1)

-- gzipMiddleware: whether the reply is compressed
unfoldable pub is_compressed : ServerRequest → Bool
is_compressed r = accepts_gzip r.accept_encoding && not (str_eq r.gate.path (bytes "/metrics"))
