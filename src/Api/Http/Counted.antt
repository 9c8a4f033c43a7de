-- ===== src/Api/Http/Counted.antt =====
-- What the layers around the routes leave: the counters, and an ID that is no second header.
use cortex_go.Knowledge.Runes.{decimal, digits_back}
use cortex_go.Api.Http.{Metrics, leave, enter, Reply, ServerRequest}
use mathlib.Core.List.{reverse-cons}
use cortex_go.Api.Http.Serve.{
  is_chat_path, serve_counted, Response, serve, World, route_chat, route, decide, serve_gated,
  serve_cors, Surroundings,
}
use cortex_go.Api.Gate.{gate, Decision, health, refuse, too_many, forward}
use cortex_go.Api.Http.Layers.{Source, new_id, hex_digit, has_gap, hex, request_id_of}
use cortex_go.Prelude.{
  ℕ, zero, suc, ◌+◌, ◌-◌, ◌/◌, ◌%◌, ◌^◌, ◌<◌, ◌≡◌, refl, ap, ◌∙◌, inl, inr, true, false, Option,
  none, some, List, [], ◌∷◌, ◌++◌, reverse, arith, if◌then◌else◌, Bool-cases, Option-cases,
  if_keeps, Str, bytes, str_eq,
}

digits_back-has_gap : (fuel n : ℕ) → has_gap (digits_back fuel n) ≡ false
unfolding digits_back has_gap
digits_back-has_gap zero n = refl
digits_back-has_gap (suc fuel) n = ground (arith, digits_back-has_gap fuel (n / 10))

has_gap-append : (s t : Str) → has_gap s ≡ false → has_gap t ≡ false → has_gap (s ++ t) ≡ false
unfolding has_gap
has_gap-append [] t h k = k
has_gap-append (c ∷ s) t h k = ground (arith, has_gap-append s t)

hex-has_gap : (bs : List ℕ) → has_gap (hex bs) ≡ false
unfolding hex hex_digit has_gap
hex-has_gap [] = refl
hex-has_gap (b ∷ bs) = ground (arith, hex-has_gap bs)

has_gap-reverse : (s : Str) → has_gap s ≡ false → has_gap (reverse s) ≡ false
unfolding has_gap
has_gap-reverse [] h = refl
has_gap-reverse (c ∷ s) h =
    rw (reverse-cons c s)
      (has_gap-append (reverse s) (c ∷ []) (has_gap-reverse s (ground arith)) (ground arith))

new_id-has_gap : (source : Source) → has_gap (new_id source) ≡ false
unfolding new_id decimal
new_id-has_gap source = elim (Option-cases source.random) [
  | inr (bs, e) ↦ rw (e, new_id) (hex-has_gap bs)
  | inl e ↦ rw (e, new_id) (has_gap-reverse _ (digits_back-has_gap (suc source.now) source.now))
]

-- The ID that goes into the reply's headers has no line break and no space, whatever the request says.
pub request_id_of-has_gap : (source : Source) (id : Str) → has_gap (request_id_of source id) ≡ false
unfolding request_id_of
request_id_of-has_gap source id = elim (Bool-cases (has_gap id)) [
  | inl e ↦ ground (arith, new_id-has_gap source)
  | inr e ↦ ground (arith, new_id-has_gap source)
]

cancel : (n : ℕ) → n < 2 ^ 64 → ((n + 1) % 2 ^ 64 + (2 ^ 64 - 1)) % 2 ^ 64 ≡ n
cancel n h = omega arith

abbrev counted : Metrics → Metrics
counted m = record m { requests = (m.requests + 1) % 2 ^ 64 }

leave-enter : (m : Metrics) → m.in_flight < 2 ^ 64 → leave (enter m) ≡ counted m
unfolding enter leave
leave-enter m small i = record m {
  requests = (m.requests + 1) % 2 ^ 64;
  in_flight = cancel m.in_flight small i;
}

module _ {M : Type 0} (x : Surroundings) where
  route-metrics :
      (t : Option Str) (r : ServerRequest) (w : World M) → (route x t r w).1.metrics ≡ w.metrics
  unfolding route route_chat
  route-metrics t r w =
      let P : Reply × World M → Type 0 = λ q. q.1.metrics ≡ w.metrics in
      let path = r.gate.path in
      if_keeps P (is_chat_path path) _ _ refl (
        if_keeps P (str_eq path (bytes "/healthz")) _ _ refl (
          if_keeps P (str_eq path (bytes "/metrics")) _ _
            (if_keeps P w.server.metrics _ _ refl refl)
            (if_keeps P (str_eq path (bytes "/openapi.json")) _ _ refl refl)))

  decide-metrics :
      (d : Decision) (r : ServerRequest) (w : World M) → (decide x d r w).1.metrics ≡ w.metrics
  unfolding decide
  decide-metrics health r w = route-metrics none r w
  decide-metrics (refuse d) r w = refl
  decide-metrics (too_many n) r w = refl
  decide-metrics (forward t) r w = route-metrics (some t.id) r w

  serve_cors-metrics : (r : ServerRequest) (w : World M) → (serve_cors x r w).1.metrics ≡ w.metrics
  unfolding serve_cors serve_gated decide route route_chat
  serve_cors-metrics r w =
      if_keeps (λ (q : Response × World M). q.1.metrics ≡ w.metrics)
        (str_eq r.method (bytes "OPTIONS")) _ _ refl
        (decide-metrics (gate w.server.guard r.gate x.now).0 r _)

  -- Serving a request counts it once, counts no error, and leaves as many requests in flight as before.
  pub serve-metrics :
      (r : ServerRequest) (w : World M)
      → w.server.metrics ≡ true
      → w.metrics.in_flight < 2 ^ 64
      → (serve x r w).1.metrics ≡ record w.metrics { requests = (w.metrics.requests + 1) % 2 ^ 64 }
  unfolding serve serve_counted
  serve-metrics r w h small =
      ap (λ c. (if c then serve_counted x r w else serve_cors x r w).1.metrics) h
      ∙ ap leave (serve_cors-metrics r (record w { metrics = enter w.metrics }))
      ∙ leave-enter w.metrics small
