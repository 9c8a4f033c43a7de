-- ===== src/Provider/Stream/Deltas.antt =====
-- What the caller sees of a stream is the content of its result.
use cortex_go.Provider.Stream.{
  ScanErrors, StreamChoice, StreamEvent, Reading, nothing_read, note_event, note_finish,
  note_content, note_choice, read_event, parse_line, skipped, finished, payload, StreamLine,
  read_lines, read_stream, Scanner, stream_answer, chat_stream_with_options, stream_request,
  do_stream,
}
use cortex_go.Errors.{http_status, err, ok, Result-cases, Error, Result}
use cortex_go.Provider.{Message, ChatResult, ToolInfo}
use cortex_go.Provider.Client.{OpenAiCompatible, Network, prepare, is_success, attempts, wait_after}
use cortex_go.Prelude.{
  ℕ, suc, ◌≡◌, refl, sym, ap, ◌∙◌, ◌⊎◌, inl, inr, Option, some, List, [], ◌∷◌, ◌++◌, append-nil,
  append_assoc, arith, Bool-cases, Option-cases, pos_part, Str, bytes, trim_space, is_empty,
}

abbrev pub joined : List Str → Str
joined [] = []
joined (d ∷ ds) = d ++ joined ds

joined-snoc : (ds : List Str) (d : Str) → joined (ds ++ d ∷ []) ≡ joined ds ++ d
joined-snoc [] d = append-nil d
joined-snoc (x ∷ ds) d = ap (◌++◌ x) (joined-snoc ds d) ∙ sym (append_assoc x (joined ds) d)

abbrev IsTold : Reading → Type 0
IsTold s = s.result.content ≡ joined s.deltas

abbrev content_of : Result ChatResult → Str
content_of (ok r) = r.content
content_of (err e) = []

line_cases :
    (text : Str)
    → (parse_line text ≡ skipped)
      ⊎ ((parse_line text ≡ finished) ⊎ ((p : Str) × (parse_line text ≡ payload p)))
line_cases text = of_line (parse_line text)
  where
    of_line : (l : StreamLine) → (l ≡ skipped) ⊎ ((l ≡ finished) ⊎ ((p : Str) × (l ≡ payload p)))
    of_line skipped = inl refl
    of_line finished = inr (inl refl)
    of_line (payload p) = inr (inr (p, refl))

module _ (decode : Str → Result StreamEvent) (on_delta : List Str → Str → Option Error) where
  note_content-IsTold :
      (c : StreamChoice) (s : Reading) → IsTold s → IsTold (note_content decode on_delta c s).1
  unfolding note_content
  note_content-IsTold c s h = elim (Bool-cases (is_empty c.content)) [
    | inl e ↦ rw e h
    | inr n ↦ rw n (ap (λ t. t ++ c.content) h ∙ sym (joined-snoc s.deltas c.content))
  ]

  note_finish-IsTold : (c : StreamChoice) (s : Reading) → IsTold s → IsTold (note_finish c s)
  unfolding note_finish
  note_finish-IsTold c s h = ground arith

  note_choice-IsTold :
      (c : StreamChoice) (s : Reading) → IsTold s → IsTold (note_choice decode on_delta c s).1
  unfolding note_choice
  note_choice-IsTold c s h =
      let told = note_content-IsTold c (note_finish c s) (note_finish-IsTold c s h) in
      elim (Option-cases (note_content decode on_delta c (note_finish c s)).0) [
        | inr (e, failed) ↦ rw (failed, note_choice) told
        | inl fine ↦ rw (fine, note_choice) told
      ]

  read_event-IsTold :
      (e : StreamEvent) (s : Reading) → IsTold s → IsTold (read_event decode on_delta e s).1
  unfolding read_event note_event
  read_event-IsTold e s h = with_choices e.choices refl
    where
      with_choices :
          (cs : List StreamChoice) → e.choices ≡ cs → IsTold (read_event decode on_delta e s).1
      with_choices [] p = rw (p, read_event) h
      with_choices (c ∷ others) p = rw (p, read_event) (note_choice-IsTold c (note_event e s) h)

  read_lines-IsTold :
      (scan : ScanErrors) (lines : List Str) (s : Reading)
      → IsTold s
      → IsTold (read_lines decode on_delta scan lines s).1
  unfolding read_lines
  read_lines-IsTold scan [] s h = h
  read_lines-IsTold scan (line ∷ lines) s h = elim (line_cases line) [
    | inl skip ↦ rw (skip, read_lines) (read_lines-IsTold scan lines s h)
    | inr (inl done) ↦ rw (done, read_lines) h
    | inr (inr (text, found)) ↦ elim (Result-cases (decode text)) [
      | inr (e, bad) ↦ rw (found, read_lines) (rw bad h)
      | inl (event, good) ↦
          let told = read_event-IsTold event s h in
          elim (Option-cases (read_event decode on_delta event s).0) [
            | inr (e, failed) ↦ rw (found, read_lines) (rw good (rw failed told))
            | inl fine ↦
                rw (found, read_lines) (rw good (rw fine (read_lines-IsTold scan lines _ told)))
          ]
    ]
  ]

  read_stream-joined :
      (scan : ScanErrors) (lines : List Str) (r : ChatResult) (ds : List Str)
      → read_stream decode on_delta scan lines ≡ (ok r, ds)
      → r.content ≡ joined ds
  unfolding read_stream
  read_stream-joined scan lines r ds h =
      let told = read_lines-IsTold scan lines nothing_read refl in
      elim (Option-cases (read_lines decode on_delta scan lines nothing_read).0) [
        | inr (e, failed) ↦ cc (rw (failed, read_stream) at h)
        | inl fine ↦
            let h' = rw (fine, read_stream) at h in
            sym (ap (λ q. content_of q.0) h') ∙ told ∙ ap (λ q. joined q.1) h'
      ]

module _ (p : OpenAiCompatible) (net : Network) (decode : Str → Result StreamEvent) (scan : Scanner)
    (on_delta : List Str → Str → Option Error) where
  stream_answer-joined :
      (answer : ℕ × Str × Option Error) (r : ChatResult) (ds : List Str)
      → stream_answer p net decode scan on_delta answer ≡ (ok r, ds)
      → r.content ≡ joined ds
  unfolding stream_answer
  stream_answer-joined (status, body, failure) r ds h = elim (Bool-cases (is_success status)) [
    | inr bad ↦
        (let q : err (http_status (bytes "stream") status (trim_space body)) ≡ ok r =
            ap (λ x. x.0) (rw bad at h) in
          cc q)
    | inl good ↦ read_stream-joined decode on_delta _ _ r ds (rw good at h)
  ]

  -- The content of a streamed answer is the text of the deltas that the callback has seen, in their
  -- order, whatever lines, events and retries came before.
  pub chat_stream_with_options-joined :
      (ms : List Message) (tools : List ToolInfo) (r : ChatResult) (ds : List Str)
      → chat_stream_with_options p net decode scan (some on_delta) ms tools ≡ (ok r, ds)
      → r.content ≡ joined ds
  unfolding chat_stream_with_options
  chat_stream_with_options-joined ms tools r ds h =
      elim (Result-cases (prepare p net (stream_request p ms tools))) [
        | inr (e, bad) ↦ cc (rw (bad, chat_stream_with_options) at h)
        | inl (request, made) ↦
            let answer =
              (attempts (λ n. do_stream (net.exchange n request)) (wait_after p net)
                (pos_part p.max_retries) (suc (pos_part p.max_retries)) 0).0 in
            elim (Result-cases answer) [
              | inr (e, bad) ↦ cc (rw bad at (rw (made, chat_stream_with_options) at h))
              | inl (a, good) ↦
                  stream_answer-joined a r ds
                    (rw good at (rw (made, chat_stream_with_options) at h))
            ]
      ]
