-- ===== src/Provider/Embedding/Answers.antt =====
-- How the attempts for an embedding end, and what they return.
use cortex_go.Provider.Client.Attempts.{
  attempts-IsOver, IsOver, Ends, succeeds, gives_up, interrupted,
}
use cortex_go.Provider.Embedding.Placed.{read_embeddings-ArePlaced, ArePlaced}
use cortex_go.Provider.Embedding.{
  embed_wait, read_embeddings, prepare_embedding, EmbeddingResponse, EmbeddingCodec, do_embed,
  embed,
}
use cortex_go.Provider.Client.{
  is_success, HttpRequest, Exchange, Network, OpenAiCompatible, unbuilt, undelivered, response,
}
use cortex_go.Errors.{Result-cases, ok}
use cortex_go.Prelude.{
  ℕ, suc, ◌≤◌, ◌≡◌, refl, sym, ap, subst, ◌∙◌, inl, inr, true, none, some, List, arith, length,
  pos_part, Str,
}

-- An exchange with an answer that arrived whole and with a status of success.
pub record IsAnswer (F : Type 0) (codec : EmbeddingCodec F) (n : ℕ) (vs : List (List F))
    (e : Exchange) : Type 0 where
  pub status : ℕ
  pub body : Str
  pub answer : EmbeddingResponse F
  pub arrived : e ≡ response status body none
  pub succeeded : is_success status ≡ true
  pub decoded : codec.decode body ≡ ok answer
  pub arranged : ArePlaced F n answer vs

do_embed-IsAnswer :
    (F : Type 0) (codec : EmbeddingCodec F) (n : ℕ) (vs : List (List F)) (e : Exchange)
    → (do_embed codec n e).outcome ≡ ok vs
    → IsAnswer F codec n vs e
unfolding do_embed
do_embed-IsAnswer F codec n vs (unbuilt e) h = cc
do_embed-IsAnswer F codec n vs (undelivered e) h = cc
do_embed-IsAnswer F codec n vs (response status body (some e)) h = cc
do_embed-IsAnswer F codec n vs (response status body none) h =
    elim (Result-cases (codec.decode body)) [
      | inr (e, bad) ↦ absurd (ground arith)
      | inl (r, good) ↦
          let (succeeded, read) : (is_success status ≡ true) × (read_embeddings n r ≡ ok vs) =
            ground arith in
          record {
            status = status;
            body = body;
            answer = r;
            arrived = refl;
            succeeded = succeeded;
            decoded = good;
            arranged = read_embeddings-ArePlaced F n r vs read;
          }
    ]

-- The attempts for a request that could be prepared.
pub embed-IsOver :
    (F : Type 0) (p : OpenAiCompatible) (net : Network) (codec : EmbeddingCodec F)
    (texts : List Str) (request : HttpRequest)
    → prepare_embedding p codec texts ≡ ok request
    → IsOver
        (λ n. do_embed codec (length texts) (net.exchange n request))
        (λ n. embed_wait p net (net.exchange n request) n)
        (pos_part p.max_retries)
        0
        (embed p net codec texts)
unfolding embed
embed-IsOver F p net codec texts request h =
    rw (h, embed)
      (attempts-IsOver (λ n. do_embed codec (length texts) (net.exchange n request))
        (λ n. embed_wait p net (net.exchange n request) n) (pos_part p.max_retries)
        (suc (pos_part p.max_retries)) 0 (omega arith) (omega arith))

-- The last of the attempts that were sent got the answer.
pub record IsEmbedded (F : Type 0) (p : OpenAiCompatible) (net : Network) (codec : EmbeddingCodec F)
    (texts : List Str) (vs : List (List F)) (sent : ℕ) : Type 0 where
  pub request : HttpRequest
  pub last : ℕ
  pub prepared : prepare_embedding p codec texts ≡ ok request
  pub bounded : last ≤ pos_part p.max_retries
  pub counted : sent ≡ suc last
  pub answered : IsAnswer F codec (length texts) vs (net.exchange last request)

embedded :
    (F : Type 0) (p : OpenAiCompatible) (net : Network) (codec : EmbeddingCodec F)
    (texts : List Str) (vs : List (List F)) (sent : ℕ) (request : HttpRequest) (n : ℕ)
    → prepare_embedding p codec texts ≡ ok request
    → n ≤ pos_part p.max_retries
    → sent ≡ suc n
    → Ends
        (λ n. do_embed codec (length texts) (net.exchange n request))
        (λ n. embed_wait p net (net.exchange n request) n)
        (pos_part p.max_retries)
        n
        (ok vs)
    → IsEmbedded F p net codec texts vs sent
embedded F p net codec texts vs sent request n ready most count (succeeds a good e) = record {
  request = request;
  last = n;
  prepared = ready;
  bounded = most;
  counted = count;
  answered = do_embed-IsAnswer F codec (length texts) vs (net.exchange n request) cc;
}
embedded F p net codec texts vs sent request n ready most count (gives_up e bad why r) = cc
embedded F p net codec texts vs sent request n ready most count
      (interrupted e e' below bad again cut r) =
    cc

-- What `embed` returns are the vectors of an answer that arrived whole and with a status of success,
-- to a request for these texts that was sent at most once more than there may be retries: there are
-- as many of them as there are texts, none of them is empty, and each of the answer's vectors stands
-- at the place that its index names.
pub embed-IsEmbedded :
    (F : Type 0) (p : OpenAiCompatible) (net : Network) (codec : EmbeddingCodec F)
    (texts : List Str) (vs : List (List F)) (sent : ℕ)
    → embed p net codec texts ≡ (ok vs, sent)
    → IsEmbedded F p net codec texts vs sent
unfolding embed
embed-IsEmbedded F p net codec texts vs sent h =
    elim (Result-cases (prepare_embedding p codec texts)) [
      | inr (e, bad) ↦ absurd (ground arith)
      | inl (request, ready) ↦
          let over = embed-IsOver F p net codec texts request ready in
          embedded F p net codec texts vs sent request over.last ready over.bounded
            (sym (ap (λ r. r.1) h) ∙ over.sent)
            (subst (Ends _ _ _ over.last) (ap (λ r. r.0) h) over.ends)
    ]
