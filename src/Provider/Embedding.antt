-- ===== src/Provider/Embedding.antt =====
-- internal/provider/embedding.go: `Embed`, with its retries, and the placing of the answer's vectors.
pub mod Placed
pub mod Answers
use cortex_go.Errors.{
  decode_response, http_status, input_required, wrong_count, base_url_required, missing_embedding,
  invalid_embedding, provider_message, Error, Result, ok, err,
}
use cortex_go.Provider.Client.{
  is_success, retryable_status, retries, wait_after, stops, unbuilt, undelivered, response,
  attempts, HttpRequest, Network, Attempt, OpenAiCompatible, Exchange,
}
use cortex_go.Prelude.{
  ℕ, zero, suc, Bool, false, not, ◌||◌, Option, none, some, List, [], ◌∷◌, ◌++◌, leb, ◌==◌,
  if◌then◌else◌, length, ℤ, pos_part, is_nonneg, Str, bytes, trim_space, is_empty, trim_slashes,
}

-- embeddingRequest
pub record EmbeddingRequest : Type 0 where
  pub model : Str
  pub input : List Str

-- The number of a vector's place, and the vector; a number of a vector is left to encoding/json.
pub record Item (F : Type 0) : Type 0 where
  pub index : ℤ
  pub embedding : List F

-- embeddingResponse
pub record EmbeddingResponse (F : Type 0) : Type 0 where
  pub items : List (Item F)
  pub failure : Option Str

-- encoding/json on both; net/http and the timer are those of `Network`.
pub record EmbeddingCodec (F : Type 0) : Type 0 where
  pub encode : EmbeddingRequest → Result Str
  pub decode : Str → Result (EmbeddingResponse F)

-- model := p.EmbeddingModel; if model == "" { model = p.Model }
unfoldable pub model_for_embedding : OpenAiCompatible → Str
model_for_embedding p = if is_empty p.embedding_model then p.model else p.embedding_model

unfoldable pub embedding_request : OpenAiCompatible → Str → HttpRequest
embedding_request p body = record {
  url = trim_slashes p.base_url ++ bytes "/v1/embeddings";
  authorization = if is_empty p.api_key then none else some (bytes "Bearer " ++ p.api_key);
  event_stream = false;
  body = body;
}

-- vectors[i] = v
unfoldable pub set_at {ℓ} : {A : Type ℓ} → ℕ → A → List A → List A
set_at i v [] = []
set_at zero v (x ∷ xs) = v ∷ xs
set_at (suc i) v (x ∷ xs) = x ∷ set_at i v xs

-- make([][]float64, n)
unfoldable pub blank_vectors {ℓ} : {A : Type ℓ} → ℕ → List (List A)
blank_vectors zero = []
blank_vectors (suc n) = [] ∷ blank_vectors n

-- The wait behind an attempt; there is none behind a body that could not be read.
unfoldable pub embed_wait : OpenAiCompatible → Network → Exchange → ℕ → Option Error
embed_wait p net (unbuilt e) n = wait_after p net n
embed_wait p net (undelivered e) n = wait_after p net n
embed_wait p net (response status body (some e)) n = none
embed_wait p net (response status body none) n = wait_after p net n

module _ {F : Type 0} where
  -- item.Index < 0 || item.Index >= len(vectors) || len(item.Embedding) == 0
  unfoldable pub is_invalid : Item F → ℕ → Bool
  is_invalid item n =
      not (is_nonneg item.index) || leb n (pos_part item.index) || is_empty item.embedding

  -- for _, item := range result.Data { ... }
  unfoldable pub place : List (Item F) → List (List F) → Result (List (List F))
  place [] vs = ok vs
  place (item ∷ items) vs =
      let rest = place items (set_at (pos_part item.index) item.embedding vs) in
      if is_invalid item (length vs) then err invalid_embedding else rest

  -- for index, vector := range vectors { ... }: the first that is missing
  unfoldable pub first_missing : ℕ → List (List F) → Option Error
  first_missing n [] = none
  first_missing n (v ∷ vs) =
      let rest = first_missing (suc n) vs in if is_empty v then some (missing_embedding n) else rest

  unfoldable pub check_complete : List (List F) → Result (List (List F))
  check_complete vs = elim (first_missing 0 vs) [ some e ↦ err e | none ↦ ok vs ]

  -- The part of `Embed` behind json.Unmarshal, for so many texts.
  unfoldable pub read_embeddings : ℕ → EmbeddingResponse F → Result (List (List F))
  read_embeddings n r = elim r.failure [
    | some text ↦ err (provider_message text)
    | none ↦
        if not (length r.items == n)
        then err (wrong_count n (length r.items))
        else elim (place r.items (blank_vectors n)) [ err e ↦ err e | ok vs ↦ check_complete vs ]
  ]

  -- One round of the loop.
  unfoldable pub do_embed : EmbeddingCodec F → ℕ → Exchange → Attempt (List (List F))
  do_embed codec n (unbuilt e) = stops (err e)
  do_embed codec n (undelivered e) = retries e
  do_embed codec n (response status body (some e)) = retries e
  do_embed codec n (response status body none) =
      if retryable_status status
      then retries (http_status (bytes "embed") status (trim_space body))
      else if not (is_success status)
      then stops (err (http_status (bytes "embed") status (trim_space body)))
      else elim (codec.decode body) [
        | err e ↦ stops (err (decode_response e))
        | ok r ↦ stops (read_embeddings n r)
      ]

  unfoldable pub prepare_embedding :
      OpenAiCompatible → EmbeddingCodec F → List Str → Result HttpRequest
  prepare_embedding p codec texts =
      if is_empty p.base_url || is_empty (model_for_embedding p)
      then err base_url_required
      else if is_empty texts
      then err input_required
      else elim (codec.encode (record { model = model_for_embedding p; input = texts })) [
        | err e ↦ err e
        | ok body ↦ ok (embedding_request p body)
      ]

  -- Embed: the vectors, and how many attempts were made
  unfoldable pub embed :
      OpenAiCompatible → Network → EmbeddingCodec F → List Str → Result (List (List F)) × ℕ
  embed p net codec texts = elim (prepare_embedding p codec texts) [
    | err e ↦ (err e, 0)
    | ok request ↦
        attempts (λ n. do_embed codec (length texts) (net.exchange n request))
          (λ n. embed_wait p net (net.exchange n request) n) (pos_part p.max_retries)
          (suc (pos_part p.max_retries)) 0
  ]
