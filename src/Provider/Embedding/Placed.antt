-- ===== src/Provider/Embedding/Placed.antt =====
-- Where the vectors of an answer come to stand.
use cortex_go.Provider.Embedding.{
  check_complete, read_embeddings, first_missing, EmbeddingResponse, is_invalid, Item,
  blank_vectors, set_at, place,
}
use cortex_go.Errors.{ok}
use cortex_go.Prelude.{
  ℕ, zero, suc, ◌+◌, ◌≤◌, ◌<◌, ◌≡◌, refl, sym, ap, subst, ◌∙◌, inl, inr, false, none, some, List,
  [], ◌∷◌, arith, ◌==◌, if◌then◌else◌, ==_iff, Bool-cases, length, get_elem?, All, pos_part,
  is_empty,
}

module _ (F : Type 0) where
  abbrev IsFilled : List F → Type 0
  IsFilled v = is_empty v ≡ false

  -- How many vectors are empty.
  blanks : List (List F) → ℕ
  blanks [] = 0
  blanks (v ∷ vs) = let rest = blanks vs in if is_empty v then suc rest else rest

  blanks-blank_vectors : (n : ℕ) → blanks (blank_vectors n) ≡ n
  unfolding blanks blank_vectors
  blanks-blank_vectors zero = refl
  blanks-blank_vectors (suc n) = omega (arith, blanks-blank_vectors n)

  length-blank_vectors : (n : ℕ) → length (blank_vectors {A = F} n) ≡ n
  unfolding blank_vectors
  length-blank_vectors zero = refl
  length-blank_vectors (suc n) = omega (arith, length-blank_vectors n)

  length-set_at : (i : ℕ) (v : List F) (vs : List (List F)) → length (set_at i v vs) ≡ length vs
  unfolding set_at
  length-set_at i v [] = refl
  length-set_at zero v (x ∷ xs) = refl
  length-set_at (suc i) v (x ∷ xs) = omega (arith, length-set_at i v xs)

  get_elem?-set_at :
      (i : ℕ) (v : List F) (vs : List (List F))
      → i < length vs
      → get_elem? (set_at i v vs) i ≡ some v
  unfolding set_at
  get_elem?-set_at i v [] h = absurd (omega arith)
  get_elem?-set_at zero v (x ∷ xs) h = refl
  get_elem?-set_at (suc i) v (x ∷ xs) h = get_elem?-set_at i v xs (omega arith)

  get_elem?-set_at_other :
      (i j : ℕ) (v : List F) (vs : List (List F))
      → (i ≡ j → ⊥)
      → get_elem? (set_at i v vs) j ≡ get_elem? vs j
  unfolding set_at
  get_elem?-set_at_other i j v [] h = refl
  get_elem?-set_at_other zero zero v (x ∷ xs) h = absurd (h refl)
  get_elem?-set_at_other zero (suc j) v (x ∷ xs) h = refl
  get_elem?-set_at_other (suc i) zero v (x ∷ xs) h = refl
  get_elem?-set_at_other (suc i) (suc j) v (x ∷ xs) h =
      get_elem?-set_at_other i j v xs (λ e. h (ap suc e))

  blanks-set_at :
      (i : ℕ) (v : List F) (vs : List (List F)) → blanks vs ≤ suc (blanks (set_at i v vs))
  unfolding blanks set_at
  blanks-set_at i v [] = omega arith
  blanks-set_at zero v (x ∷ xs) = ground arith
  blanks-set_at (suc i) v (x ∷ xs) = ground (arith, blanks-set_at i v xs)

  -- Writing where a vector stands fills no blank.
  blanks-set_at_filled :
      (i : ℕ) (v w : List F) (vs : List (List F))
      → get_elem? vs i ≡ some w
      → IsFilled w
      → blanks vs ≤ blanks (set_at i v vs)
  unfolding blanks set_at
  blanks-set_at_filled i v w [] h f = cc
  blanks-set_at_filled zero v w (x ∷ xs) h f = ground arith
  blanks-set_at_filled (suc i) v w (x ∷ xs) h f = ground (arith, blanks-set_at_filled i v w xs h f)

  -- What an item that was placed tells.
  place-cons :
      (item : Item F) (items : List (Item F)) (vs ws : List (List F))
      → place (item ∷ items) vs ≡ ok ws
      → (pos_part item.index < length vs)
        × IsFilled item.embedding
        × (place items (set_at (pos_part item.index) item.embedding vs) ≡ ok ws)
  unfolding place is_invalid
  place-cons item items vs ws h = ground arith

  length-place :
      (items : List (Item F)) (vs ws : List (List F))
      → place items vs ≡ ok ws
      → length ws ≡ length vs
  unfolding place
  length-place [] vs ws h = cc
  length-place (item ∷ items) vs ws h =
      let (_, _, later) = place-cons item items vs ws h in
      omega (
        arith,
        length-place items _ ws later,
        length-set_at (pos_part item.index) item.embedding vs,
      )

  blanks-place :
      (items : List (Item F)) (vs ws : List (List F))
      → place items vs ≡ ok ws
      → blanks vs ≤ blanks ws + length items
  unfolding place
  blanks-place [] vs ws h = (let e : vs ≡ ws = cc in omega (arith, ap blanks e))
  blanks-place (item ∷ items) vs ws h =
      let (_, _, later) = place-cons item items vs ws h in
      omega (
        arith,
        blanks-place items _ ws later,
        blanks-set_at (pos_part item.index) item.embedding vs,
      )

  -- With as many items as blanks, a vector that stands is never written over.
  place-keeps :
      (items : List (Item F)) (vs ws : List (List F)) (j : ℕ) (w : List F)
      → place items vs ≡ ok ws
      → blanks ws ≡ 0
      → length items ≤ blanks vs
      → get_elem? vs j ≡ some w
      → IsFilled w
      → get_elem? ws j ≡ some w
  unfolding place
  place-keeps [] vs ws j w h full enough at f =
      (let e : vs ≡ ws = cc in subst (λ us. get_elem? us j ≡ some w) e at)
  place-keeps (item ∷ items) vs ws j w h full enough at f =
      let (below, filled, later) = place-cons item items vs ws h in
      let i : ℕ = pos_part item.index in
      let vs' : List (List F) = set_at i item.embedding vs in
      let used : blanks vs ≤ suc (blanks vs') = blanks-set_at i item.embedding vs in
      elim (Bool-cases (i == j)) [
        | inl same ↦
            let at' : get_elem? vs i ≡ some w =
              subst (λ k. get_elem? vs k ≡ some w) (sym ((==_iff i j).0 same)) at in
            absurd (
              omega (
                arith,
                blanks-place items vs' ws later,
                blanks-set_at_filled i item.embedding w vs at' f,
              ))
        | inr other ↦
            place-keeps items vs' ws j w later full (omega arith)
              (get_elem?-set_at_other i j item.embedding vs (λ e. ground arith) ∙ at) f
      ]

  abbrev pub StandsIn : List (List F) → Item F → Type 0
  StandsIn ws item = get_elem? ws (pos_part item.index) ≡ some item.embedding

  place-StandsIn :
      (items : List (Item F)) (vs ws : List (List F))
      → place items vs ≡ ok ws
      → blanks ws ≡ 0
      → length items ≤ blanks vs
      → All (StandsIn ws) items
  unfolding place
  place-StandsIn [] vs ws h full enough = tt
  place-StandsIn (item ∷ items) vs ws h full enough =
      let (below, filled, later) = place-cons item items vs ws h in
      let i : ℕ = pos_part item.index in
      let vs' : List (List F) = set_at i item.embedding vs in
      let used : blanks vs ≤ suc (blanks vs') = blanks-set_at i item.embedding vs in
      let room : length items ≤ blanks vs' = omega arith in
      (
        place-keeps items vs' ws i item.embedding later full room
            (get_elem?-set_at i item.embedding vs below) filled,
        place-StandsIn items vs' ws later full room,
      )

  first_missing-All :
      (n : ℕ) (vs : List (List F)) → first_missing n vs ≡ none → (blanks vs ≡ 0) × All IsFilled vs
  unfolding first_missing blanks
  first_missing-All n [] h = (refl, tt)
  first_missing-All n (v ∷ vs) h = elim (Bool-cases (is_empty v)) [
    | inl e ↦ absurd (ground arith)
    | inr f ↦
        (let rest = first_missing-All (suc n) vs (ground arith) in ((ground arith), (f, rest.1)))
  ]

  -- As many vectors as texts, none empty, each item's at its own place.
  pub record ArePlaced (n : ℕ) (r : EmbeddingResponse F) (vs : List (List F)) : Type 0 where
    pub one_each : length vs ≡ n
    pub filled : All IsFilled vs
    pub placed : All (StandsIn vs) r.items

  pub read_embeddings-ArePlaced :
      (n : ℕ) (r : EmbeddingResponse F) (vs : List (List F))
      → read_embeddings n r ≡ ok vs
      → ArePlaced n r vs
  unfolding read_embeddings check_complete
  read_embeddings-ArePlaced n r vs h =
      let (placed, all, count) : (place r.items (blank_vectors n) ≡ ok vs)
          × (first_missing 0 vs ≡ none)
          × (length r.items ≡ n) =
        ground arith in
      let (full, filled) = first_missing-All 0 vs all in
      record {
        one_each = length-place r.items _ vs placed ∙ length-blank_vectors n;
        filled = filled;
        placed = place-StandsIn r.items _ vs placed full (omega (arith, blanks-blank_vectors n));
      }
