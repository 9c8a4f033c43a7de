-- ===== src/Prelude/Sorting.antt =====
-- Go's `sort.Slice` by a comparison, the order of `string`s, and what the first of a sorted list are.
use Prim.Native.Nat.{ℕ, zero, suc}
use mathlib.Core.Path.{◌≡◌, refl}
use mathlib.Core.Logic.{◌⊎◌, inl, inr}
use mathlib.Core.Bool.{Bool, true, false}
use mathlib.Core.List.{List, [], ◌∷◌}
use native.Mathlib.Omega.{arith}
use cortex_go.Prelude.Tests.{ltb, if◌then◌else◌, Bool-cases}
use cortex_go.Prelude.Lists.{All, All-keeps, take}
use cortex_go.Prelude.Strings.{Str}

-- s < t
unfoldable pub str_lt : Str → Str → Bool
str_lt s [] = false
str_lt [] (d ∷ t) = true
str_lt (c ∷ s) (d ∷ t) =
    let rest = str_lt s t in if ltb c d then true else if ltb d c then false else rest

pub str_lt-asym : (s t : Str) → str_lt s t ≡ true → str_lt t s ≡ false
unfolding str_lt
str_lt-asym s [] h = cc
str_lt-asym [] (d ∷ t) h = refl
str_lt-asym (c ∷ s) (d ∷ t) h = ground (arith, str_lt-asym s t)

-- `not (t < s)` is transitive.
pub str_lt-false_trans :
    (s t u : Str) → str_lt t s ≡ false → str_lt u t ≡ false → str_lt u s ≡ false
unfolding str_lt
str_lt-false_trans [] [] u h h' = h'
str_lt-false_trans [] (d ∷ t) [] h h' = refl
str_lt-false_trans [] (d ∷ t) (e ∷ u) h h' = refl
str_lt-false_trans (c ∷ s) [] u h h' = cc
str_lt-false_trans (c ∷ s) (d ∷ t) [] h h' = cc
str_lt-false_trans (c ∷ s) (d ∷ t) (e ∷ u) h h' = ground (arith, str_lt-false_trans s t u)

-- x is an element of the list.
pub data Among {ℓ} {A : Type ℓ} (x : A) : List A → Type ℓ where
  here : {xs : List A} → Among x (x ∷ xs)
  there : {y : A} {xs : List A} → Among x xs → Among x (y ∷ xs)

module _ {ℓ} {A : Type ℓ} (before : A → A → Bool) where
  unfoldable pub insert_by : A → List A → List A
  insert_by x [] = x ∷ []
  insert_by x (y ∷ ys) = let rest = insert_by x ys in if before y x then y ∷ rest else x ∷ y ∷ ys

  unfoldable pub sort_by : List A → List A
  sort_by [] = []
  sort_by (x ∷ xs) = insert_by x (sort_by xs)

  -- Nothing in the list is before x.
  abbrev pub Least : A → List A → Type 0
  Least x xs = All (λ y. before y x ≡ false) xs

  abbrev pub IsSorted : List A → Type 0
  IsSorted [] = Unit
  IsSorted (x ∷ xs) = Least x xs × IsSorted xs

pub Among-All {ℓ κ} :
    {A : Type ℓ} (P : A → Type κ) (x : A) (xs : List A) → All P xs → Among x xs → P x
Among-All P x _ h here = h.0
Among-All P x _ h (there {xs = xs} m) = Among-All P x xs h.1 m

-- A comparison whose negation is transitive, and that holds of two in one direction at most.
pub record IsOrder {ℓ} {A : Type ℓ} (before : A → A → Bool) : Type ℓ where
  pub asym : (x y : A) → before x y ≡ true → before y x ≡ false
  pub trans : (x y z : A) → before y x ≡ false → before z y ≡ false → before z x ≡ false

module _ {ℓ} {A : Type ℓ} (before : A → A → Bool) where
  pub All-insert_by {κ} :
      (P : A → Type κ) (x : A) (ys : List A) → P x → All P ys → All P (insert_by before x ys)
  unfolding insert_by
  All-insert_by P x [] h hs = (h, tt)
  All-insert_by P x (y ∷ ys) h hs = elim (Bool-cases (before y x)) [
    | inl e ↦ rw e (hs.0, All-insert_by P x ys h hs.1)
    | inr n ↦ rw n (h, hs)
  ]

  pub All-sort_by {κ} : (P : A → Type κ) (xs : List A) → All P xs → All P (sort_by before xs)
  unfolding sort_by
  All-sort_by P [] h = tt
  All-sort_by P (x ∷ xs) h = All-insert_by P x (sort_by before xs) h.0 (All-sort_by P xs h.1)

  pub All-take {κ} : (P : A → Type κ) (n : ℕ) (xs : List A) → All P xs → All P (take n xs)
  All-take P zero xs h = tt
  All-take P (suc n) [] h = tt
  All-take P (suc n) (x ∷ xs) h = (h.0, All-take P n xs h.1)

  Among-inserted : (x : A) (ys : List A) → Among x (insert_by before x ys)
  unfolding insert_by
  Among-inserted x [] = here
  Among-inserted x (y ∷ ys) = elim (Bool-cases (before y x)) [
    | inl e ↦ rw e (there (Among-inserted x ys))
    | inr n ↦ rw n here
  ]

  Among-insert_by : (x z : A) (ys : List A) → Among z ys → Among z (insert_by before x ys)
  unfolding insert_by
  Among-insert_by x z _ (here {xs = ys}) = elim (Bool-cases (before z x)) [
    | inl e ↦ rw e here
    | inr n ↦ rw n (there here)
  ]
  Among-insert_by x z _ (there {y = y} {xs = ys} m) = elim (Bool-cases (before y x)) [
    | inl e ↦ rw e (there (Among-insert_by x z ys m))
    | inr n ↦ rw n (there (there m))
  ]

  pub Among-sort_by : (z : A) (xs : List A) → Among z xs → Among z (sort_by before xs)
  unfolding sort_by
  Among-sort_by z _ (here {xs = xs}) = Among-inserted z (sort_by before xs)
  Among-sort_by z _ (there {y = y} {xs = xs} m) =
      Among-insert_by y z (sort_by before xs) (Among-sort_by z xs m)

  IsSorted-take : (n : ℕ) (xs : List A) → IsSorted before xs → IsSorted before (take n xs)
  IsSorted-take zero xs h = tt
  IsSorted-take (suc n) [] h = tt
  IsSorted-take (suc n) (x ∷ xs) h =
      (All-take (λ y. before y x ≡ false) n xs h.0, IsSorted-take n xs h.1)

  -- What is not among the first of a sorted list is before none of them.
  first-Least :
      (n : ℕ) (x : A) (xs : List A)
      → IsSorted before xs
      → Among x xs
      → Among x (take n xs) ⊎ All (λ y. before x y ≡ false) (take n xs)
  first-Least zero x xs h m = inr tt
  first-Least (suc n) x _ h here = inl here
  first-Least (suc n) x _ h (there {y = y} {xs = xs} m) = elim (first-Least n x xs h.1 m) [
    | inl found ↦ inl (there found)
    | inr past ↦ inr (Among-All (λ z. before z y ≡ false) x xs h.0 m, past)
  ]

  module _ (order : IsOrder before) where
    insert_by-IsSorted :
        (x : A) (ys : List A) → IsSorted before ys → IsSorted before (insert_by before x ys)
    unfolding insert_by
    insert_by-IsSorted x [] h = (tt, tt)
    insert_by-IsSorted x (y ∷ ys) h = elim (Bool-cases (before y x)) [
      | inl e ↦ rw e (
        All-insert_by (λ z. before z y ≡ false) x ys (order.asym y x e) h.0,
        insert_by-IsSorted x ys h.1,
      )
      | inr n ↦ rw n (
        (
          n,
          All-keeps (λ z. before z y ≡ false) (λ z. before z x ≡ false) ys
              (λ z. order.trans x y z n) h.0,
        ),
        h,
      )
    ]

    pub sort_by-IsSorted : (xs : List A) → IsSorted before (sort_by before xs)
    unfolding sort_by
    sort_by-IsSorted [] = tt
    sort_by-IsSorted (x ∷ xs) = insert_by-IsSorted x (sort_by before xs) (sort_by-IsSorted xs)

    -- The first `n` are in order, and what is left out is before none of them.
    pub first-best :
        (n : ℕ) (xs : List A)
        → IsSorted before (take n (sort_by before xs))
          × ((x : A)
              → Among x xs
              → Among x (take n (sort_by before xs))
                ⊎ All (λ y. before x y ≡ false) (take n (sort_by before xs)))
    first-best n xs = (
      IsSorted-take n (sort_by before xs) (sort_by-IsSorted xs),
      λ x m. first-Least n x (sort_by before xs) (sort_by-IsSorted xs) (Among-sort_by x xs m),
    )
