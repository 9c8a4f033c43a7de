-- ===== src/Prelude/Dicts.antt =====
-- Go's `map[string]V`: an association list. `range` over a map visits the entries in the order of
-- the list, one of the orders that Go may choose.
use mathlib.Core.Path.{◌≡◌, refl}
use mathlib.Core.List.{List, [], ◌∷◌}
use mathlib.Core.Option.{Option, none, some}
use native.Mathlib.Omega.{arith}
use mathlib.Core.Logic.{inl, inr}
use cortex_go.Prelude.Tests.{if◌then◌else◌, Bool-cases}
use cortex_go.Prelude.Lists.{All}
use cortex_go.Prelude.Strings.{Str, str_eq, str_eq_iff}

abbrev pub Dict {ℓ} : Type ℓ → Type ℓ
Dict V = List (Str × V)

module _ {ℓ} {V : Type ℓ} where
  -- v, ok := m[k]
  unfoldable pub lookup : Str → Dict V → Option V
  lookup k [] = none
  lookup k ((j, v) ∷ m) = if str_eq j k then some v else lookup k m

  -- m[k] = v
  unfoldable pub put : Str → V → Dict V → Dict V
  put k v [] = (k, v) ∷ []
  put k v ((j, w) ∷ m) = if str_eq j k then (k, v) ∷ m else (j, w) ∷ put k v m

  -- delete(m, k)
  unfoldable pub remove : Str → Dict V → Dict V
  remove k [] = []
  remove k ((j, v) ∷ m) = let rest = remove k m in if str_eq j k then rest else (j, v) ∷ rest

  pub lookup-put :
      (k j : Str) (v : V) (m : Dict V)
      → lookup j (put k v m) ≡ (if str_eq k j then some v else lookup j m)
  unfolding lookup put
  lookup-put k j v [] = refl
  lookup-put k j v ((i, w) ∷ m) =
      ground (arith, str_eq_iff k j, str_eq_iff i k, str_eq_iff i j, lookup-put k j v m)

  pub lookup-remove :
      (k j : Str) (m : Dict V) → lookup j (remove k m) ≡ (if str_eq k j then none else lookup j m)
  unfolding lookup remove
  lookup-remove k j [] = ground arith
  lookup-remove k j ((i, w) ∷ m) =
      ground (arith, str_eq_iff k j, str_eq_iff i k, str_eq_iff i j, lookup-remove k j m)

module _ {ℓ κ} {V : Type ℓ} where
  pub All-put :
      (P : Str × V → Type κ) (k : Str) (v : V) (m : Dict V) → P (k, v) → All P m → All P (put k v m)
  unfolding put
  All-put P k v [] h hs = (h, tt)
  All-put P k v ((j, d) ∷ m) h hs = elim (Bool-cases (str_eq j k)) [
    | inl same ↦ rw (same, put) (h, hs.1)
    | inr other ↦ rw (other, put) (hs.0, All-put P k v m h hs.1)
  ]

pub ruleset dict_laws = (lookup-put, lookup-remove)
