-- ===== src/Common/Table.antt =====
-- A database table: rows under their primary keys, in the order of insertion. Keys come from a
-- sequence that is not reused.
use Prim.Native.Nat.{ℕ, ◌+◌, ◌≤◌, ◌<◌}
use mathlib.Core.Path.{◌≡◌, refl}
use mathlib.Core.Logic.{◌≢◌}
use mathlib.Core.Option.{Option, none, some}
use mathlib.Core.List.{List, [], ◌∷◌}
use native.Mathlib.Omega.{arith}
use mallbyte_api.Common.Test.{◌==◌, if◌then◌else◌}

module _ {ℓ} {A : Type ℓ} where
  -- `objects.get(pk=k)`
  abbrev pub lookup : ℕ → List (ℕ × A) → Option A
  lookup k [] = none
  lookup k ((j, a) ∷ t) = if k == j then some a else lookup k t

  -- `save()` of the row with the key `k`, which is there.
  abbrev pub save : ℕ → A → List (ℕ × A) → List (ℕ × A)
  save k a [] = []
  save k a ((j, b) ∷ t) = if k == j then (j, a) ∷ t else (j, b) ∷ save k a t

  pub lookup-save_self :
      (k : ℕ) (a old : A) (t : List (ℕ × A))
      → lookup k t ≡ some old
      → lookup k (save k a t) ≡ some a
  lookup-save_self k a old [] h = cc
  lookup-save_self k a old ((j, b) ∷ t) h = ground (arith, lookup-save_self k a old t)

  pub lookup-save_ne :
      (k j : ℕ) (a : A) (t : List (ℕ × A)) → j ≢ k → lookup j (save k a t) ≡ lookup j t
  lookup-save_ne k j a [] h = refl
  lookup-save_ne k j a ((i, b) ∷ t) h = ground (arith, lookup-save_ne k j a t h)

  -- A number summed over the rows.
  abbrev pub sum_rows : (A → ℕ) → List (ℕ × A) → ℕ
  sum_rows f [] = 0
  sum_rows f ((j, a) ∷ t) = f a + sum_rows f t

  pub sum_rows-save :
      (f : A → ℕ) (k : ℕ) (a old : A) (t : List (ℕ × A))
      → lookup k t ≡ some old
      → sum_rows f (save k a t) + f old ≡ sum_rows f t + f a
  sum_rows-save f k a old [] h = cc
  sum_rows-save f k a old ((j, b) ∷ t) h = ground (arith, sum_rows-save f k a old t)

  -- A predicate of every row.
  abbrev pub AllRows {κ} : (A → Type κ) → List (ℕ × A) → Type κ
  AllRows P [] = Unit
  AllRows P ((j, a) ∷ t) = P a × AllRows P t

  pub lookup-AllRows {κ} :
      (P : A → Type κ) (k : ℕ) (a : A) (t : List (ℕ × A)) → AllRows P t → lookup k t ≡ some a → P a
  lookup-AllRows P k a [] v h = cc
  lookup-AllRows P k a ((j, b) ∷ t) v h = ground (arith, lookup-AllRows P k a t v.1)

  pub save-AllRows {κ} :
      (P : A → Type κ) (k : ℕ) (a : A) (t : List (ℕ × A))
      → AllRows P t
      → P a
      → AllRows P (save k a t)
  save-AllRows P k a [] v h = tt
  save-AllRows P k a ((j, b) ∷ t) v h = ground (arith, save-AllRows P k a t v.1 h)

  -- No key stands twice.
  abbrev pub IsKeyed : List (ℕ × A) → Type ℓ
  IsKeyed [] = Unit
  IsKeyed ((j, a) ∷ t) = (lookup j t ≡ none) × IsKeyed t

  lookup-save-none :
      (k j : ℕ) (a : A) (t : List (ℕ × A)) → lookup j t ≡ none → lookup j (save k a t) ≡ none
  lookup-save-none k j a [] h = refl
  lookup-save-none k j a ((i, b) ∷ t) h = ground (arith, lookup-save-none k j a t)

  pub save-IsKeyed : (k : ℕ) (a : A) (t : List (ℕ × A)) → IsKeyed t → IsKeyed (save k a t)
  save-IsKeyed k a [] v = tt
  save-IsKeyed k a ((j, b) ∷ t) v =
      ground (arith, save-IsKeyed k a t v.1, lookup-save-none k j a t v.0)

  -- The sequence of keys has passed every key of the table.
  abbrev pub KeysBelow : ℕ → List (ℕ × A) → Type ℓ
  KeysBelow n [] = Unit
  KeysBelow n ((j, a) ∷ t) = (j < n) × KeysBelow n t

  pub lookup-KeysBelow : (n k : ℕ) (t : List (ℕ × A)) → KeysBelow n t → n ≤ k → lookup k t ≡ none
  lookup-KeysBelow n k [] v h = refl
  lookup-KeysBelow n k ((j, a) ∷ t) v h = ground (arith, lookup-KeysBelow n k t v.1)

  pub KeysBelow-suc : (n : ℕ) (t : List (ℕ × A)) → KeysBelow n t → KeysBelow (n + 1) t
  KeysBelow-suc n [] v = tt
  KeysBelow-suc n ((j, a) ∷ t) v = (omega arith, KeysBelow-suc n t v.1)

  pub save-KeysBelow :
      (n k : ℕ) (a : A) (t : List (ℕ × A)) → KeysBelow n t → KeysBelow n (save k a t)
  save-KeysBelow n k a [] v = tt
  save-KeysBelow n k a ((j, b) ∷ t) v = ground (arith, save-KeysBelow n k a t v.1)
