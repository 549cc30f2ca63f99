-- ===== src/Settlements/Share/Order.antt =====
-- Sorting keeps the fractions and puts the largest first.
use mallbyte_api.Common.{ℕ, ◌+◌, ◌≤◌, ◌≡◌, refl, List, [], ◌∷◌, arith, Bool-cases, inl, inr}
use mallbyte_api.Settlements.Share.{Fraction, is_before, insert_sorted, sorted}

-- Any number summed over the fractions.
abbrev pub sum_by : (Fraction → ℕ) → List Fraction → ℕ
sum_by f [] = 0
sum_by f (a ∷ bs) = f a + sum_by f bs

insert_sorted-sum_by :
    (f : Fraction → ℕ) (a : Fraction) (bs : List Fraction)
    → sum_by f (insert_sorted a bs) ≡ f a + sum_by f bs
unfolding insert_sorted
insert_sorted-sum_by f a [] = refl
insert_sorted-sum_by f a (b ∷ bs) = ground (arith, insert_sorted-sum_by f a bs)

pub sorted-sum_by : (f : Fraction → ℕ) (bs : List Fraction) → sum_by f (sorted bs) ≡ sum_by f bs
unfolding sorted
sorted-sum_by f [] = refl
sorted-sum_by f (a ∷ bs) = omega (arith, insert_sorted-sum_by f a (sorted bs), sorted-sum_by f bs)

-- All parts are at most `top`.
abbrev pub IsBelow : ℕ → List Fraction → Type 0
IsBelow top [] = Unit
IsBelow top (b ∷ bs) = (b.part ≤ top) × IsBelow top bs

abbrev pub IsFalling : List Fraction → Type 0
IsFalling [] = Unit
IsFalling (a ∷ bs) = IsBelow a.part bs × IsFalling bs

IsBelow-le : (m n : ℕ) (bs : List Fraction) → m ≤ n → IsBelow m bs → IsBelow n bs
IsBelow-le m n [] le v = tt
IsBelow-le m n (b ∷ bs) le v = (omega (arith, v.0), IsBelow-le m n bs le v.1)

insert_sorted-IsBelow :
    (top : ℕ) (a : Fraction) (bs : List Fraction)
    → a.part ≤ top
    → IsBelow top bs
    → IsBelow top (insert_sorted a bs)
unfolding insert_sorted
insert_sorted-IsBelow top a [] le v = (le, tt)
insert_sorted-IsBelow top a (b ∷ bs) le v = elim (Bool-cases (is_before b a)) [
  | inl later ↦ rw later (v.0, insert_sorted-IsBelow top a bs le v.1)
  | inr here ↦ rw here (le, v)
]

insert_sorted-IsFalling :
    (a : Fraction) (bs : List Fraction) → IsFalling bs → IsFalling (insert_sorted a bs)
unfolding insert_sorted
insert_sorted-IsFalling a [] v = (tt, tt)
insert_sorted-IsFalling a (b ∷ bs) v = elim (Bool-cases (is_before b a)) [
  | inl later ↦
      rw later
        (insert_sorted-IsBelow b.part a bs (ground arith) v.0, insert_sorted-IsFalling a bs v.1)
  | inr here ↦ rw here ((ground arith, IsBelow-le b.part a.part bs (ground arith) v.0), v)
]

pub sorted-IsFalling : (bs : List Fraction) → IsFalling (sorted bs)
unfolding sorted
sorted-IsFalling [] = tt
sorted-IsFalling (a ∷ bs) = insert_sorted-IsFalling a (sorted bs) (sorted-IsFalling bs)
