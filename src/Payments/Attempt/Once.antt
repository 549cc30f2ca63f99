-- ===== src/Payments/Attempt/Once.antt =====
-- At most one attempt of an order succeeds.
use Prim.Native.String.{String}
use mallbyte_api.Common.Table.{lookup, save, IsKeyed, sum_rows, sum_rows-save}
use mallbyte_api.Common.{
  ℕ, ◌+◌, ◌≤◌, ◌≡◌, refl, false, ◌&&◌, Option, none, some, List, [], ◌∷◌, arith, ◌==◌,
  if◌then◌else◌,
}
use mallbyte_api.Market.Row.{Payment, pending}
use mallbyte_api.Payments.Attempt.{is_success, is_other_attempt, cancel_attempts, has_other_success}

-- 1 for a successful attempt of the order.
abbrev pub succeeded : ℕ → Payment → ℕ
succeeded order p = if (p.order == order) && is_success p.status then 1 else 0

abbrev pub successes : ℕ → List (ℕ × Payment) → ℕ
successes order = sum_rows (succeeded order)

-- The partial unique index `unique_successful_payment_per_order`.
abbrev pub IsOnce : List (ℕ × Payment) → Type 0
IsOnce ps = (order : ℕ) → successes order ps ≤ 1

-- 1 for a pending attempt of the order under another key.
abbrev pub unfinished : ℕ → Option ℕ → List (ℕ × Payment) → ℕ
unfinished order except [] = 0
unfinished order except ((k, p) ∷ ps) =
    (if is_other_attempt order except k p then 1 else 0) + unfinished order except ps

-- The loop leaves no pending attempt but the excepted one.
pub cancel_attempts-unfinished :
    (order : ℕ) (except : Option ℕ) (now : ℕ) (reason : String) (ps : List (ℕ × Payment))
    → unfinished order except (cancel_attempts order except now reason ps) ≡ 0
unfolding cancel_attempts
cancel_attempts-unfinished order except now reason [] = refl
cancel_attempts-unfinished order except now reason ((k, p) ∷ ps) =
    ground (arith, cancel_attempts-unfinished order except now reason ps)

-- It makes and ends no success.
pub cancel_attempts-successes :
    (order : ℕ) (except : Option ℕ) (now : ℕ) (reason : String) (ps : List (ℕ × Payment)) (q : ℕ)
    → successes q (cancel_attempts order except now reason ps) ≡ successes q ps
unfolding cancel_attempts
cancel_attempts-successes order except now reason [] q = refl
cancel_attempts-successes order except now reason ((k, p) ∷ ps) q =
    ground (arith, cancel_attempts-successes order except now reason ps q)

lookup-cancel_attempts :
    (order : ℕ) (except : Option ℕ) (now : ℕ) (reason : String) (ps : List (ℕ × Payment)) (k : ℕ)
    → lookup k ps ≡ none
    → lookup k (cancel_attempts order except now reason ps) ≡ none
unfolding cancel_attempts
lookup-cancel_attempts order except now reason [] k h = refl
lookup-cancel_attempts order except now reason ((j, p) ∷ ps) k h =
    ground (arith, lookup-cancel_attempts order except now reason ps k)

pub cancel_attempts-IsKeyed :
    (order : ℕ) (except : Option ℕ) (now : ℕ) (reason : String) (ps : List (ℕ × Payment))
    → IsKeyed ps
    → IsKeyed (cancel_attempts order except now reason ps)
unfolding cancel_attempts
cancel_attempts-IsKeyed order except now reason [] v = tt
cancel_attempts-IsKeyed order except now reason ((k, p) ∷ ps) v = (
  lookup-cancel_attempts order except now reason ps k v.0,
  cancel_attempts-IsKeyed order except now reason ps v.1,
)

-- The excepted attempt stays as it is.
pub lookup-cancel_attempts_self :
    (order now pk : ℕ) (reason : String) (ps : List (ℕ × Payment))
    → lookup pk (cancel_attempts order (some pk) now reason ps) ≡ lookup pk ps
unfolding cancel_attempts
lookup-cancel_attempts_self order now pk reason [] = refl
lookup-cancel_attempts_self order now pk reason ((k, p) ∷ ps) =
    ground (arith, lookup-cancel_attempts_self order now pk reason ps)

-- Where nothing stands under the key, the guard sees every success.
no_success :
    (order pk : ℕ) (ps : List (ℕ × Payment))
    → has_other_success order pk ps ≡ false
    → lookup pk ps ≡ none
    → successes order ps ≡ 0
unfolding has_other_success
no_success order pk [] h m = refl
no_success order pk ((k, p) ∷ ps) h m = ground (arith, no_success order pk ps)

-- The guard of `mark_success` finds no other success, so the order has none while the attempt
-- itself is pending.
pub no_other_success :
    (order pk : ℕ) (p : Payment) (ps : List (ℕ × Payment))
    → IsKeyed ps
    → lookup pk ps ≡ some p
    → p.status ≡ pending
    → has_other_success order pk ps ≡ false
    → successes order ps ≡ 0
unfolding has_other_success
no_other_success order pk p [] v found was h = cc
no_other_success order pk p ((k, r) ∷ ps) v found was h =
    ground (arith, no_other_success order pk p ps v.1, no_success order pk ps, v.0)

-- Completing it makes it the only success of its order.
pub completed-IsOnce :
    (order pk : ℕ) (p p' : Payment) (ps : List (ℕ × Payment))
    → IsKeyed ps
    → lookup pk ps ≡ some p
    → p.status ≡ pending
    → p.order ≡ order
    → p'.order ≡ order
    → has_other_success order pk ps ≡ false
    → IsOnce ps
    → IsOnce (save pk p' ps)
completed-IsOnce order pk p p' ps v found was at at' h once q = ground (
  arith,
  once q,
  no_other_success order pk p ps v found was h,
  sum_rows-save (succeeded q) pk p' p ps found,
)
