-- ===== src/Returns/Life.antt =====
-- The life of the return requests of a shop: any of the services, one after another. The tables of
-- the shop stand still.
pub mod Kept
pub mod Reviews
pub mod Reachable
use mallbyte_api.Common.Account.{User}
use mallbyte_api.Common.{ℕ, ◌≡◌, Option, List, ℤ, ok}
use mallbyte_api.Market.State.{Market}
use mallbyte_api.Returns.Row.{Returns}
use mallbyte_api.Returns.Submit.{ItemData, create_return_request}
use mallbyte_api.Returns.Review.{
  cancel_return_request, approve_return_request, reject_return_request, mark_return_item_received,
  mark_return_refunded,
}

-- One service that succeeds.
pub data Step (db : Market) : Returns → Returns → Type 0 where
  submitting :
      {r r' : Returns} (customer : User) (order key : ℕ) (items : List ItemData)
      → create_return_request customer order items db r ≡ ok (key, r')
      → Step db r r'
  cancelling :
      {r r' : Returns} (user : User) (now pk : ℕ)
      → cancel_return_request user now pk r ≡ ok r'
      → Step db r r'
  approving :
      {r r' : Returns} (user : User) (now : ℕ) (amount : Option ℤ) (pk : ℕ)
      → approve_return_request user now amount pk r ≡ ok r'
      → Step db r r'
  rejecting :
      {r r' : Returns} (user : User) (now pk : ℕ)
      → reject_return_request user now pk r ≡ ok r'
      → Step db r r'
  receiving :
      {r r' : Returns} (user : User) (now pk : ℕ)
      → mark_return_item_received user now pk r ≡ ok r'
      → Step db r r'
  refunding :
      {r r' : Returns} (user : User) (now pk : ℕ)
      → mark_return_refunded user now pk r ≡ ok r'
      → Step db r r'

pub data Steps (db : Market) : Returns → Returns → Type 0 where
  stop : {r : Returns} → Steps db r r
  then : {r r' r'' : Returns} → Step db r r' → Steps db r' r'' → Steps db r r''
