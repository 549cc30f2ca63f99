-- ===== src/Common/Account.antt =====
-- What the components read of an account, `class User` of apps/accounts/models.py.
use Prim.Native.Nat.{ℕ}
use mathlib.Core.Bool.{Bool, ◌||◌}

pub record User : Type 0 where
  pub id : ℕ
  pub is_staff : Bool
  pub is_superuser : Bool

-- `is_admin_user` of apps/returns/services.py
unfoldable pub is_admin_user : User → Bool
is_admin_user u = u.is_staff || u.is_superuser
