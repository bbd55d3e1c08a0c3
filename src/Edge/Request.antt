-- ===== src/Edge/Request.antt =====
-- internal/middleware: a request as far as the middleware reads it, and what becomes of it.
use sendly.Common.{ℕ, String, Bool, true, false, ◌==◌, nat_eq, ◌&&◌, Option, List, [], ◌∷◌, ℤ}
use sendly.AccountStatus.Status.{Info}

-- `CNSUser`, as far as it is read here.
pub record CnsUser : Type 0 where
  pub id : ℤ
  pub username : String
  pub account_status : Option Info

-- `user` is what `GetCNSUser` answers and `client_ip` what `GetClientIP` does.
pub record Request : Type 0 where
  pub user : Option CnsUser
  pub method : String
  pub path : String
  pub full_path : String
  pub client_ip : String

-- The next handler runs, or the request is aborted with a status and a code, or by the page for
-- suspended accounts.
pub data Outcome : Type 0 where
  next : Outcome
  aborted : ℕ → String → Outcome
  suspended_page : Outcome

-- `strings.HasPrefix`, on the characters of the texts.
abbrev pub has_prefix : List ℕ → List ℕ → Bool
has_prefix [] s = true
has_prefix (c ∷ cs) [] = false
has_prefix (c ∷ cs) (d ∷ ds) = c == d && has_prefix cs ds
