-- ===== src/Access/Guard.antt =====
-- backend/internal/auth/auth.go: RequireAuth and RequireRole. The verifier of tokens and the
-- resolver of users are the interfaces that the code takes.
use Prim.Native.Char.{code}
use netra.Prelude.{
  ◌==◌, String, Bool, Option, none, some, List, any, ◌==ₛ◌, Unicode, trim_space, equal_fold,
  if◌then◌else◌,
}
use netra.Risk.Model.{Uuid}
use netra.Access.Identity.{Role, Claims, holds_role, validate_claims}

pub record Principal : Type 0 where
  pub user_id : Uuid
  pub subject : String
  pub email : String
  pub display_name : String
  pub department : String
  pub roles : List Role

-- What the two interfaces answer: none for an error.
pub record User : Type 0 where
  pub id : Uuid
  pub email : String
  pub display_name : String
  pub department : String

pub record Directory : Type 0 where
  pub verify : String → Option Claims
  pub resolve : Claims → Option User

-- The answers, and the denial that is audited: the subject, or the user with the required roles.
pub data Denial : Type 0 where
  account_denied : String → Denial
  role_denied : Uuid → List Role → List Role → Denial

pub data Answer : Type 0 where
  unauthorized : Answer
  forbidden : Denial → Answer
  passed : Principal → Answer

-- strings.Cut at the first space: what stands before it and after it.
unfoldable pub cut_space : String → Option (String × String)
cut_space String.[] = none
cut_space (String.◌∷◌ c s) =
    let rest = cut_space s in
    if code c == 32
    then some (String.[], s)
    else elim rest [ none ↦ none | some p ↦ some (String.◌∷◌ c p.0, p.1) ]

abbrev nonempty : String → Option String
nonempty token = if token ==ₛ "" then none else some token

module _ ⦃u : Unicode⦄ where
  abbrev token_of : Option (String × String) → Option String
  token_of none = none
  token_of (some (scheme, token)) =
      if equal_fold scheme "bearer" then nonempty (trim_space token) else none

  -- `bearerToken` of the header Authorization, which is empty where it is absent.
  unfoldable pub bearer_token : String → Option String
  bearer_token header = token_of (cut_space header)

  abbrev pub principal_of : User → Claims → Principal
  principal_of found claims = record {
    user_id = found.id;
    subject = claims.subject;
    email = found.email;
    display_name = found.display_name;
    department = found.department;
    roles = claims.roles;
  }

  abbrev pub resolved : Claims → Option User → Answer
  resolved claims none = forbidden (account_denied claims.subject)
  resolved claims (some found) = passed (principal_of found claims)

  abbrev pub verified : Directory → Option Claims → Answer
  verified dir none = unauthorized
  verified dir (some claims) =
      if validate_claims claims then resolved claims (dir.resolve claims) else unauthorized

  abbrev pub presented : Directory → Option String → Answer
  presented dir none = unauthorized
  presented dir (some token) = verified dir (dir.verify token)

  -- `RequireAuth`
  unfoldable pub require_auth : Directory → String → Answer
  require_auth dir header = presented dir (bearer_token header)

abbrev pub has_any_role : Principal → List Role → Bool
has_any_role p roles = any (λ role. holds_role p.roles role) roles

-- `RequireRole`, behind RequireAuth.
unfoldable pub require_role : List Role → Answer → Answer
require_role roles (passed p) =
    if has_any_role p roles then passed p else forbidden (role_denied p.user_id roles p.roles)
require_role roles answer = answer

-- An endpoint behind both.
unfoldable pub guard : ⦃u : Unicode⦄ → Directory → List Role → String → Answer
guard ⦃u⦄ dir roles header = require_role roles (require_auth dir header)
