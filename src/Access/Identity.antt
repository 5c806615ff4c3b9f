-- ===== src/Access/Identity.antt =====
-- backend/internal/identity/claims.go: roles and the claims of a token.
use netra.Prelude.{
  String, Bool, true, false, ◌||◌, not, Option, none, some, List, [], ◌∷◌, ◌++◌, any, ◌==ₛ◌,
  Unicode, trim_space, to_upper, if◌then◌else◌,
}
use netra.Risk.Model.{Time}

pub data Role : Type 0 where
  user analyst admin auditor : Role

abbrev pub same_role : Role → Role → Bool
same_role user user = true
same_role analyst analyst = true
same_role admin admin = true
same_role auditor auditor = true
same_role _ _ = false

abbrev pub holds_role : List Role → Role → Bool
holds_role roles role = any (λ held. same_role held role) roles

-- The constant of a role.
abbrev pub role_name : Role → String
role_name user = "USER"
role_name analyst = "SECURITY_ANALYST"
role_name admin = "ADMIN"
role_name auditor = "AUDITOR"

-- The map knownRoles.
unfoldable pub known_role : String → Option Role
known_role s =
    if s ==ₛ "USER"
    then some user
    else if s ==ₛ "SECURITY_ANALYST"
    then some analyst
    else if s ==ₛ "ADMIN"
    then some admin
    else if s ==ₛ "AUDITOR"
    then some auditor
    else none

-- The body of the loop of ParseRoles; `out` holds the roles that are seen.
abbrev pub add_role : Option Role → List Role → List Role
add_role none out = out
add_role (some role) out = if holds_role out role then out else out ++ role ∷ []

module _ ⦃u : Unicode⦄ where
  unfoldable pub parse_role : String → Option Role
  parse_role raw = known_role (to_upper (trim_space raw))

  unfoldable pub add_roles : List String → List Role → List Role
  add_roles [] out = out
  add_roles (value ∷ raw) out = add_roles raw (add_role (parse_role value) out)

  unfoldable pub parse_roles : List String → List Role
  unfolding add_roles
  parse_roles raw = add_roles raw (user ∷ [])

pub record Claims : Type 0 where
  pub subject : String
  pub email : String
  pub display_name : String
  pub department : String
  pub roles : List Role
  pub issued_at : Time
  pub expires_at : Time

abbrev is_empty : List Role → Bool
is_empty [] = true
is_empty (r ∷ rs) = false

-- `Validate`: true where it returns nil.
unfoldable pub validate_claims : ⦃u : Unicode⦄ → Claims → Bool
validate_claims ⦃u⦄ c = not (trim_space c.subject ==ₛ "" || is_empty c.roles)

abbrev first_held : List Role → List Role → Role
first_held [] roles = user
first_held (candidate ∷ candidates) roles =
    let rest = first_held candidates roles in if holds_role roles candidate then candidate else rest

unfoldable pub highest_role : Claims → Role
highest_role c = first_held (admin ∷ analyst ∷ auditor ∷ user ∷ []) c.roles
