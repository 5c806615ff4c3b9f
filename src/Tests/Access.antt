-- ===== src/Tests/Access.antt =====
-- A caller of an endpoint for analysts: backend/internal/auth/auth.go.
use netra.Prelude.{
  ◌≡◌, refl, ◌||◌, any, none, some, [], ◌∷◌, ◌==ₛ◌, to_upper, trim_space, if◌then◌else◌,
}
use netra.Access.Identity.{
  user, analyst, admin, Claims, same_role, role_name, holds_role, parse_roles, validate_claims,
}
use netra.Access.Guard.{
  Principal, User, Directory, passed, cut_space, bearer_token, guard, require_auth, require_role,
}
use netra.Access.Granted.{IsGranted, guard-IsGranted}
use netra.Access.Roles.{parse_roles-holds_role}
use netra.Tests.Device.{caseless}

abbrev claims : Claims
claims = record {
  subject = "alice";
  email = "a@x";
  display_name = "Alice";
  department = "soc";
  roles = user ∷ analyst ∷ [];
  issued_at = 1;
  expires_at = 2;
}

abbrev account : User
account = record { id = 3; email = "a@x"; display_name = "Alice"; department = "soc" }

abbrev directory : Directory
directory = record {
  verify = λ token. if token ==ₛ "t" then some claims else none;
  resolve = λ c. some account;
}

abbrev alice : Principal
alice = record {
  user_id = 3;
  subject = "alice";
  email = "a@x";
  display_name = "Alice";
  department = "soc";
  roles = user ∷ analyst ∷ [];
}

alice_passes : guard directory (admin ∷ analyst ∷ []) "bearer t" ≡ passed alice
unfolding guard require_auth require_role bearer_token cut_space validate_claims
alice_passes = refl

guard-IsGranted_example : IsGranted directory (admin ∷ analyst ∷ []) "bearer t" alice
guard-IsGranted_example =
    guard-IsGranted directory (admin ∷ analyst ∷ []) "bearer t" alice alice_passes

parse_roles-holds_role_example : holds_role (parse_roles ("ADMIN" ∷ "ROOT" ∷ [])) admin ≡ (
    same_role user admin
    || any (λ value. to_upper (trim_space value) ==ₛ role_name admin) ("ADMIN" ∷ "ROOT" ∷ []))
parse_roles-holds_role_example = parse_roles-holds_role ("ADMIN" ∷ "ROOT" ∷ []) admin
