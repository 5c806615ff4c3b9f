-- ===== src/Access/Granted.antt =====
-- backend/internal/auth/auth.go: who passes RequireAuth and RequireRole.
use netra.Prelude.{
  ◌≡◌, refl, sym, ap, ◌∙◌, String, Bool, true, false, Option, none, some, List, Unicode, Bool-cases,
  inl, inr, if_true, if_false, if◌then◌else◌,
}
use netra.Access.Identity.{Role, Claims, validate_claims}
use netra.Access.Guard.{
  Principal, User, Directory, Answer, unauthorized, forbidden, passed, Denial, role_denied,
  bearer_token, principal_of, resolved, verified, presented, require_auth, has_any_role,
  require_role, guard,
}

-- The caller showed a token that verifies, with valid claims, of a user who resolves, and holds one
-- of the roles; the principal is that user's, with the roles of the token.
pub record IsGranted ⦃u : Unicode⦄ (dir : Directory) (roles : List Role) (header : String)
    (p : Principal) : Type 0 where
  pub token : String
  pub claims : Claims
  pub account : User
  pub shown : bearer_token header ≡ some token
  pub genuine : dir.verify token ≡ some claims
  pub valid : validate_claims claims ≡ true
  pub known : dir.resolve claims ≡ some account
  pub principal : principal_of account claims ≡ p
  pub permitted : has_any_role p roles ≡ true

module _ ⦃u : Unicode⦄ (dir : Directory) where
  -- RequireAuth alone, with no role required.
  record IsKnown (o : Option String) (p : Principal) : Type 0 where
    token : String
    claims : Claims
    account : User
    shown : o ≡ some token
    genuine : dir.verify token ≡ some claims
    valid : validate_claims claims ≡ true
    known : dir.resolve claims ≡ some account
    principal : principal_of account claims ≡ p

  passed_inj : {p q : Principal} → passed p ≡ passed q → p ≡ q
  passed_inj h = cc

  resolved-passed :
      (claims : Claims) (o : Option User) (p : Principal)
      → resolved claims o ≡ passed p
      → (account : User) × (o ≡ some account) × (principal_of account claims ≡ p)
  resolved-passed claims none p h = cc
  resolved-passed claims (some account) p h = (account, refl, passed_inj h)

  chosen :
      (b : Bool) (x : Answer) (p : Principal)
      → (if b then x else unauthorized) ≡ passed p
      → (b ≡ true) × (x ≡ passed p)
  chosen true x p h = (refl, h)
  chosen false x p h = cc

  verified-passed :
      (o : Option Claims) (p : Principal)
      → verified dir o ≡ passed p
      → (claims : Claims) × (o ≡ some claims)
        × (validate_claims claims ≡ true)
        × ((account : User) × (dir.resolve claims ≡ some account)
            × (principal_of account claims ≡ p))
  verified-passed none p h = cc
  verified-passed (some claims) p h =
      let (valid, rest) =
        chosen (validate_claims claims) (resolved claims (dir.resolve claims)) p h in
      (claims, refl, valid, resolved-passed claims (dir.resolve claims) p rest)

  presented-IsKnown : (o : Option String) (p : Principal) → presented dir o ≡ passed p → IsKnown o p
  presented-IsKnown none p h = cc
  presented-IsKnown (some token) p h =
      let (claims, genuine, valid, (account, known, principal)) =
        verified-passed (dir.verify token) p h in
      record {
        token = token;
        claims = claims;
        account = account;
        shown = refl;
        genuine = genuine;
        valid = valid;
        known = known;
        principal = principal;
      }

require_role-passed :
    (roles : List Role) (a : Answer) (p : Principal)
    → require_role roles a ≡ passed p
    → (a ≡ passed p) × (has_any_role p roles ≡ true)
unfolding require_role
require_role-passed roles unauthorized p h = cc
require_role-passed roles (forbidden d) p h = cc
require_role-passed roles (passed q) p h = elim (Bool-cases (has_any_role q roles)) [
  | inl e ↦
      let same : passed q ≡ passed p =
        sym (if_true _ (passed q) (forbidden (role_denied q.user_id roles q.roles)) e) ∙ h in
      (same, ap (λ z. has_any_role z roles) (injective same) ∙ e)
  | inr e ↦
      absurd (
        never (sym (if_false _ (passed q) (forbidden (role_denied q.user_id roles q.roles)) e) ∙ h))
]
  where
    injective : {p q : Principal} → passed p ≡ passed q → q ≡ p
    injective h = cc

    never : {d : Denial} {p : Principal} → ¬ (forbidden d ≡ passed p)
    never h = cc

-- A request reaches an endpoint behind RequireAuth and RequireRole only as `IsGranted` says.
pub guard-IsGranted :
    ⦃u : Unicode⦄
    → (dir : Directory) (roles : List Role) (header : String) (p : Principal)
    → guard dir roles header ≡ passed p
    → IsGranted dir roles header p
unfolding guard require_auth
guard-IsGranted ⦃u⦄ dir roles header p h =
    let (authenticated, permitted) = require_role-passed roles (require_auth dir header) p h in
    let known = presented-IsKnown dir (bearer_token header) p authenticated in
    record {
      token = known.token;
      claims = known.claims;
      account = known.account;
      shown = known.shown;
      genuine = known.genuine;
      valid = known.valid;
      known = known.known;
      principal = known.principal;
      permitted = permitted;
    }

-- The other way round: a request whose token verifies, with valid claims, of a user who resolves, and
-- with one of the required roles, reaches the endpoint as that user with the roles of the token.
pub guard_passes :
    ⦃u : Unicode⦄
    → (dir : Directory) (roles : List Role) (header token : String) (claims : Claims)
      (account : User)
    → bearer_token header ≡ some token
    → dir.verify token ≡ some claims
    → validate_claims claims ≡ true
    → dir.resolve claims ≡ some account
    → has_any_role (principal_of account claims) roles ≡ true
    → guard dir roles header ≡ passed (principal_of account claims)
unfolding guard require_auth require_role
guard_passes ⦃u⦄ dir roles header token claims account shown genuine valid known permitted =
    ap (λ o. require_role roles (presented dir o)) shown
    ∙ ap (λ o. require_role roles (verified dir o)) genuine
    ∙ ap (require_role roles) (if_true _ (resolved claims (dir.resolve claims)) unauthorized valid)
    ∙ ap (λ o. require_role roles (resolved claims o)) known
    ∙ if_true _ (passed (principal_of account claims)) _ permitted
