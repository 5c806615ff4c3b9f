-- ===== src/Config/Safe.antt =====
-- backend/internal/config/config.go: the configurations with which the server starts.
use mathlib.Core.Path.{subst}
use mathlib.Core.Sum.{inr-injective}
use netra.Prelude.{
  ◌≡◌, refl, Bool, true, false, ◌&&◌, ◌||◌, not, List, [], ◌∷◌, ◌++◌, inr, ◌==ₛ◌, Unicode, arith,
  All,
}
use netra.Prelude.Double.{Double}
use netra.Risk.Model.{validate_weights}
use netra.Posture.Model
use netra.Config.Variables.{
  System, Problem, problem_if, unknown_environment, database_url, dev_auth_forbidden, no_verifier,
  risk_weights, posture_weights, log_level, thresholds,
}
use netra.Config.Load.{
  Config, is_environment, is_log_level, is_none, join, problem_lists, validate_thresholds,
  config_of, problems, started, load,
}

nothing : {A : Type 0} → (xs ys : List A) → xs ++ ys ≡ [] → (xs ≡ []) × (ys ≡ [])
nothing [] ys h = (refl, h)
nothing (x ∷ xs) ys h = cc

join-nil : {A : Type 0} → (xss : List (List A)) → join xss ≡ [] → All (λ xs. xs ≡ []) xss
join-nil [] h = tt
join-nil (xs ∷ xss) h = let (here, rest) = nothing xs (join xss) h in (here, join-nil xss rest)

no_problem : (b : Bool) (p : Problem) → problem_if b p ≡ [] → b ≡ false
no_problem true p h = cc
no_problem false p h = refl

-- Development tokens are enabled only in development, and without them there is an identity
-- provider; the environment, the log's level and the database are named; the weights and the thresholds are valid.
pub record IsSafe {W : Type 0} ⦃d : Double W⦄ (c : Config W) : Type 0 where
  pub environment : is_environment c.env ≡ true
  pub database : (c.database.url ==ₛ "") ≡ false
  pub dev_auth : (c.oidc.dev_auth_enabled && not (c.env ==ₛ "development")) ≡ false
  pub verifier :
      (not c.oidc.dev_auth_enabled && (c.oidc.issuer ==ₛ "" || c.oidc.audience ==ₛ "")) ≡ false
  pub weights : validate_weights c.weights ≡ true
  pub posture_weights : is_none (netra.Posture.Model.validate_weights c.posture_weights) ≡ true
  pub log_level : is_log_level c.log.level ≡ true
  pub thresholds : validate_thresholds c.thresholds ≡ true

module _ {W : Type 0} ⦃d : Double W⦄ (sys : System W) where
  not-false : (b : Bool) → not b ≡ false → b ≡ true
  not-false b h = ground arith

  problems-IsSafe : (c : Config W) → problems sys c ≡ [] → IsSafe c
  unfolding problems
  problems-IsSafe c h =
      let none = join-nil (problem_lists sys c) h in
      record {
        environment = not-false _ (no_problem _ unknown_environment none.0);
        database = no_problem _ database_url none.1.1.1.1.1.1.1.0;
        dev_auth = no_problem _ dev_auth_forbidden none.1.1.1.1.1.1.1.1.1.1.1.1.1.1.0;
        verifier = no_problem _ no_verifier none.1.1.1.1.1.1.1.1.1.1.1.1.1.1.1.0;
        weights = not-false _ (no_problem _ risk_weights none.1.1.1.1.1.1.1.1.1.1.1.1.1.1.1.1.1.0);
        posture_weights =
            not-false _ (no_problem _ posture_weights none.1.1.1.1.1.1.1.1.1.1.1.1.1.1.1.1.1.1.1.0);
        log_level =
            not-false _ (no_problem _ log_level none.1.1.1.1.1.1.1.1.1.1.1.1.1.1.1.1.1.1.1.1.0);
        thresholds =
            not-false _
              (no_problem _ thresholds none.1.1.1.1.1.1.1.1.1.1.1.1.1.1.1.1.1.1.1.1.1.1.1.0);
      }

  refused :
      (c : Config W) (ps : List Problem) (result : Config W)
      → started sys c ps ≡ inr result
      → (ps ≡ []) × (c ≡ result)
  refused c [] result h = (refl, inr-injective c result h)
  refused c (p ∷ ps) result h = cc

  -- The server starts only with a configuration that is safe, as `IsSafe` says.
  pub load-IsSafe : ⦃u : Unicode⦄ → (c : Config W) → load sys ≡ inr c → IsSafe c
  unfolding load
  load-IsSafe ⦃u⦄ c h =
      let (clean, same) = refused (config_of sys) (problems sys (config_of sys)) c h in
      subst IsSafe same (problems-IsSafe (config_of sys) clean)
