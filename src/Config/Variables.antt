-- ===== src/Config/Variables.antt =====
-- backend/internal/config/config.go: the variables of the environment. Parsing a boolean, a float or
-- a duration is the standard library's; a value comes with the problems that `collect` is given.
use Prim.Native.Char.{code}
use netra.Prelude.{
  ◌-◌, ◌%◌, ◌^◌, String, Bool, true, false, Option, none, some, List, [], ◌∷◌, ltb, ◌==◌, ◌==ₛ◌, ℤ,
  pos, negsuc, ◌-ℤ◌, leb_ℤ, Unicode, trim_space, if◌then◌else◌,
}
use netra.Device.Signing.{parse_int}

pub record System (W : Type 0) : Type 0 where
  pub lookup : String → Option String
  pub parse_bool : String → Option Bool
  pub parse_float : String → Option W
  pub parse_duration : String → Option ℤ

pub data Problem : Type 0 where
  bad_value : String → Problem
  unknown_environment database_url dev_auth_forbidden no_verifier risk_weights posture_weights
        log_level log_format connections thresholds :
      Problem

abbrev pub problem_if : Bool → Problem → List Problem
problem_if true p = p ∷ []
problem_if false p = []

-- os.LookupEnv, where an empty value counts as absent.
abbrev pub given : Option String → Option String
given none = none
given (some raw) = if raw ==ₛ "" then none else some raw

abbrev or_else : String → Option String → String
or_else fallback none = fallback
or_else fallback (some raw) = raw

-- A parsed value; one that cannot be parsed is a problem, and the zero of its type.
abbrev value_or {ℓ} : {A : Type ℓ} → String → A → Option A → A × List Problem
value_or key zero_value none = (zero_value, bad_value key ∷ [])
value_or key zero_value (some v) = (v, [])

abbrev parsed {ℓ} :
    {A : Type ℓ} → (String → Option A) → String → A → A → Option String → A × List Problem
parsed parse key zero_value fallback none = (fallback, [])
parsed parse key zero_value fallback (some raw) = value_or key zero_value (parse raw)

abbrev positive_only : Option ℤ → Option ℤ
positive_only none = none
positive_only (some v) = if leb_ℤ v (pos 0) then none else some v

-- strings.Split at commas.
unfoldable pub split_commas : String → List String
split_commas String.[] = String.[] ∷ []
split_commas (String.◌∷◌ c s) =
    let rest = split_commas s in
    if code c == 44
    then String.[] ∷ rest
    else elim rest [ [] ↦ String.◌∷◌ c String.[] ∷ [] | part ∷ parts ↦ String.◌∷◌ c part ∷ parts ]

abbrev trimmed_parts : ⦃u : Unicode⦄ → List String → List String
trimmed_parts ⦃u⦄ [] = []
trimmed_parts ⦃u⦄ (p ∷ ps) =
    let rest = trimmed_parts ps in if trim_space p ==ₛ "" then rest else trim_space p ∷ rest

module _ {W : Type 0} (sys : System W) where
  unfoldable pub string_var : String → String → String
  string_var key fallback = or_else fallback (given (sys.lookup key))

  unfoldable pub list_var : ⦃u : Unicode⦄ → String → List String
  unfolding string_var
  list_var ⦃u⦄ key =
      let raw = string_var key "" in if raw ==ₛ "" then [] else trimmed_parts (split_commas raw)

  unfoldable pub int_var : String → ℤ → ℤ × List Problem
  int_var key fallback = parsed parse_int key (pos 0) fallback (given (sys.lookup key))

  unfoldable pub bool_var : String → Bool → Bool × List Problem
  bool_var key fallback = parsed sys.parse_bool key false fallback (given (sys.lookup key))

  unfoldable pub float_var : W → String → W → W × List Problem
  float_var zero_value key fallback =
      parsed sys.parse_float key zero_value fallback (given (sys.lookup key))

  unfoldable pub duration_var : String → ℤ → ℤ × List Problem
  duration_var key fallback =
      parsed (λ raw. positive_only (sys.parse_duration raw)) key (pos 0) fallback
        (given (sys.lookup key))

-- int32(n): the low 32 bits.
unfoldable pub to_int32 : ℤ → ℤ
to_int32 (pos n) = let m = n % 2 ^ 32 in if ltb m (2 ^ 31) then pos m else pos m -ℤ pos (2 ^ 32)
to_int32 (negsuc n) =
    let m = 2 ^ 32 - 1 - n % 2 ^ 32 in if ltb m (2 ^ 31) then pos m else pos m -ℤ pos (2 ^ 32)
