-- ===== src/Access/Roles.antt =====
-- backend/internal/identity/claims.go: the roles that a token gives.
use mathlib.Core.Bool.{true≢false}
use netra.Prelude.{
  ℕ, ◌≤◌, ◌≡◌, refl, sym, ap, ◌∙◌, String, Bool, true, false, ◌||◌, Option, none, some, List, [],
  ◌∷◌, ◌++◌, any, any-append, Unicode, to_upper, trim_space, ◌==ₛ◌, eq_iff, Bool-cases, inl, inr,
  if_true, if_false, arith, if◌then◌else◌,
}
use netra.Access.Identity.{
  Role, user, analyst, admin, auditor, same_role, role_name, known_role, holds_role, add_role,
  add_roles, parse_role, parse_roles, Claims, highest_role,
}

same_role-eq : (a b : Role) → same_role a b ≡ true → a ≡ b
same_role-eq user user h = refl
same_role-eq analyst analyst h = refl
same_role-eq admin admin h = refl
same_role-eq auditor auditor h = refl
same_role-eq user analyst h = cc
same_role-eq user admin h = cc
same_role-eq user auditor h = cc
same_role-eq analyst user h = cc
same_role-eq analyst admin h = cc
same_role-eq analyst auditor h = cc
same_role-eq admin user h = cc
same_role-eq admin analyst h = cc
same_role-eq admin auditor h = cc
same_role-eq auditor user h = cc
same_role-eq auditor analyst h = cc
same_role-eq auditor admin h = cc

-- The value names the role.
abbrev pub is_named : Option Role → Role → Bool
is_named none r = false
is_named (some role) r = same_role role r

holds_role-add_role :
    (o : Option Role) (out : List Role) (r : Role)
    → holds_role (add_role o out) r ≡ (holds_role out r || is_named o r)
holds_role-add_role none out r = ground arith
holds_role-add_role (some role) out r = elim (Bool-cases (holds_role out role)) [
  | inl e ↦
      ap (λ z. holds_role z r) (if_true _ out (out ++ role ∷ []) e)
      ∙ elim (Bool-cases (same_role role r)) [
        | inl f ↦
            let held : holds_role out r ≡ true =
              ap (holds_role out) (sym (same_role-eq role r f)) ∙ e in
            held ∙ sym (ap (λ b. b || same_role role r) held)
        | inr f ↦ no_more (holds_role out r) _ f
      ]
  | inr e ↦
      ap (λ z. holds_role z r) (if_false _ out (out ++ role ∷ []) e)
      ∙ any-append (λ held. same_role held r) out (role ∷ [])
      ∙ drop_false (holds_role out r) (same_role role r)
]
  where
    no_more : (a b : Bool) → b ≡ false → a ≡ (a || b)
    no_more a b h = ground arith

    drop_false : (a b : Bool) → (a || (b || false)) ≡ (a || b)
    drop_false a b = ground arith

same_role-name : (a b : Role) → same_role a b ≡ (role_name a ==ₛ role_name b)
same_role-name user user = refl
same_role-name user analyst = refl
same_role-name user admin = refl
same_role-name user auditor = refl
same_role-name analyst user = refl
same_role-name analyst analyst = refl
same_role-name analyst admin = refl
same_role-name analyst auditor = refl
same_role-name admin user = refl
same_role-name admin analyst = refl
same_role-name admin admin = refl
same_role-name admin auditor = refl
same_role-name auditor user = refl
same_role-name auditor analyst = refl
same_role-name auditor admin = refl
same_role-name auditor auditor = refl

-- A string that is one role's constant names that role alone, and any other names none.
known_role-name : (s : String) (r : Role) → is_named (known_role s) r ≡ (s ==ₛ role_name r)
unfolding known_role
known_role-name s r = elim (Bool-cases (s ==ₛ role_name user)) [
  | inl e ↦ step (if_true _ _ _ e) (found user e)
  | inr not_user ↦ step (if_false _ _ _ not_user) (elim (Bool-cases (s ==ₛ role_name analyst)) [
    | inl e ↦ step (if_true _ _ _ e) (found analyst e)
    | inr not_analyst ↦
        step (if_false _ _ _ not_analyst) (elim (Bool-cases (s ==ₛ role_name admin)) [
          | inl e ↦ step (if_true _ _ _ e) (found admin e)
          | inr not_admin ↦
              step (if_false _ _ _ not_admin) (elim (Bool-cases (s ==ₛ role_name auditor)) [
                | inl e ↦ step (if_true _ _ _ e) (found auditor e)
                | inr not_auditor ↦
                    step (if_false _ _ _ not_auditor)
                      (unknown not_user not_analyst not_admin not_auditor r)
              ])
        ])
  ])
]
  where
    step :
        {x y : Option Role}
        → x ≡ y
        → is_named y r ≡ (s ==ₛ role_name r)
        → is_named x r ≡ (s ==ₛ role_name r)
    step e h = ap (λ z. is_named z r) e ∙ h

    found : (q : Role) → (s ==ₛ role_name q) ≡ true → same_role q r ≡ (s ==ₛ role_name r)
    found q e =
        same_role-name q r ∙ ap (λ z. z ==ₛ role_name r) (sym ((eq_iff s (role_name q)).0 e))

    unknown :
        (s ==ₛ role_name user) ≡ false
        → (s ==ₛ role_name analyst) ≡ false
        → (s ==ₛ role_name admin) ≡ false
        → (s ==ₛ role_name auditor) ≡ false
        → (q : Role) → false ≡ (s ==ₛ role_name q)
    unknown a b c d user = sym a
    unknown a b c d analyst = sym b
    unknown a b c d admin = sym c
    unknown a b c d auditor = sym d

module _ ⦃u : Unicode⦄ where
  holds_role-add_roles :
      (raw : List String) (out : List Role) (r : Role)
      → holds_role (add_roles raw out) r
        ≡ (holds_role out r || any (λ value. is_named (parse_role value) r) raw)
  unfolding add_roles
  holds_role-add_roles [] out r = ground arith
  holds_role-add_roles (value ∷ raw) out r =
      holds_role-add_roles raw (add_role (parse_role value) out) r
      ∙ ap (λ b. b || any (λ value. is_named (parse_role value) r) raw)
          (holds_role-add_role (parse_role value) out r)
      ∙ assoc (holds_role out r) (is_named (parse_role value) r) _
    where
      assoc : (a b c : Bool) → ((a || b) || c) ≡ (a || (b || c))
      assoc a b c = ground arith

  -- The values that name the role.
  names-values :
      (r : Role) (raw : List String)
      → any (λ value. is_named (parse_role value) r) raw
        ≡ any (λ value. to_upper (trim_space value) ==ₛ role_name r) raw
  unfolding parse_role
  names-values r [] = refl
  names-values r (value ∷ raw) =
      ap (λ b. b || any (λ v. is_named (parse_role v) r) raw)
        (known_role-name (to_upper (trim_space value)) r)
      ∙ ap (λ b. (to_upper (trim_space value) ==ₛ role_name r) || b) (names-values r raw)

  -- The roles of a token are USER and those whose name is one of its values, up to case and the
  -- space around it, and no other.
  pub parse_roles-holds_role :
      (raw : List String) (r : Role)
      → holds_role (parse_roles raw) r
        ≡ (same_role user r || any (λ value. to_upper (trim_space value) ==ₛ role_name r) raw)
  unfolding parse_roles
  parse_roles-holds_role raw r =
      holds_role-add_roles raw (user ∷ []) r
      ∙ ap (λ b. b || any (λ value. is_named (parse_role value) r) raw)
          (or_false (same_role user r))
      ∙ ap (λ b. same_role user r || b) (names-values r raw)
    where
      or_false : (b : Bool) → (b || false) ≡ b
      or_false b = ground arith

-- How much a role may do, in the order of HighestRole.
abbrev pub rank : Role → ℕ
rank user = 0
rank auditor = 1
rank analyst = 2
rank admin = 3

-- The highest role of claims that hold a role is one that they hold, and none that they hold ranks
-- above it.
pub highest_role-rank :
    (c : Claims) (r : Role)
    → holds_role c.roles r ≡ true
    → (holds_role c.roles (highest_role c) ≡ true) × (rank r ≤ rank (highest_role c))
unfolding highest_role
highest_role-rank c r h =
    by_held (holds_role c.roles admin) (holds_role c.roles analyst) (holds_role c.roles auditor)
      (holds_role c.roles user) refl refl refl refl r h
  where
    by_held :
        (a b d e : Bool)
        → holds_role c.roles admin ≡ a
        → holds_role c.roles analyst ≡ b
        → holds_role c.roles auditor ≡ d
        → holds_role c.roles user ≡ e
        → (r : Role) → holds_role c.roles r ≡ true
        → let top =
            if a
            then admin
            else if b
            then analyst
            else if d
            then auditor
            else if e
            then user
            else user in
          (holds_role c.roles top ≡ true) × (rank r ≤ rank top)
    by_held true b d e ha hb hd he user h = (ha, omega arith)
    by_held true b d e ha hb hd he auditor h = (ha, omega arith)
    by_held true b d e ha hb hd he analyst h = (ha, omega arith)
    by_held true b d e ha hb hd he admin h = (ha, omega arith)
    by_held false b d e ha hb hd he admin h = absurd (true≢false (sym h ∙ ha))
    by_held false true d e ha hb hd he user h = (hb, omega arith)
    by_held false true d e ha hb hd he auditor h = (hb, omega arith)
    by_held false true d e ha hb hd he analyst h = (hb, omega arith)
    by_held false false d e ha hb hd he analyst h = absurd (true≢false (sym h ∙ hb))
    by_held false false true e ha hb hd he user h = (hd, omega arith)
    by_held false false true e ha hb hd he auditor h = (hd, omega arith)
    by_held false false false e ha hb hd he auditor h = absurd (true≢false (sym h ∙ hd))
    by_held false false false true ha hb hd he user h = (he, omega arith)
    by_held false false false false ha hb hd he user h = (h, omega arith)
