-- ===== src/Audit/Tampering.antt =====
-- What an intact chain commits to: its last hash fixes every entry of it, or the two logs exhibit a
-- collision of the digest.
use mathlib.Core.Bool.{true≢false}
use netra.Prelude.{
  ◌≢◌, ◌⊎◌, ◌≡◌, refl, sym, ap, ◌∙◌, Bool, true, false, Option, none, some, List, [], ◌∷◌, ◌++◌,
  ◌==◌, ℤ, arith, length, Bool-cases, inl, inr, if◌then◌else◌, &&-eq-true, ==_iff,
}
use netra.Audit.Chain.{
  Entry, ◌>>=◌, Record, Encoding, Bytes, equal_hash, out_of_order, canonical, canonical_bytes,
  compute_hash, compare_hash, check, verify_from, verify_chain, verify_chain_from,
}
use netra.Audit.Store.{head_hash}
use netra.Audit.Appending.{equal_hash_refl}
use netra.Audit.Segments.{verify_from-cons_inv}

-- Two different byte sequences with one digest.
pub record Collision {J : Type 0} (c : Encoding J) : Type 0 where
  pub one : Bytes
  pub other : Bytes
  pub different : one ≢ other
  pub same_digest : c.sha256 one ≡ c.sha256 other

equal_hash→eq : (x y : Bytes) → equal_hash x y ≡ true → x ≡ y
unfolding equal_hash
equal_hash→eq [] [] h = refl
equal_hash→eq [] (y ∷ ys) h = cc
equal_hash→eq (x ∷ xs) [] h = cc
equal_hash→eq (x ∷ xs) (y ∷ ys) h =
    let both = &&-eq-true (x == y) (equal_hash xs ys) h in
    cc ((==_iff x y).0 both.0, equal_hash→eq xs ys both.1)

append_inj : (p q x y : Bytes) → length p ≡ length q → p ++ x ≡ q ++ y → (p ≡ q) × (x ≡ y)
append_inj [] [] x y l h = (refl, h)
append_inj [] (b ∷ q) x y l h = absurd (omega arith)
append_inj (a ∷ p) [] x y l h = absurd (omega arith)
append_inj (a ∷ p) (b ∷ q) x y l h =
    let tails : p ++ x ≡ q ++ y = cc in
    let heads : a ≡ b = cc in
    let rest = append_inj p q x y (omega arith) tails in (cc (rest.0), rest.1)

compare_hash_inv :
    (seq : ℤ) (hash : Bytes) (o : Option Bytes)
    → compare_hash seq hash o ≡ none
    → (want : Bytes) × (o ≡ some want) × (equal_hash hash want ≡ true)
unfolding compare_hash
compare_hash_inv seq hash none h = cc
compare_hash_inv seq hash (some want) h = (want, refl, ground arith)

if-none_inv :
    {A : Type 0} (b : Bool) (x : Option A) (a : A) → (if b then some a else x) ≡ none → x ≡ none
if-none_inv true x a h = cc
if-none_inv false x a h = h

else-none_inv :
    {A : Type 0} (b : Bool) (x : Option A) (a : A) → (if b then x else some a) ≡ none → x ≡ none
else-none_inv true x a h = h
else-none_inv false x a h = cc

module _ {J : Type 0} ⦃c : Encoding J⦄ where
  compute_hash_inv :
      (prev : Bytes) (e : Entry J) (want : Bytes)
      → compute_hash prev e ≡ some want
      → (body : Bytes) × (c.marshal (canonical e) ≡ some body) × (want ≡ c.sha256 (prev ++ body))
  unfolding compute_hash canonical_bytes
  compute_hash_inv prev e want h = go (c.marshal (canonical e)) refl h
    where
      go :
          (o : Option Bytes)
          → c.marshal (canonical e) ≡ o
          → (o >>= λ body. some (c.sha256 (prev ++ body))) ≡ some want
          → (body : Bytes) × (c.marshal (canonical e) ≡ some body)
            × (want ≡ c.sha256 (prev ++ body))
      go none m q = cc
      go (some body) m q = (body, m, cc)

  -- An accepted record holds the digest of the hash before and of its entry's bytes.
  check_inv :
      (before : Option ℤ) (prev : Bytes) (r : Record J)
      → check before prev r ≡ none
      → (body : Bytes) × (c.marshal (canonical r.entry) ≡ some body)
        × (r.hash ≡ c.sha256 (prev ++ body))
  unfolding check
  check_inv before prev r h =
      let linked = if-none_inv (out_of_order before r.seq) _ _ h in
      let compared = else-none_inv (equal_hash r.prev_hash prev) _ _ linked in
      let (want, computed, same) =
        compare_hash_inv r.seq r.hash (compute_hash prev r.entry) compared in
      let (body, encoded, digest) = compute_hash_inv prev r.entry want computed in
      (body, encoded, equal_hash→eq r.hash want same ∙ digest)

  -- Record for record, the same canonical bytes and the same hashes.
  abbrev pub SameContents : List (Record J) → List (Record J) → Type 0
  SameContents [] [] = Unit
  SameContents (x ∷ xs) (y ∷ ys) =
      (canonical_bytes x.entry ≡ canonical_bytes y.entry) × (x.hash ≡ y.hash) × SameContents xs ys
  SameContents _ _ = ⊥

  same_or_Collision : (x y : Bytes) → c.sha256 x ≡ c.sha256 y → (x ≡ y) ⊎ Collision c
  same_or_Collision x y h = elim (Bool-cases (equal_hash x y)) [
    | inl e ↦ inl (equal_hash→eq x y e)
    | inr e ↦
        inr (record { one = x; other = y; different = λ same. differ x y e same; same_digest = h })
  ]
    where
      differ : (x y : Bytes) → equal_hash x y ≡ false → x ≢ y
      differ x y e same = true≢false (sym (equal_hash_refl x) ∙ ap (equal_hash x) same ∙ e)

  step_committed :
      (b b' : Option ℤ) (p q : Bytes) (x y : Record J)
      → length p ≡ length q
      → check b p x ≡ none
      → check b' q y ≡ none
      → x.hash ≡ y.hash
      → ((p ≡ q) × (canonical_bytes x.entry ≡ canonical_bytes y.entry)) ⊎ Collision c
  unfolding canonical_bytes
  step_committed b b' p q x y l hx hy same =
      let (bx, mx, dx) = check_inv b p x hx in
      let (by, my, dy) = check_inv b' q y hy in
      elim (same_or_Collision (p ++ bx) (q ++ by) (sym dx ∙ same ∙ dy)) [
        | inr found ↦ inr found
        | inl e ↦
            let (prevs, bodies) = append_inj p q bx by l e in
            inl (prevs, mx ∙ ap some bodies ∙ sym my)
      ]

  module _ (sha256_length : (x : Bytes) → length (c.sha256 x) ≡ 32) where
    hash_length :
        (b : Option ℤ) (p : Bytes) (x : Record J) → check b p x ≡ none → length x.hash ≡ 32
    hash_length b p x h =
        let (body, m, digest) = check_inv b p x h in ap length digest ∙ sha256_length (p ++ body)

    committed :
        (b b' : Option ℤ) (p q : Bytes) (xs ys : List (Record J))
        → length p ≡ length q
        → length xs ≡ length ys
        → verify_from b p xs ≡ none
        → verify_from b' q ys ≡ none
        → head_hash p xs ≡ head_hash q ys
        → ((p ≡ q) × SameContents xs ys) ⊎ Collision c
    committed b b' p q [] [] l n hx hy same = inl (same, tt)
    committed b b' p q [] (y ∷ ys) l n hx hy same = absurd (omega arith)
    committed b b' p q (x ∷ xs) [] l n hx hy same = absurd (omega arith)
    committed b b' p q (x ∷ xs) (y ∷ ys) l n hx hy same =
        let (cx, vx) = verify_from-cons_inv b p x xs hx in
        let (cy, vy) = verify_from-cons_inv b' q y ys hy in
        elim (committed (some x.seq) (some y.seq) x.hash y.hash xs ys
          (hash_length b p x cx ∙ sym (hash_length b' q y cy)) (omega arith) vx vy same) [
            | inr found ↦ inr found
            | inl (hashes, rest) ↦ elim (step_committed b b' p q x y l cx cy hashes) [
              | inr found ↦ inr found
              | inl (prevs, entries) ↦ inl (prevs, (entries, hashes, rest))
            ]
          ]

    -- Where the digest has 32 bytes: two logs of the same length that both verify and end in the
    -- same hash hold, record for record, the same canonical bytes and the same hashes, or they
    -- exhibit two different byte sequences with one digest.
    pub verify_chain-commits :
        (xs ys : List (Record J))
        → length xs ≡ length ys
        → verify_chain xs ≡ none
        → verify_chain ys ≡ none
        → head_hash [] xs ≡ head_hash [] ys
        → SameContents xs ys ⊎ Collision c
    unfolding verify_chain verify_chain_from
    verify_chain-commits xs ys n hx hy same =
        elim (committed none none [] [] xs ys refl n hx hy same) [
          | inl (empty, contents) ↦ inl contents
          | inr found ↦ inr found
        ]
