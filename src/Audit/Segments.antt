-- ===== src/Audit/Segments.antt =====
-- A chain is verified in segments: what VerifyChainFrom says of a log and of its continuation.
use netra.Prelude.{
  ◌≡◌, refl, sym, ◌∙◌, Option, none, some, List, [], ◌∷◌, ◌++◌, ℤ, Option-cases, inl, inr,
}
use netra.Audit.Chain.{Record, Encoding, ChainError, Bytes, check, verify_from}
use netra.Audit.Store.{head_hash}

abbrev pub before_seq : {J : Type 0} → Option ℤ → List (Record J) → Option ℤ
before_seq before [] = before
before_seq before (r ∷ rest) = before_seq (some r.seq) rest

-- The first error of two checks made one after the other.
abbrev pub first_error : Option ChainError → Option ChainError → Option ChainError
first_error none y = y
first_error (some e) y = some e

module _ {J : Type 0} ⦃c : Encoding J⦄ where
  -- Verifying a log and its continuation reports the first error of the log, and else what
  -- verifying the continuation from the log's last record reports.
  pub verify_from-append :
      (before : Option ℤ) (prev : Bytes) (xs ys : List (Record J))
      → verify_from before prev (xs ++ ys)
        ≡ first_error
            (verify_from before prev xs)
            (verify_from (before_seq before xs) (head_hash prev xs) ys)
  unfolding verify_from
  verify_from-append before prev [] ys = refl
  verify_from-append before prev (r ∷ rest) ys = elim (Option-cases (check before prev r)) [
    | inl e ↦ rw (e, verify_from) (verify_from-append (some r.seq) r.hash rest ys)
    | inr (error, e) ↦ rw (e, verify_from) refl
  ]

  -- An accepted record hands the verification on to the rest.
  pub verify_from-cons :
      (before : Option ℤ) (prev : Bytes) (r : Record J) (rest : List (Record J))
      → check before prev r ≡ none
      → verify_from before prev (r ∷ rest) ≡ verify_from (some r.seq) r.hash rest
  unfolding verify_from
  verify_from-cons before prev r rest e = rw (e, verify_from) refl

  -- A verified log has an accepted first record and a verified rest.
  pub verify_from-cons_inv :
      (before : Option ℤ) (prev : Bytes) (r : Record J) (rest : List (Record J))
      → verify_from before prev (r ∷ rest) ≡ none
      → (check before prev r ≡ none) × (verify_from (some r.seq) r.hash rest ≡ none)
  verify_from-cons_inv before prev r rest h = elim (Option-cases (check before prev r)) [
    | inl e ↦ (e, sym (verify_from-cons before prev r rest e) ∙ h)
    | inr (error, e) ↦ absurd (rejected error e)
  ]
    where
      rejected : (error : ChainError) → check before prev r ≡ some error → ⊥
      rejected error e =
          let stop : verify_from before prev (r ∷ rest) ≡ some error =
            unfold verify_from in rw (e, verify_from) refl in
          cc
