-- ===== src/Audit/Paging.antt =====
-- Store.Verify reads the log page by page and reports what verifying the whole log at once does.
use mathlib.Core.Path.{ap₂}
use netra.Prelude.{
  ℕ, zero, suc, ◌<◌, ◌≡◌, refl, sym, ap, ◌∙◌, true, false, Option, none, some, List, [], ◌∷◌, ℤ,
  pos, ◌≤ℤ◌, ltb_ℤ, arith, length, take, drop, select, take-append-drop, length-drop-le, Bool-cases,
  inl, inr, if_false, if◌then◌else◌,
}
use netra.Audit.Chain.{
  Record, Encoding, ChainError, Bytes, out_of_order, check, verify_from, verify_chain,
  verify_chain_from,
}
use netra.Audit.Store.{
  Table, head_hash, last_seq, is_empty, report, list, page_size, verify_pages, verify,
}
use netra.Audit.Segments.{before_seq, first_error, verify_from-append}

module _ {J : Type 0} where
  -- The seqs grow, from one above the bound.
  abbrev pub Ascending : ℤ → List (Record J) → Type 0
  Ascending after [] = Unit
  Ascending after (r ∷ rest) = (ltb_ℤ after r.seq ≡ true) × Ascending r.seq rest

  -- The rows behind a seq.
  abbrev behind : ℤ → List (Record J) → List (Record J)
  behind after = select (λ r. ltb_ℤ after r.seq)

  behind_lower :
      (a b : ℤ) (rows : List (Record J)) → a ≤ℤ b → behind b rows ≡ behind b (behind a rows)
  behind_lower a b [] h = refl
  behind_lower a b (r ∷ rows) h = elim (Bool-cases (ltb_ℤ a r.seq)) [
    | inl e ↦ rw e (ap (λ rest. if ltb_ℤ b r.seq then r ∷ rest else rest) (behind_lower a b rows h))
    | inr e ↦
        let not_behind : ltb_ℤ b r.seq ≡ false = ground arith in
        rw (e, not_behind) (behind_lower a b rows h)
  ]

  Ascending-lower :
      (a b : ℤ) (rows : List (Record J)) → a ≤ℤ b → Ascending b rows → Ascending a rows
  Ascending-lower a b [] h asc = tt
  Ascending-lower a b (r ∷ rows) h asc = (ground arith, asc.1)

  behind_all : (a : ℤ) (rows : List (Record J)) → Ascending a rows → behind a rows ≡ rows
  behind_all a [] asc = refl
  behind_all a (r ∷ rows) asc = rw asc.0 (
      ap (λ rest. r ∷ rest) (behind_all a rows (Ascending-lower a r.seq rows (ground arith) asc.1)))

  last_seq-lower :
      (a : ℤ) (k : ℕ) (rows : List (Record J)) → Ascending a rows → a ≤ℤ last_seq a (take k rows)
  last_seq-lower a zero rows asc = omega arith
  last_seq-lower a (suc k) [] asc = omega arith
  last_seq-lower a (suc k) (r ∷ rows) asc =
      let rest = last_seq-lower r.seq k rows asc.1 in ground arith

  -- The rows behind the last one of a page are those that the page leaves.
  behind_page :
      (a : ℤ) (k : ℕ) (rows : List (Record J))
      → Ascending a rows
      → behind (last_seq a (take k rows)) rows ≡ drop k rows
  behind_page a zero rows asc = behind_all a rows asc
  behind_page a (suc k) [] asc = refl
  behind_page a (suc k) (r ∷ rows) asc =
      let reached = last_seq-lower r.seq k rows asc.1 in
      if_false (ltb_ℤ (last_seq r.seq (take k rows)) r.seq) _ _ (ground arith)
      ∙ behind_page r.seq k rows asc.1

  Ascending-page :
      (a : ℤ) (k : ℕ) (rows : List (Record J))
      → Ascending a rows
      → Ascending (last_seq a (take k rows)) (drop k rows)
  Ascending-page a zero rows asc = asc
  Ascending-page a (suc k) [] asc = tt
  Ascending-page a (suc k) (r ∷ rows) asc = Ascending-page r.seq k rows asc.1

  Ascending-take :
      (a : ℤ) (k : ℕ) (rows : List (Record J)) → Ascending a rows → Ascending a (take k rows)
  Ascending-take a zero rows asc = tt
  Ascending-take a (suc k) [] asc = tt
  Ascending-take a (suc k) (r ∷ rows) asc = (asc.0, Ascending-take r.seq k rows asc.1)

  before_page :
      (a : ℤ) (k : ℕ) (rows : List (Record J))
      → before_seq (some a) (take k rows) ≡ some (last_seq a (take k rows))
  before_page a zero rows = refl
  before_page a (suc k) [] = refl
  before_page a (suc k) (r ∷ rows) = before_page r.seq k rows

report_lem : (v w : Option ChainError) → report v (some w) ≡ some (first_error v w)
report_lem none w = refl
report_lem (some error) w = refl

module _ {J : Type 0} ⦃c : Encoding J⦄ where
  check-in_order :
      (b : Option ℤ) (prev : Bytes) (r : Record J)
      → out_of_order b r.seq ≡ false
      → check b prev r ≡ check none prev r
  unfolding check
  check-in_order b prev r h = if_false (out_of_order b r.seq) _ _ h

  -- On ascending rows the order check accepts also the first record of a page.
  verify_from-Ascending :
      (a : ℤ) (prev : Bytes) (rows : List (Record J))
      → Ascending a rows
      → verify_from (some a) prev rows ≡ verify_from none prev rows
  unfolding verify_from
  verify_from-Ascending a prev [] asc = refl
  verify_from-Ascending a prev (r ∷ rows) asc =
      ap (resume r rows) (check-in_order (some a) prev r (ground arith))
    where
      resume : Record J → List (Record J) → Option ChainError → Option ChainError
      resume r rows o = elim o [
        | some error ↦ some error
        | none ↦ verify_from (some r.seq) r.hash rows
      ]

  -- Verifying ascending rows is verifying a page of them and then what the page leaves.
  verify_page :
      (a : ℤ) (k : ℕ) (prev : Bytes) (rows : List (Record J))
      → Ascending a rows
      → let page = take (suc k) rows in
        verify_from none prev rows
        ≡ first_error
            (verify_from none prev page)
            (verify_from none (head_hash prev page) (drop (suc k) rows))
  verify_page a k prev rows asc =
      let page = take (suc k) rows in
      sym (verify_from-Ascending a prev rows asc)
      ∙ ap (verify_from (some a) prev) (sym (take-append-drop (suc k) rows))
      ∙ verify_from-append (some a) prev page (drop (suc k) rows)
      ∙ ap₂ first_error (verify_from-Ascending a prev page (Ascending-take a (suc k) rows asc)) (
          ap (λ b. verify_from b (head_hash prev page) (drop (suc k) rows))
            (before_page a (suc k) rows)
          ∙ verify_from-Ascending (last_seq a page) (head_hash prev page) (drop (suc k) rows)
              (Ascending-page a (suc k) rows asc))

  pages_lem :
      (fuel : ℕ) (rows rest : List (Record J)) (a : ℤ) (prev : Bytes)
      → behind a rows ≡ rest
      → Ascending a rest
      → length rest < fuel
      → verify_pages fuel rows a prev ≡ some (verify_from none prev rest)
  unfolding verify_pages list verify_chain_from
  pages_lem zero rows rest a prev e asc h = absurd (omega arith)
  pages_lem (suc fuel) rows [] a prev e asc h = rw e (unfold verify_from in refl)
  pages_lem (suc fuel) rows (r ∷ rest) a prev e asc h =
      let page = take 500 (r ∷ rest) in
      let whole : list rows a page_size ≡ page = ap (take 500) e in
      ap step whole
      ∙ ap (report (verify_from none prev page)) (
          pages_lem fuel rows (drop 500 (r ∷ rest)) (last_seq a page) (head_hash prev page)
            (behind_lower a (last_seq a page) rows (last_seq-lower a 500 (r ∷ rest) asc)
              ∙ ap (behind (last_seq a page)) e
              ∙ behind_page a 500 (r ∷ rest) asc)
            (Ascending-page a 500 (r ∷ rest) asc) (omega (arith, length-drop-le 499 rest)))
      ∙ report_lem (verify_from none prev page) _
      ∙ ap some (sym (verify_page a 499 prev (r ∷ rest) asc))
    where
      step : List (Record J) → Option (Option ChainError)
      step page =
          if is_empty page
          then some none
          else report (verify_from none prev page)
              (verify_pages fuel rows (last_seq a page) (head_hash prev page))

  -- On rows whose seqs are positive and ascend, with more fuel than there are rows, Verify answers,
  -- and its answer is that of verifying the whole chain at once: no error is missed or added at the
  -- borders between the pages of 500 records.
  pub verify-pagewise :
      (fuel : ℕ) (t : Table J)
      → Ascending (pos 0) t.rows
      → length t.rows < fuel
      → verify fuel t ≡ some (verify_chain t.rows)
  unfolding verify verify_chain verify_chain_from
  verify-pagewise fuel t asc h =
      pages_lem fuel t.rows t.rows (pos 0) [] (behind_all (pos 0) t.rows asc) asc h
