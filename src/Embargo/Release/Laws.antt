-- ===== src/Embargo/Release/Laws.antt =====
-- What a run of the release task leaves behind.
use mathlib.Core.List.{append_assoc, append-nil}
use mathlib.Core.List.{map-append}
use fragchain_core.Prelude.{
  ℕ, String, ◌≡◌, refl, ap, sym, subst, ◌∙◌, ◌↔◌, inl, inr, true, false, Option, none, List, [],
  ◌∷◌, ◌++◌, map, arith, All, any, length, ltb, Bool-cases, str_eq, eq_iff, if◌then◌else◌,
}
use fragchain_core.Embargo.Release.{
  EmbargoedTable, Registry, Row, Store, is_expired, one_of, clear_embargo, update_table, Released,
  audit_release, expired_ids, releases, release_ids, release_table, release_from, release_expired,
}

-- The effect on one row that the release is meant to have.
unfoldable pub release_row : ℕ → Row → Row
unfolding is_expired
release_row now r = if is_expired now r then record r { embargo_until = none } else r

abbrev pub ids_of : List Row → List ℕ
ids_of rows = map (λ r. r.id) rows

-- The key of a table: no two rows have the same id.
abbrev pub IsKeyed : List Row → Type 0
IsKeyed [] = Unit
IsKeyed (r ∷ rows) = (one_of (ids_of rows) r.id ≡ false) × IsKeyed rows

module _ (now : ℕ) where
  abbrev IsExact : List ℕ → List Row → Type 0
  IsExact ids rows = All (λ r. one_of ids r.id ≡ is_expired now r) rows

  clear-exact :
      (ids : List ℕ) (rows : List Row)
      → IsExact ids rows
      → clear_embargo ids rows ≡ map (release_row now) rows
  unfolding clear_embargo release_row
  clear-exact ids [] h = refl
  clear-exact ids (r ∷ rows) (e, h) = cc (clear-exact ids rows h, first)
    where
      first : (if one_of ids r.id then record r { embargo_until = none } else r) ≡ release_row now r
      first = rw e refl

  IsExact-cons :
      (i : ℕ) (ids : List ℕ) (rows : List Row)
      → one_of (ids_of rows) i ≡ false
      → IsExact ids rows
      → IsExact (i ∷ ids) rows
  unfolding one_of
  IsExact-cons i ids [] other h = tt
  IsExact-cons i ids (r ∷ rows) other (e, h) =
      (ground arith, IsExact-cons i ids rows (ground arith) h)

  expired_ids-le :
      (i : ℕ) (rows : List Row)
      → one_of (ids_of rows) i ≡ false
      → one_of (expired_ids now rows) i ≡ false
  unfolding one_of
  expired_ids-le i [] h = refl
  expired_ids-le i (r ∷ rows) h = ground (arith, expired_ids-le i rows)

  expired_ids-true :
      (r : Row) (rows : List Row)
      → is_expired now r ≡ true
      → expired_ids now (r ∷ rows) ≡ r.id ∷ expired_ids now rows
  expired_ids-true r rows e = rw e

  expired_ids-false :
      (r : Row) (rows : List Row)
      → is_expired now r ≡ false
      → expired_ids now (r ∷ rows) ≡ expired_ids now rows
  expired_ids-false r rows e = rw e

  one_of_self : (i : ℕ) (ids : List ℕ) → one_of (i ∷ ids) i ≡ true
  unfolding one_of
  one_of_self i ids = ground arith

  expired_ids-IsExact : (rows : List Row) → IsKeyed rows → IsExact (expired_ids now rows) rows
  expired_ids-IsExact [] k = tt
  expired_ids-IsExact (r ∷ rows) (other, k) =
      let rest = expired_ids-IsExact rows k in
      elim (Bool-cases (is_expired now r)) [
        | inl e ↦
            subst (λ ids. IsExact ids (r ∷ rows)) (sym (expired_ids-true r rows e))
              (one_of_self r.id _ ∙ sym e, IsExact-cons r.id _ rows other rest)
        | inr e ↦
            subst (λ ids. IsExact ids (r ∷ rows)) (sym (expired_ids-false r rows e))
              (expired_ids-le r.id rows other ∙ sym e, rest)
      ]

  -- What the two statements do to a table with a key, row by row.
  clear-expired :
      (rows : List Row)
      → IsKeyed rows
      → clear_embargo (expired_ids now rows) rows ≡ map (release_row now) rows
  clear-expired rows k = clear-exact _ rows (expired_ids-IsExact rows k)

  clear-nil : (rows : List Row) → clear_embargo [] rows ≡ rows
  unfolding clear_embargo one_of
  clear-nil [] = refl
  clear-nil (r ∷ rows) = ap (λ l. r ∷ l) (clear-nil rows)

  ids-release : (rows : List Row) → ids_of (map (release_row now) rows) ≡ ids_of rows
  unfolding release_row
  ids-release [] = refl
  ids-release (r ∷ rows) = ground (arith, ids-release rows)

  release_row_id : (r : Row) → (release_row now r).id ≡ r.id
  unfolding release_row
  release_row_id r = ground arith

  IsKeyed-release : (rows : List Row) → IsKeyed rows → IsKeyed (map (release_row now) rows)
  IsKeyed-release [] k = tt
  IsKeyed-release (r ∷ rows) (other, k) =
      (rw (ids-release rows, release_row_id r) other, IsKeyed-release rows k)

  release_row_idem : (r : Row) → release_row now (release_row now r) ≡ release_row now r
  unfolding release_row is_expired
  release_row_idem r = ground arith

  map-release_idem :
      (rows : List Row)
      → map (release_row now) (map (release_row now) rows) ≡ map (release_row now) rows
  map-release_idem [] = refl
  map-release_idem (r ∷ rows) = cc (release_row_idem r, map-release_idem rows)

abbrev pub AllKeyed : Store → Type 0
AllKeyed s = (t : String) → IsKeyed (s.tables t)

module _ (now : ℕ) (actor : Option ℕ) where
  tables-release_ids :
      (spec : EmbargoedTable) (ids : List ℕ) (s : Store) (released : List Released) (t : String)
      → clear_embargo ids (s.tables spec.table) ≡ map (release_row now) (s.tables spec.table)
      → (release_ids now actor spec ids (s, released)).0.tables t
        ≡ (if str_eq spec.table t then map (release_row now) (s.tables t) else s.tables t)
  unfolding release_ids update_table
  tables-release_ids spec [] s released t e = elim (Bool-cases (str_eq spec.table t)) [
    | inl same ↦ rw same (
        subst (λ n. s.tables n ≡ map (release_row now) (s.tables n)) ((eq_iff spec.table t).0 same)
          (sym (clear-nil now _) ∙ e))
    | inr other ↦ rw other
  ]
  tables-release_ids spec (i ∷ ids) s released t e = elim (Bool-cases (str_eq spec.table t)) [
    | inl same ↦
        rw same (e ∙ ap (λ n. map (release_row now) (s.tables n)) ((eq_iff spec.table t).0 same))
    | inr other ↦ rw other
  ]

  tables-release_table :
      (spec : EmbargoedTable) (s : Store) (released : List Released) (t : String)
      → AllKeyed s
      → (release_table now actor spec (s, released)).0.tables t
        ≡ (if str_eq spec.table t then map (release_row now) (s.tables t) else s.tables t)
  unfolding release_table
  tables-release_table spec s released t keyed =
      tables-release_ids spec _ s released t (clear-expired now _ (keyed spec.table))

  AllKeyed-release_table :
      (spec : EmbargoedTable) (s : Store) (released : List Released)
      → AllKeyed s
      → AllKeyed (release_table now actor spec (s, released)).0
  AllKeyed-release_table spec s released keyed t =
      rw (tables-release_table spec s released t keyed) (elim (Bool-cases (str_eq spec.table t)) [
        | inl same ↦ rw same (IsKeyed-release now _ (keyed t))
        | inr other ↦ rw other (keyed t)
      ])

  abbrev after : Registry → String → List Row → List Row
  after registry t rows =
      if any (λ spec. str_eq spec.table t) registry then map (release_row now) rows else rows

  after-cons :
      (spec : EmbargoedTable) (registry : Registry) (t : String) (rows : List Row)
      → after registry t (if str_eq spec.table t then map (release_row now) rows else rows)
        ≡ after (spec ∷ registry) t rows
  after-cons spec registry t rows = ground (arith, map-release_idem now rows)

  tables-release_from :
      (registry : Registry) (s : Store) (released : List Released) (t : String)
      → AllKeyed s
      → (release_from now actor registry (s, released)).0.tables t ≡ after registry t (s.tables t)
  unfolding release_from
  tables-release_from [] s released t keyed = refl
  tables-release_from (spec ∷ registry) s released t keyed =
      let (s', released') = release_table now actor spec (s, released) in
      tables-release_from registry s' released' t (AllKeyed-release_table spec s released keyed)
      ∙ ap (after registry t) (tables-release_table spec s released t keyed)
      ∙ after-cons spec registry t (s.tables t)

  audit-release_ids :
      (spec : EmbargoedTable) (ids : List ℕ) (s : Store) (released : List Released)
      → (more : List Released) × ((release_ids now actor spec ids (s, released)).1
          ≡ released ++ more)
        × ((release_ids now actor spec ids (s, released)).0.audit_log
            ≡ s.audit_log ++ map (audit_release now actor) more)
  unfolding release_ids
  audit-release_ids spec [] s released = ([], sym (append-nil _), sym (append-nil _))
  audit-release_ids spec (i ∷ ids) s released =
      (releases now spec.entity_type (i ∷ ids), refl, refl)

  audit-release_from :
      (registry : Registry) (s : Store) (released : List Released)
      → (more : List Released) × ((release_from now actor registry (s, released)).1
          ≡ released ++ more)
        × ((release_from now actor registry (s, released)).0.audit_log
            ≡ s.audit_log ++ map (audit_release now actor) more)
  unfolding release_from release_table
  audit-release_from [] s released = ([], sym (append-nil _), sym (append-nil _))
  audit-release_from (spec ∷ registry) s released =
      let ids = expired_ids now (s.tables spec.table) in
      let (s', released') = release_ids now actor spec ids (s, released) in
      let (new, e, f) = audit-release_ids spec ids s released in
      let (more, e', f') = audit-release_from registry s' released' in
      (
        new ++ more,
        e' ∙ ap (λ l. l ++ more) e ∙ append_assoc released new more,
        f'
            ∙ ap (λ l. l ++ map (audit_release now actor) more) f
            ∙ append_assoc s.audit_log _ _
            ∙ ap (λ l. s.audit_log ++ l) (sym (map-append _ new more)),
      )

length-eq-zero {ℓ} : {A : Type ℓ} (l : List A) → (ltb 0 (length l) ≡ false) ↔ (l ≡ [])
length-eq-zero [] = (λ _. refl, λ _. refl)
length-eq-zero (x ∷ l) = (λ h. ground arith, λ h. cc)

-- In a store whose tables hold each id once, a run of the release clears exactly the embargoes that have passed, in exactly the registered
-- tables, and changes nothing else of a row; every table keeps its rows and its key.
pub tables-release_expired :
    (now : ℕ) (actor : Option ℕ) (registry : Registry) (s : Store) (t : String)
    → AllKeyed s
    → (release_expired now actor registry s).0.tables t ≡ (
        if any (λ spec. str_eq spec.table t) registry
        then map (release_row now) (s.tables t)
        else s.tables t)
unfolding release_expired
tables-release_expired now actor registry s t keyed =
    tables-release_from now actor registry s [] t keyed

-- Every entity that a run reports has one new audit row, in order, and no other row is written; the
-- session is committed exactly when something was released.
audit-release_expired :
    (now : ℕ) (actor : Option ℕ) (registry : Registry) (s : Store)
    → let (s', released, committed) = release_expired now actor registry s in
      (s'.audit_log ≡ s.audit_log ++ map (audit_release now actor) released)
      × ((committed ≡ false) ↔ (released ≡ []))
unfolding release_expired
audit-release_expired now actor registry s =
    let (more, e, f) = audit-release_from now actor registry s [] in
    (f ∙ ap (λ l. s.audit_log ++ map (audit_release now actor) l) (sym e), length-eq-zero _)
