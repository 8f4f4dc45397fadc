-- ===== src/Examples/Releases.antt =====
-- security/embargo.py: a run of the release over one table, and an early release.
use fragchain_core.Prelude.{false, none, some, List, [], ◌∷◌, ◌≡◌, refl, map}
use fragchain_core.Embargo.Release.{Registry, Row, Store, release_expired, release_one, one_of}
use fragchain_core.Embargo.Release.Laws.{AllKeyed, release_row, tables-release_expired}

abbrev registry : Registry
registry = record { table = "cves"; entity_type = "cve" } ∷ []

abbrev cve_rows : List Row
cve_rows =
    record { id = 1; embargo_until = some 50 } ∷ record { id = 2; embargo_until = some 150 } ∷ []

abbrev store : Store
store = record {
  tables = λ t. cve_rows;
  participants = record { user_id = 7; entity_type = "cve"; entity_id = 1 } ∷ [];
  audit_log = [];
}

store_keyed : AllKeyed store
unfolding one_of
store_keyed t = (refl, (refl, tt))

tables-release_expired_example :
    (release_expired 100 none registry store).0.tables "cves" ≡ map (release_row 100) cve_rows
tables-release_expired_example = tables-release_expired 100 none registry store "cves" store_keyed

refused : (release_one 100 registry store "rule" 2 7 none).1 ≡ false
unfolding release_one
refused = refl
