-- ===== src/Customers/Merge/Tests.antt =====
-- Customer 2 is merged into customer 1, who gets a new loan before the rollback.
use nexus_efos.Common.{
  ℕ, ◌≡◌, refl, true, none, [], ◌∷◌, ◌++◌, ◌==◌, if◌then◌else◌, arith, Bool-cases, inl, inr,
}
use nexus_efos.Common.Table.{IsNodup}
use nexus_efos.Common.Result.{ok}
use nexus_efos.Customers.Merge.{
  MergeDb, MergeRecord, MergeRecordStatus, Tables, ids_of, active_customer,
  customer_referencing_models, request_merge, apply_merge, rollback,
}
use nexus_efos.Customers.Merge.Models.{is_in}
use nexus_efos.Customers.Merge.Roundtrip.{with_extra, rollback-apply_merge}

abbrev tables : Tables
tables m = if m == 4 then (10, 1) ∷ (11, 2) ∷ [] else []

abbrev extra : Tables
extra m = if m == 4 then (12, 1) ∷ [] else []

abbrev merge : MergeRecord
merge = record {
  primary_customer = 1;
  merged_customer = 2;
  status = MergeRecordStatus.pending_approval;
  reassigned = none;
}

abbrev db : MergeDb
db = record {
  tables = tables;
  customers = (1, active_customer) ∷ (2, active_customer) ∷ [];
  merges = (7, merge) ∷ [];
}

requested : request_merge 7 1 2 (record db { merges = [] }) ≡ ok db
unfolding request_merge
requested = refl

distinct_rows : (m : ℕ) → IsNodup (tables m ++ extra m)
distinct_rows m = elim (Bool-cases (m == 4)) [
  | inl loans ↦ rw loans (omega arith)
  | inr other ↦ rw other tt
]

rollback-apply_merge_example :
    (merged_db : MergeDb) × (apply_merge 7 db ≡ ok merged_db)
    × ((m : ℕ) → is_in m customer_referencing_models ≡ true → ids_of 2 (merged_db.tables m) ≡ [])
    × (db' : MergeDb) × (rollback 7 true (with_extra extra merged_db) ≡ ok db')
    × ((m : ℕ) → db'.tables m ≡ tables m ++ extra m)
    × (db'.customers ≡ db.customers)
rollback-apply_merge_example =
    rollback-apply_merge 7 merge db extra refl refl (ground arith) distinct_rows
