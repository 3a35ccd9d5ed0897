-- ===== src/Customers/Merge/Roundtrip.antt =====
-- Approving a merge and rolling it back.
use nexus_efos.Common.{
  ℕ, ◌≡◌, ◌≢◌, ◌⊎◌, refl, ap, ◌∙◌, true, false, some, List, [], ◌∷◌, ◌++◌, ◌==◌, if◌then◌else◌,
  arith, Bool-cases, inl, inr, ==_iff,
}
use nexus_efos.Common.Table.{Table, get, set, IsNodup, get-set_self}
use nexus_efos.Common.Result.{ok}
use nexus_efos.Customers.Merge.{
  MergeDb, MergeRecord, MergeRecordStatus, Tables, ids_of, move, reassign, give_back,
  active_customer, merged_into_customer, customer_referencing_models, execute_customer_merge,
  rollback_customer_merge, apply_merge, rollback,
}
use nexus_efos.Customers.Merge.Models.{
  is_in, IsDistinct, restored, restored_lem, reassign-records, reassign-tables,
  give_back-records_of,
}

-- Rows that come after the merge.
abbrev pub with_extra : Tables → MergeDb → MergeDb
with_extra extra db = record db { tables = λ m. db.tables m ++ extra m }

set-set {ℓ} : {V : Type ℓ} (k : ℕ) (v w : V) (t : Table V) → set k v (set k w t) ≡ set k v t
set-set k v w [] = simp ((==_iff k k).1 refl)
set-set k v w ((j, x) ∷ t) = elim (Bool-cases (k == j)) [
  | inl same ↦ rw same (rw same refl)
  | inr other ↦ rw other (rw other (ap (λ r. (j, x) ∷ r) (set-set k v w t)))
]

set_same {ℓ} : {V : Type ℓ} (k : ℕ) (v : V) (t : Table V) → get k t ≡ some v → set k v t ≡ t
set_same k v [] h = cc
set_same k v ((j, x) ∷ t) h = elim (Bool-cases (k == j)) [
  | inl same ↦ rw same (ap (λ y. (j, y) ∷ t) (inj (rw same at h)))
  | inr other ↦ rw other (ap (λ r. (j, x) ∷ r) (set_same k v t (rw other at h)))
]
  where
    inj : some x ≡ some v → v ≡ x
    inj e = cc

ids_of-move :
    (source primary : ℕ) (t : Table ℕ)
    → (primary == source) ≡ false
    → ids_of source (move source primary t) ≡ []
ids_of-move source primary [] h = refl
ids_of-move source primary ((i, c) ∷ t) h = elim (Bool-cases (c == source)) [
  | inl own ↦ rw own (rw h (ids_of-move source primary t h))
  | inr other ↦ rw other (rw other (ids_of-move source primary t h))
]

module _ (id : ℕ) (merge : MergeRecord) (db : MergeDb) (known : get id db.merges ≡ some merge)
    (was_active : get merge.merged_customer db.customers ≡ some active_customer) where
  abbrev primary : ℕ
  primary = merge.primary_customer

  abbrev source : ℕ
  source = merge.merged_customer

  abbrev reassigned_records : List (ℕ × ℕ)
  reassigned_records = (reassign primary source customer_referencing_models db.tables).1

  abbrev approved_merge : MergeRecord
  approved_merge = record merge {
    status = MergeRecordStatus.approved;
    reassigned = some reassigned_records;
  }

  merged_db : MergeDb
  merged_db = record {
    tables = (reassign primary source customer_referencing_models db.tables).0;
    customers = set source (merged_into_customer primary) db.customers;
    merges = set id approved_merge db.merges;
  }

  apply_merge_lem : apply_merge id db ≡ ok merged_db
  unfolding apply_merge execute_customer_merge merged_db
  apply_merge_lem = rw (known, was_active) refl

  models-IsDistinct : IsDistinct customer_referencing_models
  models-IsDistinct =
      (refl, (refl, (refl, (refl, (refl, (refl, (refl, (refl, (refl, (refl, tt))))))))))

  module _ (extra : Tables) (distinct_rows : (m : ℕ) → IsNodup (db.tables m ++ extra m)) where
    abbrev grown : Tables
    grown m = (reassign primary source customer_referencing_models db.tables).0 m ++ extra m

    rolled_back_db : MergeDb
    rolled_back_db = record {
      tables = restored customer_referencing_models db.tables extra grown;
      customers =
          set source active_customer (set source (merged_into_customer primary) db.customers);
      merges =
          set id (record approved_merge { status = MergeRecordStatus.rolled_back })
            (set id approved_merge db.merges);
    }

    given_back : give_back source reassigned_records grown ≡ some rolled_back_db.tables
    unfolding rolled_back_db
    given_back =
        ap (λ r. give_back source r grown)
          (reassign-records primary source customer_referencing_models db.tables models-IsDistinct)
        ∙ give_back-records_of primary source db.tables extra distinct_rows
            customer_referencing_models grown models-IsDistinct
            (λ m here.
              ap (λ t. t ++ extra m)
                (reassign-tables primary source customer_referencing_models db.tables m
                    models-IsDistinct
                  ∙ rw here refl))

    rollback_lem : rollback id true (with_extra extra merged_db) ≡ ok rolled_back_db
    unfolding rollback rollback_customer_merge merged_db
    rollback_lem = rw (get-set_self id approved_merge db.merges) (
        rw given_back (
          rw (get-set_self source (merged_into_customer primary) db.customers)
            (unfold rolled_back_db in refl)))

    restored_tables : (m : ℕ) → rolled_back_db.tables m ≡ db.tables m ++ extra m
    unfolding rolled_back_db
    restored_tables m =
        restored_lem customer_referencing_models db.tables extra grown m
        ∙ by_model (Bool-cases (is_in m customer_referencing_models))
      where
        by_model :
            ((is_in m customer_referencing_models ≡ true)
              ⊎ (is_in m customer_referencing_models ≡ false))
            → (if is_in m customer_referencing_models then db.tables m ++ extra m else grown m)
              ≡ db.tables m ++ extra m
        by_model (inl here) = rw here refl
        by_model (inr other) = rw other (
            ap (λ t. t ++ extra m)
              (reassign-tables primary source customer_referencing_models db.tables m
                  models-IsDistinct
                ∙ rw other refl))

    restored_customers : rolled_back_db.customers ≡ db.customers
    unfolding rolled_back_db
    restored_customers =
        set-set source active_customer (merged_into_customer primary) db.customers
        ∙ set_same source active_customer db.customers was_active

    all_moved :
        (primary == source) ≡ false
        → (m : ℕ) → is_in m customer_referencing_models ≡ true
        → ids_of source (merged_db.tables m) ≡ []
    unfolding merged_db
    all_moved differ m here =
        ap (ids_of source) (
          reassign-tables primary source customer_referencing_models db.tables m models-IsDistinct
          ∙ rw here refl)
        ∙ ids_of-move source primary (db.tables m) differ

-- A merge that is approved while the merged customer is active, and is not the primary one, leaves no
-- row of the ten models with the merged customer. Rolling it back succeeds and gives every table as it
-- was before the merge, followed by the rows that were added since, and the customers as they were;
-- if no id stands twice in a table.
pub rollback-apply_merge :
    (id : ℕ) (merge : MergeRecord) (db : MergeDb) (extra : Tables)
    → get id db.merges ≡ some merge
    → get merge.merged_customer db.customers ≡ some active_customer
    → merge.primary_customer ≢ merge.merged_customer
    → ((m : ℕ) → IsNodup (db.tables m ++ extra m))
    → (merged_db : MergeDb) × (apply_merge id db ≡ ok merged_db)
      × ((m : ℕ)
          → is_in m customer_referencing_models ≡ true
          → ids_of merge.merged_customer (merged_db.tables m) ≡ [])
      × (db' : MergeDb) × (rollback id true (with_extra extra merged_db) ≡ ok db')
      × ((m : ℕ) → db'.tables m ≡ db.tables m ++ extra m)
      × (db'.customers ≡ db.customers)
rollback-apply_merge id merge db extra known was_active differ distinct_rows = (
  merged_db id merge db known was_active,
  apply_merge_lem id merge db known was_active,
  all_moved id merge db known was_active extra distinct_rows
      (differs merge.primary_customer merge.merged_customer differ),
  rolled_back_db id merge db known was_active extra distinct_rows,
  rollback_lem id merge db known was_active extra distinct_rows,
  restored_tables id merge db known was_active extra distinct_rows,
  restored_customers id merge db known was_active extra distinct_rows,
)
  where
    differs : (a b : ℕ) → a ≢ b → (a == b) ≡ false
    differs a b h = ground arith
