-- ===== src/Customers/Merge.antt =====
-- Merging customers, api/src/lib/customerMerge.ts, the merge routes of api/src/routes/customer.routes.ts
-- and the case CUSTOMER_MERGE of api/src/routes/approvals.routes.ts. A model is a number: those of
-- CUSTOMER_REFERENCING_MODELS are the numbers 0 to 9 in their order. A model's rows are a table
-- from their ids to their customers.
mod Tests
pub mod Rollback
pub mod Models
pub mod Roundtrip
use nexus_efos.Common.{
  ℕ, Bool, true, false, not, ◌&&◌, Option, none, some, List, [], ◌∷◌, ◌++◌, map, ◌==◌,
  if◌then◌else◌,
}
use nexus_efos.Common.Table.{Table, get, set}
use nexus_efos.Common.Result.{
  Result, ok, guard, require, ◌>>=◌, ◌>>◌, bad_request, not_found, server_error,
}

pub data MergeStatus : Type 0 where
  active merged : MergeStatus

pub record MergeCustomer : Type 0 where
  pub merge_status : MergeStatus
  pub merged_into : Option ℕ

pub data MergeRecordStatus : Type 0 where
  pending_approval approved rejected rolled_back : MergeRecordStatus

pub record MergeRecord : Type 0 where
  pub primary_customer : ℕ
  pub merged_customer : ℕ
  pub status : MergeRecordStatus
  pub reassigned : Option (List (ℕ × ℕ))

abbrev pub Tables : Type 0
Tables = ℕ → Table ℕ

pub record MergeDb : Type 0 where
  pub tables : Tables
  pub customers : Table MergeCustomer
  pub merges : Table MergeRecord

abbrev pub customer_referencing_models : List ℕ
customer_referencing_models = 0 ∷ 1 ∷ 2 ∷ 3 ∷ 4 ∷ 5 ∷ 6 ∷ 7 ∷ 8 ∷ 9 ∷ []

abbrev pub update : ℕ → Table ℕ → Tables → Tables
update m t tables m' = if m' == m then t else tables m'

-- `findMany({ where: { customerId } })`, and `updateMany` of the same rows.
abbrev pub ids_of : ℕ → Table ℕ → List ℕ
ids_of customer [] = []
ids_of customer ((i, c) ∷ t) =
    let rest = ids_of customer t in if c == customer then i ∷ rest else rest

abbrev pub move : ℕ → ℕ → Table ℕ → Table ℕ
move from to [] = []
move from to ((i, c) ∷ t) = (i, if c == from then to else c) ∷ move from to t

abbrev pub tagged : ℕ → List ℕ → List (ℕ × ℕ)
tagged m [] = []
tagged m (i ∷ ids) = (m, i) ∷ tagged m ids

-- The loop over the models: the tables and the reassigned records.
abbrev pub reassign : ℕ → ℕ → List ℕ → Tables → Tables × List (ℕ × ℕ)
reassign primary source [] tables = (tables, [])
reassign primary source (m ∷ models) tables =
    let rest = reassign primary source models (update m (move source primary (tables m)) tables) in
    (rest.0, tagged m (ids_of source (tables m)) ++ rest.1)

abbrev pub then_with {ℓ κ} : {A : Type ℓ} {B : Type κ} → Option A → (A → Option B) → Option B
then_with none rest = none
then_with (some a) rest = rest a

-- `customer.update`
abbrev pub put_customer : ℕ → MergeCustomer → Option MergeCustomer → MergeDb → Option MergeDb
put_customer id customer none db = none
put_customer id customer (some known) db =
    some (record db { customers = set id customer db.customers })

abbrev pub merged_into_customer : ℕ → MergeCustomer
merged_into_customer primary = record {
  merge_status = MergeStatus.merged;
  merged_into = some primary;
}

abbrev pub active_customer : MergeCustomer
active_customer = record { merge_status = MergeStatus.active; merged_into = none }

unfoldable pub execute_customer_merge : ℕ → ℕ → MergeDb → Option (MergeDb × List (ℕ × ℕ))
execute_customer_merge primary source db =
    let done = reassign primary source customer_referencing_models db.tables in
    then_with
      (put_customer source (merged_into_customer primary) (get source db.customers)
        (record db { tables = done.0 }))
      (λ (db' : MergeDb). some (db', done.1))

-- `update` of one row; `none` is the exception of a missing row.
abbrev pub put_row : ℕ → ℕ → Option ℕ → Table ℕ → Option (Table ℕ)
put_row source i none t = none
put_row source i (some c) t = some (set i source t)

-- The loop of the rollback.
abbrev pub give_back : ℕ → List (ℕ × ℕ) → Tables → Option Tables
give_back source [] tables = some tables
give_back source ((m, i) ∷ records) tables =
    then_with (put_row source i (get i (tables m)) (tables m))
      (λ t. give_back source records (update m t tables))

unfoldable pub rollback_customer_merge : ℕ → List (ℕ × ℕ) → MergeDb → Option MergeDb
rollback_customer_merge source records db =
    then_with (give_back source records db.tables) (λ tables.
      put_customer source active_customer (get source db.customers) (record db { tables = tables }))

abbrev is_active : MergeStatus → Bool
is_active MergeStatus.active = true
is_active MergeStatus.merged = false

abbrev is_approved : MergeRecordStatus → Bool
is_approved MergeRecordStatus.approved = true
is_approved _ = false

abbrev is_free : Option MergeRecord → Bool
is_free none = true
is_free (some known) = false

-- `/merge-requests`
unfoldable pub request_merge : ℕ → ℕ → ℕ → MergeDb → Result MergeDb
request_merge id primary source db = do
  guard (not (primary == source)) bad_request
  a ← require (get primary db.customers) not_found
  b ← require (get source db.customers) not_found
  guard (is_active a.merge_status && is_active b.merge_status) not_found
  guard (is_free (get id db.merges)) server_error
  ok (record db {
    merges =
        set id
          (record {
            primary_customer = primary;
            merged_customer = source;
            status = MergeRecordStatus.pending_approval;
            reassigned = none;
          })
          db.merges;
  })

-- The case of `applyApproval`.
unfoldable pub apply_merge : ℕ → MergeDb → Result MergeDb
apply_merge id db = do
  merge ← require (get id db.merges) server_error
  done ←
      require (execute_customer_merge merge.primary_customer merge.merged_customer db) server_error
  ok (record done.0 {
    merges =
        set id (record merge { status = MergeRecordStatus.approved; reassigned = some done.1 })
          db.merges;
  })

-- `/merge-requests/:id/rollback`; the flag says whether a reason was given.
unfoldable pub rollback : ℕ → Bool → MergeDb → Result MergeDb
rollback id has_reason db = do
  guard has_reason bad_request
  merge ← require (get id db.merges) not_found
  guard (is_approved merge.status) not_found
  records ← require merge.reassigned bad_request
  db' ← require (rollback_customer_merge merge.merged_customer records db) server_error
  ok (record db' {
    merges = set id (record merge { status = MergeRecordStatus.rolled_back }) db.merges;
  })
