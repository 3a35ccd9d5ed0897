-- ===== src/Customers/Merge/Models.antt =====
-- The merge and its rollback over all the models.
use mathlib.Core.Path.{fun_ext}
use nexus_efos.Common.{
  ℕ, ◌≡◌, ◌⊎◌, refl, sym, ap, ap₂, ◌∙◌, Bool, true, false, Option, none, some, List, [], ◌∷◌, ◌++◌,
  ◌==◌, if◌then◌else◌, arith, any, Bool-cases, inl, inr, ==_iff,
}
use nexus_efos.Common.Table.{Table, get, set, IsNodup}
use nexus_efos.Customers.Merge.{
  Tables, update, ids_of, move, tagged, reassign, put_row, then_with, give_back,
}
use nexus_efos.Customers.Merge.Rollback.{restore, restore-move}

update_self : (m : ℕ) (t : Table ℕ) (tables : Tables) → update m t tables m ≡ t
update_self m t tables = rw ((==_iff m m).1 refl) refl

update_ne :
    (m k : ℕ) (t : Table ℕ) (tables : Tables) → (k == m) ≡ false → update m t tables k ≡ tables k
update_ne m k t tables h = rw h refl

update_twice :
    (m : ℕ) (t t' : Table ℕ) (tables : Tables)
    → update m t' (update m t tables) ≡ update m t' tables
update_twice m t t' tables = fun_ext (λ k. same k (k == m))
  where
    same :
        (k : ℕ) (b : Bool)
        → (if b then t' else (if b then t else tables k)) ≡ (if b then t' else tables k)
    same k true = refl
    same k false = refl

update_id : (m : ℕ) (tables : Tables) → update m (tables m) tables ≡ tables
update_id m tables = fun_ext (λ k. same k (Bool-cases (k == m)))
  where
    same :
        (k : ℕ) → ((k == m) ≡ true) ⊎ ((k == m) ≡ false) → update m (tables m) tables k ≡ tables k
    same k (inl e) = rw e (ap tables (sym ((==_iff k m).0 e)))
    same k (inr e) = rw e refl

-- The rollback of one model's records is one of its table.
give_back-tagged :
    (source m : ℕ) (ids : List ℕ) (records : List (ℕ × ℕ)) (t : Table ℕ) (tables : Tables)
    → give_back source (tagged m ids ++ records) (update m t tables)
      ≡ then_with (restore source ids t) (λ t'. give_back source records (update m t' tables))
give_back-tagged source m [] records t tables = refl
give_back-tagged source m (i ∷ ids) records t tables =
    rw (update_self m t tables)
      (by_row (get i t) (λ t'. give_back-tagged source m ids records t' tables))
  where
    by_row :
        (o : Option ℕ)
        → ((t' : Table ℕ)
            → give_back source (tagged m ids ++ records) (update m t' tables)
              ≡ then_with
                  (restore source ids t')
                  (λ t''. give_back source records (update m t'' tables)))
        → then_with
            (put_row source i o t)
            (λ t'. give_back source (tagged m ids ++ records) (update m t' (update m t tables)))
          ≡ then_with
              (then_with (put_row source i o t) (λ t'. restore source ids t'))
              (λ t'. give_back source records (update m t' tables))
    by_row none ih = refl
    by_row (some c) ih =
        ap (λ s. give_back source (tagged m ids ++ records) s)
          (update_twice m t (set i source t) tables)
        ∙ ih (set i source t)

abbrev pub is_in : ℕ → List ℕ → Bool
is_in k models = any (λ m. k == m) models

abbrev pub IsDistinct : List ℕ → Type 0
IsDistinct [] = Unit
IsDistinct (m ∷ models) = (is_in m models ≡ false) × IsDistinct models

abbrev pub records_of : ℕ → List ℕ → Tables → List (ℕ × ℕ)
records_of source [] tables = []
records_of source (m ∷ models) tables =
    tagged m (ids_of source (tables m)) ++ records_of source models tables

flip : (m k : ℕ) → (m == k) ≡ false → (k == m) ≡ false
flip m k h = ground arith

records_of-update :
    (source m : ℕ) (models : List ℕ) (t : Table ℕ) (tables : Tables)
    → is_in m models ≡ false
    → records_of source models (update m t tables) ≡ records_of source models tables
records_of-update source m [] t tables h = refl
records_of-update source m (k ∷ models) t tables h = elim (Bool-cases (m == k)) [
  | inl same ↦ cc (rw same at h)
  | inr other ↦
      ap₂ (λ t' r. tagged k (ids_of source t') ++ r) (update_ne m k t tables (flip m k other))
        (records_of-update source m models t tables (rw other at h))
]

module _ (primary source : ℕ) where
  pub reassign-records :
      (models : List ℕ) (tables : Tables)
      → IsDistinct models
      → (reassign primary source models tables).1 ≡ records_of source models tables
  reassign-records [] tables d = refl
  reassign-records (m ∷ models) tables (new, d) =
      ap (λ r. tagged m (ids_of source (tables m)) ++ r)
        (reassign-records models (update m (move source primary (tables m)) tables) d
          ∙ records_of-update source m models (move source primary (tables m)) tables new)

  pub reassign-tables :
      (models : List ℕ) (tables : Tables) (k : ℕ)
      → IsDistinct models
      → (reassign primary source models tables).0 k
        ≡ (if is_in k models then move source primary (tables k) else tables k)
  reassign-tables [] tables k d = refl
  reassign-tables (m ∷ models) tables k (new, d) = elim (Bool-cases (k == m)) [
    | inl same ↦
        let e : k ≡ m = (==_iff k m).0 same in
        reassign-tables models (update m (move source primary (tables m)) tables) k d
        ∙ rw (same, e, new) refl
    | inr other ↦
        reassign-tables models (update m (move source primary (tables m)) tables) k d
        ∙ rw other refl
  ]

-- What the rollback of the models leaves, with the rows `extra` that came later.
abbrev pub restored : List ℕ → Tables → Tables → Tables → Tables
restored [] tables extra now = now
restored (m ∷ models) tables extra now =
    restored models tables extra (update m (tables m ++ extra m) now)

either : (b : Bool) (t : Table ℕ) → (if b then t else t) ≡ t
either true t = refl
either false t = refl

pub restored_lem :
    (models : List ℕ) (tables extra now : Tables) (k : ℕ)
    → restored models tables extra now k ≡ (if is_in k models then tables k ++ extra k else now k)
restored_lem [] tables extra now k = refl
restored_lem (m ∷ models) tables extra now k = elim (Bool-cases (k == m)) [
  | inl same ↦
      let e : k ≡ m = (==_iff k m).0 same in
      restored_lem models tables extra (update m (tables m ++ extra m) now) k
      ∙ rw (same, e) (either (is_in m models) (tables m ++ extra m))
  | inr other ↦
      restored_lem models tables extra (update m (tables m ++ extra m) now) k ∙ rw other refl
]

module _ (primary source : ℕ) (tables extra : Tables)
    (distinct_rows : (m : ℕ) → IsNodup (tables m ++ extra m)) where
  pub give_back-records_of :
      (models : List ℕ) (now : Tables)
      → IsDistinct models
      → ((m : ℕ) → is_in m models ≡ true → now m ≡ move source primary (tables m) ++ extra m)
      → give_back source (records_of source models tables) now
        ≡ some (restored models tables extra now)
  give_back-records_of [] now d moved = refl
  give_back-records_of (m ∷ models) now (new, d) moved =
      ap (λ s. give_back source (records_of source (m ∷ models) tables) s) (sym (update_id m now))
      ∙ give_back-tagged source m (ids_of source (tables m)) (records_of source models tables)
          (now m) now
      ∙ rw
          (
            moved m (rw ((==_iff m m).1 refl) refl),
            restore-move source primary (tables m) (extra m) (distinct_rows m),
          )
          (give_back-records_of models (update m (tables m ++ extra m) now) d (λ k known.
            update_ne m k (tables m ++ extra m) now (other k known) ∙ moved k (later k known)))
    where
      later : (k : ℕ) → is_in k models ≡ true → is_in k (m ∷ models) ≡ true
      later k known = rw known (ground arith)

      other : (k : ℕ) → is_in k models ≡ true → (k == m) ≡ false
      other k known = elim (Bool-cases (k == m)) [
        | inr e ↦ e
        | inl e ↦ cc (sym new ∙ rw ((==_iff k m).0 e) at known)
      ]
