-- ===== src/Customers/Merge/Rollback.antt =====
-- Rolling a merge back.
use nexus_efos.Common.{
  ℕ, ◌≡◌, refl, sym, ap, ◌∙◌, false, Option, some, List, [], ◌∷◌, ◌++◌, ◌==◌, arith, All,
  Bool-cases, Option-cases, inl, inr, ==_iff,
}
use nexus_efos.Common.Table.{Table, get, set, IsFresh, IsNodup}
use nexus_efos.Customers.Merge.{ids_of, move, put_row, then_with}

-- The rollback on one table.
abbrev pub restore : ℕ → List ℕ → Table ℕ → Option (Table ℕ)
restore source [] t = some t
restore source (i ∷ ids) t = then_with (put_row source i (get i t) t) (λ t'. restore source ids t')

-- The first row.
restore-head :
    (source i v : ℕ) (ids : List ℕ) (t : Table ℕ)
    → restore source (i ∷ ids) ((i, v) ∷ t) ≡ restore source ids ((i, source) ∷ t)
restore-head source i v ids t = let self = (==_iff i i).1 refl in rw self (rw self refl)

-- A row that is not on the list stays as it is.
restore-cons :
    (source j v : ℕ) (ids : List ℕ) (t t' : Table ℕ)
    → All (λ i. (i == j) ≡ false) ids
    → restore source ids t ≡ some t'
    → restore source ids ((j, v) ∷ t) ≡ some ((j, v) ∷ t')
restore-cons source j v [] t t' h e = cc
restore-cons source j v (i ∷ ids) t t' (h, hs) e = elim (Option-cases (get i t)) [
  | inl absent ↦ cc (rw absent at e)
  | inr (c, present) ↦
      rw (h, present) (rw h (restore-cons source j v ids (set i source t) t' hs (rw present at e)))
]

ids_of-IsFresh :
    (customer j : ℕ) (t : Table ℕ) → IsFresh j t → All (λ i. (i == j) ≡ false) (ids_of customer t)
ids_of-IsFresh customer j [] h = tt
ids_of-IsFresh customer j ((i, c) ∷ t) (h, hs) = elim (Bool-cases (c == customer)) [
  | inl own ↦ simp own (ground arith, ids_of-IsFresh customer j t hs)
  | inr other ↦ simp other (ids_of-IsFresh customer j t hs)
]

IsFresh-append : (j : ℕ) (t e : Table ℕ) → IsFresh j (t ++ e) → IsFresh j t
IsFresh-append j [] e h = tt
IsFresh-append j ((i, c) ∷ t) e (h, hs) = (h, IsFresh-append j t e hs)

-- The rows that were moved come back, and rows that came later stay.
pub restore-move :
    (source primary : ℕ) (t e : Table ℕ)
    → IsNodup (t ++ e)
    → restore source (ids_of source t) (move source primary t ++ e) ≡ some (t ++ e)
restore-move source primary [] e h = refl
restore-move source primary ((i, c) ∷ t) e (h, hs) = elim (Bool-cases (c == source)) [
  | inr other ↦ simp other (
      restore-cons source i c (ids_of source t) (move source primary t ++ e) (t ++ e)
        (ids_of-IsFresh source i t (IsFresh-append i t e h)) (restore-move source primary t e hs))
  | inl own ↦
      let same : c ≡ source = (==_iff c source).0 own in
      rw own (
        restore-head source i primary (ids_of source t) (move source primary t ++ e)
        ∙ restore-cons source i source (ids_of source t) (move source primary t ++ e) (t ++ e)
            (ids_of-IsFresh source i t (IsFresh-append i t e h))
            (restore-move source primary t e hs)
        ∙ ap (λ v. some ((i, v) ∷ (t ++ e))) (sym same))
]
