-- ===== src/Vault/Subledger/Movements.antt =====
-- What entries and transfers do to the cash that is held and to the ledger.
use nexus_efos.Common.{ℕ, ◌≡◌, refl, some, Option-cases, inl, inr}
use nexus_efos.Common.Int.{ℤ, pos, ◌+ℤ◌, ◌≤ℤ◌, int_laws, parts_of_eq}
use nexus_efos.Common.Table.{get, set}
use nexus_efos.Common.Table.Sums.{sum_by_ℤ-set, All-get, All-set}
use nexus_efos.Vault.{Vault, Teller, CashStore, CashHolderType}
use nexus_efos.Vault.Transfers.{get_holder_balance, apply_delta}
use nexus_efos.Vault.Subledger.{cash_total, IsNonnegative, SameLedger}

-- A change of one holder's balance that leaves it nonnegative.
pub record IsShift (d : ℤ) (store store' : CashStore) : Type 0 where
  pub ledger : SameLedger store store'
  pub total : cash_total store' ≡ cash_total store +ℤ d
  pub nonnegative : IsNonnegative store'

total_left : (v v' t d a : ℤ) → v' +ℤ a ≡ v +ℤ (a +ℤ d) → v' +ℤ t ≡ v +ℤ t +ℤ d
total_left v v' t d a h = omega (int_laws, parts_of_eq _ _ h)

total_right : (v t t' d a : ℤ) → t' +ℤ a ≡ t +ℤ (a +ℤ d) → v +ℤ t' ≡ v +ℤ t +ℤ d
total_right v t t' d a h = omega (int_laws, parts_of_eq _ _ h)

vault_shift_inv :
    (id : ℕ) (d : ℤ) (store store' : CashStore)
    → apply_delta CashHolderType.vault_holder id d store ≡ some store'
    → (v : Vault) × (get id store.vaults ≡ some v)
      × (store'
          ≡ record store { vaults = set id (record v { balance = v.balance +ℤ d }) store.vaults })
unfolding apply_delta
vault_shift_inv id d store store' h = elim (Option-cases (get id store.vaults)) [
  | inl missing ↦ cc
  | inr (v, e) ↦ (v, e, cc)
]

teller_shift_inv :
    (id : ℕ) (d : ℤ) (store store' : CashStore)
    → apply_delta CashHolderType.teller_holder id d store ≡ some store'
    → (t : Teller) × (get id store.tellers ≡ some t)
      × (store' ≡ record store {
        tellers = set id (record t { current_holding = t.current_holding +ℤ d }) store.tellers;
      })
unfolding apply_delta
teller_shift_inv id d store store' h = elim (Option-cases (get id store.tellers)) [
  | inl missing ↦ cc
  | inr (t, e) ↦ (t, e, cc)
]

vault_balance :
    (id : ℕ) (b : ℤ) (v : Vault) (store : CashStore)
    → get_holder_balance CashHolderType.vault_holder id store ≡ some b
    → get id store.vaults ≡ some v
    → v.balance ≡ b
unfolding get_holder_balance
vault_balance id b v store h e = cc

teller_balance :
    (id : ℕ) (b : ℤ) (t : Teller) (store : CashStore)
    → get_holder_balance CashHolderType.teller_holder id store ≡ some b
    → get id store.tellers ≡ some t
    → t.current_holding ≡ b
unfolding get_holder_balance
teller_balance id b t store h e = cc

pub apply_delta-IsShift :
    (type : CashHolderType) (id : ℕ) (d b : ℤ) (store store' : CashStore)
    → get_holder_balance type id store ≡ some b
    → pos 0 ≤ℤ b +ℤ d
    → IsNonnegative store
    → apply_delta type id d store ≡ some store'
    → IsShift d store store'
apply_delta-IsShift CashHolderType.vault_holder id d b store store' found enough (nv, nt) h =
    let (v, e, done) = vault_shift_inv id d store store' h in
    let same = vault_balance id b v store found e in
    let updated : Vault = record v { balance = v.balance +ℤ d } in
    rw done (record {
      ledger = record { same_books = refl; same_cash = refl; same_bank = refl };
      total =
          total_left _ _ _ d v.balance
            (sum_by_ℤ-set (λ (x : Vault). x.balance) id v updated store.vaults e);
      nonnegative = (
        All-set (λ (x : Vault). pos 0 ≤ℤ x.balance) id updated store.vaults (rw same enough) nv,
        nt,
      );
    })
apply_delta-IsShift CashHolderType.teller_holder id d b store store' found enough (nv, nt) h =
    let (t, e, done) = teller_shift_inv id d store store' h in
    let same = teller_balance id b t store found e in
    let updated : Teller = record t { current_holding = t.current_holding +ℤ d } in
    rw done (record {
      ledger = record { same_books = refl; same_cash = refl; same_bank = refl };
      total =
          total_right _ _ _ d t.current_holding
            (sum_by_ℤ-set (λ (x : Teller). x.current_holding) id t updated store.tellers e);
      nonnegative = (
        nv,
        All-set (λ (x : Teller). pos 0 ≤ℤ x.current_holding) id updated store.tellers
            (rw same enough) nt,
      );
    })

found_vault :
    (id : ℕ) (v : Vault) (store : CashStore)
    → get id store.vaults ≡ some v
    → get_holder_balance CashHolderType.vault_holder id store ≡ some v.balance
unfolding get_holder_balance
found_vault id v store e = cc

found_teller :
    (id : ℕ) (t : Teller) (store : CashStore)
    → get id store.tellers ≡ some t
    → get_holder_balance CashHolderType.teller_holder id store ≡ some t.current_holding
unfolding get_holder_balance
found_teller id t store e = cc

raised : (b : ℤ) (n : ℕ) → pos 0 ≤ℤ b → pos 0 ≤ℤ b +ℤ pos n
raised b n h = omega int_laws

-- A gain needs no check.
pub apply_gain-IsShift :
    (type : CashHolderType) (id n : ℕ) (store store' : CashStore)
    → IsNonnegative store
    → apply_delta type id (pos n) store ≡ some store'
    → IsShift (pos n) store store'
apply_gain-IsShift CashHolderType.vault_holder id n store store' (nv, nt) h =
    let (v, e, done) = vault_shift_inv id (pos n) store store' h in
    let before = All-get (λ (x : Vault). pos 0 ≤ℤ x.balance) id v store.vaults e nv in
    apply_delta-IsShift CashHolderType.vault_holder id (pos n) v.balance store store'
      (found_vault id v store e) (raised v.balance n before) (nv, nt) h
apply_gain-IsShift CashHolderType.teller_holder id n store store' (nv, nt) h =
    let (t, e, done) = teller_shift_inv id (pos n) store store' h in
    let before = All-get (λ (x : Teller). pos 0 ≤ℤ x.current_holding) id t store.tellers e nt in
    apply_delta-IsShift CashHolderType.teller_holder id (pos n) t.current_holding store store'
      (found_teller id t store e) (raised t.current_holding n before) (nv, nt) h
