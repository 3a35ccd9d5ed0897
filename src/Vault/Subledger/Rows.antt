-- ===== src/Vault/Subledger/Rows.antt =====
-- The operations that move no cash.
use nexus_efos.Common.{
  ℕ, ◌≡◌, refl, ap, ◌∙◌, Bool, true, not, ◌||◌, Option, none, some, any, ltb, ◌==◌, sum_by_ℤ,
}
use nexus_efos.Common.Int.{ℤ, pos, ◌+ℤ◌, ◌-ℤ◌, ◌≤ℤ◌, abs, int_laws, parts_of_eq}
use nexus_efos.Common.Rounding.{round2_ℤ}
use nexus_efos.Common.Table.{Table, get, set}
use nexus_efos.Common.Table.Sums.{sum_by_ℤ-set, sum_by_ℤ-set_fresh, All-get, All-set}
use nexus_efos.Common.Result.{
  ok, guard-eq-ok, require-eq-ok, ok-injective, bad_request, not_found, server_error,
}
use nexus_efos.Vault.{
  Vault, Teller, CashStore, CashHolderType, VaultStatus, TellerStatus, CashBalancing, is_open,
  is_none, is_balanced_on, create_vault, open_the_vault, close_the_vault, register_teller,
  set_cash_limit, set_teller_status,
}
use nexus_efos.Vault.Transfers.{get_holder_balance}
use nexus_efos.Vault.Balancing.{is_balancing_of, record_balancing, approve_variance}
use nexus_efos.Vault.Subledger.{IsMapped, IsNonnegative, Keeps, unposted-Keeps}

is_none_inv {ℓ} : {A : Type ℓ} (o : Option A) → is_none o ≡ true → o ≡ none
is_none_inv none h = refl
is_none_inv (some a) h = cc

unchanged : (x' a x : ℤ) → x' +ℤ a ≡ x +ℤ a → x' ≡ x
unchanged x' a x h = omega (int_laws, parts_of_eq _ _ h)

plus_zero : (x' x : ℤ) → x' ≡ x +ℤ pos 0 → x' ≡ x
plus_zero x' x h = omega (int_laws, parts_of_eq _ _ h)

module _ (cash bank : ℕ) (store : CashStore) (mapped : IsMapped cash bank store)
    (n : IsNonnegative store) where
  -- A row of a vault or of a teller that keeps its cash.
  vault-Keeps :
      (id : ℕ) (v u : Vault)
      → get id store.vaults ≡ some v
      → u.balance ≡ v.balance
      → Keeps cash bank store (record store { vaults = set id u store.vaults })
  vault-Keeps id v u found kept =
      let total = unchanged _ v.balance _ (
        sum_by_ℤ-set (λ (x : Vault). x.balance) id v u store.vaults found
        ∙ ap (λ z. sum_by_ℤ (λ e. e.1.balance) store.vaults +ℤ z) kept) in
      let before = All-get (λ (x : Vault). pos 0 ≤ℤ x.balance) id v store.vaults found n.0 in
      unposted-Keeps cash bank store _ mapped
        (record { same_books = refl; same_cash = refl; same_bank = refl })
        (ap (λ z. z +ℤ sum_by_ℤ (λ e. e.1.current_holding) store.tellers) total)
        (All-set (λ (x : Vault). pos 0 ≤ℤ x.balance) id u store.vaults (rw kept before) n.0, n.1)

  teller-Keeps :
      (id : ℕ) (t u : Teller)
      → get id store.tellers ≡ some t
      → u.current_holding ≡ t.current_holding
      → Keeps cash bank store (record store { tellers = set id u store.tellers })
  teller-Keeps id t u found kept =
      let total = unchanged _ t.current_holding _ (
        sum_by_ℤ-set (λ (x : Teller). x.current_holding) id t u store.tellers found
        ∙ ap (λ z. sum_by_ℤ (λ e. e.1.current_holding) store.tellers +ℤ z) kept) in
      let before =
        All-get (λ (x : Teller). pos 0 ≤ℤ x.current_holding) id t store.tellers found n.1 in
      unposted-Keeps cash bank store _ mapped
        (record { same_books = refl; same_cash = refl; same_bank = refl })
        (ap (λ z. sum_by_ℤ (λ e. e.1.balance) store.vaults +ℤ z) total)
        (
          n.0,
          All-set (λ (x : Teller). pos 0 ≤ℤ x.current_holding) id u store.tellers (rw kept before)
              n.1,
        )

  balancings-Keeps :
      (balancings : Table CashBalancing)
      → Keeps cash bank store (record store { balancings = balancings })
  balancings-Keeps balancings =
      unposted-Keeps cash bank store _ mapped
        (record { same_books = refl; same_cash = refl; same_bank = refl }) refl n

  pub create_vault-Keeps :
      (id : ℕ) (store' : CashStore)
      → create_vault id store ≡ ok store'
      → Keeps cash bank store store'
  unfolding create_vault
  create_vault-Keeps id store' h =
      let (new, last) = guard-eq-ok (is_none (get id store.vaults)) server_error _ h in
      let fresh : Vault = record { balance = pos 0; status = VaultStatus.closed_vault } in
      rw (← ok-injective last) (
        unposted-Keeps cash bank store _ mapped
          (record { same_books = refl; same_cash = refl; same_bank = refl })
          (ap (λ z. z +ℤ sum_by_ℤ (λ e. e.1.current_holding) store.tellers)
            (plus_zero _ _ (
              sum_by_ℤ-set_fresh (λ (x : Vault). x.balance) id fresh store.vaults
                (is_none_inv _ new))))
          (
            All-set (λ (x : Vault). pos 0 ≤ℤ x.balance) id fresh store.vaults (omega int_laws) n.0,
            n.1,
          ))

  pub register_teller-Keeps :
      (id employee limit : ℕ) (store' : CashStore)
      → register_teller id employee limit store ≡ ok store'
      → Keeps cash bank store store'
  unfolding register_teller
  register_teller-Keeps id employee limit store' h =
      let (_, h1) = guard-eq-ok (ltb 0 limit) bad_request _ h in
      let (_, h2) = guard-eq-ok (any (λ e. e == employee) store.employees) not_found _ h1 in
      let (_, h3) =
        guard-eq-ok (not (any (λ (t : ℕ × Teller). t.1.employee_id == employee) store.tellers))
          bad_request _ h2 in
      let (new, last) = guard-eq-ok (is_none (get id store.tellers)) server_error _ h3 in
      let fresh : Teller = record {
        employee_id = employee;
        cash_limit = limit;
        current_holding = pos 0;
        status = TellerStatus.active;
      } in
      rw (← ok-injective last) (
        unposted-Keeps cash bank store _ mapped
          (record { same_books = refl; same_cash = refl; same_bank = refl })
          (ap (λ z. sum_by_ℤ (λ e. e.1.balance) store.vaults +ℤ z)
            (plus_zero _ _ (
              sum_by_ℤ-set_fresh (λ (x : Teller). x.current_holding) id fresh store.tellers
                (is_none_inv _ new))))
          (
            n.0,
            All-set (λ (x : Teller). pos 0 ≤ℤ x.current_holding) id fresh store.tellers
                (omega int_laws) n.1,
          ))

  pub open_the_vault-Keeps :
      (id : ℕ) (store' : CashStore)
      → open_the_vault id store ≡ ok store'
      → Keeps cash bank store store'
  unfolding open_the_vault
  open_the_vault-Keeps id store' h =
      let (v, found, h1) = require-eq-ok (get id store.vaults) not_found _ h in
      let (_, last) = guard-eq-ok (not (is_open v.status)) bad_request _ h1 in
      rw (← ok-injective last) (vault-Keeps id v _ found refl)

  pub close_the_vault-Keeps :
      (id today : ℕ) (store' : CashStore)
      → close_the_vault id today store ≡ ok store'
      → Keeps cash bank store store'
  unfolding close_the_vault
  close_the_vault-Keeps id today store' h =
      let (v, found, h1) = require-eq-ok (get id store.vaults) not_found _ h in
      let (_, h2) = guard-eq-ok (is_open v.status) bad_request _ h1 in
      let (_, last) = guard-eq-ok (is_balanced_on id today store.balancings) bad_request _ h2 in
      rw (← ok-injective last) (vault-Keeps id v _ found refl)

  pub set_cash_limit-Keeps :
      (id limit : ℕ) (store' : CashStore)
      → set_cash_limit id limit store ≡ ok store'
      → Keeps cash bank store store'
  unfolding set_cash_limit
  set_cash_limit-Keeps id limit store' h =
      let (_, h1) = guard-eq-ok (ltb 0 limit) bad_request _ h in
      let (t, found, last) = require-eq-ok (get id store.tellers) not_found _ h1 in
      rw (← ok-injective last) (teller-Keeps id t _ found refl)

  pub set_teller_status-Keeps :
      (status : TellerStatus) (id : ℕ) (store' : CashStore)
      → set_teller_status status id store ≡ ok store'
      → Keeps cash bank store store'
  unfolding set_teller_status
  set_teller_status-Keeps status id store' h =
      let (t, found, last) = require-eq-ok (get id store.tellers) not_found _ h in
      rw (← ok-injective last) (teller-Keeps id t _ found refl)

  pub record_balancing-Keeps :
      (id : ℕ) (type : CashHolderType) (holder date counted : ℕ) (notes : Bool) (store' : CashStore)
      → record_balancing id type holder date counted notes store ≡ ok store'
      → Keeps cash bank store store'
  unfolding record_balancing
  record_balancing-Keeps id type holder date counted notes store' h =
      let (expected, _, h1) = require-eq-ok (get_holder_balance type holder store) not_found _ h in
      let (_, h2) =
        guard-eq-ok (not (any (is_balancing_of type holder date) store.balancings)) bad_request _
          h1 in
      let (_, h3) =
        guard-eq-ok (ltb (abs (round2_ℤ (pos counted -ℤ expected) 1)) 1 || notes) bad_request _
          h2 in
      let (_, last) = guard-eq-ok (is_none (get id store.balancings)) server_error _ h3 in
      rw (← ok-injective last) (balancings-Keeps _)

  pub approve_variance-Keeps :
      (id : ℕ) (store' : CashStore)
      → approve_variance id store ≡ ok store'
      → Keeps cash bank store store'
  unfolding approve_variance
  approve_variance-Keeps id store' h =
      let (b, _, last) = require-eq-ok (get id store.balancings) server_error _ h in
      rw (← ok-injective last) (balancings-Keeps _)
