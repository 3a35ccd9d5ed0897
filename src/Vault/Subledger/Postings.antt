-- ===== src/Vault/Subledger/Postings.antt =====
-- Entries between the bank and a vault against the ledger.
use nexus_efos.Common.{
  ℕ, ◌≡◌, ◌≢◌, refl, sym, ap, ap₂, ◌∙◌, true, false, List, arith, ltb, ◌==◌, sum_by_ℤ,
  sum_by_ℤ-cons, sum_by_ℤ-nil,
}
use mathlib.Core.Option.{some-injective}
use nexus_efos.Common.Int.{ℤ, pos, ◌+ℤ◌, ◌-ℤ◌, ◌≤ℤ◌, leb_ℤ, int_laws, parts_of_eq}
use nexus_efos.Common.Rounding.{round2_ℤ-one}
use nexus_efos.Common.Table.{get}
use nexus_efos.Common.Table.Sums.{sum_by_ℤ-set, All-get, All-set}
use nexus_efos.Common.Result.{
  ok, guard-eq-ok, require-eq-ok, >>=-eq-ok, ok-injective, bad_request, server_error,
}
use nexus_efos.Ledger.{Category, JournalLine, balance_effect, is_balanced}
use nexus_efos.Ledger.Posting.{GlAccount, is_postable, post_automatic}
use nexus_efos.Ledger.Posting.Effects.{balance_of, part_of, posting-part_of}
use nexus_efos.Ledger.Posting.Conservation.{
  category_of-get, category_of-post_lines, post_automatic_inv,
}
use nexus_efos.Vault.{Vault, CashStore, is_open}
use nexus_efos.Vault.Entries.{
  EntryType, entry_lines, moved, missing_status, check_entry, commit_entry, cash_entry,
}
use nexus_efos.Vault.Subledger.{IsMapped, IsNonnegative, Keeps}

differs : (a b : ℕ) → a ≢ b → (a == b) ≡ false
differs a b h = ground arith

same : (a : ℕ) → (a == a) ≡ true
same a = ground arith

-- What an entry adds to the vault, and what its lines add to an asset account.
abbrev pub entry_effect : EntryType → ℕ → ℤ
entry_effect EntryType.receipt amount = pos amount
entry_effect EntryType.withdrawal amount = pos 0 -ℤ pos amount

pub entry_parts :
    (type : EntryType) (cash bank amount : ℕ) (c b : GlAccount)
    → cash ≢ bank
    → c.category ≡ Category.asset
    → sum_by_ℤ (part_of cash) (entry_lines type amount (cash, c) (bank, b))
      ≡ entry_effect type amount
unfolding balance_effect
entry_parts EntryType.receipt cash bank amount c b differ asset =
    rw (sum_by_ℤ-cons, sum_by_ℤ-cons, sum_by_ℤ-nil, differs cash bank differ, same cash, asset)
      (rw round2_ℤ-one (omega int_laws))
entry_parts EntryType.withdrawal cash bank amount c b differ asset =
    rw (sum_by_ℤ-cons, sum_by_ℤ-cons, sum_by_ℤ-nil, differs cash bank differ, same cash, asset)
      (rw round2_ℤ-one (omega int_laws))

-- The checks found the two mapped accounts.
check_entry_inv :
    (type : EntryType) (id amount today cash bank : ℕ) (store : CashStore)
    (lines : List JournalLine)
    → check_entry type id amount today store ≡ ok lines
    → IsMapped cash bank store
    → sum_by_ℤ (part_of cash) lines ≡ entry_effect type amount
unfolding check_entry
check_entry_inv type id amount today cash bank store lines h (c, b, asset, differ) =
    let (_, h1) = guard-eq-ok (ltb 0 amount) _ _ h in
    let (v, _, h2) = require-eq-ok (get id store.vaults) _ _ h1 in
    let (_, h3) = guard-eq-ok (is_open v.status) _ _ h2 in
    let (cash', c', h4) = require-eq-ok store.vault_cash_account _ _ h3 in
    let (bank', b', h5) = require-eq-ok store.bank_account _ _ h4 in
    let (_, h6) = guard-eq-ok (is_postable store.books.periods today) _ _ h5 in
    let (g, found, h7) = require-eq-ok (get cash' store.books.accounts) _ _ h6 in
    let (g', _, h8) = require-eq-ok (get bank' store.books.accounts) _ _ h7 in
    let (_, last) = guard-eq-ok (is_balanced _) _ _ h8 in
    let same_cash : cash' ≡ cash = some-injective _ _ (sym c' ∙ c) in
    let same_bank : bank' ≡ bank = some-injective _ _ (sym b' ∙ b) in
    let category =
      category_of-get cash g Category.asset store.books.accounts
        (ap (λ i. get i store.books.accounts) (sym same_cash) ∙ found) asset in
    ap (sum_by_ℤ (part_of cash)) (
      sym (ok-injective last)
      ∙ ap₂ (λ x y. entry_lines type amount (x, g) (y, g')) same_cash same_bank)
    ∙ entry_parts type cash bank amount g g' differ category

moved_inv :
    (type : EntryType) (amount : ℕ) (v u : Vault)
    → moved type amount v ≡ ok u
    → pos 0 ≤ℤ v.balance
    → (u.balance ≡ v.balance +ℤ entry_effect type amount) × (pos 0 ≤ℤ u.balance)
moved_inv EntryType.receipt amount v u h n =
    let e = ok-injective h in rw (← e) (refl, omega int_laws)
moved_inv EntryType.withdrawal amount v u h n =
    let (enough, last) = guard-eq-ok (leb_ℤ (pos amount) v.balance) bad_request _ h in
    let covered : pos amount ≤ℤ v.balance = ground arith in
    rw (← ok-injective last) (omega int_laws, omega int_laws)

same_gap_lem :
    (l v t l' v' d a : ℤ) → l' ≡ l +ℤ d → v' +ℤ a ≡ v +ℤ (a +ℤ d) → l' -ℤ (v' +ℤ t) ≡ l -ℤ (v +ℤ t)
same_gap_lem l v t l' v' d a h k = omega (int_laws, parts_of_eq _ _ h, parts_of_eq _ _ k)

pub cash_entry-Keeps :
    (type : EntryType) (id amount today cash bank : ℕ) (store store' : CashStore)
    → cash_entry type id amount today store ≡ ok store'
    → IsMapped cash bank store
    → IsNonnegative store
    → Keeps cash bank store store'
unfolding cash_entry commit_entry
cash_entry-Keeps type id amount today cash bank store store' h (c, b, asset, differ) (nv, nt) =
    let (lines, checked, h1) = >>=-eq-ok (check_entry type id amount today store) _ h in
    let (v, found, h2) = require-eq-ok (get id store.vaults) (missing_status type) _ h1 in
    let (u, shifted, h3) = >>=-eq-ok (moved type amount v) _ h2 in
    let (books, posted, last) =
      require-eq-ok (post_automatic today lines store.books) server_error _ h3 in
    let before = All-get (λ (x : Vault). pos 0 ≤ℤ x.balance) id v store.vaults found nv in
    let (exact, nonnegative) = moved_inv type amount v u shifted before in
    let accounts = (post_automatic_inv today lines store.books books posted).0 in
    let parts =
      check_entry_inv type id amount today cash bank store lines checked (c, b, asset, differ) in
    rw (← ok-injective last) (record {
      mapped = (
        c,
        b,
        category_of-post_lines cash lines store.books.accounts books.accounts accounts ∙ asset,
        differ,
      );
      nonnegative =
          (All-set (λ (x : Vault). pos 0 ≤ℤ x.balance) id u store.vaults nonnegative nv, nt);
      same_gap =
          same_gap_lem (balance_of cash store.books.accounts) _ _ _ _ (entry_effect type amount)
            v.balance
            (posting-part_of cash lines store.books.accounts books.accounts accounts
              ∙ ap (λ z. balance_of cash store.books.accounts +ℤ z) parts)
            (sum_by_ℤ-set (λ (x : Vault). x.balance) id v u store.vaults found
              ∙ ap (λ z. sum_by_ℤ (λ e. e.1.balance) store.vaults +ℤ z) exact);
    })
