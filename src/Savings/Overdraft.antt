-- ===== src/Savings/Overdraft.antt =====
-- Racing deposits and withdrawals: the checks of a handler may have read any earlier state.
use nexus_efos.Common.{
  ℕ, ◌≡◌, refl, sym, ap, ◌∙◌, Option, none, some, List, [], ◌∷◌, ◌++◌, arith, ◌==◌, if◌then◌else◌,
  Bool-cases, inl, inr, All, sum_by_ℤ, sum_by_ℤ-append, sum_by_ℤ-cons, sum_by_ℤ-nil, ==_iff,
}
use nexus_efos.Common.Int.{ℤ, pos, ◌+ℤ◌, ◌-ℤ◌, ◌≤ℤ◌, leb_ℤ, int_laws, +ℤ-zero}
use nexus_efos.Common.Table.{Table, get, set, get-set}
use nexus_efos.Common.Table.Sums.{All-get, All-set}
use nexus_efos.Common.Result.{ok, guard-eq-ok, require-eq-ok}
use nexus_efos.Ledger.{JournalLine}
use nexus_efos.Ledger.Posting.{Books, post_automatic}
use nexus_efos.Savings.{
  SavingsAccount, SavingsTransaction, TransactionType, Bank, check_deposit, check_withdraw,
  commit_deposit, commit_withdraw, shift, record_movement,
}

-- A transaction commits whose handler passed its checks on the state `seen`.
pub data Step (bank : Bank) : Bank → Type 0 where
  deposit_step :
      (id amount today : ℕ) (seen bank' : Bank) (lines : List JournalLine)
      → check_deposit id amount today seen ≡ ok lines
      → commit_deposit id amount lines today bank ≡ ok bank'
      → Step bank bank'
  withdraw_step :
      (id amount today : ℕ) (seen bank' : Bank) (lines : List JournalLine)
      → check_withdraw id amount today seen ≡ ok lines
      → commit_withdraw id amount lines today bank ≡ ok bank'
      → Step bank bank'

pub data Reach (bank : Bank) : Bank → Type 0 where
  here : Reach bank bank
  next : {mid last : Bank} → Reach bank mid → Step mid last → Reach bank last

-- What a recorded transaction did to the balance.
abbrev pub signed_amount : TransactionType → ℤ → ℤ
signed_amount TransactionType.deposited amount = amount
signed_amount TransactionType.withdrawn amount = pos 0 -ℤ amount
signed_amount TransactionType.interest amount = amount
signed_amount TransactionType.migration_opening_balance amount = amount
signed_amount TransactionType.fee amount = pos 0 -ℤ amount
signed_amount TransactionType.fee_reversal amount = amount

-- The transactions of one account, added up.
abbrev pub history : ℕ → List SavingsTransaction → ℤ
history id = sum_by_ℤ (λ (t : SavingsTransaction).
    if id == t.account_id then signed_amount t.type t.amount else pos 0)

abbrev pub balance_in : Option SavingsAccount → ℤ
balance_in none = pos 0
balance_in (some a) = a.balance

abbrev pub balance_of : ℕ → Table SavingsAccount → ℤ
balance_of id accounts = balance_in (get id accounts)

-- Not overdrawn, and the two balances agree.
abbrev pub IsSound : SavingsAccount → Type 0
IsSound a = (pos 0 ≤ℤ a.balance) × (a.ledger_balance ≡ a.balance)

abbrev pub AreSound : Table SavingsAccount → Type 0
AreSound = All (λ e. IsSound e.1)

pub commit_deposit_inv :
    (id amount today : ℕ) (lines : List JournalLine) (bank bank' : Bank)
    → commit_deposit id amount lines today bank ≡ ok bank'
    → (a : SavingsAccount) × (get id bank.accounts ≡ some a)
      × (books : Books) × (post_automatic today lines bank.books ≡ some books)
      × (bank'
          ≡ record_movement TransactionType.deposited id
              (pos amount)
              (shift (pos amount) a)
              books
              bank)
unfolding commit_deposit
commit_deposit_inv id amount today lines bank bank' h =
    let (a, found, rest) = require-eq-ok (get id bank.accounts) _ _ h in
    let (books, posted, last) = require-eq-ok (post_automatic today lines bank.books) _ _ rest in
    (a, found, books, posted, cc)

pub commit_withdraw_inv :
    (id amount today : ℕ) (lines : List JournalLine) (bank bank' : Bank)
    → commit_withdraw id amount lines today bank ≡ ok bank'
    → (a : SavingsAccount) × (get id bank.accounts ≡ some a)
      × (pos amount ≤ℤ a.balance)
      × (books : Books) × (post_automatic today lines bank.books ≡ some books)
      × (bank'
          ≡ record_movement TransactionType.withdrawn id
              (pos amount)
              (shift (pos 0 -ℤ pos amount) a)
              books
              bank)
unfolding commit_withdraw
commit_withdraw_inv id amount today lines bank bank' h =
    let (a, found, rest) = require-eq-ok (get id bank.accounts) _ _ h in
    let (enough, rest') = guard-eq-ok (leb_ℤ (pos amount) a.balance) _ _ rest in
    let (books, posted, last) = require-eq-ok (post_automatic today lines bank.books) _ _ rest' in
    (a, found, ground arith, books, posted, cc)

swap : (b d h : ℤ) → b +ℤ d +ℤ h ≡ b +ℤ (h +ℤ d)
swap b d h = omega int_laws

history-append :
    (j : ℕ) (l : List SavingsTransaction) (t : SavingsTransaction)
    → history j (l ++ (t ∷ []))
      ≡ history j l +ℤ (if j == t.account_id then signed_amount t.type t.amount else pos 0)
history-append j l t =
    sum_by_ℤ-append _ l (t ∷ [])
    ∙ ap (λ z. history j l +ℤ z) (rw (sum_by_ℤ-cons, sum_by_ℤ-nil) (+ℤ-zero _))

balance_of-set :
    (j id : ℕ) (b : SavingsAccount) (t : Table SavingsAccount)
    → balance_of j (set id b t) ≡ (if j == id then b.balance else balance_of j t)
balance_of-set j id b t =
    ap balance_in (get-set j id b t)
    ∙ elim (Bool-cases (j == id)) [ inl same ↦ rw same refl | inr other ↦ rw other refl ]

balance_of-get :
    (id : ℕ) (a : SavingsAccount) (t : Table SavingsAccount)
    → get id t ≡ some a
    → balance_of id t ≡ a.balance
balance_of-get id a t e = ground arith

-- A movement adds to the balance what it adds to the history.
pub movement-reconciles :
    (type : TransactionType) (id : ℕ) (amount : ℤ) (a : SavingsAccount) (books : Books)
    (bank : Bank)
    → get id bank.accounts ≡ some a
    → (updated : SavingsAccount) → updated.balance ≡ a.balance +ℤ signed_amount type amount
    → (j : ℕ)
    → let bank' = record_movement type id amount updated books bank in
      balance_of j bank'.accounts +ℤ history j bank.transactions
      ≡ balance_of j bank.accounts +ℤ history j bank'.transactions
movement-reconciles type id amount a books bank found updated e j = elim (Bool-cases (j == id)) [
  | inl same ↦
      let before : balance_of j bank.accounts ≡ a.balance =
        ap (λ i. balance_of i bank.accounts) ((==_iff _ _).0 same)
        ∙ balance_of-get id a bank.accounts found in
      rw (balance_of-set j id updated bank.accounts, history-append, same, before, e) (swap _ _ _)
  | inr other ↦
      rw (balance_of-set j id updated bank.accounts, history-append, other)
        (ap (λ z. balance_of j bank.accounts +ℤ z) (sym (+ℤ-zero _)))
]

record Kept (bank bank' : Bank) : Type 0 where
  sound : AreSound bank.accounts → AreSound bank'.accounts
  reconciled :
      (j : ℕ)
      → balance_of j bank'.accounts +ℤ history j bank.transactions
        ≡ balance_of j bank.accounts +ℤ history j bank'.transactions

raised :
    (b l : ℤ) (n : ℕ) → (pos 0 ≤ℤ b) × (l ≡ b) → (pos 0 ≤ℤ b +ℤ pos n) × (l +ℤ pos n ≡ b +ℤ pos n)
raised b l n (h, e) = (omega int_laws, ap (λ z. z +ℤ pos n) e)

lowered :
    (b l : ℤ) (n : ℕ)
    → pos n ≤ℤ b
    → (pos 0 ≤ℤ b) × (l ≡ b)
    → (pos 0 ≤ℤ b +ℤ (pos 0 -ℤ pos n)) × (l +ℤ (pos 0 -ℤ pos n) ≡ b +ℤ (pos 0 -ℤ pos n))
lowered b l n enough (h, e) = (omega int_laws, ap (λ z. z +ℤ (pos 0 -ℤ pos n)) e)

Step-Kept : {bank bank' : Bank} → Step bank bank' → Kept bank bank'
Step-Kept {bank = bank} (deposit_step id amount today seen bank' lines checked done) =
    let (a, found, books, posted, e) = commit_deposit_inv id amount today lines bank bank' done in
    record {
      sound = λ h. rw e (
          All-set IsSound id _ bank.accounts
            (raised a.balance a.ledger_balance amount (All-get IsSound id a bank.accounts found h))
            h);
      reconciled = λ j. rw e (
          movement-reconciles TransactionType.deposited id (pos amount) a books bank found
            (shift (pos amount) a) refl j);
    }
Step-Kept {bank = bank} (withdraw_step id amount today seen bank' lines checked done) =
    let (a, found, enough, books, posted, e) =
      commit_withdraw_inv id amount today lines bank bank' done in
    record {
      sound = λ h. rw e (
          All-set IsSound id _ bank.accounts
            (lowered a.balance a.ledger_balance amount enough
              (All-get IsSound id a bank.accounts found h))
            h);
      reconciled = λ j. rw e (
          movement-reconciles TransactionType.withdrawn id (pos amount) a books bank found
            (shift (pos 0 -ℤ pos amount) a) refl j);
    }

chain : (b0 b1 b2 h0 h1 h2 : ℤ) → b1 +ℤ h0 ≡ b0 +ℤ h1 → b2 +ℤ h1 ≡ b1 +ℤ h2 → b2 +ℤ h0 ≡ b0 +ℤ h2
chain b0 b1 b2 h0 h1 h2 e f = grind int_laws

-- However deposits and withdrawals race, and whatever earlier state their checks have read, accounts
-- that are not overdrawn, with equal balances, stay so, and the balance of every account moves by
-- exactly what its recorded transactions add up to.
pub never_overdrawn :
    {bank bank' : Bank}
    → AreSound bank.accounts
    → Reach bank bank'
    → AreSound bank'.accounts
      × ((j : ℕ)
          → balance_of j bank'.accounts +ℤ history j bank.transactions
            ≡ balance_of j bank.accounts +ℤ history j bank'.transactions)
never_overdrawn h here = (h, λ j. refl)
never_overdrawn h (next reached st) =
    let (sound, reconciled) = never_overdrawn h reached in
    let kept = Step-Kept st in
    (kept.sound sound, λ j. chain _ _ _ _ _ _ (reconciled j) (kept.reconciled j))
