-- ===== src/Ledger/Journals/Tests.antt =====
-- A manual journal from its draft to the ledger.
use nexus_efos.Common.{ℕ, ◌≡◌, refl, true, List, [], ◌∷◌, sum_by, arith, ◌==◌, if◌then◌else◌}
use nexus_efos.Common.Int.{ℤ, pos, ◌+ℤ◌, ◌-ℤ◌}
use nexus_efos.Common.Rounding.{round2, round2_ℤ}
use nexus_efos.Ledger.{
  Category, JournalStatus, Journal, is_balanced, balance_effect, posted_lines_up_to,
}
use nexus_efos.Ledger.Reports.{trial_balance}
use nexus_efos.Ledger.Posting.{Books, GlAccount, PeriodStatus, increment, post_lines, is_postable}
use nexus_efos.Ledger.Journals.{LineInput, create_journal, request_posting, apply_journal_posting}
use nexus_efos.Ledger.Journals.Steps.{IsChart, Reach, create, request, post, here, next}
use nexus_efos.Ledger.Journals.Posted.{trial_balance_always}

abbrev chart : ℕ → Category
chart id = if id == 1 then Category.asset else Category.equity

abbrev account : Category → ℤ → GlAccount
account c b = record { category = c; is_active = true; balance = b }

abbrev books : ℤ → List Journal → Books
books b journals = record {
  accounts = (1, account Category.asset b) ∷ (2, account Category.equity b) ∷ [];
  periods = (1, record { start_date = 1; end_date = 31; status = PeriodStatus.open_period }) ∷ [];
  journals = journals;
}

abbrev capital : List LineInput
capital =
    (record { account_id = 1; debit = 900; credit = 0 })
    ∷ (record { account_id = 2; debit = 0; credit = 900 })
    ∷ []

abbrev journal : JournalStatus → Journal
journal status = record {
  status = status;
  posting_date = 4;
  lines =
      (record { account_id = 1; category = Category.asset; debit = 900; credit = 0 })
      ∷ (record { account_id = 2; category = Category.equity; debit = 0; credit = 900 })
      ∷ [];
}

reached : Reach chart (books (pos 0) []) (books (pos 900) (journal JournalStatus.posted ∷ []))
unfolding create_journal request_posting apply_journal_posting is_balanced is_postable post_lines
    increment balance_effect round2 round2_ℤ ◌+ℤ◌ ◌-ℤ◌ sum_by
reached =
    next
      (next (next here (create capital 4 (books (pos 0) (journal JournalStatus.draft ∷ [])) refl))
        (request 0 (books (pos 0) (journal JournalStatus.pending_approval ∷ [])) refl))
      (post 0 (books (pos 900) (journal JournalStatus.posted ∷ [])) refl)

books-IsChart : IsChart chart (books (pos 0) []).accounts
books-IsChart id c h = ground (arith, h)

trial_balance_always_example :
    let t = trial_balance (posted_lines_up_to 9 (journal JournalStatus.posted ∷ [])) in
    (t.total_debit ≡ t.total_credit) × (t.balanced ≡ true)
trial_balance_always_example =
    trial_balance_always chart (books (pos 0) [])
      (books (pos 900) (journal JournalStatus.posted ∷ [])) 9 refl books-IsChart reached
