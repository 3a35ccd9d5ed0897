-- ===== src/Ledger/Journals.antt =====
-- Manual journals: `/journals` and `/journals/:id/request-posting` of
-- api/src/routes/generalLedger.routes.ts, and what the approval workflow does with a posting
-- request, in api/src/routes/approvals.routes.ts. A journal's id is its position: journals are never
-- deleted.
mod Tests
pub mod Steps
pub mod Posted
pub mod Lines
use nexus_efos.Common.{
  ℕ, zero, suc, Bool, true, false, not, ◌&&◌, ◌||◌, Option, none, some, List, [], ◌∷◌, ◌++◌, all,
  length, ltb, leb, ◌==◌, sum_by,
}
use nexus_efos.Common.Rounding.{round2}
use nexus_efos.Common.Table.{Table, get}
use nexus_efos.Common.Result.{
  Result, ok, err, guard, require, ◌>>=◌, ◌>>◌, bad_request, not_found, server_error,
}
use nexus_efos.Ledger.{JournalLine, JournalStatus, Journal, is_balanced}
use nexus_efos.Ledger.Posting.{Books, GlAccount, is_postable, post_lines}

pub record LineInput : Type 0 where
  pub account_id : ℕ
  pub debit : ℕ
  pub credit : ℕ

abbrev pub row {ℓ} : {A : Type ℓ} → ℕ → List A → Option A
row n [] = none
row zero (x ∷ l) = some x
row (suc n) (x ∷ l) = row n l

abbrev pub replace_row {ℓ} : {A : Type ℓ} → ℕ → A → List A → List A
replace_row n y [] = []
replace_row zero y (x ∷ l) = y ∷ l
replace_row (suc n) y (x ∷ l) = x ∷ replace_row n y l

-- The lines with their accounts' categories; `none` where the foreign key fails.
abbrev pub join_lines : List LineInput → Table GlAccount → Option (List JournalLine)
join_lines [] accounts = some []
join_lines (l ∷ lines) accounts = elim (get l.account_id accounts) [
  | none ↦ none
  | some a ↦ elim (join_lines lines accounts) [
    | none ↦ none
    | some joined ↦ some (
        (record {
          account_id = l.account_id;
          category = a.category;
          debit = l.debit;
          credit = l.credit;
        })
        ∷ joined)
  ]
]

-- A line has either a debit or a credit.
abbrev pub is_one_sided : LineInput → Bool
is_one_sided l = not (ltb 0 l.debit && ltb 0 l.credit) && not (l.debit == 0 && l.credit == 0)

-- `isBalanced` on the lines of the request.
abbrev pub is_balanced_input : List LineInput → Bool
is_balanced_input lines =
    let total_debit = round2 (sum_by (λ l. l.debit) lines) 1 in
    let total_credit = round2 (sum_by (λ l. l.credit) lines) 1 in
    total_debit == total_credit && ltb 0 total_debit

-- `POST /journals`
unfoldable pub create_journal : List LineInput → ℕ → Books → Result Books
create_journal lines posting_date books = do
  guard (leb 2 (length lines)) bad_request
  guard (all is_one_sided lines) bad_request
  guard (is_balanced_input lines) bad_request
  guard (is_postable books.periods posting_date) bad_request
  joined ← require (join_lines lines books.accounts) server_error
  ok (record books {
    journals =
        books.journals
        ++ (record { status = JournalStatus.draft; posting_date = posting_date; lines = joined })
          ∷ [];
  })

abbrev pub is_draft : JournalStatus → Bool
is_draft JournalStatus.draft = true
is_draft _ = false

-- `POST /journals/:id/request-posting`, without the approval request that it files.
unfoldable pub request_posting : ℕ → Books → Result Books
request_posting id books = do
  journal ← require (row id books.journals) not_found
  guard (is_draft journal.status) bad_request
  ok (record books {
    journals =
        replace_row id (record journal { status = JournalStatus.pending_approval }) books.journals;
  })

-- `l.account.status === "ACTIVE"`
abbrev pub is_active_account : Table GlAccount → JournalLine → Bool
is_active_account accounts l = elim (get l.account_id accounts) [
  | none ↦ false
  | some a ↦ a.is_active
]

-- `case "JOURNAL_POSTING"` of `applyApproval`: the journal is posted, or rejected where it can no
-- longer be. `none` is an exception.
unfoldable pub apply_journal_posting : ℕ → Books → Option Books
apply_journal_posting id books = elim (row id books.journals) [
  | none ↦ none
  | some journal ↦
      elim (is_balanced journal.lines
        && all (is_active_account books.accounts) journal.lines
        && is_postable books.periods journal.posting_date) [
          | false ↦ some (record books {
            journals =
                replace_row id (record journal { status = JournalStatus.rejected }) books.journals;
          })
          | true ↦ elim (post_lines journal.lines books.accounts) [
            | none ↦ none
            | some accounts ↦ some (record books {
              accounts = accounts;
              journals =
                  replace_row id (record journal { status = JournalStatus.posted }) books.journals;
            })
          ]
        ]
]

-- The branch of `/reject` for a posting request: back to DRAFT.
unfoldable pub reject_journal_posting : ℕ → Books → Option Books
reject_journal_posting id books = elim (row id books.journals) [
  | none ↦ none
  | some journal ↦ some (record books {
    journals = replace_row id (record journal { status = JournalStatus.draft }) books.journals;
  })
]
