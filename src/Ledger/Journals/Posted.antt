-- ===== src/Ledger/Journals/Posted.antt =====
-- Posting, and the trial balance after any sequence of handlers.
use nexus_efos.Common.{
  ℕ, ◌⊎◌, subst, ◌≡◌, refl, sym, ◌∙◌, true, ◌&&◌, some, List, [], ◌∷◌, ◌++◌, all, arith, leb,
  Bool-cases, Option-cases, inl, inr, All, All-append, &&_iff,
}
use mathlib.Core.Option.{some-injective}
use nexus_efos.Common.Table.{Table}
use nexus_efos.Ledger.{
  Category, JournalLine, JournalStatus, Journal, is_balanced, is_posted, posted_lines_up_to,
}
use nexus_efos.Ledger.Totals.{IsJoined}
use nexus_efos.Ledger.Reports.{trial_balance}
use nexus_efos.Ledger.Reports.Columns.{ArePosted, trial_balance_balanced}
use nexus_efos.Ledger.Posting.{Books, GlAccount, is_postable, post_lines, post_automatic}
use nexus_efos.Ledger.Posting.Conservation.{post_automatic_inv}
use nexus_efos.Ledger.Journals.{row, replace_row, is_active_account, apply_journal_posting}
use nexus_efos.Ledger.Journals.Steps.{
  IsChart, Step, create, request, post, reject, automatic, Reach, here, next, IsFair, All-row,
  All-replace_row, Inv, create-Inv, unposted-Inv, request-Inv, reject-Inv, IsChart-post_lines,
}

-- A posting request is either carried out, on a balanced journal, or ends in REJECTED.
apply_journal_posting_inv :
    (id : ℕ) (books books' : Books)
    → apply_journal_posting id books ≡ some books'
    → (j : Journal) × (row id books.journals ≡ some j)
      × ((books' ≡ record books {
        journals = replace_row id (record j { status = JournalStatus.rejected }) books.journals;
      })
          ⊎ ((is_balanced j.lines ≡ true)
              × (accounts : Table GlAccount) × (post_lines j.lines books.accounts ≡ some accounts)
              × (books' ≡ record books {
                accounts = accounts;
                journals =
                    replace_row id (record j { status = JournalStatus.posted }) books.journals;
              })))
unfolding apply_journal_posting
apply_journal_posting_inv id books books' h = elim (Option-cases (row id books.journals)) [
  | inl e ↦ absurd (ground (arith, h))
  | inr (j, e) ↦
      let test =
        is_balanced j.lines
        && all (is_active_account books.accounts) j.lines
        && is_postable books.periods j.posting_date in
      (
        j,
        e,
        elim (Bool-cases test) [
          | inl t ↦ elim (Option-cases (post_lines j.lines books.accounts)) [
            | inl none_posted ↦ absurd (ground (arith, h))
            | inr (accounts, posted) ↦ inr (
              ((&&_iff _ _).0 ((&&_iff _ _).0 t).0).0,
              accounts,
              posted,
              some-injective _ _ (sym h ∙ rw (apply_journal_posting, e, t, posted) refl),
            )
          ]
          | inr f ↦ inl (some-injective _ _ (sym h ∙ rw (apply_journal_posting, e, f) refl))
        ],
      )
]

post-Inv :
    (chart : ℕ → Category) (id : ℕ) (books books' : Books)
    → apply_journal_posting id books ≡ some books'
    → Inv chart books
    → Inv chart books'
post-Inv chart id books books' h inv =
    let (j, found, outcome) = apply_journal_posting_inv id books books' h in
    elim outcome [
      | inl e ↦ rw e (unposted-Inv chart id j JournalStatus.rejected books found refl inv)
      | inr (balanced, accounts, posted, e) ↦ rw e (record {
        fair =
            All-replace_row (IsFair chart) id books.journals
              (record j { status = JournalStatus.posted })
              ((λ p. balanced), (All-row (IsFair chart) id books.journals j found inv.fair).1)
              inv.fair;
        charted = IsChart-post_lines chart j.lines books.accounts accounts posted inv.charted;
      })
    ]

automatic-Inv :
    (chart : ℕ → Category) (lines : List JournalLine) (date : ℕ) (books books' : Books)
    → is_balanced lines ≡ true
    → IsJoined chart lines
    → post_automatic date lines books ≡ some books'
    → Inv chart books
    → Inv chart books'
automatic-Inv chart lines date books books' balanced joined h inv =
    let (posted, journals, periods) = post_automatic_inv date lines books books' h in
    record {
      fair =
          subst (All (IsFair chart)) (sym journals)
            (All-append (IsFair chart) books.journals _ inv.fair (((λ p. balanced), joined), tt));
      charted = IsChart-post_lines chart lines books.accounts books'.accounts posted inv.charted;
    }

Step-Inv :
    {chart : ℕ → Category} {books books' : Books}
    → Step chart books books'
    → Inv chart books
    → Inv chart books'
Step-Inv (create lines date books' h) inv = create-Inv _ lines date _ books' h inv
Step-Inv (request id books' h) inv = request-Inv _ id _ books' h inv
Step-Inv (post id books' h) inv = post-Inv _ id _ books' h inv
Step-Inv (reject id books' h) inv = reject-Inv _ id _ books' h inv
Step-Inv (automatic lines date books' balanced joined h) inv =
    automatic-Inv _ lines date _ books' balanced joined h inv

Reach-Inv :
    {chart : ℕ → Category} {books books' : Books}
    → Reach chart books books'
    → Inv chart books
    → Inv chart books'
Reach-Inv here inv = inv
Reach-Inv (next reached st) inv = Step-Inv st (Reach-Inv reached inv)

IsJoined-append :
    (chart : ℕ → Category) (a b : List JournalLine)
    → IsJoined chart a
    → IsJoined chart b
    → IsJoined chart (a ++ b)
IsJoined-append chart [] b h k = k
IsJoined-append chart (l ∷ a) b (p, h) k = (p, IsJoined-append chart a b h k)

posted-IsJoined :
    (chart : ℕ → Category) (as_of : ℕ) (journals : List Journal)
    → All (IsFair chart) journals
    → IsJoined chart (posted_lines_up_to as_of journals) × ArePosted journals
posted-IsJoined chart as_of [] h = (tt, tt)
posted-IsJoined chart as_of (j ∷ journals) ((balanced, joined), h) =
    let (rest, posted) = posted-IsJoined chart as_of journals h in
    elim (Bool-cases (is_posted j.status && leb j.posting_date as_of)) [
      | inl e ↦ (rw e (IsJoined-append chart j.lines _ joined rest), (balanced, posted))
      | inr e ↦ (rw e rest, (balanced, posted))
    ]

-- From books without journals, whatever journals are created, requested, posted, rejected or posted
-- automatically after `isBalanced`, the trial balance agrees at every date and says so.
pub trial_balance_always :
    (chart : ℕ → Category) (books books' : Books) (as_of : ℕ)
    → books.journals ≡ []
    → IsChart chart books.accounts
    → Reach chart books books'
    → let t = trial_balance (posted_lines_up_to as_of books'.journals) in
      (t.total_debit ≡ t.total_credit) × (t.balanced ≡ true)
trial_balance_always chart books books' as_of empty charted reached =
    let inv =
      Reach-Inv reached
        (record { fair = subst (All (IsFair chart)) (sym empty) tt; charted = charted }) in
    let (joined, posted) = posted-IsJoined chart as_of books'.journals inv.fair in
    trial_balance_balanced chart as_of books'.journals posted joined
