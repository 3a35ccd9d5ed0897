-- ===== src/Ledger/Journals/Steps.antt =====
-- The handlers on journals as steps, and what those that post nothing keep.
use nexus_efos.Common.{
  ℕ, zero, suc, subst, ◌≡◌, refl, sym, ◌∙◌, true, false, some, List, [], ◌∷◌, all, length, arith,
  leb, Option-cases, inl, inr, All, All-append,
}
use mathlib.Core.Option.{some-injective}
use nexus_efos.Common.Table.{Table, get}
use nexus_efos.Common.Result.{ok, guard-eq-ok, require-eq-ok, ok-injective}
use nexus_efos.Ledger.{Category, JournalLine, JournalStatus, Journal, is_balanced, is_posted}
use nexus_efos.Ledger.Totals.{IsJoined}
use nexus_efos.Ledger.Posting.{Books, GlAccount, is_postable, post_lines, post_automatic}
use nexus_efos.Ledger.Posting.Conservation.{category_of, category_of-post_lines}
use nexus_efos.Ledger.Journals.{
  LineInput, row, replace_row, join_lines, is_one_sided, is_balanced_input, create_journal,
  is_draft, request_posting, apply_journal_posting, reject_journal_posting,
}

-- The chart of accounts has the accounts' categories, which never change.
abbrev pub IsChart : (ℕ → Category) → Table GlAccount → Type 0
IsChart chart accounts = (id : ℕ) (c : Category) → category_of id accounts ≡ some c → c ≡ chart id

-- One handler runs. An automatic journal was checked by `isBalanced`, and its lines were joined with
-- the accounts.
pub data Step (chart : ℕ → Category) (books : Books) : Books → Type 0 where
  create :
      (lines : List LineInput) (date : ℕ) (books' : Books)
      → create_journal lines date books ≡ ok books'
      → Step chart books books'
  request :
      (id : ℕ) (books' : Books) → request_posting id books ≡ ok books' → Step chart books books'
  post :
      (id : ℕ) (books' : Books)
      → apply_journal_posting id books ≡ some books'
      → Step chart books books'
  reject :
      (id : ℕ) (books' : Books)
      → reject_journal_posting id books ≡ some books'
      → Step chart books books'
  automatic :
      (lines : List JournalLine) (date : ℕ) (books' : Books)
      → is_balanced lines ≡ true
      → IsJoined chart lines
      → post_automatic date lines books ≡ some books'
      → Step chart books books'

pub data Reach (chart : ℕ → Category) (books : Books) : Books → Type 0 where
  here : Reach chart books books
  next : {mid last : Books} → Reach chart books mid → Step chart mid last → Reach chart books last

abbrev pub IsFair : (ℕ → Category) → Journal → Type 0
IsFair chart j = (is_posted j.status ≡ true → is_balanced j.lines ≡ true) × IsJoined chart j.lines

pub All-row :
    {A : Type 0} (P : A → Type 0) (n : ℕ) (l : List A) (x : A) → row n l ≡ some x → All P l → P x
All-row P n [] x e h = cc
All-row P zero (y ∷ l) x e (p, h) = subst P (some-injective _ _ e) p
All-row P (suc n) (y ∷ l) x e (p, h) = All-row P n l x e h

pub All-replace_row :
    {A : Type 0} (P : A → Type 0) (n : ℕ) (l : List A) (y : A)
    → P y
    → All P l
    → All P (replace_row n y l)
All-replace_row P n [] y q h = tt
All-replace_row P zero (x ∷ l) y q (p, h) = (q, h)
All-replace_row P (suc n) (x ∷ l) y q (p, h) = (p, All-replace_row P n l y q h)

join_lines_inv :
    (l : LineInput) (lines : List LineInput) (accounts : Table GlAccount)
    (joined : List JournalLine)
    → join_lines (l ∷ lines) accounts ≡ some joined
    → (a : GlAccount) × (get l.account_id accounts ≡ some a)
      × (later : List JournalLine) × (join_lines lines accounts ≡ some later)
      × (joined
          ≡ (record {
            account_id = l.account_id;
            category = a.category;
            debit = l.debit;
            credit = l.credit;
          })
            ∷ later)
join_lines_inv l lines accounts joined h = elim (Option-cases (get l.account_id accounts)) [
  | inl e ↦ absurd (ground (arith, h))
  | inr (a, e) ↦ elim (Option-cases (join_lines lines accounts)) [
    | inl e' ↦ absurd (ground (arith, h))
    | inr (later, e') ↦ (a, e, later, e', some-injective _ _ (sym h ∙ rw (join_lines, e, e') refl))
  ]
]

join_lines-IsJoined :
    (chart : ℕ → Category) (lines : List LineInput) (accounts : Table GlAccount)
    (joined : List JournalLine)
    → IsChart chart accounts
    → join_lines lines accounts ≡ some joined
    → IsJoined chart joined
join_lines-IsJoined chart [] accounts joined c h = rw (← some-injective _ _ h) tt
join_lines-IsJoined chart (l ∷ lines) accounts joined c h =
    let (a, found, later, rest, e) = join_lines_inv l lines accounts joined h in
    rw e (
      c l.account_id a.category (rw (category_of, found) refl),
      join_lines-IsJoined chart lines accounts later c rest,
    )

-- What the handlers keep: posted journals are balanced, all lines carry their accounts' categories.
pub record Inv (chart : ℕ → Category) (books : Books) : Type 0 where
  pub fair : All (IsFair chart) books.journals
  pub charted : IsChart chart books.accounts

pub create-Inv :
    (chart : ℕ → Category) (lines : List LineInput) (date : ℕ) (books books' : Books)
    → create_journal lines date books ≡ ok books'
    → Inv chart books
    → Inv chart books'
unfolding create_journal
create-Inv chart lines date books books' h inv =
    let (_, r1) = guard-eq-ok (leb 2 (length lines)) _ _ h in
    let (_, r2) = guard-eq-ok (all is_one_sided lines) _ _ r1 in
    let (_, r3) = guard-eq-ok (is_balanced_input lines) _ _ r2 in
    let (_, r4) = guard-eq-ok (is_postable books.periods date) _ _ r3 in
    let (joined, found, last) = require-eq-ok (join_lines lines books.accounts) _ _ r4 in
    rw (← ok-injective last) (record {
      fair = All-append (IsFair chart) books.journals _ inv.fair (
        ((λ p. cc), join_lines-IsJoined chart lines books.accounts joined inv.charted found),
        tt,
      );
      charted = inv.charted;
    })

-- Only the status of a journal changes, to one that is not POSTED.
pub unposted-Inv :
    (chart : ℕ → Category) (id : ℕ) (j : Journal) (status : JournalStatus) (books : Books)
    → row id books.journals ≡ some j
    → is_posted status ≡ false
    → Inv chart books
    → Inv chart
        (record books { journals = replace_row id (record j { status = status }) books.journals })
unposted-Inv chart id j status books found e inv = record {
  fair =
      All-replace_row (IsFair chart) id books.journals (record j { status = status })
        ((λ p. cc), (All-row (IsFair chart) id books.journals j found inv.fair).1) inv.fair;
  charted = inv.charted;
}

pub request-Inv :
    (chart : ℕ → Category) (id : ℕ) (books books' : Books)
    → request_posting id books ≡ ok books'
    → Inv chart books
    → Inv chart books'
unfolding request_posting
request-Inv chart id books books' h inv =
    let (j, found, rest) = require-eq-ok (row id books.journals) _ _ h in
    let (_, last) = guard-eq-ok (is_draft j.status) _ _ rest in
    rw (← ok-injective last)
      (unposted-Inv chart id j JournalStatus.pending_approval books found refl inv)

pub reject-Inv :
    (chart : ℕ → Category) (id : ℕ) (books books' : Books)
    → reject_journal_posting id books ≡ some books'
    → Inv chart books
    → Inv chart books'
unfolding reject_journal_posting
reject-Inv chart id books books' h inv = elim (Option-cases (row id books.journals)) [
  | inl e ↦ absurd (ground (arith, h))
  | inr (j, e) ↦
      let back : books' ≡ record books {
        journals = replace_row id (record j { status = JournalStatus.draft }) books.journals;
      } =
        some-injective _ _ (sym h ∙ rw (reject_journal_posting, e) refl) in
      rw back (unposted-Inv chart id j JournalStatus.draft books e refl inv)
]

pub IsChart-post_lines :
    (chart : ℕ → Category) (lines : List JournalLine) (t t' : Table GlAccount)
    → post_lines lines t ≡ some t'
    → IsChart chart t
    → IsChart chart t'
IsChart-post_lines chart lines t t' posted c id k e =
    c id k (sym (category_of-post_lines id lines t t' posted) ∙ e)
