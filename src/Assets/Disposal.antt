-- ===== src/Assets/Disposal.antt =====
-- Disposing of an asset: `/disposals` of api/src/routes/asset.routes.ts, the cases ASSET_DISPOSAL of
-- api/src/routes/approvals.routes.ts, and the totals of the disposal's journal. A disposal's id is
-- its position.
use nexus_efos.Common.{
  ℕ, ◌+◌, ◌<◌, ◌≡◌, Bool, true, false, not, Option, none, some, any, all, ltb, if◌then◌else◌, arith,
  sum_by, sum_by-cons, sum_by-append, refl, ◌≤◌, Bool-cases, inl, inr, ◌==◌,
}
use nexus_efos.Common.Int.{ℤ, pos, negsuc, pos_part, neg_part, ltb_ℤ, int_laws}
use nexus_efos.Common.Rounding.{round2-one, round2_ℤ-one}
use nexus_efos.Common.Table.{Table, get, set}
use nexus_efos.Common.Result.{
  Result, ok, guard, require, ◌>>=◌, ◌>>◌, bad_request, not_found, server_error,
}
use nexus_efos.Ledger.Posting.{Books}
use nexus_efos.Ledger.Journals.{is_balanced_input, is_one_sided}
use nexus_efos.Ledger.Journals.Lines.{is_nonzero, sum_by-filter, filtered_one_sided}
use nexus_efos.Assets.{
  AssetGlPurpose, Asset, AssetDisposal, DisposalStatus, AssetStatus, AssetStore, is_disposed,
  gain_loss, disposal_lines, proceeds_lines, difference_lines, build_asset_disposal_lines,
  post_if_open,
}

-- `disposalType === "SALE" && !saleProceeds`: a sale for nothing is refused too.
abbrev lacks_proceeds : Bool → Option ℕ → Bool
lacks_proceeds false proceeds = false
lacks_proceeds true none = true
lacks_proceeds true (some proceeds) = proceeds == 0

-- The unique constraint on the asset of a disposal, rejected ones included.
abbrev pub has_disposal : ℕ → Table AssetDisposal → Bool
has_disposal id disposals = any (λ row. row.1.asset_id == id) disposals

-- `/disposals`; a second disposal of an asset is an exception of the database.
unfoldable pub request_disposal : ℕ → ℕ → Bool → Option ℕ → AssetStore → Result AssetStore
unfolding lacks_proceeds
request_disposal disposal_id id is_sale sale_proceeds store =
    guard (not (lacks_proceeds is_sale sale_proceeds)) bad_request
    >> (require (get id store.assets) not_found >>= (λ asset.
        guard (not (is_disposed asset.status)) bad_request
        >> guard (not (has_disposal id store.disposals)) server_error
        >> ok (record store {
          disposals =
              set disposal_id
                (record {
                  asset_id = id;
                  sale_proceeds = sale_proceeds;
                  status = DisposalStatus.pending_approval;
                })
                store.disposals;
        })))

abbrev proceeds_or_zero : Option ℕ → ℕ
proceeds_or_zero none = 0
proceeds_or_zero (some proceeds) = proceeds

-- A purpose without a mapping is an undefined account id; its line would fail the foreign key.
abbrev account_ids_of : (AssetGlPurpose → Option ℕ) → AssetGlPurpose → ℕ
account_ids_of mappings purpose = elim (mappings purpose) [ none ↦ 0 | some id ↦ id ]

-- The journal, where fixed assets and their depreciation are mapped.
abbrev post_disposal : ℕ → Asset → AssetDisposal → AssetStore → Option Books
post_disposal today asset disposal store = elim (store.mappings AssetGlPurpose.fixed_asset) [
  | none ↦ some store.books
  | some fixed ↦ elim (store.mappings AssetGlPurpose.accumulated_depreciation_of) [
    | none ↦ some store.books
    | some accumulated ↦
        let lines =
          build_asset_disposal_lines asset.acquisition_cost asset.accumulated_depreciation
            (proceeds_or_zero disposal.sale_proceeds) (account_ids_of store.mappings) in
        if is_balanced_input lines then post_if_open today lines store.books else some store.books
  ]
]

-- The case ASSET_DISPOSAL of `applyApproval`, in the approval's transaction.
unfoldable pub apply_disposal : ℕ → ℕ → AssetStore → Option AssetStore
unfolding post_disposal
apply_disposal today disposal_id store = elim (get disposal_id store.disposals) [
  | none ↦ none
  | some disposal ↦ elim (get disposal.asset_id store.assets) [
    | none ↦ none
    | some asset ↦ elim (post_disposal today asset disposal store) [
      | none ↦ none
      | some books ↦ some (record store {
        books = books;
        disposals =
            set disposal_id (record disposal { status = DisposalStatus.approved }) store.disposals;
        assets =
            set disposal.asset_id (record asset { status = AssetStatus.disposed }) store.assets;
      })
    ]
  ]
]

-- The case of `/reject`.
unfoldable pub reject_disposal : ℕ → AssetStore → Option AssetStore
reject_disposal disposal_id store = elim (get disposal_id store.disposals) [
  | none ↦ none
  | some disposal ↦ some (record store {
    disposals =
        set disposal_id (record disposal { status = DisposalStatus.rejected }) store.disposals;
  })
]

module _ (account_ids : AssetGlPurpose → ℕ) where
  proceeds_totals :
      (proceeds : ℕ)
      → (sum_by (λ l. l.debit) (proceeds_lines proceeds account_ids) ≡ proceeds)
        × (sum_by (λ l. l.credit) (proceeds_lines proceeds account_ids) ≡ 0)
  unfolding sum_by
  proceeds_totals proceeds = elim (Bool-cases (ltb 0 proceeds)) [
    | inl some_proceeds ↦ simp some_proceeds (omega arith, omega arith)
    | inr no_proceeds ↦ simp no_proceeds (ground arith, omega arith)
  ]

  difference_totals :
      (g : ℤ)
      → (sum_by (λ l. l.debit) (difference_lines g account_ids) ≡ neg_part g)
        × (sum_by (λ l. l.credit) (difference_lines g account_ids) ≡ pos_part g)
  unfolding sum_by
  difference_totals (pos n) = elim (Bool-cases (ltb_ℤ (pos 0) (pos n))) [
    | inl gained ↦ simp gained (omega arith, omega arith)
    | inr none_gained ↦ let nothing : n ≡ 0 = ground arith in rw nothing (refl, refl)
  ]
  difference_totals (negsuc n) =
      let none_gained : ltb_ℤ (pos 0) (negsuc n) ≡ false = ground arith in
      let lost : ltb_ℤ (negsuc n) (pos 0) ≡ true = ground arith in
      simp (none_gained, lost) (omega arith, omega arith)

  gain_loss_parts :
      (cost acc proceeds : ℕ)
      → pos_part (gain_loss cost acc proceeds) + cost
        ≡ neg_part (gain_loss cost acc proceeds) + proceeds + acc
  gain_loss_parts cost acc proceeds = rw (round2_ℤ-one, round2_ℤ-one) (omega int_laws)

  disposal_totals :
      (cost acc proceeds : ℕ)
      → (sum_by (λ l. l.debit) (disposal_lines cost acc proceeds account_ids)
          ≡ sum_by (λ l. l.credit) (disposal_lines cost acc proceeds account_ids))
        × (cost ≤ sum_by (λ l. l.credit) (disposal_lines cost acc proceeds account_ids))
  disposal_totals cost acc proceeds =
      simp
        (
          sum_by-cons,
          sum_by-append,
          (proceeds_totals proceeds).0,
          (proceeds_totals proceeds).1,
          (difference_totals (gain_loss cost acc proceeds)).0,
          (difference_totals (gain_loss cost acc proceeds)).1,
        )
        (omega (arith, gain_loss_parts cost acc proceeds), omega arith)

-- For an asset that cost something, the journal of its disposal passes the checks that `/journals`
-- makes of its lines, whatever the accumulated depreciation and the proceeds: each line is either a
-- debit or a credit, and the debits are the credits.
pub disposal_balances :
    (cost acc proceeds : ℕ) (account_ids : AssetGlPurpose → ℕ)
    → 0 < cost
    → let lines = build_asset_disposal_lines cost acc proceeds account_ids in
      (is_balanced_input lines ≡ true) × (all is_one_sided lines ≡ true)
unfolding build_asset_disposal_lines
disposal_balances cost acc proceeds account_ids some_cost =
    let all_lines = disposal_lines cost acc proceeds account_ids in
    let (equal, some_credit) = disposal_totals account_ids cost acc proceeds in
    (
      rw
          (
            sum_by-filter (λ l. l.debit) is_nonzero all_lines (λ x e. ground (arith, e)),
            sum_by-filter (λ l. l.credit) is_nonzero all_lines (λ x e. ground (arith, e)),
            equal,
            round2-one,
          )
          (ground (arith, some_cost, some_credit)),
      filtered_one_sided all_lines (ground arith),
    )
