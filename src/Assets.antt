-- ===== src/Assets.antt =====
-- Fixed assets: api/src/lib/assetAccounting.ts, api/src/lib/assetDepreciation.ts, the depreciation
-- and disposal routes of api/src/routes/asset.routes.ts, and what the approval of a disposal does,
-- in api/src/routes/approvals.routes.ts. A GL account that a purpose is mapped to exists, by its
-- foreign key, so posting to it raises no exception; `none` there is a 500.
mod Tests
pub mod Disposal
pub mod Depreciation
use nexus_efos.Common.{
  ℕ, ◌+◌, ◌-◌, ◌*◌, Bool, true, false, not, ◌&&◌, Option, none, some, List, [], ◌∷◌, ◌++◌, filter,
  any, length, ltb, leb, ◌==◌, if◌then◌else◌,
}
use nexus_efos.Common.Int.{ℤ, pos, pos_part, neg_part, ◌-ℤ◌, ltb_ℤ}
use nexus_efos.Common.Rounding.{round2, round2_ℤ}
use nexus_efos.Common.Table.{Table, get, set}
use nexus_efos.Common.Result.{
  Result, ok, err, guard, require, ◌>>=◌, ◌>>◌, bad_request, not_found, server_error,
}
use nexus_efos.Ledger.{JournalLine}
use nexus_efos.Ledger.Posting.{Books, is_postable, post_automatic}
use nexus_efos.Ledger.Journals.{LineInput, join_lines, is_balanced_input}
use nexus_efos.Ledger.Journals.Lines.{debit_line, credit_line, is_nonzero}

pub data AssetGlPurpose : Type 0 where
  fixed_asset depreciation_expense accumulated_depreciation_of cash_acquisition cash_disposal gain
        loss :
      AssetGlPurpose

unfoldable pub build_asset_acquisition_lines : ℕ → ℕ → ℕ → List LineInput
build_asset_acquisition_lines cost fixed cash = debit_line fixed cost ∷ credit_line cash cost ∷ []

unfoldable pub build_asset_depreciation_lines : ℕ → ℕ → ℕ → List LineInput
build_asset_depreciation_lines amount expense accumulated =
    debit_line expense amount ∷ credit_line accumulated amount ∷ []

-- `round2(saleProceeds - netBookValue)`
abbrev pub gain_loss : ℕ → ℕ → ℕ → ℤ
gain_loss acquisition_cost accumulated_depreciation sale_proceeds =
    let net_book_value = round2_ℤ (pos acquisition_cost -ℤ pos accumulated_depreciation) 1 in
    round2_ℤ (pos sale_proceeds -ℤ net_book_value) 1

abbrev pub proceeds_lines : ℕ → (AssetGlPurpose → ℕ) → List LineInput
proceeds_lines sale_proceeds account_ids =
    if ltb 0 sale_proceeds
    then debit_line (account_ids AssetGlPurpose.cash_disposal) sale_proceeds ∷ []
    else []

abbrev pub difference_lines : ℤ → (AssetGlPurpose → ℕ) → List LineInput
difference_lines difference account_ids =
    if ltb_ℤ (pos 0) difference
    then credit_line (account_ids AssetGlPurpose.gain) (pos_part difference) ∷ []
    else (if ltb_ℤ difference (pos 0)
        then debit_line (account_ids AssetGlPurpose.loss) (neg_part difference) ∷ []
        else [])

-- The lines before the ones of no amount are left out.
abbrev pub disposal_lines : ℕ → ℕ → ℕ → (AssetGlPurpose → ℕ) → List LineInput
disposal_lines acquisition_cost accumulated_depreciation sale_proceeds account_ids =
    debit_line (account_ids AssetGlPurpose.accumulated_depreciation_of) accumulated_depreciation
      ∷ credit_line (account_ids AssetGlPurpose.fixed_asset) acquisition_cost
      ∷ proceeds_lines sale_proceeds account_ids
    ++ difference_lines (gain_loss acquisition_cost accumulated_depreciation sale_proceeds)
        account_ids

unfoldable pub build_asset_disposal_lines : ℕ → ℕ → ℕ → (AssetGlPurpose → ℕ) → List LineInput
build_asset_disposal_lines acquisition_cost accumulated_depreciation sale_proceeds account_ids =
    filter is_nonzero
      (disposal_lines acquisition_cost accumulated_depreciation sale_proceeds account_ids)

pub data DepreciationMethod : Type 0 where
  straight_line reducing_balance : DepreciationMethod

-- The yearly rate is in hundredths of a percent.
pub record DepreciationInput : Type 0 where
  pub acquisition_cost : ℕ
  pub residual_value : ℕ
  pub useful_life_months : ℕ
  pub method : DepreciationMethod
  pub annual_rate : Option ℕ
  pub accumulated_depreciation_so_far : ℕ
  pub months_elapsed : ℕ

-- `input.annualRate || 0`
abbrev pub rate_or_zero : Option ℕ → ℕ
rate_or_zero none = 0
rate_or_zero (some rate) = rate

-- `round2(Math.min(a / d, remaining))`
abbrev pub round_min : ℕ → ℕ → ℕ → ℕ
round_min a d remaining = if leb a (remaining * d) then round2 a d else round2 remaining 1

abbrev pub regular_amount : DepreciationMethod → DepreciationInput → ℕ → ℕ
regular_amount DepreciationMethod.straight_line input remaining =
    round_min (input.acquisition_cost - input.residual_value) input.useful_life_months remaining
regular_amount DepreciationMethod.reducing_balance input remaining =
    round_min
      ((input.acquisition_cost - input.accumulated_depreciation_so_far)
        * rate_or_zero input.annual_rate)
      (100 * 100 * 12) remaining

-- A remainder that is not positive is a difference of 0 here.
unfoldable pub calculate_monthly_depreciation : DepreciationInput → ℕ
calculate_monthly_depreciation input =
    let remaining =
      input.acquisition_cost - input.accumulated_depreciation_so_far - input.residual_value in
    if leb remaining 0
    then 0
    else (if leb input.useful_life_months (input.months_elapsed + 1)
        then round2 remaining 1
        else regular_amount input.method input remaining)

pub data AssetStatus : Type 0 where
  active under_maintenance disposed lost : AssetStatus

abbrev pub is_disposed : AssetStatus → Bool
is_disposed AssetStatus.disposed = true
is_disposed _ = false

-- An asset with the period labels of its depreciation entries.
pub record Asset : Type 0 where
  pub acquisition_cost : ℕ
  pub residual_value : ℕ
  pub useful_life_months : ℕ
  pub method : DepreciationMethod
  pub annual_rate : Option ℕ
  pub accumulated_depreciation : ℕ
  pub status : AssetStatus
  pub entries : List ℕ

pub data DisposalStatus : Type 0 where
  pending_approval approved rejected : DisposalStatus

pub record AssetDisposal : Type 0 where
  pub asset_id : ℕ
  pub sale_proceeds : Option ℕ
  pub status : DisposalStatus

pub record AssetStore : Type 0 where
  pub assets : Table Asset
  pub disposals : Table AssetDisposal
  pub mappings : AssetGlPurpose → Option ℕ
  pub books : Books

abbrev pub depreciation_input : Asset → DepreciationInput
depreciation_input asset = record {
  acquisition_cost = asset.acquisition_cost;
  residual_value = asset.residual_value;
  useful_life_months = asset.useful_life_months;
  method = asset.method;
  annual_rate = asset.annual_rate;
  accumulated_depreciation_so_far = asset.accumulated_depreciation;
  months_elapsed = length asset.entries;
}

-- The journal of a set of lines, where the period is open.
abbrev pub post_if_open : ℕ → List LineInput → Books → Option Books
post_if_open today lines books =
    if is_postable books.periods today
    then elim (join_lines lines books.accounts) [
      | none ↦ none
      | some joined ↦ post_automatic today joined books
    ]
    else some books

-- The journal of a depreciation, where both purposes are mapped.
abbrev pub post_depreciation : ℕ → ℕ → AssetStore → Option Books
post_depreciation today amount store = elim (store.mappings AssetGlPurpose.depreciation_expense) [
  | none ↦ some store.books
  | some expense ↦ elim (store.mappings AssetGlPurpose.accumulated_depreciation_of) [
    | none ↦ some store.books
    | some accumulated ↦
        post_if_open today (build_asset_depreciation_lines amount expense accumulated) store.books
  ]
]

-- `/assets/:id/process-depreciation`. Its writes are not in one transaction; they are taken to run
-- without interruption.
unfoldable pub process_depreciation : ℕ → Option ℕ → ℕ → AssetStore → Result AssetStore
process_depreciation id period_label today store = require period_label bad_request >>= (λ label.
    require (get id store.assets) not_found >>= (λ asset.
      guard (not (is_disposed asset.status)) bad_request
      >> (guard (not (any (λ e. e == label) asset.entries)) bad_request
          >> (let amount = calculate_monthly_depreciation (depreciation_input asset) in
              guard (ltb 0 amount) bad_request
              >> (require (post_depreciation today amount store) server_error >>= (λ books.
                  ok (record store {
                    books = books;
                    assets =
                        set id
                          (record asset {
                            accumulated_depreciation =
                                round2 (asset.accumulated_depreciation + amount) 1;
                            entries = asset.entries ++ label ∷ [];
                          })
                          store.assets;
                  })))))))
