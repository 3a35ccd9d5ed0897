-- ===== src/Assets/Tests.antt =====
-- One asset, over its last months and at its disposal.
use nexus_efos.Common.{ℕ, ◌≡◌, true, some, none, Option, List, [], ◌∷◌, arith, all, inl}
use nexus_efos.Ledger.Journals.{is_balanced_input, is_one_sided}
use nexus_efos.Assets.{
  Asset, AssetStatus, AssetStore, AssetGlPurpose, DepreciationMethod, build_asset_disposal_lines,
}
use nexus_efos.Assets.Disposal.{disposal_balances}
use nexus_efos.Assets.Depreciation.{AllDepreciating, run, depreciation_ends_at_residual}

abbrev account_ids : AssetGlPurpose → ℕ
account_ids _ = 7

disposal_balances_example :
    let lines = build_asset_disposal_lines 100000 40000 45000 account_ids in
    (is_balanced_input lines ≡ true) × (all is_one_sided lines ≡ true)
disposal_balances_example = disposal_balances 100000 40000 45000 account_ids (omega arith)

abbrev machine : Asset
machine = record {
  acquisition_cost = 100000;
  residual_value = 10000;
  useful_life_months = 2;
  method = DepreciationMethod.straight_line;
  annual_rate = none;
  accumulated_depreciation = 0;
  status = AssetStatus.active;
  entries = [];
}

abbrev store : AssetStore
store = record {
  assets = (1, machine) ∷ [];
  disposals = [];
  mappings = λ purpose. none;
  books = record { accounts = []; periods = []; journals = [] };
}

abbrev calls : List (ℕ × Option ℕ × ℕ)
calls = (1, some 1, 31) ∷ (1, some 2, 59) ∷ (1, some 3, 90) ∷ []

depreciation_ends_at_residual_example : AllDepreciating (run calls store)
depreciation_ends_at_residual_example = depreciation_ends_at_residual calls store (
  record {
    above_residual = omega arith;
    in_life = omega arith;
    ends_at_residual = inl (omega arith);
  },
  tt,
)
