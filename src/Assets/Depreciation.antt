-- ===== src/Assets/Depreciation.antt =====
-- Depreciation month by month, of api/src/lib/assetDepreciation.ts and the route
-- `/assets/:id/process-depreciation`.
use nexus_efos.Common.{
  ℕ, zero, suc, ◌+◌, ◌-◌, ◌*◌, ◌≤◌, ◌<◌, ◌≡◌, subst, true, not, Option, List, [], ◌∷◌, ◌++◌, ltb,
  leb, leb→le, ◌==◌, arith, Bool-cases, inl, inr, length, length-append, ◌⊎◌, le→leb, ltb→lt, any,
  All,
}
use nexus_efos.Common.Rounding.{round2, round2-one, round2_le}
use nexus_efos.Common.Table.{get}
use nexus_efos.Common.Table.Sums.{All-get, All-set}
use nexus_efos.Common.Result.{
  ok, settle, settle-keeps, bad_request, not_found, server_error, guard-eq-ok, require-eq-ok,
  ok-injective,
}
use nexus_efos.Assets.{
  Asset, AssetStore, DepreciationInput, DepreciationMethod, round_min, regular_amount, is_disposed,
  depreciation_input, post_depreciation, calculate_monthly_depreciation, process_depreciation,
}

abbrev remaining_of : DepreciationInput → ℕ
remaining_of input =
    input.acquisition_cost - input.accumulated_depreciation_so_far - input.residual_value

round2_below : (a d r : ℕ) → a ≤ r * d → round2 a d ≤ r
unfolding round2
round2_below a zero r h = omega arith
round2_below a (suc d) r h = round2_le a (suc d) r (omega arith) h

round_min_le : (a d r : ℕ) → round_min a d r ≤ r
round_min_le a d r = elim (Bool-cases (leb a (r * d))) [
  | inl below ↦ simp below (round2_below a d r (leb→le a (r * d) below))
  | inr above ↦ simp above (omega (arith, round2-one r))
]

regular_amount_le :
    (m : DepreciationMethod) (input : DepreciationInput) (r : ℕ) → regular_amount m input r ≤ r
regular_amount_le DepreciationMethod.straight_line input r = round_min_le _ _ r
regular_amount_le DepreciationMethod.reducing_balance input r = round_min_le _ _ r

-- No month takes more than what is left above the residual value.
pub monthly_le_remaining :
    (input : DepreciationInput) → calculate_monthly_depreciation input ≤ remaining_of input
unfolding calculate_monthly_depreciation
monthly_le_remaining input = elim (Bool-cases (leb (remaining_of input) 0)) [
  | inl done ↦ simp done (omega arith)
  | inr left ↦ elim (Bool-cases (leb input.useful_life_months (input.months_elapsed + 1))) [
    | inl final ↦ simp (left, final) (omega (arith, round2-one (remaining_of input)))
    | inr regular ↦ simp (left, regular) (regular_amount_le input.method input (remaining_of input))
  ]
]

-- In its last month, an asset loses all that is left.
last_month :
    (input : DepreciationInput)
    → input.useful_life_months ≤ input.months_elapsed + 1
    → calculate_monthly_depreciation input ≡ remaining_of input
unfolding calculate_monthly_depreciation
last_month input h = elim (Bool-cases (leb (remaining_of input) 0)) [
  | inl done ↦ simp done (ground arith)
  | inr left ↦
      simp (left, le→leb input.useful_life_months (input.months_elapsed + 1) h)
        (round2-one (remaining_of input))
]

-- The books of an asset: never below the residual value, never more entries than months of useful
-- life, and at the residual value by the last of them.
pub record IsDepreciating (a : Asset) : Type 0 where
  pub above_residual : a.accumulated_depreciation + a.residual_value ≤ a.acquisition_cost
  pub in_life : length a.entries ≤ a.useful_life_months
  pub ends_at_residual :
      (length a.entries < a.useful_life_months)
      ⊎ (a.accumulated_depreciation + a.residual_value ≡ a.acquisition_cost)

abbrev pub AllDepreciating : AssetStore → Type 0
AllDepreciating store = All (λ e. IsDepreciating e.1) store.assets

abbrev depreciated : Asset → ℕ → Asset
depreciated asset label = record asset {
  accumulated_depreciation =
      round2
        (asset.accumulated_depreciation + calculate_monthly_depreciation (depreciation_input asset))
        1;
  entries = asset.entries ++ label ∷ [];
}

depreciated-IsDepreciating :
    (asset : Asset) (label : ℕ)
    → IsDepreciating asset
    → ltb 0 (calculate_monthly_depreciation (depreciation_input asset)) ≡ true
    → IsDepreciating (depreciated asset label)
depreciated-IsDepreciating asset label h some_amount =
    let input = depreciation_input asset in
    let bound = monthly_le_remaining input in
    let positive = ltb→lt 0 (calculate_monthly_depreciation input) some_amount in
    let one_more = length-append asset.entries (label ∷ []) in
    let rounded =
      round2-one (asset.accumulated_depreciation + calculate_monthly_depreciation input) in
    let unfinished : length asset.entries < asset.useful_life_months = elim h.ends_at_residual [
      | inl young ↦ young
      | inr done ↦ absurd (omega (arith, h.above_residual))
    ] in
    record {
      above_residual = omega (arith, h.above_residual);
      in_life = omega arith;
      ends_at_residual =
          elim (Bool-cases (ltb (length asset.entries + 1) asset.useful_life_months)) [
            | inl young ↦ inl (ground arith)
            | inr last ↦ inr (omega (arith, last_month input (ground arith), h.above_residual))
          ];
    }

-- A call of the route that is not refused keeps this of every asset.
process-keeps-AllDepreciating :
    (id : ℕ) (label : Option ℕ) (today : ℕ) (store store' : AssetStore)
    → AllDepreciating store
    → process_depreciation id label today store ≡ ok store'
    → AllDepreciating store'
unfolding process_depreciation
process-keeps-AllDepreciating id label today store store' inv h =
    let (l, given, h1) = require-eq-ok label bad_request _ h in
    let (asset, found, h2) = require-eq-ok (get id store.assets) not_found _ h1 in
    let (usable, h3) = guard-eq-ok (not (is_disposed asset.status)) bad_request _ h2 in
    let (unposted, h4) = guard-eq-ok (not (any (λ e. e == l) asset.entries)) bad_request _ h3 in
    let (some_amount, h5) =
      guard-eq-ok (ltb 0 (calculate_monthly_depreciation (depreciation_input asset))) bad_request _
        h4 in
    let (books, posted, last) = require-eq-ok (post_depreciation today _ store) server_error _ h5 in
    let before = All-get IsDepreciating id asset store.assets found inv in
    let kept =
      All-set IsDepreciating id (depreciated asset l) store.assets
        (depreciated-IsDepreciating asset l before some_amount) inv in
    subst AllDepreciating (ok-injective last) kept

-- A sequence of calls, each with an asset, a period label and a date; a refused one changes nothing.
abbrev after : AssetStore → ℕ × Option ℕ × ℕ → AssetStore
after store (id, label, today) = settle store (process_depreciation id label today store)

abbrev pub run : List (ℕ × Option ℕ × ℕ) → AssetStore → AssetStore
run [] store = store
run (call ∷ calls) store = run calls (after store call)

after-keeps-AllDepreciating :
    (store : AssetStore) (call : ℕ × Option ℕ × ℕ)
    → AllDepreciating store
    → AllDepreciating (after store call)
after-keeps-AllDepreciating store (id, label, today) inv =
    settle-keeps AllDepreciating store (process_depreciation id label today store) inv
      (λ s' done. process-keeps-AllDepreciating id label today store s' inv done)

-- If it holds of the assets at first, as it does of one that was just acquired for no less than its
-- residual value, then after any sequence of monthly calls, refused ones included, every asset has
-- at most as many depreciation entries as months of useful life, is not below its residual value,
-- and with its last month stands exactly at the residual value.
pub depreciation_ends_at_residual :
    (calls : List (ℕ × Option ℕ × ℕ)) (store : AssetStore)
    → AllDepreciating store
    → AllDepreciating (run calls store)
depreciation_ends_at_residual [] store inv = inv
depreciation_ends_at_residual (call ∷ calls) store inv =
    depreciation_ends_at_residual calls (after store call)
      (after-keeps-AllDepreciating store call inv)
