-- ===== src/Ledger/CashFlow.antt =====
-- The cash flow statement, api/src/lib/cashFlowStatement.ts: the change of every account but the
-- liquid ones, by activity, against the change of the liquid ones.
use nexus_efos.Common.{
  ℕ, ◌≡◌, refl, ◌∙◌, Bool, true, false, not, List, [], ◌∷◌, filter, if◌then◌else◌, ltb, arith,
  Bool-cases, inl, inr, sum_by_ℤ, sum_by_ℤ-nil, sum_by_ℤ-cons, All, ◌⊎◌,
}
use nexus_efos.Common.Int.{ℤ, pos, ◌+ℤ◌, ◌-ℤ◌, abs, parts_of_eq, int_laws}
use nexus_efos.Common.Rounding.{round2_ℤ, round2_ℤ-one}
use nexus_efos.Ledger.{Category, is_debit_normal}

pub data Activity : Type 0 where
  operating investing financing untagged : Activity

pub record CashFlowAccountMovement : Type 0 where
  pub account_id : ℕ
  pub category : Category
  pub activity : Activity
  pub is_liquid_asset : Bool
  pub opening_balance : ℤ
  pub closing_balance : ℤ

abbrev pub cash_effect : Category → ℤ → ℤ
cash_effect category change = if is_debit_normal category then pos 0 -ℤ change else change

pub record CashFlowStatement : Type 0 where
  pub operating : ℤ
  pub investing : ℤ
  pub financing : ℤ
  pub net_change : ℤ
  pub cash_opening : ℤ
  pub cash_closing : ℤ
  pub reconciles : Bool

abbrev pub effect_of : CashFlowAccountMovement → ℤ
effect_of m = cash_effect m.category (round2_ℤ (m.closing_balance -ℤ m.opening_balance) 1)

-- The three sums that the loop keeps.
pub record Flows : Type 0 where
  pub operating_flow : ℤ
  pub investing_flow : ℤ
  pub financing_flow : ℤ

abbrev pub add_flow : Activity → ℤ → Flows → Flows
add_flow Activity.investing effect f = record f { investing_flow = f.investing_flow +ℤ effect }
add_flow Activity.financing effect f = record f { financing_flow = f.financing_flow +ℤ effect }
add_flow Activity.operating effect f = record f { operating_flow = f.operating_flow +ℤ effect }
add_flow Activity.untagged effect f = record f { operating_flow = f.operating_flow +ℤ effect }

abbrev pub flows_from : Flows → List CashFlowAccountMovement → Flows
flows_from f [] = f
flows_from f (m ∷ movements) = flows_from (add_flow m.activity (effect_of m) f) movements

abbrev pub no_flows : Flows
no_flows = record { operating_flow = pos 0; investing_flow = pos 0; financing_flow = pos 0 }

unfoldable pub build_cash_flow_statement : List CashFlowAccountMovement → CashFlowStatement
build_cash_flow_statement movements =
    let flows = flows_from no_flows (filter (λ m. not m.is_liquid_asset) movements) in
    let cash_accounts = filter (λ m. m.is_liquid_asset) movements in
    let cash_opening = round2_ℤ (sum_by_ℤ (λ m. m.opening_balance) cash_accounts) 1 in
    let cash_closing = round2_ℤ (sum_by_ℤ (λ m. m.closing_balance) cash_accounts) 1 in
    let net_change =
      round2_ℤ (flows.operating_flow +ℤ flows.investing_flow +ℤ flows.financing_flow) 1 in
    record {
      operating = round2_ℤ flows.operating_flow 1;
      investing = round2_ℤ flows.investing_flow 1;
      financing = round2_ℤ flows.financing_flow 1;
      net_change = net_change;
      cash_opening = cash_opening;
      cash_closing = cash_closing;
      reconciles = ltb (abs (round2_ℤ (cash_closing -ℤ cash_opening) 1 -ℤ net_change)) 2;
    }

abbrev flow_total : Flows → ℤ
flow_total f = f.operating_flow +ℤ f.investing_flow +ℤ f.financing_flow

flow_total-add_flow :
    (a : Activity) (e : ℤ) (f : Flows) → flow_total (add_flow a e f) ≡ flow_total f +ℤ e
flow_total-add_flow Activity.investing e f = omega int_laws
flow_total-add_flow Activity.financing e f = omega int_laws
flow_total-add_flow Activity.operating e f = omega int_laws
flow_total-add_flow Activity.untagged e f = omega int_laws

flow_total-flows_from :
    (f : Flows) (ms : List CashFlowAccountMovement)
    → flow_total (flows_from f ms) ≡ flow_total f +ℤ sum_by_ℤ effect_of ms
flow_total-flows_from f [] = rw sum_by_ℤ-nil (omega int_laws)
flow_total-flows_from f (m ∷ ms) =
    flow_total-flows_from (add_flow m.activity (effect_of m) f) ms
    ∙ rw (flow_total-add_flow, sum_by_ℤ-cons) (omega int_laws)

-- A balance counted on the debit side.
abbrev pub debit_side : Category → ℤ → ℤ
debit_side category balance = if is_debit_normal category then balance else pos 0 -ℤ balance

abbrev pub IsLiquidAsset : CashFlowAccountMovement → Type 0
IsLiquidAsset m = (m.is_liquid_asset ≡ false) ⊎ (is_debit_normal m.category ≡ true)

effect_lem :
    (m : CashFlowAccountMovement)
    → effect_of m +ℤ debit_side m.category m.closing_balance
      ≡ debit_side m.category m.opening_balance
effect_lem m = elim (Bool-cases (is_debit_normal m.category)) [
  | inl debit ↦ simp (debit, round2_ℤ-one) (omega int_laws)
  | inr credit ↦ simp (credit, round2_ℤ-one) (omega int_laws)
]

liquid_flows :
    (ms : List CashFlowAccountMovement)
    → All IsLiquidAsset ms
    → sum_by_ℤ effect_of (filter (λ m. not m.is_liquid_asset) ms)
        +ℤ sum_by_ℤ (λ m. debit_side m.category m.closing_balance) ms
        +ℤ sum_by_ℤ (λ m. m.opening_balance) (filter (λ m. m.is_liquid_asset) ms)
      ≡ sum_by_ℤ (λ m. debit_side m.category m.opening_balance) ms
        +ℤ sum_by_ℤ (λ m. m.closing_balance) (filter (λ m. m.is_liquid_asset) ms)
liquid_flows [] h = simp sum_by_ℤ-nil (omega int_laws)
liquid_flows (m ∷ ms) (hm, h) = elim (Bool-cases m.is_liquid_asset) [
  | inl liquid ↦
      let debit : is_debit_normal m.category ≡ true = elim hm [
        | inl unmarked ↦ absurd (ground arith)
        | inr marked ↦ marked
      ] in
      simp (liquid, sum_by_ℤ-cons, debit) (omega (int_laws, parts_of_eq _ _ (liquid_flows ms h)))
  | inr other ↦
      simp (other, sum_by_ℤ-cons)
        (omega (int_laws, parts_of_eq _ _ (liquid_flows ms h), parts_of_eq _ _ (effect_lem m)))
]

no_distance : (a : ℤ) → ltb (abs (a -ℤ a)) 2 ≡ true
no_distance a = let none_apart : a -ℤ a ≡ pos 0 = omega int_laws in rw none_apart refl

-- If the ledger balances at the opening and at the closing date, and every liquid account is an
-- asset or expense account, the net change by activity is the change in cash, and the statement
-- says that it reconciles.
pub statement_reconciles :
    (movements : List CashFlowAccountMovement)
    → All IsLiquidAsset movements
    → sum_by_ℤ (λ m. debit_side m.category m.opening_balance) movements ≡ pos 0
    → sum_by_ℤ (λ m. debit_side m.category m.closing_balance) movements ≡ pos 0
    → let statement = build_cash_flow_statement movements in
      (statement.net_change ≡ statement.cash_closing -ℤ statement.cash_opening)
      × (statement.reconciles ≡ true)
unfolding build_cash_flow_statement
statement_reconciles movements liquid opened closed =
    let non_cash = filter (λ (m : CashFlowAccountMovement). not m.is_liquid_asset) movements in
    let flows = flow_total-flows_from no_flows non_cash in
    let cash = liquid_flows movements liquid in
    let closing =
      sum_by_ℤ (λ (m : CashFlowAccountMovement). m.closing_balance)
        (filter (λ m. m.is_liquid_asset) movements) in
    let opening =
      sum_by_ℤ (λ (m : CashFlowAccountMovement). m.opening_balance)
        (filter (λ m. m.is_liquid_asset) movements) in
    let net : flow_total (flows_from no_flows non_cash) ≡ closing -ℤ opening = omega (
      int_laws,
      parts_of_eq _ _ flows,
      parts_of_eq _ _ cash,
      parts_of_eq _ _ opened,
      parts_of_eq _ _ closed,
    ) in
    simp (round2_ℤ-one, net) (refl, no_distance (closing -ℤ opening))
