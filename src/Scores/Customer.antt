-- ===== src/Scores/Customer.antt =====
-- The customer risk score, `calculateCustomerRiskScore` of api/src/lib/customerRiskScoring.ts.
use nexus_efos.Common.{
  ℕ, ◌+◌, ◌≡◌, arith, Bool, true, false, ◌↔◌, ◌&&◌, ◌||◌, List, [], ◌++◌, leb, if◌then◌else◌, min,
  sum_by-nil, sum_by-cons, sum_by-append,
}
use nexus_efos.Scores.{RiskRating, ScoreFactor, push_if, total_points}

pub data PepStatus : Type 0 where
  not_pep domestic_pep foreign_pep pep_associate : PepStatus

pub data KycStatus : Type 0 where
  pending verified rejected : KycStatus

pub data CddLevel : Type 0 where
  standard enhanced : CddLevel

pub record CustomerRiskFactors : Type 0 where
  pub watchlist_flag : Bool
  pub pep_status : PepStatus
  pub kyc_status : KycStatus
  pub possible_duplicate : Bool
  pub cdd_level : CddLevel

pub data Factor : Type 0 where
  watchlist_match kyc_rejected kyc_pending duplicate due_diligence : Factor
  pep_status_is : PepStatus → Factor

pub record CustomerRiskScore : Type 0 where
  pub score : ℕ
  pub rating : RiskRating
  pub breakdown : List (ScoreFactor Factor)

abbrev pub is_pep : PepStatus → Bool
is_pep PepStatus.not_pep = false
is_pep _ = true

abbrev pub is_rejected : KycStatus → Bool
is_rejected KycStatus.rejected = true
is_rejected _ = false

abbrev pub is_pending : KycStatus → Bool
is_pending KycStatus.pending = true
is_pending _ = false

abbrev pub is_enhanced : CddLevel → Bool
is_enhanced CddLevel.enhanced = true
is_enhanced CddLevel.standard = false

abbrev pub rating_of : ℕ → RiskRating
rating_of score =
    if leb 50 score
    then RiskRating.high
    else (if leb 25 score then RiskRating.medium else RiskRating.low)

unfoldable pub breakdown_of : CustomerRiskFactors → List (ScoreFactor Factor)
breakdown_of factors =
    push_if factors.watchlist_flag Factor.watchlist_match 50
    ++ (push_if (is_pep factors.pep_status) (Factor.pep_status_is factors.pep_status) 30
        ++ (push_if (is_rejected factors.kyc_status) Factor.kyc_rejected 25
            ++ (push_if (is_pending factors.kyc_status) Factor.kyc_pending 10
                ++ (push_if factors.possible_duplicate Factor.duplicate 10
                    ++ push_if (is_enhanced factors.cdd_level) Factor.due_diligence 15))))

unfoldable pub calculate_customer_risk_score : CustomerRiskFactors → CustomerRiskScore
calculate_customer_risk_score factors =
    let breakdown = breakdown_of factors in
    let score = min 100 (total_points breakdown) in
    record { score = score; rating = rating_of score; breakdown = breakdown }

total_points-push_if :
    (c : Bool) (f : Factor) (p : ℕ) → total_points (push_if c f p) ≡ (if c then p else 0)
total_points-push_if false f p = sum_by-nil (λ (x : ScoreFactor Factor). x.points)
total_points-push_if true f p = omega (
  arith,
  sum_by-nil (λ (x : ScoreFactor Factor). x.points),
  sum_by-cons (λ (x : ScoreFactor Factor). x.points) (record { factor = f; points = p }) [],
)

total_points-append :
    (xs ys : List (ScoreFactor Factor))
    → total_points (xs ++ ys) ≡ total_points xs + total_points ys
total_points-append xs ys = sum_by-append (λ (x : ScoreFactor Factor). x.points) xs ys

-- The points of the conditions that hold.
total_points-breakdown_of :
    (factors : CustomerRiskFactors)
    → total_points (breakdown_of factors)
      ≡ (if factors.watchlist_flag then 50 else 0)
        + ((if is_pep factors.pep_status then 30 else 0)
            + ((if is_rejected factors.kyc_status then 25 else 0)
                + ((if is_pending factors.kyc_status then 10 else 0)
                    + ((if factors.possible_duplicate then 10 else 0)
                        + (if is_enhanced factors.cdd_level then 15 else 0)))))
unfolding breakdown_of
total_points-breakdown_of factors = simp (total_points-append, total_points-push_if)

-- Which factors make a customer a HIGH risk, without points: a match on the watchlist; a
-- politically exposed person with a rejected identity or with two of the lesser factors; or, for
-- anyone, a rejected identity with both of the other lesser factors.
abbrev pub is_high_risk : Bool → Bool → KycStatus → Bool → Bool → Bool
is_high_risk true pep kyc dup cdd = true
is_high_risk false true KycStatus.rejected dup cdd = true
is_high_risk false true KycStatus.pending dup cdd = dup || cdd
is_high_risk false true KycStatus.verified dup cdd = dup && cdd
is_high_risk false false kyc dup cdd = is_rejected kyc && (dup && cdd)

points_of : Bool → Bool → KycStatus → Bool → Bool → ℕ
points_of watchlist pep kyc dup cdd =
    (if watchlist then 50 else 0)
    + ((if pep then 30 else 0)
        + ((if is_rejected kyc then 25 else 0)
            + ((if is_pending kyc then 10 else 0)
                + ((if dup then 10 else 0) + (if cdd then 15 else 0)))))

rating-points_of :
    (w p : Bool) (k : KycStatus) (d e : Bool)
    → (rating_of (min 100 (points_of w p k d e)) ≡ RiskRating.high)
      ↔ (is_high_risk w p k d e ≡ true)
unfolding points_of
rating-points_of true p k d e = ground arith
rating-points_of false true KycStatus.rejected d e = ground arith
rating-points_of false true KycStatus.pending d e = ground arith
rating-points_of false true KycStatus.verified d e = ground arith
rating-points_of false false k d e = ground arith

-- The rating is HIGH exactly for the customers that `is_high_risk` describes.
pub rating_high_iff :
    (factors : CustomerRiskFactors)
    → ((calculate_customer_risk_score factors).rating ≡ RiskRating.high) ↔ (
        is_high_risk factors.watchlist_flag
          (is_pep factors.pep_status)
          factors.kyc_status
          factors.possible_duplicate
          (is_enhanced factors.cdd_level)
        ≡ true)
unfolding calculate_customer_risk_score points_of
rating_high_iff factors = rw (total_points-breakdown_of factors) (
    rating-points_of factors.watchlist_flag (is_pep factors.pep_status) factors.kyc_status
      factors.possible_duplicate (is_enhanced factors.cdd_level))
