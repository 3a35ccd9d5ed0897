-- ===== src/Ledger/Periods/Unique.antt =====
-- The periods that cover a date.
use nexus_efos.Common.{
  ℕ, ◌⊎◌, ◌+◌, ◌≤◌, ◌≡◌, refl, ap, ◌∙◌, Bool, true, false, not, some, List, [], ◌∷◌, ◌++◌, any,
  arith, ◌==◌, if◌then◌else◌, Bool-cases, inl, inr,
}
use nexus_efos.Common.Table.{Table, get, set}
use nexus_efos.Common.Result.{Result, ok, err, guard-eq-ok, require-eq-ok, ok-injective}
use nexus_efos.Ledger.Posting.{Period, PeriodStatus, is_open, covers, find_postable_period}
use nexus_efos.Ledger.Periods.{
  Calendar, overlaps, create_period, close_period, lock_period, request_reopen, approve_reopen,
  is_closed, is_locked, Op, perform, after, run,
}

-- How many periods cover a date.
abbrev pub covering : ℕ → Table Period → ℕ
covering date [] = 0
covering date ((k, p) ∷ t) = (if covers p date then 1 else 0) + covering date t

covering-append :
    (date k : ℕ) (p : Period) (t : Table Period)
    → covering date (t ++ (k, p) ∷ []) ≡ covering date t + (if covers p date then 1 else 0)
covering-append date k p [] = ground arith
covering-append date k p ((j, q) ∷ t) = omega (arith, covering-append date k p t)

-- A period with the same days replaces another one.
covering-set :
    (date k : ℕ) (p q : Period) (t : Table Period)
    → get k t ≡ some p
    → (q.start_date ≡ p.start_date) × (q.end_date ≡ p.end_date)
    → covering date (set k q t) ≡ covering date t
covering-set date k p q [] e h = cc
covering-set date k p q ((j, r) ∷ t) e h = ground (arith, covering-set date k p q t)

-- Where nothing overlaps a new period, no other period covers a date that it covers.
covering-disjoint :
    (date start_date end_date : ℕ) (t : Table Period)
    → any (λ e. overlaps start_date end_date e.1) t ≡ false
    → start_date ≤ date
    → date ≤ end_date
    → covering date t ≡ 0
covering-disjoint date s e [] h a b = refl
covering-disjoint date s e ((j, r) ∷ t) h a b = ground (arith, covering-disjoint date s e t)

abbrev IsUnique : Table Period → Type 0
IsUnique t = (date : ℕ) → covering date t ≤ 1

create-IsUnique :
    (id s e : ℕ) (c c' : Calendar)
    → create_period id s e c ≡ ok c'
    → IsUnique c.periods
    → IsUnique c'.periods
unfolding create_period
create-IsUnique id s e c c' h u =
    let (free, last) = guard-eq-ok (not (any (λ r. overlaps s e r.1) c.periods)) _ _ h in
    let p : Period = record { start_date = s; end_date = e; status = PeriodStatus.open_period } in
    rw (← ok-injective last)
      (λ date. bound date p (λ a b. covering-disjoint date s e c.periods (not_true free) a b))
  where
    not_true : {b : Bool} → not b ≡ true → b ≡ false
    not_true h = ground arith

    bound :
        (date : ℕ) (p : Period)
        → (p.start_date ≤ date → date ≤ p.end_date → covering date c.periods ≡ 0)
        → covering date (c.periods ++ (id, p) ∷ []) ≤ 1
    bound date p none_else =
        let before = u date in
        elim (Bool-cases (covers p date)) [
          | inl e ↦ rw (covering-append date id p c.periods, e) (ground (arith, none_else))
          | inr e ↦ rw (covering-append date id p c.periods, e) (omega arith)
        ]

status-IsUnique :
    (id : ℕ) (p : Period) (status : PeriodStatus) (c : Calendar)
    → get id c.periods ≡ some p
    → IsUnique c.periods
    → IsUnique (set id (record p { status = status }) c.periods)
status-IsUnique id p status c found u date =
    rw (covering-set date id p (record p { status = status }) c.periods found (refl, refl)) (u date)

close-IsUnique :
    (id : ℕ) (c c' : Calendar)
    → close_period id c ≡ ok c'
    → IsUnique c.periods
    → IsUnique c'.periods
unfolding close_period
close-IsUnique id c c' h u =
    let (p, found, rest) = require-eq-ok (get id c.periods) _ _ h in
    let (_, last) = guard-eq-ok (is_open p.status) _ _ rest in
    rw (← ok-injective last) (status-IsUnique id p PeriodStatus.closed c found u)

lock-IsUnique :
    (id : ℕ) (c c' : Calendar) → lock_period id c ≡ ok c' → IsUnique c.periods → IsUnique c'.periods
unfolding lock_period
lock-IsUnique id c c' h u =
    let (p, found, rest) = require-eq-ok (get id c.periods) _ _ h in
    let (_, last) = guard-eq-ok (is_closed p.status) _ _ rest in
    rw (← ok-injective last) (status-IsUnique id p PeriodStatus.locked c found u)

request-IsUnique :
    (id : ℕ) (c c' : Calendar)
    → request_reopen id c ≡ ok c'
    → IsUnique c.periods
    → IsUnique c'.periods
unfolding request_reopen
request-IsUnique id c c' h u =
    let (p, found, r1) = require-eq-ok (get id c.periods) _ _ h in
    let (_, r2) = guard-eq-ok (not (is_open p.status)) _ _ r1 in
    let (_, last) = guard-eq-ok (not (is_locked p.status)) _ _ r2 in rw (← ok-injective last) u

approve-IsUnique :
    (id : ℕ) (c c' : Calendar)
    → approve_reopen id c ≡ ok c'
    → IsUnique c.periods
    → IsUnique c'.periods
unfolding approve_reopen
approve-IsUnique id c c' h u =
    let (_, rest) = guard-eq-ok (any (λ x. id == x) c.reopenings) _ _ h in
    let (p, found, last) = require-eq-ok (get id c.periods) _ _ rest in
    rw (← ok-injective last) (status-IsUnique id p PeriodStatus.open_period c found u)

perform-IsUnique :
    (op : Op) (c c' : Calendar) → perform op c ≡ ok c' → IsUnique c.periods → IsUnique c'.periods
perform-IsUnique (Op.create_op id s e) c c' = create-IsUnique id s e c c'
perform-IsUnique (Op.close_op id) c c' = close-IsUnique id c c'
perform-IsUnique (Op.lock_op id) c c' = lock-IsUnique id c c'
perform-IsUnique (Op.request_op id) c c' = request-IsUnique id c c'
perform-IsUnique (Op.approve_op id) c c' = approve-IsUnique id c c'

after-IsUnique :
    (c : Calendar) (r : Result Calendar)
    → ((c' : Calendar) → r ≡ ok c' → IsUnique c'.periods)
    → IsUnique c.periods
    → IsUnique (after r c).periods
after-IsUnique c (err status) h u = u
after-IsUnique c (ok c') h u = h c' refl

run-IsUnique : (ops : List Op) (c : Calendar) → IsUnique c.periods → IsUnique (run ops c).periods
run-IsUnique [] c u = u
run-IsUnique (op ∷ ops) c u =
    run-IsUnique ops (after (perform op c) c)
      (after-IsUnique c (perform op c) (λ c' e. perform-IsUnique op c c' e u) u)

-- A period stands among the rows.
abbrev pub IsRow : ℕ → Period → Table Period → Type 0
IsRow k p [] = ⊥
IsRow k p ((j, q) ∷ t) = ((j ≡ k) × (q ≡ p)) ⊎ IsRow k p t

covering-IsRow :
    (date k : ℕ) (p : Period) (t : Table Period)
    → IsRow k p t
    → covers p date ≡ true
    → 1 ≤ covering date t
covering-IsRow date k p [] h c = absurd h
covering-IsRow date k p ((j, q) ∷ t) (inl e) c =
    let same : covers q date ≡ true = ap (λ r. covers r date) e.1 ∙ c in rw same (omega arith)
covering-IsRow date k p ((j, q) ∷ t) (inr h) c = omega (arith, covering-IsRow date k p t h c)

find_only :
    (date k : ℕ) (p : Period) (t : Table Period)
    → covering date t ≤ 1
    → IsRow k p t
    → covers p date ≡ true
    → find_postable_period t date ≡ some p
find_only date k p [] u h c = absurd h
find_only date k p ((j, q) ∷ t) u (inl e) c =
    let same : covers q date ≡ true = ap (λ r. covers r date) e.1 ∙ c in rw same (ap some e.1)
find_only date k p ((j, q) ∷ t) u (inr h) c =
    let later = covering-IsRow date k p t h c in
    elim (Bool-cases (covers q date)) [
      | inl e ↦ absurd (ground (arith, u))
      | inr e ↦ rw e (find_only date k p t (omega (arith, u)) h c)
    ]

-- Whatever periods are created, closed, locked and reopened, starting from none, the period that
-- `findPostablePeriod` finds for a date is any row that covers the date: there is no second one, so
-- the order in which the database returns the rows does not matter.
pub find_postable_period_unique :
    (ops : List Op) (c : Calendar) (date k : ℕ) (p : Period)
    → c.periods ≡ []
    → IsRow k p (run ops c).periods
    → covers p date ≡ true
    → find_postable_period (run ops c).periods date ≡ some p
find_postable_period_unique ops c date k p empty row covered =
    find_only date k p (run ops c).periods (run-IsUnique ops c (λ d. rw empty (omega arith)) date)
      row covered
