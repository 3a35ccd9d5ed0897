-- ===== src/Ledger/Periods/Locked.antt =====
-- What becomes of a locked period.
use nexus_efos.Common.{
  ℕ, ◌≡◌, ◌≢◌, refl, sym, ap, ◌∙◌, Bool, true, false, not, some, List, [], ◌∷◌, ◌++◌, any, arith,
  ◌==◌,
}
use mathlib.Core.Option.{some-injective}
use nexus_efos.Common.Table.{Table, get, set, get-set_ne}
use nexus_efos.Common.Result.{Result, ok, err, guard-eq-ok, require-eq-ok, ok-injective}
use nexus_efos.Ledger.Posting.{Period, PeriodStatus, is_open}
use nexus_efos.Ledger.Periods.{
  Calendar, overlaps, create_period, close_period, lock_period, request_reopen, approve_reopen,
  remove_first, is_closed, is_locked, Op, perform, after, run,
}

abbrev pub is_pending : ℕ → List ℕ → Bool
is_pending id reopenings = any (λ x. id == x) reopenings

get-append : (k : ℕ) (p : Period) (t u : Table Period) → get k t ≡ some p → get k (t ++ u) ≡ some p
get-append k p [] u h = cc
get-append k p ((j, q) ∷ t) u h = ground (arith, get-append k p t u)

remove_first-is_pending :
    (id j : ℕ) (l : List ℕ) → is_pending id l ≡ false → is_pending id (remove_first j l) ≡ false
remove_first-is_pending id j [] h = refl
remove_first-is_pending id j (x ∷ l) h = ground (arith, remove_first-is_pending id j l)

record Fixed (id : ℕ) (p : Period) (c : Calendar) : Type 0 where
  found : get id c.periods ≡ some p
  settled : is_pending id c.reopenings ≡ false

-- A row whose status differs is another row.
other_row :
    (id j : ℕ) (p r : Period) (t : Table Period)
    → get id t ≡ some p
    → get j t ≡ some r
    → is_locked p.status ≡ true
    → is_locked r.status ≡ false
    → id ≢ j
other_row id j p r t found found' locked unlocked e =
    let same : p ≡ r = some-injective _ _ (sym found ∙ ap (λ i. get i t) e ∙ found') in cc

set-Fixed :
    (id j : ℕ) (p r q : Period) (c : Calendar)
    → get j c.periods ≡ some r
    → is_locked p.status ≡ true
    → is_locked r.status ≡ false
    → Fixed id p c
    → Fixed id p (record c { periods = set j q c.periods })
set-Fixed id j p r q c found' locked unlocked f = record {
  found =
      get-set_ne id j q c.periods (other_row id j p r c.periods f.found found' locked unlocked)
      ∙ f.found;
  settled = f.settled;
}

open-unlocked : (s : PeriodStatus) → is_open s ≡ true → is_locked s ≡ false
open-unlocked PeriodStatus.open_period h = refl
open-unlocked PeriodStatus.closed h = refl
open-unlocked PeriodStatus.locked h = cc

closed-unlocked : (s : PeriodStatus) → is_closed s ≡ true → is_locked s ≡ false
closed-unlocked PeriodStatus.open_period h = refl
closed-unlocked PeriodStatus.closed h = refl
closed-unlocked PeriodStatus.locked h = cc

create-Fixed :
    (id k s e : ℕ) (p : Period) (c c' : Calendar)
    → create_period k s e c ≡ ok c'
    → Fixed id p c
    → Fixed id p c'
unfolding create_period
create-Fixed id k s e p c c' h f =
    let (_, last) = guard-eq-ok (not (any (λ r. overlaps s e r.1) c.periods)) _ _ h in
    rw (← ok-injective last)
      (record { found = get-append id p c.periods _ f.found; settled = f.settled })

close-Fixed :
    (id j : ℕ) (p : Period) (c c' : Calendar)
    → close_period j c ≡ ok c'
    → is_locked p.status ≡ true
    → Fixed id p c
    → Fixed id p c'
unfolding close_period
close-Fixed id j p c c' h locked f =
    let (r, found, rest) = require-eq-ok (get j c.periods) _ _ h in
    let (is_open_r, last) = guard-eq-ok (is_open r.status) _ _ rest in
    rw (← ok-injective last)
      (set-Fixed id j p r _ c found locked (open-unlocked r.status is_open_r) f)

lock-Fixed :
    (id j : ℕ) (p : Period) (c c' : Calendar)
    → lock_period j c ≡ ok c'
    → is_locked p.status ≡ true
    → Fixed id p c
    → Fixed id p c'
unfolding lock_period
lock-Fixed id j p c c' h locked f =
    let (r, found, rest) = require-eq-ok (get j c.periods) _ _ h in
    let (is_closed_r, last) = guard-eq-ok (is_closed r.status) _ _ rest in
    rw (← ok-injective last)
      (set-Fixed id j p r _ c found locked (closed-unlocked r.status is_closed_r) f)

request-Fixed :
    (id j : ℕ) (p : Period) (c c' : Calendar)
    → request_reopen j c ≡ ok c'
    → is_locked p.status ≡ true
    → Fixed id p c
    → Fixed id p c'
unfolding request_reopen
request-Fixed id j p c c' h locked f =
    let (r, found, r1) = require-eq-ok (get j c.periods) _ _ h in
    let (_, r2) = guard-eq-ok (not (is_open r.status)) _ _ r1 in
    let (unlocked, last) = guard-eq-ok (not (is_locked r.status)) _ _ r2 in
    let differ = other_row id j p r c.periods f.found found locked (not_true unlocked) in
    rw (← ok-injective last) (record { found = f.found; settled = still_settled differ })
  where
    not_true : {b : Bool} → not b ≡ true → b ≡ false
    not_true h = ground arith

    still_settled : id ≢ j → is_pending id (j ∷ c.reopenings) ≡ false
    still_settled differ = ground (arith, differ, f.settled)

approve-Fixed :
    (id j : ℕ) (p : Period) (c c' : Calendar)
    → approve_reopen j c ≡ ok c'
    → Fixed id p c
    → Fixed id p c'
unfolding approve_reopen
approve-Fixed id j p c c' h f =
    let (pending, rest) = guard-eq-ok (is_pending j c.reopenings) _ _ h in
    let (r, found, last) = require-eq-ok (get j c.periods) _ _ rest in
    rw (← ok-injective last) (record {
      found =
          get-set_ne id j _ c.periods
            (λ e. false≢true (sym f.settled ∙ ap (λ i. is_pending i c.reopenings) e ∙ pending))
          ∙ f.found;
      settled = remove_first-is_pending id j c.reopenings f.settled;
    })
  where
    false≢true : false ≢ true
    false≢true e = cc

after-Fixed :
    (id : ℕ) (p : Period) (c : Calendar) (r : Result Calendar)
    → ((c' : Calendar) → r ≡ ok c' → Fixed id p c')
    → Fixed id p c
    → Fixed id p (after r c)
after-Fixed id p c (err status) h f = f
after-Fixed id p c (ok c') h f = h c' refl

perform-Fixed :
    (id : ℕ) (p : Period) (op : Op) (c c' : Calendar)
    → perform op c ≡ ok c'
    → is_locked p.status ≡ true
    → Fixed id p c
    → Fixed id p c'
perform-Fixed id p (Op.create_op k s e) c c' h locked = create-Fixed id k s e p c c' h
perform-Fixed id p (Op.close_op j) c c' h locked = close-Fixed id j p c c' h locked
perform-Fixed id p (Op.lock_op j) c c' h locked = lock-Fixed id j p c c' h locked
perform-Fixed id p (Op.request_op j) c c' h locked = request-Fixed id j p c c' h locked
perform-Fixed id p (Op.approve_op j) c c' h locked = approve-Fixed id j p c c' h

run-Fixed :
    (id : ℕ) (p : Period) (ops : List Op) (c : Calendar)
    → is_locked p.status ≡ true
    → Fixed id p c
    → Fixed id p (run ops c)
run-Fixed id p [] c locked f = f
run-Fixed id p (op ∷ ops) c locked f =
    run-Fixed id p ops (after (perform op c) c) locked
      (after-Fixed id p c (perform op c) (λ c' e. perform-Fixed id p op c c' e locked f) f)

-- A period that is LOCKED, with no reopening of it pending, is left as it is by every sequence of
-- operations on the periods.
pub locked_period_stays :
    (ops : List Op) (c : Calendar) (id : ℕ) (p : Period)
    → get id c.periods ≡ some p
    → is_locked p.status ≡ true
    → is_pending id c.reopenings ≡ false
    → get id (run ops c).periods ≡ some p
locked_period_stays ops c id p found locked settled =
    (run-Fixed id p ops c locked (record { found = found; settled = settled })).found
