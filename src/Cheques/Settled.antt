-- ===== src/Cheques/Settled.antt =====
-- A cheque that the bank has settled.
use nexus_efos.Common.{
  ℕ, ◌≡◌, ◌≢◌, refl, ap, ◌∙◌, Bool, true, false, not, Option, none, some, List, [], ◌∷◌, ltb, ◌==◌,
  Bool-cases, inl, inr, ==_iff,
}
use nexus_efos.Common.Table.{Table, get, set, get-set}
use nexus_efos.Common.Result.{
  Result, ok, settle, bad_request, not_found, server_error, settle-keeps, guard-eq-ok,
  require-eq-ok, ok-injective,
}
use nexus_efos.Cheques.{
  Cheque, ChequeDirection, ChequeStatus, is_given, is_absent, is_named, is_new, is_pending_clearing,
  is_settled, is_outward, record_cheque, confirm, submit_clearing, clear, bounce, stop, cancel,
}

pub data Op : Type 0 where
  record_op : ℕ → ChequeDirection → ℕ → Option ℕ → Option ℕ → Op
  confirm_op : ℕ → ℕ → Op
  submit_op clear_op stop_op cancel_op : ℕ → Op
  bounce_op : ℕ → Option ℕ → Op

unfoldable pub perform : Op → Table Cheque → Result (Table Cheque)
perform (record_op id direction amount payer_name payee_name) =
    record_cheque id direction amount payer_name payee_name
perform (confirm_op id user) = confirm id user
perform (submit_op id) = submit_clearing id
perform (clear_op id) = clear id
perform (stop_op id) = stop id
perform (cancel_op id) = cancel id
perform (bounce_op id reason) = bounce id reason

unfoldable pub run : List Op → Table Cheque → Table Cheque
run [] cheques = cheques
run (op ∷ ops) cheques = run ops (settle cheques (perform op cheques))

-- The same cheque, but for who confirmed it.
abbrev pub SameCheque : Cheque → Cheque → Type 0
SameCheque c c' =
    (c'.direction ≡ c.direction)
    × (c'.amount ≡ c.amount)
    × (c'.status ≡ c.status)
    × (c'.bounce_reason ≡ c.bounce_reason)

abbrev pub KeptRow : Cheque → Option Cheque → Type 0
KeptRow c none = ⊥
KeptRow c (some c') = SameCheque c c'

module _ (id : ℕ) (c : Cheque) (settled : is_settled c.status ≡ true) where
  abbrev IsKept : Table Cheque → Type 0
  IsKept t = KeptRow c (get id t)

  -- A write keeps the cheque if it keeps it where it finds it settled.
  write-IsKept :
      (k : ℕ) (v w : Cheque) (t : Table Cheque)
      → get k t ≡ some w
      → (is_settled w.status ≡ true → SameCheque c w → SameCheque c v)
      → IsKept t
      → IsKept (set k v t)
  write-IsKept k v w t found same kept = elim (Bool-cases (id == k)) [
    | inr other ↦ rw (get-set id k v t, other) kept
    | inl own ↦
        let e : id ≡ k = (==_iff id k).0 own in
        let before : SameCheque c w = rw found at (rw e at kept) in
        rw (get-set id k v t, own) (same (ap is_settled (before.2) ∙ settled) before)
  ]

  fresh-IsKept :
      (k : ℕ) (v : Cheque) (t : Table Cheque)
      → is_absent (get k t) ≡ true
      → IsKept t
      → IsKept (set k v t)
  fresh-IsKept k v t fresh kept = elim (Bool-cases (id == k)) [
    | inr other ↦ rw (get-set id k v t, other) kept
    | inl own ↦
        let e : id ≡ k = (==_iff id k).0 own in absurd (present (get k t) (rw e at kept) fresh)
  ]
    where
      present : (o : Option Cheque) → KeptRow c o → is_absent o ≡ true → ⊥
      present none kept e = kept
      present (some w) kept e = cc

  not_new : (status : ChequeStatus) → is_new status ≡ true → is_settled status ≢ true
  not_new ChequeStatus.received h e = cc
  not_new ChequeStatus.issued h e = cc
  not_new ChequeStatus.pending_clearing h e = cc
  not_new ChequeStatus.cleared h e = cc
  not_new ChequeStatus.bounced h e = cc
  not_new ChequeStatus.stopped h e = cc
  not_new ChequeStatus.cancelled h e = cc

  not_pending :
      (status : ChequeStatus) → is_pending_clearing status ≡ true → is_settled status ≢ true
  not_pending ChequeStatus.received h e = cc
  not_pending ChequeStatus.issued h e = cc
  not_pending ChequeStatus.pending_clearing h e = cc
  not_pending ChequeStatus.cleared h e = cc
  not_pending ChequeStatus.bounced h e = cc
  not_pending ChequeStatus.stopped h e = cc
  not_pending ChequeStatus.cancelled h e = cc

  not_false : (b : Bool) → not b ≡ true → b ≢ true
  not_false true h e = cc
  not_false false h e = cc

  perform-IsKept : (op : Op) (t t' : Table Cheque) → IsKept t → perform op t ≡ ok t' → IsKept t'
  unfolding perform record_cheque confirm submit_clearing clear bounce stop cancel
  perform-IsKept (record_op k direction amount payer payee) t t' kept h =
      let (_, h1) = guard-eq-ok (ltb 0 amount) bad_request _ h in
      let (_, h2) = guard-eq-ok (is_named direction payer payee) bad_request _ h1 in
      let (fresh, last) = guard-eq-ok (is_absent (get k t)) server_error _ h2 in
      rw (← ok-injective last) (fresh-IsKept k _ t fresh kept)
  perform-IsKept (confirm_op k user) t t' kept h =
      let (w, found, last) = require-eq-ok (get k t) not_found _ h in
      rw (← ok-injective last) (write-IsKept k _ w t found (λ s same. same) kept)
  perform-IsKept (submit_op k) t t' kept h =
      let (w, found, h1) = require-eq-ok (get k t) not_found _ h in
      let (new, last) = guard-eq-ok (is_new w.status) bad_request _ h1 in
      rw (← ok-injective last)
        (write-IsKept k _ w t found (λ s same. absurd (not_new w.status new s)) kept)
  perform-IsKept (clear_op k) t t' kept h =
      let (w, found, h1) = require-eq-ok (get k t) not_found _ h in
      let (waits, last) = guard-eq-ok (is_pending_clearing w.status) bad_request _ h1 in
      rw (← ok-injective last)
        (write-IsKept k _ w t found (λ s same. absurd (not_pending w.status waits s)) kept)
  perform-IsKept (stop_op k) t t' kept h =
      let (w, found, h1) = require-eq-ok (get k t) not_found _ h in
      let (_, h2) = guard-eq-ok (is_outward w.direction) bad_request _ h1 in
      let (free, last) = guard-eq-ok (not (is_settled w.status)) bad_request _ h2 in
      rw (← ok-injective last)
        (write-IsKept k _ w t found (λ s same. absurd (not_false _ free s)) kept)
  perform-IsKept (cancel_op k) t t' kept h =
      let (w, found, h1) = require-eq-ok (get k t) not_found _ h in
      let (new, last) = guard-eq-ok (is_new w.status) bad_request _ h1 in
      rw (← ok-injective last)
        (write-IsKept k _ w t found (λ s same. absurd (not_new w.status new s)) kept)
  perform-IsKept (bounce_op k reason) t t' kept h =
      let (_, h1) = guard-eq-ok (is_given reason) bad_request _ h in
      let (w, found, h2) = require-eq-ok (get k t) not_found _ h1 in
      let (waits, last) = guard-eq-ok (is_pending_clearing w.status) bad_request _ h2 in
      rw (← ok-injective last)
        (write-IsKept k _ w t found (λ s same. absurd (not_pending w.status waits s)) kept)

  run-IsKept : (ops : List Op) (t : Table Cheque) → IsKept t → IsKept (run ops t)
  unfolding run
  run-IsKept [] t kept = kept
  run-IsKept (op ∷ ops) t kept =
      run-IsKept ops (settle t (perform op t))
        (settle-keeps IsKept t (perform op t) kept (λ t' h. perform-IsKept op t t' kept h))

-- A cheque that is CLEARED or BOUNCED stays so, with its amount, direction and reason, whatever
-- requests about whatever cheques follow.
pub settled_cheque_stays :
    (id : ℕ) (c : Cheque) (ops : List Op) (cheques : Table Cheque)
    → get id cheques ≡ some c
    → is_settled c.status ≡ true
    → KeptRow c (get id (run ops cheques))
settled_cheque_stays id c ops cheques found settled =
    run-IsKept id c settled ops cheques (rw found (refl, refl, refl, refl))
