-- ===== src/Webhooks/Keeps.antt =====
-- The handlers of webhooks leave the tables of webhooks and users alone.
use offimesh.Prelude.{
  ℕ, ◌≡◌, refl, ◌∙◌, sym, subst, Bool, Option, none, some, List, [], ◌∷◌, ◌==◌, if◌then◌else◌,
  filter_by, arith,
}
use offimesh.Exceptions.{
  Action, Error, pure, raise_if, gets, modify, ◌>>=◌, Runs, Runs-bind, Runs-pure, Runs-raise_if,
  Runs-gets, Runs-if,
}
use offimesh.Models.{
  Db, NombaEventType, payment_success, payout_success, payment_failed, payout_failed,
  payment_reversal, payout_refund, other_event, Payload, Transaction, Settlement, EventType,
}
use offimesh.Settlements.{
  update_tx, update_settlement, mark_completed, one_or_none, get_by_tx_id, with_settlement,
  add_event, process_transfer_success_webhook, process_transfer_failed_webhook,
}
use offimesh.Webhooks.Signatures.{get_or_empty}
use offimesh.Webhooks.{with_merchant_ref, non_empty, dispatch}

-- The rows of webhooks and users stay as they are.
pub record Keeps (s t : Db) : Type 0 where
  pub webhooks : t.webhooks ≡ s.webhooks
  pub users : t.users ≡ s.users

Keeps-same : (s : Db) → Keeps s s
Keeps-same s = record { webhooks = refl; users = refl }

Keeps-trans : (r s t : Db) → Keeps r s → Keeps s t → Keeps r t
Keeps-trans r s t h k = record { webhooks = k.webhooks ∙ h.webhooks; users = k.users ∙ h.users }

Keeps-bind :
    {A B : Type 0} (m : Action Db A) (f : A → Action Db B)
    → Runs Keeps m
    → ((a : A) → Runs Keeps (f a))
    → Runs Keeps (m >>= f)
Keeps-bind = Runs-bind Keeps Keeps-same Keeps-trans

Keeps-pure : {A : Type 0} (a : A) → Runs Keeps (pure a)
Keeps-pure = Runs-pure Keeps Keeps-same Keeps-trans

Keeps-raise_if : (b : Bool) (e : Error) → Runs Keeps (raise_if b e)
Keeps-raise_if = Runs-raise_if Keeps Keeps-same Keeps-trans

Keeps-gets : {A : Type 0} (f : Db → A) → Runs Keeps (gets f)
Keeps-gets = Runs-gets Keeps Keeps-same Keeps-trans

Keeps-if :
    {A : Type 0} (b : Bool) (m n : Action Db A)
    → Runs Keeps m
    → Runs Keeps n
    → Runs Keeps (if b then m else n)
Keeps-if = Runs-if Keeps Keeps-same Keeps-trans

update_tx-Keeps : (i : ℕ) (f : Transaction → Transaction) → Runs Keeps (modify (update_tx i f))
unfolding update_tx
update_tx-Keeps i f = record { at = λ s. record { webhooks = ground arith; users = ground arith } }

update_settlement-Keeps :
    (i : ℕ) (f : Settlement → Settlement) → Runs Keeps (modify (update_settlement i f))
unfolding update_settlement
update_settlement-Keeps i f = record {
  at = λ s. record { webhooks = ground arith; users = ground arith };
}

add_event-Keeps : (i : ℕ) (e : EventType) → Runs Keeps (modify (add_event i e))
add_event-Keeps i e = record { at = λ s. record { webhooks = refl; users = refl } }

ruleset keeps_rules = (
  Keeps-bind, Keeps-pure, Keeps-raise_if, Keeps-gets, Keeps-if, update_tx-Keeps,
  update_settlement-Keeps, add_event-Keeps,
)

mark_completed-Keeps : (i t : ℕ) → Runs Keeps (mark_completed i t)
unfolding mark_completed
mark_completed-Keeps i t = search keeps_rules depth 9

one_or_none_state : (xs : List Settlement) (s : Db) → (one_or_none xs s).1 ≡ s
unfolding one_or_none
one_or_none_state [] s = refl
one_or_none_state (x ∷ []) s = refl
one_or_none_state (x ∷ y ∷ xs) s = refl

get_by_tx_id-Keeps : (i : ℕ) → Runs Keeps (get_by_tx_id i)
unfolding get_by_tx_id
get_by_tx_id-Keeps i = record {
  at = λ s.
      subst (Keeps s) (sym (one_or_none_state (filter_by (λ x. x.tx_id == i) s.settlements) s))
        (Keeps-same s);
}

with_settlement-Keeps :
    (s : Option Settlement) (f : ℕ → Action Db (Unit {0}))
    → ((i : ℕ) → Runs Keeps (f i))
    → Runs Keeps (with_settlement s f)
unfolding with_settlement
with_settlement-Keeps none f h = Keeps-pure tt
with_settlement-Keeps (some s) f h = h s.id

success_webhook-Keeps : (i t : ℕ) → Runs Keeps (process_transfer_success_webhook i t)
unfolding process_transfer_success_webhook
success_webhook-Keeps i t =
    search (keeps_rules, mark_completed-Keeps, get_by_tx_id-Keeps, with_settlement-Keeps) depth 16

failed_webhook-Keeps : (i : ℕ) (c : Option ℕ) → Runs Keeps (process_transfer_failed_webhook i c)
unfolding process_transfer_failed_webhook
failed_webhook-Keeps i c = search (keeps_rules, get_by_tx_id-Keeps, with_settlement-Keeps) depth 16

with_merchant_ref-Keeps :
    (r : Option ℕ) (f : ℕ → Action Db (Unit {0}))
    → ((i : ℕ) → Runs Keeps (f i))
    → Runs Keeps (with_merchant_ref r f)
with_merchant_ref-Keeps none f h = Keeps-pure tt
with_merchant_ref-Keeps (some i) f h = h i

pub dispatch-Keeps : (t : NombaEventType) (p : Payload) → Runs Keeps (dispatch t p)
unfolding dispatch
dispatch-Keeps payment_success p = search keeps_rules
dispatch-Keeps payout_success p =
    with_merchant_ref-Keeps (non_empty p.merchant_tx_ref) _
      (λ i. success_webhook-Keeps i (get_or_empty p.transaction_id))
dispatch-Keeps payment_failed p =
    with_merchant_ref-Keeps (non_empty p.merchant_tx_ref) _
      (λ i. failed_webhook-Keeps i p.response_code)
dispatch-Keeps payout_failed p =
    with_merchant_ref-Keeps (non_empty p.merchant_tx_ref) _
      (λ i. failed_webhook-Keeps i p.response_code)
dispatch-Keeps payment_reversal p = Keeps-pure tt
dispatch-Keeps payout_refund p = Keeps-pure tt
dispatch-Keeps (other_event _) p = Keeps-pure tt
