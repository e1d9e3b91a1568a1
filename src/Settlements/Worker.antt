-- ===== src/Settlements/Worker.antt =====
-- The tasks of app/workers/settlement_worker.py over several settlements, each in one session. An
-- exception of one settlement is caught, and what it wrote stays in the session.
use offimesh.Prelude.{
  ℕ, zero, suc, Bool, true, false, ◌&&◌, List, [], ◌∷◌, ltb, if◌then◌else◌, filter_by, length,
}
use offimesh.Exceptions.{Action, Result, ok, err, Error, session_aborted}
use offimesh.Models.{Db, Settlement, SettlementStatus, processing, completed, failed}
use offimesh.Settlements.{Bank, TransferAnswer, SettlementReply, process_settlement}

-- What a call meets: the lock, a fresh id, the client's answer and the time.
pub record Attempt : Type 0 where
  pub lock_acquired : Bool
  pub id : ℕ
  pub answer : TransferAnswer
  pub now : ℕ

abbrev pub is_failed : SettlementStatus → Bool
is_failed failed = true
is_failed completed = false
is_failed processing = false

-- `order_by(last_attempt_at.asc())`
unfoldable pub insert_by_time : Settlement → List Settlement → List Settlement
insert_by_time s [] = s ∷ []
insert_by_time s (t ∷ ts) =
    let rest = insert_by_time s ts in
    if ltb t.last_attempt_at s.last_attempt_at then t ∷ rest else s ∷ t ∷ ts

unfoldable pub sort_by_time : List Settlement → List Settlement
sort_by_time [] = []
sort_by_time (s ∷ ss) = insert_by_time s (sort_by_time ss)

unfoldable pub first_rows : ℕ → List Settlement → List Settlement
first_rows zero ss = []
first_rows (suc n) [] = []
first_rows (suc n) (s ∷ ss) = s ∷ first_rows n ss

unfoldable pub get_pending_retry : ℕ → ℕ → Db → List Settlement
get_pending_retry max_attempts limit db = first_rows limit (
    sort_by_time (
      filter_by (λ s. is_failed s.settlement_status && ltb s.attempts max_attempts) db.settlements))

abbrev pub is_aborted : Error → Bool
is_aborted session_aborted = true
is_aborted _ = false

-- What follows a settlement in the loop. In an aborted transaction no later call gets past its first
-- statement, and the commit at the end rolls back to `start`.
abbrev pub carry_on : Db → Result SettlementReply → (ℕ → Bank → ℕ × Bank) → ℕ → Bank → ℕ × Bank
carry_on start (ok _) rest count b = rest (suc count) b
carry_on start (err e) rest count b =
    if is_aborted e then (count, record b { db = start }) else rest count b

-- How many succeeded, and the state; the attempts are numbered from `k` on.
unfoldable pub settle_each : (ℕ → Attempt) → Db → List ℕ → ℕ → ℕ → Bank → ℕ × Bank
settle_each attempts start [] k count b = (count, b)
settle_each attempts start (i ∷ is) k count b =
    let a = attempts k in
    let (r, b') = process_settlement i a.lock_acquired a.id a.answer a.now b in
    carry_on start r (settle_each attempts start is (suc k)) count b'

abbrev pub tx_ids : List Settlement → List ℕ
tx_ids [] = []
tx_ids (s ∷ ss) = s.tx_id ∷ tx_ids ss

unfoldable pub retry_failed_settlements : (ℕ → Attempt) → Action Bank ℕ
retry_failed_settlements attempts b =
    let (count, b') = settle_each attempts b.db (tx_ids (get_pending_retry 3 50 b.db)) 0 0 b in
    (ok count, b')

pub record BatchReport : Type 0 where
  pub total : ℕ
  pub successful : ℕ

unfoldable pub process_batch_settlements : (ℕ → Attempt) → List ℕ → Action Bank BatchReport
process_batch_settlements attempts ids b =
    let (count, b') = settle_each attempts b.db ids 0 0 b in
    (ok (record { total = length ids; successful = count }), b')
