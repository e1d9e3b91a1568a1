-- ===== src/Provisioning/Checks.antt =====
-- Checkpoint 1 and the lock, as steps of an issue.
use offimesh.Prelude.{
  ℕ, ℤ, pos, ◌+ℤ◌, ◌-ℤ◌, ◌≤ℤ◌, ◌≡◌, refl, ap, ◌∙◌, Bool, true, List, [], ◌∷◌, arith, if◌then◌else◌,
}
use offimesh.Exceptions.{is_ok}
use offimesh.Ledger.{pending}
use offimesh.Ledger.Rows.{available, locked}
use offimesh.Ledger.Effects.{at}
use offimesh.Ledger.Locking.{lock_for_offline_token-moves}
use offimesh.Models.{Db, Device, SignalType}
use offimesh.Fraud.{
  TrustResult, evaluate_checkpoint_1, record_signals, record_signal, check_auto_blacklist,
  sum_signal_scores, signal_score, checkpoint_1_signals, block_threshold,
}
use offimesh.Fraud.Checkpoints.{assess_lem}
use offimesh.Trust.{DeviceTrustPayload, has_token}
use offimesh.Trust.Verdicts.{open_answer, open_answer-signals}
use offimesh.Provisioning.{lock_balance}

record_signals-books :
    (u h : ℕ) (ts : List SignalType) (now : ℕ) (db : Db)
    → (record_signals u h ts now db).books ≡ db.books
unfolding record_signals record_signal
record_signals-books u h [] now db = refl
record_signals-books u h (t ∷ ts) now db =
    record_signals-books u h ts now (record_signal u h t now db) ∙ ground arith

check_auto_blacklist-books :
    (h now : ℕ) (db : Db) → (check_auto_blacklist h now db).1.books ≡ db.books
unfolding check_auto_blacklist
check_auto_blacklist-books h now db = ground arith

pub evaluate_checkpoint_1-books :
    (u h : ℕ) (r : TrustResult) (now : ℕ) (db : Db)
    → (evaluate_checkpoint_1 u h r now db).1.books ≡ db.books
unfolding evaluate_checkpoint_1
evaluate_checkpoint_1-books u h r now db =
    ap (λ x. x.1.books) (assess_lem u h (checkpoint_1_signals r) block_threshold now db)
    ∙ check_auto_blacklist-books h now (record_signals u h (checkpoint_1_signals r) now db)
    ∙ record_signals-books u h (checkpoint_1_signals r) now db

-- The points of checkpoint 1 for a trusted device.
abbrev pub key_points : Bool → ℕ
key_points hardware_backed = if hardware_backed then 0 else 15

pub open_points :
    (d : Device) (p : DeviceTrustPayload) (now : ℕ)
    → has_token p.play_integrity_token ≡ true
    → sum_signal_scores (checkpoint_1_signals (open_answer d p now))
      ≡ key_points p.is_hardware_backed_key
unfolding sum_signal_scores signal_score
open_points d p now h = ap sum_signal_scores (open_answer-signals d p now h) ∙ ground arith

pub lock_balance_lem :
    (u : ℕ) (a : ℤ) (db : Db)
    → pos 1 ≤ℤ a
    → a ≤ℤ available u db.books
    → let (r, db') = lock_balance u a db in
      (is_ok r ≡ true)
      × ((j : ℕ) → available j db'.books ≡ available j db.books -ℤ at u a j)
      × ((j : ℕ) → locked j db'.books ≡ locked j db.books +ℤ at u a j)
unfolding lock_balance
lock_balance_lem u a db h k =
    let (x, av, lo) = lock_for_offline_token-moves u a pending db.books h k in
    (ground (arith, x), av, lo)
