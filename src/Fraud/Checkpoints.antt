-- ===== src/Fraud/Checkpoints.antt =====
-- The verdict of a checkpoint and the devices that it blacklists.
use offimesh.Prelude.{
  ℕ, ◌+◌, ◌≤◌, suc, ◌≡◌, ◌≢◌, ap, ◌∙◌, sym, leb, Bool, true, false, ◌||◌, List, arith, length, find,
  is_some,
}
use offimesh.Exceptions.{ok}
use offimesh.Models.{Db, FraudSignal, SignalType, blacklist_key}
use offimesh.Fraud.{
  week, recent_signals, sum_scores, record_signals, sum_signal_scores, is_listed, should_blacklist,
  check_auto_blacklist, get_historical_device_score, assess, TrustResult, evaluate_checkpoint_1,
  checkpoint_1_signals, block_threshold,
}
use offimesh.Fraud.Signals.{
  count-record_signals, score-record_signals, other-record_signals, record_signals-listed,
}

-- The state that the blacklist check leaves.
check_auto_blacklist-signals :
    (h now : ℕ) (db : Db) → (check_auto_blacklist h now db).1.signals ≡ db.signals
unfolding check_auto_blacklist
check_auto_blacklist-signals h now db = ground arith

check_auto_blacklist-listed :
    (h now : ℕ) (db : Db)
    → is_listed h (check_auto_blacklist h now db).1
      ≡ (is_listed h db || should_blacklist (recent_signals h now db.signals))
unfolding check_auto_blacklist
check_auto_blacklist-listed h now db = ground arith

check_auto_blacklist-only :
    (h other now : ℕ) (db : Db)
    → h ≢ other
    → is_listed other (check_auto_blacklist h now db).1 ≡ is_listed other db
unfolding check_auto_blacklist
check_auto_blacklist-only h other now db ne = ground arith

pub assess_lem :
    (u h : ℕ) (ts : List SignalType) (limit now : ℕ) (db : Db)
    → let recorded = record_signals u h ts now db in
      let total = sum_signal_scores ts + sum_scores (recent_signals h now db.signals) in
      assess u h ts limit now db ≡ (
        ok (record {
          fraud_score = total;
          blocked = leb limit total;
          signals_detected = ts;
          historical_score = sum_scores (recent_signals h now db.signals);
        }),
        (check_auto_blacklist h now recorded).1,
      )
unfolding assess check_auto_blacklist get_historical_device_score
assess_lem u h ts limit now db = ground arith

three_listed : (ss : List FraudSignal) → 3 ≤ length ss → should_blacklist ss ≡ true
unfolding should_blacklist
three_listed ss h = ground arith

some_signal : (r : TrustResult) → r.hardware_backed ≡ false → 1 ≤ length (checkpoint_1_signals r)
unfolding checkpoint_1_signals
some_signal r e = ground arith

assess-signals :
    (u h : ℕ) (ts : List SignalType) (limit now : ℕ) (db : Db)
    → (assess u h ts limit now db).1.signals ≡ (record_signals u h ts now db).signals
assess-signals u h ts limit now db =
    ap (λ r. r.1.signals) (assess_lem u h ts limit now db)
    ∙ check_auto_blacklist-signals h now (record_signals u h ts now db)

assess-listed :
    (u h : ℕ) (ts : List SignalType) (limit now : ℕ) (db : Db)
    → let db' = (assess u h ts limit now db).1 in
      is_listed h db' ≡ (is_listed h db || should_blacklist (recent_signals h now db'.signals))
assess-listed u h ts limit now db =
    let d = record_signals u h ts now db in
    ap (λ r. is_listed h r.1) (assess_lem u h ts limit now db)
    ∙ check_auto_blacklist-listed h now d
    ∙ ap
        (λ b. is_some (find blacklist_key h b) || should_blacklist (recent_signals h now d.signals))
        (record_signals-listed u h ts now db)
    ∙ ap (λ ss. is_listed h db || should_blacklist (recent_signals h now ss))
        (sym (assess-signals u h ts limit now db))

assess-count :
    (u h : ℕ) (ts : List SignalType) (limit now later : ℕ) (db : Db)
    → later ≤ now + week
    → length (recent_signals h later (assess u h ts limit now db).1.signals)
      ≡ length ts + length (recent_signals h later db.signals)
assess-count u h ts limit now later db k =
    ap (λ ss. length (recent_signals h later ss)) (assess-signals u h ts limit now db)
    ∙ count-record_signals u h ts now later db k

-- A checkpoint answers the score of the detected signals plus the history of the device before it,
-- and blocks (or flags) from the limit on; it adds each detected signal to the recent signals of
-- the device, whose scores then sum to the answered score; and afterwards the device is on the
-- blacklist exactly if it was before or its recent signals now meet a trigger.
pub assess-verdict :
    (u h : ℕ) (ts : List SignalType) (limit now : ℕ) (db : Db)
    → let db' = (assess u h ts limit now db).1 in
      let before = recent_signals h now db.signals in
      let after = recent_signals h now db'.signals in
      let total = sum_signal_scores ts + sum_scores before in
      ((assess u h ts limit now db).0
        ≡ ok (record {
          fraud_score = total;
          blocked = leb limit total;
          signals_detected = ts;
          historical_score = sum_scores before;
        }))
      × (length after ≡ length ts + length before)
      × (sum_scores after ≡ total)
      × (is_listed h db' ≡ (is_listed h db || should_blacklist after))
assess-verdict u h ts limit now db =
    let le : now ≤ now + week = omega arith in
    (
      ap (λ r. r.0) (assess_lem u h ts limit now db),
      assess-count u h ts limit now now db le,
      ap (λ ss. sum_scores (recent_signals h now ss)) (assess-signals u h ts limit now db)
          ∙ score-record_signals u h ts now now db le,
      assess-listed u h ts limit now db,
    )

-- A checkpoint of one device leaves the recent signals and the listing of every other device alone.
pub assess-only :
    (u h other : ℕ) (ts : List SignalType) (limit now : ℕ) (db : Db)
    → h ≢ other
    → let db' = (assess u h ts limit now db).1 in
      (recent_signals other now db'.signals ≡ recent_signals other now db.signals)
      × (is_listed other db' ≡ is_listed other db)
assess-only u h other ts limit now db ne = (
  ap (recent_signals other now) (assess-signals u h ts limit now db)
      ∙ other-record_signals u h other ts now now db ne,
  ap (λ r. is_listed other r.1) (assess_lem u h ts limit now db)
      ∙ check_auto_blacklist-only h other now (record_signals u h ts now db) ne
      ∙ ap (λ b. is_some (find blacklist_key other b)) (record_signals-listed u h ts now db),
)

-- One pass of a software-backed device through checkpoint 1.
software_count :
    (u h now later : ℕ) (trust : TrustResult) (db : Db)
    → trust.hardware_backed ≡ false
    → later ≤ now + week
    → suc (length (recent_signals h later db.signals))
      ≤ length (recent_signals h later (evaluate_checkpoint_1 u h trust now db).1.signals)
unfolding evaluate_checkpoint_1
software_count u h now later trust db soft k = omega (
  arith,
  assess-count u h (checkpoint_1_signals trust) block_threshold now later db k,
  some_signal trust soft,
)

checkpoint_1-listed :
    (u h now : ℕ) (trust : TrustResult) (db : Db)
    → 3 ≤ length (recent_signals h now (evaluate_checkpoint_1 u h trust now db).1.signals)
    → is_listed h (evaluate_checkpoint_1 u h trust now db).1 ≡ true
unfolding evaluate_checkpoint_1
checkpoint_1-listed u h now trust db enough =
    let trigger = three_listed _ enough in
    assess-listed u h (checkpoint_1_signals trust) block_threshold now db ∙ rw trigger (or_true _)
  where
    or_true : (b : Bool) → (b || true) ≡ true
    or_true b = ground arith

-- A device without a hardware-backed key that passes checkpoint 1 three times within seven days is
-- blacklisted by the third pass, however trusted it is otherwise.
pub three_software_checks :
    (u h t1 t2 t3 : ℕ) (r1 r2 r3 : TrustResult) (db : Db)
    → r1.hardware_backed ≡ false
    → r2.hardware_backed ≡ false
    → r3.hardware_backed ≡ false
    → t3 ≤ t1 + week
    → t3 ≤ t2 + week
    → let db1 = (evaluate_checkpoint_1 u h r1 t1 db).1 in
      let db2 = (evaluate_checkpoint_1 u h r2 t2 db1).1 in
      is_listed h (evaluate_checkpoint_1 u h r3 t3 db2).1 ≡ true
three_software_checks u h t1 t2 t3 r1 r2 r3 db s1 s2 s3 k1 k2 =
    let db1 = (evaluate_checkpoint_1 u h r1 t1 db).1 in
    let db2 = (evaluate_checkpoint_1 u h r2 t2 db1).1 in
    let n1 = software_count u h t1 t3 r1 db s1 k1 in
    let n2 = software_count u h t2 t3 r2 db1 s2 k2 in
    let n3 = software_count u h t3 t3 r3 db2 s3 (omega arith) in
    checkpoint_1-listed u h t3 r3 db2 (omega (arith, n1, n2, n3))
