-- ===== src/Fraud/Signals.antt =====
-- What recording signals changes: the history of the one device, and nothing of the others.
use offimesh.Prelude.{ℕ, ◌+◌, ◌≤◌, ◌≡◌, ◌≢◌, refl, ap, ◌∙◌, List, [], ◌∷◌, arith, length}
use offimesh.Models.{Db, FraudSignal, SignalType}
use offimesh.Fraud.{
  week, recent_signals, sum_scores, signal_score, record_signal, record_signals, sum_signal_scores,
}

abbrev pub signal_row : ℕ → ℕ → SignalType → ℕ → FraudSignal
signal_row user_id hash t now = record {
  user_id = user_id;
  device_fingerprint_hash = hash;
  signal_type = t;
  score_contribution = signal_score t;
  created_at = now;
}

pub record_signal-rows :
    (u h : ℕ) (t : SignalType) (now : ℕ) (db : Db)
    → (record_signal u h t now db).signals ≡ signal_row u h t now ∷ db.signals
unfolding record_signal
record_signal-rows u h t now db = ground arith

pub record_signal-listed :
    (u h : ℕ) (t : SignalType) (now : ℕ) (db : Db)
    → (record_signal u h t now db).blacklist ≡ db.blacklist
unfolding record_signal
record_signal-listed u h t now db = ground arith

pub record_signals-listed :
    (u h : ℕ) (ts : List SignalType) (now : ℕ) (db : Db)
    → (record_signals u h ts now db).blacklist ≡ db.blacklist
unfolding record_signals
record_signals-listed u h [] now db = refl
record_signals-listed u h (t ∷ ts) now db =
    record_signals-listed u h ts now (record_signal u h t now db)
    ∙ record_signal-listed u h t now db

-- At any later time within a week of its recording a signal is recent.
recent-signal_row :
    (u h : ℕ) (t : SignalType) (now later : ℕ) (ss : List FraudSignal)
    → later ≤ now + week
    → recent_signals h later (signal_row u h t now ∷ ss)
      ≡ signal_row u h t now ∷ recent_signals h later ss
unfolding recent_signals
recent-signal_row u h t now later ss k = ground arith

recent-record_signal :
    (u h : ℕ) (t : SignalType) (now later : ℕ) (db : Db)
    → later ≤ now + week
    → recent_signals h later (record_signal u h t now db).signals
      ≡ signal_row u h t now ∷ recent_signals h later db.signals
recent-record_signal u h t now later db k =
    ap (recent_signals h later) (record_signal-rows u h t now db)
    ∙ recent-signal_row u h t now later db.signals k

pub count-record_signals :
    (u h : ℕ) (ts : List SignalType) (now later : ℕ) (db : Db)
    → later ≤ now + week
    → length (recent_signals h later (record_signals u h ts now db).signals)
      ≡ length ts + length (recent_signals h later db.signals)
unfolding record_signals
count-record_signals u h [] now later db k = omega arith
count-record_signals u h (t ∷ ts) now later db k = omega (
  arith,
  count-record_signals u h ts now later (record_signal u h t now db) k,
  ap length (recent-record_signal u h t now later db k),
)

pub score-record_signals :
    (u h : ℕ) (ts : List SignalType) (now later : ℕ) (db : Db)
    → later ≤ now + week
    → sum_scores (recent_signals h later (record_signals u h ts now db).signals)
      ≡ sum_signal_scores ts + sum_scores (recent_signals h later db.signals)
unfolding record_signals sum_scores sum_signal_scores
score-record_signals u h [] now later db k = omega arith
score-record_signals u h (t ∷ ts) now later db k = omega (
  arith,
  score-record_signals u h ts now later (record_signal u h t now db) k,
  ap sum_scores (recent-record_signal u h t now later db k),
)

other-signal_row :
    (u h other : ℕ) (t : SignalType) (now later : ℕ) (ss : List FraudSignal)
    → h ≢ other
    → recent_signals other later (signal_row u h t now ∷ ss) ≡ recent_signals other later ss
unfolding recent_signals
other-signal_row u h other t now later ss ne = ground arith

-- Signals of one device do not count for another.
pub other-record_signals :
    (u h other : ℕ) (ts : List SignalType) (now later : ℕ) (db : Db)
    → h ≢ other
    → recent_signals other later (record_signals u h ts now db).signals
      ≡ recent_signals other later db.signals
unfolding record_signals
other-record_signals u h other [] now later db ne = refl
other-record_signals u h other (t ∷ ts) now later db ne =
    other-record_signals u h other ts now later (record_signal u h t now db) ne
    ∙ ap (recent_signals other later) (record_signal-rows u h t now db)
    ∙ other-signal_row u h other t now later db.signals ne
