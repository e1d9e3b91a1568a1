-- ===== src/Blacklist/Scan.antt =====
-- The scan against the trigger of the fraud service.
use offimesh.Prelude.{
  ℕ, suc, ◌+◌, ◌≡◌, refl, ap, ◌∙◌, sym, Bool, true, false, ◌&&◌, ◌||◌, List, [], ◌∷◌, map, ◌==◌,
  leb, filter_by, length, Bool-cases, inl, inr, arith,
}
use offimesh.Exceptions.{ok}
use offimesh.Models.{Db, FraudSignal, logged, device_auto_blacklisted}
use offimesh.Fraud.{
  count_by, is_double_spend, is_integrity_fail, is_listed, recent_signals, should_blacklist,
}
use offimesh.Blacklist.{
  contains, add_all, has_hash, groups, is_in_week, candidates, add_to_blacklist, blacklist_each,
  scan_for_blacklist_candidates, ScanReport,
}

contains-add_all :
    (h : ℕ) (xs set : List ℕ) → contains h (add_all xs set) ≡ (contains h xs || contains h set)
unfolding add_all
contains-add_all h [] set = refl
contains-add_all h (x ∷ xs) set = ground (arith, contains-add_all h xs set)

same_number : (a b : ℕ) → a == b ≡ true → a ≡ b
same_number a b h = ground arith

and_false : (b : Bool) → (b && false) ≡ false
and_false true = refl
and_false false = refl

contains-filter_by :
    (p : ℕ → Bool) (h : ℕ) (xs : List ℕ) → contains h (filter_by p xs) ≡ (contains h xs && p h)
contains-filter_by p h [] = refl
contains-filter_by p h (x ∷ xs) = elim (Bool-cases (p x)) [
  | inl yes_x ↦ elim (Bool-cases (x == h)) [
    | inl hit ↦
        let here : p h ≡ true = ap p (sym (same_number x h hit)) ∙ yes_x in
        rw (yes_x, hit, here) refl
    | inr miss ↦ rw (yes_x, miss) (contains-filter_by p h xs)
  ]
  | inr no_x ↦ elim (Bool-cases (x == h)) [
    | inl hit ↦
        let here : p h ≡ false = ap p (sym (same_number x h hit)) ∙ no_x in
        rw (no_x, hit, here)
          (contains-filter_by p h xs
            ∙ ap (λ b. contains h xs && b) here
            ∙ and_false (contains h xs))
    | inr miss ↦ rw (no_x, miss) (contains-filter_by p h xs)
  ]
]

contains-hashes :
    (h : ℕ) (ss : List FraudSignal)
    → contains h (map (λ s. s.device_fingerprint_hash) ss) ≡ leb 1 (count_by (has_hash h) ss)
unfolding count_by
contains-hashes h [] = refl
contains-hashes h (s ∷ ss) = ground (arith, contains-hashes h ss)

contains-groups :
    (h n : ℕ) (ss : List FraudSignal)
    → contains h (groups (suc n) ss) ≡ leb (suc n) (count_by (has_hash h) ss)
unfolding groups
contains-groups h n ss =
    let p : ℕ → Bool = λ h. leb (suc n) (count_by (has_hash h) ss) in
    let hashes = map (λ s. s.device_fingerprint_hash) ss in
    contains-filter_by p h (add_all hashes [])
    ∙ rw (contains-add_all h hashes [], contains-hashes h ss) (ground arith)

-- Filters may be exchanged.
count_by-recent :
    (p : FraudSignal → Bool) (h now : ℕ) (ss : List FraudSignal)
    → count_by (has_hash h) (filter_by p (filter_by (is_in_week now) ss))
      ≡ count_by p (recent_signals h now ss)
unfolding count_by recent_signals
count_by-recent p h now [] = refl
count_by-recent p h now (s ∷ ss) = ground (arith, count_by-recent p h now ss)

length-recent :
    (h now : ℕ) (ss : List FraudSignal)
    → count_by (has_hash h) (filter_by (is_in_week now) ss) ≡ length (recent_signals h now ss)
unfolding count_by recent_signals
length-recent h now [] = refl
length-recent h now (s ∷ ss) = ground (arith, length-recent h now ss)

or_reversed : (a b c : Bool) → (c || (b || (a || false))) ≡ (a || b || c)
or_reversed a b c = ground arith

contains-candidates :
    (h now : ℕ) (ss : List FraudSignal)
    → contains h (candidates now ss) ≡ should_blacklist (recent_signals h now ss)
unfolding candidates should_blacklist
contains-candidates h now ss =
    let recent = filter_by (is_in_week now) ss in
    let all = groups 3 recent in
    let spends = add_all (groups 2 (filter_by is_double_spend recent)) (add_all all []) in
    rw
      (
        contains-add_all h (groups 3 (filter_by is_integrity_fail recent)) spends,
        contains-add_all h (groups 2 (filter_by is_double_spend recent)) (add_all all []),
        contains-add_all h all [],
        contains-groups h 2 recent,
        contains-groups h 2 (filter_by is_integrity_fail recent),
        contains-groups h 1 (filter_by is_double_spend recent),
        length-recent h now ss,
        count_by-recent is_integrity_fail h now ss,
        count_by-recent is_double_spend h now ss,
      )
      (or_reversed (leb 3 (length (recent_signals h now ss)))
        (leb 2 (count_by is_double_spend (recent_signals h now ss)))
        (leb 3 (count_by is_integrity_fail (recent_signals h now ss))))

absorbed :
    (x h : ℕ) (b : Bool) (db : Db)
    → is_listed x db ≡ true
    → (is_listed h db || b) ≡ (is_listed h db || (x == h || b))
absorbed x h b db listed = elim (Bool-cases (x == h)) [
  | inl hit ↦
      let here : is_listed h db ≡ true =
        ap (λ k. is_listed k db) (sym (same_number x h hit)) ∙ listed in
      rw here refl
  | inr miss ↦ rw miss refl
]

is_listed-blacklist_each :
    (h : ℕ) (hs : List ℕ) (count : ℕ) (db : Db)
    → is_listed h (blacklist_each hs count db).1 ≡ (is_listed h db || contains h hs)
unfolding blacklist_each
is_listed-blacklist_each h [] count db = ground arith
is_listed-blacklist_each h (x ∷ hs) count db = elim (Bool-cases (is_listed x db)) [
  | inl listed ↦
      rw listed (is_listed-blacklist_each h hs count db ∙ absorbed x h (contains h hs) db listed)
  | inr fresh ↦ rw fresh (
      is_listed-blacklist_each h hs (suc count)
        (logged device_auto_blacklisted x (add_to_blacklist x db))
      ∙ ground arith)
]

blacklist_each-counts :
    (hs : List ℕ) (count : ℕ) (db : Db)
    → let (count', db') = blacklist_each hs count db in
      length db'.blacklist + count ≡ length db.blacklist + count'
unfolding blacklist_each
blacklist_each-counts [] count db = refl
blacklist_each-counts (x ∷ hs) count db = elim (Bool-cases (is_listed x db)) [
  | inl listed ↦ rw listed (blacklist_each-counts hs count db)
  | inr fresh ↦ rw fresh (
      omega (
        arith,
        blacklist_each-counts hs (suc count)
            (logged device_auto_blacklisted x (add_to_blacklist x db)),
      ))
]

-- The three grouped queries of the scan find what the trigger of the fraud service finds device by
-- device: after a scan, a device is on the list exactly if it was before or the trigger holds of its
-- signals of the last seven days. The scan raises nothing, and the count of devices that it reports
-- as blacklisted is the number of rows it adds.
pub scan-lists :
    (now : ℕ) (db : Db)
    → let (r, db') = scan_for_blacklist_candidates now db in
      ((h : ℕ)
        → is_listed h db' ≡ (is_listed h db || should_blacklist (recent_signals h now db.signals)))
      × ((report : ScanReport) × (r ≡ ok report)
          × (length db'.blacklist ≡ length db.blacklist + report.blacklisted))
unfolding scan_for_blacklist_candidates
scan-lists now db =
    let hashes = candidates now db.signals in
    (
      λ h.
          is_listed-blacklist_each h hashes 0 db
          ∙ ap (λ b. is_listed h db || b) (contains-candidates h now db.signals),
      (
        record { scanned_devices = length hashes; blacklisted = (blacklist_each hashes 0 db).0 },
        refl,
        omega (arith, blacklist_each-counts hashes 0 db),
      ),
    )
