-- ===== src/Provisioning/Grants.antt =====
-- When an amount is granted, with what, and what becomes of the call.
use offimesh.Prelude.{
  ℕ, ◌+◌, ◌<◌, ℤ, pos, ◌+ℤ◌, ◌-ℤ◌, ◌≤ℤ◌, min_ℤ, is_zero, ◌≡◌, refl, ap, ◌∙◌, sym, subst, true,
  false, Option, some, arith, find,
}
use offimesh.Exceptions.{Result, ok, err, Error, is_ok, session, commit_or_rollback}
use offimesh.Ledger.Rows.{available, locked}
use offimesh.Ledger.Effects.{at}
use offimesh.Models.{Db, User, user_key, Device, token_provisioning}
use offimesh.Fraud.{
  FraudResult, TrustResult, evaluate_checkpoint_1, recent_signals, sum_scores, is_listed,
  checkpoint_1_signals, block_threshold,
}
use offimesh.Fraud.Checkpoints.{assess_lem}
use offimesh.Trust.{DeviceTrustPayload, evaluate_trust, record_evaluation, has_token}
use offimesh.Trust.Verdicts.{evaluate_trust_token, open_answer, recorded, limits_of}
use offimesh.Provisioning.{
  Fresh, Grant, can_user_provision_token, choose_device, lock_balance, payload_for, grant_token,
  prepare_token, provision_token,
}
use offimesh.Provisioning.Checks.{
  evaluate_checkpoint_1-books, key_points, open_points, lock_balance_lem,
}

module _ (sha256 : ℕ → ℕ) (unknown : ℕ) (sign : ℕ → ℕ → ℕ → ℤ → ℕ) (ulid_new : Result ℕ) where
  -- The checks before the lock, all passed.
  grant_token_lem :
      (u : ℕ) (c : Option ℕ) (req : ℤ) (pl : Option DeviceTrustPayload) (ip : ℕ) (now : ℕ) (db : Db)
      (user : User) (d : Device) (trust : TrustResult) (db1 : Db) (fraud : FraudResult) (db2 : Db)
      → let p = payload_for sha256 unknown sign ulid_new pl d in
        find user_key u db.users ≡ some user
        → user.nin_verified ≡ true
        → user.face_verified ≡ true
        → choose_device u c db ≡ (ok d, db)
        → evaluate_trust d p ip token_provisioning now db ≡ (ok trust, db1)
        → trust.trusted ≡ true
        → evaluate_checkpoint_1 u p.device_fingerprint_hash trust now db1 ≡ (ok fraud, db2)
        → fraud.blocked ≡ false
        → is_zero trust.limits.max_token_kobo ≡ false
        → let a = min_ℤ req trust.limits.max_token_kobo in
          is_ok (lock_balance u a db2).0 ≡ true
          → grant_token sha256 unknown sign ulid_new u c req pl ip now db ≡ (
            ok (record {
              device = d;
              device_fingerprint_hash = p.device_fingerprint_hash;
              amount_kobo = a;
              ttl_hours = trust.limits.ttl_hours;
            }),
            (lock_balance u a db2).1,
          )
  unfolding grant_token can_user_provision_token
  grant_token_lem u c req pl ip now db user d trust db1 fraud db2 e1 e2 e3 e4 e5 e6 e7 e8 e9 e10 =
      ground arith

  checkpoint_1_passed :
      (u : ℕ) (d : Device) (p : DeviceTrustPayload) (ip now : ℕ) (db : Db)
      → has_token p.play_integrity_token ≡ true
      → key_points p.is_hardware_backed_key
          + sum_scores (recent_signals p.device_fingerprint_hash now db.signals)
        < 60
      → let trust = open_answer d p now in
        let r =
          evaluate_checkpoint_1 u p.device_fingerprint_hash trust now
            (recorded d p ip token_provisioning now db) in
        let total =
          key_points p.is_hardware_backed_key
          + sum_scores (recent_signals p.device_fingerprint_hash now db.signals) in
        r ≡ (
          ok (record {
            fraud_score = total;
            blocked = false;
            signals_detected = checkpoint_1_signals trust;
            historical_score = sum_scores (recent_signals p.device_fingerprint_hash now db.signals);
          }),
          r.1,
        )
  unfolding evaluate_checkpoint_1 record_evaluation
  checkpoint_1_passed u d p ip now db h low =
      let trust = open_answer d p now in
      let e =
        assess_lem u p.device_fingerprint_hash (checkpoint_1_signals trust) block_threshold now
          (recorded d p ip token_provisioning now db) in
      ground (arith, e, open_points d p now h)

  -- What the steps up to the lock answer for a device that sends an integrity token.
  abbrev pub granted : ℤ → Option DeviceTrustPayload → Device → Grant
  granted req pl d =
      let p = payload_for sha256 unknown sign ulid_new pl d in
      let limits = limits_of true p.is_hardware_backed_key in
      record {
        device = d;
        device_fingerprint_hash = p.device_fingerprint_hash;
        amount_kobo = min_ℤ req limits.max_token_kobo;
        ttl_hours = limits.ttl_hours;
      }

  grant_token-granted :
      (u : ℕ) (c : Option ℕ) (req : ℤ) (pl : Option DeviceTrustPayload) (ip : ℕ) (now : ℕ) (db : Db)
      (user : User) (d : Device)
      → let p = payload_for sha256 unknown sign ulid_new pl d in
        let h = p.device_fingerprint_hash in
        let g = granted req pl d in
        find user_key u db.users ≡ some user
        → user.nin_verified ≡ true
        → user.face_verified ≡ true
        → choose_device u c db ≡ (ok d, db)
        → is_listed h db ≡ false
        → has_token p.play_integrity_token ≡ true
        → key_points p.is_hardware_backed_key + sum_scores (recent_signals h now db.signals) < 60
        → pos 1 ≤ℤ req
        → g.amount_kobo ≤ℤ available u db.books
        → let (r, db') = grant_token sha256 unknown sign ulid_new u c req pl ip now db in
          (r ≡ ok g)
          × ((j : ℕ) → available j db'.books ≡ available j db.books -ℤ at u g.amount_kobo j)
          × ((j : ℕ) → locked j db'.books ≡ locked j db.books +ℤ at u g.amount_kobo j)
  grant_token-granted u c req pl ip now db user d e1 e2 e3 e4 e5 e6 low req_pos enough =
      let p = payload_for sha256 unknown sign ulid_new pl d in
      let h = p.device_fingerprint_hash in
      let a = (granted req pl d).amount_kobo in
      let trust = open_answer d p now in
      let db1 = recorded d p ip token_provisioning now db in
      let r = evaluate_checkpoint_1 u h trust now db1 in
      let same : trust.limits ≡ limits_of true p.is_hardware_backed_key = ground arith in
      let kept = evaluate_checkpoint_1-books u h trust now db1 in
      let (fits, av, lo) =
        lock_balance_lem u a r.1 (ground arith)
          (subst (λ b. a ≤ℤ available u b) (sym kept) enough) in
      let e =
        grant_token_lem u c req pl ip now db user d trust db1 _ r.1 e1 e2 e3 e4
          (evaluate_trust_token d p ip token_provisioning now db e5 e6) e6
          (checkpoint_1_passed u d p ip now db e6 low) refl (ground arith)
          (subst (λ l. is_ok (lock_balance u (min_ℤ req l.max_token_kobo) r.1).0 ≡ true) (sym same)
            fits) in
      rw e (
        ap
            (λ l. ok (record {
              device = d;
              device_fingerprint_hash = h;
              amount_kobo = min_ℤ req l.max_token_kobo;
              ttl_hours = l.ttl_hours;
            }))
            same,
        (λ j.
            ap (λ l. available j (lock_balance u (min_ℤ req l.max_token_kobo) r.1).1.books) same
            ∙ av j
            ∙ ap (λ b. available j b -ℤ at u a j) kept),
        (λ j.
            ap (λ l. locked j (lock_balance u (min_ℤ req l.max_token_kobo) r.1).1.books) same
            ∙ lo j
            ∙ ap (λ b. locked j b +ℤ at u a j) kept),
      )

  -- Without `ulid.new` a call ends where its grant does.
  provision_token_stops :
      (u : ℕ) (c : Option ℕ) (req : ℤ) (pl : Option DeviceTrustPayload) (ip : ℕ) (f : Fresh)
      (now : ℕ) (db : Db) (g : Grant) (x : Error)
      → ulid_new ≡ err x
      → let run = grant_token sha256 unknown sign ulid_new u c req pl ip now db in
        run.0 ≡ ok g
        → provision_token sha256 unknown sign ulid_new u c req pl ip f now db ≡ (err x, run.1)
  unfolding provision_token prepare_token
  provision_token_stops u c req pl ip f now db g x e1 e2 = ground arith

  -- If the user is verified, the device is found, not blacklisted and sends an integrity token, its
  -- signals of the week with a missing hardware key stay under 60 points, a positive amount is
  -- requested and the user has it, or the limit of the device if that is less, then the steps of
  -- `provision_token` up to the lock grant a token: for the requested amount up to that limit, with
  -- a life of 72 hours or, without a hardware key, 24. If then `ulid.new` raises, as it does where
  -- python-ulid has no such function, the call raises that exception while the amount has moved
  -- from the available to the locked balance of the user in its session, no other balance changing,
  -- and the session is rolled back to the tables before.
  pub provision_token-granted :
      (u : ℕ) (c : Option ℕ) (req : ℤ) (pl : Option DeviceTrustPayload) (ip : ℕ) (f : Fresh)
      (now : ℕ) (db : Db) (user : User) (d : Device) (x : Error)
      → let p = payload_for sha256 unknown sign ulid_new pl d in
        let h = p.device_fingerprint_hash in
        let g = granted req pl d in
        let a = g.amount_kobo in
        find user_key u db.users ≡ some user
        → user.nin_verified ≡ true
        → user.face_verified ≡ true
        → choose_device u c db ≡ (ok d, db)
        → is_listed h db ≡ false
        → has_token p.play_integrity_token ≡ true
        → key_points p.is_hardware_backed_key + sum_scores (recent_signals h now db.signals) < 60
        → pos 1 ≤ℤ req
        → a ≤ℤ available u db.books
        → ulid_new ≡ err x
        → let (r, db') = provision_token sha256 unknown sign ulid_new u c req pl ip f now db in
          ((grant_token sha256 unknown sign ulid_new u c req pl ip now db).0 ≡ ok g)
          × (r ≡ err x)
          × ((j : ℕ) → available j db'.books ≡ available j db.books -ℤ at u a j)
          × ((j : ℕ) → locked j db'.books ≡ locked j db.books +ℤ at u a j)
          × (session (provision_token sha256 unknown sign ulid_new u c req pl ip f now) db
              ≡ (err x, db))
  provision_token-granted u c req pl ip f now db user d x e1 e2 e3 e4 e5 e6 low req_pos enough e =
      let g = granted req pl d in
      let (fits, av, lo) =
        grant_token-granted u c req pl ip now db user d e1 e2 e3 e4 e5 e6 low req_pos enough in
      let stops = provision_token_stops u c req pl ip f now db g x e fits in
      (
        fits,
        ap (λ r. r.0) stops,
        (λ j. ap (λ r. available j r.1.books) stops ∙ av j),
        (λ j. ap (λ r. locked j r.1.books) stops ∙ lo j),
        ap (commit_or_rollback db) stops,
      )
