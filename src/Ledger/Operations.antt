-- ===== src/Ledger/Operations.antt =====
-- Every operation of the ledger is a sequence of postings, whether it returns or raises.
use offimesh.Prelude.{
  ℕ, ℤ, pos, leb_ℤ, ltb_ℤ, refl, inl, inr, Bool, not, ◌&&◌, Option, Bool-cases, int_laws,
}
use offimesh.Exceptions.{Runs}
use offimesh.Ledger.{
  ReferenceType, ReferenceId, credit_user, debit_user, transfer, lock_for_offline_token,
  unlock_and_refund, get_balance, verify_balance_integrity,
}
use offimesh.Ledger.Rows.{available, owner-balance_of}
use offimesh.Ledger.Postings.{opens, posts, Steps, done, step, steps_rules}

pub credit_user-Runs :
    (u : ℕ) (a : ℤ) (r : ReferenceType) (i : Option ReferenceId) → Runs Steps (credit_user u a r i)
unfolding credit_user
credit_user-Runs u a r i = record {
  at = λ s. elim (Bool-cases (leb_ℤ a (pos 0))) [
    | inl bad ↦ rw bad done
    | inr good ↦ rw good (step (posts u _ _ refl (owner-balance_of u s) refl refl refl) done)
  ];
}

pub debit_user-Runs :
    (u : ℕ) (a : ℤ) (r : ReferenceType) (i : Option ReferenceId) (o : Bool)
    → Runs Steps (debit_user u a r i o)
unfolding debit_user
debit_user-Runs u a r i o = record {
  at = λ s. elim (Bool-cases (leb_ℤ a (pos 0))) [
    | inl bad ↦ rw bad done
    | inr good ↦ rw good (elim (Bool-cases (not o && ltb_ℤ (available u s) a)) [
      | inl short ↦ rw short (step (opens u refl) done)
      | inr enough ↦
          rw enough (step (posts u _ _ refl (owner-balance_of u s) refl (omega int_laws) refl) done)
    ])
  ];
}

pub transfer-Runs :
    (f t : ℕ) (a : ℤ) (r : ReferenceType) (i : Option ReferenceId) → Runs Steps (transfer f t a r i)
unfolding transfer
transfer-Runs f t a r i = search (steps_rules, credit_user-Runs, debit_user-Runs) depth 9

pub lock_for_offline_token-Runs :
    (u : ℕ) (a : ℤ) (i : ReferenceId) → Runs Steps (lock_for_offline_token u a i)
unfolding lock_for_offline_token
lock_for_offline_token-Runs u a i = record {
  at = λ s. elim (Bool-cases (leb_ℤ a (pos 0))) [
    | inl bad ↦ rw bad done
    | inr good ↦ rw good (elim (Bool-cases (ltb_ℤ (available u s) a)) [
      | inl short ↦ rw short (step (opens u refl) done)
      | inr enough ↦
          rw enough (step (posts u _ _ refl (owner-balance_of u s) refl (omega int_laws) refl) done)
    ])
  ];
}

pub unlock_and_refund-Runs :
    (u : ℕ) (a : ℤ) (i : ReferenceId) → Runs Steps (unlock_and_refund u a i)
unfolding unlock_and_refund
unlock_and_refund-Runs u a i = record {
  at = λ s. elim (Bool-cases (leb_ℤ a (pos 0))) [
    | inl none_left ↦ rw none_left (step (opens u refl) done)
    | inr good ↦ rw good (step (posts u _ _ refl (owner-balance_of u s) refl refl refl) done)
  ];
}

pub get_balance-Runs : (u : ℕ) → Runs Steps (get_balance u)
unfolding get_balance
get_balance-Runs u = search steps_rules

pub verify_balance_integrity-Runs : (u : ℕ) → Runs Steps (verify_balance_integrity u)
unfolding verify_balance_integrity
verify_balance_integrity-Runs u = search steps_rules depth 9
