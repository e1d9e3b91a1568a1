-- ===== src/Settlements/Closed.antt =====
-- What an operation does to a transaction that has left the status `verified`.
use offimesh.Prelude.{
  ℕ, ℤ, ◌≡◌, ◌≢◌, refl, ◌∙◌, subst, Bool, true, false, not, Option, none, some, List, [], ◌∷◌, ◌==◌,
  if◌then◌else◌, find, filter_by, arith, inl, inr, Bool-cases, Option-cases, find-replace_ne,
  key-find,
}
use offimesh.Exceptions.{
  Action, Runs, Runs-bind, Runs-pure, Runs-gets, Runs-raise, Runs-raise_if, Runs-if, pure, gets,
  raise, raise_if, or_raise, modify, Error, ◌>>=◌,
}
use offimesh.Models.{Db, Transaction, tx_key, Settlement}
use offimesh.Settlements.{
  Bank, on_db, update_tx, update_settlement, mark_completed, one_or_none, get_by_tx_id,
}
use offimesh.Settlements.Calls.{
  update_tx-transactions, find-update_tx, update_settlement-transactions,
}
use offimesh.Settlements.Sweeps.{is_open}

-- The transaction is there, and not verified.
abbrev pub is_closed : ℕ → Db → Bool
is_closed i db = elim (find tx_key i db.transactions) [
  | none ↦ false
  | some tx ↦ not (is_open tx.tx_status)
]

-- The transfers that were asked for the transaction.
abbrev pub sent_for : ℕ → List (ℕ × ℤ) → List (ℕ × ℤ)
sent_for i sent = filter_by (λ s. s.0 == i) sent

pub record DbStays (i : ℕ) (d d' : Db) : Type 0 where
  pub keeps : is_closed i d ≡ true → is_closed i d' ≡ true

-- A closed transaction stays closed, and no transfer is asked for it.
pub record Stays (i : ℕ) (b b' : Bank) : Type 0 where
  pub keeps : is_closed i b.db ≡ true → is_closed i b'.db ≡ true
  pub silent : is_closed i b.db ≡ true → sent_for i b'.sent ≡ sent_for i b.sent

pub DbStays-same : (i : ℕ) (d d' : Db) → d'.transactions ≡ d.transactions → DbStays i d d'
DbStays-same i d d' e = record { keeps = λ h. rw e h }

update_tx_missing :
    (j : ℕ) (f : Transaction → Transaction) (d : Db)
    → find tx_key j d.transactions ≡ none
    → update_tx j f d ≡ d
unfolding update_tx
update_tx_missing j f d e = rw (e, update_tx) refl

-- An update of any row to a status that is not `verified`.
pub DbStays-update_tx :
    (i j : ℕ) (f : Transaction → Transaction) (d : Db)
    → ((tx : Transaction) → tx_key (f tx) ≡ tx_key tx)
    → ((tx : Transaction) → is_open (f tx).tx_status ≡ false)
    → DbStays i d (update_tx j f d)
DbStays-update_tx i j f d key shut = elim (Option-cases (find tx_key j d.transactions)) [
  | inl missing ↦ record { keeps = λ h. rw (update_tx_missing j f d missing, is_closed) h }
  | inr (tx, e) ↦ elim (Bool-cases (j == i)) [
    | inl hit ↦
        let same : j ≡ i = ground arith in
        let row : find tx_key i (update_tx j f d).transactions ≡ some (f tx) =
          subst (λ k. find tx_key k (update_tx j f d).transactions ≡ some (f tx)) same
            (find-update_tx j f d tx (key tx) e) in
        record { keeps = λ h. rw (row, is_closed) (rw (shut tx) refl) }
    | inr miss ↦
        let own : tx_key (f tx) ≡ j = key tx ∙ key-find tx_key j d.transactions tx e in
        let other : tx_key (f tx) ≢ i = ground arith in
        record {
          keeps = λ h.
              rw (update_tx-transactions j f d tx e, is_closed)
                (rw (find-replace_ne tx_key i (f tx) d.transactions other, is_closed) h);
        }
  ]
]

module _ (i : ℕ) where
  DbStays-trans : (c d e : Db) → DbStays i c d → DbStays i d e → DbStays i c e
  DbStays-trans c d e p q = record { keeps = λ h. q.keeps (p.keeps h) }

  pub Stays-trans : (b c d : Bank) → Stays i b c → Stays i c d → Stays i b d
  Stays-trans b c d p q = record {
    keeps = λ h. q.keeps (p.keeps h);
    silent = λ h. q.silent (p.keeps h) ∙ p.silent h;
  }

  pub Stays-refl : (b : Bank) → Stays i b b
  Stays-refl b = record { keeps = λ h. h; silent = λ h. refl }

  pub DbStays-refl : (d : Db) → DbStays i d d
  DbStays-refl d = record { keeps = λ h. h }

  pub Stays-bind :
      {A B : Type 0} (m : Action Bank A) (f : A → Action Bank B)
      → Runs (Stays i) m
      → ((a : A) → Runs (Stays i) (f a))
      → Runs (Stays i) (m >>= f)
  Stays-bind = Runs-bind (Stays i) Stays-refl Stays-trans

  pub Stays-pure : {A : Type 0} (a : A) → Runs (Stays i) (pure a)
  Stays-pure = Runs-pure (Stays i) Stays-refl Stays-trans

  pub Stays-raise : {A : Type 0} (e : Error) → Runs (Stays i) (raise {A = A} e)
  Stays-raise = Runs-raise (Stays i) Stays-refl Stays-trans

  pub Stays-raise_if : (b : Bool) (e : Error) → Runs (Stays i) (raise_if b e)
  Stays-raise_if = Runs-raise_if (Stays i) Stays-refl Stays-trans

  pub Stays-or_raise : {A : Type 0} (o : Option A) (e : Error) → Runs (Stays i) (or_raise o e)
  Stays-or_raise none e = record { at = Stays-refl }
  Stays-or_raise (some a) e = record { at = Stays-refl }

  pub Stays-if :
      {A : Type 0} (b : Bool) (m n : Action Bank A)
      → Runs (Stays i) m
      → Runs (Stays i) n
      → Runs (Stays i) (if b then m else n)
  Stays-if = Runs-if (Stays i) Stays-refl Stays-trans

  pub Stays-on_db : {A : Type 0} (m : Action Db A) → Runs (DbStays i) m → Runs (Stays i) (on_db m)
  Stays-on_db m h = record { at = λ b. record { keeps = (h.at b.db).keeps; silent = λ _. refl } }

  pub DbStays-bind :
      {A B : Type 0} (m : Action Db A) (f : A → Action Db B)
      → Runs (DbStays i) m
      → ((a : A) → Runs (DbStays i) (f a))
      → Runs (DbStays i) (m >>= f)
  DbStays-bind = Runs-bind (DbStays i) DbStays-refl DbStays-trans

  pub DbStays-pure : {A : Type 0} (a : A) → Runs (DbStays i) (pure a)
  DbStays-pure = Runs-pure (DbStays i) DbStays-refl DbStays-trans

  pub DbStays-gets : {A : Type 0} (f : Db → A) → Runs (DbStays i) (gets f)
  DbStays-gets = Runs-gets (DbStays i) DbStays-refl DbStays-trans

  pub DbStays-raise_if : (b : Bool) (e : Error) → Runs (DbStays i) (raise_if b e)
  DbStays-raise_if = Runs-raise_if (DbStays i) DbStays-refl DbStays-trans

  pub DbStays-if :
      {A : Type 0} (b : Bool) (m n : Action Db A)
      → Runs (DbStays i) m
      → Runs (DbStays i) n
      → Runs (DbStays i) (if b then m else n)
  DbStays-if = Runs-if (DbStays i) DbStays-refl DbStays-trans

  pub DbStays-modify : (f : Db → Db) → ((d : Db) → DbStays i d (f d)) → Runs (DbStays i) (modify f)
  DbStays-modify f h = record { at = h }

  pub DbStays-update_settlement :
      (k : ℕ) (f : Settlement → Settlement) (d : Db) → DbStays i d (update_settlement k f d)
  DbStays-update_settlement k f d = DbStays-same i d _ (update_settlement-transactions k f d)

  one_or_none-DbStays : (xs : List Settlement) (d : Db) → DbStays i d (one_or_none xs d).1
  unfolding one_or_none
  one_or_none-DbStays [] d = DbStays-refl d
  one_or_none-DbStays (x ∷ []) d = DbStays-refl d
  one_or_none-DbStays (x ∷ y ∷ xs) d = DbStays-refl d

  pub get_by_tx_id-DbStays : (j : ℕ) → Runs (DbStays i) (get_by_tx_id j)
  unfolding get_by_tx_id
  get_by_tx_id-DbStays j = record {
    at = λ d. one_or_none-DbStays (filter_by (λ s. s.tx_id == j) d.settlements) d;
  }

  pub mark_completed-DbStays : (k t : ℕ) → Runs (DbStays i) (mark_completed k t)
  unfolding mark_completed
  mark_completed-DbStays k t =
      search
        (DbStays-bind, DbStays-gets, DbStays-raise_if, DbStays-modify, DbStays-update_settlement)
        depth 9

pub ruleset stays_rules = (
  Stays-bind, Stays-pure, Stays-raise, Stays-raise_if, Stays-or_raise, Stays-if, Stays-on_db,
  DbStays-bind, DbStays-pure, DbStays-gets, DbStays-raise_if, DbStays-if, DbStays-modify,
  DbStays-update_settlement, get_by_tx_id-DbStays, mark_completed-DbStays,
)
