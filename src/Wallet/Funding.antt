-- ===== src/Wallet/Funding.antt =====
-- Fundings of one account, one after the other.
use offimesh.Prelude.{
  ℕ, ℤ, ◌+ℤ◌, ◌≡◌, ◌≢◌, refl, ap, ◌∙◌, sym, subst, true, Option, some, List, [], ◌∷◌, ◌==◌, find,
  replace, arith, find-replace_self, find-replace_ne, key-find, Bool-cases, inl, inr,
}
use offimesh.Exceptions.{ok}
use offimesh.Models.{Db, logged, wallet_funded, User, user_key, VirtualAccount, account_key}
use offimesh.Wallet.{
  one_account, accounts_of, get_by_nomba_account_id, funding_status, funded_account, mark_funded,
  credited_user, credit_wallet, fund_user, fund_account, credited, process_funding,
  process_wallet_funding,
}

-- The tables after one funding.
abbrev pub after_funding : VirtualAccount → User → ℤ → Db → Db
after_funding a u received db =
    logged wallet_funded u.id (credit_wallet u received (mark_funded a received db))

-- The account is the only one with its Nomba id and the first with its own, and its user is there.
pub record IsFundable (n : ℕ) (a : VirtualAccount) (u : User) (db : Db) : Type 0 where
  pub only : accounts_of n db.accounts ≡ a ∷ []
  pub keyed : find account_key a.id db.accounts ≡ some a
  pub owned : find user_key a.user_id db.users ≡ some u

process_wallet_funding-credits :
    (n : ℕ) (a : VirtualAccount) (u : User) (received : ℤ) (reference : ℕ) (db : Db)
    → IsFundable n a u db
    → process_wallet_funding n received reference db ≡ (
      ok (
          credited u.id received
            (funding_status a.expected_amount_kobo received)
            (u.balance_kobo +ℤ received)),
      after_funding a u received db,
    )
unfolding process_wallet_funding process_funding get_by_nomba_account_id one_account fund_account
    fund_user
process_wallet_funding-credits n a u received reference db h = rw h.only (rw h.owned refl)

head_found :
    (n : ℕ) (a : VirtualAccount) (rest rows : List VirtualAccount)
    → accounts_of n rows ≡ a ∷ rest
    → a.nomba_account_id == n ≡ true
head_found n a rest [] e = absurd (ground arith)
head_found n a rest (x ∷ rows) e = elim (Bool-cases (x.nomba_account_id == n)) [
  | inl hit ↦
      let x-a : x ≡ a = ground arith in
      subst (λ (y : VirtualAccount). y.nomba_account_id == n ≡ true) x-a hit
  | inr miss ↦ head_found n a rest rows (ground arith)
]

-- Replacing the row that a filter finds keeps it the only one that the filter finds.
accounts_of-replace :
    (n : ℕ) (a new : VirtualAccount) (rows : List VirtualAccount)
    → new.id ≡ a.id
    → new.nomba_account_id == n ≡ true
    → accounts_of n rows ≡ a ∷ []
    → find account_key a.id rows ≡ some a
    → accounts_of n (replace account_key new rows) ≡ new ∷ []
accounts_of-replace n a new [] e f g h = absurd (ground arith)
accounts_of-replace n a new (x ∷ rows) e f g h = elim (Bool-cases (x.id == new.id)) [
  | inl hit ↦
      let x-a : x ≡ a = ground arith in
      let here : x.nomba_account_id == n ≡ true =
        subst (λ (y : VirtualAccount). y.nomba_account_id == n ≡ true) (sym x-a)
          (head_found n a [] (x ∷ rows) g) in
      ground arith
  | inr miss ↦ elim (Bool-cases (x.nomba_account_id == n)) [
    | inl here ↦ let x-a : x ≡ a = ground arith in absurd (ground (arith, ap account_key x-a))
    | inr there ↦ ground (arith, accounts_of-replace n a new rows e f (ground arith) (ground arith))
  ]
]

-- One funding leaves the account and the user in place for the next.
after_funding-IsFundable :
    (n : ℕ) (a : VirtualAccount) (u : User) (received : ℤ) (db : Db)
    → IsFundable n a u db
    → IsFundable n
        (funded_account received a)
        (credited_user received u)
        (after_funding a u received db)
after_funding-IsFundable n a u received db h = record {
  only =
      accounts_of-replace n a (funded_account received a) db.accounts refl
        (head_found n a [] db.accounts h.only) h.only h.keyed;
  keyed = find-replace_self account_key (funded_account received a) db.accounts a h.keyed;
  owned =
      let k = key-find user_key a.user_id db.users u h.owned in
      subst
        (λ i.
          find user_key i (replace user_key (credited_user received u) db.users)
          ≡ some (credited_user received u))
        k
        (find-replace_self user_key (credited_user received u) db.users u
          (subst (λ i. find user_key i db.users ≡ some u) (sym k) h.owned));
}

-- A transfer that the bank reports.
pub record Funding : Type 0 where
  pub amount_kobo : ℤ
  pub reference : ℕ

-- Runs of the task for one account.
unfoldable pub fund_all : ℕ → List Funding → Db → Db
fund_all n [] db = db
fund_all n (f ∷ fs) db = fund_all n fs (process_wallet_funding n f.amount_kobo f.reference db).1

unfoldable pub sum_onto : ℤ → List Funding → ℤ
sum_onto total [] = total
sum_onto total (f ∷ fs) = sum_onto (total +ℤ f.amount_kobo) fs

-- The amount of the last funding, if there is one.
unfoldable pub last_or : Option ℤ → List Funding → Option ℤ
last_or before [] = before
last_or before (f ∷ fs) = last_or (some f.amount_kobo) fs

-- What the fundings of an account leave.
pub record HasFunded (n : ℕ) (a : VirtualAccount) (u : User) (fs : List Funding) (db db' : Db)
    : Type 0 where
  pub user :
      find user_key u.id db'.users ≡ some (record u { balance_kobo = sum_onto u.balance_kobo fs })
  pub others : (i : ℕ) → u.id ≢ i → find user_key i db'.users ≡ find user_key i db.users
  pub account :
      (a' : VirtualAccount) × (accounts_of n db'.accounts ≡ a' ∷ [])
      × (a'.received_amount_kobo ≡ last_or a.received_amount_kobo fs)
  pub books : db'.books ≡ db.books

-- Fundings of a virtual account that is the only one with its Nomba id, and whose user is there, add
-- every amount to the balance of that user and to no other, whatever the references of the
-- transfers, so again if the same transfer is reported again. The account keeps only the last
-- amount, whatever was expected, and the ledger, from which tokens are locked, gets nothing.
pub fund_all-HasFunded :
    (n : ℕ) (a : VirtualAccount) (u : User) (fs : List Funding) (db : Db)
    → IsFundable n a u db
    → HasFunded n a u fs db (fund_all n fs db)
unfolding fund_all sum_onto last_or
fund_all-HasFunded n a u [] db h = record {
  user =
      subst (λ i. find user_key i db.users ≡ some u)
        (sym (key-find user_key a.user_id db.users u h.owned)) h.owned;
  others = λ i ne. refl;
  account = (a, h.only, refl);
  books = refl;
}
fund_all-HasFunded n a u (f ∷ fs) db h =
    let amount = f.amount_kobo in
    let rest =
      fund_all-HasFunded n (funded_account amount a) (credited_user amount u) fs
        (after_funding a u amount db) (after_funding-IsFundable n a u amount db h) in
    rw (process_wallet_funding-credits n a u amount f.reference db h) (record {
      user = rest.user;
      others = λ i ne.
          rest.others i ne ∙ find-replace_ne user_key i (credited_user amount u) db.users ne;
      account = rest.account;
      books = rest.books;
    })
