-- ===== src/Ledger/Locking.antt =====
-- Funds that are locked for an offline token, and their refund.
use offimesh.Prelude.{
  ℕ, ℤ, pos, ◌+ℤ◌, ◌-ℤ◌, ◌≤ℤ◌, min_ℤ, ◌≡◌, ap, arith, int_laws, +ℤ_parts, some, +ℤ-zero, -ℤ-zero,
}
use offimesh.Exceptions.{ok}
use offimesh.Ledger.{
  Books, LedgerBalance, ReferenceId, write, ensure, balance_of, lock_for_offline_token,
  unlock_and_refund, credit, debit, new_entry, offline_token_issue, offline_token_refund,
}
use offimesh.Ledger.Rows.{
  available, locked, available-write, locked-write, owner-balance_of, balance_of-write,
}
use offimesh.Ledger.Effects.{at}

-- The row of `u` after `a` has moved from its available to its locked balance.
abbrev pub locked_row : ℕ → ℤ → Books → LedgerBalance
locked_row u a s = record (balance_of u s) {
  available_balance_kobo = available u s -ℤ a;
  locked_in_offline_tokens_kobo = locked u s +ℤ a;
}

abbrev pub refunded_row : ℕ → ℤ → Books → LedgerBalance
refunded_row u a s = record (balance_of u s) {
  available_balance_kobo = available u s +ℤ a;
  locked_in_offline_tokens_kobo = locked u s -ℤ a;
}

pub lock_ok :
    (u : ℕ) (a : ℤ) (i : ReferenceId) (s : Books)
    → pos 1 ≤ℤ a
    → a ≤ℤ available u s
    → lock_for_offline_token u a i s ≡ (
      ok (locked_row u a s),
      write
          (locked_row u a s)
          (new_entry u debit a offline_token_issue (some i) (available u s -ℤ a))
          (ensure u s),
    )
unfolding lock_for_offline_token
lock_ok u a i s h k = ground arith

pub refund_ok :
    (u : ℕ) (a : ℤ) (i : ReferenceId) (s : Books)
    → pos 1 ≤ℤ a
    → let m = min_ℤ a (locked u s) in
      unlock_and_refund u a i s ≡ (
        ok (refunded_row u m s),
        write
            (refunded_row u m s)
            (new_entry u credit m offline_token_refund (some i) (available u s +ℤ m))
            (ensure u s),
      )
unfolding unlock_and_refund
refund_ok u a i s h = ground arith

-- A lock that goes through moves the amount from the available to the locked balance of the user,
-- and changes no other balance.
pub lock_for_offline_token-moves :
    (u : ℕ) (a : ℤ) (i : ReferenceId) (s : Books)
    → pos 1 ≤ℤ a
    → a ≤ℤ available u s
    → let (x, s') = lock_for_offline_token u a i s in
      (x ≡ ok (balance_of u s'))
      × ((j : ℕ) → available j s' ≡ available j s -ℤ at u a j)
      × ((j : ℕ) → locked j s' ≡ locked j s +ℤ at u a j)
lock_for_offline_token-moves u a i s h k =
    let e = new_entry u debit a offline_token_issue (some i) (available u s -ℤ a) in
    rw (lock_ok u a i s h k) (
      ground (arith, balance_of-write u u (locked_row u a s) e s (owner-balance_of u s)),
      (λ j. ground (
        arith,
        available-write j u (locked_row u a s) e s (owner-balance_of u s),
        -ℤ-zero (available j s),
      )),
      (λ j. ground (
        arith,
        locked-write j u (locked_row u a s) e s (owner-balance_of u s),
        +ℤ-zero (locked j s),
      )),
    )

-- A refund of a positive amount moves the smaller of the amount and what the user has locked back
-- to the available balance, and changes no other balance.
pub unlock_and_refund-moves :
    (u : ℕ) (a : ℤ) (i : ReferenceId) (s : Books)
    → pos 1 ≤ℤ a
    → let (x, s') = unlock_and_refund u a i s in
      let m = min_ℤ a (locked u s) in
      (x ≡ ok (balance_of u s'))
      × ((j : ℕ) → available j s' ≡ available j s +ℤ at u m j)
      × ((j : ℕ) → locked j s' ≡ locked j s -ℤ at u m j)
unlock_and_refund-moves u a i s h =
    let m = min_ℤ a (locked u s) in
    let e = new_entry u credit m offline_token_refund (some i) (available u s +ℤ m) in
    rw (refund_ok u a i s h) (
      ground (arith, balance_of-write u u (refunded_row u m s) e s (owner-balance_of u s)),
      (λ j. ground (
        arith,
        available-write j u (refunded_row u m s) e s (owner-balance_of u s),
        +ℤ-zero (available j s),
      )),
      (λ j. ground (
        arith,
        locked-write j u (refunded_row u m s) e s (owner-balance_of u s),
        -ℤ-zero (locked j s),
      )),
    )

sub_add : (a b : ℤ) → a -ℤ b +ℤ b ≡ a
sub_add a b = omega int_laws

add_sub : (a b : ℤ) → a +ℤ b -ℤ b ≡ a
add_sub a b = omega int_laws

at-same : (u : ℕ) (a : ℤ) → at u a u ≡ a
at-same u a = ground arith

-- Locking an amount and refunding it gives every user the balances that they had, if the user has
-- the amount and nothing negative is locked.
pub lock-refund :
    (u : ℕ) (a : ℤ) (i k : ReferenceId) (s : Books)
    → pos 1 ≤ℤ a
    → a ≤ℤ available u s
    → pos 0 ≤ℤ locked u s
    → let s' = (unlock_and_refund u a k (lock_for_offline_token u a i s).1).1 in
      (j : ℕ) → (available j s' ≡ available j s) × (locked j s' ≡ locked j s)
lock-refund u a i k s h enough l j =
    let (_, av, lo) = lock_for_offline_token-moves u a i s h enough in
    let s1 = (lock_for_offline_token u a i s).1 in
    let (_, av', lo') = unlock_and_refund-moves u a k s1 h in
    let m : min_ℤ a (locked u s1) ≡ a =
      ground (arith, lo u, at-same u a, +ℤ_parts (locked u s) a) in
    (
      cc (av' j, ap (λ x. at u x j) m, av j, sub_add (available j s) (at u a j)),
      cc (lo' j, ap (λ x. at u x j) m, lo j, add_sub (locked j s) (at u a j)),
    )
