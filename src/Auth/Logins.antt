-- ===== src/Auth/Logins.antt =====
-- One-time codes, and the lookup by a phone number.
use offimesh.Prelude.{
  ℕ, ◌≡◌, ◌≢◌, refl, ◌∙◌, sym, subst, Option, none, List, [], ◌∷◌, ◌==◌, find, All, inl, inr,
  Bool-cases, arith,
}
use offimesh.Exceptions.{pure, ok, err, conflict, continue, Result, invalid_otp}
use offimesh.Models.{User}
use offimesh.Sync.Cache.{Redis, World}
use offimesh.Auth.{phone_key, register, send_code, login, verify_login, otp_sent}
use offimesh.Auth.Tokens.{Crypto, TokenPair}
use offimesh.Auth.Codes.{
  IsCache, HasNoCode, CodeCall, verifies, logs_in, perform_code, perform_code_refused,
  verify_otp-clears, verify_login-clears,
}

module _ {C T : Type 0} (redis : Redis C) (crypto : Crypto T) where
  returned_pair :
      (r : Result (TokenPair T)) (w : World C)
      → (continue r (λ _. pure tt) w).0 ≡ ok tt
      → (p : TokenPair T) × (r ≡ ok p)
  returned_pair (ok p) w e = (p, refl)
  returned_pair (err x) w e = absurd (ground arith)

  same_world :
      (r : Result (TokenPair T)) (w : World C) → (continue {B = Unit {0}} r (λ _. pure tt) w).1 ≡ w
  same_world (ok p) w = refl
  same_world (err x) w = refl

  perform_code-clears :
      (user_id : ℕ) (call : CodeCall) (w : World C)
      → IsCache redis
      → (perform_code redis crypto user_id call w).0 ≡ ok tt
      → HasNoCode redis user_id (perform_code redis crypto user_id call w).1
  perform_code-clears user_id (verifies otp) w h e =
      verify_otp-clears redis crypto user_id otp w h e
  perform_code-clears user_id (logs_in otp family now) w h e =
      let run = verify_login redis crypto user_id otp family now w in
      let (pair, same) = returned_pair run.0 run.1 e in
      subst (HasNoCode redis user_id) (sym (same_world run.0 run.1))
        (verify_login-clears redis crypto user_id otp family now pair w h same)

  -- A code works once, for the verification of the phone or for a login: after a call that took the
  -- code of a user, every such call for the same user, whatever code it brings, is refused and
  -- changes nothing, whether the emptied key has expired or not.
  pub perform_code_once :
      (user_id : ℕ) (call call' : CodeCall) (w : World C)
      → IsCache redis
      → (perform_code redis crypto user_id call w).0 ≡ ok tt
      → let w' = (perform_code redis crypto user_id call w).1 in
        perform_code redis crypto user_id call' w' ≡ (err invalid_otp, w')
  perform_code_once user_id call call' w h e =
      perform_code_refused redis crypto user_id call' _ (perform_code-clears user_id call w h e)

-- Every stored hash is one of a phone number with the stored salt.
abbrev pub IsHashed : {T : Type 0} → Crypto T → User → Type 0
IsHashed crypto u = (phone : ℕ) × (u.phone_hash ≡ crypto.scrypt phone u.phone_salt)

-- Hashes with different salts differ.
abbrev pub IsSalted : {T : Type 0} → Crypto T → Type 0
IsSalted crypto = (p q s t : ℕ) → crypto.scrypt p s ≡ crypto.scrypt q t → s ≡ t

nobody_found :
    {T : Type 0} (crypto : Crypto T) (phone salt : ℕ) (users : List User)
    → IsSalted crypto
    → All (IsHashed crypto) users
    → All (λ u. u.phone_salt ≢ salt) users
    → find phone_key (crypto.scrypt phone salt) users ≡ none
nobody_found crypto phone salt [] salted hashed fresh = refl
nobody_found crypto phone salt (u ∷ users) salted hashed fresh =
    elim (Bool-cases (u.phone_hash == crypto.scrypt phone salt)) [
      | inl hit ↦
          let same : u.phone_hash ≡ crypto.scrypt phone salt = ground arith in
          absurd (fresh.0 (salted hashed.0.0 phone u.phone_salt salt (sym hashed.0.1 ∙ same)))
      | inr miss ↦ rw miss (nobody_found crypto phone salt users salted hashed.1 fresh.1)
    ]

-- A phone number is hashed with a salt drawn for the call. If stored hashes were made the same way,
-- hashes with different salts differ and the drawn salt is none of the stored ones, a login answers
-- as for an unknown number and sends no code, whoever is registered, and a registration does not
-- find the number taken.
pub login_unknown :
    {C T : Type 0} (redis : Redis C) (crypto : Crypto T) (phone salt otp role id : ℕ)
    (name : Option ℕ) (w : World C)
    → IsSalted crypto
    → All (IsHashed crypto) w.db.users
    → All (λ u. u.phone_salt ≢ salt) w.db.users
    → (login redis crypto phone salt otp w ≡ (ok (otp_sent none), w))
      × ((register redis crypto phone name role salt id w).0 ≢ err conflict)
unfolding login send_code register
login_unknown redis crypto phone salt otp role id name w salted hashed fresh =
    let unknown = nobody_found crypto phone salt w.db.users salted hashed fresh in
    (rw unknown refl, rw unknown (λ same. absurd (ground arith)))
