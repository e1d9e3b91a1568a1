-- ===== src/Identity/Tests.antt =====
-- The verification of a user, step by step, on a database that takes the UPDATE and on one that
-- refuses it.
use offimesh.Prelude.{ℕ, pos, ◌≡◌, refl, ◌||◌, ◌⊎◌, true, false, some, none, [], ◌∷◌}
use offimesh.Exceptions.{ok, err, Error, type_error, session_aborted}
use offimesh.Models.{Db, User, user_active, nin, IdentityVerification, verification_verified}
use offimesh.Provisioning.{can_user_provision_token}
use offimesh.Identity.{
  mock_answer, initiate_verification, start_verification, apply_answer, identified, save_user,
  save_verification, verify_face, apply_face, one_verification, flush_in_try,
}
use offimesh.Identity.Flags.{
  Flag, has_flag, IdentityCall, initiates, compares_face, perform, update_of, grants, is_on_record,
}
use offimesh.Identity.Evidence.{perform-grants}

abbrev ada : User
ada = record {
  id = 1;
  name = none;
  nin_verified = false;
  bvn_verified = false;
  face_verified = false;
  balance_kobo = pos 0;
  phone_hash = 31;
  phone_salt = 32;
  email = none;
  pin_hash = none;
  role = 1;
  user_status = user_active;
}

abbrev tables : Db
tables = record {
  books = record { balances = []; entries = [] };
  tokens = [];
  users = ada ∷ [];
  devices = [];
  transactions = [];
  events = [];
  settlements = [];
  signals = [];
  blacklist = [];
  activities = [];
  audits = [];
  webhooks = [];
  accounts = [];
  verifications = [];
}

both_steps :
    (can_user_provision_token 1
      (verify_face 1 nin
        (mock_answer none)
        (ok tt)
        20
        (initiate_verification 1 nin (mock_answer (some 7)) (ok tt) 3 10 tables).1).1).0
    ≡ ok true
unfolding can_user_provision_token initiate_verification start_verification apply_answer identified
    save_user save_verification verify_face apply_face one_verification flush_in_try
both_steps = refl

abbrev nin_record : ℕ → IdentityVerification
nin_record id = record {
  id = id;
  user_id = 1;
  id_type = nin;
  verification_status = verification_verified;
  face_verified = false;
  verified_at = some 10;
  created_at = 10;
}

abbrev with_nin : Db
with_nin = record tables {
  users = (record ada { nin_verified = true }) ∷ [];
  verifications = nin_record 3 ∷ [];
}

abbrev face_taken : IdentityCall
face_taken = compares_face 1 nin (mock_answer none) (ok tt) 20

perform-grants_example :
    let (r, db') = perform face_taken with_nin in
    ((e : Error) × (perform face_taken with_nin ≡ (err e, with_nin)))
    ⊎ ((update_of face_taken ≡ ok tt)
        × (is_on_record face_taken with_nin db' ≡ true)
        × ((j : ℕ) (f : Flag)
            → has_flag f j db'.users ≡ (has_flag f j with_nin.users || grants face_taken j f)))
perform-grants_example = perform-grants face_taken with_nin

-- The text "now()" is refused: the user confirms nothing.
refused :
    perform (initiates 1 nin (mock_answer (some 7)) (err type_error) 3 10) tables
    ≡ (err session_aborted, tables)
unfolding perform initiate_verification start_verification apply_answer flush_in_try
refused = refl
