-- ===== src/Identity.antt =====
-- app/services/identity_verification_service.py, but for `can_user_provision_token`, which is with
-- its caller in Provisioning. The answer of the provider is an argument of a call, and so is what the
-- database does with the UPDATE of the record, which binds the text "now()" for its `updated_at`.
pub mod Flags
pub mod Evidence
mod Tests
use offimesh.Prelude.{
  ℕ, Bool, true, false, not, ◌&&◌, Option, none, some, List, [], ◌∷◌, ◌==◌, if◌then◌else◌, find,
  replace, filter_by,
}
use offimesh.Exceptions.{
  Action, Result, ok, err, pure, raise, returned, session_aborted, gets, or_raise, modify, ◌>>=◌,
  ◌>>◌, not_found, validation, unknown_id_type, no_verified_id, multiple_results_found,
}
use offimesh.Models.{
  Db, audit, User, user_key, IdType, nin, bvn, other_id, VerificationStatus, verification_pending,
  verification_verified, verification_failed, IdentityVerification, verification_key,
  identity_initiated, identity_face_verified,
}

-- What `verify_nin`, `verify_bvn` and `verify_face` of a provider answer; or they raise.
pub record ProviderResult : Type 0 where
  pub success : Bool
  pub verified : Bool
  pub name : Option ℕ

pub data ProviderAnswer : Type 0 where
  answered : ProviderResult → ProviderAnswer
  provider_raised : ProviderAnswer

-- `MockIdentityProvider`
abbrev pub mock_answer : Option ℕ → ProviderAnswer
mock_answer name = answered (record { success = true; verified = true; name = name })

unfoldable pub save_user : User → Db → Db
save_user u db = record db { users = replace user_key u db.users }

unfoldable pub save_verification : IdentityVerification → Db → Db
save_verification v db = record db { verifications = replace verification_key v db.verifications }

abbrev pub new_verification : ℕ → ℕ → IdType → ℕ → IdentityVerification
new_verification id user_id id_type now = record {
  id = id;
  user_id = user_id;
  id_type = id_type;
  verification_status = verification_pending;
  face_verified = false;
  verified_at = none;
  created_at = now;
}

abbrev pub failed : IdentityVerification → IdentityVerification
failed v = record v { verification_status = verification_failed }

abbrev pub judged : ProviderResult → ℕ → IdentityVerification → IdentityVerification
judged r now v = record v {
  verification_status = if r.verified then verification_verified else verification_failed;
  verified_at = some now;
}

abbrev with_name : Option ℕ → User → User
with_name none u = u
with_name (some n) u = if n == 0 then u else record u { name = some n }

abbrev pub flagged : IdType → User → User
flagged nin u = record u { nin_verified = true }
flagged bvn u = record u { bvn_verified = true }
flagged (other_id _) u = u

-- The user once the answer is there.
unfoldable pub identified : IdType → ProviderResult → User → User
identified id_type r u = if r.verified then with_name r.name (flagged id_type u) else u

-- The UPDATE in a flush of the `try` block. The handler catches an exception of it, but the next
-- statement of the aborted transaction raises.
unfoldable pub flush_in_try : Result (Unit {0}) → Action Db (Unit {0})
flush_in_try (ok _) = pure tt
flush_in_try (err _) = raise session_aborted

-- The `try` block and its handler, after the row is inserted, up to the flush of the UPDATE, which
-- may be that of the audit log.
unfoldable pub apply_answer :
    User
    → IdentityVerification
    → ProviderAnswer
    → Result (Unit {0})
    → ℕ
    → Action Db IdentityVerification
apply_answer u v provider_raised updated now = do
  modify (save_verification (failed v))
  returned updated
  pure (failed v)
apply_answer u v (answered r) updated now =
    if r.success
    then (modify
          (λ db. save_user (identified v.id_type r u) (save_verification (judged r now v) db))
        >> flush_in_try updated
        >> pure (judged r now v))
    else (modify (save_verification (failed v)) >> returned updated >> pure (failed v))

unfoldable pub start_verification :
    ℕ → IdType → ProviderAnswer → Result (Unit {0}) → ℕ → ℕ → Action Db IdentityVerification
start_verification user_id id_type answer updated id now = do
  found ← gets (λ db. find user_key user_id db.users)
  user ← or_raise found not_found
  let v = new_verification id user.id id_type now
  modify (λ db. record db { verifications = v ∷ db.verifications })
  done ← apply_answer user v answer updated now
  audit identity_initiated id
  pure done

unfoldable pub initiate_verification :
    ℕ → IdType → ProviderAnswer → Result (Unit {0}) → ℕ → ℕ → Action Db IdentityVerification
initiate_verification user_id (other_id _) answer updated id now =
    raise (validation unknown_id_type)
initiate_verification user_id nin answer updated id now =
    start_verification user_id nin answer updated id now
initiate_verification user_id bvn answer updated id now =
    start_verification user_id bvn answer updated id now

abbrev pub same_type : IdType → IdType → Bool
same_type nin nin = true
same_type bvn bvn = true
same_type (other_id a) (other_id b) = a == b
same_type _ _ = false

abbrev pub is_verified : VerificationStatus → Bool
is_verified verification_verified = true
is_verified _ = false

abbrev pub is_verified_of : ℕ → IdType → IdentityVerification → Bool
is_verified_of user_id id_type v =
    v.user_id == user_id && same_type v.id_type id_type && is_verified v.verification_status

-- `scalar_one_or_none`
unfoldable pub one_verification :
    List IdentityVerification → Action Db (Option IdentityVerification)
one_verification [] = pure none
one_verification (v ∷ []) = pure (some v)
one_verification (_ ∷ _ ∷ _) = raise multiple_results_found

-- The `try` block and its handler, up to the flush of the UPDATE. What an exception of the provider
-- writes, its text, is not in the model.
unfoldable pub apply_face :
    User
    → IdentityVerification
    → ProviderAnswer
    → Result (Unit {0})
    → ℕ
    → Action Db IdentityVerification
apply_face u v provider_raised updated now = do returned updated; pure v
apply_face u v (answered r) updated now = do
  let w = record v { face_verified = r.verified; verified_at = some now }
  let user = if r.verified then record u { face_verified = true } else u
  modify (λ db. save_user user (save_verification w db))
  flush_in_try updated
  pure w

unfoldable pub verify_face :
    ℕ → IdType → ProviderAnswer → Result (Unit {0}) → ℕ → Action Db IdentityVerification
verify_face user_id id_type answer updated now = do
  found ← gets (λ db. find user_key user_id db.users)
  user ← or_raise found not_found
  row ← λ db. one_verification (filter_by (is_verified_of user.id id_type) db.verifications) db
  v ← or_raise row (validation no_verified_id)
  done ← apply_face user v answer updated now
  audit identity_face_verified v.id
  pure done

abbrev is_of : ℕ → IdType → IdentityVerification → Bool
is_of user_id id_type v = v.user_id == user_id && same_type v.id_type id_type

unfoldable pub get_latest_verification : ℕ → IdType → Action Db (Option IdentityVerification)
get_latest_verification user_id id_type db =
    one_verification (filter_by (is_of user_id id_type) db.verifications) db

pub record IdentityStatus : Type 0 where
  pub nin_verified : Bool
  pub bvn_verified : Bool
  pub face_verified : Bool
  pub can_provision_offline_token : Bool
  pub latest : Option IdentityVerification

abbrev latest_of : ℕ → Option IdType → Action Db (Option IdentityVerification)
latest_of user_id none = pure none
latest_of user_id (some id_type) = get_latest_verification user_id id_type

unfoldable pub get_verification_status : ℕ → Option IdType → Action Db IdentityStatus
get_verification_status user_id id_type = do
  found ← gets (λ db. find user_key user_id db.users)
  user ← or_raise found not_found
  latest ← latest_of user_id id_type
  pure (record {
    nin_verified = user.nin_verified;
    bvn_verified = user.bvn_verified;
    face_verified = user.face_verified;
    can_provision_offline_token = user.nin_verified && user.face_verified;
    latest = latest;
  })
