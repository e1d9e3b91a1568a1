-- ===== src/Models/Identity.antt =====
-- app/models/identity_verification.py, without the number of the document and the scores and texts
-- that are only stored.
use offimesh.Prelude.{ℕ, Option, Bool}

-- `id_type`; `other_id` is any other string.
pub data IdType : Type 0 where
  nin bvn : IdType
  other_id : ℕ → IdType

pub data VerificationStatus : Type 0 where
  verification_pending verification_verified verification_failed : VerificationStatus

pub record IdentityVerification : Type 0 where
  pub id : ℕ
  pub user_id : ℕ
  pub id_type : IdType
  pub verification_status : VerificationStatus
  pub face_verified : Bool
  pub verified_at : Option ℕ
  pub created_at : ℕ

abbrev pub verification_key : IdentityVerification → ℕ
verification_key v = v.id
