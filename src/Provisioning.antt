-- ===== src/Provisioning.antt =====
-- `provision_token` of app/services/token_service.py, `can_user_provision_token` of
-- app/services/identity_verification_service.py and the queries of
-- app/repositories/device_repository.py that it uses. Hashing is a parameter, as are the id and the
-- nonce that the database and `generate_nonce` supply, and what `ulid.new` of python-ulid does:
-- it answers a serial, or the name is missing and the call raises.
pub mod Checks
pub mod Grants
pub mod Inserts
mod Tests
use offimesh.Prelude.{
  ℕ, ◌+◌, ◌*◌, ℤ, pos, min_ℤ, is_zero, ltb, Bool, true, false, not, ◌&&◌, Option, none, some, List,
  [], ◌∷◌, ◌==◌, if◌then◌else◌, find, filter_by, is_some,
}
use offimesh.Exceptions.{
  Action, Result, ok, err, pure, raise, raise_if, gets, or_raise, modify, returned, ◌>>=◌, ◌>>◌,
  validation, not_found, insufficient_funds, insufficient_balance, cannot_provision,
  device_not_trusted, device_not_eligible, fraud_block, integrity_error,
}
use offimesh.Ledger.{LedgerBalance, pending, lock_for_offline_token}
use offimesh.Models.{
  Db, User, user_key, Device, device_key, registration, is_not_revoked, on_books, audit,
  token_provisioned, token_provisioning, OfflineToken, active, aware, hours,
}
use offimesh.Fraud.{evaluate_checkpoint_1}
use offimesh.Trust.{DeviceTrustPayload, evaluate_trust}

unfoldable pub can_user_provision_token : ℕ → Action Db Bool
can_user_provision_token user_id = gets (λ db. elim (find user_key user_id db.users) [
  | some user ↦ user.nin_verified && user.face_verified
  | none ↦ false
])

-- `get_active_by_user`, of which only the newest row and the emptiness matter.
unfoldable pub newest : List Device → Option Device
newest [] = none
newest (d ∷ ds) = elim (newest ds) [
  | some e ↦ some (if ltb (registration d) (registration e) then e else d)
  | none ↦ some d
]

abbrev pub active_devices : ℕ → Db → List Device
active_devices user_id db =
    filter_by (λ d. d.user_id == user_id && is_not_revoked d.trust_level) db.devices

-- A device that the caller names is not asked to be an active one.
unfoldable pub choose_device : ℕ → Option ℕ → Action Db Device
choose_device user_id device_id = do
  first ← gets (λ db. newest (active_devices user_id db))
  default ← or_raise first not_found
  elim device_id [
    | none ↦ pure default
    | some i ↦ do
      found ← gets (λ db. find device_key i db.devices)
      device ← or_raise found not_found
      raise_if (not (device.user_id == user_id)) not_found
      pure device
  ]

-- `InsufficientFundsError` becomes a `ValidationError`.
abbrev pub remap : ℤ → Result LedgerBalance → Result LedgerBalance
remap amount (err (insufficient_funds _ have)) = err (validation (insufficient_balance amount have))
remap amount r = r

unfoldable pub lock_balance : ℕ → ℤ → Action Db LedgerBalance
lock_balance user_id amount db =
    let (r, db') = on_books (lock_for_offline_token user_id amount pending) db in
    (remap amount r, db')

pub record Fresh : Type 0 where
  pub id : ℕ
  pub nonce : ℕ

-- What the steps up to the lock find out.
pub record Grant : Type 0 where
  pub device : Device
  pub device_fingerprint_hash : ℕ
  pub amount_kobo : ℤ
  pub ttl_hours : ℕ

module _ (sha256 : ℕ → ℕ) (unknown : ℕ) (sign : ℕ → ℕ → ℕ → ℤ → ℕ) (ulid_new : Result ℕ) where
  abbrev pub default_payload : Device → DeviceTrustPayload
  default_payload device = record {
    device_fingerprint_hash =
        sha256 (if device.device_fingerprint == 0 then unknown else device.device_fingerprint);
    play_integrity_token = none;
    is_hardware_backed_key = device.is_hardware_backed_key;
  }

  abbrev pub payload_for : Option DeviceTrustPayload → Device → DeviceTrustPayload
  payload_for (some payload) device = payload
  payload_for none device = default_payload device

  -- The row that is inserted; nothing assigns `token_id`.
  abbrev pub new_token : ℕ → Grant → ℕ → Fresh → ℕ → OfflineToken
  new_token user_id grant serial fresh now = record {
    id = fresh.id;
    token_id = none;
    serial = serial;
    user_id = user_id;
    device_id = grant.device.id;
    device_fingerprint_hash = grant.device_fingerprint_hash;
    amount_kobo = grant.amount_kobo;
    amount_used_kobo = pos 0;
    nonce = fresh.nonce;
    server_signature = sign user_id grant.device.id serial grant.amount_kobo;
    status = active;
    customer_spend_cutoff = aware (now + hours 48);
    expires_at = aware (now + hours grant.ttl_hours);
  }

  -- The steps 1 to 7: the checks, the limits and the lock.
  unfoldable pub grant_token :
      ℕ → Option ℕ → ℤ → Option DeviceTrustPayload → ℕ → ℕ → Action Db Grant
  grant_token user_id device_id requested trust_payload ip_address now = do
    found ← gets (λ db. find user_key user_id db.users)
    user ← or_raise found not_found
    allowed ← can_user_provision_token user_id
    raise_if (not allowed) (validation cannot_provision)
    device ← choose_device user_id device_id
    let payload = payload_for trust_payload device
    trust ← evaluate_trust device payload ip_address token_provisioning now
    raise_if (not trust.trusted) (validation device_not_trusted)
    fraud ← evaluate_checkpoint_1 user_id payload.device_fingerprint_hash trust now
    raise_if fraud.blocked (fraud_block fraud.fraud_score)
    raise_if (is_zero trust.limits.max_token_kobo) (validation device_not_eligible)
    let actual_limit = min_ℤ requested trust.limits.max_token_kobo
    lock_balance user_id actual_limit
    pure (record {
      device = device;
      device_fingerprint_hash = payload.device_fingerprint_hash;
      amount_kobo = actual_limit;
      ttl_hours = trust.limits.ttl_hours;
    })

  -- Everything before the row is added to the session.
  unfoldable pub prepare_token :
      ℕ → Option ℕ → ℤ → Option DeviceTrustPayload → ℕ → Fresh → ℕ → Action Db OfflineToken
  prepare_token user_id device_id requested trust_payload ip_address fresh now = do
    grant ← grant_token user_id device_id requested trust_payload ip_address now
    serial ← returned ulid_new
    pure (new_token user_id grant serial fresh now)

  -- `db.add` and the flush, which the NOT NULL constraint of `token_id` stops.
  unfoldable pub insert_token : OfflineToken → Action Db (Unit {0})
  insert_token token = do
    raise_if (not (is_some token.token_id)) integrity_error
    modify (λ db. record db { tokens = token ∷ db.tokens })

  unfoldable pub provision_token :
      ℕ → Option ℕ → ℤ → Option DeviceTrustPayload → ℕ → Fresh → ℕ → Action Db OfflineToken
  provision_token user_id device_id requested trust_payload ip_address fresh now = do
    token ← prepare_token user_id device_id requested trust_payload ip_address fresh now
    insert_token token
    audit token_provisioned token.id
    pure token
