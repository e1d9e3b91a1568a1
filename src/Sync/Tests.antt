-- ===== src/Sync/Tests.antt =====
-- A Redis that never forgets, one token with a naive expiry and one with an aware one.
use offimesh.Prelude.{
  int_laws, ℕ, ◌+◌, ℤ, pos, ◌+ℤ◌, ◌-ℤ◌, ◌≡◌, refl, Bool, true, false, ◌&&◌, none, some, Option,
  List, [], ◌∷◌, arith, length, ◌==◌, if◌then◌else◌, is_some,
}
use offimesh.Exceptions.{ok, err, type_error}
use offimesh.Models.{
  user_active, Db, User, Device, standard, OfflineToken, active, aware, naive, is_expired,
}
use offimesh.Sync.Cache.{
  Redis, World, Key, nonce_key, seq_key, request, check_and_store_nonce, get_last_sequence,
  set_last_sequence,
}
use offimesh.Sync.Requests.{
  TxData, Request, complete, accepted, rejected, insufficient_token_limit, replay_detected,
  BatchReply, required, count_accepted, count_rejected,
}
use offimesh.Sync.{
  sync_batch, process_all, process_single_transaction, check_token, check_active, check_parties,
  check_device, check_replay, accept, create_transaction, charge,
}
use offimesh.Sync.Charges.{IsCharged, used, paid_from, sync_batch-IsCharged}
use offimesh.Sync.Limits.{IsOrderly, IsDistinct, sync_batch-IsOrderly}
use offimesh.Sync.Batches.{sync_batch_aware}
use offimesh.Sync.Counts.{sync_batch-counts}

abbrev Store : Type 0
Store = List (Key × ℤ)

same_key : Key → Key → Bool
same_key (nonce_key a) (nonce_key b) = a == b
same_key (seq_key a b) (seq_key c d) = a == c && b == d
same_key _ _ = false

get_key : Key → Store → Option ℤ
get_key k [] = none
get_key k ((l, v) ∷ s) = if same_key k l then some v else get_key k s

abbrev store : Redis Store
store = record {
  setnx = λ k s. if is_some (get_key k s) then (false, s) else (true, (k, pos 1) ∷ s);
  expire = λ k ttl s. s;
  get = get_key;
  setex = λ k ttl v s. (k, v) ∷ s;
}

abbrev payer : User
payer = record {
  id = 1;
  name = none;
  nin_verified = true;
  bvn_verified = false;
  face_verified = true;
  balance_kobo = pos 0;
  phone_hash = 31;
  phone_salt = 32;
  email = none;
  pin_hash = none;
  role = 1;
  user_status = user_active;
}

abbrev device : Device
device = record {
  id = 3;
  user_id = 1;
  device_fingerprint = 33;
  trust_level = standard;
  registered_at = some 50;
  device_trust_score = pos 0;
  last_ip_address = 0;
  play_integrity_last_verdict = none;
  play_integrity_last_check = none;
  is_hardware_backed_key = true;
  play_integrity_fail_count = 0;
}

abbrev token : OfflineToken
token = record {
  id = 7;
  token_id = some 70;
  serial = 700;
  user_id = 1;
  device_id = 3;
  device_fingerprint_hash = 9;
  amount_kobo = pos 200;
  amount_used_kobo = pos 50;
  nonce = 11;
  server_signature = 12;
  status = active;
  customer_spend_cutoff = aware 1000;
  expires_at = naive 2000;
}

abbrev aware_token : OfflineToken
aware_token = record token { id = 8; token_id = some 80; serial = 800; expires_at = aware 2000 }

abbrev db : Db
db = record {
  books = record { balances = []; entries = [] };
  tokens = token ∷ aware_token ∷ [];
  users = payer ∷ record payer { id = 2 } ∷ [];
  devices = device ∷ [];
  transactions = [];
  events = [];
  settlements = [];
  signals = [];
  blacklist = [];
  activities = [];
  webhooks = [];
  accounts = [];
  verifications = [];
  audits = [];
}

abbrev world : World Store
world = record { db = db; cache = [] }

-- An entry for `token`, with its transaction id, amount and nonce.
abbrev entry : ℕ → ℤ → ℕ → TxData
entry tx_id amount nonce = record {
  tx_id = some tx_id;
  token_id = some 70;
  payer_user_id = some 1;
  payee_user_id = some 2;
  amount_kobo = some amount;
  nonce = some nonce;
  sequence_number = some (pos tx_id);
  initiated_at = some 5;
  payer_signature = some 6;
  merchant_signature = some 7;
  payload_hash = some 8;
  payer_device_id = some 3;
  merchant_reference = none;
}

-- The second entry repeats the nonce of the first, the third is too large.
abbrev batch : List TxData
batch = entry 1 (pos 60) 21 ∷ entry 2 (pos 10) 21 ∷ entry 3 (pos 100) 22 ∷ []

abbrev reply : BatchReply
reply = record {
  processed = 3;
  accepted_count = 1;
  rejected_count = 2;
  results = accepted ∷ rejected replay_detected ∷ rejected insufficient_token_limit ∷ [];
}

replied : (sync_batch store 40 3 batch 100 world).0 ≡ ok reply
unfolding sync_batch process_all process_single_transaction required check_token check_active
    is_expired check_parties check_device check_replay check_and_store_nonce get_last_sequence
    set_last_sequence accept create_transaction charge count_accepted count_rejected same_key
    get_key ◌+ℤ◌ ◌-ℤ◌
replied = refl

sync_batch-counts_example :
    (length reply.results ≡ 3)
    × (length (sync_batch store 40 3 batch 100 world).1.db.transactions ≡ 1 + 0)
sync_batch-counts_example = sync_batch-counts store 40 3 batch 100 world reply replied

db-IsOrderly : IsOrderly db
unfolding IsOrderly IsDistinct
db-IsOrderly = ((omega arith, (omega arith, tt)), tt, tt)

sync_batch-IsOrderly_example : IsOrderly (sync_batch store 40 3 batch 100 world).1.db
sync_batch-IsOrderly_example = sync_batch-IsOrderly store 40 3 batch 100 world db-IsOrderly

abbrev charged_before : ℕ → ℤ
charged_before k = used k db.tokens

db-IsCharged : IsCharged charged_before db
unfolding IsCharged IsDistinct paid_from
db-IsCharged = ((refl, (refl, tt)), λ k. omega int_laws)

sync_batch-IsCharged_example : IsCharged charged_before (sync_batch store 40 3 batch 100 world).1.db
sync_batch-IsCharged_example =
    sync_batch-IsCharged store charged_before 40 3 batch 100 world db-IsCharged

abbrev aware_entry : TxData
aware_entry = record (entry 1 (pos 60) 21) { token_id = some 80 }

abbrev aware_request : Request
aware_request = record {
  tx_id = 1;
  token_id = 80;
  payer_user_id = 1;
  payee_user_id = 2;
  amount_kobo = pos 60;
  nonce = 21;
  sequence_number = pos 1;
  payer_device_id = some 3;
  merchant_reference = none;
}

complete_entry : required aware_entry ≡ complete aware_request
unfolding required
complete_entry = refl

sync_batch_aware_example :
    request (sync_batch store 40 3 (aware_entry ∷ []) 100) world ≡ (err type_error, world)
sync_batch_aware_example =
    sync_batch_aware store 40 3 aware_entry [] 100 2000 world device aware_request aware_token refl
      refl refl complete_entry refl refl refl
