-- ===== src/Models/Session.antt =====
-- The tables that a database session reads and writes.
use offimesh.Prelude.{ℕ, List, ◌∷◌}
use offimesh.Exceptions.{Action, modify}
use offimesh.Ledger.{Books}
use offimesh.Models.Token.{OfflineToken}
use offimesh.Models.Payment.{Transaction, TransactionEvent, Settlement}
use offimesh.Models.Party.{User, Device}
use offimesh.Models.Identity.{IdentityVerification}
use offimesh.Models.Webhook.{WebhookEvent, VirtualAccount}
use offimesh.Models.Risk.{FraudSignal, BlacklistedDevice, DeviceActivityLog, AuditLog, AuditAction}

pub record Db : Type 0 where
  pub books : Books
  pub tokens : List OfflineToken
  pub users : List User
  pub devices : List Device
  pub transactions : List Transaction
  pub events : List TransactionEvent
  pub settlements : List Settlement
  pub signals : List FraudSignal
  pub blacklist : List BlacklistedDevice
  pub activities : List DeviceActivityLog
  pub audits : List AuditLog
  pub webhooks : List WebhookEvent
  pub accounts : List VirtualAccount
  pub verifications : List IdentityVerification

-- A call of the ledger service in the same session.
abbrev pub on_books : {A : Type 0} → Action Books A → Action Db A
on_books m db = let (r, books) = m db.books in (r, record db { books = books })

-- `audit_repo.create`
abbrev pub logged : AuditAction → ℕ → Db → Db
logged action resource_id db = record db {
  audits = (record { action = action; resource_id = resource_id }) ∷ db.audits;
}

abbrev pub audit : AuditAction → ℕ → Action Db (Unit {0})
audit action resource_id = modify (logged action resource_id)
