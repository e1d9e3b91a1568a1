-- ===== src/Notifications.antt =====
-- app/services/notification_service.py on the tables of app/models/notification.py. The payload of a
-- notification and the identifiers for tracing are only stored and are left out; a text that the caller
-- gives is a number, 0 the empty one. Rows stand newest first.
pub mod Unread
mod Tests
use offimesh.Prelude.{
  ℕ, zero, suc, ℤ, Bool, true, false, not, ◌&&◌, Option, none, some, List, [], ◌∷◌, ◌==◌,
  if◌then◌else◌, find, replace, filter_by, is_some, length, take, drop,
}
use offimesh.Exceptions.{Action, pure, gets, modify, ◌>>=◌, ◌>>◌}

-- The keys of `NOTIFICATION_TYPES`, and any other string.
pub data NotificationType : Type 0 where
  transaction_received transaction_sent transaction_failed : NotificationType
  token_provisioned token_expiring token_expired : NotificationType
  security_pin_changed security_new_device security_suspicious_activity : NotificationType
  identity_verified identity_rejected device_blacklisted : NotificationType
  wallet_funded withdrawal_complete welcome : NotificationType
  other_type : ℕ → NotificationType

pub data Category : Type 0 where
  transaction security promotional : Category

-- `NOTIFICATION_TYPES.get(...).get("category", "transaction")`
unfoldable pub category_of : NotificationType → Category
category_of security_pin_changed = security
category_of security_new_device = security
category_of security_suspicious_activity = security
category_of identity_verified = security
category_of identity_rejected = security
category_of device_blacklisted = security
category_of welcome = promotional
category_of _ = transaction

-- A title is given, the default of a type ("Notification" where the table lacks it), or that of an
-- alert.
pub data Title : Type 0 where
  given : ℕ → Title
  default_of : NotificationType → Title
  security_alert : ℕ → Title

-- A message is given, made from the title, or one of the texts of the convenience methods.
pub data Message : Type 0 where
  text : ℕ → Message
  about : Title → Message
  received : ℤ → Option ℕ → Message
  expiring : ℤ → ℕ → Message

pub record Notification : Type 0 where
  pub id : ℕ
  pub user_id : ℕ
  pub notification_type : NotificationType
  pub title : Title
  pub message : Message
  pub read_at : Option ℕ

pub record NotificationPreference : Type 0 where
  pub user_id : ℕ
  pub push_enabled : Bool
  pub email_enabled : Bool
  pub sms_enabled : Bool
  pub transaction_notifications : Bool
  pub security_notifications : Bool
  pub promotional_notifications : Bool

pub record Inbox : Type 0 where
  pub notifications : List Notification
  pub preferences : List NotificationPreference

abbrev pub preference_key : NotificationPreference → ℕ
preference_key p = p.user_id

abbrev pub notification_key : Notification → ℕ
notification_key n = n.id

unfoldable pub allows : Option NotificationPreference → Category → Bool
allows none promotional = false
allows none transaction = true
allows none security = true
allows (some p) transaction = p.transaction_notifications
allows (some p) security = p.security_notifications
allows (some p) promotional = p.promotional_notifications

unfoldable pub check_preference : ℕ → NotificationType → Action Inbox Bool
check_preference user_id type =
    gets (λ s. allows (find preference_key user_id s.preferences) (category_of type))

-- `title or type_info.get("title", "Notification")`, where `none` is not given.
unfoldable pub final_title : Option Title → NotificationType → Title
final_title none type = default_of type
final_title (some (given t)) type = if t == 0 then default_of type else given t
final_title (some t) type = t

unfoldable pub final_message : Option Message → Title → Message
final_message none title = about title
final_message (some m) title = m

unfoldable pub send_notification :
    ℕ → ℕ → NotificationType → Option Title → Option Message → Action Inbox (Option Notification)
send_notification id user_id type title message = do
  should_send ← check_preference user_id type
  if not should_send then pure none else do
    let shown = final_title title type
    let notification : Notification = record {
      id = id;
      user_id = user_id;
      notification_type = type;
      title = shown;
      message = final_message message shown;
      read_at = none;
    }
    modify (λ s. record s { notifications = notification ∷ s.notifications })
    pure (some notification)

abbrev pub is_unread : Notification → Bool
is_unread n = not (is_some n.read_at)

abbrev pub is_unread_of : ℕ → Notification → Bool
is_unread_of user_id n = n.user_id == user_id && is_unread n

-- The select by the id and the user.
abbrev pub find_own : ℕ → ℕ → List Notification → Option Notification
find_own id user_id [] = none
find_own id user_id (n ∷ ns) =
    if n.id == id && n.user_id == user_id then some n else find_own id user_id ns

unfoldable pub mark_read : ℕ → ℕ → ℕ → Action Inbox Bool
mark_read id user_id now = do
  found ← gets (λ s. find_own id user_id s.notifications)
  elim found [
    | none ↦ pure false
    | some n ↦
        (modify (λ s. record s {
          notifications =
              replace notification_key (record n { read_at = some now }) s.notifications;
        })
          >> pure true)
  ]

unfoldable pub set_read : ℕ → ℕ → List Notification → List Notification
set_read user_id now [] = []
set_read user_id now (n ∷ ns) =
    (if is_unread_of user_id n then record n { read_at = some now } else n)
    ∷ set_read user_id now ns

unfoldable pub mark_all_read : ℕ → ℕ → Action Inbox ℕ
mark_all_read user_id now = do
  unread ← gets (λ s. filter_by (is_unread_of user_id) s.notifications)
  modify (λ s. record s { notifications = set_read user_id now s.notifications })
  pure (length unread)

unfoldable pub get_unread_count : ℕ → Action Inbox ℕ
get_unread_count user_id = gets (λ s. length (filter_by (is_unread_of user_id) s.notifications))

unfoldable pub get_user_notifications : ℕ → ℕ → ℕ → Bool → Action Inbox (List Notification)
get_user_notifications user_id limit offset unread_only = gets (λ s. take limit (
    drop offset (
      filter_by (λ n. n.user_id == user_id && (if unread_only then is_unread n else true))
        s.notifications)))

-- The row with the defaults of its columns.
abbrev pub default_preference : ℕ → NotificationPreference
default_preference user_id = record {
  user_id = user_id;
  push_enabled = true;
  email_enabled = true;
  sms_enabled = false;
  transaction_notifications = true;
  security_notifications = true;
  promotional_notifications = false;
}

unfoldable pub get_or_create_preferences : ℕ → Action Inbox NotificationPreference
get_or_create_preferences user_id = do
  found ← gets (λ s. find preference_key user_id s.preferences)
  elim found [
    | some p ↦ pure p
    | none ↦
        (modify (λ s. record s { preferences = default_preference user_id ∷ s.preferences })
          >> pure (default_preference user_id))
  ]

-- The fields that a request body has.
pub data Setting : Type 0 where
  push email sms transactions security_alerts promotions : Bool → Setting

unfoldable pub set_attribute : Setting → NotificationPreference → NotificationPreference
set_attribute (push b) p = record p { push_enabled = b }
set_attribute (email b) p = record p { email_enabled = b }
set_attribute (sms b) p = record p { sms_enabled = b }
set_attribute (transactions b) p = record p { transaction_notifications = b }
set_attribute (security_alerts b) p = record p { security_notifications = b }
set_attribute (promotions b) p = record p { promotional_notifications = b }

unfoldable pub set_attributes : List Setting → NotificationPreference → NotificationPreference
set_attributes [] p = p
set_attributes (x ∷ xs) p = set_attributes xs (set_attribute x p)

unfoldable pub update_preferences : ℕ → List Setting → Action Inbox NotificationPreference
update_preferences user_id settings = do
  p ← get_or_create_preferences user_id
  modify (λ s. record s {
    preferences = replace preference_key (set_attributes settings p) s.preferences;
  })
  pure (set_attributes settings p)

abbrev pub notify_transaction_received : ℕ → ℕ → ℤ → Option ℕ → Action Inbox (Option Notification)
notify_transaction_received id user_id amount_kobo sender_name =
    send_notification id user_id transaction_received none (some (received amount_kobo sender_name))

abbrev pub notify_token_expiring : ℕ → ℕ → ℤ → ℕ → Action Inbox (Option Notification)
notify_token_expiring id user_id remaining_kobo minutes_until_expiry =
    send_notification id user_id token_expiring none
      (some (expiring remaining_kobo minutes_until_expiry))

abbrev pub notify_security_alert : ℕ → ℕ → ℕ → ℕ → Action Inbox (Option Notification)
notify_security_alert id user_id alert_type details =
    send_notification id user_id security_suspicious_activity (some (security_alert alert_type))
      (some (text details))
