-- ===== src/Notifications/Tests.antt =====
-- An unread notification, and three more of which two reach the user.
use offimesh.Prelude.{◌≡◌, none, some, List, [], ◌∷◌, arith}
use offimesh.Exceptions.{ok}
use offimesh.Notifications.{
  Inbox, Notification, transaction_received, welcome, security_new_device, text, default_of, about,
  category_of, allows, mark_all_read, get_unread_count,
}
use offimesh.Notifications.Unread.{
  InboxCall, sends, opens, perform_all, count_permitted, unread, mark_all_read-unread,
}

abbrev payment : Notification
payment = record {
  id = 1;
  user_id = 4;
  notification_type = transaction_received;
  title = default_of transaction_received;
  message = about (default_of transaction_received);
  read_at = none;
}

abbrev inbox : Inbox
inbox = record { notifications = payment ∷ record payment { user_id = 6 } ∷ []; preferences = [] }

abbrev calls : List InboxCall
calls =
    sends 2 4 transaction_received none none
    ∷ sends 3 4 welcome none (some (text 5))
    ∷ opens 4
    ∷ sends 5 4 security_new_device none none
    ∷ sends 6 6 security_new_device none none
    ∷ []

mark_all_read-unread_example :
    ((mark_all_read 4 90 inbox).0 ≡ ok 1)
    × (unread 6 (mark_all_read 4 90 inbox).1 ≡ 1)
    × ((get_unread_count 4 (perform_all calls (mark_all_read 4 90 inbox).1)).0 ≡ ok 2)
unfolding count_permitted allows category_of
mark_all_read-unread_example = mark_all_read-unread 4 6 90 calls inbox (omega arith)
