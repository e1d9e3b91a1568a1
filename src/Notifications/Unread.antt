-- ===== src/Notifications/Unread.antt =====
-- How many notifications a user has not read.
use offimesh.Prelude.{
  ℕ, ◌+◌, ◌≡◌, ◌≢◌, refl, ap, ◌∙◌, Bool, ◌&&◌, Option, none, some, List, [], ◌∷◌, ◌==◌,
  if◌then◌else◌, find, filter_by, length, arith,
}
use offimesh.Exceptions.{ok}
use offimesh.Notifications.{
  NotificationType, Category, category_of, Title, Message, Notification, NotificationPreference,
  Inbox, preference_key, allows, check_preference, send_notification, is_unread_of, set_read,
  mark_all_read, get_unread_count, default_preference, get_or_create_preferences,
}

abbrev pub unread : ℕ → Inbox → ℕ
unread u s = length (filter_by (is_unread_of u) s.notifications)

-- A notification of a category reaches the user.
abbrev pub permitted : ℕ → Category → Inbox → Bool
permitted u c s = allows (find preference_key u s.preferences) c

-- Something is sent to a user, or a user opens the settings.
pub data InboxCall : Type 0 where
  sends : ℕ → ℕ → NotificationType → Option Title → Option Message → InboxCall
  opens : ℕ → InboxCall

unfoldable pub perform : InboxCall → Inbox → Inbox
perform (sends id u type title message) s = (send_notification id u type title message s).1
perform (opens u) s = (get_or_create_preferences u s).1

unfoldable pub perform_all : List InboxCall → Inbox → Inbox
perform_all [] s = s
perform_all (call ∷ calls) s = perform_all calls (perform call s)

-- How many of the calls send the user something that reaches the user.
unfoldable pub count_permitted : ℕ → (Category → Bool) → List InboxCall → ℕ
count_permitted u reaches [] = 0
count_permitted u reaches (sends id v type title message ∷ calls) =
    (if v == u && reaches (category_of type) then 1 else 0) + count_permitted u reaches calls
count_permitted u reaches (opens v ∷ calls) = count_permitted u reaches calls

all_read :
    (u now : ℕ) (ns : List Notification) → filter_by (is_unread_of u) (set_read u now ns) ≡ []
unfolding set_read
all_read u now [] = refl
all_read u now (n ∷ ns) = ground (arith, all_read u now ns)

others_unread :
    (u v now : ℕ) (ns : List Notification)
    → u ≢ v
    → filter_by (is_unread_of v) (set_read u now ns) ≡ filter_by (is_unread_of v) ns
unfolding set_read
others_unread u v now [] h = refl
others_unread u v now (n ∷ ns) h = ground (arith, others_unread u v now ns h)

default_allows : (u : ℕ) (c : Category) → allows (some (default_preference u)) c ≡ allows none c
unfolding allows
default_allows u Category.transaction = refl
default_allows u Category.security = refl
default_allows u Category.promotional = refl

find-same :
    (v u : ℕ) (ps : List NotificationPreference)
    → find preference_key v ps ≡ none
    → v ≡ u
    → find preference_key u ps ≡ none
find-same v u ps e same = rw same at e

-- Neither call changes what reaches a user.
perform-permitted :
    (call : InboxCall) (u : ℕ) (c : Category) (s : Inbox)
    → permitted u c (perform call s) ≡ permitted u c s
unfolding perform send_notification check_preference get_or_create_preferences
perform-permitted (sends id v type title message) u c s = ground arith
perform-permitted (opens v) u c s =
    ground (arith, default_allows u c, default_allows v c, find-same v u s.preferences)

perform-unread :
    (call : InboxCall) (u : ℕ) (reaches : Category → Bool) (s : Inbox)
    → ((c : Category) → permitted u c s ≡ reaches c)
    → unread u (perform call s) ≡ count_permitted u reaches (call ∷ []) + unread u s
unfolding perform send_notification check_preference get_or_create_preferences count_permitted
perform-unread (sends id v type title message) u reaches s h = ground (arith, h (category_of type))
perform-unread (opens v) u reaches s h = ground arith

count-cons :
    (call : InboxCall) (u : ℕ) (reaches : Category → Bool) (calls : List InboxCall)
    → count_permitted u reaches (call ∷ calls)
      ≡ count_permitted u reaches (call ∷ []) + count_permitted u reaches calls
unfolding count_permitted
count-cons (sends id v type title message) u reaches calls = omega arith
count-cons (opens v) u reaches calls = omega arith

perform_all-unread :
    (calls : List InboxCall) (u : ℕ) (reaches : Category → Bool) (s : Inbox)
    → ((c : Category) → permitted u c s ≡ reaches c)
    → unread u (perform_all calls s) ≡ count_permitted u reaches calls + unread u s
unfolding perform_all count_permitted
perform_all-unread [] u reaches s h = omega arith
perform_all-unread (call ∷ calls) u reaches s h = omega (
  arith,
  perform_all-unread calls u reaches (perform call s) (λ c. perform-permitted call u c s ∙ h c),
  perform-unread call u reaches s h,
  count-cons call u reaches calls,
)

read_then :
    (u now : ℕ) (calls : List InboxCall) (s : Inbox)
    → unread u (perform_all calls (record s { notifications = set_read u now s.notifications }))
      ≡ count_permitted u (λ c. permitted u c s) calls
read_then u now calls s =
    let read : Inbox = record s { notifications = set_read u now s.notifications } in
    omega (
      arith,
      perform_all-unread calls u (λ c. permitted u c s) read (λ c. refl),
      ap length (all_read u now s.notifications),
    )

-- Right after everything was marked as read, which counts what was unread and leaves other users'
-- notifications unread, a user has as many unread notifications as were sent since and reach the
-- user by the preferences at the start, in whatever order things are sent to users and settings are
-- opened: to open them does not change what reaches anyone.
pub mark_all_read-unread :
    (u v now : ℕ) (calls : List InboxCall) (s : Inbox)
    → u ≢ v
    → let (r, read) = mark_all_read u now s in
      (r ≡ ok (unread u s))
      × (unread v read ≡ unread v s)
      × ((get_unread_count u (perform_all calls read)).0
          ≡ ok (count_permitted u (λ c. permitted u c s) calls))
unfolding mark_all_read get_unread_count
mark_all_read-unread u v now calls s h =
    (refl, ap length (others_unread u v now s.notifications h), ap ok (read_then u now calls s))
