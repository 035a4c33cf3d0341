-- ===== src/Notifications.antt =====
-- apps/notifications: the rows that tell a user of an event (models.py, services.py).
use sanga.Common.{ℕ, Bool, false, Option, List, ◌∷◌}
use sanga.Common.Text.{Text}

-- `Notification.Kind`
pub data NotificationKind : Type 0 where
  saved_search_match general : NotificationKind

pub record Notification : Type 0 where
  pub id : ℕ
  pub user : ℕ
  pub business : Option ℕ
  pub kind : NotificationKind
  pub title : Text
  pub body : Text
  pub link : Text
  pub is_read : Bool
  pub created_at : ℕ

-- `notify_user`, for the row's UUID and the clock.
unfoldable pub notify_user :
    ℕ
    → ℕ
    → (user : ℕ) (business : Option ℕ) (kind : NotificationKind) (title body link : Text)
    → List Notification
    → List Notification
notify_user uuid now user business kind title body link rows =
    (record {
      id = uuid;
      user = user;
      business = business;
      kind = kind;
      title = title;
      body = body;
      link = link;
      is_read = false;
      created_at = now;
    })
    ∷ rows
