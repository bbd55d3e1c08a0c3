-- ===== src/Users/Events.antt =====
-- internal/storage/users.go: applyWebhookEvent, repeated.
use sendly.Common.{
  String, Bool, true, ◌≡◌, ◌≢◌, ◌==◌, string_eq, exists, arith, ok, pure, ◌>>=◌, Db, statement,
  transaction,
}
use sendly.Models.{Time}
use sendly.Users.Store.{Tables, Store, WebhookEvent, apply_webhook_event}

abbrev pub has_event : String → Tables → Bool
has_event event_id t = exists (λ (e : WebhookEvent). e.event_id == event_id) t.events

-- An event that is remembered is not applied: whatever `apply` would do, nothing changes.
pub apply_webhook_event-again :
    (now : Time) (event_id event_type : String) (apply : Store (Unit {0})) (db : Db Tables)
    → has_event event_id db.tables ≡ true
    → ((apply_webhook_event now event_id event_type apply db).1.tables ≡ db.tables)
      × ((apply_webhook_event now event_id event_type apply db).0 ≢ ok true)
unfolding apply_webhook_event transaction statement pure ◌>>=◌
apply_webhook_event-again now event_id event_type apply db there = (ground arith, ground arith)
