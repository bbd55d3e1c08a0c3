-- ===== src/Realtime/Delivered.antt =====
-- internal/realtime/hub.go: the sockets that an event reaches.
use sendly.Common.{
  ℕ, ◌<◌, ◌≤◌, String, Bool, true, false, ◌&&◌, ◌≡◌, ◌⊎◌, refl, ap, ◌∙◌, inl, inr, ◌==◌, nat_eq,
  string_eq, ltb, some, [], ◌∷◌, ◌++◌, if◌then◌else◌, leb, length, find, arith, Bool-cases,
}
use sendly.Common.Keyed.{find-update, change_if}
use sendly.Models.{Bytes}
use sendly.Realtime.Conn.{Conn, close_with, send, send_buffer}
use sendly.Realtime.Hub.{Hub, is_conn, on_topic, deliver, max_notify_payload, Published, publish}

-- What a delivery does to an open socket: the event is queued last, or 32 events wait already and the
-- socket is closed.
abbrev pub Reached : Bytes → Conn → Conn → Type 0
Reached event c after =
    ((after.out ≡ c.out ++ (event ∷ [])) × (after.done ≡ false) × (length c.out < 32))
    ⊎ ((after.out ≡ c.out) × (after.done ≡ true) × (32 ≤ length c.out))

send-reaches :
    (takes_done : Bool) (event : Bytes) (c : Conn)
    → c.done ≡ false
    → Reached event c (send takes_done event c)
unfolding send close_with
send-reaches takes_done event c open_still = elim (Bool-cases (ltb (length c.out) send_buffer)) [
  | inl room ↦
      inl (ground (arith, open_still, room), ground (arith, open_still, room), ground arith)
  | inr full ↦
      inr (ground (arith, open_still, full), ground (arith, open_still, full), ground arith)
]

send-id : (takes_done : Bool) (event : Bytes) (c : Conn) → (send takes_done event c).id ≡ c.id
unfolding send close_with
send-id takes_done event c = ground arith

-- What a delivery leaves of a socket with an identifier.
abbrev pub Delivered : String → Bytes → ℕ → Conn → Hub → Type 0
Delivered topic event id c h =
    (after : Conn) × (find (is_conn id) h.conns ≡ some after)
    × (on_topic topic c ≡ true → Reached event c after)
    × (on_topic topic c ≡ false → after ≡ c)

deliver-Delivered :
    (takes_done : ℕ → Bool) (topic : String) (event : Bytes) (h : Hub) (id : ℕ) (c : Conn)
    → find (is_conn id) h.conns ≡ some c
    → c.done ≡ false
    → Delivered topic event id c (deliver takes_done topic event h)
unfolding deliver
deliver-Delivered takes_done topic event h id c there open_still = (
  (if on_topic topic c then send (takes_done c.id) event c else c),
  find-update (is_conn id) (on_topic topic) (λ x. send (takes_done x.id) event x) h.conns
        (λ x. ap (λ n. n == id) (send-id (takes_done x.id) event x))
      ∙ ap (change_if (on_topic topic) (λ x. send (takes_done x.id) event x)) there,
  (λ hit. rw hit (send-reaches (takes_done c.id) event c open_still)),
  (λ miss. rw miss refl),
)

-- Publish never loses an event: it sends the event to every replica and touches no socket itself, or it
-- sends nothing and delivers it here. In that case an open socket of the topic has it last in its queue,
-- or is closed because 32 events already wait, and a socket of another topic stays as it is.
pub publish-reaches :
    (has_publisher : Bool) (size : ℕ) (fails : Bool) (takes_done : ℕ → Bool) (topic : String)
    (event : Bytes) (p : Published) (id : ℕ) (c : Conn)
    → find (is_conn id) p.hub.conns ≡ some c
    → c.done ≡ false
    → (publish has_publisher size fails takes_done topic event p
        ≡ record { hub = p.hub; notified = (topic, event) ∷ p.notified })
      ⊎ (((publish has_publisher size fails takes_done topic event p).notified ≡ p.notified)
          × Delivered topic event id c
              (publish has_publisher size fails takes_done topic event p).hub)
unfolding publish
publish-reaches has_publisher size fails takes_done topic event p id c there open_still =
    let here = deliver-Delivered takes_done topic event p.hub id c there open_still in
    elim (Bool-cases (has_publisher && leb size max_notify_payload)) [
      | inr local ↦ inr (rw local (refl, here))
      | inl fits ↦ elim (Bool-cases fails) [
        | inl bad ↦ inr (rw (fits, bad) (refl, here))
        | inr good ↦ inl (rw (fits, good) refl)
      ]
    ]
