-- ===== src/Realtime/Hub.antt =====
-- internal/realtime/hub.go, internal/realtime/listener.go: the sockets of a replica by their topics. A call
-- holds the lock while it reads or changes the map; what it does to the sockets it found does not
-- wait, and is run at once here. `takes_done` is the case that a `select` takes for a socket.
use sendly.Common.{
  ℕ, String, Bool, true, false, not, ◌&&◌, ◌==◌, nat_eq, string_eq, leb, List, [], ◌∷◌,
  if◌then◌else◌, update, delete,
}
use sendly.Models.{Bytes}
use sendly.Realtime.Conn.{Conn, Step, new_conn, close_with, send, step, close_service_restart}

-- The map holds a socket under its topic; a topic with no socket is not in it.
pub record Hub : Type 0 where
  pub conns : List Conn
  pub closing : Bool

abbrev pub is_conn : ℕ → Conn → Bool
is_conn id c = c.id == id

abbrev pub on_topic : String → Conn → Bool
on_topic topic c = c.topic == topic

-- The socket that `Add` returns beside the hub. Where the hub is closing it is told to close and not
-- registered, and no goroutine serves it.
unfoldable pub add : ℕ → String → Hub → Conn × Hub
unfolding close_with
add id topic h =
    if h.closing
    then (
      close_with close_service_restart "server restarting"
          (record (new_conn id topic) { serving = false }),
      h,
    )
    else (new_conn id topic, record h { conns = new_conn id topic ∷ h.conns })

-- The goroutine of `Add`, after `serve`.
unfoldable pub remove : ℕ → Hub → Hub
remove id h = record h { conns = delete (λ c. is_conn id c && not c.serving) h.conns }

unfoldable pub deliver : (ℕ → Bool) → String → Bytes → Hub → Hub
unfolding send
deliver takes_done topic event h = record h {
  conns = update (on_topic topic) (λ c. send (takes_done c.id) event c) h.conns;
}

-- `len(msg) <= maxNotifyPayload`
abbrev pub max_notify_payload : ℕ
max_notify_payload = 7900

-- A hub with the events that its publisher has sent to every replica, the latest first.
pub record Published : Type 0 where
  pub hub : Hub
  pub notified : List (String × Bytes)

-- `Notify`: the publisher sends the event, or fails.
abbrev pub notify : Bool → String → Bytes → Published → Bool × Published
notify fails topic event p =
    if fails then (false, p) else (true, record p { notified = (topic, event) ∷ p.notified })

-- The event is delivered here where there is no publisher, where it is too large for one, and where it
-- fails. `size` is the length of the encoded envelope; the payload can be encoded.
unfoldable pub publish : Bool → ℕ → Bool → (ℕ → Bool) → String → Bytes → Published → Published
unfolding deliver
publish has_publisher size fails takes_done topic event p =
    if has_publisher && leb size max_notify_payload
    then (let (done, p') = notify fails topic event p in
        if done then p' else record p' { hub = deliver takes_done topic event p'.hub })
    else record p { hub = deliver takes_done topic event p.hub }

unfoldable pub drop_all : ℕ → String → Hub → Hub
unfolding close_with
drop_all code reason h = record h { conns = update (λ c. true) (close_with code reason) h.conns }

unfoldable pub shutdown : Hub → Hub
unfolding drop_all
shutdown h = drop_all close_service_restart "server restarting" (record h { closing = true })

-- What happens to a hub: calls of it, a listener that has missed events, and the steps of its sockets.
pub data Event : Type 0 where
  adds : ℕ → String → Event
  removes : ℕ → Event
  delivers : (ℕ → Bool) → String → Bytes → Event
  resyncs shuts_down : Event
  moves : ℕ → Step → Event

unfoldable pub handle_event : Event → Hub → Hub
unfolding add remove deliver drop_all shutdown step
handle_event (adds id topic) h = (add id topic h).1
handle_event (removes id) h = remove id h
handle_event (delivers takes_done topic event) h = deliver takes_done topic event h
handle_event resyncs h = drop_all close_service_restart "resync" h
handle_event shuts_down h = shutdown h
handle_event (moves id s) h = record h { conns = update (is_conn id) (step s) h.conns }

unfoldable pub handle_events : List Event → Hub → Hub
unfolding handle_event
handle_events [] h = h
handle_events (e ∷ events) h = handle_events events (handle_event e h)
