-- ===== src/Realtime/Closed.antt =====
-- internal/realtime/hub.go: the sockets of a hub that shuts down.
use sendly.Common.{
  ℕ, String, Bool, true, false, not, ◌&&◌, ◌≡◌, refl, sym, subst, List, [], ◌∷◌, nat_eq, update,
  All, All-update, All-delete, arith,
}
use sendly.Models.{Bytes}
use sendly.Realtime.Conn.{
  Conn, close_with, send, write_next, ping, hang_up, finish, Step, sends, closes, writes, pings,
  hangs_up, finishes, step,
}
use sendly.Realtime.Hub.{
  Hub, is_conn, on_topic, add, remove, deliver, drop_all, shutdown, Event, adds, removes, delivers,
  resyncs, shuts_down, moves, handle_event, handle_events,
}

-- The socket has been told to close: `done` is closed.
abbrev pub IsDone : Conn → Type 0
IsDone c = c.done ≡ true

-- A socket that is done stays so.
step-IsDone : (s : Step) (c : Conn) → IsDone c → IsDone (step s c)
unfolding step send close_with write_next ping hang_up finish
step-IsDone (sends takes_done event) c h = ground (arith, h)
step-IsDone (closes code text) c h = ground (arith, h)
step-IsDone (writes fails) c h = ground (arith, h)
step-IsDone (pings fails) c h = ground (arith, h)
step-IsDone hangs_up c h = ground (arith, h)
step-IsDone finishes c h = ground (arith, h)

send-IsDone :
    (takes_done : Bool) (event : Bytes) (c : Conn) → IsDone c → IsDone (send takes_done event c)
unfolding send close_with
send-IsDone takes_done event c h = ground (arith, h)

close-IsDone : (code : ℕ) (text : String) (c : Conn) → IsDone (close_with code text c)
unfolding close_with
close-IsDone code text c = ground arith

pub record IsShut (h : Hub) : Type 0 where
  pub closing : h.closing ≡ true
  pub conns : All IsDone h.conns

closed-IsDone :
    (code : ℕ) (text : String) (cs : List Conn)
    → All IsDone (update (λ c. true) (close_with code text) cs)
closed-IsDone code text [] = tt
closed-IsDone code text (c ∷ cs) = (close-IsDone code text c, closed-IsDone code text cs)

drop_all-IsShut :
    (code : ℕ) (text : String) (h : Hub) → h.closing ≡ true → IsShut (drop_all code text h)
unfolding drop_all
drop_all-IsShut code text h closing = record {
  closing = closing;
  conns = closed-IsDone code text h.conns;
}

add_shut :
    (id : ℕ) (topic : String) (h : Hub)
    → h.closing ≡ true
    → IsDone (add id topic h).0 × ((add id topic h).0.serving ≡ false) × ((add id topic h).1 ≡ h)
unfolding add close_with
add_shut id topic h closing =
    (ground (arith, closing), ground (arith, closing), ground (arith, closing))

handle_event-IsShut : (e : Event) (h : Hub) → IsShut h → IsShut (handle_event e h)
unfolding handle_event add remove deliver shutdown
handle_event-IsShut (adds id topic) h s = subst IsShut (sym (add_shut id topic h s.closing).2) s
handle_event-IsShut (removes id) h s = record {
  closing = s.closing;
  conns = All-delete IsDone (λ c. is_conn id c && not c.serving) h.conns s.conns;
}
handle_event-IsShut (delivers takes_done topic event) h s = record {
  closing = s.closing;
  conns =
      All-update IsDone (on_topic topic) (λ c. send (takes_done c.id) event c) h.conns
        (λ c hit d. send-IsDone (takes_done c.id) event c d) s.conns;
}
handle_event-IsShut resyncs h s = drop_all-IsShut _ _ h s.closing
handle_event-IsShut shuts_down h s = drop_all-IsShut _ _ (record h { closing = true }) refl
handle_event-IsShut (moves id m) h s = record {
  closing = s.closing;
  conns = All-update IsDone (is_conn id) (step m) h.conns (λ c hit d. step-IsDone m c d) s.conns;
}

stay-IsShut : (events : List Event) (h : Hub) → IsShut h → IsShut (handle_events events h)
unfolding handle_events
stay-IsShut [] h s = s
stay-IsShut (e ∷ events) h s = stay-IsShut events (handle_event e h) (handle_event-IsShut e h s)

-- Once a hub has been shut down, then whatever calls and events follow, every socket that it has is told
-- to close, and one that is added is told so too, is not registered, and has no goroutine that serves it
-- and would close its connection.
pub shutdown-IsDone :
    (events : List Event) (h : Hub) (id : ℕ) (topic : String)
    → let after = handle_events events (shutdown h) in
      All IsDone after.conns
      × IsDone (add id topic after).0
      × ((add id topic after).0.serving ≡ false)
      × ((add id topic after).1 ≡ after)
unfolding shutdown
shutdown-IsDone events h id topic =
    let s =
      stay-IsShut events (shutdown h) (drop_all-IsShut _ _ (record h { closing = true }) refl) in
    let (done, unserved, same) = add_shut id topic (handle_events events (shutdown h)) s.closing in
    (s.conns, done, unserved, same)
