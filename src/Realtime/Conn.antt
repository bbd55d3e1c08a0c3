-- ===== src/Realtime/Conn.antt =====
-- internal/realtime/conn.go: one socket. What its goroutines do is a sequence of steps; which of the ready
-- cases a `select` takes is an argument. The network is a log of the messages that were written.
use sendly.Common.{
  ℕ, String, Bool, true, false, not, ◌&&◌, ◌==◌, nat_eq, ltb, Option, none, some, List, [], ◌∷◌,
  ◌++◌, if◌then◌else◌, length,
}
use sendly.Models.{Bytes}

abbrev pub send_buffer : ℕ
send_buffer = 32

abbrev pub close_policy_violation : ℕ
close_policy_violation = 1008

abbrev pub close_service_restart : ℕ
close_service_restart = 1012

pub record Conn : Type 0 where
  pub id : ℕ
  pub topic : String
  -- the channel `out`, and whether `done` is closed
  pub out : List Bytes
  pub done : Bool
  pub close_code : ℕ
  pub close_text : String
  -- `serve` is still running
  pub serving : Bool
  -- what went over the wire, and the code of the close frame
  pub written : List Bytes
  pub close_frame : Option ℕ

abbrev pub new_conn : ℕ → String → Conn
new_conn id topic = record {
  id = id;
  topic = topic;
  out = [];
  done = false;
  close_code = 0;
  close_text = "";
  serving = true;
  written = [];
  close_frame = none;
}

unfoldable pub close_with : ℕ → String → Conn → Conn
close_with code text c =
    if c.close_code == 0
    then record c { close_code = code; close_text = text; done = true }
    else record c { done = true }

-- The `select`: where `out` has room and `done` is closed, either case may be taken.
unfoldable pub send : Bool → Bytes → Conn → Conn
unfolding close_with
send takes_done event c =
    if ltb (length c.out) send_buffer
    then if c.done && takes_done then c else record c { out = c.out ++ (event ∷ []) }
    else if c.done
    then c
    else close_with close_policy_violation "too slow" c

-- `serve` takes a queued message; `fails` is an error of the write.
unfoldable pub write_next : Bool → Conn → Conn
unfolding close_with
write_next fails c = elim c.out [
  | [] ↦ c
  | event ∷ rest ↦
      if not c.serving
      then c
      else if fails
      then record (close_with 0 "" c) { out = rest; serving = false }
      else record c { out = rest; written = c.written ++ (event ∷ []) }
]

-- `serve` sends a ping; only an error changes anything.
unfoldable pub ping : Bool → Conn → Conn
unfolding close_with
ping fails c = if c.serving && fails then record (close_with 0 "" c) { serving = false } else c

-- The reader sees the client hang up.
unfoldable pub hang_up : Conn → Conn
unfolding close_with
hang_up c = close_with 0 "" c

-- `serve` sees that `done` is closed.
unfoldable pub finish : Conn → Conn
finish c = if not (c.serving && c.done) then c else record c {
  serving = false;
  close_frame = if c.close_code == 0 then none else some c.close_code;
}

-- What happens to a socket.
pub data Step : Type 0 where
  sends : Bool → Bytes → Step
  closes : ℕ → String → Step
  writes pings : Bool → Step
  hangs_up finishes : Step

unfoldable pub step : Step → Conn → Conn
unfolding send close_with write_next ping hang_up finish
step (sends takes_done event) c = send takes_done event c
step (closes code text) c = close_with code text c
step (writes fails) c = write_next fails c
step (pings fails) c = ping fails c
step hangs_up c = hang_up c
step finishes c = finish c

unfoldable pub run : List Step → Conn → Conn
unfolding step
run [] c = c
run (s ∷ steps) c = run steps (step s c)
