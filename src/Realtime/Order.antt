-- ===== src/Realtime/Order.antt =====
-- internal/realtime/conn.go: what a client sees of the events for its socket.
use mathlib.Core.List.{append_assoc, append-nil}
use sendly.Common.{
  ◌+◌, ◌≤◌, false, not, ◌&&◌, ◌≡◌, ◌⊎◌, refl, sym, ap, ◌∙◌, inl, inr, nat_eq, ltb, List, [], ◌∷◌,
  ◌++◌, if◌then◌else◌, length, arith, Bool-cases,
}
use sendly.Models.{Bytes}
use sendly.Realtime.Conn.{
  Conn, send_buffer, close_with, send, write_next, ping, hang_up, finish, Step, sends, closes,
  writes, pings, hangs_up, finishes, step, run,
}

-- The event of a step that gets into the queue.
abbrev pub takes_in : Step → Conn → List Bytes
takes_in (sends takes_done event) c =
    if ltb (length c.out) send_buffer && not (c.done && takes_done) then event ∷ [] else []
takes_in s c = []

-- The events that the steps queue, in their order.
abbrev pub queued : List Step → Conn → List Bytes
queued [] c = []
queued (s ∷ steps) c = takes_in s c ++ queued steps (step s c)

length-snoc : (xs : List Bytes) (x : Bytes) → length (xs ++ (x ∷ [])) ≡ length xs + 1
length-snoc [] x = refl
length-snoc (y ∷ ys) x = ground (arith, length-snoc ys x)

-- One step keeps the queue within its bound.
step-bound : (s : Step) (c : Conn) → length c.out ≤ 32 → length (step s c).out ≤ 32
unfolding step send close_with write_next ping hang_up finish
step-bound (sends takes_done event) c h = ground (arith, length-snoc c.out event)
step-bound (closes code text) c h = ground arith
step-bound (writes fails) c h = ground arith
step-bound (pings fails) c h = ground arith
step-bound hangs_up c h = ground arith
step-bound finishes c h = ground arith

stays :
    (s : Step) (c : Conn)
    → c.serving ≡ false
    → ((step s c).serving ≡ false) × ((step s c).written ≡ c.written)
unfolding step send close_with write_next ping hang_up finish
stays (sends takes_done event) c h = ground (arith, h)
stays (closes code text) c h = ground (arith, h)
stays (writes fails) c h = ground (arith, h)
stays (pings fails) c h = ground (arith, h)
stays hangs_up c h = ground (arith, h)
stays finishes c h = ground (arith, h)

-- A socket that is not served any more stays so, and nothing more is written to it.
unserved : (steps : List Step) (c : Conn) → c.serving ≡ false → (run steps c).written ≡ c.written
unfolding run
unserved [] c h = refl
unserved (s ∷ steps) c h = unserved steps (step s c) (stays s c h).0 ∙ (stays s c h).1

-- A step moves events along, or it ends the service of the socket and writes nothing.
Moves : Step → Conn → List Bytes → Type 0
Moves s c later =
    (((step s c).serving ≡ false) × ((step s c).written ≡ c.written))
    ⊎ ((step s c).written ++ ((step s c).out ++ later)
        ≡ c.written ++ (c.out ++ (takes_in s c ++ later)))

step-Moves : (s : Step) (c : Conn) (later : List Bytes) → Moves s c later
unfolding step send close_with write_next ping hang_up finish Moves
step-Moves (sends takes_done event) c later =
    inr (ground (arith, append_assoc c.out (event ∷ []) later))
step-Moves (closes code text) c later = inr (ground arith)
step-Moves (writes fails) c later = written c.out refl
  where
    written : (out : List Bytes) → c.out ≡ out → Moves (writes fails) c later
    written [] e = inr (ground (arith, e))
    written (event ∷ rest) e = elim (Bool-cases c.serving) [
      | inl on ↦ elim (Bool-cases fails) [
        | inl bad ↦ inl (rw (e, on, bad) (ground arith))
        | inr good ↦ inr (rw (e, on, good) (append_assoc c.written (event ∷ []) (rest ++ later)))
      ]
      | inr off ↦ inr (rw (e, off) (ground (arith, e)))
    ]
step-Moves (pings fails) c later = inr (ground arith)
step-Moves hangs_up c later = inr (ground arith)
step-Moves finishes c later = inr (ground arith)

-- However its steps interleave, a client gets the events that were queued for its socket in their order,
-- none twice and none left out up to the last one that it gets, and never more than 32 of them wait.
pub run-ordered :
    (steps : List Step) (c : Conn)
    → length c.out ≤ 32
    → ((rest : List Bytes) × ((run steps c).written ++ rest
          ≡ c.written ++ (c.out ++ queued steps c)))
      × (length (run steps c).out ≤ 32)
unfolding run Moves
run-ordered [] c bound =
    ((c.out, ap (λ (xs : List Bytes). c.written ++ xs) (sym (append-nil c.out))), bound)
run-ordered (s ∷ steps) c bound =
    let ((rest, same), kept) = run-ordered steps (step s c) (step-bound s c bound) in
    (
      elim (step-Moves s c (queued steps (step s c))) [
        | inl (over, still) ↦ (
          c.out ++ queued (s ∷ steps) c,
          ap (λ (xs : List Bytes). xs ++ (c.out ++ queued (s ∷ steps) c))
              (unserved steps (step s c) over ∙ still),
        )
        | inr moved ↦ (rest, same ∙ moved)
      ],
      kept,
    )
