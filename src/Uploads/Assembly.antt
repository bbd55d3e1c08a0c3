-- ===== src/Uploads/Assembly.antt =====
-- internal/storage/filesystem.go: what AssembleChunks reads and leaves.
use sendly.Common.{
  ℕ, zero, suc, String, Bool, not, ◌≡◌, refl, sym, ◌∙◌, ap, nat_eq, string_eq, Option, none, some,
  [], ◌++◌, find, Result, ok, err, arith, pure, or_raise, raise_if, query,
}
use mathlib.Core.List.{append-nil, append_assoc}
use mathlib.Core.Option
use sendly.Common.Inversion.{bind_ok, bind_state, statement_ok, query_ok, or_raise_ok, raise_if_ok}
use sendly.Common.Keeps.{
  Keeps, OnTables, Keeps-statement, Keeps-bind, Keeps-query, Keeps-or_raise, Keeps-raise_if,
  Keeps-pure, FailsClean-bind, FailsClean-statement,
}
use sendly.Models.{Bytes, Error, message, context_canceled}
use sendly.Uploads.Disk.{
  Volume, Disk, StoredChunk, is_stored, put_blob, call, copy_chunks, listing, assemble_chunks,
}

-- A chunk before the chunks behind it; nothing where one is missing.
abbrev pub prepend : Option StoredChunk → Option Bytes → Option Bytes
prepend none rest = none
prepend (some c) rest = Option.map (λ bytes. c.content ++ bytes) rest

-- The contents of `rounds` chunks from index `i` on, one after another.
abbrev pub contents : String → ℕ → ℕ → Volume → Option Bytes
contents session_id i zero v = some []
contents session_id i (suc rounds) v =
    prepend (find (is_stored session_id i) v.chunks) (contents session_id (suc i) rounds v)

-- Reading chunks changes nothing.
copy_chunks-same :
    (cancelled : ℕ → Bool) (session_id : String) (i rounds : ℕ) (out : Bytes) (v : Volume)
    → Keeps (OnTables (λ t. t ≡ v)) (copy_chunks cancelled session_id i rounds out)
unfolding copy_chunks
copy_chunks-same cancelled session_id i zero out v = Keeps-pure out
copy_chunks-same cancelled session_id i (suc rounds) out v =
    Keeps-bind _ _ (Keeps-raise_if _ _) (λ u. Keeps-bind _ _ (Keeps-query _ _) (λ opened.
      Keeps-bind _ _ (Keeps-or_raise _ _) (λ chunk.
        Keeps-bind _ _ (Keeps-statement _ _ (λ t e. e))
          (λ w. copy_chunks-same cancelled session_id (suc i) rounds (out ++ chunk.content) v))))

extend :
    (out : Bytes) (c : StoredChunk) (o : Option Bytes) (bytes : Bytes)
    → Option.map (λ (rest : Bytes). (out ++ c.content) ++ rest) o ≡ some bytes
    → Option.map (λ rest. out ++ rest) (Option.map (λ rest. c.content ++ rest) o) ≡ some bytes
extend out c none bytes h = cc
extend out c (some rest) bytes h = rw (← append_assoc out c.content rest) h

-- One round: the chunk is there, and the rest is read from where nothing has changed.
module _ (cancelled : ℕ → Bool) (session_id : String) (i rounds : ℕ) (out bytes : Bytes)
    (d : Disk) where
  copied_round :
      (copy_chunks cancelled session_id i (suc rounds) out d).0 ≡ ok bytes
      → (c : StoredChunk) × (d' : Disk) × (find (is_stored session_id i) d.tables.chunks ≡ some c)
        × (d'.tables ≡ d.tables)
        × ((copy_chunks cancelled session_id (suc i) rounds (out ++ c.content) d').0 ≡ ok bytes)
  unfolding copy_chunks
  copied_round h =
      let (u, e0, h1) = bind_ok (raise_if (cancelled i) context_canceled) _ d h in
      let (opened, e1, h2) =
        bind_ok
          (query (message "failed to open chunk")
            (λ (v : Volume). find (is_stored session_id i) v.chunks))
          _ _ h1 in
      let (c, e2, h3) = bind_ok (or_raise opened (message "failed to open chunk")) _ _ h2 in
      let (w, e3, h4) = bind_ok (call (message "failed to copy chunk")) _ _ h3 in
      let same0 = raise_if_ok (cancelled i) context_canceled d u e0 in
      let same1 =
        query_ok (message "failed to open chunk")
          (λ (v : Volume). find (is_stored session_id i) v.chunks) _ opened e1 in
      let same2 = or_raise_ok opened (message "failed to open chunk") _ c e2 in
      let same3 = statement_ok (message "failed to copy chunk") _ _ w e3 in
      (
        c,
        _,
        ap (λ (x : Disk). find (is_stored session_id i) x.tables.chunks) (sym same0.1)
            ∙ same1.0
            ∙ same2.0,
        same3.1
            ∙ ap (λ (x : Disk). x.tables) same2.1
            ∙ same1.1
            ∙ ap (λ (x : Disk). x.tables) same0.1,
        h4,
      )

-- What was read, behind what was there before.
copy_chunks-contents :
    (cancelled : ℕ → Bool) (session_id : String) (i rounds : ℕ) (out bytes : Bytes) (d : Disk)
    → (copy_chunks cancelled session_id i rounds out d).0 ≡ ok bytes
    → Option.map (λ rest. out ++ rest) (contents session_id i rounds d.tables) ≡ some bytes
copy_chunks-contents cancelled session_id i zero out bytes d h =
    unfold copy_chunks pure in rw append-nil (ground arith)
copy_chunks-contents cancelled session_id i (suc rounds) out bytes d h =
    let (c, d', found, same, rest) = copied_round cancelled session_id i rounds out bytes d h in
    rw (found, prepend)
      (extend out c (contents session_id (suc i) rounds d.tables) bytes (
        rw same at (
          copy_chunks-contents cancelled session_id (suc i) rounds (out ++ c.content) bytes d'
            rest)))

-- What `AssembleChunks` leaves: an error leaves the volume as it was, and success means that every
-- chunk was there, and puts their contents in order into the file's blob and changes nothing else.
abbrev pub Assembled : String → String → ℕ → Volume → Result Error (Unit {0}) × Disk → Type 0
Assembled session_id file_id total v (ok u, d) =
    (content : Bytes) × (contents session_id 0 total v ≡ some content)
    × (d.tables ≡ put_blob file_id content v)
Assembled session_id file_id total v (err e, d) = d.tables ≡ v

Assembled-by :
    (session_id file_id : String) (total : ℕ) (v : Volume) (r : Result Error (Unit {0})) (d : Disk)
    → ((u : Unit {0}) → r ≡ ok u → Assembled session_id file_id total v (ok u, d))
    → ((e : Error) → r ≡ err e → d.tables ≡ v)
    → Assembled session_id file_id total v (r, d)
Assembled-by session_id file_id total v (ok u) d good bad = good u refl
Assembled-by session_id file_id total v (err e) d good bad = bad e refl

unmapped :
    (o o' : Option Bytes) (bytes : Bytes)
    → o ≡ o'
    → Option.map (λ (rest : Bytes). [] ++ rest) o ≡ some bytes
    → o' ≡ some bytes
unmapped none o' bytes same h = cc
unmapped (some x) o' bytes same h = sym same ∙ h

module _ (cancelled : ℕ → Bool) (session_id file_id : String) (total : ℕ) (d : Disk) where
  assemble_fails :
      (e : Error)
      → (assemble_chunks cancelled session_id file_id total d).0 ≡ err e
      → (assemble_chunks cancelled session_id file_id total d).1.tables ≡ d.tables
  unfolding assemble_chunks
  assemble_fails e failed =
      ((FailsClean-bind _ _ (Keeps-query _ _) (λ entries.
          FailsClean-bind _ _ (Keeps-or_raise _ _) (λ complete.
            FailsClean-bind _ _ (Keeps-raise_if _ _) (λ u.
              FailsClean-bind _ _ (idle (message "failed to create final file")) (λ w.
                FailsClean-bind _ _ (copy_chunks-same cancelled session_id 0 total [] d.tables)
                  (λ content. FailsClean-bind _ _ (idle (message "failed to sync final file")) (λ x.
                    FailsClean-bind _ _ (idle (message "failed to close final file"))
                      (λ y. FailsClean-statement _ _)))))))).at
        d e (record { on = refl }) failed).on
    where
      idle : (x : Error) → Keeps (OnTables (λ t. t ≡ d.tables)) (call x)
      idle x = Keeps-statement _ _ (λ t same. same)

  assemble_succeeds :
      (u : Unit {0})
      → (assemble_chunks cancelled session_id file_id total d).0 ≡ ok u
      → Assembled session_id file_id total d.tables
          (ok u, (assemble_chunks cancelled session_id file_id total d).1)
  unfolding assemble_chunks
  assemble_succeeds u done =
      let (entries, e0, h1) =
        bind_ok (query (message "failed to read chunk directory") (listing session_id total)) _ d
          done in
      let (complete, e1, h2) =
        bind_ok (or_raise entries (message "failed to read chunk directory")) _ _ h1 in
      let (w, e2, h3) = bind_ok (raise_if (not complete) (message "chunk is missing")) _ _ h2 in
      let (x, e3, h4) = bind_ok (call (message "failed to create final file")) _ _ h3 in
      let (content, e4, h5) = bind_ok (copy_chunks cancelled session_id 0 total []) _ _ h4 in
      let (y, e5, h6) = bind_ok (call (message "failed to sync final file")) _ _ h5 in
      let (z, e6, h7) = bind_ok (call (message "failed to close final file")) _ _ h6 in
      let start =
        (statement_ok (message "failed to create final file") _ _ x e3).1
        ∙ ap (λ (d' : Disk). d'.tables)
            (raise_if_ok (not complete) (message "chunk is missing") _ w e2).1
        ∙ ap (λ (d' : Disk). d'.tables)
            (or_raise_ok entries (message "failed to read chunk directory") _ complete e1).1
        ∙ (query_ok (message "failed to read chunk directory") (listing session_id total) d entries
            e0).1 in
      let copied =
        ((copy_chunks-same cancelled session_id 0 total [] d.tables).at _
          (record { on = start })).on in
      let read = copy_chunks-contents cancelled session_id 0 total [] content _ e4 in
      let end =
        (statement_ok (message "failed to move final file into place")
          (λ v. (tt, put_blob file_id content v)) _ u h7).1 in
      let run =
        bind_state (query (message "failed to read chunk directory") (listing session_id total)) _ d
          entries e0
        ∙ bind_state (or_raise entries (message "failed to read chunk directory")) _ _ complete e1
        ∙ bind_state (raise_if (not complete) (message "chunk is missing")) _ _ w e2
        ∙ bind_state (call (message "failed to create final file")) _ _ x e3
        ∙ bind_state (copy_chunks cancelled session_id 0 total []) _ _ content e4
        ∙ bind_state (call (message "failed to sync final file")) _ _ y e5
        ∙ bind_state (call (message "failed to close final file")) _ _ z e6 in
      (
        content,
        unmapped (contents session_id 0 total _) (contents session_id 0 total d.tables) content
            (ap (contents session_id 0 total) start) read,
        ap (λ (p : Result Error (Unit {0}) × Disk). p.1.tables) run
            ∙ end
            ∙ ap (put_blob file_id content) (
                (statement_ok (message "failed to close final file") _ _ z e6).1
                ∙ (statement_ok (message "failed to sync final file") _ _ y e5).1
                ∙ copied),
      )

-- The outcome of `AssembleChunks` is one of the two, whatever fails and whenever it is cancelled.
pub assemble_chunks-atomic :
    (cancelled : ℕ → Bool) (session_id file_id : String) (total : ℕ) (d : Disk)
    → Assembled session_id file_id total d.tables
        (assemble_chunks cancelled session_id file_id total d)
assemble_chunks-atomic cancelled session_id file_id total d =
    Assembled-by session_id file_id total d.tables
      (assemble_chunks cancelled session_id file_id total d).0
      (assemble_chunks cancelled session_id file_id total d).1
      (assemble_succeeds cancelled session_id file_id total d)
      (assemble_fails cancelled session_id file_id total d)
