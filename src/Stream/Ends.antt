-- ===== src/Stream/Ends.antt =====
-- src/teaql/runtime/query_stream.py: the operation of a stream ends once.
use teaql_python.Base.{
  ℕ, suc, ◌≡◌, refl, Bool, true, false, Option, none, some, List, [], ◌∷◌, ◌++◌, ap,
}
use teaql_python.Stream.TypedStream.{
  End, success, cancelled, failure, Waiting, idle, fetching, exhausting, leaving, erring, Stream,
  Input, poll, failing_poll, close, chunk, exhausted, broken, interrupted, cursor_closed,
  cursor_failed, new_stream, hydrated, deliver, handle, run,
}

-- an end names the number of delivered rows, or none
abbrev Tells : ℕ → End → Type 0
Tells n (success m) = m ≡ n
Tells n (cancelled m) = m ≡ n
Tells n failure = Unit

-- nothing is recorded yet, of a polled stream that takes no more polls
abbrev Leaves : (closed polled : Bool) → List End → Type 0
Leaves closed polled ends = (closed ≡ true) × (polled ≡ true) × (ends ≡ [])

-- the ends that are recorded, by what a call waits for
abbrev InWaiting : Waiting → (closed polled : Bool) → ℕ → List End → Type 0
InWaiting idle false polled n ends = ends ≡ []
InWaiting idle true false n ends = ends ≡ []
InWaiting idle true true n ends = (e : End) × (ends ≡ e ∷ []) × Tells n e
InWaiting fetching closed polled n ends = (closed ≡ false) × (polled ≡ true) × (ends ≡ [])
InWaiting exhausting closed polled n ends = Leaves closed polled ends
InWaiting leaving closed polled n ends = Leaves closed polled ends
InWaiting (erring e) closed polled n ends = Leaves closed polled ends × Tells n e

-- A stream that is closed and waits for nothing has recorded one end if it was ever polled, with the number of
-- rows that it delivered or as a failure; any other stream has recorded none.
abbrev pub EndsOnce : {R : Type 0} → Stream R → Type 0
EndsOnce s = InWaiting s.phase s.closed s.polled s.delivered s.ends

idle-InWaiting :
    (c p : Bool) (n : ℕ) (ends : List End) → c ≡ false → ends ≡ [] → InWaiting idle c p n ends
idle-InWaiting false p n ends h e = e
idle-InWaiting true p n ends h e = cc

ended-InWaiting :
    (c p : Bool) (n : ℕ) (ends : List End) (e : End)
    → Leaves c p ends
    → Tells n e
    → InWaiting idle c p n (ends ++ (e ∷ []))
ended-InWaiting true true n ends e (_, _, h) t = (e, ap (λ l. l ++ (e ∷ [])) h, t)
ended-InWaiting false p n ends e (h, _, _) t = cc
ended-InWaiting true false n ends e (_, h, _) t = cc

module _ {R V : Type 0} (hydrate : R → Option V) where
  hydrated-EndsOnce :
      (o : Option V) (s : Stream R)
      → s.closed ≡ false
      → s.polled ≡ true
      → s.ends ≡ []
      → EndsOnce (hydrated hydrate o s).0
  hydrated-EndsOnce none s h p e = ((refl, p, e), tt)
  hydrated-EndsOnce (some v) s h p e = idle-InWaiting s.closed s.polled (suc s.delivered) s.ends h e

  deliver-EndsOnce :
      (rs : List R) (s : Stream R)
      → s.closed ≡ false
      → s.polled ≡ true
      → s.ends ≡ []
      → EndsOnce (deliver hydrate rs s).0
  deliver-EndsOnce [] s h p e = (h, p, e)
  deliver-EndsOnce (r ∷ rs) s h p e = hydrated-EndsOnce (hydrate r) (record s { rows = rs }) h p e

  handle-EndsOnce :
      (i : Input R) (rows : List R) (n : ℕ) (p c : Bool) (phase : Waiting) (ends : List End)
      → InWaiting phase c p n ends
      → EndsOnce
          (handle hydrate i
            (record {
              rows = rows;
              delivered = n;
              polled = p;
              closed = c;
              phase = phase;
              ends = ends;
            })
            phase).0
  unfolding handle
  handle-EndsOnce poll rows n p false idle ends h =
      deliver-EndsOnce rows
        (record {
          rows = rows;
          delivered = n;
          polled = true;
          closed = false;
          phase = idle;
          ends = ends;
        })
        refl refl h
  handle-EndsOnce poll rows n p true idle ends h = h
  handle-EndsOnce failing_poll rows n false false idle ends h =
      (failure, ap (λ l. l ++ (failure ∷ [])) h, tt)
  handle-EndsOnce failing_poll rows n true false idle ends h =
      deliver-EndsOnce rows
        (record {
          rows = rows;
          delivered = n;
          polled = true;
          closed = false;
          phase = idle;
          ends = ends;
        })
        refl refl h
  handle-EndsOnce failing_poll rows n p true idle ends h = h
  handle-EndsOnce failing_poll rows n p false fetching ends h = h
  handle-EndsOnce failing_poll rows n p true fetching ends h = h
  handle-EndsOnce failing_poll rows n p false exhausting ends h = h
  handle-EndsOnce failing_poll rows n p true exhausting ends h = h
  handle-EndsOnce failing_poll rows n p false leaving ends h = h
  handle-EndsOnce failing_poll rows n p true leaving ends h = h
  handle-EndsOnce failing_poll rows n p false (erring e) ends h = h
  handle-EndsOnce failing_poll rows n p true (erring e) ends h = h
  handle-EndsOnce close rows n true false idle ends h = (refl, refl, h)
  handle-EndsOnce close rows n false false idle ends h = h
  handle-EndsOnce close rows n p true idle ends h = h
  handle-EndsOnce poll rows n p false fetching ends h = h
  handle-EndsOnce poll rows n p true fetching ends h = h
  handle-EndsOnce close rows n p false fetching ends h = h
  handle-EndsOnce close rows n p true fetching ends h = h
  handle-EndsOnce poll rows n p false exhausting ends h = h
  handle-EndsOnce poll rows n p true exhausting ends h = h
  handle-EndsOnce close rows n p false exhausting ends h = h
  handle-EndsOnce close rows n p true exhausting ends h = h
  handle-EndsOnce poll rows n p false leaving ends h = h
  handle-EndsOnce poll rows n p true leaving ends h = h
  handle-EndsOnce close rows n p false leaving ends h = h
  handle-EndsOnce close rows n p true leaving ends h = h
  handle-EndsOnce poll rows n p false (erring e) ends h = h
  handle-EndsOnce poll rows n p true (erring e) ends h = h
  handle-EndsOnce close rows n p false (erring e) ends h = h
  handle-EndsOnce close rows n p true (erring e) ends h = h
  handle-EndsOnce (chunk rs) rows n p c fetching ends h =
      deliver-EndsOnce rs
        (record {
          rows = rows;
          delivered = n;
          polled = p;
          closed = c;
          phase = fetching;
          ends = ends;
        })
        h.0 h.1 h.2
  handle-EndsOnce exhausted rows n p c fetching ends h = (refl, h.1, h.2)
  handle-EndsOnce broken rows n p c fetching ends h = ((refl, h.1, h.2), tt)
  handle-EndsOnce interrupted rows n p c fetching ends h = ((refl, h.1, h.2), refl)
  handle-EndsOnce (chunk rs) rows n p c idle ends h = h
  handle-EndsOnce (chunk rs) rows n p c exhausting ends h = h
  handle-EndsOnce (chunk rs) rows n p c leaving ends h = h
  handle-EndsOnce (chunk rs) rows n p c (erring e) ends h = h
  handle-EndsOnce exhausted rows n p c idle ends h = h
  handle-EndsOnce exhausted rows n p c exhausting ends h = h
  handle-EndsOnce exhausted rows n p c leaving ends h = h
  handle-EndsOnce exhausted rows n p c (erring e) ends h = h
  handle-EndsOnce broken rows n p c idle ends h = h
  handle-EndsOnce broken rows n p c exhausting ends h = h
  handle-EndsOnce broken rows n p c leaving ends h = h
  handle-EndsOnce broken rows n p c (erring e) ends h = h
  handle-EndsOnce interrupted rows n p c idle ends h = h
  handle-EndsOnce interrupted rows n p c exhausting ends h = h
  handle-EndsOnce interrupted rows n p c leaving ends h = h
  handle-EndsOnce interrupted rows n p c (erring e) ends h = h
  handle-EndsOnce cursor_closed rows n p c exhausting ends h =
      ended-InWaiting c p n ends (success n) h refl
  handle-EndsOnce cursor_failed rows n p c exhausting ends h =
      ended-InWaiting c p n ends failure h tt
  handle-EndsOnce cursor_closed rows n p c leaving ends h =
      ended-InWaiting c p n ends (cancelled n) h refl
  handle-EndsOnce cursor_failed rows n p c leaving ends h = ended-InWaiting c p n ends failure h tt
  handle-EndsOnce cursor_closed rows n p c (erring e) ends h = ended-InWaiting c p n ends e h.0 h.1
  handle-EndsOnce cursor_failed rows n p c (erring e) ends h = ended-InWaiting c p n ends e h.0 h.1
  handle-EndsOnce cursor_closed rows n p c idle ends h = h
  handle-EndsOnce cursor_closed rows n p c fetching ends h = h
  handle-EndsOnce cursor_failed rows n p c idle ends h = h
  handle-EndsOnce cursor_failed rows n p c fetching ends h = h

  run-kept : (is : List (Input R)) (s : Stream R) → EndsOnce s → EndsOnce (run hydrate is s)
  unfolding run
  run-kept [] s h = h
  run-kept (i ∷ is) s h =
      run-kept is (handle hydrate i s s.phase).0
        (handle-EndsOnce i s.rows s.delivered s.polled s.closed s.phase s.ends h)

  -- Whatever calls come in what order, and whatever the cursor does: a polled stream that is closed, with no call
  -- waiting, has recorded exactly one end, which is a failure or has the number of the rows it delivered; any other
  -- stream has recorded none.
  pub run-EndsOnce : (is : List (Input R)) → EndsOnce (run hydrate is new_stream)
  unfolding new_stream
  run-EndsOnce is = run-kept is new_stream refl
