-- ===== src/Stream/TypedStream.antt =====
-- src/teaql/runtime/query_stream.py: `TypedStream`, from one await to the next. The rows come from a cursor of
-- the data service; `hydrate` is a parameter, `none` where it raises. An end is what the stream's operation
-- records in the telemetry.
use teaql_python.Base.{
  ℕ, suc, Bool, true, false, Option, none, some, List, [], ◌∷◌, ◌++◌, if◌then◌else◌, not, ◌&&◌,
}

pub data End : Type 0 where
  success cancelled : ℕ → End
  failure : End

-- What a call waits for
pub data Waiting : Type 0 where
  idle fetching : Waiting
  -- the cursor's close, and what is recorded and raised after it
  exhausting leaving : Waiting
  erring : End → Waiting

pub record Stream (R : Type 0) : Type 0 where
  pub rows : List R
  pub delivered : ℕ
  -- the scope is there, and the service was asked for a cursor
  pub polled : Bool
  pub closed : Bool
  pub phase : Waiting
  pub ends : List End

pub data Input (R : Type 0) : Type 0 where
  -- `__anext__` is called, where the service gives a cursor if it is asked for one, or raises
  poll failing_poll : Input R
  -- `aclose` is called
  close : Input R
  -- the cursor answers: a chunk, its end, an error, or the task is cancelled
  chunk : List R → Input R
  exhausted broken interrupted : Input R
  -- the cursor's `aclose` returns or raises
  cursor_closed cursor_failed : Input R

pub data Answer (V : Type 0) : Type 0 where
  row : V → Answer V
  stop refused raised closed_now waiting : Answer V

unfoldable pub new_stream : {R : Type 0} → Stream R
new_stream = record {
  rows = [];
  delivered = 0;
  polled = false;
  closed = false;
  phase = idle;
  ends = [];
}

module _ {R V : Type 0} (hydrate : R → Option V) where
  -- an error closes the cursor first
  abbrev pub fail : End → Stream R → Stream R × Answer V
  fail e s = (record s { closed = true; phase = erring e }, waiting)

  -- the loop of `__anext__`, up to its next await
  abbrev pub hydrated : Option V → Stream R → Stream R × Answer V
  hydrated none s = fail failure s
  hydrated (some v) s = (record s { delivered = suc s.delivered; phase = idle }, row v)

  abbrev pub deliver : List R → Stream R → Stream R × Answer V
  deliver [] s = (record s { rows = []; phase = fetching }, waiting)
  deliver (r ∷ rs) s = hydrated (hydrate r) (record s { rows = rs })

  abbrev pub record_end : End → Answer V → Stream R → Stream R × Answer V
  record_end e answer s = (record s { phase = idle; ends = s.ends ++ (e ∷ []) }, answer)

  abbrev pub is_idle : Waiting → Bool
  is_idle idle = true
  is_idle _ = false

  -- `__anext__`; `raises` tells whether the service raises when it is asked for a cursor, which leaves none to
  -- close
  abbrev pub on_poll : Bool → Stream R → Stream R × Answer V
  on_poll raises s =
      if s.closed
      then (s, stop)
      else if is_idle s.phase
      then if raises && not s.polled
        then record_end failure raised (record s { polled = true; closed = true })
        else deliver s.rows (record s { polled = true })
      else (s, refused)

  abbrev pub on_close : Stream R → Stream R × Answer V
  on_close s =
      if s.closed
      then (s, closed_now)
      else if is_idle s.phase
      then if s.polled
        then (record s { closed = true; phase = leaving }, waiting)
        else (record s { closed = true }, closed_now)
      else (s, refused)

  -- what the awaited cursor does, by what the call waits for; another answer does not come
  unfoldable pub handle : Input R → Stream R → Waiting → Stream R × Answer V
  handle poll s phase = on_poll false s
  handle failing_poll s phase = on_poll true s
  handle close s phase = on_close s
  handle (chunk rs) s fetching = deliver rs s
  handle exhausted s fetching = (record s { closed = true; phase = exhausting }, waiting)
  handle broken s fetching = fail failure s
  handle interrupted s fetching = fail (cancelled s.delivered) s
  handle cursor_closed s exhausting = record_end (success s.delivered) stop s
  handle cursor_failed s exhausting = record_end failure raised s
  handle cursor_closed s leaving = record_end (cancelled s.delivered) closed_now s
  handle cursor_failed s leaving = record_end failure raised s
  handle cursor_closed s (erring e) = record_end e raised s
  handle cursor_failed s (erring e) = record_end e raised s
  handle _ s _ = (s, waiting)

  unfoldable pub run : List (Input R) → Stream R → Stream R
  run [] s = s
  run (i ∷ is) s = run is (handle i s s.phase).0
