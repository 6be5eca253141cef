-- ===== src/Stream/Samples.antt =====
-- src/teaql/runtime/query_stream.py: a stream of numbers.
use teaql_python.Base.{ℕ, zero, suc, ◌≡◌, refl, Option, none, some, List, [], ◌∷◌}
use teaql_python.Stream.TypedStream.{
  success, cancelled, failure, Input, poll, failing_poll, close, chunk, exhausted, broken,
  cursor_closed, Stream, new_stream, handle, run,
}
use teaql_python.Stream.Ends.{EndsOnce, run-EndsOnce}

-- zero cannot be hydrated
abbrev before : ℕ → Option ℕ
before zero = none
before (suc n) = some n

abbrev ends_of : Stream ℕ → ℕ × List (teaql_python.Stream.TypedStream.End)
ends_of s = (s.delivered, s.ends)

-- two rows in a chunk, a poll beside another one, and the end of the cursor
abbrev to_end : List (Input ℕ)
to_end =
    poll ∷ poll ∷ chunk (5 ∷ 6 ∷ []) ∷ poll ∷ poll ∷ exhausted ∷ cursor_closed ∷ poll ∷ close ∷ []

to_end-ends : ends_of (run before to_end new_stream) ≡ (2, success 2 ∷ [])
unfolding run handle new_stream
to_end-ends = refl

-- a row that cannot be hydrated
hydration-ends :
    ends_of (run before (poll ∷ chunk (5 ∷ 0 ∷ []) ∷ poll ∷ cursor_closed ∷ []) new_stream)
    ≡ (1, failure ∷ [])
unfolding run handle new_stream
hydration-ends = refl

-- the service gives no cursor: the end is recorded at once, and the stream stays closed
refusal-ends :
    ends_of (run before (failing_poll ∷ poll ∷ close ∷ []) new_stream) ≡ (0, failure ∷ [])
unfolding run handle new_stream
refusal-ends = refl

run-EndsOnce_example : EndsOnce (run before to_end new_stream)
run-EndsOnce_example = run-EndsOnce before to_end
