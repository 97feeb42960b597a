-- ===== src/HttpClient/Tests.antt =====
-- A request that gets two pieces, and an asynchronous one that is answered.
use cpp_project.Base.{
  ℕ, ◌+◌, ◌≡◌, ◌<◌, refl, inl, inr, Bool, true, some, List, [], ◌∷◌, ◌++◌, map, arith, length, All,
  Has, Distinct, Run, ok, fault,
}
use cpp_project.Text.{Bytes, codes}
use cpp_project.HttpClient.{request, buffer_size, received, failed, send_request}
use cpp_project.HttpClient.Receiving.{collected, send_request_lem, send_request-failed}
use cpp_project.HttpClient.Async.{
  Context, new_context, Answers, interrupted, broken, ready, async_http_client_request,
  thread_client_callback,
}
use cpp_project.HttpClient.Async.System.{Reach, requested, start, later}
use cpp_project.HttpClient.Async.Entries.{fds, ptrs, pending, cbs, count, IsEntry}
use cpp_project.HttpClient.Async.Safety.{Reach-counted, every_request_answered}

abbrev host : Bytes
host = codes "api"

abbrev path : Bytes
path = codes "/now"

abbrev pieces : List Bytes
pieces = (72 ∷ 105 ∷ []) ∷ (33 ∷ 0 ∷ 63 ∷ []) ∷ []

-- What follows a zero within a piece is lost.
zero_ends_piece : collected pieces ≡ codes "Hi!"
zero_ends_piece = refl

abbrev always : ℕ → Bool
always n = true

fits : length (request path host) < buffer_size
fits = omega arith

send_request_lem_example :
    (size : ℕ) × (send_request always (some 3) host path (map received pieces ++ received [] ∷ [])
      ≡ ok (request path host, record { size = size; text = collected pieces }))
    × (length (collected pieces) < size)
send_request_lem_example =
    send_request_lem always (λ n. refl) 3 host path pieces (received []) [] fits (omega arith)
      (omega arith, (omega arith, tt)) (inr refl)

send_request-failed_example :
    send_request always (some 3) host path (map received pieces ++ failed ∷ []) ≡ fault
send_request-failed_example =
    send_request-failed always (λ n. refl) 3 host path pieces [] fits (omega arith)
      (omega arith, (omega arith, tt))

abbrev answers : Answers
answers = record {
  resolved = true;
  socket = some 5;
  connected = true;
  memory = some 64;
  added = true;
}

abbrev context_after : Run (Bool × Context) → Context
context_after (ok x) = x.1
context_after r = new_context

-- The context after a request with the callback 7.
abbrev waiting : Context
waiting = context_after (async_http_client_request new_context host path 7 answers)

waiting_run : async_http_client_request new_context host path 7 answers ≡ ok (true, waiting)
unfolding async_http_client_request
waiting_run = refl

waiting_epoll : waiting.epoll ≡ (5, 64) ∷ []
unfolding async_http_client_request
waiting_epoll = refl

waiting-reached : Reach waiting (7 ∷ [])
waiting-reached =
    later new_context waiting [] (7 ∷ []) start
      (requested new_context waiting [] host path 7 answers true tt refl waiting_run)

Reach-counted_example :
    All (IsEntry waiting.args waiting.open_fds) waiting.epoll
    × Distinct (fds waiting.epoll)
    × Distinct (ptrs waiting.epoll)
    × ((k : ℕ)
        → count k (7 ∷ [])
          ≡ count k (cbs waiting.calls) + count k (pending waiting.args waiting.epoll))
Reach-counted_example = Reach-counted waiting (7 ∷ []) waiting-reached

is_waiting : Has 64 (ptrs waiting.epoll)
unfolding async_http_client_request
is_waiting = inl refl

one_entry : 1 ≡ length waiting.epoll
unfolding async_http_client_request
one_entry = refl

every_request_answered_example :
    (t : Context) × (thread_client_callback waiting
        (interrupted ∷ ready ((64, some (72 ∷ [])) ∷ []) ∷ broken ∷ [])
      ≡ ok t)
    × (t.epoll ≡ [])
    × ((k : ℕ) → count k (cbs t.calls) ≡ count k (7 ∷ []))
every_request_answered_example =
    every_request_answered waiting (7 ∷ []) ((64, some (72 ∷ [])) ∷ []) [] waiting-reached (tt, tt)
      (is_waiting, tt) one_entry
