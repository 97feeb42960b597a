-- ===== src/HttpClient/Async/System.antt =====
-- Requests and answers in any order. What `async_http_client_request` shares with the thread is the epoll, to
-- which it adds last.
use cpp_project.Base.{ℕ, ◌≡◌, Bool, Option, none, some, List, [], ◌∷◌, ◌++◌, if◌then◌else◌, Out, ok}
use cpp_project.Text.{Bytes}
use cpp_project.HttpClient.Async.{
  Ptr, Context, new_context, Answers, async_http_client_request, serve,
}

-- A new socket is not one that is open, and new memory is not in use.
abbrev pub IsUnused : (ℕ → Type 0) → Option ℕ → Type 0
IsUnused P none = Unit
IsUnused P (some p) = P p

-- The callbacks of the requests that returned 0 are kept.
pub data Step : Context → List ℕ → Context → List ℕ → Type 0 where
  requested :
      (s t : Context) (accepted : List ℕ) (hostname source : Bytes) (cb : ℕ) (a : Answers)
      (ret : Bool)
      → IsUnused (λ f. Out f s.open_fds) a.socket
      → IsUnused (λ p. s.args p ≡ none) a.memory
      → async_http_client_request s hostname source cb a ≡ ok (ret, t)
      → Step s accepted t (if ret then cb ∷ accepted else accepted)
  served :
      (s t : Context) (accepted : List ℕ) (xs ys : List (ℕ × Ptr)) (fd p : ℕ) (r : Option Bytes)
      → s.epoll ≡ xs ++ (fd, p) ∷ ys
      → serve s p r ≡ ok t
      → Step s accepted t accepted

pub data Reach : Context → List ℕ → Type 0 where
  start : Reach new_context []
  later :
      (s t : Context) (accepted accepted' : List ℕ)
      → Reach s accepted
      → Step s accepted t accepted'
      → Reach t accepted'
