-- ===== src/HttpClient/Async.antt =====
-- HttpClient/async_http.c: requests that are sent by one thread and answered by callbacks of another, which
-- waits with epoll. What the system calls give is an argument.
pub mod System
pub mod Entries
pub mod Served
pub mod Requested
pub mod Safety
pub mod Program
use cpp_project.Base.{
  ℕ, zero, suc, Bool, true, false, ◌&&◌, not, Option, none, some, List, [], ◌∷◌, ◌++◌, ◌==◌,
  if◌then◌else◌, length, update, Run, ok, fault, timeout, ◌>>=◌, or_fault,
}
use cpp_project.Text.{Bytes}
use cpp_project.HttpClient.{request, zeros, print_to, drop}

abbrev pub Ptr : Type 0
Ptr = ℕ

-- `BUFFER_SIZE`
abbrev pub async_buffer_size : ℕ
async_buffer_size = 4096

-- `ep_arg`: the name of the host is an array that nothing was written to, here none. Callbacks are numbers.
pub record EpArg : Type 0 where
  pub sockfd : ℕ
  pub hostname : Option Bytes
  pub cb : ℕ

-- A call of a callback. The result is none if it has no zero at its end.
pub record Call : Type 0 where
  pub cb : ℕ
  pub hostname : Option Bytes
  pub resource : Option Bytes

-- The context's epoll with its descriptors and their data, the arguments in memory, and the open sockets.
pub record Context : Type 0 where
  pub epoll : List (ℕ × Ptr)
  pub args : Ptr → Option EpArg
  pub open_fds : List ℕ
  pub calls : List Call

abbrev pub new_context : Context
new_context = record { epoll = []; args = λ _. none; open_fds = []; calls = [] }

-- What the system calls of a request give. `connect` fails for the descriptor -1.
pub record Answers : Type 0 where
  pub resolved : Bool
  pub socket : Option ℕ
  pub connected : Bool
  pub memory : Option Ptr
  pub added : Bool

-- The end of `async_http_client_request`, for a connected socket. -1 is false.
unfoldable pub watch :
    Context → (fd cb : ℕ) → (memory : Option Ptr) → (added : Bool) → Bool × Context
watch s fd cb none added = (false, s)
watch s fd cb (some p) added =
    let s' = record s {
      args = update s.args p (some (record { sockfd = fd; hostname = none; cb = cb }));
    } in
    (added, if added then record s' { epoll = (fd, p) ∷ s.epoll } else s')

-- `async_http_client_request`
unfoldable pub async_http_client_request :
    Context → (hostname source : Bytes) → (cb : ℕ) → Answers → Run (Bool × Context)
unfolding watch print_to
async_http_client_request s hostname source cb a =
    let s' : ℕ → Context = λ fd. record s { open_fds = fd ∷ s.open_fds } in
    let go : ℕ → Run (Bool × Context) = λ fd. do
      buffer ← print_to async_buffer_size (request source hostname)
      ok (watch (s' fd) fd cb a.memory a.added)
    in if not a.resolved then ok (false, s) else elim a.socket [
      | none ↦ ok (false, s)
      | some fd ↦ if a.connected then go fd else ok (false, s' fd)
    ]

-- The text in a buffer, if a zero ends it.
unfoldable pub text_in : Bytes → Option Bytes
text_in [] = none
text_in (c ∷ bs) =
    let rest = text_in bs in
    if c == 0 then some [] else elim rest [ none ↦ none | some cs ↦ some (c ∷ cs) ]

-- `recv` into a buffer of zeros: -1, here none, leaves it.
unfoldable pub recv_buffer : Option Bytes → Bytes
recv_buffer none = zeros async_buffer_size
recv_buffer (some bs) = bs ++ drop (length bs) (zeros async_buffer_size)

-- `EPOLL_CTL_DEL`
unfoldable pub unwatch : ℕ → List (ℕ × Ptr) → List (ℕ × Ptr)
unwatch fd [] = []
unwatch fd ((f, p) ∷ rest) =
    let others = unwatch fd rest in if f == fd then others else (f, p) ∷ others

-- `close`
unfoldable pub close : ℕ → List ℕ → List ℕ
close fd [] = []
close fd (f ∷ fs) = let others = close fd fs in if f == fd then others else f ∷ others

-- The body of the loop of `thread_client_callback`, for an event with this data and what `recv` gives.
unfoldable pub serve : Context → Ptr → Option Bytes → Run Context
unfolding text_in recv_buffer unwatch close
serve s p r = do
  data' ← or_fault (s.args p)
  let answer : Call = record {
    cb = data'.cb;
    hostname = data'.hostname;
    resource = text_in (recv_buffer r);
  }
  ok record {
    calls = s.calls ++ answer ∷ [];
    epoll = unwatch data'.sockfd s.epoll;
    open_fds = close data'.sockfd s.open_fds;
    args = update s.args p none;
  }

-- The loop over the events of one wait.
unfoldable pub serve_all : Context → List (Ptr × Option Bytes) → Run Context
unfolding serve
serve_all s [] = ok s
serve_all s ((p, r) ∷ events) = serve s p r >>= λ s'. serve_all s' events

-- What `epoll_wait` gives: -1 with an error that is tried again or not, or events.
pub data Wait : Type 0 where
  interrupted : Wait
  broken : Wait
  ready : List (Ptr × Option Bytes) → Wait

-- `thread_client_callback`: it ends when `epoll_wait` fails.
unfoldable pub thread_client_callback : Context → List Wait → Run Context
unfolding serve_all
thread_client_callback s [] = timeout
thread_client_callback s (interrupted ∷ waits) = thread_client_callback s waits
thread_client_callback s (broken ∷ waits) = ok s
thread_client_callback s (ready events ∷ waits) =
    serve_all s events >>= λ s'. thread_client_callback s' waits
