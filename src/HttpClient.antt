-- ===== src/HttpClient.antt =====
-- HttpClient/http.c: a blocking client that sends one request and collects the answer in a C string. What
-- the system calls give is an argument.
pub mod Receiving
pub mod Async
pub mod Tests
use cpp_project.Base.{
  ℕ, zero, suc, ◌+◌, ◌-◌, ◌^◌, Bool, true, false, ◌||◌, Option, none, some, List, [], ◌∷◌, ◌++◌,
  ltb, ◌==◌, if◌then◌else◌, length, Run, ok, fault, timeout, ◌>>=◌, or_fault,
}
use cpp_project.Text.{Bytes, codes}

-- `sprintf` of the request, before its end.
abbrev pub request : (resource hostname : Bytes) → Bytes
request resource hostname =
    codes "GET "
    ++ resource
    ++ codes " HTTP/1.1\r\nHost:"
    ++ hostname
    ++ codes " \r\nConnection: close \r\n\r\n\r\n"

-- `buffer`
abbrev pub buffer_size : ℕ
buffer_size = 1024

abbrev pub zeros : ℕ → Bytes
zeros zero = []
zeros (suc n) = 0 ∷ zeros n

-- A text is written to an array of zeros, with the zero at its end.
unfoldable pub print_to : (size : ℕ) → Bytes → Run Bytes
print_to size text =
    if ltb (length text) size then ok (text ++ zeros (size - length text)) else fault

abbrev pub drop : {A : Type 0} → ℕ → List A → List A
drop zero xs = xs
drop (suc n) [] = []
drop (suc n) (x ∷ xs) = drop n xs

-- A block of memory with a text and, if there is room, the zero at its end.
pub record Block : Type 0 where
  pub size : ℕ
  pub text : Bytes

-- The bytes that `strncat` reads of an array: up to `n`, or to a zero.
unfoldable pub read_upto : Bytes → ℕ → Run Bytes
read_upto [] n = if n == 0 then ok [] else fault
read_upto (c ∷ bs) n =
    let rest = read_upto bs (n - 1) in
    if (n == 0) || (c == 0) then ok [] else rest >>= λ cs. ok (c ∷ cs)

-- `strncat`: undefined for NULL, for a text without end and where the block is too small.
unfoldable pub strncat : Option Block → Bytes → ℕ → Run Block
unfolding read_upto
strncat none src n = fault
strncat (some b) src n = do
  added ← (if ltb (length b.text) b.size then read_upto src n else fault)
  let text = b.text ++ added
  if ltb (length text) b.size then ok (record b { text = text }) else fault

-- What a round of the loop gets: `select` ends without the descriptor, `recv` gives bytes, none of them if
-- the connection has ended, or `recv` gives -1.
pub data Arrival : Type 0 where
  timed_out : Arrival
  received : Bytes → Arrival
  failed : Arrival

-- `can_alloc n`: an allocation of `n` bytes does not fail.
module _ (can_alloc : ℕ → Bool) where
  abbrev pub realloc : Block → ℕ → Option Block
  realloc b n = if can_alloc n then some (record b { size = n }) else none

  -- The loop of `send_request`. With -1 for the length, the sum is the length of the text, and `strncat` is
  -- called with 2^64 - 1.
  unfoldable pub receive : List Arrival → (buffer : Bytes) → Block → Run Block
  unfolding strncat
  receive [] buffer b = timeout
  receive (timed_out ∷ as') buffer b = ok b
  receive (received bs ∷ as') buffer b =
      let n = length bs in
      let buffer' = bs ++ drop n buffer in
      let appended = strncat (realloc b (length b.text + n + 1)) buffer' n in
      if n == 0 then ok b else appended >>= λ b'. receive as' buffer' b'
  receive (failed ∷ as') buffer b =
      strncat (realloc b (length b.text)) buffer (2 ^ 64 - 1) >>= λ b'. receive as' buffer b'

  -- `FD_SET` is undefined for -1 and from 1024 on.
  unfoldable pub fd_set : Option ℕ → Run ℕ
  fd_set none = fault
  fd_set (some f) = if ltb f 1024 then ok f else fault

  -- `send_request`: the text that is sent, and the result.
  unfoldable pub send_request :
      Option ℕ → (hostname resource : Bytes) → List Arrival → Run (Bytes × Block)
  unfolding print_to fd_set receive
  send_request fd hostname resource arrivals = do
    buffer ← print_to buffer_size (request resource hostname)
    f ← fd_set fd
    b ← (if can_alloc 4 then ok (record { size = 4; text = [] }) else fault)
    result ← receive arrivals buffer b
    ok (request resource hostname, result)

  -- `create_socket`: the descriptor, and the descriptors that are open. `connect` fails for -1.
  abbrev pub create_socket : (socket : Option ℕ) → (connected : Bool) → Option ℕ × Option ℕ
  create_socket none connected = (none, none)
  create_socket (some f) connected = (if connected then some f else none, some f)

  -- `client_commit`: what it returns and prints, and the descriptor that is left open.
  unfoldable pub client_commit :
      (ip : Option Bytes)
      → (socket : Option ℕ) → (connected : Bool) → (hostname resource : Bytes) → List Arrival
      → Run (Bool × Bytes × Option ℕ)
  unfolding send_request
  client_commit none socket connected hostname resource arrivals = ok (false, [], none)
  client_commit (some ip) socket connected hostname resource arrivals = do
    let (fd, opened) = create_socket socket connected
    (_, content) ← send_request fd hostname resource arrivals
    ok (true, content.text, elim fd [ none ↦ opened | some f ↦ none ])
