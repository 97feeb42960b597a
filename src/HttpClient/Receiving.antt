-- ===== src/HttpClient/Receiving.antt =====
-- What the loop of `send_request` collects.
use cpp_project.Base.{
  ℕ, suc, ◌+◌, ◌-◌, ◌≤◌, ◌<◌, ◌≡◌, refl, ap, ◌∙◌, ◌⊎◌, inl, inr, Bool, Bool-cases, true, false,
  none, some, List, [], ◌∷◌, ◌++◌, map, ltb, lt→ltb, ◌==◌, ==_ne, if◌then◌else◌, arith, length,
  length-append, All, ok, fault, ◌>>=◌,
}
use mathlib.Core.List.{append-nil, append_assoc}
use cpp_project.Text.{Bytes}
use cpp_project.HttpClient.{
  request, buffer_size, zeros, print_to, drop, Block, read_upto, strncat, Arrival, timed_out,
  received, failed, receive, fd_set, send_request, client_commit,
}

-- The bytes before the first zero.
abbrev pub c_string : Bytes → Bytes
c_string [] = []
c_string (c ∷ bs) = let rest = c_string bs in if c == 0 then [] else c ∷ rest

-- What was received, without what follows a zero within what one call of `recv` gave.
abbrev pub collected : List Bytes → Bytes
collected [] = []
collected (bs ∷ rest) = c_string bs ++ collected rest

length-c_string : (bs : Bytes) → length (c_string bs) ≤ length bs
length-c_string [] = omega arith
length-c_string (c ∷ bs) = elim (Bool-cases (c == 0)) [
  | inl e ↦ rw e (omega arith)
  | inr e ↦ rw e (omega (arith, length-c_string bs))
]

read_upto_lem : (bs rest : Bytes) → read_upto (bs ++ rest) (length bs) ≡ ok (c_string bs)
unfolding read_upto
read_upto_lem [] [] = refl
read_upto_lem [] (c ∷ rest) = refl
read_upto_lem (c ∷ bs) rest =
    let one_less : suc (length bs) - 1 ≡ length bs = omega arith in
    let some_left : (suc (length bs) == 0) ≡ false =
      ==_ne (suc (length bs)) 0 (λ e. omega (arith, e)) in
    elim (Bool-cases (c == 0)) [
      | inl e ↦ rw (read_upto, e, some_left) refl
      | inr e ↦ rw (read_upto, e, some_left, one_less, read_upto_lem bs rest) refl
    ]

strncat_lem :
    (text bs rest : Bytes)
    → strncat
        (some (record { size = length text + length bs + 1; text = text }))
        (bs ++ rest)
        (length bs)
      ≡ ok (record { size = length text + length bs + 1; text = text ++ c_string bs })
unfolding strncat
strncat_lem text bs rest =
    let ended = lt→ltb (length text) (length text + length bs + 1) (omega arith) in
    let fits =
      lt→ltb (length (text ++ c_string bs)) (length text + length bs + 1)
        (omega (arith, length-append text (c_string bs), length-c_string bs)) in
    rw (strncat, ended, read_upto_lem bs rest, fits) refl

module _ (can_alloc : ℕ → Bool) (memory : (n : ℕ) → can_alloc n ≡ true) where
  -- The loop goes on behind what `recv` gave.
  receive-received :
      (chunks : List Bytes) (as' : List Arrival) (buffer : Bytes) (b : Block)
      → All (λ bs. 0 < length bs) chunks
      → (buffer' : Bytes) × (size : ℕ) × (receive can_alloc (map received chunks ++ as') buffer b
          ≡ receive can_alloc as' buffer'
              (record { size = size; text = b.text ++ collected chunks }))
        × (length b.text < b.size → length (b.text ++ collected chunks) < size)
  unfolding receive
  receive-received [] as' buffer b h =
      (buffer, b.size, rw (append-nil b.text) refl, λ l. rw (append-nil b.text) l)
  receive-received (bs ∷ chunks) as' buffer b (some_bytes, h) =
      let (buffer', size, run, l) =
        receive-received chunks as' (bs ++ drop (length bs) buffer)
          (record { size = length b.text + length bs + 1; text = b.text ++ c_string bs }) h in
      let joined = append_assoc b.text (c_string bs) (collected chunks) in
      (
        buffer',
        size,
        one_round bs some_bytes
            ∙ run
            ∙ ap (λ t. receive can_alloc as' buffer' (record { size = size; text = t })) joined,
        λ _.
            rw (← joined)
              (l (omega (arith, length-append b.text (c_string bs), length-c_string bs))),
      )
    where
      one_round :
          (bs : Bytes)
          → 0 < length bs
          → receive can_alloc (received bs ∷ (map received chunks ++ as')) buffer b
            ≡ receive can_alloc
                (map received chunks ++ as')
                (bs ++ drop (length bs) buffer)
                (record { size = length b.text + length bs + 1; text = b.text ++ c_string bs })
      one_round bs l =
          let more : (length bs == 0) ≡ false = ==_ne (length bs) 0 (λ e. omega (arith, e)) in
          rw
            (
              receive,
              more,
              memory (length b.text + length bs + 1),
              strncat_lem b.text bs (drop (length bs) buffer),
            )
            refl

  ends_quietly :
      (as' : List Arrival) (buffer : Bytes) (b : Block)
      → receive can_alloc (timed_out ∷ as') buffer b ≡ ok b
  unfolding receive
  ends_quietly as' buffer b = refl

  ends_closed :
      (as' : List Arrival) (buffer : Bytes) (b : Block)
      → receive can_alloc (received [] ∷ as') buffer b ≡ ok b
  unfolding receive
  ends_closed as' buffer b = refl

  -- A round with -1 shrinks the block to its text, and `strncat` finds no end.
  receive-failed :
      (as' : List Arrival) (buffer : Bytes) (b : Block)
      → receive can_alloc (failed ∷ as') buffer b ≡ fault
  unfolding receive strncat
  receive-failed as' buffer b =
      let no_end : ltb (length b.text) (length b.text) ≡ false = ground arith in
      rw (receive, memory (length b.text), strncat, no_end) refl

  send_request_run :
      (f : ℕ) (hostname resource : Bytes) (as' : List Arrival)
      → length (request resource hostname) < buffer_size
      → f < 1024
      → send_request can_alloc (some f) hostname resource as' ≡ (
          receive can_alloc as'
            (request resource hostname ++ zeros (buffer_size - length (request resource hostname)))
            (record { size = 4; text = [] })
          >>= λ result. ok (request resource hostname, result))
  unfolding send_request print_to fd_set
  send_request_run f hostname resource as' fits in_range =
      let short = lt→ltb (length (request resource hostname)) buffer_size fits in
      rw (send_request, print_to, short, fd_set, lt→ltb f 1024 in_range, memory 4) refl

  -- Where the request fits into the buffer, the descriptor is below 1024 and memory does not run out: if
  -- `recv` gives some pieces of at least a byte, and then the connection ends or `select` gives up, the loop ends and the result is the pieces
  -- one after the other, each up to its first zero, in a block with room for its end.
  pub send_request_lem :
      (f : ℕ) (hostname resource : Bytes) (chunks : List Bytes) (last : Arrival)
      (more : List Arrival)
      → length (request resource hostname) < buffer_size
      → f < 1024
      → All (λ bs. 0 < length bs) chunks
      → (last ≡ timed_out) ⊎ (last ≡ received [])
      → (size : ℕ) × (send_request can_alloc
            (some f)
            hostname
            resource
            (map received chunks ++ last ∷ more)
          ≡ ok (request resource hostname, record { size = size; text = collected chunks }))
        × (length (collected chunks) < size)
  send_request_lem f hostname resource chunks last more fits in_range h ends =
      let filled =
        request resource hostname ++ zeros (buffer_size - length (request resource hostname)) in
      let (buffer', size, run, l) =
        receive-received chunks (last ∷ more) filled (record { size = 4; text = [] }) h in
      (
        size,
        send_request_run f hostname resource (map received chunks ++ last ∷ more) fits in_range
            ∙ ap (λ r. r >>= λ result. ok (request resource hostname, result))
                (run ∙ at_end buffer' (record { size = size; text = collected chunks })),
        l (omega arith),
      )
    where
      at_end : (buffer : Bytes) (b : Block) → receive can_alloc (last ∷ more) buffer b ≡ ok b
      at_end buffer b = elim ends [
        | inl e ↦ rw e (ends_quietly more buffer b)
        | inr e ↦ rw e (ends_closed more buffer b)
      ]

  -- Where the request fits into the buffer, the descriptor is below 1024 and memory does not run out:
  -- if `recv` gives some
  -- pieces of at least a byte and then -1, as on a descriptor that does not block and has no
  -- data, the behaviour is undefined.
  pub send_request-failed :
      (f : ℕ) (hostname resource : Bytes) (chunks : List Bytes) (more : List Arrival)
      → length (request resource hostname) < buffer_size
      → f < 1024
      → All (λ bs. 0 < length bs) chunks
      → send_request can_alloc (some f) hostname resource (map received chunks ++ failed ∷ more)
        ≡ fault
  send_request-failed f hostname resource chunks more fits in_range h =
      let filled =
        request resource hostname ++ zeros (buffer_size - length (request resource hostname)) in
      let (buffer', size, run, l) =
        receive-received chunks (failed ∷ more) filled (record { size = 4; text = [] }) h in
      send_request_run f hostname resource (map received chunks ++ failed ∷ more) fits in_range
      ∙ ap (λ r. r >>= λ result. ok (request resource hostname, result))
          (run ∙ receive-failed more buffer' (record { size = size; text = collected chunks }))

  no_descriptor :
      (hostname resource : Bytes) (as' : List Arrival)
      → length (request resource hostname) < buffer_size
      → send_request can_alloc none hostname resource as' ≡ fault
  unfolding send_request print_to fd_set
  no_descriptor hostname resource as' fits =
      rw (send_request, print_to, lt→ltb (length (request resource hostname)) buffer_size fits) refl

  -- `client_commit` for a host that has an address, a request that fits, and memory that does not
  -- run out. If it connects, the pieces that it receives until the connection ends are printed,
  -- the descriptor is closed and the result is 0. If it does not, the descriptor -1 is used all
  -- the same, which is undefined.
  client_commit_lem :
      (ip : Bytes) (f : ℕ) (connected : Bool) (hostname resource : Bytes) (chunks : List Bytes)
      (more : List Arrival)
      → length (request resource hostname) < buffer_size
      → f < 1024
      → All (λ bs. 0 < length bs) chunks
      → client_commit can_alloc
          (some ip)
          (some f)
          connected
          hostname
          resource
          (map received chunks ++ received [] ∷ more)
        ≡ (if connected then ok (true, collected chunks, none) else fault)
  unfolding client_commit
  client_commit_lem ip f true hostname resource chunks more fits in_range h =
      let (size, run, _) =
        send_request_lem f hostname resource chunks (received []) more fits in_range h (inr refl) in
      rw (client_commit, run) refl
  client_commit_lem ip f false hostname resource chunks more fits in_range h =
      rw
        (
          client_commit,
          no_descriptor hostname resource (map received chunks ++ received [] ∷ more) fits,
        )
        refl
