-- ===== src/HttpClient/Async/Program.antt =====
-- HttpClient/async_http.c: the start and the end of the client, and main.
use cpp_project.Base.{
  ℕ, ◌≡◌, refl, inl, inr, Bool, Bool-cases, true, false, Option, Option-cases, none, some, List, [],
  ◌∷◌, length, ltb, arith, All, Run, ok, ◌>>=◌, if◌then◌else◌, ◌==◌,
}
use cpp_project.Text.{Bytes, codes}
use cpp_project.HttpClient.{request, print_to}
use cpp_project.HttpClient.Async.{
  Context, Answers, async_buffer_size, async_http_client_request, watch,
}

-- What the process holds: open descriptors, contexts in memory, and the threads by their contexts.
pub record Process : Type 0 where
  pub fds : List ℕ
  pub contexts : List ℕ
  pub threads : List ℕ

-- What `epoll_create`, `malloc` and `pthread_create` give.
pub record Started : Type 0 where
  pub epfd : Option ℕ
  pub memory : Option ℕ
  pub created : Bool

-- `async_context`: where it is, and its `epfd`.
pub record AsyncContext : Type 0 where
  pub address : ℕ
  pub epfd : ℕ

unfoldable pub async_client_init : Process → Started → Option AsyncContext × Process
async_client_init s a = elim a.epfd [
  | none ↦ (none, s)
  | some fd ↦
      let s1 : Process = record s { fds = fd ∷ s.fds } in
      elim a.memory [
        | none ↦ (none, s1)
        | some p ↦
            let s2 : Process = record s1 { contexts = p ∷ s1.contexts } in
            if a.created
            then (some (record { address = p; epfd = fd }), record s2 { threads = p ∷ s2.threads })
            else (none, s2)
      ]
]

-- `close` and `pthread_cancel`
abbrev pub without : ℕ → List ℕ → List ℕ
without x [] = []
without x (y ∷ ys) = if y == x then ys else y ∷ without x ys

unfoldable pub async_client_uninit : Process → Option AsyncContext → Process
async_client_uninit s none = s
async_client_uninit s (some c) = record s {
  fds = without c.epfd s.fds;
  threads = without c.address s.threads;
}

-- `reqs`: the names of the hosts and the resources.
abbrev pub reqs : List (Bytes × Bytes)
reqs =
    (
      codes "api.seniverse.com",
      codes "/v3/weather/now.json?key=0pyd8z7jouficcil&location=beijing&language=zh-Hans&unit=c",
    )
    ∷ (
      codes "api.seniverse.com",
      codes "/v3/weather/now.json?key=0pyd8z7jouficcil&location=changsha&language=zh-Hans&unit=c",
    )
    ∷ (
      codes "api.seniverse.com",
      codes "/v3/weather/now.json?key=0pyd8z7jouficcil&location=shenzhen&language=zh-Hans&unit=c",
    )
    ∷ (
      codes "api.seniverse.com",
      codes "/v3/weather/now.json?key=0pyd8z7jouficcil&location=shanghai&language=zh-Hans&unit=c",
    )
    ∷ (
      codes "api.seniverse.com",
      codes "/v3/weather/now.json?key=0pyd8z7jouficcil&location=tianjin&language=zh-Hans&unit=c",
    )
    ∷ (
      codes "api.seniverse.com",
      codes "/v3/weather/now.json?key=0pyd8z7jouficcil&location=wuhan&language=zh-Hans&unit=c",
    )
    ∷ (
      codes "api.seniverse.com",
      codes "/v3/weather/now.json?key=0pyd8z7jouficcil&location=hefei&language=zh-Hans&unit=c",
    )
    ∷ (
      codes "api.seniverse.com",
      codes "/v3/weather/now.json?key=0pyd8z7jouficcil&location=hangzhou&language=zh-Hans&unit=c",
    )
    ∷ (
      codes "api.seniverse.com",
      codes "/v3/weather/now.json?key=0pyd8z7jouficcil&location=nanjing&language=zh-Hans&unit=c",
    )
    ∷ (
      codes "api.seniverse.com",
      codes "/v3/weather/now.json?key=0pyd8z7jouficcil&location=jinan&language=zh-Hans&unit=c",
    )
    ∷ (
      codes "api.seniverse.com",
      codes "/v3/weather/now.json?key=0pyd8z7jouficcil&location=taiyuan&language=zh-Hans&unit=c",
    )
    ∷ (
      codes "api.seniverse.com",
      codes "/v3/weather/now.json?key=0pyd8z7jouficcil&location=wuxi&language=zh-Hans&unit=c",
    )
    ∷ (
      codes "api.seniverse.com",
      codes "/v3/weather/now.json?key=0pyd8z7jouficcil&location=suzhou&language=zh-Hans&unit=c",
    )
    ∷ []

-- The loop of `main`, with what the system calls of each request give. Its results are not looked at.
unfoldable pub request_all : Context → List (Bytes × Bytes) → List Answers → (cb : ℕ) → Run Context
request_all s [] answers cb = ok s
request_all s (q ∷ qs) [] cb = ok s
request_all s (q ∷ qs) (a ∷ answers) cb = do
  (_, t) ← async_http_client_request s q.0 q.1 cb a
  request_all t qs answers cb

-- The text of a request fits into the buffer, with its end.
abbrev Fits : Bytes × Bytes → Type 0
Fits q = ltb (length (request q.1 q.0)) async_buffer_size ≡ true

reqs-Fits : All Fits reqs
reqs-Fits = (
  refl,
  (
    refl,
    (refl, (refl, (refl, (refl, (refl, (refl, (refl, (refl, (refl, (refl, (refl, tt))))))))))),
  ),
)

request_returns :
    (s : Context) (q : Bytes × Bytes) (cb : ℕ) (a : Answers)
    → Fits q
    → (r : Bool × Context) × (async_http_client_request s q.0 q.1 cb a ≡ ok r)
unfolding async_http_client_request print_to
request_returns s q cb a fits = elim (Bool-cases a.resolved) [
  | inr e ↦ ((false, s), rw (async_http_client_request, e) refl)
  | inl e ↦ elim (Option-cases a.socket) [
    | inl d ↦ ((false, s), rw (async_http_client_request, e, d) refl)
    | inr (fd, d) ↦ elim (Bool-cases a.connected) [
      | inr c ↦ (
        (false, record s { open_fds = fd ∷ s.open_fds }),
        rw (async_http_client_request, e, d, c) refl,
      )
      | inl c ↦ (
        watch (record s { open_fds = fd ∷ s.open_fds }) fd cb a.memory a.added,
        rw (async_http_client_request, e, d, c, print_to, fits) refl,
      )
    ]
  ]
]

requests_return :
    (s : Context) (qs : List (Bytes × Bytes)) (answers : List Answers) (cb : ℕ)
    → All Fits qs
    → (t : Context) × (request_all s qs answers cb ≡ ok t)
unfolding request_all
requests_return s [] answers cb fits = (s, refl)
requests_return s (q ∷ qs) [] cb fits = (s, refl)
requests_return s (q ∷ qs) (a ∷ answers) cb fits =
    let (r, run) = request_returns s q cb a fits.0 in
    let (t, rest) = requests_return r.1 qs answers cb fits.1 in (t, rw (request_all, run) rest)

-- The 13 requests of `main` fit into the buffer: the loop returns, whatever the context is and whatever the system calls
-- give.
main_requests_return :
    (s : Context) (answers : List Answers) (cb : ℕ)
    → (t : Context) × (request_all s reqs answers cb ≡ ok t)
main_requests_return s answers cb = requests_return s reqs answers cb reqs-Fits

without_first : (x : ℕ) (xs : List ℕ) → without x (x ∷ xs) ≡ xs
without_first x xs = ground arith

module _ (s : Process) (a : Started) (fd p : ℕ) (e : a.epfd ≡ some fd) (d : a.memory ≡ some p) where
  made :
      a.created ≡ true
      → async_client_init s a ≡ (
        some (record { address = p; epfd = fd }),
        record { fds = fd ∷ s.fds; contexts = p ∷ s.contexts; threads = p ∷ s.threads },
      )
  unfolding async_client_init
  made c = rw (async_client_init, e, d, c) refl

  not_made :
      a.created ≡ false
      → async_client_init s a ≡ (none, record s { fds = fd ∷ s.fds; contexts = p ∷ s.contexts })
  unfolding async_client_init
  not_made c = rw (async_client_init, e, d, c) refl

  -- Where the epoll and the memory of the context are made: after async_client_init and async_client_uninit with its
  -- result, the threads are as before and the context is still in memory; the epoll is closed again if
  -- the thread was made, and otherwise open for good.
  init_uninit :
      (let (c, t) = async_client_init s a in
        let u = async_client_uninit t c in
        (u.threads ≡ s.threads)
        × (u.contexts ≡ p ∷ s.contexts)
        × (u.fds ≡ (if a.created then s.fds else fd ∷ s.fds)))
  unfolding async_client_uninit
  init_uninit = elim (Bool-cases a.created) [
    | inl c ↦ rw (made c, c) (without_first p s.threads, refl, without_first fd s.fds)
    | inr c ↦ rw (not_made c, c) (refl, refl, refl)
  ]
