-- ===== src/HttpReactor.antt =====
-- HttpReactor/Reactor.cpp, EventDemultiplex.cpp, EventHandle.h and EventHandle.cpp beside it: the reactor whose
-- handles have a buffer. The map is read as a function from descriptors, and what memory held before a
-- handle was made in it is a parameter. The system calls are those of the other reactor.
pub mod Alike
pub mod Entries
pub mod Registering
pub mod Handlers
pub mod Agrees
pub mod History
pub mod Buffers
pub mod Tests
use cpp_project.Base.{
  ℕ, ◌*◌, Bool, true, false, ◌||◌, Option, none, some, List, [], ◌∷◌, ◌==◌, ltb, if◌then◌else◌,
  update, Run, ok, ◌>>=◌, or_fault,
}
use cpp_project.Reactor.{Ptr, Mask, Op, add, modify, del, Calls, Ready}

-- `EventHandle`. The buffer is an array of 1024 pointers of 8 bytes, here their values.
pub record EventHandle : Type 0 where
  pub fd : ℕ
  pub status : ℕ
  pub sbuffer : ℕ → ℕ
  pub len : ℕ

-- `MAX_BUFFER`
abbrev pub max_buffer : ℕ
max_buffer = 1024

-- The constructor: `memset` clears `sizeof(char) * MAX_BUFFER` bytes.
abbrev pub new_handle : (raw : ℕ → ℕ) → ℕ → EventHandle
new_handle raw f = record {
  fd = f;
  status = 0;
  sbuffer = λ i. if ltb (i * 8) (1 * max_buffer) then 0 else raw i;
  len = 0;
}

abbrev pub EventMap : Type 0
EventMap = ℕ → Option Ptr

pub record Reactor (S : Type 0) : Type 0 where
  pub handles : Ptr → Option EventHandle
  pub ep_events : EventMap
  pub socketfd : ℕ
  pub kernel : S

-- `EpollDemultiplex::EpollDemultiplex` and `Reactor::Reactor`
abbrev pub new_reactor : {S : Type 0} → S → Reactor S
new_reactor k = record { handles = λ _. none; ep_events = λ _. none; socketfd = 0; kernel = k }

-- `find` and `insert`: an entry that is there is kept.
abbrev pub insert_event : ℕ → Ptr → EventMap → EventMap
insert_event f p m = elim (m f) [ none ↦ update m f (some p) | some q ↦ m ]

unfoldable pub erase_handle : {S : Type 0} → Reactor S → ℕ → Reactor S
erase_handle s f = elim (s.ep_events f) [
  | none ↦ s
  | some q ↦ record s { ep_events = update s.ep_events f none; handles = update s.handles q none }
]

module _ {S : Type 0} (calls : Calls S) (memory : Ptr → ℕ → ℕ) where
  -- `EpollDemultiplex::regist`
  unfoldable pub regist : Reactor S → Option Ptr → Mask → Run (Bool × Reactor S)
  regist s none e = ok (false, s)
  regist s (some p) e = do
    h ← or_fault (s.handles p)
    let op = if h.status == 1 then modify else add
    let (done, k) = calls.epoll_ctl s.kernel op h.fd (e.accept || e.recv)
    ok (
      done,
      record {
        handles = update s.handles p (some (record h { status = 1 }));
        ep_events = s.ep_events;
        socketfd = if e.accept then h.fd else s.socketfd;
        kernel = k;
      },
    )

  -- `Reactor::RegisterEventHandle`
  unfoldable pub register_event_handle : Reactor S → Option Ptr → Mask → Run (Bool × Reactor S)
  register_event_handle s none e = ok (false, s)
  register_event_handle s (some p) e = do
    h ← or_fault (s.handles p)
    regist (record s { ep_events = insert_event h.fd p s.ep_events }) (some p) e

  -- `EpollDemultiplex::remove`
  unfoldable pub remove : Reactor S → Option Ptr → Run (Reactor S)
  remove s none = ok s
  remove s (some p) = do
    h ← or_fault (s.handles p)
    let (_, k) = calls.epoll_ctl s.kernel del h.fd false
    let removed = record s {
      handles = update s.handles p (some (record h { status = 0 }));
      kernel = k;
    }
    ok (if h.status == 1 then removed else s)

  -- `Reactor::RemoveEventHandle`
  unfoldable pub remove_event_handle : Reactor S → Option Ptr → Run (Reactor S)
  remove_event_handle s none = ok s
  remove_event_handle s (some p) = do
    s' ← remove s (some p)
    h ← or_fault (s'.handles p)
    ok (erase_handle s' h.fd)

  -- `Reactor::GetEventHandle`
  unfoldable pub get_event_handle : Reactor S → ℕ → Option Ptr
  get_event_handle s f = s.ep_events f

  -- `EventHandle::HandAccept`. The new handle is at `fresh`.
  unfoldable pub hand_accept : Reactor S → ℕ → (fresh : Ptr) → Run (Reactor S)
  hand_accept s f fresh =
      let (client, k) = calls.accept s.kernel f in
      elim client [
        | none ↦ ok (record s { kernel = k })
        | some c ↦
            let (set, k') = calls.set_nonblocking k c in
            let s' = record s {
              kernel = k';
              handles = update s.handles fresh (some (new_handle (memory fresh) c));
            } in
            let registered : Run (Reactor S) =
              register_event_handle s' (some fresh) (record { accept = false; recv = true })
              >>= λ (_, t). ok t in
            if set then registered else ok (record s { kernel = k' })
      ]

  -- `EventHandle::HandRecv`
  unfoldable pub hand_recv : Reactor S → ℕ → Reactor S
  hand_recv s f = elim (get_event_handle s f) [
    | none ↦ s
    | some p ↦
        let (n, k) = calls.recv s.kernel f in
        elim n [
          | none ↦ record s { kernel = calls.close k f }
          | some len ↦ record s { kernel = if len == 0 then calls.close k f else k }
        ]
  ]

  -- The body of the loop of `EpollDemultiplex::wait_event`. `HandSend` does nothing.
  unfoldable pub dispatch : Reactor S → Ready → Run (Reactor S)
  dispatch s r = elim (get_event_handle s r.fd) [
    | none ↦ ok s
    | some p ↦ do
      h ← or_fault (s.handles p)
      let accepted = hand_accept s h.fd r.fresh
      let received = ok (hand_recv s h.fd)
      s' ← (if r.input then (if s.socketfd == r.fd then accepted else received) else ok s)
      if r.output then (or_fault (s'.handles p) >>= λ _. ok s') else ok s'
  ]

  -- `EpollDemultiplex::wait_event`
  unfoldable pub wait_event : Reactor S → List Ready → Run (Reactor S)
  wait_event s [] = ok s
  wait_event s (r ∷ rs) = dispatch s r >>= λ s'. wait_event s' rs
