-- ===== src/Reactor.antt =====
-- Reactor/Reactor.cpp, Reactor/EventDemultiplex.cpp and Reactor/EventHandle.cpp: the map from descriptors
-- to handles, their registration with epoll, and what is done for each descriptor that is ready. The
-- system calls are a parameter, with a state of its own.
pub mod Map
pub mod Invariant
pub mod Loop
pub mod History
pub mod Kept
pub mod Keys
pub mod Registered
pub mod Ending
pub mod Tests
use cpp_project.Base.{
  ℕ, Bool, true, false, ◌||◌, Option, none, some, List, [], ◌∷◌, ◌==◌, if◌then◌else◌, update, Run,
  ok, fault, ◌>>=◌, or_fault,
}

abbrev pub Ptr : Type 0
Ptr = ℕ

-- `EventHandle`
pub record EventHandle : Type 0 where
  pub fd : ℕ
  pub status : ℕ

abbrev pub new_handle : ℕ → EventHandle
new_handle f = record { fd = f; status = 0 }

abbrev pub EventMap : Type 0
EventMap = List (ℕ × Ptr)

-- `Event_Accept` and `Event_Recv`, as flags.
pub record Mask : Type 0 where
  pub accept : Bool
  pub recv : Bool

pub data Op : Type 0 where
  add : Op
  modify : Op
  del : Op

-- The system calls. `epoll_ctl` gets the event mask's EPOLLIN.
pub record Calls (S : Type 0) : Type 0 where
  pub epoll_ctl : S → Op → (fd : ℕ) → (input : Bool) → Bool × S
  pub accept : S → (fd : ℕ) → Option ℕ × S
  pub set_nonblocking : S → (fd : ℕ) → Bool × S
  pub recv : S → (fd : ℕ) → Option ℕ × S
  pub close : S → (fd : ℕ) → S
  pub close_epoll : S → S

-- `Reactor` with its `EpollDemultiplex`: the handles in memory, the map, the listening descriptor.
pub record Reactor (S : Type 0) : Type 0 where
  pub handles : Ptr → Option EventHandle
  pub ep_events : EventMap
  pub socketfd : ℕ
  pub kernel : S

-- `map::find`, `insert` of a key that is not there, `erase`.
unfoldable pub find_event : ℕ → EventMap → Option Ptr
find_event f [] = none
find_event f ((k, p) ∷ m) = let rest = find_event f m in if k == f then some p else rest

unfoldable pub erase_event : ℕ → EventMap → EventMap
erase_event f [] = []
erase_event f ((k, p) ∷ m) = let rest = erase_event f m in if k == f then rest else (k, p) ∷ rest

-- `find` and `insert` of `RegisterEventHandle`: an entry that is there is kept.
abbrev pub insert_event : ℕ → Ptr → EventMap → EventMap
insert_event f p m = elim (find_event f m) [ none ↦ (f, p) ∷ m | some q ↦ m ]

-- A descriptor that `epoll_wait` gives, and the address of the next new handle.
pub record Ready : Type 0 where
  pub fd : ℕ
  pub input : Bool
  pub output : Bool
  pub fresh : Ptr

-- The second half of `RemoveEventHandle`: the entry and its handle are deleted.
unfoldable pub erase_handle : {S : Type 0} → Reactor S → ℕ → Reactor S
erase_handle s f = elim (find_event f s.ep_events) [
  | none ↦ s
  | some q ↦ record s { ep_events = erase_event f s.ep_events; handles = update s.handles q none }
]

-- The loop of `~Reactor`. To delete a handle twice is undefined.
unfoldable pub delete_handles :
    EventMap → (Ptr → Option EventHandle) → Run (Ptr → Option EventHandle)
delete_handles [] h = ok h
delete_handles ((k, p) ∷ m) h = or_fault (h p) >>= λ _. delete_handles m (update h p none)

-- `EpollDemultiplex::EpollDemultiplex` and `Reactor::Reactor`
abbrev pub new_reactor : {S : Type 0} → S → Reactor S
new_reactor k = record { handles = λ _. none; ep_events = []; socketfd = 0; kernel = k }

module _ {S : Type 0} (calls : Calls S) where
  -- `EpollDemultiplex::regist`: true for 0, false for -1.
  unfoldable pub regist : Reactor S → Option Ptr → Mask → Run (Bool × Reactor S)
  regist s none e = ok (false, s)
  regist s (some p) e = do
    h ← or_fault (s.handles p)
    let op = if h.status == 1 then modify else add
    let (done, k) = calls.epoll_ctl s.kernel op h.fd (e.accept || e.recv)
    ok (
      done,
      record {
        handles = update s.handles p (some (record h { status = 1 }));
        ep_events = s.ep_events;
        socketfd = if e.accept then h.fd else s.socketfd;
        kernel = k;
      },
    )

  -- `Reactor::RegisterEventHandle`
  unfoldable pub register_event_handle : Reactor S → Option Ptr → Mask → Run (Bool × Reactor S)
  unfolding regist
  register_event_handle s none e = ok (false, s)
  register_event_handle s (some p) e = do
    h ← or_fault (s.handles p)
    regist (record s { ep_events = insert_event h.fd p s.ep_events }) (some p) e

  -- `EpollDemultiplex::remove`
  unfoldable pub remove : Reactor S → Option Ptr → Run (Reactor S)
  remove s none = ok s
  remove s (some p) = do
    h ← or_fault (s.handles p)
    let (_, k) = calls.epoll_ctl s.kernel del h.fd false
    let removed = record s {
      handles = update s.handles p (some (record h { status = 0 }));
      kernel = k;
    }
    ok (if h.status == 1 then removed else s)

  -- `Reactor::RemoveEventHandle`: the handle that the map has for the descriptor is deleted.
  unfoldable pub remove_event_handle : Reactor S → Option Ptr → Run (Reactor S)
  unfolding remove
  remove_event_handle s none = ok s
  remove_event_handle s (some p) = do
    s' ← remove s (some p)
    h ← or_fault (s'.handles p)
    ok (erase_handle s' h.fd)

  -- `Reactor::GetEventHandle`
  unfoldable pub get_event_handle : Reactor S → ℕ → Option Ptr
  get_event_handle s f = find_event f s.ep_events

  -- `EventHandle::HandAccept`. The new handle is at `fresh`.
  unfoldable pub hand_accept : Reactor S → ℕ → (fresh : Ptr) → Run (Reactor S)
  unfolding register_event_handle
  hand_accept s f fresh =
      let (client, k) = calls.accept s.kernel f in
      elim client [
        | none ↦ ok (record s { kernel = k })
        | some c ↦
            let (set, k') = calls.set_nonblocking k c in
            let s' = record s {
              kernel = k';
              handles = update s.handles fresh (some (new_handle c));
            } in
            let registered : Run (Reactor S) =
              register_event_handle s' (some fresh) (record { accept = false; recv = true })
              >>= λ (_, t). ok t in
            if set then registered else ok (record s { kernel = k' })
      ]

  -- `EventHandle::HandRecv`. `recv` gives the number of bytes, or none for an error.
  unfoldable pub hand_recv : Reactor S → ℕ → Reactor S
  unfolding get_event_handle
  hand_recv s f = elim (get_event_handle s f) [
    | none ↦ s
    | some p ↦
        let (n, k) = calls.recv s.kernel f in
        elim n [
          | none ↦ record s { kernel = calls.close k f }
          | some len ↦ record s { kernel = if len == 0 then calls.close k f else k }
        ]
  ]

  -- The body of the loop of `EpollDemultiplex::wait_event`. `HandSend` does nothing.
  unfoldable pub dispatch : Reactor S → Ready → Run (Reactor S)
  unfolding get_event_handle hand_accept hand_recv
  dispatch s r = elim (get_event_handle s r.fd) [
    | none ↦ ok s
    | some p ↦ do
      h ← or_fault (s.handles p)
      let accepted = hand_accept s h.fd r.fresh
      let received = ok (hand_recv s h.fd)
      s' ← (if r.input then (if s.socketfd == r.fd then accepted else received) else ok s)
      if r.output then (or_fault (s'.handles p) >>= λ _. ok s') else ok s'
  ]

  -- `EpollDemultiplex::wait_event`, for the descriptors that `epoll_wait` gives.
  unfoldable pub wait_event : Reactor S → List Ready → Run (Reactor S)
  unfolding dispatch
  wait_event s [] = ok s
  wait_event s (r ∷ rs) = dispatch s r >>= λ s'. wait_event s' rs

  -- So many rounds of the loop of `Reactor::Run`, which does not end, each with its ready descriptors.
  unfoldable pub run : Reactor S → List (List Ready) → Run (Reactor S)
  run s [] = ok s
  run s (rs ∷ rounds) = wait_event s rs >>= λ t. run t rounds

  -- `main` with its listening descriptor, after the constructors, and so many rounds of `Run`. The handle
  -- is made at `p`.
  unfoldable pub main_rounds : S → (lisfd : ℕ) → (p : Ptr) → List (List Ready) → Run (Reactor S)
  main_rounds k lisfd p rounds =
      let made = record (new_reactor k) {
        handles = update (new_reactor k).handles p (some (new_handle lisfd));
      } in
      register_event_handle made (some p) (record { accept = true; recv = false }) >>= λ (_, s).
      run s rounds

  -- `Reactor::~Reactor`
  unfoldable pub destroy_reactor : Reactor S → Run (Reactor S)
  destroy_reactor s = delete_handles s.ep_events s.handles >>= λ h. ok (record {
    handles = h;
    ep_events = [];
    socketfd = s.socketfd;
    kernel = calls.close_epoll s.kernel;
  })
