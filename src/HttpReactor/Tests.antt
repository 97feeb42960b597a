-- ===== src/HttpReactor/Tests.antt =====
-- A run in memory that was not cleared: one client is accepted and served, then another is accepted.
use cpp_project.Base.{
  ℕ, ◌+◌, ◌≡◌, refl, ◌≤◌, ◌<◌, Bool, true, false, none, some, List, [], ◌∷◌, arith, Run, ok, fault,
  timeout,
}
use cpp_project.Reactor.{Ptr, Calls, Ready}
use cpp_project.HttpReactor.{
  EventHandle, Reactor, new_reactor, regist, register_event_handle, get_event_handle, hand_accept,
  hand_recv, dispatch, wait_event,
}
use cpp_project.HttpReactor.History
use cpp_project.HttpReactor.History.{Reach, start, later, with_handle}
use cpp_project.HttpReactor.Buffers.{nothing_answered}

-- Its state is the next descriptor.
abbrev kernel : Calls ℕ
kernel = record {
  epoll_ctl = λ s op f i. (true, s);
  accept = λ s f. (some s, s + 1);
  set_nonblocking = λ s f. (true, s);
  recv = λ s f. (some 60, s);
  close = λ s f. s;
  close_epoll = λ s. s;
}

abbrev old_memory : Ptr → ℕ → ℕ
old_memory p i = 7

abbrev reactor_of : Run (Bool × Reactor ℕ) → Reactor ℕ
reactor_of (ok (b, s)) = s
reactor_of fault = new_reactor 0
reactor_of timeout = new_reactor 0

abbrev served_of : Run (Reactor ℕ) → Reactor ℕ
served_of (ok s) = s
served_of fault = new_reactor 0
served_of timeout = new_reactor 0

abbrev input_at : ℕ → Ptr → Ready
input_at f fresh = record { fd = f; input = true; output = false; fresh = fresh }

abbrev listening : Reactor ℕ
listening = reactor_of (
    register_event_handle kernel old_memory (with_handle kernel old_memory (new_reactor 4) 10 3)
      (some 10) (record { accept = true; recv = false }))

abbrev connected : Reactor ℕ
connected = served_of (dispatch kernel old_memory listening (input_at 3 11))

abbrev request_and_client : List Ready
request_and_client = input_at 4 12 ∷ input_at 3 13 ∷ []

-- Its `unfolding` line is that of every run below.
steps : Reactor ℕ
unfolding regist register_event_handle get_event_handle hand_accept hand_recv dispatch wait_event
steps = connected

connected-reached : Reach kernel old_memory connected
unfolding steps
connected-reached =
    later
      (later (start 4) (History.register 10 3 (record { accept = true; recv = false }) refl refl))
      (History.serve (input_at 3 11) refl refl)

free_12 : connected.handles 12 ≡ none
unfolding steps
free_12 = refl

free_13 : connected.handles 13 ≡ none
unfolding steps
free_13 = refl

nothing_answered_example :
    (t : Reactor ℕ) × (wait_event kernel old_memory connected request_and_client ≡ ok t)
    × ((f : ℕ) (p : Ptr)
        → t.ep_events f ≡ some p
        → (h : EventHandle) × (t.handles p ≡ some h)
          × (h.fd ≡ f)
          × (h.status ≡ 1)
          × (h.len ≡ 0)
          × ((i : ℕ) → i < 128 → h.sbuffer i ≡ 0)
          × ((i : ℕ) → 128 ≤ i → h.sbuffer i ≡ old_memory p i))
nothing_answered_example =
    nothing_answered kernel old_memory connected request_and_client connected-reached
      (free_12, ((λ e. ground arith), tt), (free_13, tt, tt))
