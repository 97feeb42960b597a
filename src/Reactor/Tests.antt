-- ===== src/Reactor/Tests.antt =====
-- A reactor that listens at descriptor 3, accepts descriptor 4, loses it and accepts it again.
use cpp_project.Base.{
  ℕ, ◌≡◌, refl, ◌≢◌, Bool, true, false, none, some, List, [], ◌∷◌, arith, Run, ok, fault, timeout,
}
use cpp_project.Reactor.{
  Ptr, Calls, Ready, Reactor, new_reactor, delete_handles, destroy_reactor, run, find_event, regist,
  register_event_handle, remove, erase_handle, erase_event, remove_event_handle, get_event_handle,
  hand_accept, hand_recv, dispatch, wait_event, EventHandle, Op, add, del,
}
use cpp_project.Reactor.Registered.{Log, traced, last_ctl, Reach-Registered}
use cpp_project.Reactor.Loop.{with_handle}
use cpp_project.Reactor.Ending.{destroy_reactor_lem, run_returns}
use cpp_project.Reactor.History
use cpp_project.Reactor.History.{Reach, start, later, reused_fd}

-- Its state counts the calls.
abbrev kernel : Calls ℕ
kernel = record {
  epoll_ctl = λ s op f i. (true, s);
  accept = λ s f. (some 4, s);
  set_nonblocking = λ s f. (true, s);
  recv = λ s f. (some 0, s);
  close = λ s f. s;
  close_epoll = λ s. s;
}

abbrev reactor_of : Run (Bool × Reactor ℕ) → Reactor ℕ
reactor_of (ok (b, s)) = s
reactor_of fault = new_reactor 0
reactor_of timeout = new_reactor 0

abbrev served_of : Run (Reactor ℕ) → Reactor ℕ
served_of (ok s) = s
served_of fault = new_reactor 0
served_of timeout = new_reactor 0

abbrev listening : Reactor ℕ
listening = reactor_of (
    register_event_handle kernel (with_handle kernel (new_reactor 0) 10 3 0) (some 10)
      (record { accept = true; recv = false }))

abbrev input_at : ℕ → Ptr → Ready
input_at f fresh = record { fd = f; input = true; output = false; fresh = fresh }

abbrev connected : Reactor ℕ
connected = served_of (dispatch kernel listening (input_at 3 11))

-- The client has gone: `HandRecv` closes its descriptor.
abbrev closed : Reactor ℕ
closed = served_of (dispatch kernel connected (input_at 4 12))

-- Its `unfolding` line is that of every run below.
steps : Reactor ℕ
unfolding find_event regist register_event_handle remove erase_handle erase_event
    remove_event_handle get_event_handle hand_accept hand_recv dispatch wait_event run
    delete_handles destroy_reactor
steps = closed

closed-reached : Reach kernel closed
unfolding steps
closed-reached =
    later
      (later
        (later (start 0) (History.register 10 3 (record { accept = true; recv = false }) refl refl))
        (History.serve (input_at 3 11) refl refl))
      (History.serve (input_at 4 12) refl refl)

entry_4 : find_event 4 closed.ep_events ≡ some 11
unfolding steps
entry_4 = refl

handle_11 : closed.handles 11 ≡ some (record { fd = 4; status = 1 })
unfolding steps
handle_11 = refl

free_12 : closed.handles 12 ≡ none
unfolding steps
free_12 = refl

free_13 : closed.handles 13 ≡ none
unfolding steps
free_13 = refl

abbrev two_rounds : List (List Ready)
two_rounds = (input_at 3 12 ∷ []) ∷ (input_at 9 13 ∷ []) ∷ []

run_returns_example :
    (t u : Reactor ℕ) × (run kernel closed two_rounds ≡ ok t)
    × Reach kernel t
    × (destroy_reactor kernel t ≡ ok u)
run_returns_example =
    run_returns kernel closed two_rounds closed-reached
      (free_12, ((λ e. ground arith), tt), (free_13, tt, tt))

destroy_reactor_lem_example :
    (t : Reactor ℕ) × (destroy_reactor kernel closed ≡ ok t)
    × (t.ep_events ≡ [])
    × ((f : ℕ) (p : Ptr) → find_event f closed.ep_events ≡ some p → t.handles p ≡ none)
    × ((p : Ptr)
        → ((f : ℕ) → find_event f closed.ep_events ≢ some p)
        → t.handles p ≡ closed.handles p)
destroy_reactor_lem_example = destroy_reactor_lem kernel closed closed-reached

reused_fd_example :
    (t : Reactor ℕ) × (hand_accept kernel closed 3 12 ≡ ok t)
    × (t.ep_events ≡ closed.ep_events)
    × (t.handles 12 ≡ some (record { fd = 4; status = 1 }))
    × ((g : ℕ) → get_event_handle kernel t g ≢ some 12)
reused_fd_example = reused_fd kernel closed closed-reached 3 4 12 11 free_12 entry_4 refl refl

-- The same with the calls of `epoll_ctl` kept, and another client, whose handle is removed.
abbrev logged_of : Run (Reactor (ℕ × Log)) → Reactor (ℕ × Log)
logged_of (ok s) = s
logged_of fault = new_reactor (0, [])
logged_of timeout = new_reactor (0, [])

abbrev logged_register : Run (Bool × Reactor (ℕ × Log)) → Reactor (ℕ × Log)
logged_register (ok (b, s)) = s
logged_register fault = new_reactor (0, [])
logged_register timeout = new_reactor (0, [])

abbrev register_at : Reactor (ℕ × Log) → Ptr → ℕ → Run (Bool × Reactor (ℕ × Log))
register_at s p f =
    register_event_handle (traced kernel) (with_handle (traced kernel) s p f s.kernel) (some p)
      (record { accept = true; recv = false })

abbrev log_one : Reactor (ℕ × Log)
log_one = logged_register (register_at (new_reactor (0, [])) 10 3)

abbrev log_two : Reactor (ℕ × Log)
log_two = logged_register (register_at log_one 11 7)

abbrev log_removed : Reactor (ℕ × Log)
log_removed = logged_of (remove_event_handle (traced kernel) log_two (some 11))

log_removed-reached : Reach (traced kernel) log_removed
unfolding steps
log_removed-reached =
    later
      (later
        (later (start (0, []))
          (History.register 10 3 (record { accept = true; recv = false }) refl refl))
        (History.register 11 7 (record { accept = true; recv = false }) refl refl))
      (History.remove 11 (record { fd = 7; status = 1 }) refl refl)

log_removed-run :
    (log_removed.kernel.1 ≡ (del, 7) ∷ (add, 7) ∷ (add, 3) ∷ [])
    × (find_event 3 log_removed.ep_events ≡ some 10)
unfolding steps
log_removed-run = (refl, refl)

Reach-Registered_example :
    ((h : EventHandle) × (log_removed.handles 10 ≡ some h) × (h.fd ≡ 3) × (h.status ≡ 1))
    × ((op : Op) × (last_ctl 3 log_removed.kernel.1 ≡ some op) × (op ≢ del))
Reach-Registered_example =
    Reach-Registered kernel log_removed log_removed-reached 3 10 log_removed-run.1
