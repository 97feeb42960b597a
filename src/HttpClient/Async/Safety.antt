-- ===== src/HttpClient/Async/Safety.antt =====
-- What holds of the asynchronous client after any requests and answers.
use cpp_project.Base.{
  ℕ, ◌+◌, ◌≡◌, refl, sym, ap, subst, ◌∙◌, ◌≢◌, inl, inr, Option, List, [], ◌∷◌, ◌++◌, arith, length,
  length-append, All, All-zip, Has, Has-drop, Distinct, ok, ok_injective,
}
use cpp_project.Text.{Bytes}
use cpp_project.HttpClient.Async.{
  Ptr, Context, new_context, serve_all, Wait, interrupted, broken, ready, thread_client_callback,
}
use cpp_project.HttpClient.Async.System.{Step, requested, served, Reach, start, later}
use cpp_project.HttpClient.Async.Entries.{fds, ptrs, ptrs-append, pending, cbs, count, IsEntry}
use cpp_project.HttpClient.Async.Served.{Inv, serve_lem}
use cpp_project.HttpClient.Async.Requested.{request_lem}

new-Inv : Inv new_context []
new-Inv = record { entries = tt; fds_distinct = tt; ptrs_distinct = tt; counted = λ k. omega arith }

Step-Inv :
    (s t : Context) (accepted accepted' : List ℕ)
    → Inv s accepted
    → Step s accepted t accepted'
    → Inv t accepted'
Step-Inv _ _ _ _ v (requested s t accepted hostname source cb a ret new unused run) =
    request_lem s t accepted hostname source cb a ret v new unused run
Step-Inv _ _ _ _ v (served s t accepted xs ys fd p r e run) =
    let (t', run', v', _, _) = serve_lem s accepted xs ys fd p r v e in
    subst (λ x. Inv x accepted) (ok_injective t' t (sym run' ∙ run)) v'

Reach-Inv : (s : Context) (accepted : List ℕ) → Reach s accepted → Inv s accepted
Reach-Inv _ _ start = new-Inv
Reach-Inv _ _ (later s t accepted accepted' r step) =
    Step-Inv s t accepted accepted' (Reach-Inv s accepted r) step

-- After any requests and answers, where new sockets are not open ones and new memory is not in use, each entry
-- of the epoll leads to its argument, which holds its descriptor, which is open; no descriptor and no
-- argument has two entries; and each callback was called as often as it was accepted, less its requests that
-- are still in the epoll.
pub Reach-counted :
    (s : Context) (accepted : List ℕ)
    → Reach s accepted
    → All (IsEntry s.args s.open_fds) s.epoll
      × Distinct (fds s.epoll)
      × Distinct (ptrs s.epoll)
      × ((k : ℕ) → count k accepted ≡ count k (cbs s.calls) + count k (pending s.args s.epoll))
Reach-counted s accepted r =
    let v = Reach-Inv s accepted r in (v.entries, v.fds_distinct, v.ptrs_distinct, v.counted)

-- The data of events.
abbrev pub data_of : List (Ptr × Option Bytes) → List ℕ
data_of [] = []
data_of ((p, r) ∷ es) = p ∷ data_of es

ptrs-split :
    (p : Ptr) (es : List (ℕ × Ptr))
    → Has p (ptrs es)
    → (fd : ℕ) × (xs : List (ℕ × Ptr)) × (ys : List (ℕ × Ptr)) × (es ≡ xs ++ (fd, p) ∷ ys)
ptrs-split p [] h = absurd h
ptrs-split p ((f, q) ∷ es) (inl e) = (f, [], es, ap (λ r. (f, r) ∷ es) e)
ptrs-split p ((f, q) ∷ es) (inr h) =
    let (fd, xs, ys, e) = ptrs-split p es h in (fd, (f, q) ∷ xs, ys, ap (λ r. (f, q) ∷ r) e)

-- Events of entries, each once, are served.
serve_all_lem :
    (es : List (Ptr × Option Bytes)) (s : Context) (accepted : List ℕ)
    → Inv s accepted
    → Distinct (data_of es)
    → All (λ p. Has p (ptrs s.epoll)) (data_of es)
    → (t : Context) × (serve_all s es ≡ ok t)
      × Inv t accepted
      × (length t.epoll + length es ≡ length s.epoll)
unfolding serve_all
serve_all_lem [] s accepted v d h = (s, refl, v, omega arith)
serve_all_lem ((p, r) ∷ es) s accepted v (out, d) (here, h) =
    let (fd, xs, ys, e) = ptrs-split p s.epoll here in
    let (t, run, v', left, _) = serve_lem s accepted xs ys fd p r v e in
    let at : ptrs s.epoll ≡ ptrs xs ++ p ∷ ptrs ys = ap ptrs e ∙ ptrs-append xs ((fd, p) ∷ ys) in
    let remain : ptrs xs ++ ptrs ys ≡ ptrs t.epoll = sym (ap ptrs left ∙ ptrs-append xs ys) in
    let (u, run', v'', counted) = serve_all_lem es t accepted v' d (
      All-zip (λ q. q ≢ p) (λ q. Has q (ptrs s.epoll)) (λ q. Has q (ptrs t.epoll))
        (λ q ne g. subst (Has q) remain (Has-drop q p (ptrs xs) (ptrs ys) ne (subst (Has q) at g)))
        (data_of es) out h) in
    (
      u,
      rw (serve_all, run) run',
      v'',
      omega (
        arith,
        counted,
        ap length left,
        ap length e,
        length-append xs ((fd, p) ∷ ys),
        length-append xs ys,
      ),
    )

length-nil : {A : Type 0} → (xs : List A) → length xs ≡ 0 → xs ≡ []
length-nil [] e = refl
length-nil (x ∷ xs) e = absurd (omega (arith, e))

-- After any requests and answers, where new sockets are not open ones and new memory is not in
-- use: once every descriptor in the epoll is ready, in any order, the thread serves them without
-- an access to freed memory, whatever `recv` gives; then the epoll is empty, and each callback
-- was called exactly as often as it was accepted.
pub every_request_answered :
    (s : Context) (accepted : List ℕ) (es : List (Ptr × Option Bytes)) (waits : List Wait)
    → Reach s accepted
    → Distinct (data_of es)
    → All (λ p. Has p (ptrs s.epoll)) (data_of es)
    → length es ≡ length s.epoll
    → (t : Context) × (thread_client_callback s (interrupted ∷ ready es ∷ broken ∷ waits) ≡ ok t)
      × (t.epoll ≡ [])
      × ((k : ℕ) → count k (cbs t.calls) ≡ count k accepted)
unfolding thread_client_callback
every_request_answered s accepted es waits r d h all =
    let (t, run, v, left) = serve_all_lem es s accepted (Reach-Inv s accepted r) d h in
    let empty = length-nil t.epoll (omega (arith, left, all)) in
    (
      t,
      rw (thread_client_callback, run) refl,
      empty,
      λ k. omega (arith, v.counted k, ap (λ es'. count k (pending t.args es')) empty),
    )
