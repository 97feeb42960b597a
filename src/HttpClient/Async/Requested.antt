-- ===== src/HttpClient/Async/Requested.antt =====
-- What a request makes of the entries of the epoll and of the callbacks.
use cpp_project.Base.{
  ℕ, ◌+◌, ◌≡◌, refl, subst, inl, inr, Bool, Bool-cases, true, false, Option, none, some, List, ◌∷◌,
  ◌==◌, ltb, if◌then◌else◌, arith, length, update_self, All-mono, Out, ok, ok_injective,
}
use cpp_project.Text.{Bytes}
use cpp_project.HttpClient.{request, print_to}
use cpp_project.HttpClient.Async.{
  Ptr, EpArg, Context, Answers, async_buffer_size, watch, async_http_client_request,
}
use cpp_project.HttpClient.Async.System.{IsUnused}
use cpp_project.HttpClient.Async.Entries.{
  count, pending-update, IsEntry, All-IsEntry-request, Out-fds, Out-ptrs,
}
use cpp_project.HttpClient.Async.Served.{Inv}

abbrev log : Bool → ℕ → List ℕ → List ℕ
log ret cb accepted = if ret then cb ∷ accepted else accepted

abbrev opened : Context → ℕ → Context
opened s fd = record s { open_fds = fd ∷ s.open_fds }

opened-Inv :
    (s : Context) (accepted : List ℕ) (fd : ℕ) → Inv s accepted → Inv (opened s fd) accepted
opened-Inv s accepted fd v = record {
  entries =
      All-mono (IsEntry s.args s.open_fds) (IsEntry s.args (fd ∷ s.open_fds))
        (λ (f, p) (a, at, same, h). (a, at, same, inr h)) s.epoll v.entries;
  fds_distinct = v.fds_distinct;
  ptrs_distinct = v.ptrs_distinct;
  counted = v.counted;
}

watch-Inv :
    (s : Context) (accepted : List ℕ) (fd cb : ℕ) (memory : Option Ptr) (added : Bool)
    → Inv s accepted
    → Out fd s.open_fds
    → IsUnused (λ p. s.args p ≡ none) memory
    → Inv
        (watch (opened s fd) fd cb memory added).1
        (log (watch (opened s fd) fd cb memory added).0 cb accepted)
unfolding watch
watch-Inv s accepted fd cb none added v new unused = opened-Inv s accepted fd v
watch-Inv s accepted fd cb (some p) false v new unused = record {
  entries = All-IsEntry-request s.args s.open_fds fd p _ s.epoll unused v.entries;
  fds_distinct = v.fds_distinct;
  ptrs_distinct = v.ptrs_distinct;
  counted = λ k.
      rw
        (pending-update s.args p (some (record { sockfd = fd; hostname = none; cb = cb })) s.epoll
          (Out-ptrs s.args s.open_fds p s.epoll unused v.entries))
        (v.counted k);
}
watch-Inv s accepted fd cb (some p) true v new unused =
    let a : EpArg = record { sockfd = fd; hostname = none; cb = cb } in
    let here = update_self s.args p (some a) in
    let others =
      pending-update s.args p (some a) s.epoll
        (Out-ptrs s.args s.open_fds p s.epoll unused v.entries) in
    record {
      entries = (
        (a, here, refl, inl refl),
        All-IsEntry-request s.args s.open_fds fd p (some a) s.epoll unused v.entries,
      );
      fds_distinct = (Out-fds s.args s.open_fds fd s.epoll new v.entries, v.fds_distinct);
      ptrs_distinct = (Out-ptrs s.args s.open_fds p s.epoll unused v.entries, v.ptrs_distinct);
      counted = λ k. rw (others, here) (one_more k cb accepted _ _ (v.counted k));
    }
  where
    one_more :
        (k cb : ℕ) (xs ys zs : List ℕ)
        → count k xs ≡ count k ys + count k zs
        → count k (cb ∷ xs) ≡ count k ys + count k (cb ∷ zs)
    one_more k cb xs ys zs h = elim (Bool-cases (cb == k)) [
      | inl e ↦ rw e (omega (arith, h))
      | inr e ↦ rw e h
    ]

-- The result of a request that returns.
pub request_lem :
    (s t : Context) (accepted : List ℕ) (hostname source : Bytes) (cb : ℕ) (a : Answers)
    (ret : Bool)
    → Inv s accepted
    → IsUnused (λ f. Out f s.open_fds) a.socket
    → IsUnused (λ p. s.args p ≡ none) a.memory
    → async_http_client_request s hostname source cb a ≡ ok (ret, t)
    → Inv t (log ret cb accepted)
unfolding async_http_client_request print_to
request_lem s t accepted hostname source cb a ret v new unused run =
    by_answers a.resolved a.socket a.connected new run
  where
    keep :
        (x : Bool × Context)
        → Inv x.1 (log x.0 cb accepted)
        → ok x ≡ ok (ret, t)
        → Inv t (log ret cb accepted)
    keep x inv e = subst (λ y. Inv y.1 (log y.0 cb accepted)) (ok_injective x (ret, t) e) inv

    by_answers :
        (resolved : Bool) (socket : Option ℕ) (connected : Bool)
        → IsUnused (λ f. Out f s.open_fds) socket
        → async_http_client_request s hostname source cb
            (record a { resolved = resolved; socket = socket; connected = connected })
          ≡ ok (ret, t)
        → Inv t (log ret cb accepted)
    by_answers false socket connected new run = keep (false, s) v run
    by_answers true none connected new run = keep (false, s) v run
    by_answers true (some fd) false new run =
        keep (false, opened s fd) (opened-Inv s accepted fd v) run
    by_answers true (some fd) true new run =
        elim (Bool-cases (ltb (length (request source hostname)) async_buffer_size)) [
          | inl e ↦
              keep (watch (opened s fd) fd cb a.memory a.added)
                (watch-Inv s accepted fd cb a.memory a.added v new unused)
                (rw (async_http_client_request, print_to, e) at run)
          | inr e ↦ absurd (cc (rw (async_http_client_request, print_to, e) at run))
        ]
