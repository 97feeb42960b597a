-- ===== src/HttpClient/Async/Served.antt =====
-- What a request and an answer make of the entries of the epoll and of the callbacks.
use cpp_project.Base.{
  ℕ, suc, ◌+◌, ◌≡◌, refl, sym, ap, subst, ◌∙◌, Option, none, some, List, [], ◌∷◌, ◌++◌, arith,
  length, update, All, All-right, All-drop, Out, Distinct, Distinct-drop, ok,
}
use cpp_project.Text.{Bytes}
use cpp_project.HttpClient.Async.{Ptr, EpArg, Call, Context, close, text_in, recv_buffer, serve}
use cpp_project.HttpClient.Async.Entries.{
  fds, ptrs, fds-append, ptrs-append, cb_of, pending, cbs, count, count-append, pending-append,
  pending-update, unwatch-middle, IsEntry, All-IsEntry-serve,
}

-- The callbacks of the accepted requests are those that were called and those that are to be called.
pub record Inv (s : Context) (accepted : List ℕ) : Type 0 where
  pub entries : All (IsEntry s.args s.open_fds) s.epoll
  pub fds_distinct : Distinct (fds s.epoll)
  pub ptrs_distinct : Distinct (ptrs s.epoll)
  pub counted :
      (k : ℕ) → count k accepted ≡ count k (cbs s.calls) + count k (pending s.args s.epoll)

cbs-append : (xs : List Call) (c : Call) → cbs (xs ++ c ∷ []) ≡ cbs xs ++ c.cb ∷ []
cbs-append [] c = refl
cbs-append (x ∷ xs) c = ap (λ r. x.cb ∷ r) (cbs-append xs c)

length_calls : (cs : List Call) (c : Call) → length (cs ++ c ∷ []) ≡ suc (length cs)
length_calls [] c = refl
length_calls (x ∷ cs) c = ap (λ n. suc n) (length_calls cs c)

-- Serving an entry returns, takes it out and calls its callback.
pub serve_lem :
    (s : Context) (accepted : List ℕ) (xs ys : List (ℕ × Ptr)) (fd p : ℕ) (r : Option Bytes)
    → Inv s accepted
    → s.epoll ≡ xs ++ (fd, p) ∷ ys
    → (t : Context) × (serve s p r ≡ ok t)
      × Inv t accepted
      × (t.epoll ≡ xs ++ ys)
      × (length t.calls ≡ suc (length s.calls))
unfolding serve
serve_lem s accepted xs ys fd p r v e =
    let entries : All (IsEntry s.args s.open_fds) (xs ++ (fd, p) ∷ ys) =
      subst (All (IsEntry s.args s.open_fds)) e v.entries in
    let (a, at, same, opened) =
      (All-right (IsEntry s.args s.open_fds) xs ((fd, p) ∷ ys) entries).0 in
    let (fd_out, fds_distinct) =
      Distinct-drop fd (fds xs) (fds ys)
        (subst Distinct (ap fds e ∙ fds-append xs ((fd, p) ∷ ys)) v.fds_distinct) in
    let (ptr_out, ptrs_distinct) =
      Distinct-drop p (ptrs xs) (ptrs ys)
        (subst Distinct (ap ptrs e ∙ ptrs-append xs ((fd, p) ∷ ys)) v.ptrs_distinct) in
    let fd_out' : Out fd (fds (xs ++ ys)) = subst (Out fd) (sym (fds-append xs ys)) fd_out in
    let ptr_out' : Out p (ptrs (xs ++ ys)) = subst (Out p) (sym (ptrs-append xs ys)) ptr_out in
    let answer : Call = record {
      cb = a.cb;
      hostname = a.hostname;
      resource = text_in (recv_buffer r);
    } in
    let t : Context = record {
      calls = s.calls ++ answer ∷ [];
      epoll = xs ++ ys;
      open_fds = close fd s.open_fds;
      args = update s.args p none;
    } in
    (
      t,
      serve_run a t at same e fd_out',
      record {
        entries =
            All-IsEntry-serve s.args s.open_fds fd p (xs ++ ys) fd_out' ptr_out'
              (All-drop (IsEntry s.args s.open_fds) xs (fd, p) ys entries);
        fds_distinct = subst Distinct (sym (fds-append xs ys)) fds_distinct;
        ptrs_distinct = subst Distinct (sym (ptrs-append xs ys)) ptrs_distinct;
        counted = λ k.
            v.counted k
            ∙ one_called k a at e
            ∙ ap (λ es. count k (cbs (s.calls ++ answer ∷ [])) + count k es)
                (sym (pending-update s.args p none (xs ++ ys) ptr_out'));
      },
      refl,
      length_calls s.calls answer,
    )
  where
    serve_run :
        (a : EpArg) (t : Context)
        → s.args p ≡ some a
        → a.sockfd ≡ fd
        → s.epoll ≡ xs ++ (fd, p) ∷ ys
        → Out fd (fds (xs ++ ys))
        → serve s p r
          ≡ ok (record {
            calls =
                s.calls
                ++ record { cb = a.cb; hostname = a.hostname; resource = text_in (recv_buffer r) }
                  ∷ [];
            epoll = xs ++ ys;
            open_fds = close fd s.open_fds;
            args = update s.args p none;
          })
    serve_run a t at same e o = rw (serve, at, same, e, unwatch-middle fd p xs ys o) refl

    one_called :
        (k : ℕ) (a : EpArg)
        → s.args p ≡ some a
        → s.epoll ≡ xs ++ (fd, p) ∷ ys
        → count k (cbs s.calls) + count k (pending s.args s.epoll)
          ≡ count k (
              cbs (
                s.calls
                ++ record { cb = a.cb; hostname = a.hostname; resource = text_in (recv_buffer r) }
                  ∷ []))
            + count k (pending s.args (xs ++ ys))
    one_called k a at e =
        let answer : Call = record {
          cb = a.cb;
          hostname = a.hostname;
          resource = text_in (recv_buffer r);
        } in
        let here : cb_of (s.args p) ≡ a.cb ∷ [] = ap cb_of at in
        rw (e, cbs-append s.calls answer)
          (omega (
            arith,
            count-append k (cbs s.calls) (a.cb ∷ []),
            pending-append s.args xs ((fd, p) ∷ ys) k,
            pending-append s.args xs ys k,
            count-append k (cb_of (s.args p)) (pending s.args ys),
            ap (count k) here,
          ))
