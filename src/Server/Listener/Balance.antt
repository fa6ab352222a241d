-- ===== src/Server/Listener/Balance.antt =====
-- No socket is lost by `create_listener`: all but the one that it returns are closed.
use concurrent_tcp_file_tran.Base.{
  ℕ, [], ◌∷◌, ◌++◌, ◌≡◌, ◌∙◌, ap, sym, List, Bool, false, Option, none, some, Bytes, inl, inr,
  append-nil, Bool-cases,
}
use concurrent_tcp_file_tran.Exec.{returned_both, returned_state, pure, >>=-eq-some, lift-eq-some}
use concurrent_tcp_file_tran.Number.{to_string}
use concurrent_tcp_file_tran.Os.{Os, SocketName, inet, inet6, other_family}
use concurrent_tcp_file_tran.Server.Loop.{set_nonblocking}
use concurrent_tcp_file_tran.Sockets.{Sockets, Opening, held, call, open_socket, close_socket}
use concurrent_tcp_file_tran.Sockets.Balance.{
  Balance, Same, Balance-refl, passed, call-Same, Same-trans, opened_by, closed_by, dropped,
  resumed,
}
use concurrent_tcp_file_tran.Server.Listener.{
  alone, Listener, make_nonblocking, prepare, try_candidate, try_candidates, with_name,
  name_listener, listen_on, create_listener,
}

abbrev pub listening : Option Listener → List ℕ
listening none = []
listening (some listener) = listener.fd ∷ []

module _ {os : Os} where
  make_nonblocking-Same :
      (fd : ℕ) (s s' : Sockets os) (r : Bool) → make_nonblocking fd s ≡ some (r, s') → Same s s'
  unfolding make_nonblocking
  make_nonblocking-Same fd s s' r e =
      let (b, common, done, is) =
        lift-eq-some (set_nonblocking fd (alone {os = os} s.world))
          (λ b common. (b, record s { world = common.world })) e in
      (cc, cc)

  prepare-Same :
      (fd : ℕ) (address : os.Address) (s s' : Sockets os) (r : Bool)
      → prepare fd address s ≡ some (r, s')
      → Same s s'
  unfolding prepare
  prepare-Same fd address s s' r e =
      let (bound, t, binding, e1) = >>=-eq-some (call (os.bind fd address)) _ s e in
      let b = call-Same (os.bind fd address) s t bound binding in
      elim (Bool-cases bound) [
        | inr unbound ↦ returned_state (Same s) false r t s' (rw unbound at e1) b
        | inl is_bound ↦
            let (heard, u, listens, e2) =
              >>=-eq-some (call (os.listen fd)) _ t (rw is_bound at e1) in
            let l = Same-trans s t u b (call-Same (os.listen fd) t u heard listens) in
            elim (Bool-cases heard) [
              | inr deaf ↦ returned_state (Same s) false r u s' (rw deaf at e2) l
              | inl hears ↦ Same-trans s u s' l (make_nonblocking-Same fd u s' r (rw hears at e2))
            ]
      ]

  try_candidate-Balance :
      (others : Opening os (Option ℕ)) (candidate : os.Address) (fd : Option ℕ)
      (s t s' : Sockets os) (r : Option ℕ)
      → ((u u' : Sockets os) (r' : Option ℕ) → others u ≡ some (r', u') → Balance (held r') u u')
      → t.opened ≡ s.opened ++ held fd
      → t.closed ≡ s.closed
      → try_candidate others candidate fd t ≡ some (r, s')
      → Balance (held r) s s'
  unfolding try_candidate close_socket
  try_candidate-Balance others candidate none s t s' r next o c e =
      resumed (held r) s t s' (o ∙ append-nil s.opened) c (next t s' r e)
  try_candidate-Balance others candidate (some fd) s t s' r next o c e =
      let reuse : os.World → Unit {0} × os.World = λ w. (tt, os.reuse_address fd w) in
      let (x, t1, reusing, e1) = >>=-eq-some (call reuse) _ t e in
      let (prepared, t2, preparing, e2) = >>=-eq-some (prepare fd candidate) _ t1 e1 in
      let (o', c') =
        Same-trans t t1 t2 (call-Same reuse t t1 x reusing)
          (prepare-Same fd candidate t1 t2 prepared preparing) in
      elim (Bool-cases prepared) [
        | inl ready ↦
            returned_both (λ r' v. Balance (held r') s v) (some fd) r t2 s' (rw ready at e2)
              (record {
                passing = [];
                opened = rw append-nil (o' ∙ o);
                closed = c' ∙ c ∙ sym (append-nil s.closed);
              })
        | inr failed ↦
            let (y, t3, closing, e3) =
              >>=-eq-some (close_socket fd) (λ v. others) t2 (rw failed at e2) in
            let (still, gone) = closed_by fd t2 t3 y closing in
            passed fd (held r) s t3 s' (still ∙ o' ∙ o) (gone ∙ ap (λ l. l ++ fd ∷ []) (c' ∙ c))
              (next t3 s' r e3)
      ]

  pub try_candidates-Balance :
      (candidates : List os.Address) (s s' : Sockets os) (r : Option ℕ)
      → try_candidates candidates s ≡ some (r, s')
      → Balance (held r) s s'
  unfolding try_candidates open_socket
  try_candidates-Balance [] s s' r e =
      returned_both (λ r' v. Balance (held r') s v) none r s s' e (Balance-refl s)
  try_candidates-Balance (candidate ∷ candidates) s s' r e =
      let (fd, t, socket, e1) =
        >>=-eq-some (open_socket candidate) (try_candidate (try_candidates candidates) candidate) s
          e in
      let (o, c) = opened_by candidate s t fd socket in
      try_candidate-Balance (try_candidates candidates) candidate fd s t s' r
        (try_candidates-Balance candidates) o c e1

  with_name-Balance :
      (fd : ℕ) (name : Option SocketName) (s t s' : Sockets os) (r : Option Listener)
      → Balance (fd ∷ []) s t
      → with_name fd name t ≡ some (r, s')
      → Balance (listening r) s s'
  unfolding with_name
  with_name-Balance fd none s t s' r b e =
      let (u, t', closing, e1) = >>=-eq-some (close_socket fd) (λ v. pure none) t e in
      returned_both (λ r' v. Balance (listening r') s v) none r t' s' e1
        (dropped fd s t t' u b closing)
  with_name-Balance fd (some (inet port)) s t s' r b e =
      returned_both (λ r' v. Balance (listening r') s v) _ r t s' e b
  with_name-Balance fd (some (inet6 port)) s t s' r b e =
      returned_both (λ r' v. Balance (listening r') s v) _ r t s' e b
  with_name-Balance fd (some other_family) s t s' r b e =
      let (u, t', closing, e1) = >>=-eq-some (close_socket fd) (λ v. pure none) t e in
      returned_both (λ r' v. Balance (listening r') s v) none r t' s' e1
        (dropped fd s t t' u b closing)

  name_listener-Balance :
      (fd : Option ℕ) (s t s' : Sockets os) (r : Option Listener)
      → Balance (held fd) s t
      → name_listener fd t ≡ some (r, s')
      → Balance (listening r) s s'
  unfolding name_listener
  name_listener-Balance none s t s' r b e =
      returned_both (λ r' v. Balance (listening r') s v) none r t s' e b
  name_listener-Balance (some fd) s t s' r b e =
      let (name, u, named, e1) = >>=-eq-some (call (os.getsockname fd)) (with_name fd) t e in
      let (o, c) = call-Same (os.getsockname fd) t u name named in
      with_name-Balance fd name s u s' r
        (record { passing = b.passing; opened = o ∙ b.opened; closed = c ∙ b.closed }) e1

  -- Where create_listener returns, whatever the system calls answer, the sockets that it opened are
  -- those that it closed, in the same order, and behind them the one of the listener, if it
  -- returned one.
  pub create_listener-Balance :
      (bind_address : Bytes) (port : ℕ) (s s' : Sockets os) (r : Option Listener)
      → create_listener bind_address port s ≡ some (r, s')
      → Balance (listening r) s s'
  unfolding create_listener listen_on
  create_listener-Balance bind_address port s s' r e =
      let resolving = os.resolve bind_address (to_string port) in
      let (results, t, resolved, e1) = >>=-eq-some (call resolving) listen_on s e in
      let (o, c) = call-Same resolving s t results resolved in from results t o c e1
    where
      from :
          (results : Option (List os.Address)) (t : Sockets os)
          → t.opened ≡ s.opened
          → t.closed ≡ s.closed
          → listen_on results t ≡ some (r, s')
          → Balance (listening r) s s'
      from none t o c e1 =
          returned_both (λ r' v. Balance (listening r') s v) none r t s' e1
            (record { passing = []; opened = simp (append-nil, o); closed = simp (append-nil, c) })
      from (some results) t o c e1 =
          let (fd, u, tried, e2) = >>=-eq-some (try_candidates results) name_listener t e1 in
          let b = try_candidates-Balance results t u fd tried in
          name_listener-Balance fd s u s' r (resumed (held fd) s t u o c b) e2
