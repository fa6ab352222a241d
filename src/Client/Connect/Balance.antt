-- ===== src/Client/Connect/Balance.antt =====
-- No socket is lost by `connect_to_server`: all but the one that it returns are closed.
use concurrent_tcp_file_tran.Base.{
  ℕ, [], ◌∷◌, ◌++◌, ◌≡◌, ◌∙◌, ap, sym, List, Option, none, some, Bytes, inl, inr, append-nil,
  Bool-cases,
}
use concurrent_tcp_file_tran.Exec.{returned_both, >>=-eq-some}
use concurrent_tcp_file_tran.Number.{to_string}
use concurrent_tcp_file_tran.Os.{Os}
use concurrent_tcp_file_tran.Sockets.{Sockets, Opening, held, call, open_socket, close_socket}
use concurrent_tcp_file_tran.Sockets.Balance.{
  Balance, Balance-refl, passed, call-Same, opened_by, closed_by, resumed,
}
use concurrent_tcp_file_tran.Client.Connect.{
  try_server, try_servers, connect_to_one, connect_to_server,
}

module _ {os : Os} where
  try_server-Balance :
      (others : Opening os (Option ℕ)) (candidate : os.Address) (fd : Option ℕ)
      (s t s' : Sockets os) (r : Option ℕ)
      → ((u u' : Sockets os) (r' : Option ℕ) → others u ≡ some (r', u') → Balance (held r') u u')
      → t.opened ≡ s.opened ++ held fd
      → t.closed ≡ s.closed
      → try_server others candidate fd t ≡ some (r, s')
      → Balance (held r) s s'
  unfolding try_server
  try_server-Balance others candidate none s t s' r next o c e =
      resumed (held r) s t s' (o ∙ append-nil s.opened) c (next t s' r e)
  try_server-Balance others candidate (some fd) s t s' r next o c e =
      let (connected, u, connecting, e1) = >>=-eq-some (call (os.connect fd candidate)) _ t e in
      let (o', c') = call-Same (os.connect fd candidate) t u connected connecting in
      elim (Bool-cases connected) [
        | inl done ↦
            returned_both (λ r' v. Balance (held r') s v) (some fd) r u s' (rw done at e1)
              (record {
                passing = [];
                opened = rw append-nil (o' ∙ o);
                closed = c' ∙ c ∙ sym (append-nil s.closed);
              })
        | inr failed ↦
            let (y, v, closing, e2) =
              >>=-eq-some (close_socket fd) (λ x. others) u (rw failed at e1) in
            let (still, gone) = closed_by fd u v y closing in
            passed fd (held r) s v s' (still ∙ o' ∙ o) (gone ∙ ap (λ l. l ++ fd ∷ []) (c' ∙ c))
              (next v s' r e2)
      ]

  try_servers-Balance :
      (candidates : List os.Address) (s s' : Sockets os) (r : Option ℕ)
      → try_servers candidates s ≡ some (r, s')
      → Balance (held r) s s'
  unfolding try_servers
  try_servers-Balance [] s s' r e =
      returned_both (λ r' v. Balance (held r') s v) none r s s' e (Balance-refl s)
  try_servers-Balance (candidate ∷ candidates) s s' r e =
      let (fd, t, socket, e1) =
        >>=-eq-some (open_socket candidate) (try_server (try_servers candidates) candidate) s e in
      let (o, c) = opened_by candidate s t fd socket in
      try_server-Balance (try_servers candidates) candidate fd s t s' r
        (try_servers-Balance candidates) o c e1

  connect_to_one-Balance :
      (results : Option (List os.Address)) (s s' : Sockets os) (r : Option ℕ)
      → connect_to_one results s ≡ some (r, s')
      → Balance (held r) s s'
  unfolding connect_to_one
  connect_to_one-Balance none s s' r e =
      returned_both (λ r' v. Balance (held r') s v) none r s s' e (Balance-refl s)
  connect_to_one-Balance (some results) s s' r e = try_servers-Balance results s s' r e

  -- What was opened and is not returned is closed.
  pub connect_to_server-Balance :
      (host : Bytes) (port : ℕ) (s s' : Sockets os) (r : Option ℕ)
      → connect_to_server host port s ≡ some (r, s')
      → Balance (held r) s s'
  unfolding connect_to_server
  connect_to_server-Balance host port s s' r e =
      let resolving = os.resolve host (to_string port) in
      let (results, t, resolved, e1) = >>=-eq-some (call resolving) connect_to_one s e in
      let (o, c) = call-Same resolving s t results resolved in
      resumed (held r) s t s' o c (connect_to_one-Balance results t s' r e1)
