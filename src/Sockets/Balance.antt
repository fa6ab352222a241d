-- ===== src/Sockets/Balance.antt =====
-- Sockets that a program opens and closes while it starts.
use concurrent_tcp_file_tran.Base.{
  ℕ, [], ◌∷◌, ◌++◌, ◌≡◌, ◌∙◌, ap, sym, List, Option, some, append-nil, append_assoc,
}
use concurrent_tcp_file_tran.Os.{Os}
use concurrent_tcp_file_tran.Sockets.{Sockets, held, call, open_socket, close_socket}

-- The sockets that were opened are those that were closed, in the same order, and those held.
pub record Balance {os : Os} (held : List ℕ) (s s' : Sockets os) : Type 0 where
  pub passing : List ℕ
  pub opened : s'.opened ≡ s.opened ++ passing ++ held
  pub closed : s'.closed ≡ s.closed ++ passing

module _ {os : Os} where
  abbrev pub Same : Sockets os → Sockets os → Type 0
  Same s s' = (s'.opened ≡ s.opened) × (s'.closed ≡ s.closed)

  pub Balance-refl : (s : Sockets os) → Balance [] s s
  Balance-refl s = record {
    passing = [];
    opened = simp append-nil;
    closed = sym (append-nil s.closed);
  }

  -- A socket that was opened and closed.
  pub passed :
      (fd : ℕ) (held' : List ℕ) (s t u : Sockets os)
      → t.opened ≡ s.opened ++ fd ∷ []
      → t.closed ≡ s.closed ++ fd ∷ []
      → Balance held' t u
      → Balance held' s u
  passed fd held' s t u o c b = record {
    passing = fd ∷ b.passing;
    opened = b.opened ∙ ap (λ l. l ++ b.passing ++ held') o ∙ simp append_assoc;
    closed = b.closed ∙ ap (λ l. l ++ b.passing) c ∙ simp append_assoc;
  }

  -- Calls that open and close none come before.
  pub resumed :
      (held' : List ℕ) (s t u : Sockets os)
      → t.opened ≡ s.opened
      → t.closed ≡ s.closed
      → Balance held' t u
      → Balance held' s u
  resumed held' s t u o c b = record {
    passing = b.passing;
    opened = b.opened ∙ ap (λ l. l ++ b.passing ++ held') o;
    closed = b.closed ∙ ap (λ l. l ++ b.passing) c;
  }

  pub call-Same :
      {A : Type 0} (f : os.World → A × os.World) (s s' : Sockets os) (a : A)
      → call f s ≡ some (a, s')
      → Same s s'
  unfolding call
  call-Same f s s' a e = (cc, cc)

  pub Same-trans : (s t u : Sockets os) → Same s t → Same t u → Same s u
  Same-trans s t u (o, c) (o', c') = (o' ∙ o, c' ∙ c)

  pub opened_by :
      (address : os.Address) (s t : Sockets os) (fd : Option ℕ)
      → open_socket address s ≡ some (fd, t)
      → (t.opened ≡ s.opened ++ held fd) × (t.closed ≡ s.closed)
  unfolding open_socket
  opened_by address s t fd e =
      let got : (os.socket address s.world).0 ≡ fd = cc in
      let more : t.opened ≡ s.opened ++ held (os.socket address s.world).0 = cc in
      (rw got at more, cc)

  pub closed_by :
      (fd : ℕ) (s t : Sockets os) (u : Unit {0})
      → close_socket fd s ≡ some (u, t)
      → (t.opened ≡ s.opened) × (t.closed ≡ s.closed ++ fd ∷ [])
  unfolding close_socket
  closed_by fd s t u e = (cc, cc)

  -- The socket that was held, closed.
  pub dropped :
      (fd : ℕ) (s t s' : Sockets os) (u : Unit {0})
      → Balance (fd ∷ []) s t
      → close_socket fd t ≡ some (u, s')
      → Balance [] s s'
  unfolding close_socket
  dropped fd s t s' u b e =
      let (still, gone) = closed_by fd t s' u e in
      record {
        passing = b.passing ++ fd ∷ [];
        opened = rw append-nil (still ∙ b.opened ∙ append_assoc s.opened b.passing (fd ∷ []));
        closed = gone ∙ ap (λ l. l ++ fd ∷ []) b.closed ∙ append_assoc s.closed b.passing (fd ∷ []);
      }
