-- ===== src/Server/Loop/Total.antt =====
-- The loops over the clients return.
use concurrent_tcp_file_tran.Base.{
  ℕ, zero, suc, ◌≤◌, ◌<◌, [], ◌∷◌, ◌++◌, ◌≡◌, ◌≢◌, List, Bool, true, false, Option, none, some,
  arith, refl, leb, length, if◌then◌else◌, not,
}
use concurrent_tcp_file_tran.Exec.{◌>>=◌, ◌>>◌, pure}
use concurrent_tcp_file_tran.Os.{
  Os, Accepted, accepted, accept_error, eintr, eagain, ewouldblock, other, Backlog,
}
use concurrent_tcp_file_tran.Server.Loop.Kept.{new_slot}
use concurrent_tcp_file_tran.Server.Total.{bind-ne-none}
use concurrent_tcp_file_tran.Server.Loop.{
  Slot, Common, Shared, max_clients, call_accept, clock, close_descriptor, get_flags, set_flags,
  set_nonblocking, admit, after_accept, accept_connections,
}

module _ {os : Os} (backlog : Backlog os) where
  -- A step that returns, and by which no new connection comes.
  abbrev Settles : {A : Type 0} → Shared os A → Type 0
  Settles {A} m =
      (s : Common os)
      → (a : A) × (t : Common os) × (m s ≡ some (a, t))
        × (backlog.waiting t.world ≤ backlog.waiting s.world)

  pure-Settles : {A : Type 0} (a : A) → Settles (pure a)
  pure-Settles a s = (a, s, refl, omega arith)

  if-Settles :
      {A : Type 0} (b : Bool) (m n : Shared os A)
      → Settles m
      → Settles n
      → Settles (if b then m else n)
  if-Settles true m n hm hn = hm
  if-Settles false m n hm hn = hn

  >>=-Settles :
      {A B : Type 0} (m : Shared os A) (f : A → Shared os B)
      → Settles m
      → ((a : A) → Settles (f a))
      → Settles (m >>= f)
  >>=-Settles m f hm hf s =
      let (a, t, first, less) = hm s in
      let (b, u, second, less') = hf a t in
      (b, u, rw (◌>>=◌, first) second, omega (arith, less, less'))

  >>-Settles :
      {A : Type 0} (m : Shared os (Unit {0})) (n : Shared os A)
      → Settles m
      → Settles n
      → Settles (m >> n)
  >>-Settles m n hm hn s = >>=-Settles m (λ u. n) hm (λ u. hn) s

  set_flags-Settles : (fd : ℕ) (flags : Option ℕ) → Settles (set_flags fd flags)
  unfolding set_flags
  set_flags-Settles fd none s = pure-Settles false s
  set_flags-Settles fd (some flags) s = (_, _, refl, backlog.set_flags_keeps fd _ s.world)

  close-Settles : (fd : ℕ) → Settles (close_descriptor fd)
  unfolding close_descriptor
  close-Settles fd s = (tt, _, refl, backlog.close_keeps (some fd) s.world)

  -- A connection is admitted or closed.
  admit-Settles : (clients : List Slot) (fd : ℕ) → Settles (admit clients fd)
  unfolding admit clock set_nonblocking get_flags
  admit-Settles clients fd =
      let turned_away =
        >>-Settles (close_descriptor fd) (pure clients) (close-Settles fd) (pure-Settles clients) in
      if-Settles (leb max_clients (length clients)) (close_descriptor fd >> pure clients) _
        turned_away
        (>>=-Settles (set_nonblocking fd) _
          (>>=-Settles (get_flags fd) (set_flags fd)
            (λ s. (_, _, refl, backlog.get_flags_keeps fd s.world)) (set_flags-Settles fd))
          (λ nonblocking.
            if-Settles (not nonblocking) (close_descriptor fd >> pure clients) _ turned_away (
              >>=-Settles clock _ (λ s. (_, _, refl, backlog.now_keeps s.world))
                (λ now. pure-Settles (clients ++ new_slot fd now ∷ [])))))

  after_accept-Returns :
      (fuel : ℕ) (again : List Slot → Shared os (List Slot)) (clients : List Slot)
      (answer : Accepted) (s t : Common os)
      → ((xs : List Slot) (u : Common os) → backlog.waiting u.world < fuel → again xs u ≢ none)
      → ((fd : ℕ) → answer ≡ accepted fd → backlog.waiting t.world < backlog.waiting s.world)
      → (answer ≡ accept_error eintr → backlog.waiting t.world < backlog.waiting s.world)
      → backlog.waiting s.world < suc fuel
      → after_accept again clients answer t ≢ none
  unfolding after_accept
  after_accept-Returns fuel again clients (accepted fd) s t next fewer fewer' h e =
      bind-ne-none (admit clients fd) again t
        (let (xs, u, e, less) = admit-Settles clients fd t in λ e'. cc)
        (λ xs u e1. next xs u (
          let (xs', u', e', less) = admit-Settles clients fd t in
          let same : u ≡ u' = cc in rw same (omega (arith, less, fewer fd refl, h))))
        e
  after_accept-Returns fuel again clients (accept_error eintr) s t next fewer fewer' h e =
      next clients t (omega (arith, fewer' refl, h)) e
  after_accept-Returns fuel again clients (accept_error eagain) s t next fewer fewer' h e = cc
  after_accept-Returns fuel again clients (accept_error ewouldblock) s t next fewer fewer' h e = cc
  after_accept-Returns fuel again clients (accept_error other) s t next fewer fewer' h e = cc

  pub accept_connections-Returns :
      (fuel listener : ℕ) (clients : List Slot) (s : Common os)
      → backlog.waiting s.world < fuel
      → accept_connections fuel listener clients s ≢ none
  unfolding accept_connections call_accept
  accept_connections-Returns zero listener clients s h = absurd (omega arith)
  accept_connections-Returns (suc fuel) listener clients s h =
      after_accept-Returns fuel (accept_connections fuel listener) clients
        (os.accept listener s.world).0 s (record s { world = (os.accept listener s.world).1 })
        (accept_connections-Returns fuel listener) (backlog.accept_lowers listener s.world)
        (backlog.accept_interrupted listener s.world) h
