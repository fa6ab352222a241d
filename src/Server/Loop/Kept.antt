-- ===== src/Server/Loop/Kept.antt =====
-- What the loops over the clients keep: a predicate of one client that starts with a new client and
-- that no handler breaks holds of all of them.
use concurrent_tcp_file_tran.Base.{
  ℕ, [], ◌∷◌, ◌≡◌, List, true, false, some, Bytes, inl, inr, All, Bool-cases, ltb, ◌-◌,
}
use concurrent_tcp_file_tran.Exec.{returned_value, Exec, ◌>>=◌, pure, >>=-eq-some}
use concurrent_tcp_file_tran.Os.{Os, Events}
use concurrent_tcp_file_tran.Server.Session.{new_client, no_history}
use concurrent_tcp_file_tran.Server.Reply.{close_client}
use concurrent_tcp_file_tran.Server.Conversation.{serve_event}
use concurrent_tcp_file_tran.Server.Loop.{
  Slot, Common, Shared, idle_timeout, is_closed, remaining, erased, no_event, first_events,
  other_events, with_slot, expire_slot, expire, serve_slot, serve_clients, close_all,
}

abbrev pub new_slot : ℕ → ℕ → Slot
new_slot fd now = record { client = new_client fd now; history = no_history }

abbrev pub IsNew : Slot → Type 0
IsNew slot = (fd : ℕ) × (now : ℕ) × (slot ≡ new_slot fd now)

abbrev pub IsOpen : Slot → Type 0
IsOpen slot = is_closed slot ≡ false

abbrev pub IsClosed : Slot → Type 0
IsClosed slot = is_closed slot ≡ true

-- One client's part of a loop, then the rest.
pub each-eq-some :
    {S A : Type 0} (m : Exec S A) (ms : Exec S (List A)) (s s' : S) (r : List A)
    → (do x ← m; xs ← ms; pure (x ∷ xs)) s ≡ some (r, s')
    → (x : A) × (xs : List A) × (t : S) × (m s ≡ some (x, t))
      × (ms t ≡ some (xs, s'))
      × (r ≡ x ∷ xs)
each-eq-some m ms s s' r e =
    let (x, t, first, e1) = >>=-eq-some m (λ x. ms >>= λ xs. pure (x ∷ xs)) s e in
    let (xs, u, rest, e2) = >>=-eq-some ms (λ xs. pure (x ∷ xs)) t e1 in (x, xs, t, first, cc, cc)

module _ {os : Os} (I : Slot → Type 0) where
  -- A step of one client that keeps the predicate.
  abbrev pub KeepsOne : (Slot → Shared os Slot) → Type 0
  KeepsOne step =
      (slot slot' : Slot) (s s' : Common os)
      → I slot
      → IsOpen slot
      → step slot s ≡ some (slot', s')
      → I slot'

-- A predicate that a new client has, and that neither closing an open client nor an event on one
-- takes away.
pub record Kept (os : Os) (fuel : ℕ) (root : Bytes) (I : Slot → Type 0) : Type 0 where
  pub fresh : (fd now : ℕ) (w : os.World) → I (new_slot fd now)
  pub closed : KeepsOne {os = os} I (with_slot close_client)
  pub served : (revents : Events) → KeepsOne {os = os} I (with_slot (serve_event fuel root revents))

module _ (I : Slot → Type 0) where
  pub remaining-All : (slots : List Slot) → All I slots → All I (remaining slots)
  unfolding remaining
  remaining-All [] h = tt
  remaining-All (slot ∷ slots) h = elim (Bool-cases (is_closed slot)) [
    | inl gone ↦ rw gone (remaining-All slots h.1)
    | inr stays ↦ rw stays (h.0, remaining-All slots h.1)
  ]

  pub erased-All : (slots : List Slot) → All I slots → All I (erased slots)
  unfolding erased
  erased-All [] h = tt
  erased-All (slot ∷ slots) h = elim (Bool-cases (is_closed slot)) [
    | inl gone ↦ rw gone (h.0, erased-All slots h.1)
    | inr stays ↦ rw stays (erased-All slots h.1)
  ]

module _ {os : Os} {fuel : ℕ} {root : Bytes} {I : Slot → Type 0} (kept : Kept os fuel root I) where
  -- A loop over the clients that keeps the predicate.
  abbrev pub KeepsAll : (List Slot → Shared os (List Slot)) → Type 0
  KeepsAll step =
      (slots slots' : List Slot) (s s' : Common os)
      → All I slots
      → All IsOpen slots
      → step slots s ≡ some (slots', s')
      → All I slots'

  expire_slot-One : (now : ℕ) → KeepsOne {os = os} I (expire_slot now)
  unfolding expire_slot
  expire_slot-One now slot slot' s s' h o e =
      elim (Bool-cases (ltb idle_timeout (now - slot.client.last_activity))) [
        | inl late ↦ kept.closed slot slot' s s' h o (rw late at e)
        | inr active ↦ returned_value I slot slot' s s' (rw active at e) h
      ]

  pub expire-All : (now : ℕ) → KeepsAll (expire now)
  unfolding expire
  expire-All now [] slots' s s' h o e = returned_value (All I) [] slots' s s' e h
  expire-All now (slot ∷ slots) slots' s s' h o e =
      let (x, xs, t, one, rest, is) =
        each-eq-some (expire_slot now slot) (expire now slots) s s' slots' e in
      rw is (expire_slot-One now slot x s t h.0 o.0 one, expire-All now slots xs t s' h.1 o.1 rest)

  serve_slot-One : (revents : Events) → KeepsOne {os = os} I (serve_slot fuel root revents)
  unfolding serve_slot
  serve_slot-One revents slot slot' s s' h o e = elim (Bool-cases (no_event revents)) [
    | inl quiet ↦ returned_value I slot slot' s s' (rw quiet at e) h
    | inr some_event ↦ kept.served revents slot slot' s s' h o (rw some_event at e)
  ]

  pub serve_clients-All : (revents : List Events) → KeepsAll (serve_clients fuel root revents)
  unfolding serve_clients
  serve_clients-All revents [] slots' s s' h o e = returned_value (All I) [] slots' s s' e h
  serve_clients-All revents (slot ∷ slots) slots' s s' h o e =
      let (x, xs, t, one, rest, is) =
        each-eq-some (serve_slot fuel root (first_events revents) slot)
          (serve_clients fuel root (other_events revents) slots) s s' slots' e in
      rw is (
        serve_slot-One (first_events revents) slot x s t h.0 o.0 one,
        serve_clients-All (other_events revents) slots xs t s' h.1 o.1 rest,
      )

  pub close_all-All : KeepsAll close_all
  unfolding close_all
  close_all-All [] slots' s s' h o e = returned_value (All I) [] slots' s s' e h
  close_all-All (slot ∷ slots) slots' s s' h o e =
      let (x, xs, t, one, rest, is) =
        each-eq-some (with_slot close_client slot) (close_all slots) s s' slots' e in
      rw is (kept.closed slot x s t h.0 o.0 one, close_all-All slots xs t s' h.1 o.1 rest)

  pub news-All : (w : os.World) (slots : List Slot) → All IsNew slots → All I slots
  news-All w [] h = tt
  news-All w (slot ∷ slots) ((fd, now, is), rest) =
      (rw is (kept.fresh fd now w), news-All w slots rest)
