-- ===== src/Server/Loop/Clients.antt =====
-- The loops over the clients that are there return.
use concurrent_tcp_file_tran.Base.{
  ℕ, ◌≤◌, ◌-◌, [], ◌∷◌, ◌≢◌, List, none, Bytes, arith, inl, inr, All, Bool-cases, ltb,
}
use concurrent_tcp_file_tran.Exec.{Exec, lift-ne-none, ◌>>=◌, pure}
use concurrent_tcp_file_tran.Os.{Os, Events, Bounded, Patient}
use concurrent_tcp_file_tran.Server.Session.{Handler}
use concurrent_tcp_file_tran.Server.Calls.{
  update, get_client, call_close, close_input, close_output, remove_file,
}
use concurrent_tcp_file_tran.Server.Reply.{close_client, remove_temporary_file}
use concurrent_tcp_file_tran.Server.Conversation.{serve_event}
use concurrent_tcp_file_tran.Server.Total.{Always, bind-ne-none}
use concurrent_tcp_file_tran.Server.Total.Flushing.{enough}
use concurrent_tcp_file_tran.Server.Total.Conversation.{serve_event-Returns}
use concurrent_tcp_file_tran.Server.Story.{Told}
use concurrent_tcp_file_tran.Server.Loop.{
  Slot, Common, idle_timeout, no_event, first_events, other_events, with_slot, expire_slot, expire,
  serve_slot, serve_clients, close_all,
}
use concurrent_tcp_file_tran.Server.Loop.Slots.{session_of}

-- A client is as its state in the protocol says.
abbrev pub IsTold : Bytes → Slot → Type 0
IsTold root slot = Told root slot.client slot.history

each-ne-none :
    {S A : Type 0} (m : Exec S A) (ms : Exec S (List A)) (s : S)
    → m s ≢ none
    → ((t : S) → ms t ≢ none)
    → (do x ← m; xs ← ms; pure (x ∷ xs)) s ≢ none
each-ne-none m ms s first rest =
    bind-ne-none m (λ x. ms >>= λ xs. pure (x ∷ xs)) s first
      (λ x t e. bind-ne-none ms (λ xs. pure (x ∷ xs)) t (rest t) (λ xs u e1 e2. cc))

module _ {os : Os} where
  with_slot-ne-none :
      {A : Type 0} (m : Handler os A) (slot : Slot) (s : Common os)
      → m (session_of slot s) ≢ none
      → with_slot m slot s ≢ none
  unfolding with_slot
  with_slot-ne-none m slot s h =
      lift-ne-none (m (session_of slot s))
        (λ a t. (
          record { client = t.client; history = t.history },
          record { upload_sequence = t.upload_sequence; world = t.world },
        ))
        h

  close_client-Always : Always os close_client
  unfolding close_client remove_temporary_file update get_client call_close close_input close_output
      remove_file
  close_client-Always s = ground arith

  expire_slot-Returns : (now : ℕ) (slot : Slot) (s : Common os) → expire_slot now slot s ≢ none
  unfolding expire_slot
  expire_slot-Returns now slot s =
      elim (Bool-cases (ltb idle_timeout (now - slot.client.last_activity))) [
        | inl late ↦
            rw late
              (with_slot-ne-none close_client slot s (close_client-Always (session_of slot s)))
        | inr active ↦ rw active (λ e. cc)
      ]

  pub expire-Returns : (now : ℕ) (slots : List Slot) (s : Common os) → expire now slots s ≢ none
  unfolding expire
  expire-Returns now [] s e = cc
  expire-Returns now (slot ∷ slots) s e =
      each-ne-none (expire_slot now slot) (expire now slots) s (expire_slot-Returns now slot s)
        (expire-Returns now slots) e

  pub close_all-Returns : (slots : List Slot) (s : Common os) → close_all slots s ≢ none
  unfolding close_all
  close_all-Returns [] s e = cc
  close_all-Returns (slot ∷ slots) s e =
      each-ne-none (with_slot close_client slot) (close_all slots) s
        (with_slot-ne-none close_client slot s (close_client-Always (session_of slot s)))
        (close_all-Returns slots) e

module _ {os : Os} (root : Bytes) (bounded : Bounded os) (patient : Patient os) where
  serve_slot-Returns :
      (fuel : ℕ) (revents : Events) (slot : Slot) (s : Common os)
      → enough patient ≤ fuel
      → IsTold root slot
      → serve_slot fuel root revents slot s ≢ none
  unfolding serve_slot
  serve_slot-Returns fuel revents slot s h v = elim (Bool-cases (no_event revents)) [
    | inl quiet ↦ rw quiet (λ e. cc)
    | inr some_event ↦ rw some_event (
        with_slot-ne-none (serve_event fuel root revents) slot s
          (serve_event-Returns root bounded patient fuel revents (session_of slot s) h v))
  ]

  pub serve_clients-Returns :
      (fuel : ℕ) (revents : List Events) (slots : List Slot) (s : Common os)
      → enough patient ≤ fuel
      → All (IsTold root) slots
      → serve_clients fuel root revents slots s ≢ none
  unfolding serve_clients
  serve_clients-Returns fuel revents [] s h v e = cc
  serve_clients-Returns fuel revents (slot ∷ slots) s h v e =
      each-ne-none (serve_slot fuel root (first_events revents) slot)
        (serve_clients fuel root (other_events revents) slots) s
        (serve_slot-Returns fuel (first_events revents) slot s h v.0)
        (λ t. serve_clients-Returns fuel (other_events revents) slots t h v.1) e
