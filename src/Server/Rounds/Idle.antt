-- ===== src/Server/Rounds/Idle.antt =====
-- The start of a round: which clients stay.
use concurrent_tcp_file_tran.Base.{
  ℕ, ◌-◌, [], ◌∷◌, ◌≡◌, ◌∙◌, List, some, refl, inl, inr, All, Bool-cases, ltb, if◌then◌else◌,
}
use concurrent_tcp_file_tran.Exec.{returned_value, >>=-eq-some}
use concurrent_tcp_file_tran.Os.{Os}
use concurrent_tcp_file_tran.Server.Reply.{close_client}
use concurrent_tcp_file_tran.Server.Loop.{
  Slot, Common, Server, idle_timeout, is_closed, remaining, expire_slot, expire, clock,
}
use concurrent_tcp_file_tran.Server.Loop.Kept.{IsOpen, each-eq-some}
use concurrent_tcp_file_tran.Server.Loop.Slots.{session_of, with_slot-eq-some}
use concurrent_tcp_file_tran.Server.Loop.Counting.{close_client-closed}
use concurrent_tcp_file_tran.Server.Rounds.{on_clients, on_common, erase_closed, expire_clients}
use concurrent_tcp_file_tran.Server.Rounds.Steps.{on_clients-eq-some, on_common-eq-some}

-- The clients that were active within the last minute, as they are.
unfoldable pub active : ℕ → List Slot → List Slot
active now [] = []
active now (slot ∷ slots) =
    let rest = active now slots in
    if ltb idle_timeout (now - slot.client.last_activity) then rest else slot ∷ rest

module _ {os : Os} where
  expire_slot-closed :
      (now : ℕ) (slot slot' : Slot) (s s' : Common os)
      → expire_slot now slot s ≡ some (slot', s')
      → IsOpen slot
      → (xs : List Slot)
      → remaining (slot' ∷ xs) ≡ (
          if ltb idle_timeout (now - slot.client.last_activity)
          then remaining xs
          else slot ∷ remaining xs)
  unfolding expire_slot remaining
  expire_slot-closed now slot slot' s s' e o xs =
      elim (Bool-cases (ltb idle_timeout (now - slot.client.last_activity))) [
        | inl late ↦
            let (u, t, done, is, _) =
              with_slot-eq-some close_client slot slot' s s' (rw late at e) in
            rw (late, is, is_closed, close_client-closed (session_of slot s) t u done) refl
        | inr active' ↦
            let same : slot ≡ slot' =
              returned_value (λ x. slot ≡ x) slot slot' s s' (rw active' at e) refl in
            rw (active', ← same, o) refl
      ]

  remaining-expire :
      (now : ℕ) (slots slots' : List Slot) (s s' : Common os)
      → All IsOpen slots
      → expire now slots s ≡ some (slots', s')
      → remaining slots' ≡ active now slots
  unfolding expire active remaining
  remaining-expire now [] slots' s s' o e =
      returned_value (λ xs. remaining xs ≡ []) [] slots' s s' e refl
  remaining-expire now (slot ∷ slots) slots' s s' o e =
      let (x, xs, t, one, rest, is) =
        each-eq-some (expire_slot now slot) (expire now slots) s s' slots' e in
      rw is (
        rw
          (
            expire_slot-closed now slot x s t one o.0 xs,
            remaining-expire now slots xs t s' o.1 rest,
          )
          refl)

  -- Where every client has a descriptor, the start of a round leaves exactly the clients whose last
  -- activity was at most 60 seconds before the time that the clock gives, in their order and
  -- unchanged.
  pub expire_clients-active :
      (s s' : Server os) (u : Unit {0})
      → All IsOpen s.clients
      → expire_clients s ≡ some (u, s')
      → s'.clients ≡ active (os.now s.common.world).0 s.clients
  unfolding expire_clients clock erase_closed
  expire_clients-active s s' u o e =
      let (now, t, read, e1) = >>=-eq-some (on_common clock) _ s e in
      let (u1, t1, expired, e2) = >>=-eq-some (on_clients (expire now)) (λ v. erase_closed) t e1 in
      let (common, ticked, is) = on_common-eq-some clock s t now read in
      let (clients, common1, done, is1) = on_clients-eq-some (expire now) t t1 u1 expired in
      let now_is : (os.now s.common.world).0 ≡ now = cc in
      let same_clients : t.clients ≡ s.clients = cc in
      let left : s'.clients ≡ remaining t1.clients = cc in
      let done' : expire now s.clients t.common ≡ some (clients, common1) =
        rw same_clients at done in
      left ∙ rw (is1, now_is) (remaining-expire now s.clients clients t.common common1 o done')
