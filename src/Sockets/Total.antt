-- ===== src/Sockets/Total.antt =====
-- What a program does while it starts returns.
use concurrent_tcp_file_tran.Base.{ℕ, ◌≢◌, Bool, true, false, none, if◌then◌else◌}
use concurrent_tcp_file_tran.Exec.{◌>>=◌, pure}
use concurrent_tcp_file_tran.Os.{Os}
use concurrent_tcp_file_tran.Sockets.{Sockets, Opening, call, close_socket}
use concurrent_tcp_file_tran.Server.Total.{bind-ne-none}

module _ {os : Os} where
  abbrev pub Returning : {A : Type 0} → Opening os A → Type 0
  Returning m = (s : Sockets os) → m s ≢ none

  pub pure-Returning : {A : Type 0} (a : A) → Returning (pure a)
  pure-Returning a s e = cc

  pub if-Returning :
      {A : Type 0} (b : Bool) (m n : Opening os A)
      → Returning m
      → Returning n
      → Returning (if b then m else n)
  if-Returning true m n hm hn = hm
  if-Returning false m n hm hn = hn

  pub >>=-Returning :
      {A B : Type 0} (m : Opening os A) (f : A → Opening os B)
      → Returning m
      → ((a : A) → Returning (f a))
      → Returning (m >>= f)
  >>=-Returning m f hm hf s = bind-ne-none m f s (hm s) (λ a t e. hf a t)

  pub call-Returning : {A : Type 0} (f : os.World → A × os.World) → Returning (call f)
  unfolding call
  call-Returning f s e = pure-Returning (f s.world).0 (record s { world = (f s.world).1 }) e

  pub close_socket-Returning : (fd : ℕ) → Returning (close_socket fd)
  unfolding close_socket
  close_socket-Returning fd s e = cc
