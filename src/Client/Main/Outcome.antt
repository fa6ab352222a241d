-- ===== src/Client/Main/Outcome.antt =====
-- What a run of the client's `main` comes to.
use concurrent_tcp_file_tran.Base.{
  ℕ, [], ◌∷◌, ◌++◌, ◌≡◌, ◌∙◌, ap, sym, List, Bool, true, false, Option, none, some, Bytes, refl,
  inl, inr, ◌⊎◌, append-nil, Option-cases, arith, subst,
}
use concurrent_tcp_file_tran.Exec.{returned_both, >>=-eq-some, lift-eq-some}
use concurrent_tcp_file_tran.Os.{Os, Fd, Bounded}
use concurrent_tcp_file_tran.Server.Session.{History}
use concurrent_tcp_file_tran.Sockets.{Sockets, before, held, close_socket}
use concurrent_tcp_file_tran.Sockets.Balance.{Balance, dropped}
use concurrent_tcp_file_tran.Client.Link.{Link, new_link}
use concurrent_tcp_file_tran.Client.Get.{Options, Command, get, put}
use concurrent_tcp_file_tran.Client.Get.Outcome.{Delivered, run_get-Outcome}
use concurrent_tcp_file_tran.Client.Put.Outcome.{Uploaded, run_put-Uploaded}
use concurrent_tcp_file_tran.Client.Options.{parse_options}
use concurrent_tcp_file_tran.Client.Options.Checks.{Valid, parse_options-Valid}
use concurrent_tcp_file_tran.Client.Connect.{connect_to_server}
use concurrent_tcp_file_tran.Client.Connect.Balance.{connect_to_server-Balance}
use concurrent_tcp_file_tran.Client.Main.{
  Ended, rejected, transferred, exit_code, run_command, run_transfer, transfer_on, start_client,
  main,
}

-- The transfer that a successful operation made.
abbrev pub Transferred : Command → Options → History → Type 0
Transferred get options h = Delivered options h
Transferred put options h = Uploaded options h

-- The transfer succeeded where the exit code is 0, and no file was published locally by a download
-- where it is not.
pub record Finished (code : ℕ) (options : Options) (h : History) : Type 0 where
  pub known : (code ≡ 0) ⊎ (code ≡ 1)
  pub success : code ≡ 0 → Transferred options.operation options h
  pub nothing : code ≡ 1 → options.operation ≡ get → h.published ≡ []

-- The code is 2 where no transfer was made.
abbrev pub Outcome : List Bytes → Ended → Type 0
Outcome argv (rejected code) = code ≡ 2
Outcome argv (transferred code options h) =
    (parse_options argv ≡ some options) × Valid options × Finished code options h

module _ {os : Os} (bounded : Bounded os) (fuel : ℕ) where
  command-Finished :
      (command : Command) (fd : Fd) (options : Options) (w : os.World) (success : Bool)
      (s : Link os)
      → options.operation ≡ command
      → run_command command fuel fd options (new_link w) ≡ some (success, s)
      → Finished (exit_code success) options s.history
  unfolding run_command
  command-Finished get fd options w true s is e = record {
    known = inl refl;
    success = λ z.
        subst (λ c. Transferred c options s.history) (sym is)
          ((run_get-Outcome bounded fuel fd options w s true e).delivered refl);
    nothing = λ z. absurd (omega (arith, z));
  }
  command-Finished get fd options w false s is e = record {
    known = inr refl;
    success = λ z. absurd (omega (arith, z));
    nothing = λ z g. (run_get-Outcome bounded fuel fd options w s false e).nothing refl;
  }
  command-Finished put fd options w true s is e = record {
    known = inl refl;
    success = λ z.
        subst (λ c. Transferred c options s.history) (sym is)
          (run_put-Uploaded bounded options fuel fd w s e);
    nothing = λ z. absurd (omega (arith, z));
  }
  command-Finished put fd options w false s is e = record {
    known = inr refl;
    success = λ z. absurd (omega (arith, z));
    nothing = λ z g. absurd cc;
  }

  transfer_on-Outcome :
      (argv : List Bytes) (options : Options) (fd : Option ℕ) (s t s' : Sockets os) (r : Ended)
      → parse_options argv ≡ some options
      → s.opened ≡ s.closed
      → Balance (held fd) s t
      → transfer_on fuel options fd t ≡ some (r, s')
      → Outcome argv r × (s'.opened ≡ s'.closed)
  unfolding transfer_on run_transfer
  transfer_on-Outcome argv options none s t s' r parsed even b e =
      returned_both (λ r' v. Outcome argv r' × (v.opened ≡ v.closed)) (rejected 2) r t s' e
        (refl, (rw append-nil at b.opened) ∙ ap (λ l. l ++ b.passing) even ∙ sym b.closed)
  transfer_on-Outcome argv options (some fd) s t s' r parsed even b e =
      let (result, u, ran, e1) = >>=-eq-some (run_transfer fuel fd options) _ t e in
      let (x, v, closing, e2) = >>=-eq-some (close_socket fd) _ u e1 in
      let (success, link, run, is) =
        lift-eq-some
          (run_command options.operation fuel (some fd) options (new_link {os = os} t.world))
          (λ success link. ((success, link.history), record t { world = link.world })) ran in
      let finished =
        command-Finished options.operation (some fd) options t.world success link refl run in
      let finished' : Finished (exit_code result.0) options result.1 =
        subst (λ (p : (Bool × History) × Sockets os). Finished (exit_code p.0.0) options p.0.1) is
          finished in
      let held_on : Balance (fd ∷ []) s u = record {
        passing = b.passing;
        opened = cc;
        closed = cc;
      } in
      let all = dropped fd s u v x held_on closing in
      returned_both (λ r' y. Outcome argv r' × (y.opened ≡ y.closed))
        (transferred (exit_code result.0) options result.1) r v s' e2
        (
          (parsed, parse_options-Valid argv options parsed, finished'),
          (rw append-nil at all.opened) ∙ ap (λ l. l ++ all.passing) even ∙ sym all.closed,
        )

  -- A run of the client's main, from a state where no socket is open, that returns, has closed
  -- every socket that it opened, in the order of their opening. It exits with 2 and has made no
  -- transfer, or with 0 or 1 behind a transfer with the options that the arguments give, which are
  -- valid. With 0, a download has sent its request, received a line that reads OK n, created the
  -- file with .part behind the local path, written the n bytes behind that line to it, and renamed
  -- it once, to the local path, and an upload has opened the local file, sent its request and the
  -- bytes that it read, whose number modulo 2^64 the request says, and received READY and a
  -- confirmation of this number, neither having opened, created or renamed any other file; with 1,
  -- a download has published no file. This holds for all arguments and whatever the system calls
  -- answer, if no call moves more bytes than it was given or asked for.
  pub main-Finished :
      (argv : List Bytes) (w : os.World) (r : Ended) (s : Sockets os)
      → main fuel argv (before w) ≡ some (r, s)
      → Outcome argv r × (s.opened ≡ s.closed)
  unfolding main start_client
  main-Finished argv w r s e = elim (Option-cases (parse_options argv)) [
    | inl bad ↦
        returned_both (λ r' v. Outcome argv r' × (v.opened ≡ v.closed)) (rejected 2) r (before w) s
          (rw bad at e) (refl, refl)
    | inr (options, parsed) ↦
        let connect = connect_to_server options.host options.port in
        let (fd, t, connected, e1) =
          >>=-eq-some connect (transfer_on fuel options) (before w) (rw parsed at e) in
        transfer_on-Outcome argv options fd (before w) t s r parsed refl
          (connect_to_server-Balance options.host options.port (before w) t fd connected) e1
  ]
