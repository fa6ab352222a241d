-- ===== src/Client/Put/Sending.antt =====
-- The loop of the client's `run_put` that sends the file.
use concurrent_tcp_file_tran.Base.{
  ℕ, zero, suc, ◌+◌, ◌%◌, ◌^◌, ◌<◌, [], ◌∷◌, ◌++◌, ◌≡◌, ◌∙◌, ap, sym, refl, inl, inr, Bool, true,
  false, Option, some, none, Bytes, length, arith, not, ◌==◌, Bool-cases, append-nil, append_assoc,
  length-append, if◌then◌else◌,
}
use concurrent_tcp_file_tran.Exec.{◌>>◌, pure, >>=-eq-some}
use concurrent_tcp_file_tran.Os.{Os, Fd, Bounded}
use concurrent_tcp_file_tran.Server.Session.{History, buffer_size}
use concurrent_tcp_file_tran.Server.Upload.{add_uint64}
use concurrent_tcp_file_tran.Client.Link.{Link, Task, read_source, sleep_for}
use concurrent_tcp_file_tran.Client.Reader.{send_all}
use concurrent_tcp_file_tran.Client.Reader.Sending.{send_all-Sends}
use concurrent_tcp_file_tran.Client.Put.{send_chunk, send_file}

module _ {os : Os} where
  -- What is read from the file goes to the wire; on success all of it has, and was counted.
  pub record SendsFile (before : ℕ) (result : Option ℕ) (s s' : Link os) : Type 0 where
    pub history :
        s'.history ≡ record s.history { sent = s'.history.sent; loaded = s'.history.loaded }
    pub buffered : s'.buffered ≡ s.buffered
    pub complete :
        (total : ℕ)
        → result ≡ some total
        → (chunks : Bytes) × (s'.history.sent ≡ s.history.sent ++ chunks)
          × (s'.history.loaded ≡ s.history.loaded ++ chunks)
          × (total ≡ (before + length chunks) % 2 ^ 64)

  abbrev SendsOn : (ℕ → Task os (Option ℕ)) → Type 0
  SendsOn again =
      (n : ℕ) (s s' : Link os) (result : Option ℕ)
      → n < 2 ^ 64
      → again n s ≡ some (result, s')
      → SendsFile n result s s'

  -- One chunk was read and sent, and the rest of the file follows.
  chunk-SendsFile :
      (before : ℕ) (chunk : Bytes) (result : Option ℕ) (s t s' : Link os)
      → t.history
        ≡ record s.history { sent = s.history.sent ++ chunk; loaded = s.history.loaded ++ chunk }
      → t.buffered ≡ s.buffered
      → SendsFile (add_uint64 before (length chunk)) result t s'
      → SendsFile before result s s'
  chunk-SendsFile before chunk result s t s' h b v = record {
    history = ground (arith, h, v.history);
    buffered = v.buffered ∙ b;
    complete = λ total e.
        let (chunks, sent, loaded, counted) = v.complete total e in
        (
          chunk ++ chunks,
          sent
              ∙ ap (λ (u : History). u.sent ++ chunks) h
              ∙ append_assoc s.history.sent chunk chunks,
          loaded
              ∙ ap (λ (u : History). u.loaded ++ chunks) h
              ∙ append_assoc s.history.loaded chunk chunks,
          omega (arith, counted, length-append chunk chunks),
        );
  }

  failed_file :
      (before : ℕ) (result : Option ℕ) (s s' : Link os)
      → result ≡ none
      → s'.history ≡ record s.history { sent = s'.history.sent; loaded = s'.history.loaded }
      → s'.buffered ≡ s.buffered
      → SendsFile before result s s'
  failed_file before result s s' n h b = record {
    history = h;
    buffered = b;
    complete = λ total e. absurd (differ total (sym n ∙ e));
  }
    where
      differ : (total : ℕ) → none ≡ some total → ⊥
      differ total e = cc

  ended_file :
      (before : ℕ) (result : Option ℕ) (s s' : Link os)
      → before < 2 ^ 64
      → result ≡ some before
      → s' ≡ s
      → SendsFile before result s s'
  ended_file before result s s' small r e = record {
    history = ground arith;
    buffered = ground arith;
    complete = λ total h. (
      [],
      ground (arith, append-nil s.history.sent),
      ground (arith, append-nil s.history.loaded),
      ground arith,
    );
  }

  next-SendsFile :
      (again : ℕ → Task os (Option ℕ)) (full : Bool) (total : ℕ) (s s' : Link os)
      (result : Option ℕ)
      → SendsOn again
      → total < 2 ^ 64
      → (if full then again total else pure (some total)) s ≡ some (result, s')
      → SendsFile total result s s'
  next-SendsFile again true total s s' result ih small e = ih total s s' result small e
  next-SendsFile again false total s s' result ih small e =
      ended_file total result s s' small (ground arith) (ground arith)

module _ {os : Os} (bounded : Bounded os) where
  -- `s` is the state before the chunk was read, `t` the one after it was.
  send_chunk-SendsFile :
      (again : ℕ → Task os (Option ℕ)) (fuel : ℕ) (fd : Fd) (delay_ms before : ℕ) (bytes : Bytes)
      (s t s' : Link os) (result : Option ℕ)
      → SendsOn again
      → before < 2 ^ 64
      → t.history ≡ record s.history { loaded = s.history.loaded ++ bytes }
      → t.buffered ≡ s.buffered
      → send_chunk again fuel fd delay_ms before bytes t ≡ some (result, s')
      → SendsFile before result s s'
  unfolding send_chunk
  send_chunk-SendsFile again fuel fd delay_ms before [] s t s' result ih small h b e = record {
    history = ground (arith, append-nil s.history.loaded);
    buffered = ground arith;
    complete = λ total k. (
      [],
      ground (arith, append-nil s.history.sent),
      ground (arith, append-nil s.history.loaded),
      ground arith,
    );
  }
  send_chunk-SendsFile again fuel fd delay_ms before (c ∷ bytes) s t s' result ih small h b e =
      let chunk = c ∷ bytes in
      let total = add_uint64 before (length chunk) in
      let next : Task os (Option ℕ) =
        if length chunk == buffer_size then again total else pure (some total) in
      let (sent, u, sending, e') =
        >>=-eq-some (send_all fuel fd chunk)
          (λ sent.
            if not sent
            then pure none
            else (if delay_ms == 0 then next else (sleep_for delay_ms >> next)))
          t e in
      let v = send_all-Sends bounded fuel fd chunk t u sent sending in
      elim (Bool-cases sent) [
        | inr failed ↦
            failed_file before result s s' (ground arith) (ground (arith, h, v.history))
              (ground (arith, b, v.buffered))
        | inl done ↦
            let sent_all : u.history.sent ≡ t.history.sent ++ chunk =
              ground (arith, v.wire, v.none_left, append-nil u.history.sent) in
            let history : u.history ≡ record s.history {
              sent = s.history.sent ++ chunk;
              loaded = s.history.loaded ++ chunk;
            } =
              ground (arith, h, v.history, sent_all) in
            let within : total < 2 ^ 64 = omega arith in
            elim (Bool-cases (delay_ms == 0)) [
              | inl now ↦ chunk-SendsFile before chunk result s u s' history (v.buffered ∙ b) (
                  next-SendsFile again (length chunk == buffer_size) total u s' result ih within
                    (rw (done, now) at e'))
              | inr later ↦
                  let w : Link os = record u { world = os.sleep delay_ms u.world } in
                  chunk-SendsFile before chunk result s w s' history (v.buffered ∙ b) (
                    next-SendsFile again (length chunk == buffer_size) total w s' result ih within
                      (unfold sleep_for in (rw (done, later) at e')))
            ]
      ]

  pub send_file-SendsFile :
      (rounds fuel : ℕ) (fd : Fd) (handle delay_ms : ℕ)
      → SendsOn {os = os} (λ n. send_file rounds fuel fd handle delay_ms n)
  unfolding send_file read_source
  send_file-SendsFile zero fuel fd handle delay_ms n s s' result small e = cc
  send_file-SendsFile (suc f) fuel fd handle delay_ms n s s' result small e =
      let read = os.read handle buffer_size s.world in
      send_chunk-SendsFile (λ n. send_file f fuel fd handle delay_ms n) fuel fd delay_ms n read.0 s
        (record s {
          world = read.1;
          history = record s.history { loaded = s.history.loaded ++ read.0 };
        })
        s' result (send_file-SendsFile f fuel fd handle delay_ms) small refl refl e
