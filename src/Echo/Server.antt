-- ===== src/Echo/Server.antt =====
-- The whole server of examples/tcp_echo.cpp: every client that connects is answered.
use async_berkeley.Base.{
  ℕ, ◌<◌, ◌-◌, ◌≡◌, sym, ◌∙◌, ap, true, false, ℤ, pos, int_eq, Bool-cases, inl, inr, arith,
  some_inj, some, List, [], ◌∷◌, ◌++◌, All, get_elem?, get_elem?-length, length, map, replicate,
}
use async_berkeley.Socket.Message.Bytes.{bytes}
use async_berkeley.Echo.{received, accepted, Client, reader, run_completions, whole_buffer, zeroed}
use async_berkeley.Echo.Sending.{total}
use async_berkeley.Echo.Padding.{Receives, echo-padded}
use async_berkeley.Echo.Acceptor.{
  Event, connects, Server, fresh, acceptor, make_server, on_event, run_events,
}
use async_berkeley.Echo.Events.{
  of_client, is_refusal, connections, connects-clients, run_events-there, run_events-append,
  run_events-accepts,
}

-- A server that starts accepts and has no client yet.
make_server-starts :
    (reuse bound listening : ℤ) (s : Server)
    → make_server reuse bound listening ≡ some s
    → (s.accepting ≡ true) × (s.clients ≡ [])
unfolding make_server acceptor
make_server-starts reuse bound listening s made = elim (Bool-cases (int_eq reuse (pos 0))) [
  | inr fails ↦ absurd (ground arith)
  | inl ok ↦ elim (Bool-cases (int_eq bound (pos 0))) [
    | inr fails ↦ absurd (ground arith)
    | inl ok' ↦ elim (Bool-cases (int_eq listening (pos 0))) [
      | inr fails ↦ absurd (ground arith)
      | inl ok'' ↦
          let same = some_inj (rw (make_server, ok, ok', ok'') at made) in
          (ap (λ (t : Server). t.accepting) (sym same), ap (λ (t : Server). t.clients) (sym same))
    ]
  ]
]

module _ (buffer_at : ℕ → ℕ → ℕ) where
  -- A connection while an accept is pending: its client reads.
  connects-reads :
      (memory : ℕ → ℕ) (later : List Event) (s : Server) (n : ℕ)
      → s.accepting ≡ true
      → length s.clients ≡ n
      → get_elem? (run_events buffer_at (connects memory ∷ later) s).clients n
        ≡ some (
            run_completions (buffer_at n) (of_client n later) (reader (buffer_at n) (fresh memory)))
  unfolding run_events
  connects-reads memory later s n listens size =
      let new = reader (buffer_at (length s.clients)) (fresh memory) in
      let there : get_elem? (on_event buffer_at (connects memory) s).clients (length s.clients)
          ≡ some new =
        ap (λ (t : Server). get_elem? t.clients (length s.clients))
          (connects-clients buffer_at memory s listens)
        ∙ get_elem?-length s.clients new [] in
      rw (sym size) (
        run_events-there buffer_at later (on_event buffer_at (connects memory) s) (length s.clients)
          new there)

  -- The server is started without an error, clients connect and are served in any order, and no
  -- accept fails before client `n` connects, after `n` others. What happens later may be anything, a
  -- failing accept too, as long as the operations of client `n` are these: `text` is received, which
  -- recvmsg puts into its buffer, and then the sends take 1024 bytes in all, however the kernel splits
  -- them. Then the client is there, and it was sent `text` and zeros behind it, up to 1024 bytes.
  pub server-echoes :
      (reuse bound listening : ℤ) (s : Server) (es later : List Event) (text ks : List ℕ)
      (memory memory' : ℕ → ℕ) (n : ℕ)
      → make_server reuse bound listening ≡ some s
      → All (λ e. is_refusal e ≡ false) es
      → connections es ≡ n
      → of_client n later ≡ received (length text) memory' ∷ map accepted ks
      → 0 < length text
      → Receives text (bytes (whole_buffer (buffer_at n 0))) (zeroed (buffer_at n 0) memory) memory'
      → total ks ≡ 1024
      → (c : Client) × (get_elem? (run_events buffer_at (es ++ connects memory ∷ later) s).clients n
          ≡ some c)
        × (c.sent ≡ text ++ replicate (1024 - length text) 0)
  server-echoes reuse bound listening s es later text ks memory memory' n made open_always many own
        some_text got all_sent =
      let (listens, empty) = make_server-starts reuse bound listening s made in
      let (still, size) = run_events-accepts buffer_at es s open_always listens in
      let as_many : length (run_events buffer_at es s).clients ≡ n =
        omega (arith, size, many, ap length empty) in
      (
        run_completions (buffer_at n) (of_client n later) (reader (buffer_at n) (fresh memory)),
        ap (λ (t : Server). get_elem? t.clients n)
              (run_events-append buffer_at es (connects memory ∷ later) s)
            ∙ connects-reads memory later (run_events buffer_at es s) n still as_many,
        ap (λ l. (run_completions (buffer_at n) l (reader (buffer_at n) (fresh memory))).sent) own
            ∙ echo-padded (buffer_at n) text ks memory' (fresh memory) some_text got all_sent,
      )
