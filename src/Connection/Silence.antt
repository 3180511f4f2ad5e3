-- ===== src/Connection/Silence.antt =====
-- What connection.cpp never does: a coroutine that is thrown away is neither a read nor a write.
use zero_trust_secure_sessio.Common.{
  ℕ, zero, suc, ◌≡◌, refl, ◌∙◌, Option-cases, Run-cases, List, ◌-◌, inl, inr, arith,
}
use zero_trust_secure_sessio.Auth.{take, drop}
use zero_trust_secure_sessio.Connection.{Environment, handle_request}
use zero_trust_secure_sessio.Connection.Wire.{
  Peer, Codec, Channel, ran, terminated, start, handle_handshake, handle_bytes, handle_message,
  do_read, stop, destroy,
}
use zero_trust_secure_sessio.Connection.Framing.{await_reads, await_reads_first, Read-cases}

module _ (x : Environment) (codec : Codec) (peer : Peer) (now : ℕ) where
  start-requests :
      (s s' : Channel)
      → start x codec peer now s ≡ ran s'
      → (s'.requests ≡ s.requests) × (s'.reads ≡ s.reads) × (s'.written ≡ s.written)
  unfolding start handle_handshake
  start-requests s s' h = elim (Option-cases peer.remote_address) [
    | inl e ↦ absurd (ground (arith, e, h))
    | inr (ip, e) ↦ elim (Option-cases peer.handshake) [
      | inl f ↦ ground (arith, e, f, h)
      | inr (message, f) ↦ ground (arith, e, f, h)
    ]
  ]

  handle_message-written :
      (m : List ℕ) (s s' : Channel)
      → handle_message x codec peer now m s ≡ ran s'
      → s'.written ≡ s.written
  unfolding handle_message
  handle_message-written m s s' h =
      elim (Run-cases (handle_request x s.managers s.connection now (codec.parse m))) [
        | inl (w, e) ↦ ground (arith, e, h)
        | inr e ↦ absurd (ground (arith, e, h))
      ]

  do_read-written : (s s' : Channel) → do_read x codec peer now s ≡ ran s' → s'.written ≡ s.written
  unfolding do_read handle_bytes stop
  do_read-written s s' h = elim (Read-cases (peer.read_until s.reads s.buffer)) [
    | inl (n, b, e) ↦
        handle_message-written (take (n - 2) b)
          (record s { buffer = drop n b; reads = suc s.reads }) s' (ground (arith, e, h))
    | inr (m, b, e) ↦ ground (arith, e, h)
  ]

  await_reads-written :
      (n : ℕ) (s s' : Channel) → await_reads x codec peer now n s ≡ ran s' → s'.written ≡ s.written
  unfolding await_reads
  await_reads-written zero s s' h = ground (arith, h)
  await_reads-written (suc n) s s' h =
      let (t, first, rest) = await_reads_first x codec peer now n s s' h in
      await_reads-written n t s' rest ∙ do_read-written s t first

  -- Starting a connection, where it returns, reads nothing and handles no request, whatever the
  -- client sends. Even if the reads are then awaited by someone, and return, no response is written.
  pub start-silent :
      (n : ℕ) (s t s' : Channel)
      → start x codec peer now s ≡ ran t
      → await_reads x codec peer now n t ≡ ran s'
      → (t.reads ≡ s.reads) × (t.requests ≡ s.requests) × (s'.written ≡ s.written)
  start-silent n s t s' h rest =
      let (asked, counted, wrote) = start-requests s t h in
      (counted, asked, await_reads-written n t s' rest ∙ wrote)

-- A connection that is destroyed ends the process, in every state.
pub destroy_lem : (s : Channel) → destroy s ≡ terminated
unfolding destroy stop
destroy_lem s = refl
