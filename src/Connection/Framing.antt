-- ===== src/Connection/Framing.antt =====
-- What the reads of connection.cpp make of the bytes that a client sends.
use mathlib.Core.List.{append_assoc, append-nil}
use zero_trust_secure_sessio.Common.{
  ℕ, zero, suc, ◌-◌, ◌≡◌, refl, sym, ap, subst, ◌∙◌, ◌⊎◌, false, List, [], ◌∷◌, ◌++◌, some, nat_eq,
  arith, length, length-append, All, Run-cases, String, inl, inr,
}
use zero_trust_secure_sessio.Auth.{take, drop}
use zero_trust_secure_sessio.Connection.{Environment, handle_request}
use zero_trust_secure_sessio.Connection.Wire.{
  Peer, Codec, Channel, Read, read, read_failed, Ran, ran, threw, deadlocked, terminated,
  handle_bytes, do_read, handle_message, stop,
}
use zero_trust_secure_sessio.Connection.Delimiters.{
  end_of_first, IsMessage, sent, took_message, All-after,
}

abbrev pub buffer_after : Read → List ℕ
buffer_after (read n b) = b
buffer_after (read_failed e b) = b

-- The documented behaviour of `async_read_until`: each read appends what arrives to the buffer, and
-- answers the position behind the first delimiter that the buffer then holds. A peer stands for one
-- run, so what arrives at a read (nothing, where the buffer has a delimiter) is given by its number.
pub record IsAsio (peer : Peer) (arriving : ℕ → List ℕ) : Type 0 where
  pub appends : (k : ℕ) (b : List ℕ) → buffer_after (peer.read_until k b) ≡ b ++ arriving k
  pub counts :
      (k n : ℕ) (b b' : List ℕ) → peer.read_until k b ≡ read n b' → end_of_first b' ≡ some n

-- What arrives at `n` reads from the `k`-th on.
abbrev pub arrived : (ℕ → List ℕ) → ℕ → ℕ → List ℕ
arrived arriving k zero = []
arrived arriving k (suc n) = arriving k ++ arrived arriving (suc k) n

pub Read-cases :
    (r : Read)
    → ((n : ℕ) × (b : List ℕ) × (r ≡ read n b))
      ⊎ ((e : String) × (b : List ℕ) × (r ≡ read_failed e b))
Read-cases (read n b) = inl (n, b, refl)
Read-cases (read_failed e b) = inr (e, b, refl)

Ran-cases :
    (r : Ran)
    → ((s : Channel) × (r ≡ ran s))
      ⊎ ((s : Channel) × (r ≡ threw s))
      ⊎ (r ≡ deadlocked)
      ⊎ (r ≡ terminated)
Ran-cases (ran s) = inl (s, refl)
Ran-cases (threw s) = inr (inl (s, refl))
Ran-cases deadlocked = inr (inr (inl refl))
Ran-cases terminated = inr (inr (inr refl))

module _ (x : Environment) (codec : Codec) (peer : Peer) (now : ℕ) where
  -- A read that ends: it hands over one message, or it fails and closes the connection.
  data DidRead (s s' : Channel) : Type 0 where
    took :
        (n : ℕ) (b : List ℕ)
        → peer.read_until s.reads s.buffer ≡ read n b
        → s'.requests ≡ s.requests ++ take (n - 2) b ∷ []
        → s'.buffer ≡ drop n b
        → s'.reads ≡ suc s.reads
        → s'.is_open ≡ s.is_open
        → DidRead s s'
    failed :
        (e : String) (b : List ℕ)
        → peer.read_until s.reads s.buffer ≡ read_failed e b
        → s'.requests ≡ s.requests
        → s'.buffer ≡ b
        → s'.reads ≡ suc s.reads
        → s'.is_open ≡ false
        → DidRead s s'

  handle_message_ran :
      (m : List ℕ) (s s' : Channel)
      → handle_message x codec peer now m s ≡ ran s'
      → (s'.requests ≡ s.requests ++ m ∷ [])
        × (s'.buffer ≡ s.buffer)
        × (s'.reads ≡ s.reads)
        × (s'.is_open ≡ s.is_open)
  unfolding handle_message
  handle_message_ran m s s' h =
      elim (Run-cases (handle_request x s.managers s.connection now (codec.parse m))) [
        | inl (w, e) ↦ ground (arith, e, h)
        | inr e ↦ absurd (ground (arith, e, h))
      ]

  do_read-DidRead : (s s' : Channel) → do_read x codec peer now s ≡ ran s' → DidRead s s'
  unfolding do_read handle_bytes stop
  do_read-DidRead s s' h = elim (Read-cases (peer.read_until s.reads s.buffer)) [
    | inl (n, b, e) ↦
        let (asked, held, counted, open_still) =
          handle_message_ran (take (n - 2) b) (record s { buffer = drop n b; reads = suc s.reads })
            s' (ground (arith, e, h)) in
        took n b e asked held counted open_still
    | inr (m, b, e) ↦
        failed m b e (ground (arith, e, h)) (ground (arith, e, h)) (ground (arith, e, h))
          (ground (arith, e, h))
  ]

  -- The coroutine awaited so many times in a row.
  unfoldable pub await_reads : ℕ → Channel → Ran
  await_reads zero s = ran s
  await_reads (suc n) s = elim (do_read x codec peer now s) [
    | ran s' ↦ await_reads n s'
    | threw s' ↦ threw s'
    | deadlocked ↦ deadlocked
    | terminated ↦ terminated
  ]

  pub await_reads_first :
      (n : ℕ) (s s' : Channel)
      → await_reads (suc n) s ≡ ran s'
      → (t : Channel) × (do_read x codec peer now s ≡ ran t) × (await_reads n t ≡ ran s')
  unfolding await_reads
  await_reads_first n s s' h = elim (Ran-cases (do_read x codec peer now s)) [
    | inl (t, e) ↦ (t, e, ground (arith, e, h))
    | inr (inl (t, e)) ↦ absurd (ground (arith, e, h))
    | inr (inr (inl e)) ↦ absurd (ground (arith, e, h))
    | inr (inr (inr e)) ↦ absurd (ground (arith, e, h))
  ]

  -- Once closed, a connection stays closed.
  await_reads-closed :
      (n : ℕ) (s s' : Channel) → s.is_open ≡ false → await_reads n s ≡ ran s' → s'.is_open ≡ false
  unfolding await_reads
  await_reads-closed zero s s' closed h = ground (arith, h, closed)
  await_reads-closed (suc n) s s' closed h =
      let (t, first, rest) = await_reads_first n s s' h in
      await_reads-closed n t s'
        (elim (do_read-DidRead s t first) [
          | took k b e asked held counted same ↦ same ∙ closed
          | failed m b e asked held counted shut ↦ shut
        ])
        rest

  module _ (arriving : ℕ → List ℕ) (asio : IsAsio peer arriving) where
    -- What is left to read, after one read, of a stream of messages.
    read_one :
        (s t : Channel) (later : List ℕ) (ms : List (List ℕ))
        → All IsMessage ms
        → s.buffer ++ (arriving s.reads ++ later) ≡ sent ms
        → do_read x codec peer now s ≡ ran t
        → (first unread : List (List ℕ)) × (ms ≡ first ++ unread)
          × (t.requests ≡ s.requests ++ first)
          × (t.buffer ++ later ≡ sent unread)
          × (t.reads ≡ suc s.reads)
          × ((t.is_open ≡ false) ⊎ (length first ≡ 1))
    read_one s t later ms framed stream h =
        let filled : buffer_after (peer.read_until s.reads s.buffer) ++ later ≡ sent ms =
          ap (λ b. b ++ later) (asio.appends s.reads s.buffer)
          ∙ append_assoc s.buffer (arriving s.reads) later
          ∙ stream in
        elim (do_read-DidRead s t h) [
          | took n b e asked held counted same ↦
              let (rest, front, left) =
                took_message b later n ms framed (asio.counts s.reads n s.buffer b e)
                  (ap (λ r. buffer_after r ++ later) (sym e) ∙ filled) in
              (
                take (n - 2) b ∷ [],
                rest,
                front,
                asked,
                ap (λ u. u ++ later) held ∙ left,
                counted,
                inr refl,
              )
          | failed m b e asked held counted shut ↦ (
            [],
            ms,
            refl,
            asked ∙ sym (append-nil s.requests),
            ap (λ u. u ++ later) held ∙ ap (λ r. buffer_after r ++ later) (sym e) ∙ filled,
            counted,
            inl shut,
          )
        ]

    -- Reads in a row that all return, with a Boost.Asio that behaves as documented, however the
    -- bytes are cut into pieces: if the buffer, what arrives at the reads and what comes later are
    -- a list of messages, each with its delimiter and with none before that, then the requests that
    -- are handled are the first of these messages, each once and in order, and what is left in the
    -- buffer begins the others. As many are handled as there are reads, or the connection is closed.
    pub await_reads-sent :
        (n : ℕ) (s s' : Channel) (later : List ℕ) (ms : List (List ℕ))
        → All IsMessage ms
        → s.buffer ++ (arrived arriving s.reads n ++ later) ≡ sent ms
        → await_reads n s ≡ ran s'
        → (first unread : List (List ℕ)) × (ms ≡ first ++ unread)
          × (s'.requests ≡ s.requests ++ first)
          × (s'.buffer ++ later ≡ sent unread)
          × ((s'.is_open ≡ false) ⊎ (length first ≡ n))
    unfolding await_reads
    await_reads-sent zero s s' later ms framed stream h =
        let same : s ≡ s' = ground (arith, h) in
        (
          [],
          ms,
          refl,
          ap (λ (t : Channel). t.requests) (sym same) ∙ sym (append-nil s.requests),
          ap (λ (t : Channel). t.buffer ++ later) (sym same) ∙ stream,
          inr refl,
        )
    await_reads-sent (suc n) s s' later ms framed stream h =
        let (t, one, others) = await_reads_first n s s' h in
        let soon = arrived arriving (suc s.reads) n in
        let (first, unread, front, asked, left, counted, ended) =
          read_one s t (soon ++ later) ms framed
            (ap (λ u. s.buffer ++ u) (sym (append_assoc (arriving s.reads) soon later)) ∙ stream)
            one in
        let (first', unread', front', asked', left', ended') =
          await_reads-sent n t s' later unread
            (All-after first unread (subst (All IsMessage) front framed))
            (ap (λ k. t.buffer ++ (arrived arriving k n ++ later)) counted ∙ left) others in
        (
          first ++ first',
          unread',
          front ∙ ap (λ u. first ++ u) front' ∙ sym (append_assoc first first' unread'),
          asked' ∙ ap (λ u. u ++ first') asked ∙ append_assoc s.requests first first',
          left',
          elim ended [
            | inl shut ↦ inl (await_reads-closed n t s' shut others)
            | inr size ↦ elim ended' [
              | inl shut ↦ inl shut
              | inr size' ↦ inr (omega (arith, length-append first first', size, size'))
            ]
          ],
        )
