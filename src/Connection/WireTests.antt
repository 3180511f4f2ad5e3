-- ===== src/Connection/WireTests.antt =====
-- The bytes of connection.cpp at concrete inputs.
use zero_trust_secure_sessio.Common.{
  ℕ, zero, suc, ◌≡◌, refl, ◌⊎◌, inl, inr, List, [], ◌∷◌, ◌++◌, Option, some, none, true, false,
  arith, length, Option-cases, Bool,
}
use zero_trust_secure_sessio.Connection.{handle_request}
use zero_trust_secure_sessio.Connection.Tests.{environment, managers, ann_in}
use zero_trust_secure_sessio.Connection.Delimiters.{end_of_first, sent}
use zero_trust_secure_sessio.Connection.Wire.{
  Peer, Codec, Channel, Read, read, read_failed, start, handle_handshake, handle_bytes,
  handle_message, do_read,
}
use zero_trust_secure_sessio.Connection.Framing.{IsAsio, await_reads, await_reads-sent}
use zero_trust_secure_sessio.Connection.Silence.{start-silent}

abbrev codec : Codec
codec = record { parse = λ bytes. none; print = λ response time. 69 ∷ [] }

abbrev found : List ℕ → Option ℕ → Read
found b none = read_failed "End of file" b
found b (some n) = read n b

-- What arrives at each read is appended, and the first delimiter is looked for.
abbrev peer_with : (ℕ → List ℕ) → Peer
peer_with arriving = record {
  remote_address = some "10.0.0.1";
  handshake = none;
  read_until = λ k b. found (b ++ arriving k) (end_of_first (b ++ arriving k));
  write = λ response. none;
}

peer_with-IsAsio : (arriving : ℕ → List ℕ) → IsAsio (peer_with arriving) arriving
peer_with-IsAsio arriving = record {
  appends = λ k b. elim (Option-cases (end_of_first (b ++ arriving k))) [
    | inl e ↦ rw e
    | inr (n, e) ↦ rw e
  ];
  counts = λ k n b b' h. elim (Option-cases (end_of_first (b ++ arriving k))) [
    | inl e ↦ ground (arith, e, h)
    | inr (m, e) ↦ ground (arith, e, h)
  ];
}

-- The second message arrives in two parts.
abbrev parts : ℕ → List ℕ
parts zero = 65 ∷ 10 ∷ 10 ∷ 66 ∷ []
parts (suc zero) = 10 ∷ 10 ∷ []
parts (suc (suc k)) = []

abbrev channel : ℕ → List (List ℕ) → List ℕ → Channel
channel reads requests buffer = record {
  managers = managers;
  connection = ann_in "";
  buffer = buffer;
  reads = reads;
  is_open = true;
  unregistered = 0;
  requests = requests;
  written = [];
  logged = [];
}

abbrev messages : List (List ℕ)
messages = (65 ∷ []) ∷ (66 ∷ []) ∷ []

await_reads-sent_example :
    (first : List (List ℕ)) × (unread : List (List ℕ)) × (messages ≡ first ++ unread)
    × (messages ≡ [] ++ first)
    × ([] ≡ sent unread)
    × ((◌≡◌ {A = Bool} true false) ⊎ (length first ≡ 2))
unfolding await_reads do_read handle_bytes handle_message handle_request
await_reads-sent_example =
    await_reads-sent environment codec (peer_with parts) 5 parts (peer_with-IsAsio parts) 2
      (channel 0 [] []) (channel 2 messages []) [] messages (refl, (refl, tt)) refl refl

start-silent_example :
    (◌≡◌ {A = ℕ} 0 0) × (◌≡◌ {A = List (List ℕ)} [] []) × (◌≡◌ {A = List (List ℕ)} [] [])
unfolding start handle_handshake await_reads do_read handle_bytes handle_message handle_request
start-silent_example =
    start-silent environment codec (peer_with parts) 5 2 (channel 0 [] []) (channel 0 [] [])
      (channel 2 messages []) refl refl
