-- ===== src/Connection/Wire.antt =====
-- The bytes of a connection (src/network/connection.cpp): the handshake, the messages that are read
-- up to a delimiter, and the responses. A coroutine does nothing until it is awaited: Boost.Asio
-- suspends an `awaitable` at its start, and one that is thrown away is never resumed.
use Prim.Native.String.{◌++◌ as ◌<>◌}
use zero_trust_secure_sessio.Common.{
  ℕ, suc, ◌+◌, ◌-◌, Bool, true, false, List, [], ◌∷◌, ◌++◌, String, Option, none, some,
  if◌then◌else◌, done, deadlock,
}
use zero_trust_secure_sessio.Auth.{take, drop}
use zero_trust_secure_sessio.Connection.{
  Managers, Connection, Environment, RequestJson, Response, handle_request,
}

abbrev pub message_delimiter : List ℕ
message_delimiter = 10 ∷ 10 ∷ []

-- How `async_read_until` ends: with the number of bytes up to the end of the delimiter, or with an
-- error, and in both cases with what the buffer holds then.
pub data Read : Type 0 where
  read : ℕ → List ℕ → Read
  read_failed : String → List ℕ → Read

-- What Boost.Asio answers on a connection: the address of the other end, or `none` where the call
-- throws, the message of a handshake or a write that fails, and each read, by its number and by
-- what the buffer holds before it.
pub record Peer : Type 0 where
  pub remote_address : Option String
  pub handshake : Option String
  pub read_until : ℕ → List ℕ → Read
  pub write : List ℕ → Option String

-- The JSON library on bytes. A response is printed at the time that it carries.
pub record Codec : Type 0 where
  pub parse : List ℕ → Option RequestJson
  pub print : Response → ℕ → List ℕ

-- A connection with its buffer, the number of its reads, and the requests and the responses so far.
-- `unregister_connection`, which no file declares, is counted.
pub record Channel : Type 0 where
  pub managers : Managers
  pub connection : Connection
  pub buffer : List ℕ
  pub reads : ℕ
  pub is_open : Bool
  pub unregistered : ℕ
  pub requests : List (List ℕ)
  pub written : List (List ℕ)
  pub logged : List String

pub data Ran : Type 0 where
  ran threw : Channel → Ran
  deadlocked terminated : Ran

abbrev pub Coroutine : Type 0
Coroutine = Channel → Ran

abbrev pub discarded : Coroutine → Channel → Ran
discarded coroutine s = ran s

abbrev pub log_line : String → Channel → Channel
log_line line s = record s { logged = s.logged ++ line ∷ [] }

-- `shared_from_this` throws unless a `shared_ptr` owns the connection.
unfoldable pub stop : Bool → Channel → Ran
stop owned s =
    let closed = record s { is_open = false } in
    if owned then ran (record closed { unregistered = closed.unregistered + 1 }) else threw closed

-- The destructor runs when no `shared_ptr` is left, and an exception that leaves it ends the
-- process.
unfoldable pub destroy : Channel → Ran
unfolding stop
destroy s = elim (stop false s) [
  | ran s' ↦ ran s'
  | threw s' ↦ terminated
  | deadlocked ↦ deadlocked
  | terminated ↦ terminated
]

unfoldable pub do_write : Peer → List ℕ → Coroutine
unfolding stop
do_write peer response s = elim (peer.write response) [
  | none ↦ ran (record s { written = s.written ++ response ∷ [] })
  | some e ↦ stop true (log_line ("Write error: " <> e) s)
]

module _ (x : Environment) (codec : Codec) (peer : Peer) (now : ℕ) where
  -- What `handle_request` does with the text of a request.
  unfoldable pub handle_message : List ℕ → Channel → Ran
  unfolding do_write
  handle_message message s =
      elim (handle_request x s.managers s.connection now (codec.parse message)) [
        | deadlock ↦ deadlocked
        | done w ↦
            discarded (do_write peer (codec.print w.response now ++ message_delimiter)) (record s {
              managers = w.managers;
              connection = w.connection;
              requests = s.requests ++ message ∷ [];
            })
      ]

  -- The message is taken off the buffer without its delimiter, and handled.
  unfoldable pub handle_bytes : ℕ → Channel → Ran
  unfolding handle_message
  handle_bytes bytes_transferred s =
      handle_message (take (bytes_transferred - 2) s.buffer)
        (record s { buffer = drop bytes_transferred s.buffer })

  unfoldable pub do_read : Coroutine
  unfolding handle_bytes stop
  do_read s = elim (peer.read_until s.reads s.buffer) [
    | read n buffer ↦ handle_bytes n (record s { buffer = buffer; reads = suc s.reads })
    | read_failed e buffer ↦
        stop true
          (log_line ("Read error: " <> e) (record s { buffer = buffer; reads = suc s.reads }))
  ]

  unfoldable pub handle_handshake : Option String → Channel → Ran
  unfolding do_read
  handle_handshake none s = discarded do_read s
  handle_handshake (some e) s = ran (log_line ("Handshake error: " <> e) s)

  unfoldable pub start : Channel → Ran
  unfolding handle_handshake
  start s = elim peer.remote_address [
    | none ↦ threw s
    | some ip ↦
        handle_handshake peer.handshake
          (record s { connection = record s.connection { client_ip = ip } })
  ]

  unfoldable pub process_connection : Coroutine
  unfolding do_read
  process_connection s = elim (do_read s) [
    | ran s' ↦ ran s'
    | threw s' ↦ ran (log_line "Connection processing error: bad_weak_ptr" s')
    | deadlocked ↦ deadlocked
    | terminated ↦ terminated
  ]

-- The handler of a read, which is given its error: the end of the stream, or another.
pub data ReadError : Type 0 where
  end_of_file : ReadError
  other : String → ReadError

module _ (x : Environment) (codec : Codec) (peer : Peer) (now : ℕ) where
  unfoldable pub handle_read : Option ReadError → ℕ → Channel → Ran
  unfolding handle_bytes do_read
  handle_read (some end_of_file) n s = ran s
  handle_read (some (other e)) n s = ran (log_line ("Read error: " <> e) s)
  handle_read none n s = elim (handle_bytes x codec peer now n s) [
    | ran s' ↦ discarded (do_read x codec peer now) s'
    | threw s' ↦ threw s'
    | deadlocked ↦ deadlocked
    | terminated ↦ terminated
  ]

unfoldable pub log_connection_event : String → String → Channel → Channel
log_connection_event event_type details s =
    log_line ("[" <> event_type <> "] " <> s.connection.client_ip <> ": " <> details) s
