-- ===== src/Transport/Client.antt =====
-- The agent's side (internal/transport/client.go).
use lokifix.Crypto.{Library, Cipher, new_cipher_from_secret}
use lokifix.Protocol.Message.{
  Envelope, AuthHandshake, AuthResult, Request, Response, request, response, ping, type_name,
  new_envelope, invalid_request, failure_of,
}
use lokifix.Transport.{Codec, Frame, open_frame, frame_of, secret_of}
use lokifix.Prelude.{ℕ, Option, none, some, [], if◌then◌else◌, Bytes, codes, eq_bytes, is_empty}

pub record Client : Type 0 where
  pub server_url : Bytes
  pub token : Bytes
  pub session_token : Bytes
  pub conn : Option ℕ
  pub cipher : Option Cipher

abbrev pub new_client : Bytes → Bytes → Client
new_client url token = record {
  server_url = url;
  token = token;
  session_token = [];
  conn = none;
  cipher = none;
}

unfoldable pub set_session_token : Bytes → Client → Client
set_session_token t c = record c { session_token = t }

-- The machine that the agent runs on.
pub record Host : Type 0 where
  pub hostname : Bytes
  pub os : Bytes
  pub arch : Bytes

abbrev pub handshake_of : Host → Client → AuthHandshake
handshake_of host c = record {
  token = c.token;
  session_token = c.session_token;
  hostname = host.hostname;
  os = host.os;
  arch = host.arch;
}

-- The first message of `Connect`.
unfoldable pub hello : Codec → Host → ℕ → Client → Bytes
hello json host now c =
    json.marshal
      (new_envelope response (codes "auth") now (json.put_handshake (handshake_of host c)))

pub data ConnectError : Type 0 where
  bad_reply bad_result crypto_setup : ConnectError
  rejected : Bytes → ConnectError

unfoldable pub newer_token : Bytes → Bytes → Bytes
newer_token old new = if is_empty new then old else new

unfoldable pub set_client : ℕ → AuthResult → Option Cipher → Client → Client × Option ConnectError
unfolding newer_token
set_client conn r none c = (c, some crypto_setup)
set_client conn r (some k) c = (
  record c {
    conn = some conn;
    cipher = some k;
    session_token = newer_token c.session_token r.session_token;
  },
  none,
)

unfoldable pub on_result : Library → ℕ → Option AuthResult → Client → Client × Option ConnectError
unfolding set_client
on_result lib conn none c = (c, some bad_result)
on_result lib conn (some r) c =
    if r.accepted
    then set_client conn r (new_cipher_from_secret lib (secret_of c.token c.session_token)) c
    else (c, some (rejected r.message))

unfoldable pub on_reply :
    Library → Codec → ℕ → Option Envelope → Client → Client × Option ConnectError
unfolding on_result
on_reply lib json conn none c = (c, some bad_reply)
on_reply lib json conn (some e) c = on_result lib conn (json.get_result e.payload) c

-- `Connect` from the server's reply on.
unfoldable pub finish_connect : Library → Codec → ℕ → Bytes → Client → Client × Option ConnectError
unfolding on_reply
finish_connect lib json conn reply c = on_reply lib json conn (json.unmarshal reply) c

unfoldable pub close : Client → Client
close c = record c { conn = none }

-- `writeMessage`: the frame that is written, or none without a connection or a text.
unfoldable pub write_text : Library → Option Bytes → Client → Option Bytes → Option (ℕ × Frame)
write_text lib iv c none = none
write_text lib iv c (some t) = elim c.conn [
  | none ↦ none
  | some n ↦ some (n, frame_of lib c.cipher iv t)
]

abbrev pub response_text : Codec → Bytes → ℕ → Option Bytes → Option Bytes
response_text json id now none = none
response_text json id now (some p) = some (json.marshal (new_envelope response id now p))

unfoldable pub write_message :
    Library → Codec → Option Bytes → ℕ → Bytes → Response → Client → Option (ℕ × Frame)
unfolding write_text
write_message lib json iv now id r c =
    write_text lib iv c (response_text json id now (json.put_response r))

abbrev pub ping_text : Codec → Bytes → ℕ → Bytes
ping_text json null now = json.marshal (new_envelope ping (codes "ping") now null)

-- What `pingLoop` writes every thirty seconds, or none without a connection, which ends it.
unfoldable pub ping_frame : Library → Codec → Option Bytes → ℕ → Client → Option (ℕ × Frame)
unfolding write_text
ping_frame lib json iv now c = write_text lib iv c (some (ping_text json (codes "null") now))

-- What the main loop does with a message: it starts a handler, or nothing.
unfoldable pub accept_message : Codec → Option Envelope → Option (Bytes × Option Request)
unfolding type_name
accept_message json none = none
accept_message json (some e) =
    if eq_bytes e.kind (type_name request) then some (e.id, json.get_request e.payload) else none

-- One round of `Run` on a frame: the id and the request of the handler that it starts.
unfoldable pub receive : Library → Codec → Frame → Client → Option (Bytes × Option Request)
unfolding accept_message open_frame
receive lib json frame c = elim (open_frame lib c.cipher frame) [
  | none ↦ none
  | some t ↦ accept_message json (json.unmarshal t)
]

-- `handleRequest`; the handler changes the state of the agent.
unfoldable pub handle_request :
    {S : Type 0} → (Request → S → S × Response) → Option Request → S → S × Response
handle_request handler none s = (s, failure_of invalid_request)
handle_request handler (some req) s = handler req s
