-- ===== src/Transport/Server.antt =====
-- The operator's side (internal/transport/server.go). Each locked region is one step.
use lokifix.Auth.{Manager, validate_token, validate_session_token, generate_session_token}
use lokifix.Crypto.{Library, Cipher, new_cipher_from_secret}
use lokifix.Dict
use lokifix.Protocol.Message.{
  Envelope, AuthHandshake, AuthResult, response, ping, pong, type_name, new_envelope,
}
use lokifix.Transport.{Codec, Frame, open_frame, frame_of, secret_of}
use lokifix.Prelude.{
  ℕ, Bool, true, false, Option, none, some, List, [], if◌then◌else◌, Bytes, codes, eq_bytes,
  is_empty,
}

pub record ConnectionInfo : Type 0 where
  pub hostname : Bytes
  pub os : Bytes
  pub arch : Bytes
  pub connected_at : ℕ

-- A pending request has a channel of capacity one: it holds an envelope or none.
abbrev pub Pending : Type 0
Pending = List (Bytes × Option Envelope)

pub record Server : Type 0 where
  pub manager : Manager
  pub conn : Option ℕ
  pub cipher : Option Cipher
  pub agent_info : Option ConnectionInfo
  pub pending : Pending

abbrev pub new_server : Manager → Server
new_server m = record { manager = m; conn = none; cipher = none; agent_info = none; pending = [] }

unfoldable pub has_value {ℓ} : {A : Type ℓ} → Option A → Bool
has_value none = false
has_value (some a) = true

unfoldable pub is_connected : Server → Bool
unfolding has_value
is_connected s = has_value s.conn

unfoldable pub get_connection_info : Server → Option ConnectionInfo
get_connection_info s = s.agent_info

-- The code's token is looked at where the session token was not accepted.
unfoldable pub or_by_code : ℕ → AuthHandshake → Manager × Bool → Manager × Bool
or_by_code now h (m, true) = (m, true)
or_by_code now h (m, false) = validate_token now h.token m

unfoldable pub by_session : ℕ → AuthHandshake → Manager → Manager × Bool
by_session now h m =
    if is_empty h.session_token then (m, false) else validate_session_token now h.session_token m

unfoldable pub authenticate : ℕ → AuthHandshake → Manager → Manager × Bool
unfolding or_by_code by_session
authenticate now h m = or_by_code now h (by_session now h m)

-- How the first message of a connection is answered. All but `opened` close the connection; the
-- texts are the reply that is sent before.
pub data Answer : Type 0 where
  invalid_message : Answer
  invalid_handshake : Answer
  auth_failed : Bytes → Answer
  crypto_failed : Bytes → Answer
  opened : Bytes → Answer

unfoldable pub reply_text : Codec → Bytes → ℕ → AuthResult → Bytes
reply_text json id now r = json.marshal (new_envelope response id now (json.put_result r))

unfoldable pub token_or_empty : Option Bytes → Bytes
token_or_empty none = []
token_or_empty (some t) = t

abbrev pub accepted_result : Option Bytes → AuthResult
accepted_result t = record {
  accepted = true;
  message = codes "connected";
  session_token = token_or_empty t;
}

abbrev pub rejected_result : AuthResult
rejected_result = record {
  accepted = false;
  message = codes "invalid or expired token";
  session_token = [];
}

abbrev pub info_of : ℕ → AuthHandshake → ConnectionInfo
info_of now h = record { hostname = h.hostname; os = h.os; arch = h.arch; connected_at = now }

unfoldable pub set_connection :
    ℕ → ℕ → AuthHandshake → Bytes → Option Cipher → Server → Server × Answer
set_connection now conn h reply none s = (s, crypto_failed reply)
set_connection now conn h reply (some c) s = (
  record s { conn = some conn; cipher = some c; agent_info = some (info_of now h) },
  opened reply,
)

-- After the authentication: the session token is issued, and the reply is sent unencrypted.
unfoldable pub admit :
    Library → Codec → Option Bytes → ℕ → ℕ → Bytes → AuthHandshake → Server → Server × Answer
unfolding set_connection reply_text token_or_empty
admit lib json random now conn id h s =
    let (m, token) = generate_session_token random now s.manager in
    set_connection now conn h (reply_text json id now (accepted_result token))
      (new_cipher_from_secret lib (secret_of h.token h.session_token)) (record s { manager = m })

unfoldable pub after_auth :
    Library
    → Codec
    → Option Bytes
    → ℕ
    → ℕ
    → Bytes
    → AuthHandshake
    → Server
    → Manager × Bool
    → Server × Answer
unfolding admit reply_text
after_auth lib json random now conn id h s (m, false) =
    (record s { manager = m }, auth_failed (reply_text json id now rejected_result))
after_auth lib json random now conn id h s (m, true) =
    admit lib json random now conn id h (record s { manager = m })

unfoldable pub on_handshake :
    Library → Codec → Option Bytes → ℕ → ℕ → Bytes → Option AuthHandshake → Server → Server × Answer
unfolding after_auth authenticate
on_handshake lib json random now conn id none s = (s, invalid_handshake)
on_handshake lib json random now conn id (some h) s =
    after_auth lib json random now conn id h s (authenticate now h s.manager)

unfoldable pub on_envelope :
    Library → Codec → Option Bytes → ℕ → ℕ → Option Envelope → Server → Server × Answer
unfolding on_handshake
on_envelope lib json random now conn none s = (s, invalid_message)
on_envelope lib json random now conn (some e) s =
    on_handshake lib json random now conn e.id (json.get_handshake e.payload) s

-- `handleWebSocket` up to its read loop, on the first message of the connection.
unfoldable pub open_connection :
    Library → Codec → Option Bytes → ℕ → ℕ → Bytes → Server → Server × Answer
unfolding on_envelope
open_connection lib json random now conn first s =
    on_envelope lib json random now conn (json.unmarshal first) s

-- `handleWebSocket` after its read loop, whichever connection has ended.
unfoldable pub end_connection : Server → Server
end_connection s = record s { conn = none; cipher = none; agent_info = none }

-- What the read loop does with a message. `blocked` is a send on a full channel, at which the loop
-- waits until the request is collected.
pub data Reaction : Type 0 where
  ignored : Reaction
  delivered : Reaction
  blocked : Reaction
  answered : Frame → Reaction

unfoldable pub put_in : Envelope → Server → Option (Option Envelope) → Server × Reaction
put_in e s none = (s, ignored)
put_in e s (some none) = (record s { pending = Dict.insert e.id (some e) s.pending }, delivered)
put_in e s (some (some old)) = (s, blocked)

abbrev pub pong_text : Codec → Bytes → ℕ → Bytes → Bytes
pong_text json null now id = json.marshal (new_envelope pong id now null)

unfoldable pub on_message :
    Library → Codec → Option Bytes → ℕ → Option Envelope → Server → Server × Reaction
unfolding put_in type_name
on_message lib json iv now none s = (s, ignored)
on_message lib json iv now (some e) s =
    if eq_bytes e.kind (type_name response)
    then put_in e s (Dict.lookup e.id s.pending)
    else if eq_bytes e.kind (type_name ping)
    then (s, answered (frame_of lib s.cipher iv (pong_text json (codes "null") now e.id)))
    else (s, ignored)

-- One round of `readLoop`.
unfoldable pub receive : Library → Codec → Option Bytes → ℕ → Frame → Server → Server × Reaction
unfolding on_message open_frame
receive lib json iv now frame s = elim (open_frame lib s.cipher frame) [
  | none ↦ (s, ignored)
  | some t ↦ on_message lib json iv now (json.unmarshal t) s
]
