-- ===== src/Transport/Requests.antt =====
-- A request of the server and its response (internal/transport/server.go, `SendRequest`).
use lokifix.Crypto.{Library, Cipher, encrypt}
use lokifix.Dict
use lokifix.Protocol.Message.{Envelope, Request, Response, request, new_envelope}
use lokifix.Transport.{Codec, Frame, text_frame, binary_frame}
use lokifix.Transport.Server.{Server}
use lokifix.Prelude.{ℕ, Bool, Option, none, some, if◌then◌else◌, Bytes}

pub data SendError : Type 0 where
  encrypt_failed no_agent write_failed cancelled unmarshal_failed : SendError

-- The text of a request, and the frame that carries it; `none` where encryption fails.
unfoldable pub request_text : Codec → Bytes → ℕ → Request → Bytes
request_text json id now req = json.marshal (new_envelope request id now (json.put_request req))

unfoldable pub request_frame : Library → Option Cipher → Option Bytes → Bytes → Option Frame
request_frame lib none iv t = some (text_frame t)
request_frame lib (some c) iv t = elim (encrypt lib c iv t) [
  | none ↦ none
  | some b ↦ some (binary_frame b)
]

-- `SendRequest` up to its wait: the channel is there before the request is sent.
unfoldable pub begin_request : Bytes → Server → Server
begin_request id s = record s { pending = Dict.insert id none s.pending }

-- The deferred removal of the channel, on every way out.
unfoldable pub forget_request : Bytes → Server → Server
forget_request id s = record s { pending = Dict.remove id s.pending }

pub data Sent : Type 0 where
  on_wire : ℕ → Frame → Sent
  not_sent : SendError → Sent

unfoldable pub write_frame : Bytes → Bool → Option Frame → Server → Server × Sent
unfolding forget_request
write_frame id written none s = (forget_request id s, not_sent encrypt_failed)
write_frame id written (some f) s = elim s.conn [
  | none ↦ (forget_request id s, not_sent no_agent)
  | some c ↦ (if written then (s, on_wire c f) else (forget_request id s, not_sent write_failed))
]

-- `written` tells whether the write on the connection succeeds.
unfoldable pub send_request :
    Library → Codec → Option Bytes → Bool → ℕ → Bytes → Request → Server → Server × Sent
unfolding write_frame request_frame request_text begin_request
send_request lib json iv written now id req s =
    let text = request_text json id now req in
    write_frame id written (request_frame lib s.cipher iv text) (begin_request id s)

pub data Collected : Type 0 where
  waiting : Collected
  got : Response → Collected
  no_response : Collected

unfoldable pub read_response : Codec → Option Response → Collected
read_response json none = no_response
read_response json (some r) = got r

-- The wait of `SendRequest`: nothing happens until there is an envelope in the channel.
unfoldable pub collect_from : Codec → Bytes → Server → Option (Option Envelope) → Server × Collected
unfolding forget_request read_response
collect_from json id s (some (some e)) =
    (forget_request id s, read_response json (json.get_response e.payload))
collect_from json id s (some none) = (s, waiting)
collect_from json id s none = (s, waiting)

unfoldable pub collect : Codec → Bytes → Server → Server × Collected
unfolding collect_from
collect json id s = collect_from json id s (Dict.lookup id s.pending)
