-- ===== src/Transport.antt =====
-- The connection between the MCP server and the agent (internal/transport). The WebSocket library
-- and JSON are arguments: a connection is known by a number, a message is a text or a binary frame.
pub mod Server
pub mod Requests
pub mod Client
pub mod Gate
pub mod Agreement
pub mod Kept
pub mod Life
pub mod Heard
pub mod Delivery
pub mod Tests
use lokifix.Protocol.Message.{Envelope, AuthHandshake, AuthResult, Request, Response}
use lokifix.Crypto.{Library, Cipher, encrypt, decrypt}
use lokifix.Prelude.{
  ℕ, zero, suc, ◌+◌, ◌-◌, ◌*◌, ◌/◌, ◌%◌, ◌^◌, ◌≤◌, ◌<◌, ◌≡◌, refl, sym, ap, ap₂, subst, ◌∙◌, ◌≢◌,
  ◌↔◌, ◌⊎◌, inl, inr, Bool, true, false, not, ◌&&◌, ◌||◌, Option, none, some, List, [], ◌∷◌, ◌++◌,
  map, append-nil, append_assoc, arith, ltb, leb, ◌==◌, if◌then◌else◌, ltb→lt, lt→ltb, leb→le,
  ==_iff, Bool-cases, Option-cases, length, get_elem?, length-append, take, drop, replicate,
  length-take, length-drop, length-replicate, take-append-drop, take-append, take_all, take_nil,
  nil_of_length, length-map, All, All-append, Bytes, codes, eq_bytes, eq_bytes_iff, eq_bytes_refl,
  eq_bytes→eq, is_empty, lower, upper, to_lower, to_upper, to_lower_idem, is_space, trim_left,
  trim_right, trim_space, split_on, split, push_left, cut_at, replace_byte, join, show_nat,
  has_prefix, contains, has_prefix_sound, has_prefix_complete, contains_sound, contains_complete,
}

-- `json.Marshal` and `json.Unmarshal` of what is sent. A response may hold a float that has no JSON
-- text; the other values always have one.
pub record Codec : Type 0 where
  pub marshal : Envelope → Bytes
  pub unmarshal : Bytes → Option Envelope
  pub put_handshake : AuthHandshake → Bytes
  pub get_handshake : Bytes → Option AuthHandshake
  pub put_result : AuthResult → Bytes
  pub get_result : Bytes → Option AuthResult
  pub put_request : Request → Bytes
  pub get_request : Bytes → Option Request
  pub put_response : Response → Option Bytes
  pub get_response : Bytes → Option Response

pub data Frame : Type 0 where
  text_frame : Bytes → Frame
  binary_frame : Bytes → Frame

-- What both sides do before they read an envelope: a binary frame is decrypted where there is a
-- cipher, anything else is taken as it is. `none` is a frame that cannot be decrypted.
unfoldable pub open_frame : Library → Option Cipher → Frame → Option Bytes
open_frame lib c (text_frame t) = some t
open_frame lib none (binary_frame b) = some b
open_frame lib (some c) (binary_frame b) = decrypt lib c b

-- The frame of a text that is encrypted where that can be done, and else sent as it is.
unfoldable pub sealed_or_text : Bytes → Option Bytes → Frame
sealed_or_text t none = text_frame t
sealed_or_text t (some b) = binary_frame b

unfoldable pub frame_of : Library → Option Cipher → Option Bytes → Bytes → Frame
unfolding sealed_or_text
frame_of lib none iv t = text_frame t
frame_of lib (some c) iv t = sealed_or_text t (encrypt lib c iv t)

-- The secret of a handshake: the session token if there is one, else the code's token.
unfoldable pub secret_of : Bytes → Bytes → Bytes
secret_of token session_token = if is_empty session_token then token else session_token
