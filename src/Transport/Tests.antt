-- ===== src/Transport/Tests.antt =====
-- A handshake and a request in small, as cases of what is proved about the connection.
use lokifix.Auth.{Manager, ConnectionCode, validate_token, drop_expired_codes, is_expired}
use lokifix.Auth
use lokifix.Base64.{encode_raw_url}
use lokifix.Crypto.{Cipher, encrypt, new_cipher_from_secret}
use lokifix.Crypto.Tests.{marking, marking-IsAead}
use lokifix.Dict
use lokifix.Protocol.Message.{Envelope, Request, success_of, nothing, new_envelope, type_name}
use lokifix.Transport.{Codec, text_frame, open_frame, frame_of, secret_of}
use lokifix.Transport.Server.{
  Server, new_server, authenticate, opened, open_connection, end_connection, receive, reply_text,
}
use lokifix.Transport.Requests.{send_request, collect, got}
use lokifix.Transport.Client.{
  Client, new_client, Host, handshake_of, hello, finish_connect, newer_token, close,
}
use lokifix.Transport.Gate.{Promise, open_connection-Promise}
use lokifix.Transport.Agreement.{
  IsCarried, reply, client_after, server_after, handshake_agrees, reconnect_accepted,
}
use lokifix.Transport.Life.{
  Hub, Reach, here, next, open_step, send_step, read_step, IsSound, Reach-IsSound,
}
use lokifix.Transport.Heard.{Heard}
use lokifix.Transport.Delivery.{collect-own, ComesFrom}
use lokifix.Prelude.{
  ◌≡◌, refl, ◌≢◌, true, false, none, some, [], ◌∷◌, arith, drop, replicate, Bytes, codes, eq_bytes,
}

abbrev host : Host
host = record { hostname = []; os = []; arch = [] }

-- Every text is an envelope of a handshake, whose payload has the token behind one byte.
abbrev plain : Codec
plain = record {
  marshal = λ e. e.payload;
  unmarshal =
      λ t. some (record { kind = codes "response"; id = codes "auth"; timestamp = 0; payload = t });
  put_handshake = λ h. 1 ∷ h.token;
  get_handshake = λ t.
      some (record { token = drop 1 t; session_token = []; hostname = []; os = []; arch = [] });
  put_result = λ r. 2 ∷ r.session_token;
  get_result =
      λ t. some (record { accepted = true; message = codes "connected"; session_token = drop 1 t });
  put_request = λ r. r.tool;
  get_request = λ t. none;
  put_response = λ r. none;
  get_response = λ t. some (success_of nothing);
}

abbrev agent : Client
agent = new_client (codes "ws://h") (codes "tok")

abbrev manager : Manager
manager = record {
  code_map =
      (codes "C", record { code = codes "C"; token = codes "tok"; created_at = 0; used = false })
      ∷ [];
  session_tokens = [];
}

abbrev server : Server
server = new_server manager

abbrev key : Cipher
key = record { key = replicate 32 0 }

all-IsCarried : IsCarried plain host agent 0 0 (1 ∷ [])
unfolding new_envelope type_name
all-IsCarried = record {
  hello_carried = refl;
  handshake_read = refl;
  reply_carried = refl;
  result_read = refl;
}

code_accepted : (authenticate 0 (handshake_of host agent) manager).1 ≡ true
unfolding authenticate validate_token drop_expired_codes eq_bytes Auth.use_first
code_accepted = refl

key_made : new_cipher_from_secret marking (secret_of (codes "tok") []) ≡ some key
unfolding new_cipher_from_secret secret_of
key_made = refl

abbrev FrameRead : Client → Server → Type 0
FrameRead c s =
    open_frame marking c.cipher (frame_of marking s.cipher (some (5 ∷ 6 ∷ [])) (codes "hi"))
    ≡ some (codes "hi")

handshake_agrees_example :
    ((open_connection marking plain (some (1 ∷ [])) 0 7 (hello plain host 0 agent) server).1
      ≡ opened (reply marking plain host agent server key 0 0 7 8 (1 ∷ [])))
    × ((finish_connect marking plain 8
          (reply marking plain host agent server key 0 0 7 8 (1 ∷ []))
          agent).1
        ≡ none)
    × FrameRead
        (client_after marking plain host agent server key 0 0 7 8 (1 ∷ []))
        (server_after marking plain host agent server key 0 0 7 8 (1 ∷ []))
    × (open_frame marking
          (server_after marking plain host agent server key 0 0 7 8 (1 ∷ [])).cipher
          (frame_of marking
            (client_after marking plain host agent server key 0 0 7 8 (1 ∷ [])).cipher
            (some (5 ∷ 6 ∷ []))
            (codes "hi"))
        ≡ some (codes "hi"))
    × ((client_after marking plain host agent server key 0 0 7 8 (1 ∷ [])).session_token
        ≡ newer_token [] (encode_raw_url (1 ∷ [])))
handshake_agrees_example =
    handshake_agrees marking plain host agent server key 0 0 7 8 (1 ∷ []) (5 ∷ 6 ∷ []) (codes "hi")
      marking-IsAead all-IsCarried code_accepted key_made refl

some_bytes : ◌≢◌ {A = Bytes} (1 ∷ []) []
some_bytes = ground arith

reconnect_accepted_example :
    (authenticate 5
      (handshake_of host
        (close (client_after marking plain host agent server key 0 0 7 8 (1 ∷ []))))
      (end_connection
        (server_after marking plain host agent server key 0 0 7 8 (1 ∷ []))).manager).1
    ≡ true
reconnect_accepted_example =
    reconnect_accepted marking plain host agent server key 0 0 7 8 5 (1 ∷ []) all-IsCarried
      code_accepted key_made some_bytes (omega arith) (omega arith)

open_connection-Promise_example :
    Promise marking plain 0 7
      (hello plain host 0 agent)
      server
      (open_connection marking plain (some (1 ∷ [])) 0 7 (hello plain host 0 agent) server)
open_connection-Promise_example =
    open_connection-Promise marking plain (some (1 ∷ [])) 0 7 (hello plain host 0 agent) server

abbrev start : Hub
start = record { server = server; loops = [] }

abbrev open_server : Server
open_server = (open_connection marking plain (some (1 ∷ [])) 0 7 (1 ∷ codes "tok") server).0

abbrev shot : Request
shot = record { tool = codes "sys_info"; params = none }

abbrev waiting_server : Server
waiting_server =
    (send_request marking plain (some (5 ∷ 6 ∷ [])) true 1 (codes "auth") shot open_server).0

abbrev served : Server
served = (receive marking plain none 2 (text_frame (codes "x")) waiting_server).0

is_opened :
    open_connection marking plain (some (1 ∷ [])) 0 7 (1 ∷ codes "tok") server
    ≡ (open_server, opened (2 ∷ encode_raw_url (1 ∷ [])))
unfolding open_connection authenticate validate_token drop_expired_codes eq_bytes Auth.use_first
    new_cipher_from_secret secret_of reply_text new_envelope encode_raw_url
    Auth.generate_session_token
is_opened = refl

reached : Reach marking plain start (record { server = served; loops = 7 ∷ [] })
reached =
    next
      (next
        (next here (open_step start (some (1 ∷ [])) 0 7 (1 ∷ codes "tok") open_server _ is_opened))
        (send_step (record { server = open_server; loops = 7 ∷ [] }) (some (5 ∷ 6 ∷ [])) true 1
          (codes "auth") shot))
      (read_step (record { server = waiting_server; loops = 7 ∷ [] }) none 2
        (text_frame (codes "x")))

Reach-IsSound_example : IsSound (record { server = served; loops = 7 ∷ [] })
Reach-IsSound_example = Reach-IsSound marking plain manager reached

is_collected : (collect plain (codes "auth") served).1 ≡ got (success_of nothing)
unfolding collect receive send_request open_connection authenticate validate_token
    drop_expired_codes eq_bytes Auth.use_first new_cipher_from_secret secret_of open_frame type_name
    Dict.lookup encrypt Dict.insert
is_collected = refl

collect-own_example :
    (e : Envelope) × Heard marking plain e reached
    × ComesFrom plain (codes "auth") (success_of nothing) e
    × (Dict.lookup (codes "auth") (collect plain (codes "auth") served).0.pending ≡ none)
collect-own_example =
    collect-own marking plain manager (codes "auth") (success_of nothing)
      (record { server = served; loops = 7 ∷ [] }) reached is_collected
