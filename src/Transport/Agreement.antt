-- ===== src/Transport/Agreement.antt =====
-- Both sides of one handshake together.
use lokifix.Base64.{encode_raw_url}
use lokifix.Auth.{Manager, generate_session_token, generate_token, session_token_expiration}
use lokifix.Auth.Sessions.{generate_session_token_lifetime}
use lokifix.Crypto.{Library, IsAead, Cipher, new_cipher_from_secret, encrypt, decrypt_iff}
use lokifix.Protocol.Message.{Envelope, AuthHandshake, response, new_envelope}
use lokifix.Transport.{Codec, open_frame, frame_of, secret_of, sealed_or_text}
use lokifix.Transport.Server.{
  Server, info_of, opened, authenticate, by_session, or_by_code, after_auth, admit, set_connection,
  on_handshake, on_envelope, open_connection, end_connection, accepted_result, token_or_empty,
  reply_text,
}
use lokifix.Transport.Client.{
  Client, Host, handshake_of, hello, set_client, on_result, on_reply, finish_connect, newer_token,
  close,
}
use lokifix.Prelude.{
  ℕ, ◌+◌, ◌≤◌, ◌≡◌, refl, ap, ap₂, ◌∙◌, ◌≢◌, Bool, true, false, none, some, [], ◌∷◌, ◌++◌, length,
  Bytes, codes, is_empty,
}

-- The text of an envelope is read as that envelope.
abbrev pub Carries : Codec → Envelope → Type 0
Carries json e = json.unmarshal (json.marshal e) ≡ some e

abbrev pub hello_envelope : Codec → Host → ℕ → Client → Envelope
hello_envelope json host t c =
    new_envelope response (codes "auth") t (json.put_handshake (handshake_of host c))

abbrev pub reply_envelope : Codec → ℕ → Bytes → Envelope
reply_envelope json now tb =
    new_envelope response (codes "auth") now
      (json.put_result (accepted_result (some (encode_raw_url tb))))

-- The messages of one handshake, in which the server issues the session token made of `tb`, are
-- read as they were written; JSON text does so for texts in UTF-8.
pub record IsCarried (json : Codec) (host : Host) (c : Client) (t now : ℕ) (tb : Bytes)
    : Type 0 where
  pub hello_carried : Carries json (hello_envelope json host t c)
  pub handshake_read :
      json.get_handshake (json.put_handshake (handshake_of host c)) ≡ some (handshake_of host c)
  pub reply_carried : Carries json (reply_envelope json now tb)
  pub result_read :
      json.get_result (json.put_result (accepted_result (some (encode_raw_url tb))))
      ≡ some (accepted_result (some (encode_raw_url tb)))

-- The manager after it has accepted a handshake and issued a session token.
abbrev pub admitted : ℕ → AuthHandshake → Bytes → Manager → Manager
admitted now h tb m = (generate_session_token (some tb) now (authenticate now h m).0).0

module _ (lib : Library) (json : Codec) (host : Host) (c : Client) (s : Server) (k : Cipher)
    (t now conn n : ℕ) (tb : Bytes) where
  -- Both sides after a handshake that succeeds, and the reply between them.
  abbrev pub server_after : Server
  server_after = (open_connection lib json (some tb) now conn (hello json host t c) s).0

  abbrev pub reply : Bytes
  reply = reply_text json (codes "auth") now (accepted_result (some (encode_raw_url tb)))

  abbrev pub client_after : Client
  client_after = (finish_connect lib json n reply c).0

  after_auth-true :
      (id : Bytes) (h : AuthHandshake) (r : Manager × Bool)
      → r.1 ≡ true
      → after_auth lib json (some tb) now conn id h s r
        ≡ admit lib json (some tb) now conn id h (record s { manager = r.0 })
  unfolding after_auth
  after_auth-true id h (m, true) e = refl
  after_auth-true id h (m, false) e = cc

  admit-some :
      (id : Bytes) (h : AuthHandshake) (m : Manager)
      → new_cipher_from_secret lib (secret_of h.token h.session_token) ≡ some k
      → admit lib json (some tb) now conn id h (record s { manager = m }) ≡ (
        record s {
          manager = (generate_session_token (some tb) now m).0;
          conn = some conn;
          cipher = some k;
          agent_info = some (info_of now h);
        },
        opened (reply_text json id now (accepted_result (some (encode_raw_url tb)))),
      )
  unfolding admit set_connection generate_session_token generate_token
  admit-some id h m key = rw key refl

  opened_lem :
      IsCarried json host c t now tb
      → (authenticate now (handshake_of host c) s.manager).1 ≡ true
      → new_cipher_from_secret lib (secret_of c.token c.session_token) ≡ some k
      → open_connection lib json (some tb) now conn (hello json host t c) s ≡ (
        record s {
          manager = admitted now (handshake_of host c) tb s.manager;
          conn = some conn;
          cipher = some k;
          agent_info = some (info_of now (handshake_of host c));
        },
        opened reply,
      )
  unfolding open_connection hello on_envelope on_handshake new_envelope
  opened_lem carried auth key =
      rw (carried.hello_carried, carried.handshake_read)
        (after_auth-true (codes "auth") (handshake_of host c) _ auth
          ∙ admit-some (codes "auth") (handshake_of host c) _ key)

  connected_lem :
      IsCarried json host c t now tb
      → new_cipher_from_secret lib (secret_of c.token c.session_token) ≡ some k
      → finish_connect lib json n reply c ≡ (
        record c {
          conn = some n;
          cipher = some k;
          session_token = newer_token c.session_token (encode_raw_url tb);
        },
        none,
      )
  unfolding finish_connect on_reply on_result set_client reply_text token_or_empty new_envelope
  connected_lem carried key = rw (carried.reply_carried, carried.result_read, key) refl

frame_lem :
    (lib : Library) (k : Cipher) (iv text : Bytes)
    → IsAead lib
    → length iv ≡ lib.nonce_size
    → open_frame lib (some k) (frame_of lib (some k) (some iv) text) ≡ some text
unfolding open_frame frame_of sealed_or_text encrypt
frame_lem lib k iv text aead size =
    (decrypt_iff lib aead k (iv ++ lib.seal k.key iv text) text).1 (iv, size, refl)

-- Over an AEAD, and over JSON text that carries the messages of the handshake, after a handshake
-- that the manager accepts and whose secret gives a key, each side reads what the other sends with a
-- nonce of the right size, in both directions, and the agent has the session token that the server
-- has just issued, or its old one if that is empty.
pub handshake_agrees :
    (lib : Library) (json : Codec) (host : Host) (c : Client) (s : Server) (k : Cipher)
    (t now conn n : ℕ) (tb iv text : Bytes)
    → IsAead lib
    → IsCarried json host c t now tb
    → (authenticate now (handshake_of host c) s.manager).1 ≡ true
    → new_cipher_from_secret lib (secret_of c.token c.session_token) ≡ some k
    → length iv ≡ lib.nonce_size
    → ((open_connection lib json (some tb) now conn (hello json host t c) s).1
        ≡ opened (reply lib json host c s k t now conn n tb))
      × ((finish_connect lib json n (reply lib json host c s k t now conn n tb) c).1 ≡ none)
      × (open_frame lib
            (client_after lib json host c s k t now conn n tb).cipher
            (frame_of lib (server_after lib json host c s k t now conn n tb).cipher (some iv) text)
          ≡ some text)
      × (open_frame lib
            (server_after lib json host c s k t now conn n tb).cipher
            (frame_of lib (client_after lib json host c s k t now conn n tb).cipher (some iv) text)
          ≡ some text)
      × ((client_after lib json host c s k t now conn n tb).session_token
          ≡ newer_token c.session_token (encode_raw_url tb))
handshake_agrees lib json host c s k t now conn n tb iv text aead carried auth key size =
    let there = opened_lem lib json host c s k t now conn n tb carried auth key in
    let back = connected_lem lib json host c s k t now conn n tb carried key in
    let ours = ap (λ q. (q.0).cipher) there in
    let theirs = ap (λ q. (q.0).cipher) back in
    let read = frame_lem lib k iv text aead size in
    (
      ap (λ q. q.1) there,
      ap (λ q. q.1) back,
      ap₂ (λ x y. open_frame lib x (frame_of lib y (some iv) text)) theirs ours ∙ read,
      ap₂ (λ x y. open_frame lib x (frame_of lib y (some iv) text)) ours theirs ∙ read,
      ap (λ q. (q.0).session_token) back,
    )

is_empty-encode_raw_url : (tb : Bytes) → tb ≢ [] → is_empty (encode_raw_url tb) ≡ false
unfolding encode_raw_url
is_empty-encode_raw_url [] h = absurd (h refl)
is_empty-encode_raw_url (a ∷ []) h = refl
is_empty-encode_raw_url (a ∷ b ∷ []) h = refl
is_empty-encode_raw_url (a ∷ b ∷ d ∷ tb) h = refl

or_by_code-true :
    (now : ℕ) (h : AuthHandshake) (r : Manager × Bool) → r.1 ≡ true → (or_by_code now h r).1 ≡ true
unfolding or_by_code
or_by_code-true now h (m, true) e = refl
or_by_code-true now h (m, false) e = cc

-- An agent that lost a connection, made by a handshake that the manager accepted, whose secret gave
-- a key and whose messages JSON text carried, is let in again with the session token of one byte or
-- more that it was given, at any time within the 24 hours after it.
pub reconnect_accepted :
    (lib : Library) (json : Codec) (host : Host) (c : Client) (s : Server) (k : Cipher)
    (t now conn n later : ℕ) (tb : Bytes)
    → IsCarried json host c t now tb
    → (authenticate now (handshake_of host c) s.manager).1 ≡ true
    → new_cipher_from_secret lib (secret_of c.token c.session_token) ≡ some k
    → tb ≢ []
    → now ≤ later
    → later ≤ now + session_token_expiration
    → (authenticate later
        (handshake_of host (close (client_after lib json host c s k t now conn n tb)))
        (end_connection (server_after lib json host c s k t now conn n tb)).manager).1
      ≡ true
unfolding authenticate by_session newer_token close end_connection
reconnect_accepted lib json host c s k t now conn n later tb carried auth key some_bytes after
      within =
    let there = opened_lem lib json host c s k t now conn n tb carried auth key in
    let back = connected_lem lib json host c s k t now conn n tb carried key in
    let filled = is_empty-encode_raw_url tb some_bytes in
    let manager = (authenticate now (handshake_of host c) s.manager).0 in
    let live = (generate_session_token_lifetime tb now later manager after).1 within in
    ap₂
      (λ (x : Client) (y : Server).
        (authenticate later (handshake_of host (close x)) (end_connection y).manager).1)
      (ap (λ q. q.0) back) (ap (λ q. q.0) there)
    ∙ rw (filled, filled)
        (or_by_code-true later (handshake_of host (record c { session_token = encode_raw_url tb }))
          _ live)
