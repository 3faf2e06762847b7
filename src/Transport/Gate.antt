-- ===== src/Transport/Gate.antt =====
-- Who gets a connection: what each answer to the first message has changed.
use lokifix.Auth.{Manager}
use lokifix.Crypto.{Library, Cipher, new_cipher_from_secret}
use lokifix.Protocol.Message.{Envelope, AuthHandshake}
use lokifix.Transport.{Codec, secret_of}
use lokifix.Transport.Server.{
  Server, Answer, opened, authenticate, after_auth, admit, set_connection, on_handshake,
  on_envelope, open_connection, info_of,
}
use lokifix.Prelude.{ℕ, ◌≡◌, refl, ap, Bool, true, false, Option, none, some, Bytes}

-- Nothing but the manager has changed.
abbrev pub KeepsConnection : Server → Server → Type 0
KeepsConnection s s' =
    (s'.conn ≡ s.conn)
    × (s'.cipher ≡ s.cipher)
    × (s'.agent_info ≡ s.agent_info)
    × (s'.pending ≡ s.pending)

-- The connection is the new one, with the key of the handshake's secret.
abbrev pub Opens : Library → ℕ → ℕ → AuthHandshake → Server → Server → Type 0
Opens lib now conn h s s' =
    (s'.conn ≡ some conn)
    × ((k : Cipher) × (s'.cipher ≡ some k)
        × (new_cipher_from_secret lib (secret_of h.token h.session_token) ≡ some k))
    × (s'.agent_info ≡ some (info_of now h))
    × (s'.pending ≡ s.pending)

-- What an answer promises of the states before and after it, and of the first message.
abbrev pub Promise : Library → Codec → ℕ → ℕ → Bytes → Server → Server × Answer → Type 0
Promise lib json now conn first s (s', opened reply) =
    (e : Envelope) × (h : AuthHandshake) × (json.unmarshal first ≡ some e)
    × (json.get_handshake e.payload ≡ some h)
    × ((authenticate now h s.manager).1 ≡ true)
    × Opens lib now conn h s s'
Promise lib json now conn first s (s', a) = KeepsConnection s s'

module _ (lib : Library) (json : Codec) (random : Option Bytes) (now conn : ℕ) (first : Bytes)
    (s : Server) where
  set_connection-Promise :
      (e : Envelope) (h : AuthHandshake) (reply : Bytes) (m : Manager) (k : Option Cipher)
      → json.unmarshal first ≡ some e
      → json.get_handshake e.payload ≡ some h
      → (authenticate now h s.manager).1 ≡ true
      → new_cipher_from_secret lib (secret_of h.token h.session_token) ≡ k
      → Promise lib json now conn first s
          (set_connection now conn h reply k (record s { manager = m }))
  unfolding set_connection
  set_connection-Promise e h reply m none he hh ha hk = (refl, refl, refl, refl)
  set_connection-Promise e h reply m (some c) he hh ha hk =
      (e, h, he, hh, ha, (refl, (c, refl, hk), refl, refl))

  after_auth-Promise :
      (e : Envelope) (h : AuthHandshake) (r : Manager × Bool)
      → json.unmarshal first ≡ some e
      → json.get_handshake e.payload ≡ some h
      → authenticate now h s.manager ≡ r
      → Promise lib json now conn first s (after_auth lib json random now conn e.id h s r)
  unfolding after_auth admit
  after_auth-Promise e h (m, false) he hh ha = (refl, refl, refl, refl)
  after_auth-Promise e h (m, true) he hh ha =
      set_connection-Promise e h _ _ _ he hh (ap (λ q. q.1) ha) refl

  on_handshake-Promise :
      (e : Envelope) (o : Option AuthHandshake)
      → json.unmarshal first ≡ some e
      → json.get_handshake e.payload ≡ o
      → Promise lib json now conn first s (on_handshake lib json random now conn e.id o s)
  unfolding on_handshake
  on_handshake-Promise e none he ho = (refl, refl, refl, refl)
  on_handshake-Promise e (some h) he ho =
      after_auth-Promise e h (authenticate now h s.manager) he ho refl

  on_envelope-Promise :
      (o : Option Envelope)
      → json.unmarshal first ≡ o
      → Promise lib json now conn first s (on_envelope lib json random now conn o s)
  unfolding on_envelope
  on_envelope-Promise none ho = (refl, refl, refl, refl)
  on_envelope-Promise (some e) ho = on_handshake-Promise e (json.get_handshake e.payload) ho refl

  -- A connection is opened only for a handshake that the manager has accepted; the server then uses
  -- it with the key of that handshake's secret and tells the agent's data of it. On every other
  -- answer, the connection in use, its key and the pending requests are what they were.
  pub open_connection-Promise :
      Promise lib json now conn first s (open_connection lib json random now conn first s)
  unfolding open_connection
  open_connection-Promise = on_envelope-Promise (json.unmarshal first) refl
