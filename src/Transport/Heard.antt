-- ===== src/Transport/Heard.antt =====
-- Where the envelopes in the channels of the requests come from: messages that a read loop took.
use lokifix.Auth.{Manager}
use lokifix.Crypto.{Library}
use lokifix.Dict
use lokifix.Protocol.Message.{Envelope, response, ping, type_name}
use lokifix.Transport.{Codec, Frame, open_frame}
use lokifix.Transport.Gate.{Promise, open_connection-Promise}
use lokifix.Transport.Server.{
  Server, new_server, Pending, Answer, invalid_message, invalid_handshake, auth_failed,
  crypto_failed, opened, open_connection, end_connection, put_in, on_message, receive,
}
use lokifix.Transport.Requests.{
  begin_request, forget_request, write_frame, send_request, collect_from, collect,
}
use lokifix.Transport.Life.{
  Hub, open_step, reject_step, read_step, end_step, send_step, collect_step, give_up_step,
  manager_step, Reach, here, next,
}
use lokifix.Prelude.{
  ℕ, ◌≡◌, refl, subst, arith, ◌⊎◌, inl, inr, Bool, true, false, Option, none, some, [], ◌∷◌,
  Bool-cases, Bytes, eq_bytes,
}

-- The server reads this envelope from the frame.
abbrev pub ReadAs : Library → Codec → Server → Frame → Envelope → Type 0
ReadAs lib json s f e =
    (text : Bytes) × (open_frame lib s.cipher f ≡ some text) × (json.unmarshal text ≡ some e)

-- One of the steps was that a read loop took a message with this envelope.
abbrev pub Heard :
    (lib : Library) (json : Codec) (e : Envelope) {start h : Hub} → Reach lib json start h → Type 0
Heard lib json e here = ⊥
Heard lib json e (next r (open_step h random now conn first s reply q)) = Heard lib json e r
Heard lib json e (next r (reject_step h random now conn first q)) = Heard lib json e r
Heard lib json e (next r (read_step h iv now f)) = ReadAs lib json h.server f e ⊎ Heard lib json e r
Heard lib json e (next r (end_step h conn q)) = Heard lib json e r
Heard lib json e (next r (send_step h iv written now id req)) = Heard lib json e r
Heard lib json e (next r (collect_step h id)) = Heard lib json e r
Heard lib json e (next r (give_up_step h id)) = Heard lib json e r
Heard lib json e (next r (manager_step h m)) = Heard lib json e r

-- What the envelopes in the channels satisfy.
abbrev pub Hold : (Envelope → Type 0) → Pending → Type 0
Hold P [] = Unit
Hold P ((id, none) ∷ p) = Hold P p
Hold P ((id, some e) ∷ p) = P e × Hold P p

Hold-weaker :
    (P Q : Envelope → Type 0) → ((e : Envelope) → P e → Q e) → (p : Pending) → Hold P p → Hold Q p
Hold-weaker P Q w [] h = tt
Hold-weaker P Q w ((id, none) ∷ p) h = Hold-weaker P Q w p h
Hold-weaker P Q w ((id, some e) ∷ p) h = (w e h.0, Hold-weaker P Q w p h.1)

module _ (P : Envelope → Type 0) where
  Hold-remove : (id : Bytes) (p : Pending) → Hold P p → Hold P (Dict.remove id p)
  unfolding Dict.remove
  Hold-remove id [] h = tt
  Hold-remove id ((j, none) ∷ p) h = elim (Bool-cases (eq_bytes j id)) [
    | inl e ↦ rw e (Hold-remove id p h)
    | inr e ↦ rw e (Hold-remove id p h)
  ]
  Hold-remove id ((j, some v) ∷ p) h = elim (Bool-cases (eq_bytes j id)) [
    | inl e ↦ rw e (Hold-remove id p h.1)
    | inr e ↦ rw e (h.0, Hold-remove id p h.1)
  ]

  pub Hold-lookup :
      (id : Bytes) (p : Pending) (e : Envelope) → Hold P p → Dict.lookup id p ≡ some (some e) → P e
  unfolding Dict.lookup
  Hold-lookup id [] e h l = cc
  Hold-lookup id ((j, none) ∷ p) e h l = elim (Bool-cases (eq_bytes j id)) [
    | inl q ↦ absurd (ground (arith, q))
    | inr q ↦ Hold-lookup id p e h (ground (arith, q))
  ]
  Hold-lookup id ((j, some v) ∷ p) e h l = elim (Bool-cases (eq_bytes j id)) [
    | inl q ↦ let same : v ≡ e = ground (arith, q) in subst P same h.0
    | inr q ↦ Hold-lookup id p e h.1 (ground (arith, q))
  ]

  put_in-Hold :
      (e : Envelope) (s : Server) (o : Option (Option Envelope))
      → P e
      → Hold P s.pending
      → Hold P ((put_in e s o).0).pending
  unfolding put_in Dict.insert
  put_in-Hold e s none q h = h
  put_in-Hold e s (some none) q h = (q, Hold-remove e.id s.pending h)
  put_in-Hold e s (some (some old)) q h = h

  on_message-Hold :
      (lib : Library) (json : Codec) (iv : Option Bytes) (now : ℕ) (o : Option Envelope)
      (s : Server)
      → ((e : Envelope) → o ≡ some e → P e)
      → Hold P s.pending
      → Hold P ((on_message lib json iv now o s).0).pending
  unfolding on_message
  on_message-Hold lib json iv now none s q h = h
  on_message-Hold lib json iv now (some e) s q h =
      elim (Bool-cases (eq_bytes e.kind (type_name response))) [
        | inl k ↦ rw k (put_in-Hold e s (Dict.lookup e.id s.pending) (q e refl) h)
        | inr k ↦ elim (Bool-cases (eq_bytes e.kind (type_name ping))) [
          | inl p ↦ rw (k, p) h
          | inr p ↦ rw (k, p) h
        ]
      ]

  receive-Hold :
      (lib : Library) (json : Codec) (iv : Option Bytes) (now : ℕ) (f : Frame) (s : Server)
      → ((e : Envelope) → ReadAs lib json s f e → P e)
      → Hold P s.pending
      → Hold P ((receive lib json iv now f s).0).pending
  unfolding receive
  receive-Hold lib json iv now f s q h = by_text (open_frame lib s.cipher f) refl
    where
      by_text :
          (o : Option Bytes)
          → open_frame lib s.cipher f ≡ o
          → Hold P ((receive lib json iv now f s).0).pending
      by_text none e = rw (receive, e) h
      by_text (some t) e =
          rw (receive, e)
            (on_message-Hold lib json iv now (json.unmarshal t) s (λ v u. q v (t, e, u)) h)

  write_frame-Hold :
      (id : Bytes) (written : Bool) (f : Option Frame) (s : Server)
      → Hold P s.pending
      → Hold P ((write_frame id written f s).0).pending
  unfolding write_frame forget_request
  write_frame-Hold id written none s h = Hold-remove id s.pending h
  write_frame-Hold id written (some f) s h = by_conn s.conn refl written
    where
      by_conn :
          (o : Option ℕ)
          → s.conn ≡ o
          → (b : Bool) → Hold P ((write_frame id b (some f) s).0).pending
      by_conn none e b = rw (write_frame, e) (Hold-remove id s.pending h)
      by_conn (some c) e true = rw (write_frame, e) h
      by_conn (some c) e false = rw (write_frame, e) (Hold-remove id s.pending h)

  collect_from-Hold :
      (json : Codec) (id : Bytes) (s : Server) (o : Option (Option Envelope))
      → Hold P s.pending
      → Hold P ((collect_from json id s o).0).pending
  unfolding collect_from forget_request
  collect_from-Hold json id s none h = h
  collect_from-Hold json id s (some none) h = h
  collect_from-Hold json id s (some (some e)) h = Hold-remove id s.pending h

  opened-Hold :
      (lib : Library) (json : Codec) (now conn : ℕ) (first : Bytes) (s : Server)
      (r : Server × Answer)
      → Promise lib json now conn first s r
      → Hold P s.pending
      → Hold P (r.0).pending
  opened-Hold lib json now conn first s (s', opened reply) (e, a, _, _, _, (_, _, _, p)) h = rw p h
  opened-Hold lib json now conn first s (s', invalid_message) (c, k, i, p) h = rw p h
  opened-Hold lib json now conn first s (s', invalid_handshake) (c, k, i, p) h = rw p h
  opened-Hold lib json now conn first s (s', auth_failed t) (c, k, i, p) h = rw p h
  opened-Hold lib json now conn first s (s', crypto_failed t) (c, k, i, p) h = rw p h

module _ (lib : Library) (json : Codec) (m : Manager) where
  abbrev start : Hub
  start = record { server = new_server m; loops = [] }

  -- What waits in the channel of a request was taken by a read loop.
  pub Reach-Hold :
      {h : Hub} (r : Reach lib json start h) → Hold (λ e. Heard lib json e r) h.server.pending
  unfolding end_connection forget_request collect send_request begin_request Dict.insert
  Reach-Hold here = tt
  Reach-Hold (next r (open_step h random now conn first s reply q)) =
      subst (λ (t : Server × Answer). Hold (λ e. Heard lib json e r) (t.0).pending) q
        (opened-Hold (λ e. Heard lib json e r) lib json now conn first h.server
          (open_connection lib json random now conn first h.server)
          (open_connection-Promise lib json random now conn first h.server) (Reach-Hold r))
  Reach-Hold (next r (reject_step h random now conn first q)) =
      opened-Hold (λ e. Heard lib json e r) lib json now conn first h.server
        (open_connection lib json random now conn first h.server)
        (open_connection-Promise lib json random now conn first h.server) (Reach-Hold r)
  Reach-Hold (next r (read_step h iv now f)) =
      receive-Hold (λ e. ReadAs lib json h.server f e ⊎ Heard lib json e r) lib json iv now f
        h.server (λ e q. inl q)
        (Hold-weaker (λ e. Heard lib json e r) _ (λ e q. inr q) h.server.pending (Reach-Hold r))
  Reach-Hold (next r (end_step h conn q)) = Reach-Hold r
  Reach-Hold (next r (send_step h iv written now id req)) =
      write_frame-Hold (λ e. Heard lib json e r) id written _ (begin_request id h.server)
        (Hold-remove (λ e. Heard lib json e r) id h.server.pending (Reach-Hold r))
  Reach-Hold (next r (collect_step h id)) =
      collect_from-Hold (λ e. Heard lib json e r) json id h.server (Dict.lookup id h.server.pending)
        (Reach-Hold r)
  Reach-Hold (next r (give_up_step h id)) =
      Hold-remove (λ e. Heard lib json e r) id h.server.pending (Reach-Hold r)
  Reach-Hold (next r (manager_step h n)) = Reach-Hold r
