-- ===== src/Transport/Kept.antt =====
-- Which steps of the server keep the connection as it is and the pending requests in order.
use lokifix.Crypto.{Library}
use lokifix.Dict
use lokifix.Protocol.Message.{Envelope, Request, response, ping, type_name}
use lokifix.Transport.{Codec, Frame, open_frame}
use lokifix.Transport.Server.{Server, Pending, put_in, on_message, receive}
use lokifix.Transport.Requests.{
  begin_request, forget_request, write_frame, send_request, collect_from,
}
use lokifix.Prelude.{
  ℕ, ◌≡◌, refl, inl, inr, Bool, true, false, Option, none, some, [], ◌∷◌, Bool-cases, Bytes,
  eq_bytes, eq_bytes→eq,
}

-- An envelope in a channel is a response with the id of its request.
abbrev pub AreMatched : Pending → Type 0
AreMatched [] = Unit
AreMatched ((id, none) ∷ p) = AreMatched p
AreMatched ((id, some e) ∷ p) = (e.id ≡ id) × (e.kind ≡ type_name response) × AreMatched p

pub AreMatched-remove : (id : Bytes) (p : Pending) → AreMatched p → AreMatched (Dict.remove id p)
unfolding Dict.remove
AreMatched-remove id [] m = tt
AreMatched-remove id ((j, none) ∷ p) m = elim (Bool-cases (eq_bytes j id)) [
  | inl e ↦ rw e (AreMatched-remove id p m)
  | inr e ↦ rw e (AreMatched-remove id p m)
]
AreMatched-remove id ((j, some v) ∷ p) m = elim (Bool-cases (eq_bytes j id)) [
  | inl e ↦ rw e (AreMatched-remove id p m.2)
  | inr e ↦ rw e (m.0, m.1, AreMatched-remove id p m.2)
]

AreMatched-insert-none :
    (id : Bytes) (p : Pending) → AreMatched p → AreMatched (Dict.insert id none p)
unfolding Dict.insert
AreMatched-insert-none id p m = AreMatched-remove id p m

AreMatched-insert-some :
    (e : Envelope) (p : Pending)
    → e.kind ≡ type_name response
    → AreMatched p
    → AreMatched (Dict.insert e.id (some e) p)
unfolding Dict.insert
AreMatched-insert-some e p k m = (refl, k, AreMatched-remove e.id p m)

-- The connection is what it was, and the pending requests are in order.
abbrev pub Kept : Server → Server → Type 0
Kept s s' =
    (s'.conn ≡ s.conn)
    × (s'.cipher ≡ s.cipher)
    × (s'.agent_info ≡ s.agent_info)
    × AreMatched s'.pending

put_in-Kept :
    (e : Envelope) (s : Server) (o : Option (Option Envelope))
    → e.kind ≡ type_name response
    → AreMatched s.pending
    → Kept s (put_in e s o).0
unfolding put_in
put_in-Kept e s none k m = (refl, refl, refl, m)
put_in-Kept e s (some none) k m = (refl, refl, refl, AreMatched-insert-some e s.pending k m)
put_in-Kept e s (some (some old)) k m = (refl, refl, refl, m)

module _ (lib : Library) (json : Codec) where
  on_message-Kept :
      (iv : Option Bytes) (now : ℕ) (o : Option Envelope) (s : Server)
      → AreMatched s.pending
      → Kept s (on_message lib json iv now o s).0
  unfolding on_message
  on_message-Kept iv now none s m = (refl, refl, refl, m)
  on_message-Kept iv now (some e) s m = elim (Bool-cases (eq_bytes e.kind (type_name response))) [
    | inl k ↦
        rw k (
          put_in-Kept e s (Dict.lookup e.id s.pending) (eq_bytes→eq e.kind (type_name response) k)
            m)
    | inr k ↦ elim (Bool-cases (eq_bytes e.kind (type_name ping))) [
      | inl p ↦ rw (k, p) (refl, refl, refl, m)
      | inr p ↦ rw (k, p) (refl, refl, refl, m)
    ]
  ]

  pub receive-Kept :
      (iv : Option Bytes) (now : ℕ) (f : Frame) (s : Server)
      → AreMatched s.pending
      → Kept s (receive lib json iv now f s).0
  unfolding receive
  receive-Kept iv now f s m = by_text (open_frame lib s.cipher f) refl
    where
      by_text :
          (o : Option Bytes)
          → open_frame lib s.cipher f ≡ o
          → Kept s (receive lib json iv now f s).0
      by_text none e = rw (receive, e) (refl, refl, refl, m)
      by_text (some t) e = rw (receive, e) (on_message-Kept iv now (json.unmarshal t) s m)

  write_frame-Kept :
      (id : Bytes) (written : Bool) (f : Option Frame) (s : Server)
      → AreMatched s.pending
      → Kept s (write_frame id written f s).0
  unfolding write_frame forget_request
  write_frame-Kept id written none s m = (refl, refl, refl, AreMatched-remove id s.pending m)
  write_frame-Kept id written (some f) s m = by_conn s.conn refl written
    where
      by_conn : (o : Option ℕ) → s.conn ≡ o → (b : Bool) → Kept s (write_frame id b (some f) s).0
      by_conn none e b = rw (write_frame, e) (e, refl, refl, AreMatched-remove id s.pending m)
      by_conn (some c) e true = rw (write_frame, e) (e, refl, refl, m)
      by_conn (some c) e false =
          rw (write_frame, e) (e, refl, refl, AreMatched-remove id s.pending m)

  pub send_request-Kept :
      (iv : Option Bytes) (written : Bool) (now : ℕ) (id : Bytes) (req : Request) (s : Server)
      → AreMatched s.pending
      → Kept s (send_request lib json iv written now id req s).0
  unfolding send_request begin_request
  send_request-Kept iv written now id req s m =
      write_frame-Kept id written _ (begin_request id s) (AreMatched-insert-none id s.pending m)

  pub collect_from-Kept :
      (id : Bytes) (s : Server) (o : Option (Option Envelope))
      → AreMatched s.pending
      → Kept s (collect_from json id s o).0
  unfolding collect_from forget_request
  collect_from-Kept id s none m = (refl, refl, refl, m)
  collect_from-Kept id s (some none) m = (refl, refl, refl, m)
  collect_from-Kept id s (some (some e)) m = (refl, refl, refl, AreMatched-remove id s.pending m)
