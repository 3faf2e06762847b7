-- ===== src/Transport/Delivery.antt =====
-- What the invariant of the server's life gives: responses reach their own requests. And what it does
-- not give: the end of any connection disconnects the newest one.
use lokifix.Auth.{Manager}
use lokifix.Crypto.{Library}
use lokifix.Dict
use lokifix.Protocol.Message.{Envelope, Response, response, type_name}
use lokifix.Transport.{Codec}
use lokifix.Transport.Server.{Server, new_server, Pending, end_connection, is_connected}
use lokifix.Transport.Requests.{forget_request, collect_from, collect, read_response, got}
use lokifix.Transport.Life.{Hub, Reach, Runs, drop_loop, Reach-IsSound}
use lokifix.Transport.Kept.{AreMatched}
use lokifix.Transport.Heard.{Heard, Hold-lookup, Reach-Hold}
use lokifix.Prelude.{
  ℕ, ◌≡◌, refl, ap, ◌∙◌, ◌≢◌, inl, inr, true, false, Option, none, some, List, [], ◌∷◌, arith, ◌==◌,
  Bool-cases, Bytes, eq_bytes, eq_bytes→eq,
}

-- The response comes from an envelope with this id.
abbrev pub ComesFrom : Codec → Bytes → Response → Envelope → Type 0
ComesFrom json id r e =
    (e.id ≡ id) × (e.kind ≡ type_name response) × (json.get_response e.payload ≡ some r)

AreMatched-lookup :
    (id : Bytes) (p : Pending) (e : Envelope)
    → AreMatched p
    → Dict.lookup id p ≡ some (some e)
    → (e.id ≡ id) × (e.kind ≡ type_name response)
unfolding Dict.lookup
AreMatched-lookup id [] e m h = cc
AreMatched-lookup id ((j, none) ∷ p) e m h = elim (Bool-cases (eq_bytes j id)) [
  | inl q ↦ absurd (ground (arith, q))
  | inr q ↦ AreMatched-lookup id p e m (ground (arith, q))
]
AreMatched-lookup id ((j, some v) ∷ p) e m h = elim (Bool-cases (eq_bytes j id)) [
  | inl q ↦ let same : v ≡ e = ground (arith, q) in rw (← same) (m.0 ∙ eq_bytes→eq j id q, m.1)
  | inr q ↦ AreMatched-lookup id p e m.2 (ground (arith, q))
]

collect_from-own :
    (json : Codec) (id : Bytes) (r : Response) (s : Server) (o : Option (Option Envelope))
    → AreMatched s.pending
    → Dict.lookup id s.pending ≡ o
    → (collect_from json id s o).1 ≡ got r
    → (e : Envelope) × ComesFrom json id r e
      × (Dict.lookup id s.pending ≡ some (some e))
      × (Dict.lookup id (collect_from json id s o).0.pending ≡ none)
unfolding collect_from forget_request
collect_from-own json id r s none m h g = cc
collect_from-own json id r s (some none) m h g = cc
collect_from-own json id r s (some (some e)) m h g =
    by_response (json.get_response e.payload) refl g
  where
    by_response :
        (o : Option Response)
        → json.get_response e.payload ≡ o
        → read_response json o ≡ got r
        → (e : Envelope) × ComesFrom json id r e
          × (Dict.lookup id s.pending ≡ some (some e))
          × (Dict.lookup id (Dict.remove id s.pending) ≡ none)
    by_response none q g = cc g
    by_response (some v) q g =
        let same : v ≡ r = cc g in
        let (own, kind) = AreMatched-lookup id s.pending e m h in
        (e, (own, kind, q ∙ ap some same), h, Dict.lookup-remove_self id s.pending)

-- In every state that the server has reached from its start, the response that a request returns
-- with was in a message that a read loop took on the way there and could read, and that came under
-- that request's own id, whatever else the agent has sent and however many requests wait. The
-- request is then forgotten.
pub collect-own :
    (lib : Library) (json : Codec) (m : Manager) (id : Bytes) (r : Response) (h : Hub)
    (way : Reach lib json (record { server = new_server m; loops = [] }) h)
    → (collect json id h.server).1 ≡ got r
    → (e : Envelope) × Heard lib json e way
      × ComesFrom json id r e
      × (Dict.lookup id (collect json id h.server).0.pending ≡ none)
unfolding collect
collect-own lib json m id r h way g =
    let (e, own, there, gone) =
      collect_from-own json id r h.server (Dict.lookup id h.server.pending)
        (Reach-IsSound lib json m way).matched refl g in
    let heard =
      Hold-lookup (λ v. Heard lib json v way) id h.server.pending e (Reach-Hold lib json m way)
        there in
    (e, heard, own, gone)

Runs-drop : (c d : ℕ) (loops : List ℕ) → c ≢ d → Runs d loops → Runs d (drop_loop c loops)
Runs-drop c d [] n r = r
Runs-drop c d (x ∷ loops) n (inl e) =
    let other : (x == c) ≡ false = ground (arith, e) in rw other (inl e)
Runs-drop c d (x ∷ loops) n (inr r) = elim (Bool-cases (x == c)) [
  | inl e ↦ rw e (Runs-drop c d loops n r)
  | inr e ↦ rw e (inr (Runs-drop c d loops n r))
]

-- When the read loop of an older connection ends, the server has no connection any more, although
-- the read loop of the newest one goes on.
pub end_connection-older :
    (old newest : ℕ) (loops : List ℕ) (s : Server)
    → old ≢ newest
    → s.conn ≡ some newest
    → Runs old loops
    → (is_connected s ≡ true)
      × (is_connected (end_connection s) ≡ false)
      × Runs newest (drop_loop old (newest ∷ loops))
unfolding is_connected end_connection
end_connection-older old newest loops s n c r =
    (rw c refl, refl, Runs-drop old newest (newest ∷ loops) n (inl refl))
