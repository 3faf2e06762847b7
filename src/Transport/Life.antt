-- ===== src/Transport/Life.antt =====
-- The server over its life: connections come and end, requests are sent, and messages arrive, in any
-- order that the locks allow.
use lokifix.Auth.{Manager}
use lokifix.Crypto.{Library, Cipher}
use lokifix.Dict
use lokifix.Protocol.Message.{Request}
use lokifix.Transport.{Codec, Frame}
use lokifix.Transport.Gate.{Promise, open_connection-Promise}
use lokifix.Transport.Server.{
  Server, new_server, ConnectionInfo, Answer, invalid_message, invalid_handshake, auth_failed,
  crypto_failed, opened, open_connection, end_connection, receive,
}
use lokifix.Transport.Requests.{forget_request, send_request, collect}
use lokifix.Transport.Kept.{
  AreMatched, AreMatched-remove, Kept, receive-Kept, send_request-Kept, collect_from-Kept,
}
use lokifix.Prelude.{
  ℕ, ◌≡◌, refl, subst, ◌⊎◌, Bool, Option, none, some, List, [], ◌∷◌, ◌==◌, if◌then◌else◌, Bytes,
}

-- The server with the connections whose read loops run, the newest first.
pub record Hub : Type 0 where
  pub server : Server
  pub loops : List ℕ

abbrev pub drop_loop : ℕ → List ℕ → List ℕ
drop_loop c [] = []
drop_loop c (d ∷ ds) = if d == c then drop_loop c ds else d ∷ drop_loop c ds

abbrev pub Runs : ℕ → List ℕ → Type 0
Runs c [] = ⊥
Runs c (d ∷ ds) = (d ≡ c) ⊎ Runs c ds

module _ (lib : Library) (json : Codec) where
  -- One step: a connection is opened or turned away, a read loop takes a message or ends, a request
  -- is sent, collected, or given up when its context ends. A new connection has a number of its own.
  pub data Step : Hub → Hub → Type 0 where
    open_step :
        (h : Hub) (random : Option Bytes) (now conn : ℕ) (first : Bytes) (s : Server)
        (reply : Bytes)
        → open_connection lib json random now conn first h.server ≡ (s, opened reply)
        → Step h (record { server = s; loops = conn ∷ h.loops })
    reject_step :
        (h : Hub) (random : Option Bytes) (now conn : ℕ) (first : Bytes)
        → ¬ (
            (reply : Bytes) × ((open_connection lib json random now conn first h.server).1
              ≡ opened reply))
        → Step h (record h { server = (open_connection lib json random now conn first h.server).0 })
    read_step :
        (h : Hub) (iv : Option Bytes) (now : ℕ) (f : Frame)
        → Step h (record h { server = (receive lib json iv now f h.server).0 })
    end_step :
        (h : Hub) (conn : ℕ)
        → Runs conn h.loops
        → Step h (record { server = end_connection h.server; loops = drop_loop conn h.loops })
    send_step :
        (h : Hub) (iv : Option Bytes) (written : Bool) (now : ℕ) (id : Bytes) (req : Request)
        → Step h (record h { server = (send_request lib json iv written now id req h.server).0 })
    collect_step :
        (h : Hub) (id : Bytes) → Step h (record h { server = (collect json id h.server).0 })
    give_up_step :
        (h : Hub) (id : Bytes) → Step h (record h { server = forget_request id h.server })
    -- Codes are made, and the manager is used, by others too.
    manager_step :
        (h : Hub) (m : Manager) → Step h (record h { server = record h.server { manager = m } })

  pub data Reach (start : Hub) : Hub → Type 0 where
    here : Reach start start
    next : {h k : Hub} → Reach start h → Step h k → Reach start k

-- The three fields of the connection are set together, and it is the newest of those that run.
abbrev pub InUse : Option ℕ → Option Cipher → Option ConnectionInfo → List ℕ → Type 0
InUse none none none loops = Unit
InUse (some c) (some k) (some i) (d ∷ loops) = d ≡ c
InUse conn cipher info loops = ⊥

pub record IsSound (h : Hub) : Type 0 where
  pub in_use : InUse h.server.conn h.server.cipher h.server.agent_info h.loops
  pub matched : AreMatched h.server.pending

Kept→IsSound :
    (h : Hub) (s : Server) → IsSound h → Kept h.server s → IsSound (record h { server = s })
Kept→IsSound h s sound (c, k, i, m) = record { in_use = rw (c, k, i) sound.in_use; matched = m }

module _ (lib : Library) (json : Codec) where
  open_connection-IsSound :
      (h : Hub) (s : Server) (reply : Bytes) (now conn : ℕ) (first : Bytes)
      → Promise lib json now conn first h.server (s, opened reply)
      → IsSound h
      → IsSound (record { server = s; loops = conn ∷ h.loops })
  open_connection-IsSound h s reply now conn first (e, a, _, _, _, (c, (_, k, _), i, p)) sound =
      record { in_use = rw (c, k, i) refl; matched = rw p sound.matched }

  reject-Kept :
      (now conn : ℕ) (first : Bytes) (s : Server) (r : Server × Answer)
      → Promise lib json now conn first s r
      → ¬ ((reply : Bytes) × (r.1 ≡ opened reply))
      → AreMatched s.pending
      → Kept s r.0
  reject-Kept now conn first s (s', opened reply) p no_reply m = absurd (no_reply (reply, refl))
  reject-Kept now conn first s (s', invalid_message) (c, k, i, e) no_reply m = (c, k, i, rw e m)
  reject-Kept now conn first s (s', invalid_handshake) (c, k, i, e) no_reply m = (c, k, i, rw e m)
  reject-Kept now conn first s (s', auth_failed t) (c, k, i, e) no_reply m = (c, k, i, rw e m)
  reject-Kept now conn first s (s', crypto_failed t) (c, k, i, e) no_reply m = (c, k, i, rw e m)

  Step-IsSound : {h k : Hub} → Step lib json h k → IsSound h → IsSound k
  unfolding end_connection forget_request collect
  Step-IsSound (open_step h random now conn first s reply e) sound =
      open_connection-IsSound h s reply now conn first
        (subst (Promise lib json now conn first h.server) e
          (open_connection-Promise lib json random now conn first h.server))
        sound
  Step-IsSound (reject_step h random now conn first no_reply) sound = Kept→IsSound h _ sound (
      reject-Kept now conn first h.server (open_connection lib json random now conn first h.server)
        (open_connection-Promise lib json random now conn first h.server) no_reply sound.matched)
  Step-IsSound (read_step h iv now f) sound =
      Kept→IsSound h _ sound (receive-Kept lib json iv now f h.server sound.matched)
  Step-IsSound (end_step h conn r) sound = record { in_use = tt; matched = sound.matched }
  Step-IsSound (send_step h iv written now id req) sound =
      Kept→IsSound h _ sound
        (send_request-Kept lib json iv written now id req h.server sound.matched)
  Step-IsSound (collect_step h id) sound =
      Kept→IsSound h _ sound
        (collect_from-Kept lib json id h.server (Dict.lookup id h.server.pending) sound.matched)
  Step-IsSound (give_up_step h id) sound =
      Kept→IsSound h _ sound (refl, refl, refl, AreMatched-remove id h.server.pending sound.matched)
  Step-IsSound (manager_step h m) sound = record { in_use = sound.in_use; matched = sound.matched }

  -- In every state that the server can reach from its start, the connection, its key and the
  -- agent's data are set together or not at all, the connection is the newest whose read loop runs,
  -- and what waits in the channel of a request is a response with that request's id.
  pub Reach-IsSound :
      (m : Manager) {h : Hub}
      → Reach lib json (record { server = new_server m; loops = [] }) h
      → IsSound h
  Reach-IsSound m here = record { in_use = tt; matched = tt }
  Reach-IsSound m (next r st) = Step-IsSound st (Reach-IsSound m r)
