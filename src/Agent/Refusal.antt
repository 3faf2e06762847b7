-- ===== src/Agent/Refusal.antt =====
-- What one handled request does to the world and to the log.
use lokifix.World.{World, Result, ok, err, panic}
use lokifix.Protocol.Message.{Request, Response, failure_of, denied}
use lokifix.Protocol.Tool.{tool_of}
use lokifix.Audit.{Logger, Entry}
use lokifix.Agent.{action_of, extract_detail, get_danger_reason, needs_confirmation}
use lokifix.Agent.Handlers.{System, dispatch}
use lokifix.Agent.Handler.{
  HandlerConfig, AgentState, refuses_action, is_denied, finish, approve, log_to, handle_request,
  outcome_name,
}
use lokifix.Agent.World.{mutates_of, dispatch-world}
use lokifix.Agent.Safety.{Sensitive, needs_confirmation_iff}
use lokifix.Prelude.{
  ℕ, ◌≡◌, refl, ap, ◌∙◌, ◌≢◌, inl, inr, true, false, Option, none, some, List, [], ◌∷◌, ◌++◌, map,
  arith, if◌then◌else◌, Bool-cases, Bytes, codes,
}

finish-world :
    (cfg : HandlerConfig) (now : ℕ) (req : Request) (l : Option Logger)
    (r : World × Result Response)
    → ((finish cfg now req l r).0).world ≡ r.0
unfolding finish
finish-world cfg now req l (w, ok a) = refl
finish-world cfg now req l (w, err e) = refl
finish-world cfg now req l (w, panic) = refl

module _ (cfg : HandlerConfig) (sys : System) (now later : ℕ) (req : Request)
    (st : AgentState) where
  -- The user's answer to this request, where there is a user to ask.
  abbrev pub Refused : Type 0
  Refused =
      refuses_action cfg.confirm (action_of req.tool) (extract_detail req) (get_danger_reason req)
      ≡ true

  is_denied-lem : is_denied cfg req ≡ true → Sensitive (tool_of req.tool) req.params × Refused
  unfolding is_denied
  is_denied-lem h = ((needs_confirmation_iff req).0 (ground arith), ground arith)

  is_denied_complete : Sensitive (tool_of req.tool) req.params → Refused → is_denied cfg req ≡ true
  unfolding is_denied
  is_denied_complete s r = let n = (needs_confirmation_iff req).1 s in ground (arith, n, r)

  pub dispatched :
      is_denied cfg req ≡ false
      → handle_request cfg sys now later req st
        ≡ finish cfg later req (approve cfg now req st.logger) (dispatch sys req st.world)
  unfolding handle_request
  dispatched h = rw h refl

  stopped :
      is_denied cfg req ≡ true
      → handle_request cfg sys now later req st ≡ (
        record {
          world = st.world;
          logger = log_to cfg now (codes "DENIED") (extract_detail req) (codes "DENIED") st.logger;
        },
        ok (failure_of (denied (extract_detail req))),
      )
  unfolding handle_request
  stopped h = rw h refl

  -- A request changes the world only if its tool is one that writes files or runs a command, and if
  -- it is not sensitive or its user has not refused it.
  pub handle_request_guarded :
      ((handle_request cfg sys now later req st).0).world ≢ st.world
      → (mutates_of (tool_of req.tool) ≡ true)
        × ¬ (Sensitive (tool_of req.tool) req.params × Refused)
  handle_request_guarded changed = (
    elim (Bool-cases (mutates_of (tool_of req.tool))) [
      | inl e ↦ e
      | inr e ↦ elim (Bool-cases (is_denied cfg req)) [
        | inl d ↦ absurd (changed (ap (λ r. (r.0).world) (stopped d)))
        | inr d ↦ absurd (
            changed (
              ap (λ r. (r.0).world) (dispatched d)
              ∙ finish-world cfg later req (approve cfg now req st.logger)
                  (dispatch sys req st.world)
              ∙ dispatch-world sys req st.world e))
      ]
    ],
    λ (s, r). changed (ap (λ q. (q.0).world) (stopped (is_denied_complete s r))),
  )

  -- A sensitive request that its user refuses is answered with an error, the world stays as it was,
  -- and the log is told of the refusal.
  pub handle_request_refused :
      Sensitive (tool_of req.tool) req.params
      → Refused
      → handle_request cfg sys now later req st ≡ (
        record {
          world = st.world;
          logger = log_to cfg now (codes "DENIED") (extract_detail req) (codes "DENIED") st.logger;
        },
        ok (failure_of (denied (extract_detail req))),
      )
  handle_request_refused s r = stopped (is_denied_complete s r)

abbrev mark : Entry → Bytes × Bytes
mark e = (e.action, e.outcome)

-- The actions and outcomes in a log, in their order.
abbrev pub marks : Option Logger → List (Bytes × Bytes)
marks none = []
marks (some l) = map mark l.entries

module _ (cfg : HandlerConfig) (sys : System) (now later : ℕ) (req : Request) where
  -- The entries that a request with this response is to leave.
  abbrev pub told : Response → List (Bytes × Bytes)
  told r =
      if is_denied cfg req
      then (codes "DENIED", codes "DENIED") ∷ []
      else (if needs_confirmation req then (codes "APPROVED", codes "OK") ∷ [] else [])
        ++ (action_of req.tool, outcome_name r) ∷ []
