-- ===== src/Agent/Handler.antt =====
-- `NewHandler` (internal/agent/handler.go): confirmation, dispatch and logging of one request. The
-- two times are those of its at most two log entries.
use lokifix.World.{World, Result, ok, err, panic}
use lokifix.Protocol.Message.{Request, Response, failure_of, denied}
use lokifix.Audit.{Logger, Clock, log}
use lokifix.Agent.{needs_confirmation, get_danger_reason, extract_detail, action_of}
use lokifix.Agent.Handlers.{System, dispatch}
use lokifix.Prelude.{ℕ, Bool, false, not, ◌&&◌, Option, none, some, if◌then◌else◌, Bytes, codes}

-- `confirm` is the answer of the user to an action, its detail and the reason; `none` is a handler
-- without a question.
pub record HandlerConfig : Type 0 where
  pub confirm : Option (Bytes → Bytes → Bytes → Bool)
  pub hash : Bytes → Bytes
  pub clock : Clock

-- The world, and the logger if there is one.
pub record AgentState : Type 0 where
  pub world : World
  pub logger : Option Logger

unfoldable pub log_to : HandlerConfig → ℕ → Bytes → Bytes → Bytes → Option Logger → Option Logger
log_to cfg now action detail outcome none = none
log_to cfg now action detail outcome (some l) =
    some (log cfg.hash cfg.clock now action detail outcome l)

-- The user is asked and says no.
unfoldable pub refuses_action : Option (Bytes → Bytes → Bytes → Bool) → Bytes → Bytes → Bytes → Bool
refuses_action none action detail reason = false
refuses_action (some f) action detail reason = not (f action detail reason)

unfoldable pub is_denied : HandlerConfig → Request → Bool
unfolding refuses_action
is_denied cfg req =
    needs_confirmation req
    && refuses_action cfg.confirm (action_of req.tool) (extract_detail req) (get_danger_reason req)

unfoldable pub outcome_name : Response → Bytes
outcome_name r = if r.success then codes "OK" else codes "ERROR"

-- The log entry of the action; after a panic there is none.
unfoldable pub finish :
    HandlerConfig
    → ℕ
    → Request
    → Option Logger
    → World × Result Response
    → AgentState × Result Response
unfolding log_to outcome_name
finish cfg now req logger (w, ok r) = (
  record {
    world = w;
    logger = log_to cfg now (action_of req.tool) (extract_detail req) (outcome_name r) logger;
  },
  ok r,
)
finish cfg now req logger (w, err e) = (record { world = w; logger = logger }, err e)
finish cfg now req logger (w, panic) = (record { world = w; logger = logger }, panic)

unfoldable pub approve : HandlerConfig → ℕ → Request → Option Logger → Option Logger
unfolding log_to
approve cfg now req logger =
    if needs_confirmation req
    then log_to cfg now (codes "APPROVED") (extract_detail req) (codes "OK") logger
    else logger

unfoldable pub handle_request :
    HandlerConfig → System → ℕ → ℕ → Request → AgentState → AgentState × Result Response
unfolding is_denied approve finish log_to
handle_request cfg sys now later req st =
    let detail = extract_detail req in
    let no_logger = log_to cfg now (codes "DENIED") detail (codes "DENIED") st.logger in
    if is_denied cfg req
    then (record { world = st.world; logger = no_logger }, ok (failure_of (denied detail)))
    else finish cfg later req (approve cfg now req st.logger) (dispatch sys req st.world)
