-- ===== src/Program.antt =====
-- The agent's main program (cmd/lokifix-agent/main.go): reconnecting, the answer of the user, and
-- how an address is shown.

pub mod Retries
pub mod Tests
use lokifix.Prelude.{
  is_listed, ℕ, zero, suc, ◌+◌, ◌-◌, ◌*◌, ◌/◌, ◌%◌, ◌^◌, ◌≤◌, ◌<◌, ◌≡◌, refl, sym, ap, ap₂, subst,
  ◌∙◌, ◌≢◌, ◌↔◌, ◌⊎◌, inl, inr, Bool, true, false, not, ◌&&◌, ◌||◌, Option, none, some, List, [],
  ◌∷◌, ◌++◌, map, append-nil, append_assoc, arith, ltb, leb, ◌==◌, if◌then◌else◌, ltb→lt, lt→ltb,
  leb→le, ==_iff, Bool-cases, Option-cases, length, get_elem?, length-append, take, drop, replicate,
  length-take, length-drop, length-replicate, take-append-drop, take-append, take_all, take_nil,
  nil_of_length, length-map, All, All-append, Bytes, codes, eq_bytes, eq_bytes_iff, eq_bytes_refl,
  eq_bytes→eq, is_empty, lower, upper, to_lower, to_upper, to_lower_idem, is_space, trim_left,
  trim_right, trim_space, split_on, split, push_left, cut_at, replace_byte, join, show_nat,
  has_prefix, contains, has_prefix_sound, has_prefix_complete, contains_sound, contains_complete,
}

-- One round of the loop: the connection fails, or it is made and lost, or made and closed, after
-- which the client has this session token.
pub data Attempt : Type 0 where
  refused : Attempt
  lost : Bytes → Attempt
  closed : Bytes → Attempt

-- What the loop does: it connects with a session token, or waits for so many seconds.
pub data Step : Type 0 where
  connect : Bytes → Step
  wait : ℕ → Step

pub data Ending : Type 0 where
  given_up finished cancelled : Ending

abbrev pub max_retries : ℕ
max_retries = 5

-- The session token to go on with.
unfoldable pub keep_token : Bytes → Bytes → Bytes
keep_token session token = if is_empty token then session else token

abbrev pub go_on : List Step → List Step × Ending → List Step × Ending
go_on first (steps, e) = (first ++ steps, e)

-- `connectAndRun` from a state of its two variables on; when the attempts are used up, the context
-- has ended.
unfoldable pub connect_and_run : ℕ → Bytes → List Attempt → List Step × Ending
unfolding keep_token
connect_and_run retries session [] = ([], cancelled)
connect_and_run retries session (refused ∷ more) =
    let again = connect_and_run (retries + 1) session more in
    if ltb max_retries (retries + 1)
    then (connect session ∷ [], given_up)
    else go_on (connect session ∷ wait ((retries + 1) * 2) ∷ []) again
connect_and_run retries session (lost token ∷ more) =
    go_on (connect session ∷ wait 2 ∷ []) (connect_and_run 0 (keep_token session token) more)
connect_and_run retries session (closed token ∷ more) = (connect session ∷ [], finished)

abbrev pub yes_words : List Bytes
yes_words = codes "s" ∷ codes "si" ∷ (115 ∷ 195 ∷ 172 ∷ []) ∷ codes "y" ∷ codes "yes" ∷ []

-- `askConfirmation` on the line that the user has typed.
unfoldable pub is_approved : Bytes → Bool
unfolding is_listed trim_space
is_approved input = is_listed (trim_space (to_lower input)) yes_words

abbrev pub stars : Bytes
stars = codes "***"

unfoldable pub last_two : List Bytes → List Bytes
last_two (a ∷ b ∷ c ∷ ps) = last_two (b ∷ c ∷ ps)
last_two ps = ps

unfoldable pub mask_host : Bytes → List Bytes → Bytes
unfolding last_two join
mask_host host (a ∷ b ∷ c ∷ ps) =
    if ltb 3 (length a)
    then take 3 a ++ (codes "***." ++ join (codes ".") (last_two (a ∷ b ∷ c ∷ ps)))
    else host
mask_host host ps = host
