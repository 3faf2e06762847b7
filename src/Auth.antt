-- ===== src/Auth.antt =====
-- internal/auth/auth.go: one-time connection codes and session tokens. Times are nanoseconds of a
-- clock that does not run backwards; `rand.Read` is an argument that holds the bytes read, or `none`
-- where reading failed. Every method runs under the manager's mutex, so it is one step on `Manager`.
pub mod Codes
pub mod Sessions
pub mod Info
pub mod Dash
pub mod Plain
pub mod Alphabet
mod Tests
use lokifix.Base64.{encode_raw_url}
use lokifix.Dict
use lokifix.Prelude.{
  ℕ, zero, suc, ◌+◌, ◌-◌, ◌*◌, ◌/◌, ◌%◌, ◌≤◌, ◌<◌, ◌≡◌, refl, sym, ap, ap₂, subst, ◌∙◌, ◌≢◌, ◌↔◌,
  ◌⊎◌, inl, inr, Bool, true, false, not, ◌&&◌, ◌||◌, Option, none, some, List, [], ◌∷◌, ◌++◌, map,
  append-nil, append_assoc, arith, ltb, leb, ◌==◌, if◌then◌else◌, ltb→lt, lt→ltb, leb→le, ==_iff,
  Bool-cases, Option-cases, length, get_elem?, length-append, take, drop, replicate, length-take,
  length-drop, length-replicate, take-append-drop, length-map, All, All-append, Bytes, codes,
  eq_bytes, eq_bytes_iff, eq_bytes_refl, eq_bytes→eq, is_empty, lower, upper, to_lower, to_upper,
  to_lower_idem, is_space, trim_left, trim_right, trim_space, split_on, split, push_left, cut_at,
  replace_byte, join, show_nat, has_prefix, contains, has_prefix_sound, has_prefix_complete,
  contains_sound, contains_complete,
}

abbrev pub second : ℕ
second = 1000000000

abbrev pub code_expiration : ℕ
code_expiration = 15 * 60 * second

abbrev pub session_token_expiration : ℕ
session_token_expiration = 24 * 3600 * second

abbrev pub token_length : ℕ
token_length = 32

abbrev pub code_length : ℕ
code_length = 6

abbrev pub code_chars : Bytes
code_chars = codes "ABCDEFGHJKLMNPQRSTUVWXYZ23456789"

pub record ConnectionCode : Type 0 where
  pub code : Bytes
  pub token : Bytes
  pub created_at : ℕ
  pub used : Bool

pub record SessionToken : Type 0 where
  pub token : Bytes
  pub created_at : ℕ

abbrev pub CodeMap : Type 0
CodeMap = List (Bytes × ConnectionCode)

abbrev pub SessionMap : Type 0
SessionMap = List (Bytes × SessionToken)

pub record Manager : Type 0 where
  pub code_map : CodeMap
  pub session_tokens : SessionMap

abbrev pub new_manager : Manager
new_manager = record { code_map = []; session_tokens = [] }

-- `time.Since(t) > limit`
unfoldable pub is_expired : ℕ → ℕ → ℕ → Bool
is_expired limit now created = ltb limit (now - created)

unfoldable pub generate_token : Option Bytes → Option Bytes
generate_token none = none
generate_token (some b) = some (encode_raw_url b)

unfoldable pub byte_at : Bytes → ℕ → ℕ
byte_at s i = elim (get_elem? s i) [ none ↦ 0 | some c ↦ c ]

unfoldable pub code_char : ℕ → ℕ
unfolding byte_at
code_char b = byte_at code_chars (b % length code_chars)

unfoldable pub generate_code_text : Option Bytes → Option Bytes
unfolding code_char
generate_code_text none = none
generate_code_text (some b) = some (map code_char b)

-- The code is stored and returned; `none` is an error of the random source.
unfoldable pub generate_code :
    Option Bytes → Option Bytes → ℕ → Manager → Manager × Option ConnectionCode
unfolding generate_token generate_code_text
generate_code token_bytes code_bytes now m = elim (generate_token token_bytes) [
  | none ↦ (m, none)
  | some t ↦ elim (generate_code_text code_bytes) [
    | none ↦ (m, none)
    | some c ↦
        let cc : ConnectionCode = record { code = c; token = t; created_at = now; used = false } in
        (record m { code_map = Dict.insert c cc m.code_map }, some cc)
  ]
]

unfoldable pub drop_expired_codes : ℕ → CodeMap → CodeMap
unfolding is_expired
drop_expired_codes now [] = []
drop_expired_codes now ((k, cc) ∷ m) =
    if is_expired code_expiration now cc.created_at
    then drop_expired_codes now m
    else (k, cc) ∷ drop_expired_codes now m

unfoldable pub drop_expired_sessions : ℕ → SessionMap → SessionMap
unfolding is_expired
drop_expired_sessions now [] = []
drop_expired_sessions now ((k, st) ∷ m) =
    if is_expired session_token_expiration now st.created_at
    then drop_expired_sessions now m
    else (k, st) ∷ drop_expired_sessions now m

-- The second loop of `ValidateToken`: the first unused code with the token is marked.
unfoldable pub use_first : Bytes → CodeMap → CodeMap × Bool
use_first token [] = ([], false)
use_first token ((k, cc) ∷ m) =
    let (rest, found) = use_first token m in
    if eq_bytes cc.token token && not cc.used
    then ((k, record cc { used = true }) ∷ m, true)
    else ((k, cc) ∷ rest, found)

unfoldable pub validate_token : ℕ → Bytes → Manager → Manager × Bool
validate_token now token m =
    let (cs, ok) = use_first token (drop_expired_codes now m.code_map) in
    (record m { code_map = cs }, ok)

unfoldable pub generate_session_token : Option Bytes → ℕ → Manager → Manager × Option Bytes
unfolding generate_token
generate_session_token bytes now m = elim (generate_token bytes) [
  | none ↦ (m, none)
  | some t ↦ (
    record m {
      session_tokens = Dict.insert t (record { token = t; created_at = now }) m.session_tokens;
    },
    some t,
  )
]

unfoldable pub has_session : Bytes → SessionMap → Bool
has_session token [] = false
has_session token ((k, st) ∷ m) = eq_bytes k token || has_session token m

unfoldable pub validate_session_token : ℕ → Bytes → Manager → Manager × Bool
unfolding has_session
validate_session_token now token m =
    let live = drop_expired_sessions now m.session_tokens in
    (record m { session_tokens = live }, has_session token live)

unfoldable pub revoke_session_token : Bytes → Manager → Manager
revoke_session_token token m = record m { session_tokens = Dict.remove token m.session_tokens }

unfoldable pub cleanup : ℕ → Manager → Manager
cleanup now m = record m {
  code_map = drop_expired_codes now m.code_map;
  session_tokens = drop_expired_sessions now m.session_tokens;
}
