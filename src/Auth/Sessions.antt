-- ===== src/Auth/Sessions.antt =====
-- Session tokens: how long one is accepted, and that cleaning up changes no answer.
use lokifix.Base64.{encode_raw_url}
use lokifix.Dict
use lokifix.Auth.{
  SessionMap, Manager, session_token_expiration, drop_expired_sessions, drop_expired_codes,
  has_session, validate_session_token, generate_session_token, generate_token, revoke_session_token,
  cleanup, validate_token, CodeMap,
}
use lokifix.Prelude.{
  ℕ, ◌+◌, ◌≤◌, ◌≡◌, refl, ◌≢◌, ◌↔◌, true, false, some, [], ◌∷◌, arith, Bytes, eq_bytes_iff,
  eq_bytes_refl,
}

drop_expired_sessions_twice :
    (now t : ℕ) (m : SessionMap)
    → now ≤ t
    → drop_expired_sessions t (drop_expired_sessions now m) ≡ drop_expired_sessions t m
unfolding drop_expired_sessions
drop_expired_sessions_twice now t [] h = refl
drop_expired_sessions_twice now t ((k, st) ∷ m) h =
    ground (arith, drop_expired_sessions_twice now t m h)

drop_expired_codes_twice :
    (now t : ℕ) (m : CodeMap)
    → now ≤ t
    → drop_expired_codes t (drop_expired_codes now m) ≡ drop_expired_codes t m
unfolding drop_expired_codes
drop_expired_codes_twice now t [] h = refl
drop_expired_codes_twice now t ((k, cc) ∷ m) h = ground (arith, drop_expired_codes_twice now t m h)

-- Cleaning up at any earlier moment changes the answer and the outcome of no later validation.
pub cleanup_unseen :
    (now t : ℕ) (token : Bytes) (m : Manager)
    → now ≤ t
    → ((validate_token t token (cleanup now m)).1 ≡ (validate_token t token m).1)
      × ((validate_token t token (cleanup now m)).0.code_map
          ≡ (validate_token t token m).0.code_map)
      × (validate_session_token t token (cleanup now m)).1 ≡ (validate_session_token t token m).1
unfolding validate_token validate_session_token cleanup
cleanup_unseen now t token m h = (
  rw (drop_expired_codes_twice now t m.code_map h),
  rw (drop_expired_codes_twice now t m.code_map h),
  rw (drop_expired_sessions_twice now t m.session_tokens h),
)

has_session-remove :
    (now : ℕ) (token : Bytes) (m : SessionMap)
    → has_session token (drop_expired_sessions now (Dict.remove token m)) ≡ false
unfolding has_session drop_expired_sessions Dict.remove
has_session-remove now token [] = refl
has_session-remove now token ((k, st) ∷ m) = ground (arith, has_session-remove now token m)

has_session-remove_ne :
    (now : ℕ) (token other : Bytes) (m : SessionMap)
    → token ≢ other
    → has_session other (drop_expired_sessions now (Dict.remove token m))
      ≡ has_session other (drop_expired_sessions now m)
unfolding has_session drop_expired_sessions Dict.remove
has_session-remove_ne now token other [] h = refl
has_session-remove_ne now token other ((k, st) ∷ m) h =
    ground
      (arith, has_session-remove_ne now token other m h, eq_bytes_iff k token, eq_bytes_iff k other)

-- A session token is accepted for 24 hours after it was issued, as often as it is shown, and not
-- later; it need not be used in between.
pub generate_session_token_lifetime :
    (tb : Bytes) (now t : ℕ) (m : Manager)
    → now ≤ t
    → ((validate_session_token t (encode_raw_url tb) (generate_session_token (some tb) now m).0).1
        ≡ true)
      ↔ (t ≤ now + session_token_expiration)
unfolding validate_session_token generate_session_token generate_token drop_expired_sessions
    Dict.insert
generate_session_token_lifetime tb now t m h =
    let gone = has_session-remove t (encode_raw_url tb) m.session_tokens in
    let self = eq_bytes_refl (encode_raw_url tb) in ground arith

-- A revoked token is refused from then on, and every other token is answered as before.
pub revoke_session_token_lem :
    (t : ℕ) (token : Bytes) (m : Manager)
    → ((validate_session_token t token (revoke_session_token token m)).1 ≡ false)
      × ((other : Bytes)
          → token ≢ other
          → (validate_session_token t other (revoke_session_token token m)).1
            ≡ (validate_session_token t other m).1)
unfolding validate_session_token revoke_session_token
revoke_session_token_lem t token m = (
  has_session-remove t token m.session_tokens,
  λ other ne. has_session-remove_ne t token other m.session_tokens ne,
)
