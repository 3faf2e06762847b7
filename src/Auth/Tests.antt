-- ===== src/Auth/Tests.antt =====
-- The theorems about internal/auth/auth.go at concrete inputs, and runs of its functions.
use lokifix.Prelude.{
  ◌+◌, ◌≤◌, ◌<◌, ◌≡◌, ◌≢◌, ◌↔◌, refl, true, false, some, [], ◌∷◌, arith, Bytes, codes, eq_bytes,
  replace_byte, cut_at,
}
use lokifix.Base64.{encode_raw_url, decode_raw_url}
use lokifix.Auth.{
  Manager, code_expiration, session_token_expiration, validate_token, validate_session_token,
  generate_code, generate_session_token, revoke_session_token, cleanup,
}
use lokifix.Auth.Codes.{
  live_count, as_number, validate_token_iff, validate_token_once, validate_token_other,
  generate_code_lifetime,
}
use lokifix.Auth.Sessions.{
  generate_session_token_lifetime, revoke_session_token_lem, cleanup_unseen,
}
use lokifix.Auth.Info.{
  ok, err, malformed_code, Lacks, encode_connection_info, decode_connection_info,
}
use lokifix.Auth.Plain.{decode-encode_token}
use lokifix.Auth.Dash.{decode-encode_iff}

abbrev one_code : Manager
one_code = record {
  code_map =
      (
        codes "ABCDEF",
        record { code = codes "ABCDEF"; token = codes "secret"; created_at = 5; used = false },
      )
      ∷ [];
  session_tokens = [];
}

one_live : live_count 7 (codes "secret") one_code.code_map ≡ 1
unfolding live_count eq_bytes
one_live = refl

validate_token_iff_example :
    (((validate_token 7 (codes "secret") one_code).1 ≡ true)
      ↔ (0 < live_count 7 (codes "secret") one_code.code_map))
    × (live_count 7 (codes "secret") (validate_token 7 (codes "secret") one_code).0.code_map
          + as_number (validate_token 7 (codes "secret") one_code).1
        ≡ live_count 7 (codes "secret") one_code.code_map)
validate_token_iff_example = validate_token_iff 7 (codes "secret") one_code

validate_token_once_example :
    ((validate_token 7 (codes "secret") one_code).1 ≡ true)
    × ((validate_token 9 (codes "secret") (validate_token 7 (codes "secret") one_code).0).1 ≡ false)
validate_token_once_example =
    validate_token_once 7 9 (codes "secret") one_code (omega arith) one_live

no_code : codes "secret" ≢ codes "other"
no_code = ground arith

validate_token_other_example :
    live_count 9 (codes "other") (validate_token 7 (codes "secret") one_code).0.code_map
    ≡ live_count 9 (codes "other") one_code.code_map
validate_token_other_example =
    validate_token_other 7 9 (codes "secret") (codes "other") one_code (omega arith) no_code

none_live : live_count 7 (encode_raw_url (1 ∷ 2 ∷ 3 ∷ [])) one_code.code_map ≡ 0
unfolding live_count eq_bytes encode_raw_url
none_live = refl

generate_code_lifetime_example :
    (8 ≤ 7 + code_expiration
      → live_count 8
          (encode_raw_url (1 ∷ 2 ∷ 3 ∷ []))
          (generate_code (some (1 ∷ 2 ∷ 3 ∷ [])) (some (4 ∷ [])) 7 one_code).0.code_map
        ≡ 1)
    × (7 + code_expiration < 8
        → (validate_token 8
            (encode_raw_url (1 ∷ 2 ∷ 3 ∷ []))
            (generate_code (some (1 ∷ 2 ∷ 3 ∷ [])) (some (4 ∷ [])) 7 one_code).0).1
          ≡ false)
generate_code_lifetime_example =
    generate_code_lifetime (1 ∷ 2 ∷ 3 ∷ []) (4 ∷ []) 7 8 one_code (omega arith) none_live

generate_session_token_lifetime_example :
    ((validate_session_token 8
        (encode_raw_url (1 ∷ []))
        (generate_session_token (some (1 ∷ [])) 7 one_code).0).1
      ≡ true)
    ↔ (8 ≤ 7 + session_token_expiration)
generate_session_token_lifetime_example =
    generate_session_token_lifetime (1 ∷ []) 7 8 one_code (omega arith)

revoke_session_token_lem_example :
    ((validate_session_token 8 (codes "t") (revoke_session_token (codes "t") one_code)).1 ≡ false)
    × ((other : Bytes)
        → codes "t" ≢ other
        → (validate_session_token 8 other (revoke_session_token (codes "t") one_code)).1
          ≡ (validate_session_token 8 other one_code).1)
revoke_session_token_lem_example = revoke_session_token_lem 8 (codes "t") one_code

cleanup_unseen_example :
    ((validate_token 9 (codes "secret") (cleanup 7 one_code)).1
      ≡ (validate_token 9 (codes "secret") one_code).1)
    × ((validate_token 9 (codes "secret") (cleanup 7 one_code)).0.code_map
        ≡ (validate_token 9 (codes "secret") one_code).0.code_map)
    × (validate_session_token 9 (codes "secret") (cleanup 7 one_code)).1
      ≡ (validate_session_token 9 (codes "secret") one_code).1
cleanup_unseen_example = cleanup_unseen 7 9 (codes "secret") one_code (omega arith)

decode-encode_iff_example :
    (decode_connection_info (encode_connection_info (codes "ws://a") (codes "tok"))
      ≡ ok (codes "ws://a") (codes "tok"))
    ↔ Lacks b'-' (encode_connection_info (codes "ws://a") (codes "tok"))
decode-encode_iff_example =
    decode-encode_iff (codes "ws://a") (codes "tok") (omega arith) (omega arith)

decode-encode_token_example :
    decode_connection_info
      (encode_connection_info (codes "wss://a.b") (encode_raw_url (9 ∷ 250 ∷ [])))
    ≡ ok (codes "wss://a.b") (encode_raw_url (9 ∷ 250 ∷ []))
decode-encode_token_example =
    decode-encode_token (codes "wss://a.b") (9 ∷ 250 ∷ []) (omega arith) (omega arith) (omega arith)

-- An address with a tilde may give a dash, which the agent takes away.
dashed : encode_connection_info (codes "ws://ab/~") (codes "t") ≡ codes "d3M6Ly9hYi9-fHQ"
unfolding encode_connection_info encode_raw_url
dashed = refl

dash_refused :
    decode_connection_info (encode_connection_info (codes "ws://ab/~") (codes "t"))
    ≡ err malformed_code
unfolding encode_connection_info encode_raw_url decode_connection_info decode_raw_url replace_byte
    cut_at
dash_refused = refl
