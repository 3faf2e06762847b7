-- ===== src/Auth/Codes.antt =====
-- One-time codes: `ValidateToken` accepts a live token once.
use lokifix.Base64.{encode_raw_url}
use lokifix.Dict
use lokifix.Auth.{
  generate_code, code_char, ConnectionCode, CodeMap, Manager, code_expiration, is_expired,
  drop_expired_codes, use_first, validate_token,
}
use lokifix.Prelude.{
  ℕ, ◌+◌, ◌≤◌, ◌<◌, ◌≡◌, refl, ◌∙◌, ◌≢◌, ◌↔◌, inl, inr, Bool, true, false, not, ◌&&◌, some, [], ◌∷◌,
  map, arith, if◌then◌else◌, Bool-cases, Bytes, eq_bytes, eq_bytes_iff, eq_bytes_refl,
}

-- A code that `ValidateToken` accepts for `token` at the time `now`.
unfoldable pub is_live : ℕ → Bytes → ConnectionCode → Bool
unfolding is_expired
is_live now token cc =
    not (is_expired code_expiration now cc.created_at) && (eq_bytes cc.token token && not cc.used)

-- How many such codes there are.
unfoldable pub live_count : ℕ → Bytes → CodeMap → ℕ
unfolding is_live
live_count now token [] = 0
live_count now token ((k, cc) ∷ m) =
    (if is_live now token cc then 1 else 0) + live_count now token m

abbrev pub as_number : Bool → ℕ
as_number b = if b then 1 else 0

pub live_count-drop_expired_codes :
    (now t : ℕ) (token : Bytes) (m : CodeMap)
    → now ≤ t
    → live_count t token (drop_expired_codes now m) ≡ live_count t token m
unfolding live_count drop_expired_codes
live_count-drop_expired_codes now t token [] h = refl
live_count-drop_expired_codes now t token ((k, cc) ∷ m) h =
    ground (arith, live_count-drop_expired_codes now t token m h)

-- A kept code is not expired, so `use_first` takes it exactly if it is live.
use_first-live_count :
    (now : ℕ) (token : Bytes) (m : CodeMap)
    → live_count now token (use_first token (drop_expired_codes now m)).0
        + as_number (use_first token (drop_expired_codes now m)).1
      ≡ live_count now token m
unfolding live_count drop_expired_codes use_first
use_first-live_count now token [] = refl
use_first-live_count now token ((k, cc) ∷ m) =
    ground (arith, use_first-live_count now token m, live_count-drop_expired_codes now now token m)

live_count-antitone :
    (now t : ℕ) (token : Bytes) (m : CodeMap)
    → now ≤ t
    → live_count t token m ≤ live_count now token m
unfolding live_count
live_count-antitone now t token [] h = omega arith
live_count-antitone now t token ((k, cc) ∷ m) h =
    ground (arith, live_count-antitone now t token m h)

use_first_other :
    (t : ℕ) (token other : Bytes) (m : CodeMap)
    → token ≢ other
    → live_count t other (use_first token m).0 ≡ live_count t other m
unfolding live_count use_first
use_first_other t token other [] h = refl
use_first_other t token other ((k, cc) ∷ m) h = ground (
  arith,
  use_first_other t token other m h,
  eq_bytes_iff cc.token token,
  eq_bytes_iff cc.token other,
)

use_first_none :
    (now : ℕ) (token : Bytes) (m : CodeMap)
    → (use_first token (drop_expired_codes now m)).1 ≡ false
    → live_count now token m ≡ 0
unfolding live_count drop_expired_codes use_first
use_first_none now token [] h = refl
use_first_none now token ((k, cc) ∷ m) h = ground (arith, use_first_none now token m)

-- `ValidateToken` succeeds exactly if a live code has the token, and a success uses up one of them.
pub validate_token_iff :
    (now : ℕ) (token : Bytes) (m : Manager)
    → (((validate_token now token m).1 ≡ true) ↔ (0 < live_count now token m.code_map))
      × (live_count now token (validate_token now token m).0.code_map
            + as_number (validate_token now token m).1
          ≡ live_count now token m.code_map)
unfolding validate_token
validate_token_iff now token m =
    let spent = use_first-live_count now token m.code_map in
    let missed = use_first_none now token m.code_map in
    ((λ e. ground arith, λ p. ground arith), spent)

-- A token that exactly one live code has is accepted once, and at no later time again.
pub validate_token_once :
    (now t : ℕ) (token : Bytes) (m : Manager)
    → now ≤ t
    → live_count now token m.code_map ≡ 1
    → ((validate_token now token m).1 ≡ true)
      × ((validate_token t token (validate_token now token m).0).1 ≡ false)
validate_token_once now t token m h one =
    let (first, spent) = validate_token_iff now token m in
    let m' = (validate_token now token m).0 in
    let accepted = first.1 (omega arith) in
    let (second, _) = validate_token_iff t token m' in
    let later = live_count-antitone now t token m'.code_map h in
    (
      accepted,
      elim (Bool-cases (validate_token t token m').1) [
        | inl e ↦ absurd (ground (arith, second.0 e))
        | inr e ↦ e
      ],
    )

-- Validation of one token leaves every other token as it was, now and later.
pub validate_token_other :
    (now t : ℕ) (token other : Bytes) (m : Manager)
    → now ≤ t
    → token ≢ other
    → live_count t other (validate_token now token m).0.code_map ≡ live_count t other m.code_map
unfolding validate_token
validate_token_other now t token other m h ne =
    use_first_other t token other (drop_expired_codes now m.code_map) ne
    ∙ live_count-drop_expired_codes now t other m.code_map h

live_count-remove :
    (t : ℕ) (token k : Bytes) (m : CodeMap)
    → live_count t token (Dict.remove k m) ≤ live_count t token m
unfolding live_count Dict.remove
live_count-remove t token k [] = omega arith
live_count-remove t token k ((j, cc) ∷ m) = ground (arith, live_count-remove t token k m)

-- A code just generated, with a token that no live code had, is the one live code of its token for
-- fifteen minutes, and dead from then on. So it is accepted once in that time, and never after.
pub generate_code_lifetime :
    (tb cb : Bytes) (now t : ℕ) (m : Manager)
    → now ≤ t
    → live_count now (encode_raw_url tb) m.code_map ≡ 0
    → (t ≤ now + code_expiration
        → live_count t (encode_raw_url tb) (generate_code (some tb) (some cb) now m).0.code_map ≡ 1)
      × (now + code_expiration < t
          → (validate_token t (encode_raw_url tb) (generate_code (some tb) (some cb) now m).0).1
            ≡ false)
unfolding generate_code live_count Dict.insert
generate_code_lifetime tb cb now t m h fresh =
    let token = encode_raw_url tb in
    let m' = (generate_code (some tb) (some cb) now m).0 in
    let old = live_count-antitone now t token m.code_map h in
    let others = live_count-remove t token (map code_char cb) m.code_map in
    let same = eq_bytes_refl token in
    (
      λ soon. ground arith,
      λ late. elim (Bool-cases (validate_token t token m').1) [
        | inl e ↦ absurd (ground (arith, (validate_token_iff t token m').0.0 e))
        | inr e ↦ e
      ],
    )
