-- ===== src/Json.antt =====
-- JSON values, and `json.Unmarshal` of one into a struct of texts, flags and integers, as the
-- program uses it for the parameters of tools. The reading of the JSON text itself is left out: a
-- `json.RawMessage` is the value that its text stands for, and an absent message is no value.
use Prim.Native.String.{String}
use lokifix.Prelude.Int.{ℤ, pos, negsuc}
use lokifix.Prelude.{
  ℕ, ◌^◌, Bool, false, Option, none, some, [], ltb, if◌then◌else◌, Bytes, codes, eq_bytes, to_lower,
}

mutual
  pub data Json : Type 0 where
    null : Json
    flag : Bool → Json
    int : ℤ → Json
    fraction : Json
    text : Bytes → Json
    arr : Items → Json
    obj : Fields → Json

  pub data Items : Type 0 where
    nil : Items
    cons : Json → Items → Items

  pub data Fields : Type 0 where
    end : Fields
    field : Bytes → Json → Fields → Fields

infixl 5 ◌>>=◌
abbrev pub ◌>>=◌ {ℓ κ} : {A : Type ℓ} {B : Type κ} → Option A → (A → Option B) → Option B
none >>= f = none
some a >>= f = f a

-- The text of a raw message; `none` where it is empty.
abbrev pub RawMessage : Type 0
RawMessage = Option Json

-- `none` is an error of `Unmarshal`. Null stands for a struct with no field given.
unfoldable pub fields_of : RawMessage → Option Fields
fields_of (some (obj fs)) = some fs
fields_of (some null) = some end
fields_of (some (flag b)) = none
fields_of _ = none

unfoldable pub read_text : Json → Option Bytes
read_text (text s) = some s
read_text _ = none

unfoldable pub read_flag : Json → Option Bool
read_flag (flag b) = some b
read_flag _ = none

abbrev pub int64_bound : ℕ
int64_bound = 2 ^ 63

unfoldable pub fits_int64 : ℤ → Bool
fits_int64 (pos n) = ltb n int64_bound
fits_int64 (negsuc n) = ltb n int64_bound

unfoldable pub read_int : Json → Option ℤ
unfolding fits_int64
read_int (int z) = if fits_int64 z then some z else none
read_int _ = none

-- A null leaves the field as it is.
unfoldable pub update {ℓ} : {A : Type ℓ} → (Json → Option A) → Json → A → Option A
update read null cur = some cur
update read v cur = read v

-- The value of the struct field `name`: keys are compared without regard to case, and the last one
-- counts. `cur` is the value so far, at first the zero value.
unfoldable pub member {ℓ} : {A : Type ℓ} → (Json → Option A) → Bytes → Fields → A → Option A
unfolding update
member read name end cur = some cur
member read name (field k v fs) cur =
    let skip = member read name fs cur in
    let take = (update read v cur >>= λ x. member read name fs x) in
    if eq_bytes (to_lower k) (to_lower name) then take else skip

unfoldable pub text_field : String → Fields → Option Bytes
unfolding member read_text
text_field name fs = member read_text (codes name) fs []

unfoldable pub flag_field : String → Fields → Option Bool
unfolding member read_flag
flag_field name fs = member read_flag (codes name) fs false

unfoldable pub int_field : String → Fields → Option ℤ
unfolding member read_int
int_field name fs = member read_int (codes name) fs (pos 0)
