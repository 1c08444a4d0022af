-- ===== src/Protocol/Termination.antt =====
-- The loops of the decoder end: the model never runs out of the rounds that it is given.
use babar.Prelude.{
  ℕ, zero, suc, ◌-◌, ◌<◌, ◌≡◌, ◌≢◌, refl, List, [], ◌∷◌, ◌++◌, String, none, some, Result, ok, err,
  Bool, true, false, if◌then◌else◌, length, length-drop, Option-cases, Result-cases, inl, inr, take,
  drop, arith,
}
use babar.Rust.{from_be32, ℤ, pos, negsuc, from_utf8_same}
use babar.Error.{Error, out_of_fuel}
use babar.Protocol.Backend.{Bytes, Text, BackendMessage, other}
use babar.Protocol.Reader.{
  Reader, ◌>>=◌, pure, read_u8, read_i16, read_i32, read_u32, read_cstr, repeat, find_nul,
}
use babar.Protocol.Decode.{
  to_count, sasl_loop, decode_auth_code, decode_auth, error_fields_loop, read_error_fields,
  read_row_field, split_column, column_of_length, read_column, decode_authentication,
  decode_parameter_status, decode_backend_key_data, decode_ready_for_query, decode_row_description,
  decode_data_row, decode_copy_in_response, decode_command_complete, decode_error_response,
  decode_notice_response, decode_parameter_description, decode_tag, decode_body,
}
use babar.Protocol.Frame.{decode}

-- A reader that never runs out of fuel.
record Ends {A : Type 0} (m : Reader A) : Type 0 where
  run : (buf : Bytes) → m buf ≢ err out_of_fuel

bind-ne :
    {A B : Type 0} (r : Result Error (A × Bytes)) (m : Reader A) (f : A → Reader B) (buf : Bytes)
    → m buf ≡ r
    → m buf ≢ err out_of_fuel
    → ((a : A) (rest : Bytes) → f a rest ≢ err out_of_fuel)
    → (m >>= f) buf ≢ err out_of_fuel
bind-ne (ok (a, rest)) m f buf e n k = rw (e, ◌>>=◌) (k a rest)
bind-ne (err x) m f buf e n k = rw (e, ◌>>=◌) (λ h. n (cc))

Ends-bind :
    {A B : Type 0} (m : Reader A) (f : A → Reader B)
    → Ends m
    → ((a : A) → Ends (f a))
    → Ends (m >>= f)
Ends-bind m f e k = record {
  run = λ buf. bind-ne (m buf) m f buf refl (e.run buf) (λ a. (k a).run);
}

Ends-pure : {A : Type 0} (a : A) → Ends (pure a)
Ends-pure a = record { run = λ buf h. cc }

Ends-read_u8 : (ctx : String) → Ends (read_u8 ctx)
unfolding read_u8
Ends-read_u8 ctx = record { run = elim [ [] ↦ λ h. cc | a ∷ r ↦ λ h. cc ] }

Ends-read_i16 : (ctx : String) → Ends (read_i16 ctx)
unfolding read_i16
Ends-read_i16 ctx = record { run = go }
  where
    go : (buf : Bytes) → read_i16 ctx buf ≢ err out_of_fuel
    go [] h = cc
    go (a ∷ b ∷ r) h = cc
    go _ h = cc

Ends-read_i32 : (ctx : String) → Ends (read_i32 ctx)
unfolding read_i32
Ends-read_i32 ctx = record { run = go }
  where
    go : (buf : Bytes) → read_i32 ctx buf ≢ err out_of_fuel
    go [] h = cc
    go (a ∷ b ∷ c ∷ d ∷ r) h = cc
    go _ h = cc

Ends-read_u32 : (ctx : String) → Ends (read_u32 ctx)
unfolding read_u32
Ends-read_u32 ctx = record { run = go }
  where
    go : (buf : Bytes) → read_u32 ctx buf ≢ err out_of_fuel
    go [] h = cc
    go (a ∷ b ∷ c ∷ d ∷ r) h = cc
    go _ h = cc

Ends-read_cstr : (ctx : String) → Ends (read_cstr ctx)
unfolding read_cstr
Ends-read_cstr ctx = record { run = λ buf h. ground arith }

Ends-to_count : (ctx : String) (z : ℤ) → Ends (to_count ctx z)
Ends-to_count ctx (pos n) = record { run = λ buf h. cc }
Ends-to_count ctx (negsuc n) = record { run = λ buf h. cc }

Ends-repeat : {A : Type 0} (n : ℕ) (m : Reader A) → Ends m → Ends (repeat n m)
unfolding repeat
Ends-repeat zero m e = Ends-pure []
Ends-repeat (suc n) m e =
    Ends-bind m _ e λ a. Ends-bind (repeat n m) _ (Ends-repeat n m e) λ rest. Ends-pure (a ∷ rest)

Ends-split_column : (n : ℕ) → Ends (split_column n)
unfolding split_column
Ends-split_column n = record { run = λ buf h. ground arith }

Ends-column_of_length : (z : ℤ) → Ends (column_of_length z)
Ends-column_of_length (pos n) = Ends-split_column n
Ends-column_of_length (negsuc zero) = Ends-pure none
Ends-column_of_length (negsuc (suc n)) = record { run = λ buf h. cc }

-- A text and its NUL take one byte at least.
find_nul-lt-length : (buf : Bytes) (n : ℕ) → find_nul buf ≡ some n → n < length buf
unfolding find_nul
find_nul-lt-length [] n h = cc
find_nul-lt-length (b ∷ bs) zero h = omega arith
find_nul-lt-length (b ∷ bs) (suc n) h = ground (arith, find_nul-lt-length bs n)

read_cstr_shrinks :
    (ctx : String) (buf : Bytes) (s : Text) (rest : Bytes)
    → read_cstr ctx buf ≡ ok (s, rest)
    → length rest < length buf
unfolding read_cstr
read_cstr_shrinks ctx buf s rest h = elim (Option-cases (find_nul buf)) [
  | inl e ↦ ground arith
  | inr (n, e) ↦ ground (arith, length-drop (suc n) buf, find_nul-lt-length buf n e)
]

error_fields_loop-ne-out_of_fuel :
    (fuel : ℕ) (fields : List (ℕ × Text)) (buf : Bytes)
    → length buf < fuel
    → error_fields_loop fuel fields buf ≢ err out_of_fuel
unfolding error_fields_loop read_u8
error_fields_loop-ne-out_of_fuel zero fields buf h e = absurd (omega arith)
error_fields_loop-ne-out_of_fuel (suc fuel) fields [] h e = cc
error_fields_loop-ne-out_of_fuel (suc fuel) fields (code ∷ buf) h e =
    elim (Result-cases (read_cstr "ErrorResponse.field.value" buf)) [
      | inl ((s, rest), r) ↦ ground (
        arith,
        error_fields_loop-ne-out_of_fuel fuel (fields ++ ((code, s) ∷ [])) rest,
        read_cstr_shrinks "ErrorResponse.field.value" buf s rest r,
      )
      | inr (x, r) ↦ ground (arith, (Ends-read_cstr "ErrorResponse.field.value").run buf)
    ]

sasl_loop-ne-out_of_fuel :
    (fuel : ℕ) (mechs : List Text) (rest : Bytes)
    → length rest < fuel
    → sasl_loop fuel mechs rest ≢ err out_of_fuel
unfolding sasl_loop
sasl_loop-ne-out_of_fuel zero mechs rest h e = absurd (omega arith)
sasl_loop-ne-out_of_fuel (suc fuel) mechs [] h e = cc
sasl_loop-ne-out_of_fuel (suc fuel) mechs (b ∷ bs) h e = elim (Option-cases (find_nul (b ∷ bs))) [
  | inl r ↦ ground arith
  | inr (n, r) ↦ ground (
    arith,
    sasl_loop-ne-out_of_fuel fuel (mechs ++ (take n (b ∷ bs) ∷ [])) (drop n bs),
    from_utf8_same (take n (b ∷ bs)),
    length-drop n bs,
  )
]

Ends-read_error_fields : Ends read_error_fields
unfolding read_error_fields
Ends-read_error_fields = record {
  run = λ buf. error_fields_loop-ne-out_of_fuel (suc (length buf)) [] buf (omega arith);
}

decode_auth-ne-out_of_fuel : (z : ℤ) (body : Bytes) → decode_auth z body ≢ err out_of_fuel
unfolding decode_auth decode_auth_code
decode_auth-ne-out_of_fuel (pos code) body h =
    ground (arith, sasl_loop-ne-out_of_fuel (suc (length body)) [] body)
decode_auth-ne-out_of_fuel (negsuc n) body h = cc

ruleset ends = (
  Ends-bind, Ends-pure, Ends-read_u8, Ends-read_i16, Ends-read_i32, Ends-read_u32, Ends-read_cstr,
  Ends-to_count, Ends-repeat, Ends-column_of_length, Ends-read_error_fields,
)

Ends-read_row_field : Ends read_row_field
unfolding read_row_field
Ends-read_row_field = search ends depth 12

Ends-read_column : Ends read_column
unfolding read_column
Ends-read_column = search ends

Ends-if : {A : Type 0} (b : Bool) (m n : Reader A) → Ends m → Ends n → Ends (if b then m else n)
Ends-if true m n d e = d
Ends-if false m n d e = e

Ends-authentication : Ends decode_authentication
unfolding decode_authentication
Ends-authentication =
    Ends-bind (read_i32 "Authentication.code") _ (Ends-read_i32 "Authentication.code")
      λ code. record { run = λ body h. ground (arith, decode_auth-ne-out_of_fuel code body) }

Ends-row_description : Ends decode_row_description
unfolding decode_row_description
Ends-row_description = search (ends, Ends-read_row_field)

Ends-data_row : Ends decode_data_row
unfolding decode_data_row
Ends-data_row = search (ends, Ends-read_column)

Ends-copy_in_response : Ends decode_copy_in_response
unfolding decode_copy_in_response
Ends-copy_in_response = search ends depth 8

Ends-parameter_description : Ends decode_parameter_description
unfolding decode_parameter_description
Ends-parameter_description = search ends depth 8

Ends-other : (tag : ℕ) → Ends {A = BackendMessage} (λ body. ok (other tag body, []))
Ends-other tag = record { run = λ buf h. cc }

ruleset arms = (
  ends, Ends-if, Ends-authentication, Ends-row_description, Ends-data_row, Ends-copy_in_response,
  Ends-parameter_description, Ends-other,
)

Ends-decode_tag : (tag : ℕ) → Ends (decode_tag tag)
unfolding decode_tag decode_parameter_status decode_backend_key_data decode_ready_for_query
    decode_command_complete decode_error_response decode_notice_response
Ends-decode_tag tag = search arms depth 40

-- The decoder ends on every buffer: neither loop of `decode_body` goes on for ever.
pub decode-ne-out_of_fuel : (src : Bytes) → (decode src).0 ≢ err out_of_fuel
unfolding decode decode_body
decode-ne-out_of_fuel [] h = cc
decode-ne-out_of_fuel (tag ∷ a ∷ b ∷ c ∷ d ∷ body) h =
    ground (arith, (Ends-decode_tag tag).run (take (from_be32 a b c d - 4) body))
decode-ne-out_of_fuel _ h = cc
