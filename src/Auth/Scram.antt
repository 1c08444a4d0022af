-- ===== src/Auth/Scram.antt =====
-- crates/core/src/auth/scram.rs: the client of SCRAM-SHA-256. The hash, the HMAC and Base64 are those of
-- other crates, and the nonce is random: all are parameters.
use babar.Prelude.{
  ℕ, zero, suc, ◌-◌, List, [], ◌∷◌, ◌++◌, Option, none, some, Result, ok, err, ◌>>=◌, ◌>>◌, ok_or,
  ltb, ◌==◌, if◌then◌else◌,
}
use babar.Rust.{be32, ascii, from_utf8, parse_u64, equals}
use babar.Error.{Error, auth}
use babar.Auth.Bits.{xor_bytes, constant_time_eq}

-- `str::split`, `str::split_once` and `str::starts_with`.
abbrev push_first : ℕ → List (List ℕ) → List (List ℕ)
push_first b [] = (b ∷ []) ∷ []
push_first b (s ∷ parts) = (b ∷ s) ∷ parts

abbrev pub split : ℕ → List ℕ → List (List ℕ)
split c [] = [] ∷ []
split c (b ∷ s) = let parts = split c s in if b == c then [] ∷ parts else push_first b parts

abbrev push_key : ℕ → Option (List ℕ × List ℕ) → Option (List ℕ × List ℕ)
push_key b none = none
push_key b (some (key, value)) = some (b ∷ key, value)

abbrev pub split_once : ℕ → List ℕ → Option (List ℕ × List ℕ)
split_once c [] = none
split_once c (b ∷ s) =
    let later = push_key b (split_once c s) in if b == c then some ([], s) else later

abbrev pub strip_prefix : List ℕ → List ℕ → Option (List ℕ)
strip_prefix [] s = some s
strip_prefix (c ∷ prefix) [] = none
strip_prefix (c ∷ prefix) (b ∷ s) =
    let rest = strip_prefix prefix s in if b == c then rest else none

-- `RawFirst` is what was found so far of `ServerFirst`.
pub record RawFirst : Type 0 where
  pub raw_nonce : Option (List ℕ)
  pub raw_salt : Option (List ℕ)
  pub raw_iters : Option ℕ

pub record ServerFirst : Type 0 where
  pub nonce : List ℕ
  pub salt : List ℕ
  pub iters : ℕ

abbrev pub malformed : List ℕ → Error
malformed reason = auth (ascii "SCRAM server-first malformed: " ++ reason)

-- `str::parse` into a `u32`.
abbrev pub narrow : Option ℕ → Option ℕ
narrow none = none
narrow (some n) = if ltb n 0x1_0000_0000 then some n else none

abbrev put_iters : RawFirst → Option ℕ → Result Error RawFirst
put_iters raw none = err (malformed (ascii "iter count not u32"))
put_iters raw (some n) = ok (record raw { raw_iters = some n })

abbrev pub put_attribute : RawFirst → Option (List ℕ × List ℕ) → Result Error RawFirst
put_attribute raw none = err (malformed (ascii "missing '=' in attribute"))
put_attribute raw (some (key, value)) =
    if equals key (ascii "r")
    then ok (record raw { raw_nonce = some value })
    else if equals key (ascii "s")
    then ok (record raw { raw_salt = some value })
    else if equals key (ascii "i")
    then put_iters raw (narrow (parse_u64 value))
    else ok raw

-- The loop over the attributes.
unfoldable pub attributes_loop : RawFirst → List (List ℕ) → Result Error RawFirst
attributes_loop raw [] = ok raw
attributes_loop raw (attr ∷ attrs) =
    put_attribute raw (split_once b'=' attr) >>= λ next. attributes_loop next attrs

abbrev pub complete : RawFirst → Result Error ServerFirst
complete raw = do
  nonce ← ok_or raw.raw_nonce (malformed (ascii "missing r"))
  salt ← ok_or raw.raw_salt (malformed (ascii "missing s"))
  iters ← ok_or raw.raw_iters (malformed (ascii "missing i"))
  ok (record { nonce = nonce; salt = salt; iters = iters })

unfoldable pub parse_server_first : List ℕ → Result Error ServerFirst
parse_server_first s =
    attributes_loop (record { raw_nonce = none; raw_salt = none; raw_iters = none }) (split b',' s)
    >>= complete

pub data ServerFinal : Type 0 where
  verifier server_error : List ℕ → ServerFinal

abbrev final_attribute :
    Option (List ℕ) → Option (List ℕ) → Result Error ServerFinal → Result Error ServerFinal
final_attribute (some v) e rest = ok (verifier v)
final_attribute none (some e) rest = ok (server_error e)
final_attribute none none rest = rest

unfoldable pub final_loop : List (List ℕ) → Result Error ServerFinal
final_loop [] =
    err (auth (ascii "SCRAM server-final malformed: server-final has neither v= nor e="))
final_loop (attr ∷ attrs) =
    final_attribute (strip_prefix (ascii "v=") attr) (strip_prefix (ascii "e=") attr)
      (final_loop attrs)

unfoldable pub parse_server_final : List ℕ → Result Error ServerFinal
parse_server_final s = final_loop (split b',' s)

-- The data of a `tls-server-end-point` binding.
abbrev pub ChannelBinding : Type 0
ChannelBinding = List ℕ

unfoldable pub mechanism_name : Option ChannelBinding → List ℕ
mechanism_name none = ascii "SCRAM-SHA-256"
mechanism_name (some binding) = ascii "SCRAM-SHA-256-PLUS"

abbrev pub gs2_header : Option ChannelBinding → List ℕ
gs2_header none = ascii "n,,"
gs2_header (some binding) = ascii "p=tls-server-end-point,,"

abbrev pub encoded_channel_binding : Option ChannelBinding → List ℕ
encoded_channel_binding none = gs2_header none
encoded_channel_binding (some binding) = gs2_header (some binding) ++ binding

pub record ClientFirst : Type 0 where
  pub first_message : List ℕ
  pub password : List ℕ
  pub channel_binding : Option ChannelBinding
  pub first_bare_message : List ℕ
  pub client_nonce : List ℕ

pub record ClientFinal : Type 0 where
  pub final_message : List ℕ
  pub server_key : List ℕ
  pub auth_message : List ℕ

-- What the other crates compute.
pub record Crypto : Type 0 where
  pub hmac_sha256 : (key message : List ℕ) → List ℕ
  pub sha256 : List ℕ → List ℕ
  pub encode64 : List ℕ → List ℕ
  pub decode64 : List ℕ → Option (List ℕ)

module _ (crypto : Crypto) where
  -- `ScramClient::start_with_nonce`.
  unfoldable pub start_with_nonce :
      (password : List ℕ) → Option ChannelBinding → (nonce_bytes : List ℕ) → ClientFirst
  start_with_nonce password binding nonce_bytes =
      let client_nonce = crypto.encode64 nonce_bytes in
      let bare = ascii "n=,r=" ++ client_nonce in
      record {
        first_message = gs2_header binding ++ bare;
        password = password;
        channel_binding = binding;
        first_bare_message = bare;
        client_nonce = client_nonce;
      }

  -- The rounds of `pbkdf2_hmac_sha256` behind the first.
  unfoldable pub pbkdf2_loop : (password : List ℕ) → (rounds : ℕ) → (u out : List ℕ) → List ℕ
  pbkdf2_loop password zero u out = out
  pbkdf2_loop password (suc rounds) u out =
      let u' = crypto.hmac_sha256 password u in pbkdf2_loop password rounds u' (xor_bytes out u')

  unfoldable pub pbkdf2_hmac_sha256 : (password salt : List ℕ) → (iters : ℕ) → List ℕ
  pbkdf2_hmac_sha256 password salt iters =
      let u = crypto.hmac_sha256 password (salt ++ be32 1) in pbkdf2_loop password (iters - 1) u u

  -- The keys and the messages, once the salt and the number of rounds are known.
  abbrev pub client_final :
      ClientFirst → (server_first salt nonce : List ℕ) → (iters : ℕ) → ClientFinal
  client_final c server_first salt nonce iters =
      let salted = pbkdf2_hmac_sha256 c.password salt iters in
      let client_key = crypto.hmac_sha256 salted (ascii "Client Key") in
      let stored_key = crypto.sha256 client_key in
      let without_proof =
        ascii "c="
        ++ crypto.encode64 (encoded_channel_binding c.channel_binding)
        ++ ascii ",r="
        ++ nonce in
      let auth_message =
        c.first_bare_message ++ ascii "," ++ server_first ++ ascii "," ++ without_proof in
      let client_proof = xor_bytes client_key (crypto.hmac_sha256 stored_key auth_message) in
      record {
        final_message = without_proof ++ ascii ",p=" ++ crypto.encode64 client_proof;
        server_key = crypto.hmac_sha256 salted (ascii "Server Key");
        auth_message = auth_message;
      }

  abbrev nonce_extends : Option (List ℕ) → Result Error (Unit {0})
  nonce_extends none = err (auth (ascii "SCRAM server nonce does not extend client nonce"))
  nonce_extends (some rest) = ok tt

  abbrev check_iters : ℕ → Result Error (Unit {0})
  check_iters n = if n == 0 then err (auth (ascii "SCRAM iteration count was 0")) else ok tt

  -- `ClientFirst::handle_server_first`.
  unfoldable pub handle_server_first : ClientFirst → List ℕ → Result Error ClientFinal
  handle_server_first c server_first = do
    s ← ok_or (from_utf8 server_first) (auth (ascii "SCRAM server-first not UTF-8"))
    parsed ← parse_server_first s
    nonce_extends (strip_prefix c.client_nonce parsed.nonce)
    salt ← ok_or (crypto.decode64 parsed.salt) (auth (ascii "SCRAM salt not valid base64"))
    check_iters parsed.iters
    ok (client_final c s salt parsed.nonce parsed.iters)

  abbrev check_signature : (claimed expected : List ℕ) → Result Error (Unit {0})
  check_signature claimed expected =
      if constant_time_eq claimed expected
      then ok tt
      else err (auth (ascii "SCRAM server signature mismatch"))

  abbrev pub check_final : ClientFinal → ServerFinal → Result Error (Unit {0})
  check_final c (verifier b64) =
      ok_or (crypto.decode64 b64) (auth (ascii "SCRAM verifier not base64")) >>= λ claimed.
      check_signature claimed (crypto.hmac_sha256 c.server_key c.auth_message)
  check_final c (server_error e) = err (auth (ascii "SCRAM server reported error: " ++ e))

  -- `ClientFinal::verify_server_final`.
  unfoldable pub verify_server_final : ClientFinal → List ℕ → Result Error (Unit {0})
  verify_server_final c server_final = do
    s ← ok_or (from_utf8 server_final) (auth (ascii "SCRAM server-final not UTF-8"))
    parsed ← parse_server_final s
    check_final c parsed
