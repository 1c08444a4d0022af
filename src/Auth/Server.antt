-- ===== src/Auth/Server.antt =====
-- The server of RFC 5802 and RFC 7677, as the RFCs define it. It knows nothing of the client's code but what
-- it receives.
use babar.Prelude.{ℕ, zero, suc, ◌-◌, ◌≡◌, List, [], ◌∷◌, ◌++◌, Option, none, some}
use babar.Rust.{ascii}
use babar.Auth.Bits.{xor_bytes}
use babar.Auth.Scram.{Crypto, ChannelBinding}

-- The keys that a server stores for a user.
pub record ServerKeys : Type 0 where
  pub stored_key : List ℕ
  pub server_key : List ℕ

module _ (crypto : Crypto) where
  -- `Hi(str, salt, i)`: U1 over the salt and INT(1), each next U over the one in front of it; and their
  -- exclusive or. The index counts from zero.
  abbrev pub hi_term : (password salt : List ℕ) → ℕ → List ℕ
  hi_term password salt zero = crypto.hmac_sha256 password (salt ++ (0 ∷ 0 ∷ 0 ∷ 1 ∷ []))
  hi_term password salt (suc i) = crypto.hmac_sha256 password (hi_term password salt i)

  abbrev pub hi_sum : (password salt : List ℕ) → ℕ → List ℕ
  hi_sum password salt zero = hi_term password salt zero
  hi_sum password salt (suc i) = xor_bytes (hi_sum password salt i) (hi_term password salt (suc i))

  abbrev pub keys_from : (salted : List ℕ) → ServerKeys
  keys_from salted = record {
    stored_key = crypto.sha256 (crypto.hmac_sha256 salted (ascii "Client Key"));
    server_key = crypto.hmac_sha256 salted (ascii "Server Key");
  }

  abbrev pub keys_of : (password salt : List ℕ) → (iters : ℕ) → ServerKeys
  keys_of password salt iters = keys_from (hi_sum password salt (iters - 1))

  -- The header and the data of the channel binding that the server expects.
  abbrev pub expected_header : Option ChannelBinding → List ℕ
  expected_header none = ascii "n,,"
  expected_header (some data_of) = ascii "p=tls-server-end-point,,"

  abbrev pub expected_binding : Option ChannelBinding → List ℕ
  expected_binding none = ascii "n,,"
  expected_binding (some data_of) = ascii "p=tls-server-end-point,," ++ data_of

  -- `client-first-message-bare` for the empty user name, and `client-final-message-without-proof`.
  abbrev pub first_bare : (client_nonce : List ℕ) → List ℕ
  first_bare client_nonce = ascii "n=,r=" ++ client_nonce

  abbrev pub final_without_proof : Option ChannelBinding → (nonce : List ℕ) → List ℕ
  final_without_proof binding nonce =
      ascii "c=" ++ crypto.encode64 (expected_binding binding) ++ ascii ",r=" ++ nonce

  -- `AuthMessage`.
  abbrev pub server_auth_message : (bare server_first without_proof : List ℕ) → List ℕ
  server_auth_message bare server_first without_proof =
      bare ++ ascii "," ++ server_first ++ ascii "," ++ without_proof

  -- The server accepts a last message of the client: the text that it expects, and a proof whose exclusive
  -- or with the signature hashes to the stored key.
  abbrev pub IsAccepted : ServerKeys → (auth_message without_proof message : List ℕ) → Type 0
  IsAccepted keys auth_message without_proof message =
      (proof : List ℕ) × (message ≡ without_proof ++ ascii ",p=" ++ crypto.encode64 proof)
      × (crypto.sha256 (xor_bytes proof (crypto.hmac_sha256 keys.stored_key auth_message))
          ≡ keys.stored_key)

  -- The last message of the server.
  abbrev pub server_verifier : ServerKeys → (auth_message : List ℕ) → List ℕ
  server_verifier keys auth_message =
      ascii "v=" ++ crypto.encode64 (crypto.hmac_sha256 keys.server_key auth_message)
