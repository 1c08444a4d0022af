-- ===== src/Session/Startup.antt =====
-- crates/core/src/session/startup.rs: the dialogue before the session is ready, as the states in which the
-- code waits for a message. The message that an error prints is left out of it.
pub mod Guarded
pub mod Chunks
mod Tests
use babar.Prelude.{
  ℕ, suc, ◌+◌, List, [], ◌∷◌, ◌++◌, Option, none, some, Bool, true, false, ◌||◌, Result, ok, err,
  ok_or, length, if◌then◌else◌,
}
use babar.Prelude.Assoc.{insert}
use babar.Rust.{ℤ, ascii, equals}
use babar.Error.{Error, protocol, auth, unsupported_auth, from_server_fields, unexpected_message}
use babar.Protocol.Backend.{
  BackendMessage, AuthRequest, auth_ok, cleartext_password, md5_password, sasl_mechanisms,
  sasl_continue, sasl_final, unsupported, authentication, parameter_status, backend_key_data,
  ready_for_query, error_response, notice_response,
}
use babar.Migration.Filename.{Text-discrete}
use babar.Migration.Statements.{i64_to_string}
use babar.Auth.Md5
use babar.Auth.Scram.{
  Crypto, ChannelBinding, ClientFirst, ClientFinal, mechanism_name, start_with_nonce,
  handle_server_first, verify_server_final,
}

pub data ChannelBindingState : Type 0 where
  available : ChannelBinding → ChannelBindingState
  unavailable : ChannelBindingState
  binding_failed : List ℕ → ChannelBindingState

pub record StartupConfig : Type 0 where
  pub user : List ℕ
  pub database : List ℕ
  pub password : Option (List ℕ)
  pub application_name : Option (List ℕ)
  pub scram_channel_binding : ChannelBindingState

pub data StartupMessage : Type 0 where
  startup : List (List ℕ × List ℕ) → StartupMessage
  password_message : List ℕ → StartupMessage
  sasl_initial_response : (mechanism payload : List ℕ) → StartupMessage
  sasl_response : List ℕ → StartupMessage

-- Where the code waits: in `authenticate`, at the top of its loop or in the SASL exchange; and in
-- `connect`, behind it. Then it has a session or an error.
pub data Phase : Type 0 where
  authenticating : Phase
  awaits_first : ClientFirst → Phase
  awaits_final : ClientFinal → Phase
  collecting : (server_params : List (List ℕ × List ℕ)) → (key_data : Option (ℤ × ℤ)) → Phase
  ready :
      (server_params : List (List ℕ × List ℕ))
      → (key_data : Option (ℤ × ℤ)) → (transaction_status : ℕ) → Phase
  failed : Error → Phase

pub record Startup : Type 0 where
  pub phase : Phase
  pub sent : List StartupMessage

-- A message that arrives, and the result of the flush if there is one behind it.
pub record Arrival : Type 0 where
  pub message : BackendMessage
  pub flush : Result Error (Unit {0})

abbrev any_is : List ℕ → List (List ℕ) → Bool
any_is s [] = false
any_is s (m ∷ mechanisms) = equals m s || any_is s mechanisms

abbrev bind_channel : ChannelBindingState → Result Error (Option ChannelBinding)
bind_channel (available binding) = ok (some binding)
bind_channel unavailable = err (
    unsupported_auth
      (ascii "server offered SCRAM-SHA-256-PLUS but TLS channel binding data is unavailable"))
bind_channel (binding_failed reason) = err (
    unsupported_auth
      (ascii "server offered SCRAM-SHA-256-PLUS but channel binding setup failed: " ++ reason))

-- `select_scram_client`: the channel binding of the client.
unfoldable pub select_scram_client :
    List (List ℕ) → ChannelBindingState → Result Error (Option ChannelBinding)
select_scram_client mechanisms state =
    if any_is (ascii "SCRAM-SHA-256-PLUS") mechanisms
    then bind_channel state
    else if any_is (ascii "SCRAM-SHA-256") mechanisms
    then ok none
    else err (unsupported_auth (ascii "only SCRAM-SHA-256 and SCRAM-SHA-256-PLUS are supported"))

abbrev startup_params : StartupConfig → List (List ℕ × List ℕ)
startup_params c =
    (ascii "user", c.user)
    ∷ (ascii "database", c.database)
    ∷ (ascii "client_encoding", ascii "UTF8")
    ∷ application c.application_name
  where
    application : Option (List ℕ) → List (List ℕ × List ℕ)
    application none = []
    application (some name) = (ascii "application_name", name) ∷ []

-- The encoder of another crate, as the messages that it refuses; the crates of the exchange; and the
-- nonces, by the number of the messages that were sent before.
module _ (refuses : StartupMessage → Option Error) (crypto : Crypto) (md5 : List ℕ → List ℕ)
    (nonce_bytes : ℕ → List ℕ) (config : StartupConfig) where
  abbrev becomes : Startup → Phase → Startup
  becomes s p = record s { phase = p }

  abbrev pub flushed : Startup → StartupMessage → Phase → Result Error (Unit {0}) → Startup
  flushed s m next (ok u) = record s { phase = next; sent = s.sent ++ (m ∷ []) }
  flushed s m next (err e) = record s { phase = failed e; sent = s.sent ++ (m ∷ []) }

  -- Encode a message, flush it and wait in another phase.
  abbrev pub send_message : Startup → StartupMessage → Phase → Result Error (Unit {0}) → Startup
  send_message s m next flush = elim (refuses m) [
    | some e ↦ becomes s (failed e)
    | none ↦ flushed s m next flush
  ]

  abbrev no_password : Startup → List ℕ → Startup
  no_password s reason =
      becomes s
        (failed (auth (ascii "server requested " ++ reason ++ ascii " but no password configured")))

  abbrev sasl_start :
      Startup
      → Result Error (Unit {0})
      → (password : List ℕ) → Result Error (Option ChannelBinding)
      → Startup
  sasl_start s flush password (err e) = becomes s (failed e)
  sasl_start s flush password (ok binding) =
      let c = start_with_nonce crypto password binding (nonce_bytes (length s.sent)) in
      send_message s (sasl_initial_response (mechanism_name binding) c.first_message)
        (awaits_first c) flush

  -- The arms of `authenticate`.
  abbrev pub authenticate : Startup → BackendMessage → Result Error (Unit {0}) → Startup
  authenticate s (authentication auth_ok) flush = becomes s (collecting [] none)
  authenticate s (authentication cleartext_password) flush = elim config.password [
    | none ↦ no_password s (ascii "cleartext password")
    | some password ↦ send_message s (password_message password) authenticating flush
  ]
  authenticate s (authentication (md5_password a b c d)) flush = elim config.password [
    | none ↦ no_password s (ascii "MD5 password")
    | some password ↦
        send_message s
          (password_message (Md5.md5_password md5 config.user password (a ∷ b ∷ c ∷ d ∷ [])))
          authenticating flush
  ]
  authenticate s (authentication (sasl_mechanisms mechanisms)) flush = elim config.password [
    | none ↦ no_password s (ascii "SCRAM auth")
    | some password ↦
        sasl_start s flush password (select_scram_client mechanisms config.scram_channel_binding)
  ]
  authenticate s (authentication (unsupported code)) flush =
      becomes s (failed (unsupported_auth (ascii "auth code " ++ i64_to_string code)))
  authenticate s (authentication (sasl_continue d)) flush =
      becomes s
        (failed (protocol (unexpected_message "unsolicited SASL message during initial auth")))
  authenticate s (authentication (sasl_final d)) flush =
      becomes s
        (failed (protocol (unexpected_message "unsolicited SASL message during initial auth")))
  authenticate s (error_response fields) flush = becomes s (failed (from_server_fields fields))
  authenticate s (parameter_status name value) flush = s
  authenticate s (notice_response fields) flush = s
  authenticate s m flush =
      becomes s (failed (protocol (unexpected_message "unexpected message during auth")))

  abbrev pub answer_first : Startup → Result Error (Unit {0}) → Result Error ClientFinal → Startup
  answer_first s flush (err e) = becomes s (failed e)
  answer_first s flush (ok f) =
      send_message s (sasl_response f.final_message) (awaits_final f) flush

  abbrev pub on_server_first :
      Startup → ClientFirst → BackendMessage → Result Error (Unit {0}) → Startup
  on_server_first s c (authentication (sasl_continue d)) flush =
      answer_first s flush (handle_server_first crypto c d)
  on_server_first s c (error_response fields) flush = becomes s (failed (from_server_fields fields))
  on_server_first s c m flush =
      becomes s (failed (protocol (unexpected_message "expected SASLContinue")))

  abbrev pub after_verify : Startup → Result Error (Unit {0}) → Startup
  after_verify s (err e) = becomes s (failed e)
  after_verify s (ok u) = becomes s authenticating

  abbrev pub on_server_final : Startup → ClientFinal → BackendMessage → Startup
  on_server_final s f (authentication (sasl_final d)) =
      after_verify s (verify_server_final crypto f d)
  on_server_final s f (error_response fields) = becomes s (failed (from_server_fields fields))
  on_server_final s f m = becomes s (failed (protocol (unexpected_message "expected SASLFinal")))

  -- The loop of `connect` up to ReadyForQuery.
  abbrev pub collect : Startup → List (List ℕ × List ℕ) → Option (ℤ × ℤ) → BackendMessage → Startup
  collect s params key (parameter_status name value) =
      becomes s (collecting (insert Text-discrete name value params) key)
  collect s params key (backend_key_data process secret) =
      becomes s (collecting params (some (process, secret)))
  collect s params key (notice_response fields) = s
  collect s params key (ready_for_query status) = becomes s (ready params key status)
  collect s params key (error_response fields) = becomes s (failed (from_server_fields fields))
  collect s params key m =
      becomes s (failed (protocol (unexpected_message "unexpected message after auth")))

  unfoldable pub startup_step : Startup → Arrival → Startup
  startup_step s a = elim s.phase [
    | authenticating ↦ authenticate s a.message a.flush
    | awaits_first c ↦ on_server_first s c a.message a.flush
    | awaits_final f ↦ on_server_final s f a.message
    | collecting params key ↦ collect s params key a.message
    | ready params key status ↦ s
    | failed e ↦ s
  ]

  unfoldable pub run_startup : Startup → List Arrival → Startup
  run_startup s [] = s
  run_startup s (a ∷ arrivals) = run_startup (startup_step s a) arrivals

  -- The first message, behind the transport.
  unfoldable pub connect : Result Error (Unit {0}) → Startup
  connect flush =
      send_message (record { phase = authenticating; sent = [] }) (startup (startup_params config))
        authenticating flush
