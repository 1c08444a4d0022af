-- ===== src/Session/Startup/Tests.antt =====
-- The dialogue at concrete messages.
use babar.Prelude.{arith, ℕ, ◌≡◌, refl, List, [], ◌∷◌, ◌++◌, Option, none, some, true, ok}
use babar.Rust.{ascii}
use babar.Error.{Error}
use babar.Protocol.Backend.{
  BackendMessage, Bytes, authentication, sasl_continue, sasl_final, auth_ok, ready_for_query,
}
use babar.Protocol.Frame.{decode}
use babar.Protocol.Decode.{decode_body, decode_tag, decode_ready_for_query}
use babar.Protocol.Reader.{read_u8}
use babar.Auth.Scram.{
  ClientFirst, ClientFinal, verifier, start_with_nonce, client_final, handle_server_first,
  parse_server_final,
}
use babar.Auth.Verifier.{signature}
use babar.Auth.Messages.{server_first, server_final}
use babar.Auth.Exchange.{handle_lem, verify_lem}
use babar.Auth.StandIn.{toy, toy-IsCrypto, letters, read_letters}
use babar.Session.Startup
use babar.Session.Startup.Guarded.{is_ready, ready_needs_signature}
use babar.Session.Startup.Chunks.{
  Read, received, bytes_of, result_of, read_message, read_message_lem,
}

-- ReadyForQuery, in two reads that cut its length.
abbrev two_reads : List Read
two_reads = received (b'Z' ∷ 0 ∷ 0 ∷ []) ∷ received (0 ∷ 5 ∷ b'I' ∷ 1 ∷ []) ∷ []

ready_decodes : decode (bytes_of two_reads) ≡ (result_of (ok (ready_for_query b'I')), 1 ∷ [])
unfolding decode decode_body decode_tag decode_ready_for_query read_u8
ready_decodes = refl

read_message_lem_example :
    (rx' : Bytes) × (reads' : List Read) × (read_message [] two_reads
      ≡ some (ok (ready_for_query b'I'), rx', reads'))
    × (rx' ++ bytes_of reads' ≡ 1 ∷ [])
read_message_lem_example =
    read_message_lem [] two_reads (ok (ready_for_query b'I')) (1 ∷ []) (refl, (refl, tt))
      ready_decodes

abbrev config : Startup.StartupConfig
config = record {
  user = ascii "ada";
  database = ascii "db";
  password = some (ascii "pencil");
  application_name = none;
  scram_channel_binding = Startup.unavailable;
}

abbrev refuses : Startup.StartupMessage → Option Error
refuses m = none

-- No password is asked for by MD5 here.
abbrev no_md5 : List ℕ → List ℕ
no_md5 s = []

abbrev nonces : ℕ → List ℕ
nonces n = 1 ∷ 2 ∷ []

abbrev client : ClientFirst
client = start_with_nonce toy (ascii "pencil") none (1 ∷ 2 ∷ [])

abbrev first : List ℕ
first = server_first (client.client_nonce ++ (b'x' ∷ [])) (letters (7 ∷ [])) 3

abbrev last_stage : ClientFinal
last_stage = client_final toy client first (7 ∷ []) (client.client_nonce ++ (b'x' ∷ [])) 3

abbrev arrives : BackendMessage → Startup.Arrival
arrives m = record { message = m; flush = ok tt }

abbrev dialogue : List Startup.Arrival
dialogue =
    arrives (authentication (sasl_continue first))
    ∷ arrives (authentication (sasl_final (server_final (letters (signature toy last_stage)))))
    ∷ arrives (authentication auth_ok)
    ∷ arrives (ready_for_query b'I')
    ∷ []

abbrev started : Startup.Startup
started = record { phase = Startup.awaits_first client; sent = [] }

handled : handle_server_first toy client first ≡ ok last_stage
unfolding start_with_nonce
handled =
    handle_lem toy toy-IsCrypto client (b'x' ∷ []) (7 ∷ []) 3
      (toy-IsCrypto.encode_text (1 ∷ 2 ∷ [])) ((omega arith, λ e. omega (arith, e)), tt)
      (omega arith, tt) (omega arith) (omega arith)

dialogue_ready :
    is_ready (Startup.run_startup refuses toy no_md5 nonces config started dialogue).phase ≡ true
unfolding Startup.run_startup Startup.startup_step
dialogue_ready = rw (handled, verify_lem toy toy-IsCrypto last_stage) refl

ready_needs_signature_example :
    (a b : Startup.Arrival) × (rest : List Startup.Arrival) × (one two v : List ℕ)
    × (f : ClientFinal) × (dialogue ≡ a ∷ b ∷ rest)
    × (a.message ≡ authentication (sasl_continue one))
    × (b.message ≡ authentication (sasl_final two))
    × (handle_server_first toy client one ≡ ok f)
    × (parse_server_final two ≡ ok (verifier v))
    × (read_letters v ≡ some (signature toy f))
ready_needs_signature_example =
    ready_needs_signature refuses toy no_md5 nonces config toy-IsCrypto client [] dialogue
      dialogue_ready
