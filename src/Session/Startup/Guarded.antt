-- ===== src/Session/Startup/Guarded.antt =====
-- What a client that has begun the SASL exchange asks of the server.
use babar.Prelude.{
  ℕ, ◌≡◌, refl, List, [], ◌∷◌, ◌++◌, ◌⊎◌, Option, some, Bool, true, false, Result, ok, err, ap, ◌∙◌,
  sym, subst, Result-cases, Option-cases, inl, inr,
}
use mathlib.Core.Bool.{true≢false, false≢true}
use babar.Error.{Error}
use babar.Protocol.Backend.{BackendMessage, authentication, sasl_continue, sasl_final}
use babar.Auth.Scram.{
  Crypto, ClientFirst, ClientFinal, verifier, handle_server_first, verify_server_final,
  parse_server_final,
}
use babar.Auth.Verifier.{IsCrypto, signature, verify_server_final_lem}
use babar.Session.Startup

-- The session was handed out.
abbrev pub is_ready : Startup.Phase → Bool
is_ready (Startup.ready params key status) = true
is_ready p = false

module _ (refuses : Startup.StartupMessage → Option Error) (crypto : Crypto) (md5 : List ℕ → List ℕ)
    (nonce_bytes : ℕ → List ℕ) (config : Startup.StartupConfig) where
  abbrev go : Startup.Startup → List Startup.Arrival → Startup.Startup
  go = Startup.run_startup refuses crypto md5 nonce_bytes config

  abbrev in_phase : Startup.Phase → List Startup.StartupMessage → Startup.Startup
  in_phase p sent = record { phase = p; sent = sent }

  failed_lem :
      (e : Error) (sent : List Startup.StartupMessage) (arrivals : List Startup.Arrival)
      → is_ready (go (in_phase (Startup.failed e) sent) arrivals).phase ≡ false
  unfolding Startup.run_startup Startup.startup_step
  failed_lem e sent [] = refl
  failed_lem e sent (a ∷ arrivals) = failed_lem e sent arrivals

  on_server_final_cases :
      (s : Startup.Startup) (f : ClientFinal) (m : BackendMessage)
      → ((d : List ℕ) × (m ≡ authentication (sasl_final d)))
        ⊎ ((e : Error) × (Startup.on_server_final refuses crypto md5 nonce_bytes config s f m
              ≡ in_phase (Startup.failed e) s.sent))
  on_server_final_cases s f (authentication (sasl_final d)) = inl (d, refl)
  on_server_final_cases s f m = inr (_, refl)

  on_server_first_cases :
      (s : Startup.Startup) (c : ClientFirst) (m : BackendMessage) (flush : Result Error (Unit {0}))
      → ((d : List ℕ) × (m ≡ authentication (sasl_continue d)))
        ⊎ ((e : Error) × (Startup.on_server_first refuses crypto md5 nonce_bytes config s c m flush
              ≡ in_phase (Startup.failed e) s.sent))
  on_server_first_cases s c (authentication (sasl_continue d)) flush = inl (d, refl)
  on_server_first_cases s c m flush = inr (_, refl)

  -- What the last two messages of an exchange must have been.
  abbrev IsSigned : ClientFinal → List Startup.Arrival → Type 0
  IsSigned f arrivals =
      (b : Startup.Arrival) × (rest : List Startup.Arrival) × (last : List ℕ) × (arrivals
        ≡ b ∷ rest)
      × (b.message ≡ authentication (sasl_final last))
      × (verify_server_final crypto f last ≡ ok tt)

  failed_absurd :
      {A : Type 0} (e : Error) (s : Startup.Startup) (sent : List Startup.StartupMessage)
      (arrivals : List Startup.Arrival)
      → s ≡ in_phase (Startup.failed e) sent
      → is_ready (go s arrivals).phase ≡ true
      → A
  failed_absurd e s sent arrivals q h =
      let z = failed_lem e sent arrivals in
      let w : is_ready (go (in_phase (Startup.failed e) sent) arrivals).phase ≡ true =
        subst (λ t. is_ready (go t arrivals).phase ≡ true) q h in
      absurd (true≢false (sym w ∙ z))

  final-IsSigned :
      (f : ClientFinal) (sent : List Startup.StartupMessage) (arrivals : List Startup.Arrival)
      → is_ready (go (in_phase (Startup.awaits_final f) sent) arrivals).phase ≡ true
      → IsSigned f arrivals
  unfolding Startup.run_startup Startup.startup_step
  final-IsSigned f sent [] h = absurd (false≢true h)
  final-IsSigned f sent (b ∷ rest) h =
      let s = in_phase (Startup.awaits_final f) sent in
      let final = Startup.on_server_final refuses crypto md5 nonce_bytes config s f in
      elim (on_server_final_cases s f b.message) [
        | inl (d, m) ↦ elim (Result-cases (verify_server_final crypto f d)) [
          | inl (u, v) ↦ (b, rest, d, refl, m, v)
          | inr (e, v) ↦
              failed_absurd e (final b.message) sent rest
                (ap final m ∙ ap (Startup.after_verify refuses crypto md5 nonce_bytes config s) v) h
        ]
        | inr (e, q) ↦ failed_absurd e (final b.message) sent rest q h
      ]

  send_cases :
      (s : Startup.Startup) (m : Startup.StartupMessage) (next : Startup.Phase)
      (flush : Result Error (Unit {0}))
      → (Startup.send_message refuses crypto md5 nonce_bytes config s m next flush
          ≡ in_phase next (s.sent ++ (m ∷ [])))
        ⊎ ((e : Error) × (sent : List Startup.StartupMessage) × (Startup.send_message refuses crypto
                md5 nonce_bytes config s m next flush
              ≡ in_phase (Startup.failed e) sent))
  send_cases s m next (ok u) = elim (Option-cases (refuses m)) [
    | inl n ↦ inl (rw (n, Startup.send_message) refl)
    | inr (e, n) ↦ inr (e, s.sent, rw (n, Startup.send_message) refl)
  ]
  send_cases s m next (err x) = elim (Option-cases (refuses m)) [
    | inl n ↦ inr (x, s.sent ++ (m ∷ []), rw (n, Startup.send_message) refl)
    | inr (e, n) ↦ inr (e, s.sent, rw (n, Startup.send_message) refl)
  ]

  -- A session that is handed out behind the start of a SASL exchange had as its next two messages the
  -- server's first message, which extends the client's nonce and is well formed, and a last message that
  -- carries the HMAC over the messages of this exchange under the password's server key. No other message
  -- can stand between or in place of them. The crates are taken to compute byte strings.
  pub ready_needs_signature :
      IsCrypto crypto
      → (c : ClientFirst) (sent : List Startup.StartupMessage) (arrivals : List Startup.Arrival)
      → is_ready (go (in_phase (Startup.awaits_first c) sent) arrivals).phase ≡ true
      → (a b : Startup.Arrival) × (rest : List Startup.Arrival) × (first last v : List ℕ)
        × (f : ClientFinal) × (arrivals ≡ a ∷ b ∷ rest)
        × (a.message ≡ authentication (sasl_continue first))
        × (b.message ≡ authentication (sasl_final last))
        × (handle_server_first crypto c first ≡ ok f)
        × (parse_server_final last ≡ ok (verifier v))
        × (crypto.decode64 v ≡ some (signature crypto f))
  unfolding Startup.run_startup Startup.startup_step
  ready_needs_signature k c sent [] h = absurd (false≢true h)
  ready_needs_signature k c sent (a ∷ arrivals) h =
      let s = in_phase (Startup.awaits_first c) sent in
      let answer = λ (m : BackendMessage).
        Startup.on_server_first refuses crypto md5 nonce_bytes config s c m a.flush in
      let answered = Startup.answer_first refuses crypto md5 nonce_bytes config s a.flush in
      elim (on_server_first_cases s c a.message a.flush) [
        | inl (d, m) ↦ elim (Result-cases (handle_server_first crypto c d)) [
          | inl (f, v) ↦
              elim (send_cases s (Startup.sasl_response f.final_message) (Startup.awaits_final f)
                a.flush) [
                  | inl q ↦
                      let z = ap answer m ∙ ap answered v ∙ q in
                      let h' = subst (λ t. is_ready (go t arrivals).phase ≡ true) z h in
                      let (b, rest, last, split, n, ok_last) =
                        final-IsSigned f (sent ++ (Startup.sasl_response f.final_message ∷ []))
                          arrivals h' in
                      let (w, p, x) = verify_server_final_lem crypto f last k ok_last in
                      (a, b, rest, d, last, w, f, ap (λ r. a ∷ r) split, m, n, v, p, x)
                  | inr (e, sent', q) ↦
                      failed_absurd e (answer a.message) sent' arrivals
                        (ap answer m ∙ ap answered v ∙ q) h
                ]
          | inr (e, v) ↦
              failed_absurd e (answer a.message) sent arrivals (ap answer m ∙ ap answered v) h
        ]
        | inr (e, q) ↦ failed_absurd e (answer a.message) sent arrivals q h
      ]
