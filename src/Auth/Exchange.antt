-- ===== src/Auth/Exchange.antt =====
-- A whole exchange with a server that has the password's keys.
use babar.Prelude.{ℕ, ◌<◌, ◌≤◌, ◌≡◌, refl, List, ◌++◌, some, ok, All, arith, ne→==}
use babar.Rust.{IsByte, from_utf8, from_utf8-IsUtf8}
use babar.Auth.Bits.{constant_time_eq_refl}
use babar.Auth.Scram.{
  Crypto, ClientFirst, ClientFinal, client_final, handle_server_first, verify_server_final,
}
use babar.Auth.Server.{keys_from, server_auth_message, IsAccepted, server_verifier}
use babar.Auth.Verifier.{IsAttribute, IsCrypto, signature}
use babar.Auth.Messages.{
  ascii_lem, All-append, attribute-IsAscii, key-IsAttribute, server_first, server_final,
  parse_server_first_lem, parse_server_final_lem, server_first-IsAscii, strip_prefix_lem,
}

module _ (crypto : Crypto) (h : IsCrypto crypto) where
  pub handle_lem :
      (c : ClientFirst) (more salt : List ℕ) (iters : ℕ)
      → All IsAttribute c.client_nonce
      → All IsAttribute more
      → All IsByte salt
      → 1 ≤ iters
      → iters < 0x1_0000_0000
      → let nonce = c.client_nonce ++ more in
        let first = server_first nonce (crypto.encode64 salt) iters in
        handle_server_first crypto c first ≡ ok (client_final crypto c first salt nonce iters)
  unfolding handle_server_first
  handle_lem c more salt iters k m b lo hi =
      let nonce = c.client_nonce ++ more in
      let salt64 = crypto.encode64 salt in
      let first = server_first nonce salt64 iters in
      let n = All-append IsAttribute c.client_nonce more k m in
      let utf : from_utf8 first ≡ some first =
        from_utf8-IsUtf8 first
          (ascii_lem first (server_first-IsAscii nonce salt64 iters n (h.encode_text salt))) in
      rw
        (
          utf,
          parse_server_first_lem nonce salt64 iters n (h.encode_text salt) hi,
          strip_prefix_lem c.client_nonce more,
          h.decode-encode salt b,
          ne→== iters 0 (λ e. omega (arith, e, lo)),
        )
        refl

  pub verify_lem :
      (f : ClientFinal)
      → verify_server_final crypto f (server_final (crypto.encode64 (signature crypto f))) ≡ ok tt
  unfolding verify_server_final
  verify_lem f =
      let sig = signature crypto f in
      let text = crypto.encode64 sig in
      let utf : from_utf8 (server_final text) ≡ some (server_final text) =
        from_utf8-IsUtf8 (server_final text) (
          ascii_lem (server_final text) (
            attribute-IsAscii (server_final text) (
              key-IsAttribute b'v' (omega arith) (λ e. omega (arith, e)) text
                (h.encode_text sig)))) in
      rw
        (
          utf,
          parse_server_final_lem text (h.encode_text sig),
          h.decode-encode sig (h.hmac_bytes _ _),
          constant_time_eq_refl sig,
        )
        refl

  -- The server's checks, for what was salted and for the text without the proof.
  abbrev Meets : ClientFinal → (bare first salted without_proof : List ℕ) → Type 0
  Meets f bare first salted without_proof =
      let keys = keys_from crypto salted in
      let signed = server_auth_message crypto bare first without_proof in
      IsAccepted crypto keys signed without_proof f.final_message
      × (verify_server_final crypto f (server_verifier crypto keys signed) ≡ ok tt)
