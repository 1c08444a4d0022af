-- ===== src/Auth/Verifier.antt =====
-- What it takes to be taken for the server.
use babar.Prelude.{
  ℕ, ◌<◌, ◌≡◌, ◌≢◌, refl, List, Option, none, some, ok, >>=-eq-ok, ok_or, length, All, arith, ap,
  ◌∙◌, sym, Bool-cases, some-injective, inl, inr,
}
use babar.Rust.{IsByte, from_utf8, from_utf8_same}
use babar.Error.{Error}
use babar.Auth.Bits.{constant_time_eq, constant_time_eq_lem}
use babar.Auth.Scram.{
  Crypto, ClientFinal, ServerFinal, verifier, server_error, check_final, verify_server_final,
  parse_server_final,
}

-- A character of an attribute's value in Base64.
abbrev pub IsAttribute : ℕ → Type 0
IsAttribute b = (b < 0x80) × (b ≢ b',')

-- The documented behaviour of the crates: digests are of 32 bytes, and Base64 is ASCII without a comma
-- that decodes to the bytes it was made from.
pub record IsCrypto (crypto : Crypto) : Type 0 where
  pub hmac_bytes : (key message : List ℕ) → All IsByte (crypto.hmac_sha256 key message)
  pub hmac_length : (key message : List ℕ) → length (crypto.hmac_sha256 key message) ≡ 32
  pub decode-encode : (x : List ℕ) → All IsByte x → crypto.decode64 (crypto.encode64 x) ≡ some x
  pub decode_bytes : (s x : List ℕ) → crypto.decode64 s ≡ some x → All IsByte x
  pub encode_text : (x : List ℕ) → All IsAttribute (crypto.encode64 x)

ok_or_ok : {A : Type 0} (o : Option A) (e : Error) (a : A) → ok_or o e ≡ ok a → o ≡ some a
ok_or_ok none e a h = cc
ok_or_ok (some b) e a h = cc

from_utf8_lem : (s t : List ℕ) → from_utf8 s ≡ some t → t ≡ s
from_utf8_lem s t h = elim (from_utf8_same s) [
  | inl e ↦ some-injective (sym h ∙ e)
  | inr e ↦ ground (arith, h, e)
]

-- The signature of the server over the messages.
abbrev pub signature : Crypto → ClientFinal → List ℕ
signature crypto c = crypto.hmac_sha256 c.server_key c.auth_message

check_final_lem :
    (crypto : Crypto) (c : ClientFinal) (f : ServerFinal)
    → IsCrypto crypto
    → check_final crypto c f ≡ ok tt
    → (v : List ℕ) × (f ≡ verifier v) × (crypto.decode64 v ≡ some (signature crypto c))
check_final_lem crypto c (server_error e) h g = cc
check_final_lem crypto c (verifier v) h g =
    let (claimed, a, b) = >>=-eq-ok (ok_or (crypto.decode64 v) _) _ g in
    let d = ok_or_ok (crypto.decode64 v) _ claimed a in
    elim (Bool-cases (constant_time_eq claimed (signature crypto c))) [
      | inl e ↦
          let q =
            constant_time_eq_lem claimed (signature crypto c) (h.decode_bytes v claimed d)
              (h.hmac_bytes _ _) e in
          (v, refl, d ∙ ap some q)
      | inr e ↦ ground (arith, b, e)
    ]

-- A client accepts the last message of a server only if it carries, in Base64, the HMAC over the messages
-- of this exchange under the server key that belongs to the password. The crates are taken to compute
-- byte strings.
pub verify_server_final_lem :
    (crypto : Crypto) (c : ClientFinal) (server_final : List ℕ)
    → IsCrypto crypto
    → verify_server_final crypto c server_final ≡ ok tt
    → (v : List ℕ) × (parse_server_final server_final ≡ ok (verifier v))
      × (crypto.decode64 v ≡ some (signature crypto c))
unfolding verify_server_final
verify_server_final_lem crypto c server_final h g =
    let (s, a, b) = >>=-eq-ok (ok_or (from_utf8 server_final) _) _ g in
    let u = from_utf8_lem server_final s (ok_or_ok (from_utf8 server_final) _ s a) in
    let (parsed, p, q) = >>=-eq-ok (parse_server_final s) (check_final crypto c) b in
    let (v, e, d) = check_final_lem crypto c parsed h q in
    (v, ap parse_server_final (sym u) ∙ p ∙ ap ok e, d)
