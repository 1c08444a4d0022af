-- ===== src/Auth/StandIn.antt =====
-- Small stand-ins for the crates, with the behaviour that the theorems ask of them.
use babar.Prelude.{
  ℕ, zero, suc, ◌+◌, ◌-◌, ◌*◌, ◌/◌, ◌%◌, ◌<◌, ◌≡◌, refl, List, [], ◌∷◌, Option, none, some, ◌&&◌,
  All, arith, leb, if◌then◌else◌, ◌∙◌, sym, subst, some-injective, if_true, Bool-cases, inl, inr,
}
use babar.Rust.{IsByte}
use babar.Auth.Scram.{Crypto}
use babar.Auth.Verifier.{IsAttribute, IsCrypto}

abbrev total : List ℕ → ℕ
total [] = 0
total (b ∷ s) = b + 3 * total s

abbrev repeated : ℕ → ℕ → List ℕ
repeated zero b = []
repeated (suc n) b = b ∷ repeated n b

abbrev pub letters : List ℕ → List ℕ
letters [] = []
letters (b ∷ s) = (b'A' + b / 16 % 16) ∷ (b'A' + b % 16) ∷ letters s

abbrev put_letters : ℕ → ℕ → Option (List ℕ) → Option (List ℕ)
put_letters a b none = none
put_letters a b (some s) =
    if leb b'A' a && leb a b'P' && leb b'A' b && leb b b'P'
    then some (((a - b'A') * 16 + (b - b'A')) ∷ s)
    else none

unfoldable pub read_letters : List ℕ → Option (List ℕ)
read_letters [] = some []
read_letters (a ∷ []) = none
read_letters (a ∷ b ∷ s) = put_letters a b (read_letters s)

abbrev pub toy : Crypto
toy = record {
  hmac_sha256 = λ key message. repeated 32 ((total key + 7 * total message) % 256);
  sha256 = λ message. repeated 32 (total message % 256);
  encode64 = letters;
  decode64 = read_letters;
}

read_letters-letters : (s : List ℕ) → All IsByte s → read_letters (letters s) ≡ some s
unfolding read_letters
read_letters-letters [] h = refl
read_letters-letters (b ∷ s) (h, hs) = rw (read_letters-letters s hs) (ground arith)

put_letters_bytes :
    (a b : ℕ) (o : Option (List ℕ)) (x : List ℕ)
    → put_letters a b o ≡ some x
    → ((t : List ℕ) → o ≡ some t → All IsByte t)
    → All IsByte x
put_letters_bytes a b none x h k = ground (arith, h)
put_letters_bytes a b (some s) x h k =
    elim (Bool-cases (leb b'A' a && leb a b'P' && leb b'A' b && leb b b'P')) [
      | inl e ↦
          let q : some (((a - b'A') * 16 + (b - b'A')) ∷ s) ≡ some x = sym (if_true _ _ _ e) ∙ h in
          subst (All IsByte) (some-injective q) (ground (arith, e), k s refl)
      | inr e ↦ ground (arith, h, e)
    ]

read_letters_bytes : (s x : List ℕ) → read_letters s ≡ some x → All IsByte x
unfolding read_letters
read_letters_bytes [] x h = subst (All IsByte) (some-injective h) tt
read_letters_bytes (a ∷ []) x h = ground (arith, h)
read_letters_bytes (a ∷ b ∷ s) x h =
    put_letters_bytes a b (read_letters s) x h (λ t e. read_letters_bytes s t e)

letters-IsAttribute : (s : List ℕ) → All IsAttribute (letters s)
letters-IsAttribute [] = tt
letters-IsAttribute (b ∷ s) = (
  (omega arith, λ e. omega (arith, e)),
  ((omega arith, λ e. omega (arith, e)), letters-IsAttribute s),
)

pub toy-IsCrypto : IsCrypto toy
toy-IsCrypto = record {
  hmac_bytes = λ key message. repeated_bytes 32 _ (omega arith);
  hmac_length = λ key message. refl;
  decode-encode = read_letters-letters;
  decode_bytes = read_letters_bytes;
  encode_text = letters-IsAttribute;
}
  where
    repeated_bytes : (n b : ℕ) → b < 256 → All IsByte (repeated n b)
    repeated_bytes zero b h = tt
    repeated_bytes (suc n) b h = (h, repeated_bytes n b h)
