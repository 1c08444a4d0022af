-- ===== src/Auth/Messages.antt =====
-- The messages of a server, as the client reads them.
use babar.Prelude.{
  ℕ, ◌<◌, ◌≡◌, ◌≢◌, refl, List, [], ◌∷◌, ◌++◌, some, true, ok, All, arith, lt→ltb, ne→==, ==_refl,
}
use babar.Rust.{
  IsUtf8, is_utf8, utf8_from, lead, ascii, u64_to_string, u64_to_string-All,
  parse_u64-u64_to_string, is_digit,
}
use babar.Auth.Scram.{
  verifier, split, strip_prefix, attributes_loop, parse_server_first, final_loop,
  parse_server_final,
}
use babar.Auth.Verifier.{IsAttribute}

abbrev pub IsAscii : ℕ → Type 0
IsAscii b = b < 0x80

lead_lem : (b : ℕ) → b < 0x80 → lead b ≡ some (0, 0x80, 0xbf)
lead_lem b h = rw (lt→ltb b 0x80 h) refl

pub ascii_lem : (s : List ℕ) → All IsAscii s → IsUtf8 s
unfolding is_utf8 utf8_from
ascii_lem [] h = refl
ascii_lem (b ∷ s) (h, hs) = rw (is_utf8, utf8_from, lead_lem b h) (ascii_lem s hs)

pub All-append : (P : ℕ → Type 0) (xs ys : List ℕ) → All P xs → All P ys → All P (xs ++ ys)
All-append P [] ys h k = k
All-append P (x ∷ xs) ys (h, hs) k = (h, All-append P xs ys hs k)

pub attribute-IsAscii : (s : List ℕ) → All IsAttribute s → All IsAscii s
attribute-IsAscii [] h = tt
attribute-IsAscii (b ∷ s) ((h, n), hs) = (h, attribute-IsAscii s hs)

digits-IsAttribute : (s : List ℕ) → All (λ c. is_digit c ≡ true) s → All IsAttribute s
digits-IsAttribute [] h = tt
digits-IsAttribute (b ∷ s) (h, hs) =
    ((ground (arith, h), λ e. ground (arith, h, e)), digits-IsAttribute s hs)

split_last : (s : List ℕ) → All IsAttribute s → split b',' s ≡ s ∷ []
split_last [] h = refl
split_last (b ∷ s) ((l, n), hs) = rw (ne→== b b',' n, split_last s hs) refl

split_next :
    (s rest : List ℕ) → All IsAttribute s → split b',' (s ++ b',' ∷ rest) ≡ s ∷ split b',' rest
split_next [] rest h = refl
split_next (b ∷ s) rest ((l, n), hs) = rw (ne→== b b',' n, split_next s rest hs) refl

pub strip_prefix_lem : (prefix s : List ℕ) → strip_prefix prefix (prefix ++ s) ≡ some s
strip_prefix_lem [] s = refl
strip_prefix_lem (c ∷ prefix) s = rw (==_refl c) (strip_prefix_lem prefix s)

-- The messages of the server.
abbrev pub server_first : (nonce salt64 : List ℕ) → (iters : ℕ) → List ℕ
server_first nonce salt64 iters =
    (ascii "r=" ++ nonce)
    ++ b',' ∷ ((ascii "s=" ++ salt64) ++ b',' ∷ (ascii "i=" ++ u64_to_string iters))

abbrev pub server_final : (signature64 : List ℕ) → List ℕ
server_final signature64 = ascii "v=" ++ signature64

pub key-IsAttribute :
    (b : ℕ)
    → b < 0x80
    → b ≢ b','
    → (s : List ℕ) → All IsAttribute s
    → All IsAttribute (b ∷ b'=' ∷ s)
key-IsAttribute b l n s h = ((l, n), ((omega arith, λ e. omega (arith, e)), h))

pub parse_server_first_lem :
    (nonce salt64 : List ℕ) (iters : ℕ)
    → All IsAttribute nonce
    → All IsAttribute salt64
    → iters < 0x1_0000_0000
    → parse_server_first (server_first nonce salt64 iters)
      ≡ ok (record { nonce = nonce; salt = salt64; iters = iters })
unfolding parse_server_first attributes_loop
parse_server_first_lem nonce salt64 iters h k l =
    let d = digits-IsAttribute (u64_to_string iters) (u64_to_string-All iters) in
    let r =
      split_next (ascii "r=" ++ nonce)
        ((ascii "s=" ++ salt64) ++ b',' ∷ (ascii "i=" ++ u64_to_string iters))
        (key-IsAttribute b'r' (omega arith) (λ e. omega (arith, e)) nonce h) in
    let s =
      split_next (ascii "s=" ++ salt64) (ascii "i=" ++ u64_to_string iters)
        (key-IsAttribute b's' (omega arith) (λ e. omega (arith, e)) salt64 k) in
    let i =
      split_last (ascii "i=" ++ u64_to_string iters)
        (key-IsAttribute b'i' (omega arith) (λ e. omega (arith, e)) (u64_to_string iters) d) in
    rw (r, s, i, parse_u64-u64_to_string iters (omega (arith, l)), lt→ltb iters 0x1_0000_0000 l)
      refl

pub parse_server_final_lem :
    (signature64 : List ℕ)
    → All IsAttribute signature64
    → parse_server_final (server_final signature64) ≡ ok (verifier signature64)
unfolding parse_server_final final_loop
parse_server_final_lem signature64 h =
    rw
      (split_last (ascii "v=" ++ signature64)
        (key-IsAttribute b'v' (omega arith) (λ e. omega (arith, e)) signature64 h))
      refl

comma-IsAscii : (s : List ℕ) → All IsAscii s → All IsAscii (b',' ∷ s)
comma-IsAscii s h = (omega arith, h)

pub server_first-IsAscii :
    (nonce salt64 : List ℕ) (iters : ℕ)
    → All IsAttribute nonce
    → All IsAttribute salt64
    → All IsAscii (server_first nonce salt64 iters)
server_first-IsAscii nonce salt64 iters h k =
    let d = digits-IsAttribute (u64_to_string iters) (u64_to_string-All iters) in
    let last =
      attribute-IsAscii (ascii "i=" ++ u64_to_string iters)
        (key-IsAttribute b'i' (omega arith) (λ e. omega (arith, e)) (u64_to_string iters) d) in
    let middle =
      attribute-IsAscii (ascii "s=" ++ salt64)
        (key-IsAttribute b's' (omega arith) (λ e. omega (arith, e)) salt64 k) in
    let front =
      attribute-IsAscii (ascii "r=" ++ nonce)
        (key-IsAttribute b'r' (omega arith) (λ e. omega (arith, e)) nonce h) in
    let third = ascii "i=" ++ u64_to_string iters in
    let second = (ascii "s=" ++ salt64) ++ b',' ∷ third in
    All-append IsAscii (ascii "r=" ++ nonce) (b',' ∷ second) front (
      comma-IsAscii second (
        All-append IsAscii (ascii "s=" ++ salt64) (b',' ∷ third) middle (comma-IsAscii third last)))
