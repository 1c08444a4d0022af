-- ===== src/Session/Startup/Chunks.antt =====
-- crates/core/src/session/startup.rs: `StartupIo::read_message`. How the bytes are cut into reads makes no
-- difference to the messages.
use babar.Prelude.{
  ℕ, ◌≡◌, ◌≢◌, ◌⊎◌, inl, inr, refl, List, [], ◌∷◌, ◌++◌, append_assoc, append-nil, Option, none,
  some, false, Result, ok, err, All, arith, ap, ◌∙◌, sym, if◌then◌else◌,
}
use babar.Error.{Error, io, closed, no_context}
use babar.Protocol.Backend.{Bytes, BackendMessage}
use babar.Protocol.Frame.{decode}
use babar.Protocol.Framing.{decode-append}
use babar.Error.{is_empty}

-- What `read_buf` gives: bytes, of which none is the end of the stream, or the number of an error.
pub data Read : Type 0 where
  received : Bytes → Read
  read_fails : ℕ → Read

-- The result, the buffer that is left, and the reads to come.
abbrev pub MessageRead : Type 0
MessageRead = Result Error BackendMessage × Bytes × List Read

abbrev receive : Bytes → Read → List Read → Option MessageRead → Option MessageRead
receive rx (read_fails n) reads more = some (err (io n), rx, reads)
receive rx (received bytes) reads more =
    if is_empty bytes then some (err (closed no_context), rx, reads) else more

abbrev settled :
    Result Error (Option BackendMessage) × Bytes
    → List Read
    → Option MessageRead
    → Option MessageRead
settled (ok none, rx) reads more = more
settled (ok (some m), rx) reads more = some (ok m, rx, reads)
settled (err e, rx) reads more = some (err e, rx, reads)

abbrev appended : Bytes → Read → Bytes
appended rx (received bytes) = rx ++ bytes
appended rx (read_fails n) = rx

-- None while the bytes that were read are not enough.
unfoldable pub read_message : Bytes → List Read → Option MessageRead
read_message rx [] = settled (decode rx) [] none
read_message rx (r ∷ reads) =
    let (d, left) = decode rx in
    settled (d, left) (r ∷ reads) (receive left r reads (read_message (appended left r) reads))

-- The bytes of reads that all succeed.
abbrev pub IsReceived : Read → Type 0
IsReceived (received bytes) = is_empty bytes ≡ false
IsReceived (read_fails n) = ⊥

abbrev pub bytes_of : List Read → Bytes
bytes_of [] = []
bytes_of (received bytes ∷ reads) = bytes ++ bytes_of reads
bytes_of (read_fails n ∷ reads) = bytes_of reads

-- A buffer without a whole message is left as it is.
incomplete_lem : (src left : Bytes) → decode src ≡ (ok none, left) → left ≡ src
unfolding decode
incomplete_lem [] left h = ground (arith, h)
incomplete_lem (a ∷ []) left h = ground (arith, h)
incomplete_lem (a ∷ b ∷ []) left h = ground (arith, h)
incomplete_lem (a ∷ b ∷ c ∷ []) left h = ground (arith, h)
incomplete_lem (a ∷ b ∷ c ∷ d ∷ []) left h = ground (arith, h)
incomplete_lem (tag ∷ a ∷ b ∷ c ∷ d ∷ body) left h = ground (arith, h)

-- The result of a message that the buffer holds.
abbrev pub result_of : Result Error BackendMessage → Result Error (Option BackendMessage)
result_of (ok m) = ok (some m)
result_of (err e) = err e

result_of_some : (r : Result Error BackendMessage) → result_of r ≢ ok none
result_of_some (ok m) h = ground (arith, h)
result_of_some (err e) h = ground (arith, h)

result_of_injective : (r s : Result Error BackendMessage) → result_of r ≡ result_of s → r ≡ s
result_of_injective (ok m) (ok n) h = cc
result_of_injective (ok m) (err e) h = cc
result_of_injective (err e) (ok m) h = cc
result_of_injective (err e) (err f) h = cc

settled_lem :
    (r : Result Error BackendMessage) (left : Bytes) (reads : List Read) (more : Option MessageRead)
    → settled (result_of r, left) reads more ≡ some (r, left, reads)
settled_lem (ok m) left reads more = refl
settled_lem (err e) left reads more = refl

-- What the decoder makes of a buffer: nothing yet, or a result.
decode_cases :
    (d : Result Error (Option BackendMessage) × Bytes)
    → ((left : Bytes) × (d ≡ (ok none, left)))
      ⊎ ((r : Result Error BackendMessage) × (left : Bytes) × (d ≡ (result_of r, left)))
decode_cases (ok none, left) = inl (left, refl)
decode_cases (ok (some m), left) = inr (ok m, left, refl)
decode_cases (err e, left) = inr (err e, left, refl)

-- The message that is read, and what is left of the stream, depend on the bytes alone and not on how
-- they were cut into reads: when the bytes received so far, taken together, decode to a message or to an
-- error, then reading them piece by piece gives just that, and leaves the same bytes. Every read is taken
-- to succeed with a byte at least.
pub read_message_lem :
    (rx : Bytes) (reads : List Read) (r : Result Error BackendMessage) (rest : Bytes)
    → All IsReceived reads
    → decode (rx ++ bytes_of reads) ≡ (result_of r, rest)
    → (rx' : Bytes) × (reads' : List Read) × (read_message rx reads ≡ some (r, rx', reads'))
      × (rx' ++ bytes_of reads' ≡ rest)
unfolding read_message
read_message_lem rx [] r rest h e =
    let d : decode rx ≡ (result_of r, rest) = ap decode (sym (append-nil rx)) ∙ e in
    (rest, [], rw (read_message, d) (settled_lem r rest [] none), append-nil rest)
read_message_lem rx (read_fails n ∷ reads) r rest (h, hs) e = absurd h
read_message_lem rx (received bytes ∷ reads) r rest (h, hs) e = elim (decode_cases (decode rx)) [
  | inl (left, d) ↦
      let w : left ≡ rx = incomplete_lem rx left d in
      let e' : decode ((rx ++ bytes) ++ bytes_of reads) ≡ (result_of r, rest) =
        ap decode (append_assoc rx bytes (bytes_of reads)) ∙ e in
      let (rx', reads', q, z) = read_message_lem (rx ++ bytes) reads r rest hs e' in
      (rx', reads', rw (read_message, d, w, h) q, z)
  | inr (s, left, d) ↦
      let a = decode-append rx (bytes ++ bytes_of reads) (result_of s) left d (result_of_some s) in
      let p : Path (Result Error (Option BackendMessage) × Bytes)
          (result_of s, left ++ (bytes ++ bytes_of reads)) (result_of r, rest) =
        sym a ∙ e in
      let q =
        result_of_injective s r
          (ap (λ (x : Result Error (Option BackendMessage) × Bytes). x.0) p) in
      (
        left,
        received bytes ∷ reads,
        rw (read_message, d, settled_lem s left (received bytes ∷ reads))
            (ap (λ x. some (x, left, received bytes ∷ reads)) q),
        ap (λ (x : Result Error (Option BackendMessage) × Bytes). x.1) p,
      )
]
