-- ===== src/Error/Tests.antt =====
-- The theorem on the fields of a server's error at two responses.
use babar.Prelude.{ℕ, ◌≡◌, List, [], ◌∷◌, none}
use babar.Rust.{ascii}
use babar.Error.Defs.{server, no_context, from_server_fields}
use babar.Error.Fields.{from_server_fields_lem}

abbrev fields : List (ℕ × List ℕ)
fields =
    (b'S', [])
    ∷ (b'V', ascii "ERROR")
    ∷ (b'C', ascii "42601")
    ∷ (b'Q', ascii "?")
    ∷ (b'S', ascii "FATAL")
    ∷ (b'C', ascii "42P01")
    ∷ []

from_server_fields_lem_example :
    from_server_fields fields
    ≡ server
        (record {
          code = ascii "42P01";
          severity = ascii "ERROR";
          message = [];
          detail = none;
          hint = none;
          position = none;
        })
        no_context
from_server_fields_lem_example = from_server_fields_lem fields
