-- ===== src/Auth/Md5.antt =====
-- crates/core/src/auth/md5.rs: the answer to a request for an MD5 password. The hash is another crate's.
use babar.Prelude.{ℕ, List, ◌++◌}
use babar.Rust.{ascii}
use babar.Migration.Checksum.{to_hex}

module _ (md5 : List ℕ → List ℕ) where
  abbrev hex_md5_concat : List ℕ → List ℕ → List ℕ
  hex_md5_concat a b = to_hex (md5 (a ++ b))

  unfoldable pub md5_password : (user password salt : List ℕ) → List ℕ
  md5_password user password salt =
      ascii "md5" ++ hex_md5_concat (hex_md5_concat password user) salt
