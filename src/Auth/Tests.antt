-- ===== src/Auth/Tests.antt =====
-- An exchange with small stand-ins for the crates.
use babar.Prelude.{ℕ, ◌≡◌, List, [], ◌∷◌, some, ok}
use babar.Auth.Scram.{ClientFinal, verifier, verify_server_final, parse_server_final}
use babar.Auth.Verifier.{signature, verify_server_final_lem}
use babar.Auth.Messages.{server_final}
use babar.Auth.Exchange.{verify_lem}
use babar.Auth.StandIn.{letters, read_letters, toy, toy-IsCrypto}

abbrev salt : List ℕ
salt = 7 ∷ 200 ∷ []

abbrev last_stage : ClientFinal
last_stage = record { final_message = []; server_key = 1 ∷ []; auth_message = 2 ∷ [] }

accepted :
    verify_server_final toy last_stage (server_final (letters (signature toy last_stage))) ≡ ok tt
accepted = verify_lem toy toy-IsCrypto last_stage

verify_server_final_lem_example :
    (v : List ℕ) × (parse_server_final (server_final (letters (signature toy last_stage)))
      ≡ ok (verifier v))
    × (read_letters v ≡ some (signature toy last_stage))
verify_server_final_lem_example =
    verify_server_final_lem toy last_stage (server_final (letters (signature toy last_stage)))
      toy-IsCrypto accepted
