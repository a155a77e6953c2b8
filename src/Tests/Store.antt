-- ===== src/Tests/Store.antt =====
-- Runs of the repository.
use ai_switch.Base.{ℕ, true, false, ◌≡◌, refl, List, [], ◌∷◌, bytes, str_eq}
use ai_switch.Base.Int.{pos}
use ai_switch.Base.Result.{ok}
use ai_switch.Database.Repository.{
  ApiKeyInfo, ApiKeyResult, Repository, find_api_key, find_with, find_stored, disable_api_key,
  disable_with, take, give_back, run_query, fetch, ask, in_buffer, first_row, read_row,
}
use ai_switch.Database.Repository.History.{
  Operation, find, disable, rotate_by, run_operation, run_operations, run_operations-rotate,
}
use ai_switch.Base.Numbers.{stoll, stoi, signed, skip_spaces, magnitude, digits_from}
use ai_switch.Tests.Toy.{toy_mysql, repo}

abbrev info : ApiKeyInfo
info = record {
  id = pos 1;
  api_key = bytes "sk_1";
  name = bytes "one";
  rate_limit = pos 60;
  enabled = true;
}

abbrev result : ApiKeyResult
result = record { info = info; found = true; db_error = false }

abbrev rotated : List ℕ
rotated = 4 ∷ 3 ∷ []

abbrev after : Repository (List ai_switch.Database.Mysql.Row)
after = record repo { pool = record { idle = rotated } }

find_run : find_api_key toy_mysql (bytes "sk_1") repo ≡ (ok result, after)
unfolding find_api_key find_with find_stored take give_back run_query fetch in_buffer first_row
    read_row stoll stoi signed skip_spaces magnitude digits_from str_eq
find_run = refl

disable_run : disable_api_key toy_mysql (pos 1) after ≡ (ok true, repo)
unfolding disable_api_key disable_with take give_back run_query ask
disable_run = refl

abbrev two_calls : List Operation
two_calls = find (bytes "sk_1") ∷ disable (pos 1) ∷ []

calls_run : run_operations toy_mysql two_calls repo ≡ (ok tt, repo)
unfolding run_operations run_operation
calls_run = rw (find_run, run_operation, run_operations, disable_run) refl

run_operations-rotate_example : repo.pool.idle ≡ rotate_by 2 repo.pool.idle
run_operations-rotate_example = run_operations-rotate toy_mysql two_calls repo repo calls_run
