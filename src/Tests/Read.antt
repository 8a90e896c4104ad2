-- ===== src/Tests/Read.antt =====
-- ReadRange of src/clipboard/secure_transfer.rs at concrete inputs.
use clip_ferry.Common.{ℕ, ◌≢◌, refl, true, List, [], ◌∷◌, ◌++◌, bytes}
use clip_ferry.Common.Result.{ok}
use clip_ferry.Server.State.{ServerState}
use clip_ferry.Server.Read.{Turn, waiting, read_range}
use clip_ferry.Server.Read.Wait.{read_range_ends}
use clip_ferry.Tests.Server.{peer_1, begun, trusted_at, credentials_of_1}

abbrev pub quiet : Turn
quiet = record { others = λ s. s; moment = trusted_at 30; timed_out = true }

abbrev last_three : List ℕ
last_three = 12 ∷ 13 ∷ 14 ∷ []

abbrev after_read : ServerState
after_read =
    (read_range (trusted_at 20) [] (trusted_at 21) quiet peer_1 (credentials_of_1 0) 2 10 begun).0

read_range_ends_example :
    (read_range
      (trusted_at 20)
      ([] ++ (quiet ∷ []))
      (trusted_at 21)
      quiet
      peer_1
      (credentials_of_1 0)
      2
      10
      begun).1
    ≢ ok waiting
read_range_ends_example =
    read_range_ends (trusted_at 20) [] [] quiet (trusted_at 21) quiet peer_1 (credentials_of_1 0) 2
      10 begun refl
