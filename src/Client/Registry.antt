-- ===== src/Client/Registry.antt =====
-- `RemoteTransferRegistry` of src/clipboard/secure_transfer.rs: the sources of one paste, and the
-- commands to all of them that have started. The two signals of the group are in the world.
pub mod Cancel
use clip_ferry.Common.{
  ℕ, ◌+◌, ◌-◌, ◌^◌, min, Bool, true, false, Option, none, some, List, [], ◌∷◌, ◌++◌, length, drop,
  ltb, ◌==◌, not, ◌&&◌, if◌then◌else◌,
}
use clip_ferry.Common.Result.{Result, IoError, IoResult, ok, err, not_connected}
use clip_ferry.Wire.Code.{RemoteTransferState, running, paused, completed, pause, resume}
use clip_ferry.Wire.Message.{TransferStatus}
use clip_ferry.Server.Begin.{max_begin_nonces}
use clip_ferry.Client.Group.{Group, SecureRemoteSource, S}
use clip_ferry.Client.Source.{has_started, send_control, source_status, cancel_local_first}

-- The sources as they were made; the oldest ones give way.
unfoldable pub remember_source :
    SecureRemoteSource → List SecureRemoteSource → List SecureRemoteSource
remember_source source sources =
    let all = sources ++ (source ∷ []) in
    if ltb max_begin_nonces (length all) then drop (length all - max_begin_nonces) all else all

pub record TransferLocalProgress : Type 0 where
  pub started_transfers : ℕ
  pub completed_transfers : ℕ
  pub read_calls : ℕ
  pub bytes_read : ℕ
  pub paused : Bool
  pub cancelled : Bool

pub record TransferGroupStatus : Type 0 where
  pub state : RemoteTransferState
  pub started_transfers : ℕ
  pub unique_bytes : ℕ
  pub read_calls : ℕ
  pub bytes_read : ℕ
  pub remote_acknowledged : Bool

unfoldable pub count_where : (SecureRemoteSource → Bool) → List SecureRemoteSource → ℕ
count_where p [] = 0
count_where p (r ∷ rs) = (if p r then 1 else 0) + count_where p rs

unfoldable pub sum_of : (SecureRemoteSource → ℕ) → List SecureRemoteSource → ℕ
sum_of f [] = 0
sum_of f (r ∷ rs) = f r + sum_of f rs

unfoldable pub filter_sources :
    (SecureRemoteSource → Bool) → List SecureRemoteSource → List SecureRemoteSource
filter_sources p [] = []
filter_sources p (r ∷ rs) = let rest = filter_sources p rs in if p r then r ∷ rest else rest

-- `iter().rev().find(p)`
unfoldable pub find_newest :
    (SecureRemoteSource → Bool) → List SecureRemoteSource → Option SecureRemoteSource
find_newest p [] = none
find_newest p (r ∷ rs) = elim (find_newest p rs) [
  | some newer ↦ some newer
  | none ↦ if p r then some r else none
]

unfoldable pub latest_started : List SecureRemoteSource → IoResult SecureRemoteSource
latest_started sources = elim (find_newest has_started sources) [
  | some r ↦ ok r
  | none ↦ err not_connected
]

-- The source of the file that is shown as the current one.
unfoldable pub current_source : List SecureRemoteSource → Option SecureRemoteSource
current_source sources = elim (find_newest (λ r. has_started r && not r.completion_sent) sources) [
  | some r ↦ some r
  | none ↦ find_newest has_started sources
]

-- The bytes read and the size of the current file.
unfoldable pub current_file_progress : List SecureRemoteSource → Option (ℕ × ℕ)
current_file_progress sources = elim (current_source sources) [
  | some r ↦ some (min r.bytes_read r.size, r.size)
  | none ↦ none
]

unfoldable pub started_sources : List SecureRemoteSource → IoResult (List SecureRemoteSource)
started_sources sources =
    let started = filter_sources has_started sources in
    if length started == 0 then err not_connected else ok started

-- The `match` on the state so far and that of one more transfer.
unfoldable pub group_state : RemoteTransferState → RemoteTransferState → RemoteTransferState
group_state RemoteTransferState.cancelled y = RemoteTransferState.cancelled
group_state running RemoteTransferState.cancelled = RemoteTransferState.cancelled
group_state running y = running
group_state paused RemoteTransferState.cancelled = RemoteTransferState.cancelled
group_state paused running = running
group_state paused y = paused
group_state completed y = y

abbrev pub saturating_add : ℕ → ℕ → ℕ
saturating_add a b = min (a + b) (2 ^ 64 - 1)

abbrev pub no_transfers : TransferGroupStatus
no_transfers = record {
  state = completed;
  started_transfers = 0;
  unique_bytes = 0;
  read_calls = 0;
  bytes_read = 0;
  remote_acknowledged = true;
}

abbrev pub add_status :
    SecureRemoteSource → TransferStatus → TransferGroupStatus → TransferGroupStatus
add_status r st total = record {
  state = group_state total.state st.state;
  started_transfers = total.started_transfers + 1;
  unique_bytes = saturating_add total.unique_bytes st.unique_bytes;
  read_calls = saturating_add total.read_calls r.read_calls;
  bytes_read = saturating_add total.bytes_read r.bytes_read;
  remote_acknowledged = true;
}

-- What one command leaves of the sources and the world.
abbrev pub Swept : Type 0 → Type 0 → Type 0
Swept W A = List SecureRemoteSource × W × IoResult A

abbrev pub keep_source : {W A : Type 0} → SecureRemoteSource → Swept W A → Swept W A
keep_source r (rs, w, result) = (r ∷ rs, w, result)

-- An error ends the loop; the sources behind it are as they were.
abbrev pub sweep_on :
    {W A B : Type 0}
    → List SecureRemoteSource
    → (SecureRemoteSource → A → W → Swept W B)
    → SecureRemoteSource × W × IoResult A
    → Swept W B
sweep_on rs go (r, w, ok a) = keep_source r (go r a w)
sweep_on rs go (r, w, err e) = (r ∷ rs, w, err e)

-- `for source in &sources { f(source)?; }` over the started ones, with what is summed up meanwhile.
unfoldable pub sweep :
    {W A B : Type 0}
    → S W IoError A
    → (SecureRemoteSource → A → B → B)
    → B
    → List SecureRemoteSource
    → W
    → Swept W B
sweep f add total [] w = ([], w, ok total)
sweep f add total (r ∷ rs) w = elim (has_started r) [
  | true ↦ sweep_on rs (λ r' a w'. sweep f add (add r' a total) rs w') (f r w)
  | false ↦ keep_source r (sweep f add total rs w)
]

-- Setting the signals.
pub record Signals (W : Type 0) : Type 0 where
  pub set_paused : Bool → W → W
  pub set_cancelled : Bool → W → W

abbrev pub then_sweep :
    {W A B : Type 0} → Swept W A → (List SecureRemoteSource → W → Swept W B) → Swept W B
then_sweep (rs, w, ok a) go = go rs w
then_sweep (rs, w, err e) go = (rs, w, err e)

-- Whether a cancellation was acknowledged, and the bytes counted for it.
unfoldable pub cancelled_so :
    {W : Type 0} → SecureRemoteSource × W × IoResult TransferStatus → Bool × ℕ → Bool × ℕ
cancelled_so (r, w, ok st) (acknowledged, bytes) =
    (acknowledged, saturating_add bytes st.unique_bytes)
cancelled_so (r, w, err e) (acknowledged, bytes) = (false, saturating_add bytes r.bytes_read)

abbrev pub keep_cancelled :
    {W : Type 0}
    → SecureRemoteSource
    → List SecureRemoteSource × W × (Bool × ℕ)
    → List SecureRemoteSource × W × (Bool × ℕ)
keep_cancelled r (rs, w, done) = (r ∷ rs, w, done)

abbrev pub cancelled_group :
    {W : Type 0} → ℕ → List SecureRemoteSource × W × (Bool × ℕ) → Swept W TransferGroupStatus
cancelled_group started (rs, w, (acknowledged, bytes)) = (
  rs,
  w,
  ok (record {
    state = RemoteTransferState.cancelled;
    started_transfers = started;
    unique_bytes = bytes;
    read_calls = sum_of (λ r. r.read_calls) (filter_sources has_started rs);
    bytes_read = sum_of (λ r. r.bytes_read) (filter_sources has_started rs);
    remote_acknowledged = acknowledged;
  }),
)

module _ {W : Type 0} (g : Group W) (signals : Signals W) where
  unfoldable pub local_progress : List SecureRemoteSource → W → TransferLocalProgress
  local_progress sources w = record {
    started_transfers = count_where has_started sources;
    completed_transfers = count_where (λ r. r.completion_sent) sources;
    read_calls = sum_of (λ r. r.read_calls) sources;
    bytes_read = sum_of (λ r. r.bytes_read) sources;
    paused = g.group_paused w;
    cancelled = g.group_cancelled w;
  }

  unfoldable pub aggregate : List SecureRemoteSource → W → Swept W TransferGroupStatus
  aggregate sources w = sweep (source_status g) add_status no_transfers sources w

  -- A command to all that have started, and then the status of all.
  unfoldable pub command_all :
      S W IoError TransferStatus
      → (W → W)
      → List SecureRemoteSource
      → W
      → Swept W TransferGroupStatus
  command_all command set sources w = elim (started_sources sources) [
    | ok started ↦ then_sweep (sweep command (λ r st u. u) tt sources (set w)) aggregate
    | err e ↦ (sources, w, err e)
  ]

  unfoldable pub pause_all : List SecureRemoteSource → W → Swept W TransferGroupStatus
  pause_all = command_all (send_control g pause) (signals.set_paused true)

  unfoldable pub resume_all : List SecureRemoteSource → W → Swept W TransferGroupStatus
  resume_all = command_all (send_control g resume) (signals.set_paused false)

  unfoldable pub status_all : List SecureRemoteSource → W → Swept W TransferGroupStatus
  status_all sources w = elim (started_sources sources) [
    | ok started ↦ aggregate sources w
    | err e ↦ (sources, w, err e)
  ]

  -- The loop of `cancel_all`, which no error ends.
  unfoldable pub cancel_each :
      Bool × ℕ → List SecureRemoteSource → W → List SecureRemoteSource × W × (Bool × ℕ)
  cancel_each done [] w = ([], w, done)
  cancel_each done (r ∷ rs) w = elim (has_started r) [
    | true ↦
        let step = cancel_local_first g r w in
        keep_cancelled step.0 (cancel_each (cancelled_so step done) rs step.1)
    | false ↦ keep_cancelled r (cancel_each done rs w)
  ]

  unfoldable pub cancel_all : List SecureRemoteSource → W → Swept W TransferGroupStatus
  cancel_all sources w = elim (started_sources sources) [
    | ok started ↦
        cancelled_group (length started)
          (cancel_each (true, 0) sources (signals.set_paused false (signals.set_cancelled true w)))
    | err e ↦ (sources, w, err e)
  ]
