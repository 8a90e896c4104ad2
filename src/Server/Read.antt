-- ===== src/Server/Read.antt =====
-- `read_range` and `begin_read` of src/clipboard/secure_transfer.rs. The lock is free while the
-- handler waits for a paused transfer and while it reads the source; what other threads do to the
-- server there is an arbitrary function of the state, and comes with the next reading of the clock.
pub mod Invariant
pub mod Safety
pub mod Same
pub mod Wait
use clip_ferry.Common.{
  ℕ, ◌+◌, ◌-◌, ◌*◌, min, max, Bool, true, false, Option, none, some, List, [], ◌∷◌, length, take,
  ltb, leb, if◌then◌else◌, ◌&&◌, not, bytes,
}
use clip_ferry.Common.Map.{lookup, modify}
use clip_ferry.Common.Result.{Result, ok, err}
use clip_ferry.Wire.Code.{
  WireResult, ResponseStatus, RemoteTransferState, running, paused, completed, denied, expired,
  invalid, source_changed,
}
use clip_ferry.Wire.Message.{TransferCredentials, TransferStatus, max_secure_range_bytes}
use clip_ferry.Offer.Manifest.{OfferManifestEntry, manifest_entry}
use clip_ferry.Server.Coverage.{note}
use clip_ferry.Server.State.{
  ServerState, TransferSession, TransferInner, Moment, M, ◌>>=◌, ◌>>◌, and_then, pure, fail,
  require, require_some, get_state, update, count_cancelled, is_active, status_of,
}
use clip_ferry.Server.Peers.{peer_is_allowed, ensure_peer_allowed, authenticated_session}
use clip_ferry.Server.Control.{change_session}

-- What happens while the lock is free, and what the handler sees when it has it again.
pub record Turn : Type 0 where
  pub others : ServerState → ServerState
  pub moment : Moment
  pub timed_out : Bool

unfoldable pub is_paused : RemoteTransferState → Bool
is_paused paused = true
is_paused s = false

unfoldable pub is_cancelled : RemoteTransferState → Bool
is_cancelled RemoteTransferState.cancelled = true
is_cancelled s = false

-- The session object as it stands now: only `inner` ever changes. One that the cleanup has dropped from
-- the map is as it was.
unfoldable pub held : TransferSession → ServerState → TransferSession
held t s = elim (lookup t.transfer_id s.transfers) [
  | some u ↦ record t { inner = u.inner }
  | none ↦ t
]

abbrev pub cancelled_inner : TransferInner → TransferInner
cancelled_inner i = record i { state = RemoteTransferState.cancelled }

-- `metrics.begin_read()` with the counter before it, and the drop of `ActiveRead`.
abbrev pub enter_read : ServerState → ServerState
enter_read s = record s {
  metrics = record (s.metrics) {
    read_requests = s.metrics.read_requests + 1;
    active_reads = s.metrics.active_reads + 1;
    max_concurrent_reads = max s.metrics.max_concurrent_reads (s.metrics.active_reads + 1);
  };
}

abbrev pub leave_read : ServerState → ServerState
leave_read s = record s {
  metrics = record (s.metrics) { active_reads = s.metrics.active_reads - 1 };
}

-- The checks at the top of the loop over a paused session.
unfoldable pub pause_guard : List ℕ → Moment → TransferSession → M (Unit {0})
pause_guard peer m t s =
    if peer_is_allowed s m peer
    then (if leb t.expires_at m.now then (s, err expired) else (s, ok tt))
    else (count_cancelled 1 (change_session t.transfer_id cancelled_inner s), err denied)

pub data Waited : Type 0 where
  resumed : TransferSession → Waited
  still_paused : TransferSession → Waited
  blocked : Waited

-- `while inner.state == Paused`, one turn for each wait; `blocked` where the turns given run out.
unfoldable pub wait_while_paused : List ℕ → Moment → List Turn → TransferSession → M Waited
wait_while_paused peer m [] t =
    if is_paused t.inner.state then (do pause_guard peer m t; pure blocked) else pure (resumed t)
wait_while_paused peer m (turn ∷ turns) t =
    if is_paused t.inner.state
    then (do
      pause_guard peer m t
      update (turn.others)
      s ← get_state
      (if turn.timed_out && is_paused (held t s).inner.state
          then pure (still_paused (held t s))
          else wait_while_paused peer turn.moment turns (held t s)))
    else pure (resumed t)

abbrev pub note_read : ℕ → ℕ → TransferInner → TransferInner
note_read offset len i = record i { coverage = note i.coverage offset len }

abbrev pub count_served : ℕ → ServerState → ServerState
count_served n s = record s {
  metrics = record (s.metrics) { served_bytes = s.metrics.served_bytes + n };
}

-- The checks after the read, on the session as it is by then, and the answer; `reported` is the number
-- of bytes that the source says it has read.
unfoldable pub finish_read :
    Moment → List ℕ → ℕ → ℕ → List ℕ → TransferSession → M (TransferStatus × List ℕ)
finish_read m peer offset reported data_read t s =
    if peer_is_allowed s m peer
    then (if leb t.expires_at m.now
        then (s, err expired)
        else (if is_cancelled t.inner.state then (s, err ResponseStatus.cancelled) else (
          count_served reported (change_session t.transfer_id (note_read offset reported) s),
          ok (status_of (note_read offset reported t.inner), data_read),
        )))
    else (if is_active t.inner.state
        then (count_cancelled 1 (change_session t.transfer_id cancelled_inner s), err denied)
        else (s, err denied))

-- The body between the loop and the second lock. What a source gives beyond the buffer is cut off.
unfoldable pub serve_range :
    Moment → Turn → List ℕ → ℕ → ℕ → TransferSession → M (TransferStatus × List ℕ)
serve_range m finish peer offset requested t = do
  require (not (leb t.expires_at m.now)) expired
  require (not (is_cancelled t.inner.state)) ResponseStatus.cancelled
  ensure_peer_allowed m peer
  s ← get_state
  source ← require_some (lookup t.file_id s.offered.sources) denied
  entry ← require_some (manifest_entry t.file_id s.offered.manifest.entries) denied
  let count = min (entry.descriptor.size - offset) requested
  data_read ← require_some (source offset count) source_changed
  update (finish.others)
  s' ← get_state
  finish_read finish.moment peer offset (length data_read) (take count data_read) (held t s')

-- The answer to a request; `waiting` where it has not come within the turns given.
pub data ReadAnswer : Type 0 where
  answered : TransferStatus → List ℕ → ReadAnswer
  waiting : ReadAnswer

unfoldable pub after_wait : Moment → Turn → List ℕ → ℕ → ℕ → Waited → M ReadAnswer
after_wait m finish peer offset requested (resumed t) = do
  (status, data_read) ← serve_range m finish peer offset requested t
  pure (answered status data_read)
after_wait m finish peer offset requested (still_paused t) = pure (answered (status_of t.inner) [])
after_wait m finish peer offset requested blocked = pure waiting

-- With the active-read guard taken.
unfoldable pub read_session :
    Moment → List Turn → Moment → Turn → List ℕ → ℕ → ℕ → TransferSession → M ReadAnswer
read_session m turns serve finish peer offset requested t = do
  waited ← wait_while_paused peer m turns t
  after_wait serve finish peer offset requested waited

-- The guard is dropped on every way out.
unfoldable pub guarded_read :
    Moment → List Turn → Moment → Turn → List ℕ → ℕ → ℕ → TransferSession → M ReadAnswer
guarded_read m turns serve finish peer offset requested t s =
    let (s', r) = read_session m turns serve finish peer offset requested t (enter_read s) in
    (leave_read s', r)

unfoldable pub read_range :
    Moment → List Turn → Moment → Turn → List ℕ → TransferCredentials → ℕ → ℕ → M ReadAnswer
read_range m turns serve finish peer c offset requested = do
  require (leb requested max_secure_range_bytes) invalid
  t ← authenticated_session m peer c
  guarded_read m turns serve finish peer offset requested t
