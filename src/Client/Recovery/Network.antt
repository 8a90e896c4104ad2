-- ===== src/Client/Recovery/Network.antt =====
-- A network that loses requests and responses, and a server that other connections use too: what one
-- control command may do to its session there.
use clip_ferry.Common.{
  ℕ, ◌≡◌, ◌<◌, inl, inr, sym, Bool, true, none, some, List, [], ◌∷◌, arith, bytes, bytes_eq,
  bytes_eq_iff, bytes_eq_refl, leb, ◌==◌, ◌&&◌, if◌then◌else◌, Bool-cases,
}
use clip_ferry.Common.Map.{lookup}
use clip_ferry.Common.Result.{ok, err, connection_reset, not_connected}
use clip_ferry.Wire.Code.{Opcode}
use clip_ferry.Wire.Message.{TransferCredentials, TransferStatus}
use clip_ferry.Server.State.{ServerState, TransferSession, Moment, M}
use clip_ferry.Server.Peers.{peer_is_allowed}
use clip_ferry.Server.Control.{is_last_opcode, is_control, control_session}
use clip_ferry.Server.Control.Replay.{Accepted}
use clip_ferry.Server.Answers.{response_payload}
use clip_ferry.Client.Waits.{NetworkError}
use clip_ferry.Client.Recovery.{CommandResult}

-- What the network does to one request: is it delivered, when, and does the response come back? Before it
-- comes, other connections and threads of the server do something.
pub record Delivery : Type 0 where
  pub others : ServerState → ServerState
  pub moment : Moment
  pub delivered : Bool
  pub returned : Bool

abbrev pub connection_lost : NetworkError
connection_lost = record { kind = connection_reset; raw_os_error = none }

-- A request over such a network to a server that makes `serve` of it.
unfoldable pub over_network :
    (Moment → M (List ℕ))
    → ServerState × List Delivery
    → (ServerState × List Delivery) × CommandResult
over_network serve (s, []) = ((s, []), err (record { kind = not_connected; raw_os_error = none }))
over_network serve (s, d ∷ ds) =
    if d.delivered
    then (
      ((serve d.moment (d.others s)).0, ds),
      if d.returned
          then ok (response_payload (serve d.moment (d.others s)).1)
          else err connection_lost,
    )
    else ((d.others s, ds), err connection_lost)

-- The store trusts the peer at that moment, the session is alive, and what others do leaves the session as
-- it is, and the peer that the server is for.
pub record Good (peer : List ℕ) (c : TransferCredentials) (u : TransferSession) (d : Delivery)
    : Type 0 where
  pub trusted : d.moment.load_peer_ok peer ≡ true
  pub alive : d.moment.now < u.expires_at
  pub same_session :
      (t : ServerState)
      → lookup c.transfer_id (d.others t).transfers ≡ lookup c.transfer_id t.transfers
  pub same_peer : (t : ServerState) → (d.others t).authorized_peer ≡ t.authorized_peer

-- The server with its session before the command, or as the command has left it when it was run once:
-- with its number and opcode remembered, in the state of the answer, and otherwise the same session.
pub data RunOnce (c : TransferCredentials) (sequence : ℕ) (o : Opcode) (st : TransferStatus)
    (u : TransferSession) (t : ServerState) : Type 0 where
  not_yet : lookup c.transfer_id t.transfers ≡ some u → RunOnce c sequence o st u t
  done :
      (u' : TransferSession)
      → lookup c.transfer_id t.transfers ≡ some u'
      → Accepted sequence o st u u'
      → RunOnce c sequence o st u t

abbrev pub HasRun :
    TransferCredentials → ℕ → Opcode → TransferStatus → TransferSession → ServerState → Type 0
HasRun c sequence o st u t =
    (u' : TransferSession) × (lookup c.transfer_id t.transfers ≡ some u')
    × Accepted sequence o st u u'

-- What a command answers depends on the session alone.
pub control_session_answer :
    (sequence : ℕ) (o : Opcode) (u : TransferSession) (s t s' : ServerState) (st : TransferStatus)
    → control_session sequence o u s ≡ (s', ok st)
    → (control_session sequence o u t ≡ ((control_session sequence o u t).0, ok st))
      × ((control_session sequence o u t).0.authorized_peer ≡ t.authorized_peer)
unfolding control_session
control_session_answer sequence o u s t s' st e =
    elim (Bool-cases (
      (sequence == u.inner.last_control_sequence)
      && is_last_opcode u.inner.last_control_opcode o)) [
        | inl retry ↦ (ground arith, ground arith)
        | inr other ↦ elim (Bool-cases (leb sequence u.inner.last_control_sequence)) [
          | inl old ↦ absurd (ground arith)
          | inr new ↦ elim (Bool-cases (is_control o)) [
            | inl known ↦ (ground arith, ground arith)
            | inr unknown ↦ absurd (ground arith)
          ]
        ]
      ]

pub allowed_at :
    (peer : List ℕ) (m : Moment) (t : ServerState)
    → t.authorized_peer ≡ peer
    → m.load_peer_ok peer ≡ true
    → peer_is_allowed t m peer ≡ true
unfolding peer_is_allowed
allowed_at peer m t own trusted = rw (own, bytes_eq_refl peer, trusted) (ground arith)

pub allowed_peer :
    (peer : List ℕ) (m : Moment) (s : ServerState)
    → peer_is_allowed s m peer ≡ true
    → s.authorized_peer ≡ peer
unfolding peer_is_allowed
allowed_peer peer m s h =
    let same : bytes_eq peer s.authorized_peer ≡ true = ground arith in
    sym ((bytes_eq_iff peer s.authorized_peer).0 same)
