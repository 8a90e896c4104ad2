-- ===== src/Server/Read/Wait.antt =====
-- The wait for a paused transfer is over with the first turn that times out.
use clip_ferry.Common.{
  ℕ, ◌≡◌, ◌≢◌, ◌∙◌, inl, inr, refl, ap, true, false, List, [], ◌∷◌, ◌++◌, arith, Bool-cases, leb,
  ◌&&◌, not,
}
use clip_ferry.Common.Result.{ok}
use clip_ferry.Wire.Message.{TransferCredentials, max_secure_range_bytes}
use clip_ferry.Server.State.{ServerState, TransferSession, Moment}
use clip_ferry.Server.Peers.{peer_is_allowed, authenticated_session}
use clip_ferry.Server.Peers.Auth.{Result-cases}
use clip_ferry.Server.Read.{
  Turn, is_paused, held, enter_read, pause_guard, Waited, resumed, still_paused, blocked,
  wait_while_paused, serve_range, waiting, after_wait, read_session, guarded_read, read_range,
}

-- A turn that finds the transfer running again ends the loop.
wait_running :
    (peer : List ℕ) (m : Moment) (turns : List Turn) (t : TransferSession) (s : ServerState)
    → is_paused t.inner.state ≡ false
    → (wait_while_paused peer m turns t s).1 ≡ ok (resumed t)
unfolding wait_while_paused
wait_running peer m [] t s h = rw h refl
wait_running peer m (turn ∷ turns) t s h = rw h refl

wait_ends :
    (peer : List ℕ) (m : Moment) (before after : List Turn) (turn : Turn) (t : TransferSession)
    (s : ServerState)
    → turn.timed_out ≡ true
    → (wait_while_paused peer m (before ++ (turn ∷ after)) t s).1 ≢ ok blocked
unfolding wait_while_paused pause_guard
wait_ends peer m [] after turn t s late e = elim (Bool-cases (is_paused t.inner.state)) [
  | inl still ↦ elim (Bool-cases (peer_is_allowed s m peer && not (leb t.expires_at m.now))) [
    | inl fine ↦ elim (Bool-cases (is_paused (held t (turn.others s)).inner.state)) [
      | inl paused_again ↦ ground arith
      | inr running_now ↦
          let ends =
            wait_running peer turn.moment after (held t (turn.others s)) (turn.others s)
              running_now in
          ground (arith, ends)
    ]
    | inr stopped ↦ ground arith
  ]
  | inr running_now ↦ ground arith
]
wait_ends peer m (first ∷ before) after turn t s late e =
    elim (Bool-cases (is_paused t.inner.state)) [
      | inl still ↦ elim (Bool-cases (peer_is_allowed s m peer && not (leb t.expires_at m.now))) [
        | inl fine ↦
            elim (Bool-cases (first.timed_out && is_paused (held t (first.others s)).inner.state)) [
              | inl paused_again ↦ ground arith
              | inr woken ↦
                  wait_ends peer first.moment before after turn (held t (first.others s))
                    (first.others s) late (ground arith)
            ]
        | inr stopped ↦ ground arith
      ]
      | inr running_now ↦ ground arith
    ]

after_wait_answers :
    (serve : Moment) (finish : Turn) (peer : List ℕ) (offset requested : ℕ) (w : Waited)
    (s : ServerState)
    → w ≢ blocked
    → (after_wait serve finish peer offset requested w s).1 ≢ ok waiting
unfolding after_wait
after_wait_answers serve finish peer offset requested (resumed t) s h e =
    elim (Result-cases (serve_range serve finish peer offset requested t s).1) [
      | inl ((st, read), e') ↦ ground arith
      | inr (y, e') ↦ ground arith
    ]
after_wait_answers serve finish peer offset requested (still_paused t) s h e = ground arith
after_wait_answers serve finish peer offset requested blocked s h e = absurd (h refl)

guarded_read_answers :
    (m : Moment) (before after : List Turn) (turn : Turn) (serve : Moment) (finish : Turn)
    (peer : List ℕ) (offset requested : ℕ) (t : TransferSession) (s : ServerState)
    → turn.timed_out ≡ true
    → (guarded_read m (before ++ (turn ∷ after)) serve finish peer offset requested t s).1
      ≢ ok waiting
unfolding guarded_read read_session
guarded_read_answers m before after turn serve finish peer offset requested t s late e =
    let turns = before ++ (turn ∷ after) in
    elim (Result-cases (wait_while_paused peer m turns t (enter_read s)).1) [
      | inl (w, e') ↦
          after_wait_answers serve finish peer offset requested w
            (wait_while_paused peer m turns t (enter_read s)).0
            (λ same. wait_ends peer m before after turn t (enter_read s) late (e' ∙ ap ok same))
            (rw e' at e)
      | inr (y, e') ↦ ground arith
    ]

-- A ReadRange on a paused transfer does not wait for ever: once one of the waits has timed out, the
-- request has an answer or an error, whatever the other threads do.
pub read_range_ends :
    (m : Moment) (before after : List Turn) (turn : Turn) (serve : Moment) (finish : Turn)
    (peer : List ℕ) (c : TransferCredentials) (offset requested : ℕ) (s : ServerState)
    → turn.timed_out ≡ true
    → (read_range m (before ++ (turn ∷ after)) serve finish peer c offset requested s).1
      ≢ ok waiting
unfolding read_range
read_range_ends m before after turn serve finish peer c offset requested s late e =
    elim (Bool-cases (leb requested max_secure_range_bytes)) [
      | inl within ↦ elim (Result-cases (authenticated_session m peer c s).1) [
        | inl (t, e') ↦
            guarded_read_answers m before after turn serve finish peer offset requested t
              (authenticated_session m peer c s).0 late (rw (within, e') at e)
        | inr (y, e') ↦ ground arith
      ]
      | inr beyond ↦ ground arith
    ]
