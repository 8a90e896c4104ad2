-- ===== src/Client/Registry/Cancel.antt =====
-- What a cancellation of the group, and the bound on its sources, come to.
use clip_ferry.Common.{
  ℕ, zero, suc, ◌+◌, ◌-◌, ◌<◌, ◌≤◌, ◌≡◌, ◌∙◌, inl, inr, refl, ap, Bool, true, false, List, [], ◌∷◌,
  ◌++◌, length, ltb, ◌==◌, arith, Bool-cases, Option-cases, length-append,
}
use clip_ferry.Common.Result.{ok, err}
use clip_ferry.Wire.Code.{RemoteTransferState, cancel}
use clip_ferry.Wire.Message.{TransferCredentials}
use clip_ferry.Clipboard.Source.{HresultError}
use clip_ferry.Server.Begin.{max_begin_nonces}
use clip_ferry.Client.Group.{Group, SecureRemoteSource, failed}
use clip_ferry.Client.Source.{
  has_started, cancel_local_first, wait_for_group, read_started, read_at,
}
use clip_ferry.Client.Registry.{
  remember_source, TransferGroupStatus, started_sources, Signals, cancelled_so, cancel_each,
  cancel_all, cancelled_group,
}

-- The registry never remembers more than 4096 sources; the new one comes last, behind those that were
-- there, of which the oldest are given up, no more of them than there are too many.
pub remember_source_bounded :
    (r : SecureRemoteSource) (rs : List SecureRemoteSource)
    → length rs ≤ max_begin_nonces
    → (length (remember_source r rs) ≤ max_begin_nonces)
      × ((dropped kept : List SecureRemoteSource) × (rs ≡ dropped ++ kept)
          × (remember_source r rs ≡ kept ++ (r ∷ []))
          × (length dropped ≡ length rs + 1 - max_begin_nonces))
unfolding remember_source
remember_source_bounded r [] h = (omega arith, ([], [], refl, refl, omega arith))
remember_source_bounded r (x ∷ rs) h =
    let counted = length-append (x ∷ rs) (r ∷ []) in
    elim (Bool-cases (ltb max_begin_nonces (length ((x ∷ rs) ++ (r ∷ []))))) [
      | inr room ↦
          rw room (ground (arith, counted), ([], x ∷ rs, refl, refl, ground (arith, counted)))
      | inl full ↦
          let excess : length ((x ∷ rs) ++ (r ∷ [])) - max_begin_nonces ≡ 1 =
            ground (arith, counted) in
          rw (full, excess)
            (omega (arith, counted, h), (x ∷ [], rs, refl, refl, ground (arith, counted)))
    ]

module _ {W : Type 0} (g : Group W) (signals : Signals W) where
  -- The cancellation signal is kept, once it is set, by what `cancel_all` does.
  pub record KeepsCancelled : Type 0 where
    pub is_set : (w : W) → g.group_cancelled (signals.set_cancelled true w) ≡ true
    pub kept_by_pause :
        (b : Bool) (w : W)
        → g.group_cancelled w ≡ true
        → g.group_cancelled (signals.set_paused b w) ≡ true
    pub kept_by_calls :
        (c : TransferCredentials) (n : ℕ) (w : W)
        → g.group_cancelled w ≡ true
        → g.group_cancelled (g.control_once c n cancel w).0 ≡ true

  cancel_local_first-keeps :
      (k : KeepsCancelled) (r : SecureRemoteSource) (w : W)
      → g.group_cancelled w ≡ true
      → g.group_cancelled (cancel_local_first g r w).1 ≡ true
  unfolding cancel_local_first
  cancel_local_first-keeps k r w h = elim (Option-cases r.transfer) [
    | inl not_begun ↦ rw not_begun h
    | inr (c, begun) ↦ rw begun (k.kept_by_calls c r.next_control_sequence w h)
  ]

  cancel_each-keeps :
      (k : KeepsCancelled) (done : Bool × ℕ) (rs : List SecureRemoteSource) (w : W)
      → g.group_cancelled w ≡ true
      → g.group_cancelled (cancel_each g signals done rs w).1 ≡ true
  unfolding cancel_each
  cancel_each-keeps k done [] w h = h
  cancel_each-keeps k done (r ∷ rs) w h = elim (Bool-cases (has_started r)) [
    | inl begun ↦
        rw (begun, cancel_each)
          (cancel_each-keeps k (cancelled_so (cancel_local_first g r w) done) rs
            (cancel_local_first g r w).1 (cancel_local_first-keeps k r w h))
    | inr not_begun ↦ rw (not_begun, cancel_each) (cancel_each-keeps k done rs w h)
  ]

  wait_cancelled :
      (rounds : ℕ) (r : SecureRemoteSource) (w : W)
      → g.group_cancelled w ≡ true
      → wait_for_group g rounds r w ≡ (r, w, err (failed HresultError.error_cancelled))
  unfolding wait_for_group
  wait_cancelled zero r w h = rw h refl
  wait_cancelled (suc rounds) r w h = rw h refl

  read_at_cancelled :
      (rounds offset buffer : ℕ) (r : SecureRemoteSource) (w : W)
      → 0 < buffer
      → g.group_cancelled w ≡ true
      → read_at g rounds offset buffer r w ≡ (r, w, err (failed HresultError.error_cancelled))
  unfolding read_at read_started
  read_at_cancelled rounds offset buffer r w some_room h =
      let some_buffer : (buffer == 0) ≡ false = ground arith in
      rw (some_buffer, wait_cancelled rounds r w h) refl

  -- `cancel_all` succeeds as soon as one transfer of the group has started, whatever becomes of the
  -- requests that it sends, and reports the group as cancelled; from then on every read of every source
  -- of the group, on a buffer that is not empty, fails with the cancellation error and changes nothing,
  -- if nothing but the registry moves the signal.
  pub cancel_all_stops :
      (sources started : List SecureRemoteSource) (w : W)
      → KeepsCancelled
      → started_sources sources ≡ ok started
      → ((status : TransferGroupStatus) × ((cancel_all g signals sources w).2 ≡ ok status)
          × (status.state ≡ RemoteTransferState.cancelled))
        × ((rounds offset buffer : ℕ) (r : SecureRemoteSource)
            → 0 < buffer
            → read_at g rounds offset buffer r (cancel_all g signals sources w).1
              ≡ (r, (cancel_all g signals sources w).1, err (failed HresultError.error_cancelled)))
  unfolding cancel_all
  cancel_all_stops sources started w k some_started =
      let w₁ = signals.set_paused false (signals.set_cancelled true w) in
      let held = cancel_each-keeps k (true, 0) sources w₁ (k.kept_by_pause false _ (k.is_set w)) in
      let end = cancel_each g signals (true, 0) sources w₁ in
      let same : cancel_all g signals sources w ≡ cancelled_group (length started) end =
        rw (some_started, cancel_all) refl in
      let over : g.group_cancelled (cancel_all g signals sources w).1 ≡ true =
        (ap (λ x. g.group_cancelled x.1) same ∙ held) in
      (
        (_, ap (λ x. x.2) same, refl),
        λ rounds offset buffer r some_room.
            read_at_cancelled rounds offset buffer r (cancel_all g signals sources w).1 some_room
              over,
      )
