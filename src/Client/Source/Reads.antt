-- ===== src/Client/Source/Reads.antt =====
-- What a read of a remote source answers.
use clip_ferry.Common.{
  ℕ, ◌+◌, ◌<◌, ◌≤◌, ◌≡◌, ◌∙◌, ◌⊎◌, inl, inr, refl, ap, sym, subst, min, true, false, Option, none,
  some, List, [], length, arith, Bool-cases,
}
use clip_ferry.Common.Result.{ok}
use clip_ferry.Wire.Code.{pause}
use clip_ferry.Wire.Message.{TransferCredentials, TransferStatus, max_secure_range_bytes}
use clip_ferry.Client.Group.{Group, SecureRemoteSource, in_windows}
use clip_ferry.Client.Source.{
  credentials, credentials_or_begin, after_begin, wait_for_group, is_pause, read_range_loop,
  read_transfer, begin_read, read_started, read_at,
}
use clip_ferry.Client.Source.Steps.{
  and_then_ok, Io-cases, FromClient, EndsWell, Completed, slept, read_range_loop_ok,
  wait_for_group_ok, in_windows_ok, give_bytes_ok,
}

module _ {W : Type 0} (g : Group W) where
  after_begin_ok :
      (c c' : TransferCredentials) (seen : W) (r r' : SecureRemoteSource) (w w' : W)
      → after_begin g c seen r w ≡ (r', w', ok c')
      → (c ≡ c')
        × (r'.transfer ≡ r.transfer)
        × (r'.size ≡ r.size)
        × (r'.bytes_read ≡ r.bytes_read)
        × (r'.completion_sent ≡ r.completion_sent)
  unfolding after_begin
  after_begin_ok c c' seen r r' w w' e = elim (Bool-cases (g.group_cancelled seen)) [
    | inl gone ↦ absurd (ground arith)
    | inr there ↦ elim (Bool-cases (g.group_paused seen)) [
      | inl held ↦ elim (Io-cases (g.control false c r.next_control_sequence pause w).1) [
        | inr (x, e₁) ↦ absurd (ground arith)
        | inl (st, e₁) ↦ (ground arith, ground arith, ground arith, ground arith, ground arith)
      ]
      | inr free ↦ (ground arith, ground arith, ground arith, ground arith, ground arith)
    ]
  ]

  credentials_or_begin_ok :
      (t : Option TransferCredentials) (r r' : SecureRemoteSource) (w w' : W)
      (c : TransferCredentials)
      → r.transfer ≡ t
      → credentials_or_begin g t r w ≡ (r', w', ok c)
      → (r'.transfer ≡ some c)
        × (r'.size ≡ r.size)
        × (r'.bytes_read ≡ r.bytes_read)
        × (r'.completion_sent ≡ r.completion_sent)
  unfolding credentials_or_begin
  credentials_or_begin_ok (some d) r r' w w' c h e =
      let same : r ≡ r' = ground arith in
      let same_c : d ≡ c = ground arith in
      (
        rw (← same, h, same_c) refl,
        ap (λ (x : SecureRemoteSource). x.size) (sym same),
        ap (λ (x : SecureRemoteSource). x.bytes_read) (sym same),
        ap (λ (x : SecureRemoteSource). x.completion_sent) (sym same),
      )
  credentials_or_begin_ok none r r' w w' c h e =
      let w₁ = (g.begin_transfer w).0 in
      elim (Io-cases (g.begin_transfer w).1) [
        | inr (x, e₁) ↦ absurd (ground arith)
        | inl (d, e₁) ↦
            let (same, kept, size, count, marked) =
              after_begin_ok d c w₁ (record r { transfer = some d }) r' w₁ w' (rw e₁ at e) in
            (kept ∙ ap some same, size, count, marked)
      ]

  -- The transfer that the source remembers, as it stands behind the call.
  credentials_ok :
      (r r' : SecureRemoteSource) (w w' : W) (c : TransferCredentials)
      → credentials g r w ≡ (r', w', ok c)
      → (r'.transfer ≡ some c)
        × (r'.size ≡ r.size)
        × (r'.bytes_read ≡ r.bytes_read)
        × (r'.completion_sent ≡ r.completion_sent)
  unfolding credentials
  credentials_ok r r' w w' c e = credentials_or_begin_ok r.transfer r r' w w' c refl e

  -- What a read ends with, once the transfer is there.
  record Answered (c : TransferCredentials) (offset requested : ℕ) (r r' : SecureRemoteSource)
      (bytes : List ℕ) : Type 0 where
    answered_in : W
    client : FromClient g c offset requested bytes answered_in
    well : EndsWell g c offset bytes r r'
    kept : r'.transfer ≡ r.transfer
    same_size : r'.size ≡ r.size
    counted : r'.bytes_read ≡ r.bytes_read + length bytes

  read_transfer_ok :
      (rounds offset buffer : ℕ) (c : TransferCredentials) (r r' : SecureRemoteSource) (w w' : W)
      (bytes : List ℕ)
      → read_transfer g rounds offset buffer c r w ≡ (r', w', ok bytes)
      → Answered c offset (min buffer max_secure_range_bytes) r r' bytes
  unfolding read_transfer
  read_transfer_ok rounds offset buffer c r r' w w' bytes e =
      let requested = min buffer max_secure_range_bytes in
      let (given, r₁, w₁, looped, e₁) =
        and_then_ok (read_range_loop g rounds c offset requested r w) _ e in
      let (same, client) = read_range_loop_ok g rounds c offset requested r r₁ w w₁ given looped in
      let (same_bytes, well, kept, size, count) =
        give_bytes_ok g c offset given bytes r₁ r' w₁ w' e₁ in
      record {
        answered_in = w₁;
        client = subst (λ l. FromClient g c offset requested l w₁) same_bytes client;
        well =
            subst (λ l. EndsWell g c offset l r r') same_bytes
              (subst (λ x. EndsWell g c offset given x r') same well);
        kept = kept ∙ ap (λ (x : SecureRemoteSource). x.transfer) same;
        same_size = size ∙ ap (λ (x : SecureRemoteSource). x.size) same;
        counted = count ∙ ap (λ (x : SecureRemoteSource). x.bytes_read + length bytes) same;
      }

  begin_read_ok :
      (rounds offset buffer : ℕ) (r r' : SecureRemoteSource) (w w' : W) (bytes : List ℕ)
      → begin_read g rounds offset buffer r w ≡ (r', w', ok bytes)
      → (c : TransferCredentials) × (r'.transfer ≡ some c)
        × (r₁ : SecureRemoteSource) × (r₁.size ≡ r.size)
        × (r₁.bytes_read ≡ r.bytes_read)
        × (r₁.completion_sent ≡ r.completion_sent)
        × Answered c offset (min buffer max_secure_range_bytes) r₁ r' bytes
  unfolding begin_read
  begin_read_ok rounds offset buffer r r' w w' bytes e =
      let counted : SecureRemoteSource = record r { read_calls = r.read_calls + 1 } in
      let (c, r₁, w₁, begun, e₁) = and_then_ok (in_windows (credentials g) counted w) _ e in
      let (remembered, size, count, marked) =
        credentials_ok counted r₁ w w₁ c
          (in_windows_ok g (credentials g) counted r₁ w w₁ c begun) in
      let answer = read_transfer_ok rounds offset buffer c r₁ r' w₁ w' bytes e₁ in
      (c, answer.kept ∙ remembered, r₁, size, count, marked, answer)

  -- A read of a remote source that ends well, on a buffer that is not empty: behind some sleeps, no more
  -- than it was given, it found the group neither cancelled nor paused; the bytes are those that the
  -- client got for the transfer that the source remembers at that offset, for as many as the buffer
  -- holds and the protocol allows, and are not the answer of a pause; they are counted; and an empty
  -- answer comes only at the end of the file or behind it, with the transfer's completion marked as
  -- sent, and if it was not marked so before, a `Complete` for the transfer was answered.
  pub read_at_ok :
      (rounds offset buffer : ℕ) (r r' : SecureRemoteSource) (w w' : W) (bytes : List ℕ)
      → 0 < buffer
      → read_at g rounds offset buffer r w ≡ (r', w', ok bytes)
      → ((n : ℕ) × (n ≤ rounds)
          × (g.group_cancelled (slept g n w) ≡ false)
          × (g.group_paused (slept g n w) ≡ false))
        × ((c : TransferCredentials) × (asked : W) × (answered : W) × (status : TransferStatus)
            × (r'.transfer ≡ some c)
            × (g.read_range c offset (min buffer max_secure_range_bytes) asked
                ≡ (answered, ok (status, bytes)))
            × (is_pause status bytes ≡ false)
            × (bytes ≡ []
                → (r.size ≤ offset)
                  × (r'.completion_sent ≡ true)
                  × ((r.completion_sent ≡ true) ⊎ Completed g c)))
        × (r'.bytes_read ≡ r.bytes_read + length bytes)
  unfolding read_at read_started
  read_at_ok rounds offset buffer r r' w w' bytes some_room e =
      let whole : read_started g rounds offset buffer r w ≡ (r', w', ok bytes) = ground arith in
      let (_, r₁, w₁, waited, e₁) = and_then_ok (wait_for_group g rounds r w) _ whole in
      let (same, (n, few, reached, not_cancelled, not_paused)) =
        wait_for_group_ok g rounds r r₁ w w₁ waited in
      let (c, remembered, r₂, size, count, marked, a) =
        begin_read_ok rounds offset buffer r₁ r' w₁ w' bytes e₁ in
      let same_size : r₂.size ≡ r.size = (size ∙ ap (λ (x : SecureRemoteSource). x.size) same) in
      let same_mark : r₂.completion_sent ≡ r.completion_sent =
        (marked ∙ ap (λ (x : SecureRemoteSource). x.completion_sent) same) in
      (
        (n, few, rw reached at not_cancelled, rw reached at not_paused),
        (
          c,
          a.client.asked_in,
          a.answered_in,
          a.client.status,
          remembered,
          a.client.response,
          a.client.not_a_pause,
          λ empty.
              (let (over, now_marked, told) = a.well empty in
                (
                  rw (← same_size) over,
                  now_marked,
                  elim told [ inl before ↦ inl (sym same_mark ∙ before) | inr done ↦ inr done ],
                )),
        ),
        a.counted
            ∙ ap (λ k. k + length bytes)
                (count ∙ ap (λ (x : SecureRemoteSource). x.bytes_read) same),
      )
