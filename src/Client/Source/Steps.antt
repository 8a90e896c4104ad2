-- ===== src/Client/Source/Steps.antt =====
-- The steps of a read of a remote source, where they end well.
use clip_ferry.Common.{
  ℕ, zero, suc, ◌+◌, ◌%◌, ◌^◌, ◌≤◌, ◌≡◌, ◌∙◌, inl, inr, ◌⊎◌, refl, ap, sym, subst, true, false,
  List, [], length, leb, ltb, ◌==◌, ◌&&◌, not, arith, Bool-cases,
}
use clip_ferry.Common.Result.{Result, IoError, IoResult, ok, err}
use clip_ferry.Wire.Code.{complete}
use clip_ferry.Wire.Message.{TransferCredentials, TransferStatus}
use clip_ferry.Client.Group.{
  Group, SecureRemoteSource, S, and_then, ReadStop, in_windows, read_error,
}
use clip_ferry.Client.Source.{
  wait_for_group, is_pause, read_range_loop, completed_or_not, send_completion, check_end,
  give_bytes,
}

pub and_then_ok :
    {W E A B : Type 0} (x : SecureRemoteSource × W × Result E A) (f : A → S W E B)
    {r' : SecureRemoteSource} {w' : W} {b : B}
    → and_then x f ≡ (r', w', ok b)
    → (a : A) × (r₁ : SecureRemoteSource) × (w₁ : W) × (x ≡ (r₁, w₁, ok a))
      × (f a r₁ w₁ ≡ (r', w', ok b))
and_then_ok (r₁, w₁, ok a) f e = (a, r₁, w₁, refl, e)
and_then_ok (r₁, w₁, err x) f e = absurd (ground arith)

pub Io-cases :
    {A : Type 0} (x : IoResult A) → ((a : A) × (x ≡ ok a)) ⊎ ((e : IoError) × (x ≡ err e))
Io-cases (ok a) = inl (a, refl)
Io-cases (err e) = inr (e, refl)

read_error_ok : {A : Type 0} (x : IoResult A) (a : A) → read_error x ≡ ok a → x ≡ ok a
read_error_ok (ok b) a e = ground arith
read_error_ok (err x) a e = absurd (ground arith)

module _ {W : Type 0} (g : Group W) where
  -- The bytes are those of a request that the client made, and not those of a pause.
  pub record FromClient (c : TransferCredentials) (offset requested : ℕ) (bytes : List ℕ) (w' : W)
      : Type 0 where
    pub asked_in : W
    pub status : TransferStatus
    pub response : g.read_range c offset requested asked_in ≡ (w', ok (status, bytes))
    pub not_a_pause : is_pause status bytes ≡ false

  pub read_range_loop_ok :
      (rounds : ℕ) (c : TransferCredentials) (offset requested : ℕ) (r r' : SecureRemoteSource)
      (w w' : W) (bytes : List ℕ)
      → read_range_loop g rounds c offset requested r w ≡ (r', w', ok bytes)
      → (r' ≡ r) × FromClient c offset requested bytes w'
  unfolding read_range_loop
  read_range_loop_ok zero c offset requested r r' w w' bytes e = absurd (ground arith)
  read_range_loop_ok (suc rounds) c offset requested r r' w w' bytes e =
      let w₁ = (g.read_range c offset requested w).0 in
      elim (Io-cases (g.read_range c offset requested w).1) [
        | inr (x, e₁) ↦ absurd (ground arith)
        | inl ((st, bs), e₁) ↦ elim (Bool-cases (is_pause st bs)) [
          | inl on_pause ↦
              read_range_loop_ok rounds c offset requested r r' (g.sleep w₁) w' bytes
                (rw (e₁, on_pause) at e)
          | inr given ↦
              let done : ◌≡◌ {A = SecureRemoteSource × W × Result ReadStop (List ℕ)} (r, w₁, ok bs)
                  (r', w', ok bytes) =
                rw (e₁, given) at e in
              let same : bs ≡ bytes = ground arith in
              let there : w₁ ≡ w' = ground arith in
              (
                ground arith,
                record {
                  asked_in = w;
                  status = st;
                  response =
                      ap (λ v. ((g.read_range c offset requested w).0, v)) e₁
                      ∙ (λ i. (there i, ok (st, same i)));
                  not_a_pause = rw (← same) given;
                },
              )
        ]
      ]

  -- `Complete` was sent for the transfer, and answered.
  pub record Completed (c : TransferCredentials) : Type 0 where
    pub number : ℕ
    pub sent_in : W
    pub answered_in : W
    pub outcome : TransferStatus
    pub sent : g.control true c number complete sent_in ≡ (answered_in, ok outcome)

  -- An answer that ends a file has its completion with it: it was marked as sent before, or is sent now.
  abbrev pub EndsWell :
      TransferCredentials → ℕ → List ℕ → SecureRemoteSource → SecureRemoteSource → Type 0
  EndsWell c offset bytes r r' =
      bytes ≡ []
      → (r.size ≤ offset) × (r'.completion_sent ≡ true) × ((r.completion_sent ≡ true) ⊎ Completed c)

  completed_or_not_ok :
      (x : W × IoResult TransferStatus) (r r' : SecureRemoteSource) (w w' : W)
      → completed_or_not g x r w ≡ (r', w', ok tt)
      → (r' ≡ r) × ((st : TransferStatus) × (x ≡ (w', ok st)))
  unfolding completed_or_not
  completed_or_not_ok (w₁, ok st) r r' w w' e =
      (ground arith, (st, ap (λ v. (v, ok st)) (let same : w₁ ≡ w' = ground arith in same)))
  completed_or_not_ok (w₁, err x) r r' w w' e = absurd (ground arith)

  check_end_ok :
      (c : TransferCredentials) (offset : ℕ) (bytes : List ℕ) (r r' : SecureRemoteSource) (w w' : W)
      → check_end g c offset bytes r w ≡ (r', w', ok tt)
      → EndsWell c offset bytes r r'
        × (r'.transfer ≡ r.transfer)
        × (r'.size ≡ r.size)
        × (r'.bytes_read ≡ r.bytes_read)
  unfolding check_end send_completion
  check_end_ok c offset bytes r r' w w' e =
      elim (Bool-cases ((length bytes == 0) && ltb offset r.size)) [
        | inl early ↦ absurd (ground arith)
        | inr fine ↦
            elim (Bool-cases
              ((length bytes == 0) && (leb r.size offset && not r.completion_sent))) [
                | inl last ↦
                    let sent : SecureRemoteSource = record r {
                      completion_sent = true;
                      next_control_sequence = (r.next_control_sequence + 1) % 2 ^ 64;
                    } in
                    let (same, (status, answered)) =
                      completed_or_not_ok (g.control true c r.next_control_sequence complete w) sent
                        r' w w' (rw (fine, last) at e) in
                    let over : r.size ≤ offset = ground arith in
                    (
                      λ empty. (
                        over,
                        ap (λ (x : SecureRemoteSource). x.completion_sent) same,
                        inr (record {
                          number = r.next_control_sequence;
                          sent_in = w;
                          answered_in = w';
                          outcome = status;
                          sent = answered;
                        }),
                      ),
                      ap (λ (x : SecureRemoteSource). x.transfer) same,
                      ap (λ (x : SecureRemoteSource). x.size) same,
                      ap (λ (x : SecureRemoteSource). x.bytes_read) same,
                    )
                | inr more ↦
                    let same : r' ≡ r = ground arith in
                    (
                      λ empty.
                          (let over : r.size ≤ offset = ground (arith, ap length empty) in
                            let was_sent : r.completion_sent ≡ true =
                              ground (arith, ap length empty) in
                            (
                              over,
                              ap (λ (x : SecureRemoteSource). x.completion_sent) same ∙ was_sent,
                              inl was_sent,
                            )),
                      ap (λ (x : SecureRemoteSource). x.transfer) same,
                      ap (λ (x : SecureRemoteSource). x.size) same,
                      ap (λ (x : SecureRemoteSource). x.bytes_read) same,
                    )
              ]
      ]

  -- The world behind some sleeps.
  abbrev pub slept : ℕ → W → W
  slept zero w = w
  slept (suc n) w = slept n (g.sleep w)

  pub wait_for_group_ok :
      (rounds : ℕ) (r r' : SecureRemoteSource) (w w' : W)
      → wait_for_group g rounds r w ≡ (r', w', ok tt)
      → (r' ≡ r)
        × ((n : ℕ) × (n ≤ rounds)
            × (w' ≡ slept n w)
            × (g.group_cancelled w' ≡ false)
            × (g.group_paused w' ≡ false))
  unfolding wait_for_group
  wait_for_group_ok zero r r' w w' e = elim (Bool-cases (g.group_cancelled w)) [
    | inl gone ↦ absurd (ground arith)
    | inr there ↦ elim (Bool-cases (g.group_paused w)) [
      | inl held ↦ absurd (ground arith)
      | inr free ↦
          let same : w ≡ w' = ground arith in
          (
            ground arith,
            (
              0,
              omega arith,
              sym same,
              subst (λ v. g.group_cancelled v ≡ false) same there,
              subst (λ v. g.group_paused v ≡ false) same free,
            ),
          )
    ]
  ]
  wait_for_group_ok (suc rounds) r r' w w' e = elim (Bool-cases (g.group_cancelled w)) [
    | inl gone ↦ absurd (ground arith)
    | inr there ↦ elim (Bool-cases (g.group_paused w)) [
      | inl held ↦
          let (same, (n, few, reached, alive, going)) =
            wait_for_group_ok rounds r r' (g.sleep w) w' (rw (there, held) at e) in
          (same, (suc n, omega (arith, few), reached, alive, going))
      | inr free ↦
          let same : w ≡ w' = ground arith in
          (
            ground arith,
            (
              0,
              omega arith,
              sym same,
              subst (λ v. g.group_cancelled v ≡ false) same there,
              subst (λ v. g.group_paused v ≡ false) same free,
            ),
          )
    ]
  ]

  pub in_windows_ok :
      {A : Type 0} (m : S W IoError A) (r r' : SecureRemoteSource) (w w' : W) (a : A)
      → in_windows m r w ≡ (r', w', ok a)
      → m r w ≡ (r', w', ok a)
  in_windows_ok m r r' w w' a e =
      λ i. ((e i).0, (e i).1, read_error_ok (m r w).2 a (ap (λ x. x.2) e) i)

  pub give_bytes_ok :
      (c : TransferCredentials) (offset : ℕ) (given bytes : List ℕ) (r r' : SecureRemoteSource)
      (w w' : W)
      → give_bytes g c offset given r w ≡ (r', w', ok bytes)
      → (given ≡ bytes)
        × EndsWell c offset given r r'
        × (r'.transfer ≡ r.transfer)
        × (r'.size ≡ r.size)
        × (r'.bytes_read ≡ r.bytes_read + length bytes)
  unfolding give_bytes
  give_bytes_ok c offset given bytes r r' w w' e =
      let (_, r₁, w₁, checked, e₁) = and_then_ok (check_end g c offset given r w) _ e in
      let (well, kept, size, count) = check_end_ok c offset given r r₁ w w₁ checked in
      let same : record r₁ { bytes_read = r₁.bytes_read + length given } ≡ r' = ground arith in
      let same_bytes : given ≡ bytes = ground arith in
      (
        same_bytes,
        subst (EndsWell c offset given r) same well,
        rw (← same) kept,
        rw (← same) size,
        rw (← same, ← same_bytes, count) refl,
      )
