-- ===== src/Clipboard/Transfer/Laws.antt =====
-- Cancelled is final, waiting threads learn of it, and a running source serves its bytes.
use clip_ferry.Common.{
  ℕ, ◌+◌, ◌-◌, ◌≤◌, ◌<◌, ◌≡◌, ◌∙◌, ◌≢◌, true, false, ◌++◌, inl, inr, refl, ap, suc, zero, min, none,
  some, List, [], ◌∷◌, length, take, drop, leb, ◌==◌, ◌||◌, arith, Bool-cases,
}
use clip_ferry.Common.Result.{ok, err}
use clip_ferry.Clipboard.Source.{ReadAtSource, Serves, error_cancelled}
use clip_ferry.Clipboard.Transfer.{
  TransferControlState, running, paused, cancelled, TransferControl, default_control, pause_state,
  resume_state, cancel_state, transition, Wakeup, wait_for_chunk, note_chunk, GeneratedSource,
  generated_byte, generated_bytes, give_chunk, generated_read_at,
}

length-generated_bytes : (offset n : ℕ) → length (generated_bytes offset n) ≡ n
unfolding generated_bytes
length-generated_bytes offset zero = refl
length-generated_bytes offset (suc n) = ap suc (length-generated_bytes (suc offset) n)

-- A piece of the generated file is what the file has there.
generated_bytes-take :
    (start offset n m : ℕ)
    → offset + n ≤ m
    → generated_bytes (start + offset) n ≡ take n (drop offset (generated_bytes start m))
unfolding generated_bytes
generated_bytes-take start offset zero m h = refl
generated_bytes-take start zero (suc n) zero h = absurd (omega (arith, h))
generated_bytes-take start zero (suc n) (suc m) h =
    let here_now : start + 0 ≡ start = omega arith in
    let tail : generated_bytes (suc start + 0) n ≡ take n (generated_bytes (suc start) m) =
      generated_bytes-take (suc start) 0 n m (omega (arith, h)) in
    let shift : suc start + 0 ≡ suc start = omega arith in
    rw here_now (ap (λ (ys : List ℕ). generated_byte start ∷ ys) (rw shift at tail))
generated_bytes-take start (suc offset) (suc n) zero h = absurd (omega (arith, h))
generated_bytes-take start (suc offset) (suc n) (suc m) h =
    let shift : start + suc offset ≡ suc start + offset = omega arith in
    ap (λ (k : ℕ). generated_bytes k (suc n)) shift
    ∙ generated_bytes-take (suc start) offset (suc n) m (omega (arith, h))

-- The source's answer while its control is running and there is no delay.
abbrev pub running_source : GeneratedSource → ReadAtSource
running_source g offset buffer =
    elim (generated_read_at g [] (λ c. c) offset buffer default_control).1 [
      | some r ↦ r
      | none ↦ err error_cancelled
    ]

-- A generated source without delay, while it runs, serves its generated content, whatever the size
-- of its chunks is, if that is not 0.
pub running_source-Serves :
    (g : GeneratedSource)
    → 0 < g.max_chunk
    → g.delay ≡ 0
    → Serves (generated_bytes 0 g.length) (running_source g)
unfolding generated_read_at give_chunk wait_for_chunk
running_source-Serves g some_chunk no_delay offset buffer =
    elim (Bool-cases (leb g.length offset || (buffer == 0))) [
      | inl nothing ↦ record {
        piece = [];
        given = rw (nothing, running_source) refl;
        fits = omega arith;
        in_content = refl;
        progress = λ _ room. rw (length-generated_bytes 0 g.length) (ground (arith, room));
      }
      | inr something ↦
          let copied = min (min (g.length - offset) buffer) g.max_chunk in
          let zero_offset : offset ≡ 0 + offset = omega arith in
          let size : length (generated_bytes offset copied) ≡ copied =
            length-generated_bytes offset copied in
          record {
            piece = generated_bytes offset copied;
            given = rw (something, no_delay, running_source) refl;
            fits = rw size (omega arith);
            in_content = rw size (
                ap (λ k. generated_bytes k copied) zero_offset
                ∙ generated_bytes-take 0 offset copied g.length (ground arith));
            progress = λ empty room. absurd (ground (arith, size));
          }
    ]

-- The state that a thread has seen last, behind some wake-ups, and that none of those before a further
-- one was the cancelled one.
abbrev pub last_seen : TransferControlState → List Wakeup → TransferControlState
last_seen s [] = s
last_seen s (w ∷ ws) = last_seen w.state ws

abbrev pub NotCancelled : TransferControlState → List Wakeup → Type 0
NotCancelled s [] = s ≢ cancelled
NotCancelled s (w ∷ ws) = (s ≢ cancelled) × NotCancelled w.state ws

-- A chunk may be given: behind some of the wake-ups the thread has come to a running state without ever
-- having seen a cancelled one, and there is no delay, or the wait for it times out there.
pub data ChunkDue (delay : ℕ) (s : TransferControlState) (wakeups : List Wakeup) : Type 0 where
  no_delay :
      (before after : List Wakeup)
      → wakeups ≡ before ++ after
      → NotCancelled s before
      → last_seen s before ≡ running
      → delay ≡ 0
      → ChunkDue delay s wakeups
  delay_over :
      (before after : List Wakeup) (w : Wakeup)
      → wakeups ≡ before ++ (w ∷ after)
      → NotCancelled s before
      → last_seen s before ≡ running
      → w.timed_out ≡ true
      → ChunkDue delay s wakeups

-- It has come to a cancelled state.
pub record CancelSeen (s : TransferControlState) (wakeups : List Wakeup) : Type 0 where
  pub before : List Wakeup
  pub after : List Wakeup
  pub parts : wakeups ≡ before ++ after
  pub last : last_seen s before ≡ cancelled

due_later :
    (delay : ℕ) (s : TransferControlState) (w : Wakeup) (ws : List Wakeup)
    → s ≢ cancelled
    → ChunkDue delay w.state ws
    → ChunkDue delay s (w ∷ ws)
due_later delay s w ws live (no_delay before after parts clean last none_due) =
    no_delay (w ∷ before) after (ap (λ xs. w ∷ xs) parts) (live, clean) last none_due
due_later delay s w ws live (delay_over before after v parts clean last late) =
    delay_over (w ∷ before) after v (ap (λ xs. w ∷ xs) parts) (live, clean) last late

seen_later :
    (s : TransferControlState) (w : Wakeup) (ws : List Wakeup)
    → CancelSeen w.state ws
    → CancelSeen s (w ∷ ws)
seen_later s w ws c = record {
  before = w ∷ c.before;
  after = c.after;
  parts = ap (λ xs. w ∷ xs) c.parts;
  last = c.last;
}

seen_now : (ws : List Wakeup) → CancelSeen cancelled ws
seen_now ws = record { before = []; after = ws; parts = refl; last = refl }

-- A wait ends well only once a chunk is due: it has come to a running state without ever seeing the
-- transfer cancelled, and the delay is 0 or has passed there. It ends with the cancellation error only
-- once it has seen the transfer cancelled.
pub wait_for_chunk_ok :
    (delay : ℕ) (s : TransferControlState) (wakeups : List Wakeup)
    → ((wait_for_chunk delay s wakeups ≡ some (ok tt)) → ChunkDue delay s wakeups)
      × ((wait_for_chunk delay s wakeups ≡ some (err error_cancelled)) → CancelSeen s wakeups)
unfolding wait_for_chunk
wait_for_chunk_ok delay cancelled wakeups = (λ e. absurd (ground arith), λ e. seen_now wakeups)
wait_for_chunk_ok delay paused [] = (λ e. absurd (ground arith), λ e. absurd (ground arith))
wait_for_chunk_ok delay paused (w ∷ wakeups) =
    let (a, b) = wait_for_chunk_ok delay w.state wakeups in
    (
      λ e. due_later delay paused w wakeups (λ same. ground arith) (a e),
      λ e. seen_later paused w wakeups (b e),
    )
wait_for_chunk_ok zero running wakeups =
    (λ e. no_delay [] wakeups refl (λ same. ground arith) refl refl, λ e. absurd (ground arith))
wait_for_chunk_ok (suc delay) running [] = (λ e. absurd (ground arith), λ e. absurd (ground arith))
wait_for_chunk_ok (suc delay) running (w ∷ wakeups) =
    let (a, b) = wait_for_chunk_ok (suc delay) w.state wakeups in
    elim (Bool-cases w.timed_out) [
      | inl late ↦ (
        λ e. delay_over [] wakeups w refl (λ same. ground arith) refl late,
        λ e. absurd (ground arith),
      )
      | inr woken ↦ (
        λ e. due_later (suc delay) running w wakeups (λ same. ground arith) (a (rw woken at e)),
        λ e. seen_later running w wakeups (b (rw woken at e)),
      )
    ]

-- What commands, and reads that have got past their wait, make of a control, in any number and order.
pub data Reached : TransferControl → TransferControl → Type 0 where
  start : {c : TransferControl} → Reached c c
  paused_by : {c d : TransferControl} → Reached c d → Reached c (transition pause_state d).0
  resumed_by : {c d : TransferControl} → Reached c d → Reached c (transition resume_state d).0
  cancelled_by : {c d : TransferControl} → Reached c d → Reached c (transition cancel_state d).0
  chunk_by : {c d : TransferControl} (n : ℕ) → Reached c d → Reached c (note_chunk n d)

Reached-cancelled :
    (c d : TransferControl) → c.state ≡ cancelled → Reached c d → d.state ≡ cancelled
unfolding transition pause_state resume_state cancel_state note_chunk
Reached-cancelled c d h start = h
Reached-cancelled c d h (paused_by r) = rw (Reached-cancelled c _ h r) refl
Reached-cancelled c d h (resumed_by r) = rw (Reached-cancelled c _ h r) refl
Reached-cancelled c d h (cancelled_by r) = refl
Reached-cancelled c d h (chunk_by n r) = Reached-cancelled c _ h r

-- Once cancelled, a transfer stays so under every sequence of commands, and of reads that were past
-- their wait by then. From then on every read that begins inside the file, on a buffer that is not
-- empty, fails at once with the cancellation error: no wake-up is waited for, and the read itself
-- counts nothing.
pub cancelled_stops_reads :
    (c d : TransferControl)
    → c.state ≡ cancelled
    → Reached c d
    → (d.state ≡ cancelled)
      × ((g : GeneratedSource) (wakeups : List Wakeup) (others : TransferControl → TransferControl)
            (offset buffer : ℕ)
          → offset < g.length
          → 0 < buffer
          → generated_read_at g wakeups others offset buffer d
            ≡ (others d, some (err error_cancelled)))
unfolding generated_read_at wait_for_chunk
cancelled_stops_reads c d h r =
    let gone = Reached-cancelled c d h r in
    (
      gone,
      λ g wakeups others offset buffer inside some_room.
          (let inner : (leb g.length offset || (buffer == 0)) ≡ false = ground arith in
            let stopped : wait_for_chunk g.delay d.state wakeups ≡ some (err error_cancelled) =
              rw gone refl in
            rw (inner, stopped) refl),
    )
