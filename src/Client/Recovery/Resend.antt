-- ===== src/Client/Recovery/Resend.antt =====
-- Control commands over a network that loses requests and responses: the client's recovery and the
-- server's sequence numbers together (`control_interruptible`, `command_recovering` and
-- `ServerState::control` of src/clipboard/secure_transfer.rs).
use clip_ferry.Common.{
  ℕ, ◌≡◌, ◌∙◌, ◌<◌, ◌^◌, inl, inr, ap, sym, subst, true, some, List, [], ◌∷◌, All, arith, bytes,
  Bool-cases,
}
use mathlib.Core.Option.{some-injective}
use clip_ferry.Common.Map.{lookup, Entries-lookup}
use clip_ferry.Common.Result.{ok}
use clip_ferry.Wire.Code.{Opcode}
use clip_ferry.Wire.Message.{
  TransferCredentials, IsCredentials, TransferStatus, control_request, decode_transfer_status,
}
use clip_ferry.Server.State.{ServerState, TransferSession, Moment}
use clip_ferry.Server.Peers.Auth.{Authenticated, session_ok, authenticated_session_complete}
use clip_ferry.Server.Peers.Invariant.{IsServer, OwnKey}
use clip_ferry.Server.Control.{control_session, control}
use clip_ferry.Server.Control.Replay.{Accepted-in_map, retry_session}
use clip_ferry.Server.Answers.{response_payload, encode_control_response}
use clip_ferry.Server.Answers.EndToEnd.{on_server, control_end_to_end}
use clip_ferry.Client.Waits.{SecureRecoveryPolicy}
use clip_ferry.Client.Recovery.{CommandResult, SecureRecoveryMetrics, Attempt, command_recovering}
use clip_ferry.Client.Recovery.Rule.{command_recovering-Answers}
use clip_ferry.Client.Recovery.Network.{
  Delivery, over_network, Good, RunOnce, not_yet, done, HasRun, control_session_answer, allowed_at,
  allowed_peer,
}

-- A control command that is accepted on the session `u` of the server `s`.
record Accepts (m : Moment) (peer : List ℕ) (c : TransferCredentials) (sequence : ℕ) (o : Opcode)
    (s s' : ServerState) (st : TransferStatus) (u : TransferSession) : Type 0 where
  session : Authenticated m peer (on_server c) s u
  own : u.transfer_id ≡ c.transfer_id
  credentials : IsCredentials c
  small : sequence < 256 ^ 8
  fits : st.unique_bytes < 256 ^ 8
  accepted : control_session sequence o u s ≡ (s', ok st)

module _ (m : Moment) (peer : List ℕ) (c : TransferCredentials) (sequence : ℕ) (o : Opcode)
    (s s' : ServerState) (st : TransferStatus) (u : TransferSession)
    (a : Accepts m peer c sequence o s s' st u) where
  -- One delivery of the command: it has been run then, and the outcome is that of the one run.
  record Ran (d : Moment) (t : ServerState) : Type 0 where
    next : ServerState
    outcome : control d peer (on_server c) sequence o t ≡ (next, ok st)
    has_run : HasRun c sequence o st u next
    same_peer : next.authorized_peer ≡ peer

  control-Ran :
      (d : Delivery) (t : ServerState)
      → Good peer c u d
      → t.authorized_peer ≡ peer
      → RunOnce c sequence o st u t
      → Ran d.moment t
  unfolding control
  control-Ran d t g own_peer (not_yet found) =
      let here = authenticated_session_complete d.moment peer (on_server c) t u (record {
        allowed = allowed_at peer d.moment t own_peer g.trusted;
        found = found;
        alive = g.alive;
        same_peer = a.session.same_peer;
        same_offer = a.session.same_offer;
        same_file = a.session.same_file;
        same_capability = a.session.same_capability;
        same_nonce = a.session.same_nonce;
      }) in
      let (answer, kept) = control_session_answer sequence o u s t s' st a.accepted in
      let (u', there, acc) =
        Accepted-in_map sequence o u t (control_session sequence o u t).0 st
          (ap (λ k. lookup k t.transfers) a.own ∙ found) answer in
      record {
        next = (control_session sequence o u t).0;
        outcome = rw here answer;
        has_run = (
          u',
          ap (λ k. lookup k (control_session sequence o u t).0.transfers) (sym a.own) ∙ there,
          acc,
        );
        same_peer = kept ∙ own_peer;
      }
  control-Ran d t g own_peer (done u' found acc) =
      let l = acc.later in
      let here = authenticated_session_complete d.moment peer (on_server c) t u' (record {
        allowed = allowed_at peer d.moment t own_peer g.trusted;
        found = found;
        alive = rw (l.same_lifetime) g.alive;
        same_peer = l.same_peer ∙ a.session.same_peer;
        same_offer = l.same_offer ∙ a.session.same_offer;
        same_file = l.same_file ∙ a.session.same_file;
        same_capability = l.same_capability ∙ a.session.same_capability;
        same_nonce = l.same_nonce ∙ a.session.same_nonce;
      }) in
      record {
        next = t;
        outcome = rw here (retry_session sequence o st u u' t acc);
        has_run = (u', found, acc);
        same_peer = own_peer;
      }

  -- What a request comes to.
  Serves : Moment → ServerState → Type 0
  Serves d t =
      HasRun c sequence o st u (encode_control_response d peer o (control_request c sequence) t).0
      × ((encode_control_response d peer o (control_request c sequence) t).0.authorized_peer ≡ peer)
      × (decode_transfer_status
            (response_payload (encode_control_response d peer o (control_request c sequence) t).1)
          ≡ ok st)

  serves : (d : Moment) (t : ServerState) → Ran d t → Serves d t
  unfolding Serves
  serves d t r =
      let (state, response, other) =
        control_end_to_end d peer c sequence o t a.credentials a.small in
      let same = state ∙ ap (λ x. x.0) r.outcome in
      (
        subst (HasRun c sequence o st u) (sym same) r.has_run,
        ap (λ (x : ServerState). x.authorized_peer) same ∙ r.same_peer,
        response st (ap (λ x. x.1) r.outcome) a.fits,
      )

  AtMostOnce : ServerState × List Delivery → Type 0
  AtMostOnce (t, ds) =
      RunOnce c sequence o st u t × (t.authorized_peer ≡ peer) × All (Good peer c u) ds

  still :
      (d : Delivery) (t : ServerState)
      → Good peer c u d
      → RunOnce c sequence o st u t
      → RunOnce c sequence o st u (d.others t)
  still d t g (not_yet found) = not_yet (g.same_session t ∙ found)
  still d t g (done u' found acc) = done u' (g.same_session t ∙ found) acc

  delivered_once :
      (d : Delivery) (t : ServerState)
      → Good peer c u d
      → t.authorized_peer ≡ peer
      → RunOnce c sequence o st u t
      → Serves d.moment (d.others t)
  delivered_once d t g own_peer h =
      serves d.moment (d.others t)
        (control-Ran d (d.others t) g (g.same_peer t ∙ own_peer) (still d t g h))

  request : ServerState × List Delivery → (ServerState × List Delivery) × CommandResult
  request = over_network (λ d. encode_control_response d peer o (control_request c sequence))

  request-AtMostOnce : (w : ServerState × List Delivery) → AtMostOnce w → AtMostOnce (request w).0
  unfolding over_network request Serves AtMostOnce
  request-AtMostOnce (t, []) h = h
  request-AtMostOnce (t, d ∷ ds) (h, own_peer, (g, gs)) = elim (Bool-cases d.delivered) [
    | inl there ↦
        let ((u', found, acc), same_peer, answer) = delivered_once d t g own_peer h in
        rw there (done u' found acc, same_peer, gs)
    | inr lost ↦ rw lost (still d t g h, g.same_peer t ∙ own_peer, gs)
  ]

  request-response :
      (w w' : ServerState × List Delivery) (response : List ℕ)
      → AtMostOnce w
      → request w ≡ (w', ok response)
      → HasRun c sequence o st u w'.0 × (decode_transfer_status response ≡ ok st)
  unfolding over_network request Serves AtMostOnce
  request-response (t, []) w' response h e = absurd (ground arith)
  request-response (t, d ∷ ds) w' response (h, own_peer, (g, gs)) e =
      let (has_run, same_peer, answer) = delivered_once d t g own_peer h in
      let there : d.delivered ≡ true = ground arith in
      let back : d.returned ≡ true = ground arith in
      let state : w'.0
          ≡ (encode_control_response d.moment peer o (control_request c sequence) (d.others t)).0 =
        ground arith in
      let payload : response
          ≡ response_payload
              (encode_control_response d.moment peer o (control_request c sequence)
                (d.others t)).1 =
        ground arith in
      (
        subst (HasRun c sequence o st u) (sym state) has_run,
        ap decode_transfer_status payload ∙ answer,
      )

-- A control command that the server would accept on the session of its credentials, sent with recovery
-- over a network that may lose any request and any response, while other connections do what they like to
-- the rest of the server: that session is as it was, or as one run of the command leaves it, however
-- often the command has been sent; and if the client gets a response at all, the command has been run
-- just once and the response is its outcome. The server must be well formed, and the command's number
-- and the count in its answer must fit 64 bits; the store must trust the peer and the session must be
-- alive at each delivery; and nothing but this command may change the session meanwhile, nor anything
-- the peer that the server is for.
pub control_at_most_once :
    (peer : List ℕ) (c : TransferCredentials) (sequence : ℕ) (o : Opcode) (m : Moment)
    (s s' : ServerState) (st : TransferStatus) (u : TransferSession) (p : SecureRecoveryPolicy)
    (limit : ℕ) (attempts : List Attempt) (now : ℕ) (metrics : SecureRecoveryMetrics)
    (ds : List Delivery)
    → IsServer s
    → IsCredentials c
    → sequence < 256 ^ 8
    → st.unique_bytes < 256 ^ 8
    → lookup c.transfer_id s.transfers ≡ some u
    → control m peer (on_server c) sequence o s ≡ (s', ok st)
    → All (Good peer c u) ds
    → let r =
        command_recovering p limit
          (over_network (λ d. encode_control_response d peer o (control_request c sequence)))
          attempts
          now
          metrics
          (s, ds) in
      RunOnce c sequence o st u r.world.0
      × ((response : List ℕ)
          → r.result ≡ some (ok response)
          → HasRun c sequence o st u r.world.0 × (decode_transfer_status response ≡ ok st))
unfolding request AtMostOnce control
control_at_most_once peer c sequence o m s s' st u p limit attempts now metrics ds w v small fits
      there e good =
    let (t, auth, e') = session_ok m peer (on_server c) (control_session sequence o) s s' st e in
    let same : t ≡ u = some-injective t u (sym auth.found ∙ there) in
    let auth_u : Authenticated m peer (on_server c) s u =
      subst (Authenticated m peer (on_server c) s) same auth in
    let own = Entries-lookup OwnKey c.transfer_id s.transfers there w.sessions in
    let a : Accepts m peer c sequence o s s' st u = record {
      session = auth_u;
      own = own.0;
      credentials = v;
      small = small;
      fits = fits;
      accepted = ap (λ x. control_session sequence o x s) (sym same) ∙ e';
    } in
    let (world, answer) =
      command_recovering-Answers (request m peer c sequence o s s' st u a)
        (AtMostOnce m peer c sequence o s s' st u a) p limit
        (request-AtMostOnce m peer c sequence o s s' st u a) attempts now metrics (s, ds)
        (not_yet there, allowed_peer peer m s auth_u.allowed, good) in
    (
      world.0,
      λ response q.
          let (x, h, sent) = answer response q in
          request-response m peer c sequence o s s' st u a x _ response h sent,
    )
