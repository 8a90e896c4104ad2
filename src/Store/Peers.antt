-- ===== src/Store/Peers.antt =====
-- The record of a trusted peer by its fingerprint, and the check of settings against it: `load_peer`,
-- `peer_path`, `compact_fingerprint` and `read_bounded` of src/device_store.rs, and
-- `AppSettings::validate` of src/app_settings.rs. What the file of a name holds is an argument.
use clip_ferry.Common.{
  ℕ, ◌+◌, ◌*◌, ◌-◌, ◌/◌, ◌%◌, ◌<◌, ◌≤◌, subst, sym, ap, Bool, Bool-cases, inl, inr, false, true,
  ◌||◌, ◌≡◌, ◌∙◌, List, [], ◌∷◌, ◌++◌, length, leb, ltb, ◌==◌, ◌&&◌, not, bytes_eq, bytes_eq_iff,
  if◌then◌else◌, arith,
}
use clip_ferry.Common.Result.{IoResult, ok, guard, ◌>>=◌, ◌>>◌, invalid_data, >>=-eq-ok}
use clip_ferry.Offer.Manifest.{Utf8}
use clip_ferry.Store.{TrustedPeer, decode_trust_record}
use clip_ferry.Store.Settings.{
  AppSettings, SocketAddr, IpAddr, v4, v6, is_private, is_loopback, validate_private_endpoint,
}

-- A digit of `{:02x}`.
unfoldable pub lower_hex : ℕ → ℕ
lower_hex n = if ltb n 10 then b'0' + n else b'a' + (n - 10)

unfoldable pub compact_fingerprint : List ℕ → List ℕ
unfolding lower_hex
compact_fingerprint [] = []
compact_fingerprint (byte ∷ rest) =
    lower_hex (byte / 16) ∷ lower_hex (byte % 16) ∷ compact_fingerprint rest

-- The name of the file in the directory of trusted peers.
unfoldable pub peer_path : List ℕ → List ℕ
unfolding compact_fingerprint
peer_path fingerprint = compact_fingerprint fingerprint ++ (b'.' ∷ b'p' ∷ b'e' ∷ b'e' ∷ b'r' ∷ [])

abbrev pub trust_record_limit : ℕ
trust_record_limit = 72 * 1024

-- `read_bounded`, on what the system gives for the file.
unfoldable pub read_bounded : ℕ → IoResult (List ℕ) → IoResult (List ℕ)
read_bounded limit file = do
  encoded ← file
  guard (not (length encoded == 0) && leb (length encoded) limit) invalid_data
  ok encoded

-- `a != b` on truth values.
abbrev pub differs : Bool → Bool → Bool
differs a b = if a then not b else b

-- The addresses that settings may have: those of this machine, with `true`, and those of a private
-- network.
pub data InScope : Bool → IpAddr → Type 0 where
  loopback_v4 : {rest : List ℕ} → InScope true (v4 (127 ∷ rest))
  loopback_v6 : InScope true (v6 (0 ∷ 0 ∷ 0 ∷ 0 ∷ 0 ∷ 0 ∷ 0 ∷ 1 ∷ []))
  ten : {b : ℕ} {rest : List ℕ} → InScope false (v4 (10 ∷ b ∷ rest))
  block_172 : {b : ℕ} {rest : List ℕ} → 16 ≤ b → b ≤ 31 → InScope false (v4 (172 ∷ b ∷ rest))
  block_192 : {rest : List ℕ} → InScope false (v4 (192 ∷ 168 ∷ rest))
  unique_local :
      {part : ℕ} {rest : List ℕ} → 64512 ≤ part → part < 65024 → InScope false (v6 (part ∷ rest))

at_first :
    (b b' : Bool) (a a' : ℕ) (rest : List ℕ)
    → b ≡ b'
    → a ≡ a'
    → InScope b' (v4 (a' ∷ rest))
    → InScope b (v4 (a ∷ rest))
at_first b b' a a' rest p q h = rw (p, q) h

private_v6 : (parts : List ℕ) → is_private (v6 parts) ≡ true → InScope false (v6 parts)
unfolding is_private
private_v6 [] e = absurd (ground arith)
private_v6 (part ∷ rest) e = unique_local (ground arith) (ground arith)

in_scope : (ip : IpAddr) → (is_loopback ip || is_private ip) ≡ true → InScope (is_loopback ip) ip
unfolding is_loopback is_private
in_scope (v4 []) e = absurd (ground arith)
in_scope (v4 (a ∷ [])) e = elim (Bool-cases (a == 127)) [
  | inl here ↦ at_first (a == 127) true a 127 [] here (ground arith) loopback_v4
  | inr away ↦ absurd (ground arith)
]
in_scope (v4 (a ∷ b ∷ rest)) e = elim (Bool-cases (a == 127)) [
  | inl here ↦ at_first (a == 127) true a 127 (b ∷ rest) here (ground arith) loopback_v4
  | inr away ↦ elim (Bool-cases (a == 10)) [
    | inl hit ↦ at_first (a == 127) false a 10 (b ∷ rest) away (ground arith) ten
    | inr miss ↦ elim (Bool-cases (a == 172)) [
      | inl hit ↦
          at_first (a == 127) false a 172 (b ∷ rest) away (ground arith)
            (block_172 (ground arith) (ground arith))
      | inr miss' ↦
          let second : b ≡ 168 = ground arith in
          at_first (a == 127) false a 192 (b ∷ rest) away (ground arith) (rw second block_192)
    ]
  ]
]
in_scope (v6 parts) e =
    let loop : List ℕ = 0 ∷ 0 ∷ 0 ∷ 0 ∷ 0 ∷ 0 ∷ 0 ∷ 1 ∷ [] in
    elim (Bool-cases (bytes_eq parts loop)) [
      | inl here ↦
          let same : parts ≡ loop = (bytes_eq_iff parts loop).0 here in
          rw here (subst (λ p. InScope true (v6 p)) (sym same) loopback_v6)
      | inr away ↦ rw away (private_v6 parts (rw away at e))
    ]

endpoint_ok :
    (endpoint : SocketAddr)
    → validate_private_endpoint endpoint ≡ ok tt
    → (0 < endpoint.port) × InScope (is_loopback endpoint.ip) endpoint.ip
unfolding validate_private_endpoint
endpoint_ok endpoint e =
    let allowed : (is_loopback endpoint.ip || is_private endpoint.ip) ≡ true = ground arith in
    (ground arith, in_scope endpoint.ip allowed)

module _ (utf8 : Utf8) (is_whitespace : ℕ → Bool) (fingerprint_of : List ℕ → List ℕ)
    (files : List ℕ → IoResult (List ℕ)) where
  unfoldable pub load_peer : List ℕ → IoResult TrustedPeer
  unfolding read_bounded peer_path
  load_peer fingerprint = do
    encoded ← read_bounded trust_record_limit (files (peer_path fingerprint))
    decode_trust_record utf8 is_whitespace fingerprint_of encoded fingerprint

  unfoldable pub validate_settings : AppSettings → IoResult (Unit {0})
  unfolding is_loopback validate_private_endpoint
  validate_settings s = do
    validate_private_endpoint s.local_endpoint
    validate_private_endpoint s.peer_endpoint
    guard (not (differs (is_loopback s.local_endpoint.ip) (is_loopback s.peer_endpoint.ip)))
        invalid_data
    peer ← load_peer s.active_peer
    guard (bytes_eq peer.fingerprint s.active_peer) invalid_data

  -- Settings pass only if neither port is 0, both addresses are of this machine or both of a private
  -- network, and the file of the active peer's name in the store's directory has between 1 byte and 72 KiB
  -- and is a trust record that decodes under its fingerprint.
  pub validate_settings_ok :
      (s : AppSettings)
      → validate_settings s ≡ ok tt
      → ((here : Bool) × InScope here s.local_endpoint.ip × InScope here s.peer_endpoint.ip)
        × (0 < s.local_endpoint.port)
        × (0 < s.peer_endpoint.port)
        × ((peer : TrustedPeer) × (encoded : List ℕ) × (files (peer_path s.active_peer)
              ≡ ok encoded)
            × (0 < length encoded)
            × (length encoded ≤ 73728)
            × (decode_trust_record utf8 is_whitespace fingerprint_of encoded s.active_peer
                ≡ ok peer)
            × (peer.fingerprint ≡ s.active_peer))
  unfolding validate_settings load_peer read_bounded
  validate_settings_ok s e =
      let (_, local, e₁) = >>=-eq-ok (validate_private_endpoint s.local_endpoint) _ e in
      let (_, remote, e₂) = >>=-eq-ok (validate_private_endpoint s.peer_endpoint) _ e₁ in
      let (_, scope, e₃) =
        >>=-eq-ok
          (guard (not (differs (is_loopback s.local_endpoint.ip) (is_loopback s.peer_endpoint.ip)))
            invalid_data)
          _ e₂ in
      let (peer, loaded, e₄) = >>=-eq-ok (load_peer s.active_peer) _ e₃ in
      let (encoded, file, l₁) =
        >>=-eq-ok (read_bounded trust_record_limit (files (peer_path s.active_peer))) _ loaded in
      let (whole, found, f₁) = >>=-eq-ok (files (peer_path s.active_peer)) _ file in
      let same : whole ≡ encoded = ground arith in
      let some_bytes : 0 < length whole = ground arith in
      let few_bytes : length whole ≤ 73728 = ground arith in
      let (some_port, here) = endpoint_ok s.local_endpoint local in
      let (some_port', there) = endpoint_ok s.peer_endpoint remote in
      let alike : is_loopback s.peer_endpoint.ip ≡ is_loopback s.local_endpoint.ip = ground arith in
      let same_print : bytes_eq peer.fingerprint s.active_peer ≡ true = ground arith in
      (
        (
          is_loopback s.local_endpoint.ip,
          here,
          subst (λ b. InScope b s.peer_endpoint.ip) alike there,
        ),
        some_port,
        some_port',
        (
          peer,
          encoded,
          found ∙ ap ok same,
          subst (λ x. 0 < length x) same some_bytes,
          subst (λ x. length x ≤ 73728) same few_bytes,
          l₁,
          (bytes_eq_iff peer.fingerprint s.active_peer).0 same_print,
        ),
      )
