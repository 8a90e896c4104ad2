-- ===== src/Server/Read/Safety.antt =====
-- What an answer to ReadRange tells, whatever other threads have done in the meantime.
use clip_ferry.Common.{
  ℕ, ◌-◌, ◌<◌, ◌≡◌, min, true, false, some, List, [], length, take, bytes as byte_lists,
}
use clip_ferry.Common.Map.{lookup}
use clip_ferry.Wire.Code.{paused}
use clip_ferry.Wire.Message.{TransferStatus}
use clip_ferry.Offer.Manifest.{OfferManifestEntry, manifest_entry}
use clip_ferry.Server.State.{
  ServerState, SecureOfferedFile, TransferSession, TransferInner, ReadAtSource, Moment, status_of,
}
use clip_ferry.Server.Peers.{peer_is_allowed}
use clip_ferry.Server.Read.{Turn, is_paused, is_cancelled, held, note_read}
use clip_ferry.Server.Read.Same.{SameSession}

-- The second look at peer and session, after the read of the source.
pub record Cleared (m : Moment) (peer : List ℕ) (s : ServerState) (t : TransferSession)
    : Type 0 where
  pub allowed : peer_is_allowed s m peer ≡ true
  pub alive : m.now < t.expires_at
  pub not_cancelled : is_cancelled t.inner.state ≡ false

-- What the source gave: the bytes at the offset, no more than asked for and than the file has. The
-- status counts what the source says it has read.
pub record FromSource (o : SecureOfferedFile) (file : List ℕ) (offset requested : ℕ)
    (i : TransferInner) (st : TransferStatus) (bytes : List ℕ) : Type 0 where
  pub source : ReadAtSource
  pub entry : OfferManifestEntry
  pub found_source : lookup file o.sources ≡ some source
  pub found_entry : manifest_entry file o.manifest.entries ≡ some entry
  pub data_read : List ℕ
  pub read : source offset (min (entry.descriptor.size - offset) requested) ≡ some data_read
  pub truncated : bytes ≡ take (min (entry.descriptor.size - offset) requested) data_read
  pub status : st ≡ status_of (note_read offset (length data_read) i)

-- A successful ReadRange on the session that was handed out: either the transfer is paused and no byte
-- is given; or the bytes come from the source that the offer has for the session's file, peer and session
-- were in order when the read began, and they were looked at again after the read.
pub data Answer (o : SecureOfferedFile) (serve : Moment) (finish : Turn) (peer : List ℕ)
    (t : TransferSession) (offset requested : ℕ) (st : TransferStatus) (bytes : List ℕ)
    : Type 0 where
  on_pause : bytes ≡ [] → st.state ≡ paused → Answer o serve finish peer t offset requested st bytes
  served :
      (s : ServerState) (u : TransferSession)
      → s.offered ≡ o
      → SameSession t u
      → is_paused u.inner.state ≡ false
      → Cleared serve peer s u
      → FromSource o t.file_id offset requested (held u (finish.others s)).inner st bytes
      → Cleared finish.moment peer (finish.others s) (held u (finish.others s))
      → Answer o serve finish peer t offset requested st bytes
