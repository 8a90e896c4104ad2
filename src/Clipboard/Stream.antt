-- ===== src/Clipboard/Stream.antt =====
-- `VirtualStream` of src/clipboard/stream.rs: a read-only stream over a source. The probe's log and
-- the copy of the name for Stat are left out.
pub mod Reads
use clip_ferry.Common.{
  ℕ, ◌+◌, ◌-◌, ◌^◌, suc, zero, Bool, true, false, Option, none, some, List, [], ◌∷◌, ◌++◌, length,
  leb, ltb, ◌==◌, if◌then◌else◌, ◌&&◌, not,
}
use clip_ferry.Common.Result.{Result, ok, err}
use clip_ferry.Clipboard.Source.{
  HresultError, ComResult, ReadAtSource, e_unexpected, e_pointer, e_notimpl, stg_e_invalidpointer,
  stg_e_invalidfunction, stg_e_accessdenied,
}

-- The loop over `read_at`, on what the buffer holds so far. Each round reads at least a byte, so
-- `requested` rounds are enough.
unfoldable pub fill : ReadAtSource → ℕ → ℕ → ℕ → List ℕ → ComResult (List ℕ)
fill source position requested zero got = ok got
fill source position requested (suc fuel) got =
    if ltb (length got) requested
    then (if leb (2 ^ 64) (position + length got)
        then err stg_e_invalidfunction
        else (elim (source (position + length got) (requested - length got)) [
          | err e ↦ err e
          | ok chunk ↦
              if ltb (requested - length got) (length chunk)
              then err e_unexpected
              else (if length chunk == 0
                  then ok got
                  else fill source position requested fuel (got ++ chunk))
        ]))
    else ok got

-- The end of `read_impl`: the position moves if it can.
unfoldable pub advance : ℕ → ComResult (List ℕ) → ℕ × ComResult (List ℕ)
advance position (err e) = (position, err e)
advance position (ok got) =
    if leb (2 ^ 64) (position + length got)
    then (position, err stg_e_invalidfunction)
    else (position + length got, ok got)

-- The position after the call, and the bytes read; `null` is a null destination.
unfoldable pub read_impl : ReadAtSource → Bool → ℕ → ℕ → ℕ × ComResult (List ℕ)
read_impl source null requested position =
    if not (requested == 0) && null
    then (position, err stg_e_invalidpointer)
    else advance position (fill source position requested requested [])

-- `ISequentialStream::Read`: is the answer S_OK (the buffer is full) or S_FALSE?
unfoldable pub read_is_full : ℕ → List ℕ → Bool
read_is_full requested got = length got == requested

-- A signed displacement.
pub data ℤ : Type 0 where
  pos negsuc : ℕ → ℤ

pub data StreamSeek : Type 0 where
  seek_set seek_cur seek_end : StreamSeek
  seek_other : ℕ → StreamSeek

unfoldable pub seek_base : StreamSeek → ℕ → ℕ → Option ℕ
seek_base seek_set position len = some 0
seek_base seek_cur position len = some position
seek_base seek_end position len = some len
seek_base (seek_other n) position len = none

-- `u64::try_from(base + displacement)`
unfoldable pub displaced : ℕ → ℤ → Option ℕ
displaced base (pos d) = if ltb (base + d) (2 ^ 64) then some (base + d) else none
displaced base (negsuc d) = if leb (suc d) base then some (base - suc d) else none

unfoldable pub move_to : ℕ → Option ℕ → ℕ × ComResult ℕ
move_to position none = (position, err stg_e_invalidfunction)
move_to position (some next) = (next, ok next)

unfoldable pub seek_impl : ℕ → ℤ → StreamSeek → ℕ → ℕ × ComResult ℕ
seek_impl len displacement origin position = elim (seek_base origin position len) [
  | none ↦ (position, err stg_e_invalidfunction)
  | some base ↦ move_to position (displaced base displacement)
]

-- The calls that a read-only stream refuses.
unfoldable pub write : ComResult ℕ
write = err stg_e_accessdenied

unfoldable pub set_size : ℕ → ComResult (Unit {0})
set_size n = err stg_e_accessdenied

unfoldable pub copy_to : ComResult (Unit {0})
copy_to = err e_notimpl

pub data StatFlag : Type 0 where
  flag_default flag_noname flag_noopen : StatFlag
  flag_other : ℕ → StatFlag

-- `Stat`: the size, and whether the name is given.
unfoldable pub stat : Bool → StatFlag → ℕ → ComResult (ℕ × Bool)
stat true flag len = err e_pointer
stat false flag_default len = ok (len, true)
stat false flag_noname len = ok (len, false)
stat false flag_noopen len = ok (len, true)
stat false (flag_other n) len = err stg_e_invalidfunction
