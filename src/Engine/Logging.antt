-- ===== src/Engine/Logging.antt =====
-- The records of storage/engine.go in the write-ahead log.
use distkv.Prelude.{
  ◌^◌, ◌<◌, ◌≡◌, refl, false, ◌++◌, arith, ltb, length, length-append, take-append, drop-append,
}
use distkv.Codec.{Bytes, put_u32, get_u32-put_u32, drop-put_u32, length-put_u32}
use distkv.Wal.{done}
use distkv.KeyMap.{KvEntry}
use distkv.SsTable.Format.{flag_read}
use distkv.Engine.{encode_wal_record, decode_wal_record}

-- A logged write is read back, for keys shorter than 4 GiB.
pub decode_wal_record-encode_wal_record :
    (e : KvEntry) → length e.key < 2 ^ 32 → decode_wal_record (encode_wal_record e) ≡ done e
unfolding encode_wal_record decode_wal_record put_u32
decode_wal_record-encode_wal_record e h =
    let body : Bytes = e.key ++ e.value in
    let long : ltb (length (put_u32 (length e.key) ++ body)) 4 ≡ false =
      ground (arith, length-append (put_u32 (length e.key)) body, length-put_u32 (length e.key)) in
    let whole_key : ltb (length body) (length e.key) ≡ false =
      ground (arith, length-append e.key e.value) in
    rw long (
      rw (get_u32-put_u32 (length e.key) body h) (
        rw (drop-put_u32 (length e.key) body)
          (rw (whole_key, take-append e.key e.value, drop-append e.key e.value, flag_read e) refl)))
