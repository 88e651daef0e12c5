-- ===== src/DiskStorage/RecordReplay.antt =====
-- The records of raft/storage.go: what replaying each of them does, and how the log takes them.
use distkv.Prelude.{
  ℕ, ◌^◌, ◌<◌, ◌≡◌, ◌∙◌, sym, ap, true, false, some, [], ◌∷◌, ◌++◌, arith, ltb, length,
  length-append, append-nil,
}
use distkv.Codec.{Bytes, put_u64, get_u64, get_u64-put_u64, length-put_u64, drop-put_u64}
use distkv.Wal.{Wal, frame, append, sync, done}
use distkv.Wal.Frames.{Fits}
use distkv.ConfState.{ConfState}
use distkv.ConfState.Encoding.{Encodable, decode_conf_state-encode_conf_state}
use distkv.DiskStorage.{
  DiskStorage, Entry, EntryProto, decode_entry, encode_entry, truncate, hard_state_record,
  truncate_record, conf_state_record,
}
use distkv.DiskStorage.Restart.{replay_record, replay_hard_state, replay_truncate}

one_word : (x : ℕ) → x < 2 ^ 64 → get_u64 (put_u64 x) ≡ some x
one_word x h = ap get_u64 (sym (append-nil (put_u64 x))) ∙ get_u64-put_u64 x [] h

pub replay_hard :
    (proto : EntryProto) (m : DiskStorage) (t v : ℕ)
    → t < 2 ^ 64
    → v < 2 ^ 64
    → replay_record proto m (hard_state_record t v) ≡ done (record m { term = t; voted_for = v })
unfolding replay_record hard_state_record
replay_hard proto m t v ht hv =
    rw (get_u64-put_u64 t (put_u64 v) ht, replay_hard_state)
      (rw (drop-put_u64 t (put_u64 v)) (rw (one_word v hv)))

pub hard_state-Fits : (t v : ℕ) → Fits (hard_state_record t v)
unfolding hard_state_record
hard_state-Fits t v =
    omega (arith, length-append (put_u64 t) (put_u64 v), length-put_u64 t, length-put_u64 v)

pub truncate-Fits : (from : ℕ) → Fits (truncate_record from)
unfolding truncate_record
truncate-Fits from = omega (arith, length-put_u64 from)

pub replay_cut :
    (proto : EntryProto) (m : DiskStorage) (from : ℕ)
    → from < 2 ^ 64
    → replay_record proto m (truncate_record from) ≡ done (record m { log = truncate from m.log })
unfolding replay_record truncate_record
replay_cut proto m from h = rw (one_word from h, replay_truncate)

pub replay_membership :
    (proto : EntryProto) (m : DiskStorage) (c : ConfState)
    → Encodable c
    → 0 < length c.voters
    → replay_record proto m (conf_state_record c) ≡ done (record m { conf = c })
unfolding replay_record conf_state_record
replay_membership proto m c h voter = rw (decode_conf_state-encode_conf_state c h) (ground arith)

-- The words of an entry are 64-bit, and its record has a 32-bit length.
pub record EntryFits (proto : EntryProto) (e : Entry) : Type 0 where
  pub term_word : e.term < 2 ^ 64
  pub index_word : e.index < 2 ^ 64
  pub record_fits : Fits (encode_entry proto e)

decode_entry-encode :
    (proto : EntryProto) (e : Entry)
    → EntryFits proto e
    → decode_entry proto (put_u64 e.term ++ (put_u64 e.index ++ proto.marshal e)) ≡ e
unfolding decode_entry put_u64
decode_entry-encode proto e h =
    let body : Bytes = put_u64 e.index ++ proto.marshal e in
    let long : ltb (length (put_u64 e.term ++ body)) 16 ≡ false = ground (
      arith,
      length-append (put_u64 e.term) body,
      length-append (put_u64 e.index) (proto.marshal e),
      length-put_u64 e.term,
      length-put_u64 e.index,
    ) in
    rw (long, get_u64-put_u64 e.term body h.term_word)
      (rw (drop-put_u64 e.term body) (
        rw (get_u64-put_u64 e.index (proto.marshal e) h.index_word)
          (rw (drop-put_u64 e.index (proto.marshal e)) (rw proto.unmarshal-marshal))))

pub replay_entry :
    (proto : EntryProto) (m : DiskStorage) (e : Entry)
    → EntryFits proto e
    → m.snap_index < e.index
    → replay_record proto m (encode_entry proto e) ≡ done (record m { log = m.log ++ e ∷ [] })
unfolding replay_record encode_entry
replay_entry proto m e h above = rw (decode_entry-encode proto e h) (ground arith)

pub append_ok :
    (w : Wal) (p : Bytes)
    → (append w p).1 ≡ true
    → ((append w p).0.synced ≡ w.synced) × ((append w p).0.pending ≡ w.pending ++ frame p)
unfolding append
append_ok w p h = ground arith

pub sync_ok :
    (w : Wal)
    → (sync w).1 ≡ true
    → ((sync w).0.synced ≡ w.synced ++ w.pending) × ((sync w).0.pending ≡ [])
unfolding sync
sync_ok w h = ground arith
