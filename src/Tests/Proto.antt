-- ===== src/Tests/Proto.antt =====
-- A marshaller of entries that keeps every field, in place of the protobuf library's.
use distkv.Prelude.{
  ℕ, zero, suc, ◌≡◌, refl, Option, none, some, ◌∷◌, ◌++◌, length, take, drop, take-append,
  drop-append,
}
use distkv.Codec.{Bytes}
use distkv.ConfState.Change.{
  ConfChange, ConfChangeType, add_node, remove_node, leave_joint, other_type,
}
use distkv.DiskStorage.{Entry, EntryType, EntryProto, entry_normal, entry_conf_change}

abbrev change_code : ConfChangeType → ℕ
change_code add_node = 0
change_code remove_node = 1
change_code leave_joint = 2
change_code (other_type t) = suc (suc (suc t))

abbrev change_of : ℕ → ConfChangeType
change_of zero = add_node
change_of (suc zero) = remove_node
change_of (suc (suc zero)) = leave_joint
change_of (suc (suc (suc t))) = other_type t

change_of-change_code : (k : ConfChangeType) → change_of (change_code k) ≡ k
change_of-change_code add_node = refl
change_of-change_code remove_node = refl
change_of-change_code leave_joint = refl
change_of-change_code (other_type t) = refl

abbrev kind_code : EntryType → ℕ
kind_code entry_normal = 0
kind_code entry_conf_change = 1

abbrev kind_of : ℕ → EntryType
kind_of zero = entry_normal
kind_of (suc k) = entry_conf_change

kind_of-kind_code : (k : EntryType) → kind_of (kind_code k) ≡ k
kind_of-kind_code entry_normal = refl
kind_of-kind_code entry_conf_change = refl

abbrev marshal_tail : Option ConfChange → Bytes → Bytes
marshal_tail none content = 0 ∷ content
marshal_tail (some cc) content =
    1 ∷ change_code cc.kind ∷ cc.node_id ∷ length cc.context ∷ cc.context ++ content

abbrev marshal_entry : Entry → Bytes
marshal_entry e = e.term ∷ e.index ∷ kind_code e.kind ∷ marshal_tail e.conf_change e.content

abbrev unmarshal_entry : Bytes → Option Entry
unmarshal_entry (t ∷ i ∷ k ∷ zero ∷ content) =
    some (record { term = t; index = i; content = content; kind = kind_of k; conf_change = none })
unmarshal_entry (t ∷ i ∷ k ∷ suc m ∷ c ∷ id ∷ n ∷ rest) = some (record {
  term = t;
  index = i;
  content = drop n rest;
  kind = kind_of k;
  conf_change = some (record { kind = change_of c; node_id = id; context = take n rest });
})
unmarshal_entry _ = none

pub unmarshal_tail :
    (t i : ℕ) (k : EntryType) (change : Option ConfChange) (content : Bytes)
    → unmarshal_entry (t ∷ i ∷ kind_code k ∷ marshal_tail change content)
      ≡ some (record { term = t; index = i; content = content; kind = k; conf_change = change })
unmarshal_tail t i k none content = rw (kind_of-kind_code k) refl
unmarshal_tail t i k (some cc) content =
    rw
      (
        kind_of-kind_code k,
        change_of-change_code cc.kind,
        take-append cc.context content,
        drop-append cc.context content,
      )
      refl

abbrev pub proto : EntryProto
proto = record {
  marshal = marshal_entry;
  unmarshal = unmarshal_entry;
  unmarshal-marshal = λ e. unmarshal_tail e.term e.index e.kind e.conf_change e.content;
}
