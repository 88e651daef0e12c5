-- ===== src/Node/HardState/ApplySteps.antt =====
-- The applier of raft/node.go, and the hard state.
use distkv.Prelude.{
  ℕ, zero, suc, ◌+◌, ◌≡◌, refl, some, List, [], ◌∷◌, arith, inl, inr, Option-cases, u64,
}
use distkv.ConfState.{write}
use distkv.ConfState.Change.{ConfChange, ConfResult, apply_conf_change}
use distkv.DiskStorage.{Entry, last_index, entry_at}
use distkv.Node.{Node}
use distkv.Node.Membership.{
  apply_conf_change_locked, apply_entry, apply_loop, ApplyMsg, membership_change, track, track_all,
  retire, change_addrs,
}
use distkv.Node.HardState.{SameHard}
use distkv.Node.HardState.SnapshotSteps.{set_conf_state-SameHard}

track_all-store : (ids : List ℕ) (next : ℕ) (n : Node) → (track_all ids next n).store ≡ n.store
unfolding track_all
track_all-store [] next n = refl
track_all-store (id ∷ ids) next n = elim (Option-cases (n.next_index id)) [
  | inl new ↦
      rw (new, track_all)
        (track_all-store ids next (record n {
          next_index = write n.next_index id next;
          match_index = write n.match_index id 0;
        }))
  | inr (i, old) ↦ rw (old, track_all) (track_all-store ids next n)
]

track-store : (cc : ConfChange) (n : Node) → (track cc n).store ≡ n.store
unfolding track
track-store cc n = ground (arith, track_all-store n.conf.voters (u64 (last_index n.store + 1)) n)

retire-store : (cc : ConfChange) (n : Node) → (retire cc n).store ≡ n.store
unfolding retire
retire-store cc n = ground arith

apply_conf_change_locked-SameHard :
    (cc : ConfChange) (n n' : Node)
    → apply_conf_change_locked cc n ≡ some n'
    → SameHard n.store n'.store
unfolding apply_conf_change_locked
apply_conf_change_locked-SameHard cc n n' h = go (apply_conf_change n.conf cc) refl
  where
    go : (r : ConfResult) → apply_conf_change n.conf cc ≡ r → SameHard n.store n'.store
    go (ConfResult.err e) q = ground arith
    go ConfResult.panic q = ground arith
    go (ConfResult.ok next) q =
        let n1 : Node = record n { conf = next; addrs = change_addrs cc n.addrs } in
        let n2 : Node = track cc (retire cc n1) in
        ground (
          arith,
          set_conf_state-SameHard n2.store n2.conf,
          track-store cc (retire cc n1),
          retire-store cc n1,
        )

apply_entry-SameHard :
    (e : Entry) (n n' : Node) (msg : ApplyMsg)
    → apply_entry e n ≡ some (n', msg)
    → SameHard n.store n'.store
unfolding apply_entry
apply_entry-SameHard e n n' msg h = elim (Option-cases (membership_change e)) [
  | inl plain ↦ ground arith
  | inr (cc, change) ↦ elim (Option-cases (apply_conf_change_locked cc n)) [
    | inl stuck ↦ ground arith
    | inr (m, q) ↦ ground (arith, apply_conf_change_locked-SameHard cc n m)
  ]
]

pub apply_loop-SameHard :
    (fuel : ℕ) (n n' : Node) (msgs : List ApplyMsg)
    → apply_loop fuel n ≡ some (n', msgs)
    → SameHard n.store n'.store
unfolding apply_loop
apply_loop-SameHard zero n n' msgs h = ground arith
apply_loop-SameHard (suc fuel) n n' msgs h =
    let next : ℕ = u64 (n.last_applied + 1) in
    let skip : Node = record n { last_applied = n.store.snap_index } in
    elim (Option-cases (entry_at n.store next)) [
      | inl gap ↦ ground (arith, apply_loop-SameHard fuel skip n' msgs)
      | inr (e, there) ↦ elim (Option-cases (apply_entry e n)) [
        | inl stuck ↦ ground (arith, apply_loop-SameHard fuel skip n' msgs)
        | inr ((m, msg), q) ↦
            let m1 : Node = record m { last_applied = next } in
            elim (Option-cases (apply_loop fuel m1)) [
              | inl short ↦ ground (arith, apply_loop-SameHard fuel skip n' msgs)
              | inr ((k, rest), r) ↦ ground (
                arith,
                apply_loop-SameHard fuel skip n' msgs,
                apply_loop-SameHard fuel m1 k rest,
                apply_entry-SameHard e n m msg,
              )
            ]
      ]
    ]
