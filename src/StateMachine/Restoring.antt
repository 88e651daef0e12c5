-- ===== src/StateMachine/Restoring.antt =====
-- Snapshots of server/statemachine.go, taken on one server and restored on another.
use mathlib.Core.Path.{subst}
use distkv.Prelude.{◌≡◌, sym, ap, ◌∙◌, true, some, arith, Option-cases, inl, inr}
use distkv.Codec.{Bytes}
use distkv.StateMachine.{Contents, Engine, Machine, Gob, SnapshotState, lookup, snapshot, restore}

module _ {E : Type 0} (api : Engine E) (gob : Gob) where
  snapshot_parts :
      (s : Machine E) (b : Bytes)
      → snapshot api gob s ≡ some b
      → (d : Contents) × (api.snapshot_entries s.engine ≡ some d)
        × (gob.decode b ≡ some (record { contents = d; last_seq = s.last_seq }))
  unfolding snapshot
  snapshot_parts s b h = elim (Option-cases (api.snapshot_entries s.engine)) [
    | inl missing ↦ absurd (ground arith)
    | inr (d, found) ↦ (
      d,
      found,
      gob.decode-encode (record { contents = d; last_seq = s.last_seq }) b (ground arith),
    )
  ]

  restore_parts :
      (t : Machine E) (b : Bytes) (st : SnapshotState)
      → gob.decode b ≡ some st
      → (restore api gob b t).1 ≡ true
      → ((api.reset st.contents t.engine).1 ≡ true)
        × ((restore api gob b t).0
            ≡ record { engine = (api.reset st.contents t.engine).0; last_seq = st.last_seq })
  unfolding restore
  restore_parts t b st e h = ground arith

  -- A snapshot that one server took, its engine being in order, and that another restores with
  -- success gives the second server what the first one had: the answer to every read, and every
  -- client's last number. The second engine is then in order.
  pub restore-snapshot :
      (s t : Machine E) (b : Bytes)
      → api.InOrder s.engine
      → snapshot api gob s ≡ some b
      → (restore api gob b t).1 ≡ true
      → ((k : Bytes) → lookup api k (restore api gob b t).0 ≡ lookup api k s)
        × ((restore api gob b t).0.last_seq ≡ s.last_seq)
        × api.InOrder (restore api gob b t).0.engine
  restore-snapshot s t b v h ok =
      let (d, entries, decoded) = snapshot_parts s b h in
      let (takes, e) =
        restore_parts t b (record { contents = d; last_seq = s.last_seq }) decoded ok in
      let dump : api.IsDump d = api.snapshot_entries-IsDump s.engine d v entries in
      (
        λ k.
            ap (lookup api k) e
            ∙ (unfold lookup in
                (api.get-reset d t.engine dump takes k
                  ∙ api.get-snapshot_entries s.engine d v entries k)),
        ap (λ r. r.last_seq) e,
        subst (λ (r : Machine E). api.InOrder r.engine) (sym e)
            (api.reset-InOrder d t.engine dump takes),
      )
