-- ===== src/Transport/Caching.antt =====
-- The connections that server/transport.go keeps: they are those of the peers' present addresses.
use distkv.Prelude.{
  ℕ, ◌≡◌, refl, sym, ap, ◌∙◌, Option, none, some, List, [], ◌∷◌, arith, ◌==◌, if◌then◌else◌,
  Bool-cases, Option-cases, inl, inr,
}
use distkv.Codec.{Bytes}
use distkv.IdMap.{look, put, look-del, look-put}
use distkv.Transport.{Transport, new_transport, set_peer, remove_peer, client}

-- The calls that change a transport.
pub data PeerEvent : Type 0 where
  set_event : ℕ → Bytes → PeerEvent
  remove_event : ℕ → PeerEvent
  client_event : ℕ → PeerEvent

-- The address of a peer after the events, whatever was connected.
abbrev pub address : List PeerEvent → ℕ → Option Bytes → Option Bytes
address [] id known = known
address (set_event j addr ∷ es) id known = address es id (if j == id then some addr else known)
address (remove_event j ∷ es) id known = address es id (if j == id then none else known)
address (client_event j ∷ es) id known = address es id known

module _ {C : Type 0} (dial : Bytes → Option C) where
  unfoldable pub handle : PeerEvent → Transport C → Transport C
  unfolding set_peer remove_peer client
  handle (set_event id addr) t = set_peer dial id addr t
  handle (remove_event id) t = remove_peer dial id t
  handle (client_event id) t = (client dial id t).0

  unfoldable pub run_peer_events : List PeerEvent → Transport C → Transport C
  unfolding handle
  run_peer_events [] t = t
  run_peer_events (e ∷ es) t = run_peer_events es (handle e t)

  -- A new connection to the address.
  abbrev pub connect : Option Bytes → Option C
  connect none = none
  connect (some addr) = dial addr

  -- Every connection that is kept is one to the peer's present address.
  abbrev pub Fresh : Transport C → Type 0
  Fresh t = (id : ℕ) (c : C) → look id t.conns ≡ some c → connect (look id t.addrs) ≡ some c

  new_transport-Fresh : (addrs : List (ℕ × Bytes)) → Fresh (new_transport dial addrs)
  unfolding new_transport look
  new_transport-Fresh addrs id c h = cc h

  client-result :
      (id : ℕ) (t : Transport C) → Fresh t → (client dial id t).1 ≡ connect (look id t.addrs)
  unfolding client
  client-result id t v = elim (Option-cases (look id t.conns)) [
    | inr (c, kept) ↦ rw (client, kept) (sym (v id c kept))
    | inl absent ↦ elim (Option-cases (look id t.addrs)) [
      | inl unknown ↦ rw (client, absent, unknown) refl
      | inr (addr, known) ↦ elim (Option-cases (dial addr)) [
        | inl failed ↦ rw (client, absent, known, failed) refl
        | inr (c, made) ↦ rw (client, absent, known, made) refl
      ]
    ]
  ]

  client-addrs : (id : ℕ) (t : Transport C) → (client dial id t).0.addrs ≡ t.addrs
  unfolding client
  client-addrs id t = grind arith

  renewed :
      (j id : ℕ) (addr : Bytes) (c d : C) (t : Transport C)
      → Fresh t
      → look j t.addrs ≡ some addr
      → dial addr ≡ some d
      → look id (put j d t.conns) ≡ some c
      → connect (look id t.addrs) ≡ some c
  renewed j id addr c d t v known made new = elim (Bool-cases (j == id)) [
    | inl here ↦
        let own : id ≡ j = ground (arith, here) in
        let at_j : look j t.addrs ≡ look id t.addrs = ap (λ i. look i t.addrs) (sym own) in
        let result : some d ≡ some c = rw (look-put j id d t.conns, here) at new in
        ap connect (sym at_j ∙ known) ∙ made ∙ result
    | inr there ↦ v id c (rw (look-put j id d t.conns, there) at new)
  ]

  client-Fresh : (j : ℕ) (t : Transport C) → Fresh t → Fresh (client dial j t).0
  unfolding client
  client-Fresh j t v id c h = elim (Option-cases (look j t.conns)) [
    | inr (d, kept) ↦
        let old : look id t.conns ≡ some c = rw (client, kept) at h in
        rw (client, kept) (v id c old)
    | inl absent ↦ elim (Option-cases (look j t.addrs)) [
      | inl unknown ↦
          let old : look id t.conns ≡ some c = rw (client, absent, unknown) at h in
          rw (client, absent, unknown) (v id c old)
      | inr (addr, known) ↦ elim (Option-cases (dial addr)) [
        | inl failed ↦
            let old : look id t.conns ≡ some c = rw (client, absent, known, failed) at h in
            rw (client, absent, known, failed) (v id c old)
        | inr (d, made) ↦
            let new : look id (put j d t.conns) ≡ some c = rw (client, absent, known, made) at h in
            rw (client, absent, known, made) (renewed j id addr c d t v known made new)
      ]
    ]
  ]

  handle-Fresh : (e : PeerEvent) (t : Transport C) → Fresh t → Fresh (handle e t)
  unfolding handle set_peer remove_peer
  handle-Fresh (set_event j addr) t v id c h =
      grind (arith, look-del j id t.conns, look-put j id addr t.addrs, v id c)
  handle-Fresh (remove_event j) t v id c h =
      grind (arith, look-del j id t.conns, look-del j id t.addrs, v id c)
  handle-Fresh (client_event j) t v id c h = client-Fresh j t v id c h

  run_peer_events-Fresh :
      (es : List PeerEvent) (t : Transport C) → Fresh t → Fresh (run_peer_events es t)
  unfolding run_peer_events
  run_peer_events-Fresh [] t v = v
  run_peer_events-Fresh (e ∷ es) t v = run_peer_events-Fresh es (handle e t) (handle-Fresh e t v)

  look-handle :
      (e : PeerEvent) (id : ℕ) (t : Transport C)
      → look id (handle e t).addrs ≡ address (e ∷ []) id (look id t.addrs)
  unfolding handle set_peer remove_peer
  look-handle (set_event j addr) id t = look-put j id addr t.addrs
  look-handle (remove_event j) id t = look-del j id t.addrs
  look-handle (client_event j) id t = ap (look id) (client-addrs j t)

  address_after :
      (e : PeerEvent) (es : List PeerEvent) (id : ℕ) (known : Option Bytes)
      → address (e ∷ es) id known ≡ address es id (address (e ∷ []) id known)
  address_after (set_event j addr) es id known = refl
  address_after (remove_event j) es id known = refl
  address_after (client_event j) es id known = refl

  run_peer_events-addrs :
      (es : List PeerEvent) (id : ℕ) (t : Transport C)
      → look id (run_peer_events es t).addrs ≡ address es id (look id t.addrs)
  unfolding run_peer_events
  run_peer_events-addrs [] id t = refl
  run_peer_events-addrs (e ∷ es) id t =
      run_peer_events-addrs es id (handle e t)
      ∙ ap (address es id) (look-handle e id t)
      ∙ sym (address_after e es id (look id t.addrs))

  -- The kept connections cannot be told from new ones: after any calls of SetPeer, RemovePeer and
  -- client, in any order, client gives what a new connection to the peer's last address gives, and
  -- an error where the peer is not known or the address cannot be read.
  pub client-run_peer_events :
      (es : List PeerEvent) (addrs : List (ℕ × Bytes)) (id : ℕ)
      → (client dial id (run_peer_events es (new_transport dial addrs))).1
        ≡ connect (address es id (look id addrs))
  unfolding new_transport
  client-run_peer_events es addrs id =
      client-result id (run_peer_events es (new_transport dial addrs))
        (run_peer_events-Fresh es (new_transport dial addrs) (new_transport-Fresh addrs))
      ∙ ap connect (run_peer_events-addrs es id (new_transport dial addrs))
