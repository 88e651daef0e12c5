-- ===== src/Transport.antt =====
-- server/transport.go: a node's transport to its peers, with connections that are made when they are
-- first used and kept.
pub mod Caching
use distkv.Prelude.{ℕ, Option, none, some, List, [], ◌∷◌}
use distkv.Codec.{Bytes}
use distkv.IdMap.{look, del, put}

-- `C` is what the calls of a peer go through, a raftpb.RaftClient.
pub record Transport (C : Type 0) : Type 0 where
  pub addrs : List (ℕ × Bytes)
  pub conns : List (ℕ × C)

-- `dial` is grpc.NewClient with raftpb.NewRaftClient: it connects when a call is made, and fails on
-- an address that it cannot read.
module _ {C : Type 0} (dial : Bytes → Option C) where
  unfoldable pub new_transport : List (ℕ × Bytes) → Transport C
  new_transport addrs = record { addrs = addrs; conns = [] }

  unfoldable pub set_peer : ℕ → Bytes → Transport C → Transport C
  set_peer id addr t = record { addrs = put id addr t.addrs; conns = del id t.conns }

  unfoldable pub remove_peer : ℕ → Transport C → Transport C
  remove_peer id t = record { addrs = del id t.addrs; conns = del id t.conns }

  unfoldable pub peers : Transport C → List (ℕ × Bytes)
  peers t = t.addrs

  unfoldable pub client : ℕ → Transport C → Transport C × Option C
  client peer t = elim (look peer t.conns) [
    | some c ↦ (t, some c)
    | none ↦ elim (look peer t.addrs) [
      | none ↦ (t, none)
      | some addr ↦ elim (dial addr) [
        | none ↦ (t, none)
        | some c ↦ (record t { conns = put peer c t.conns }, some c)
      ]
    ]
  ]

  -- RequestVote, AppendEntries, InstallSnapshot and ReadIndex: `invoke` is the call, with its time
  -- limit.
  unfoldable pub rpc :
      {W Req Resp : Type 0}
      → (C → Req → W → W × Option Resp)
      → ℕ
      → Req
      → Transport C
      → W
      → Transport C × W × Option Resp
  unfolding client
  rpc invoke peer req t w =
      let (t1, found) = client peer t in
      elim found [
        | none ↦ (t1, w, none)
        | some c ↦ let (w1, answer) = invoke c req w in (t1, w1, answer)
      ]
