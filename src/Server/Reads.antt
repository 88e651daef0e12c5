-- ===== src/Server/Reads.antt =====
-- The calls of server/server.go that change nothing: Get and Status.
use distkv.Prelude.{
  ℕ, zero, suc, ◌+◌, ◌≤◌, ◌<◌, ◌≡◌, inl, inr, refl, Bool, false, Option, none, some, arith,
  if◌then◌else◌, leb, ltb, Bool-cases,
}
use distkv.Codec.{Bytes}
use distkv.Node.{Node}
use distkv.Node.Running.{node_status}
use distkv.StateMachine.{Engine, read_key}
use distkv.Server.{Server}
use distkv.Server.Requests.{Reply, not_leader_reply, unavailable, deadline_exceeded}

-- StatusResponse.
pub record StatusResponse : Type 0 where
  pub node_id : ℕ
  pub leads : Bool
  pub leader_id : ℕ
  pub term : ℕ
  pub commit_index : ℕ
  pub applied_index : ℕ

unfoldable pub status : {E C : Type 0} → Node → Server E C → StatusResponse
unfolding node_status
status n s =
    let (term, leads, leader_id) = node_status n in
    record {
      node_id = n.cfg.id;
      leads = leads;
      leader_id = leader_id;
      term = term;
      commit_index = n.commit_index;
      applied_index = s.applied;
    }

-- What Get answers: the state machine's answer or its error (codes.Internal), or a refusal before it
-- is asked; `waiting_still` is the end of the fuel.
pub data GetReply : Type 0 where
  got : Option Bytes → GetReply
  read_failed : GetReply
  not_got : Reply → GetReply
  waiting_still : GetReply

-- The end of Get, for what the state machine answers.
unfoldable pub answer : Option (Option Bytes) → GetReply
answer none = read_failed
answer (some v) = got v

-- `W` is the world at a moment. Raft's ReadIndex and a pause of a millisecond pass time, in which the
-- server goes on; the pause says whether the context is done. The clock is in milliseconds.
module _ {E C W : Type 0} (api : Engine E) (server : W → Server E C) (clock : W → ℕ)
    (read_index : W → W × Option ℕ) (pause : W → W × Bool) where
  -- The loop that waits for the applied index.
  unfoldable pub wait_for_applied : ℕ → Bytes → ℕ → ℕ → W → W × GetReply
  unfolding answer
  wait_for_applied zero key deadline read_idx w = (w, waiting_still)
  wait_for_applied (suc fuel) key deadline read_idx w =
      let rest = wait_for_applied fuel key deadline read_idx (pause w).0 in
      if leb read_idx (server w).applied
      then (w, answer (read_key api key (server w).machine))
      else if ltb deadline (clock w)
      then (w, not_got unavailable)
      else if (pause w).1
      then ((pause w).0, not_got deadline_exceeded)
      else rest

  unfoldable pub serve_get : ℕ → Bytes → W → W × GetReply
  unfolding wait_for_applied
  serve_get fuel key w =
      let (w1, index) = read_index w in
      elim index [
        | none ↦ (w1, not_got not_leader_reply)
        | some read_idx ↦ wait_for_applied fuel key (clock w1 + 3000) read_idx w1
      ]

  -- An answer with a value, with none, or with the error of a read, is the one of a machine that has
  -- applied up to the read index.
  abbrev pub UpTo : Bytes → ℕ → W × GetReply → Type 0
  UpTo key read_idx (w, got v) =
      (read_idx ≤ (server w).applied) × (read_key api key (server w).machine ≡ some v)
  UpTo key read_idx (w, read_failed) =
      (read_idx ≤ (server w).applied) × (read_key api key (server w).machine ≡ none)
  UpTo key read_idx (w, not_got r) = Unit
  UpTo key read_idx (w, waiting_still) = ⊥

  answer-UpTo :
      (key : Bytes) (read_idx : ℕ) (w : W) (o : Option (Option Bytes))
      → read_idx ≤ (server w).applied
      → read_key api key (server w).machine ≡ o
      → UpTo key read_idx (w, answer o)
  unfolding answer
  answer-UpTo key read_idx w none h e = (h, e)
  answer-UpTo key read_idx w (some v) h e = (h, e)

  wait_for_applied-UpTo :
      ((w : W) → (pause w).1 ≡ false → clock w + 1 ≤ clock (pause w).0)
      → (fuel : ℕ) (key : Bytes) (deadline read_idx : ℕ) (w : W) → deadline + 1 < fuel + clock w
      → 0 < fuel
      → UpTo key read_idx (wait_for_applied fuel key deadline read_idx w)
  unfolding wait_for_applied
  wait_for_applied-UpTo ticks zero key deadline read_idx w h f = absurd (omega (arith, f))
  wait_for_applied-UpTo ticks (suc fuel) key deadline read_idx w h f =
      elim (Bool-cases (leb read_idx (server w).applied)) [
        | inl reached ↦
            rw (wait_for_applied, reached)
              (answer-UpTo key read_idx w (read_key api key (server w).machine)
                (ground (arith, reached)) refl)
        | inr behind ↦ elim (Bool-cases (ltb deadline (clock w))) [
          | inl late ↦ rw (wait_for_applied, behind, late) tt
          | inr early ↦ elim (Bool-cases (pause w).1) [
            | inl over ↦ rw (wait_for_applied, behind, early, over) tt
            | inr on ↦
                let passed = ticks w on in
                rw (wait_for_applied, behind, early, on)
                  (wait_for_applied-UpTo ticks fuel key deadline read_idx (pause w).0
                    (omega (arith, h, passed)) (ground (arith, h, early)))
          ]
        ]
      ]

  -- Get ends, when a pause that is not cut short takes its millisecond: after three seconds at most
  -- of pauses. Where it answers with a value, with none, or with the error of a read, then this is
  -- what the state machine answers for the key at a moment at which it has applied up to the read
  -- index at least.
  pub serve_get-UpTo :
      ((w : W) → (pause w).1 ≡ false → clock w + 1 ≤ clock (pause w).0)
      → (key : Bytes) (w : W) (read_idx : ℕ) → (read_index w).1 ≡ some read_idx
      → UpTo key read_idx (serve_get 3003 key w)
  unfolding serve_get
  serve_get-UpTo ticks key w read_idx h =
      let w1 = (read_index w).0 in
      rw (serve_get, h)
        (wait_for_applied-UpTo ticks 3003 key (clock w1 + 3000) read_idx w1 (omega arith)
          (omega arith))
