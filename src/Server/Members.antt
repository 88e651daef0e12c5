-- ===== src/Server/Members.antt =====
-- The membership calls of server/membership.go.
use distkv.Prelude.{
  ℕ, ◌≡◌, ◌⊎◌, inl, inr, refl, ap, Bool, true, false, not, ◌||◌, Option, none, some, List, [], ◌∷◌,
  arith, if◌then◌else◌, leb, ◌==◌, length, Bool-cases,
}
use distkv.Codec.{Bytes}
use distkv.ConfState.{in_joint}
use distkv.ConfState.Change.{
  ConfChange, add_node, remove_node, leave_joint, conf_change_in_progress,
}
use distkv.DiskStorage.{EntryProto}
use distkv.Node.{Node, is_leader}
use distkv.Node.Membership.{Proposal, not_leader, refused, propose_conf_change, is_leave}
use distkv.StateMachine.{is_empty}
use distkv.Server.Requests.{
  Caller, proposed, waiting, replied, turned_away, crashed, Reply, ok_reply, not_leader_reply,
  invalid_argument, last_voter, propose_change, after_proposal,
}

-- AddMemberRequest and MemberInfo.
pub record AddMemberRequest : Type 0 where
  pub id : ℕ
  pub raft_addr : Bytes

pub record MemberInfo : Type 0 where
  pub id : ℕ
  pub raft_addr : Bytes
  pub voting : Bool

unfoldable pub member_infos : (ℕ → Option Bytes) → List ℕ → List MemberInfo
member_infos addrs [] = []
member_infos addrs (id ∷ ids) =
    record { id = id; raft_addr = elim (addrs id) [ none ↦ [] | some addr ↦ addr ]; voting = true }
    ∷ member_infos addrs ids

-- ListMembers: the members, and whether the cluster is in a transition.
unfoldable pub list_members : Node → List MemberInfo × Bool
unfolding member_infos
list_members n = (member_infos n.addrs n.conf.voters, in_joint n.conf)

-- `await` is all that happens to the node while a call waits for the entry of an index and a term,
-- and what the call then answers. A call that is none has panicked.
module _ (proto : EntryProto) (await : ℕ → ℕ → Node → Node × Reply) where
  unfoldable pub wait_for : Caller → Node → Node × Option Reply
  wait_for (proposed index term) n = let (n1, reply) = await index term n in (n1, some reply)
  wait_for (waiting index term) n = (n, none)
  wait_for (replied index term reply) n = (n, some reply)
  wait_for (turned_away reply) n = (n, some reply)
  wait_for crashed n = (n, none)

  unfoldable pub propose_and_wait : ConfChange → Node → Node × Option Reply
  unfolding propose_change wait_for
  propose_and_wait cc n = let (n1, caller) = propose_change proto cc n in wait_for caller n1

  abbrev pub leave_change : ConfChange
  leave_change = record { kind = leave_joint; node_id = 0; context = [] }

  abbrev pub is_ok : Option Reply → Bool
  is_ok none = false
  is_ok (some r) = elim r [ ok_reply ↦ true | _ ↦ false ]

  -- Two proposals: into the transition, and out of it.
  unfoldable pub change_membership : ConfChange → Node → Node × Option Reply
  unfolding propose_and_wait is_leave
  change_membership cc n =
      let (n1, reply) = propose_and_wait cc n in
      if not (is_ok reply)
      then (n1, reply)
      else if is_leave proto cc.kind
      then (n1, some ok_reply)
      else propose_and_wait leave_change n1

  unfoldable pub add_member : AddMemberRequest → Node → Node × Option Reply
  unfolding change_membership
  add_member req n =
      if (req.id == 0) || is_empty req.raft_addr
      then (n, some invalid_argument)
      else change_membership (record { kind = add_node; node_id = req.id; context = req.raft_addr })
          n

  -- `self` is the server's own id.
  unfoldable pub remove_member : ℕ → ℕ → Node → Node × Option Reply
  unfolding change_membership
  remove_member self id n =
      if id == 0
      then (n, some invalid_argument)
      else if id == self
      then (n, some invalid_argument)
      else if leb (length n.conf.voters) 1
      then (n, some last_voter)
      else change_membership (record { kind = remove_node; node_id = id; context = [] }) n

  -- In a transition every other change is refused.
  proposal_refused :
      (cc : ConfChange) (n : Node)
      → is_leave proto cc.kind ≡ false
      → in_joint n.conf ≡ true
      → (propose_conf_change proto cc n ≡ (n, not_leader))
        ⊎ (propose_conf_change proto cc n ≡ (n, refused conf_change_in_progress))
  unfolding propose_conf_change
  proposal_refused cc n other joint = elim (Bool-cases (is_leader n.role)) [
    | inl leads ↦ inr (rw (propose_conf_change, leads, other, joint) refl)
    | inr follows ↦ inl (rw (propose_conf_change, follows) refl)
  ]

  change_refused :
      (cc : ConfChange) (n : Node)
      → is_leave proto cc.kind ≡ false
      → in_joint n.conf ≡ true
      → change_membership cc n ≡ (n, some not_leader_reply)
  unfolding change_membership propose_and_wait wait_for propose_change after_proposal
  change_refused cc n other joint =
      let whole : Node × Proposal → Node × Option Reply = λ r.
        (let (n1, reply) = wait_for (after_proposal r.1) r.0 in
          if not (is_ok reply)
          then (n1, reply)
          else if is_leave proto cc.kind
          then (n1, some ok_reply)
          else propose_and_wait leave_change n1) in
      elim (proposal_refused cc n other joint) [ inl e ↦ ap whole e | inr e ↦ ap whole e ]

  -- In a transition no membership call of this server has an effect on its node, and none succeeds,
  -- whatever happens while a call waits: there is none that leaves a transition which an earlier
  -- call has left behind.
  pub member_calls_in_joint :
      (req : AddMemberRequest) (self id : ℕ) (n : Node)
      → in_joint n.conf ≡ true
      → ((add_member req n).0 ≡ n)
        × (is_ok (add_member req n).1 ≡ false)
        × ((remove_member self id n).0 ≡ n)
        × (is_ok (remove_member self id n).1 ≡ false)
  unfolding add_member remove_member is_leave
  member_calls_in_joint req self id n joint =
      let adding : ConfChange = record {
        kind = add_node;
        node_id = req.id;
        context = req.raft_addr;
      } in
      let removing : ConfChange = record { kind = remove_node; node_id = id; context = [] } in
      let not_added = change_refused adding n refl joint in
      let not_removed = change_refused removing n refl joint in
      let kept = ap (λ r. r.0) not_added in
      let told = ap (λ r. is_ok r.1) not_added in
      let kept' = ap (λ r. r.0) not_removed in
      let told' = ap (λ r. is_ok r.1) not_removed in
      (
        elim (Bool-cases ((req.id == 0) || is_empty req.raft_addr)) [
          | inl bad ↦ rw (add_member, bad) refl
          | inr good ↦ rw (add_member, good) kept
        ],
        elim (Bool-cases ((req.id == 0) || is_empty req.raft_addr)) [
          | inl bad ↦ rw (add_member, bad) refl
          | inr good ↦ rw (add_member, good) told
        ],
        ground (arith, kept'),
        ground (arith, told'),
      )
