-- ===== src/ConfState/Change.antt =====
-- ApplyConfChange of raft/confstate.go, with the errors of raft/confstate_errors.go.
use distkv.Prelude.{
  ℕ, ◌<◌, ◌≡◌, ◌≢◌, refl, sym, true, false, not, List, [], ◌∷◌, arith, leb, ◌==◌, if◌then◌else◌,
  length,
}
use distkv.IdSet.{
  IdSet, contains, insert, remove, IsAscending, insert-IsAscending, remove-IsAscending,
  length-insert, length-remove, contains-insert, contains-remove,
}
use distkv.ConfState.{ConfState, in_joint}

-- The enum ConfChangeType; `unspecified` and any other number take the default branch.
pub data ConfChangeType : Type 0 where
  add_node remove_node leave_joint : ConfChangeType
  other_type : ℕ → ConfChangeType

pub record ConfChange : Type 0 where
  pub kind : ConfChangeType
  pub node_id : ℕ
  pub context : List ℕ

pub data ConfError : Type 0 where
  conf_change_in_progress not_in_joint unknown_member quorum_loss : ConfError
  invalid_conf_change invalid_conf_state : ConfError

-- What a call returns; a write to a nil map panics.
pub data ConfResult : Type 0 where
  ok : ConfState → ConfResult
  err : ConfError → ConfResult
  panic : ConfResult

unfoldable pub apply_kind : ConfChangeType → ℕ → ConfState → ConfResult
apply_kind add_node id next =
    if in_joint next
    then err conf_change_in_progress
    else if length next.voters == 0
    then panic
    else ok (record { voters = insert id next.voters; joint = next.voters })
apply_kind remove_node id next =
    if in_joint next
    then err conf_change_in_progress
    else if not (contains next.voters id)
    then err unknown_member
    else if leb (length next.voters) 1
    then err quorum_loss
    else ok (record { voters = remove id next.voters; joint = next.voters })
apply_kind leave_joint id next =
    if not (in_joint next) then err not_in_joint else ok (record next { joint = [] })
apply_kind (other_type t) id next = err invalid_conf_change

-- `clone` copies both sets, and gives nil for an empty one: the add branch then writes to a nil map.
unfoldable pub apply_conf_change : ConfState → ConfChange → ConfResult
unfolding apply_kind
apply_conf_change c cc = apply_kind cc.kind cc.node_id c

-- A configuration is stable, or its two sets differ by one server at most.
pub data Differ (voters joint : IdSet) : Type 0 where
  stable : joint ≡ [] → Differ voters joint
  added : (id : ℕ) → voters ≡ insert id joint → Differ voters joint
  removed : (id : ℕ) → joint ≡ insert id voters → Differ voters joint

pub record IsWellFormed (c : ConfState) : Type 0 where
  pub voters_set : IsAscending c.voters
  pub joint_set : IsAscending c.joint
  pub has_voter : 0 < length c.voters
  pub differ : Differ c.voters c.joint

insert-remove :
    (id : ℕ) (s : IdSet) → IsAscending s → contains s id ≡ true → insert id (remove id s) ≡ s
unfolding insert remove contains
insert-remove id [] a h = cc
insert-remove id (x ∷ []) a h = ground arith
insert-remove id (x ∷ y ∷ xs) a h = ground (arith, insert-remove id (y ∷ xs) a.1)

module _ {c : ConfState} (w : IsWellFormed c) (id : ℕ) where
  open w use {voters_set, joint_set, has_voter}

  add-IsWellFormed : IsWellFormed (record { voters = insert id c.voters; joint = c.voters })
  add-IsWellFormed = record {
    voters_set = insert-IsAscending id c.voters voters_set;
    joint_set = voters_set;
    has_voter = ground (arith, length-insert id c.voters voters_set);
    differ = added id refl;
  }

  remove-IsWellFormed :
      contains c.voters id ≡ true
      → 1 < length c.voters
      → IsWellFormed (record { voters = remove id c.voters; joint = c.voters })
  remove-IsWellFormed member many = record {
    voters_set = remove-IsAscending id c.voters voters_set;
    joint_set = voters_set;
    has_voter = ground (arith, length-remove id c.voters);
    differ = removed id (sym (insert-remove id c.voters voters_set member));
  }

leave-IsWellFormed : {c : ConfState} → IsWellFormed c → IsWellFormed (record c { joint = [] })
leave-IsWellFormed w = record {
  voters_set = w.voters_set;
  joint_set = tt;
  has_voter = w.has_voter;
  differ = stable refl;
}

-- The three changes that the code makes, with the tests that it makes before them.
pub data Changed (c c' : ConfState) : Type 0 where
  grows :
      (id : ℕ)
      → in_joint c ≡ false
      → c' ≡ record { voters = insert id c.voters; joint = c.voters }
      → Changed c c'
  shrinks :
      (id : ℕ)
      → in_joint c ≡ false
      → contains c.voters id ≡ true
      → 1 < length c.voters
      → c' ≡ record { voters = remove id c.voters; joint = c.voters }
      → Changed c c'
  leaves : in_joint c ≡ true → c' ≡ record c { joint = [] } → Changed c c'

apply_kind-Changed :
    (k : ConfChangeType) (id : ℕ) (c c' : ConfState) → apply_kind k id c ≡ ok c' → Changed c c'
unfolding apply_kind
apply_kind-Changed add_node id c c' h = grows id (ground arith) (ground arith)
apply_kind-Changed remove_node id c c' h =
    shrinks id (ground arith) (ground arith) (ground arith) (ground arith)
apply_kind-Changed leave_joint id c c' h = leaves (ground arith) (ground arith)
apply_kind-Changed (other_type t) id c c' h = cc

pub apply_conf_change-Changed :
    (c : ConfState) (cc' : ConfChange) (c' : ConfState)
    → apply_conf_change c cc' ≡ ok c'
    → Changed c c'
unfolding apply_conf_change
apply_conf_change-Changed c cc' c' h = apply_kind-Changed cc'.kind cc'.node_id c c' h

pub Changed-IsWellFormed : {c c' : ConfState} → Changed c c' → IsWellFormed c → IsWellFormed c'
Changed-IsWellFormed (grows id n e) w = rw e (add-IsWellFormed w id)
Changed-IsWellFormed (shrinks id n m l e) w = rw e (remove-IsWellFormed w id m l)
Changed-IsWellFormed (leaves j e) w = rw e (leave-IsWellFormed w)

-- A change that succeeds keeps a membership well formed: both sets without repetition, at least
-- one voter, and in a transition one set made from the other by a single server.
pub apply_conf_change-IsWellFormed :
    (c : ConfState) (change : ConfChange) (c' : ConfState)
    → IsWellFormed c
    → apply_conf_change c change ≡ ok c'
    → IsWellFormed c'
apply_conf_change-IsWellFormed c change c' w h =
    Changed-IsWellFormed (apply_conf_change-Changed c change c' h) w

-- On a well-formed membership no change panics.
pub apply_conf_change-ne-panic :
    (c : ConfState) (change : ConfChange) → IsWellFormed c → apply_conf_change c change ≢ panic
unfolding apply_conf_change
apply_conf_change-ne-panic c change w h = no_panic change.kind h
  where
    no_panic : (k : ConfChangeType) → apply_kind k change.node_id c ≢ panic
    no_panic add_node h = ground (arith, w.has_voter)
    no_panic remove_node h = ground arith
    no_panic leave_joint h = ground arith
    no_panic (other_type t) h = cc

abbrev pub add : ℕ → ConfChange
add id = record { kind = add_node; node_id = id; context = [] }

abbrev pub drop_node : ℕ → ConfChange
drop_node id = record { kind = remove_node; node_id = id; context = [] }

abbrev pub leave : ConfChange
leave = record { kind = leave_joint; node_id = 0; context = [] }

-- Adding a server to a stable well-formed membership and then leaving the transition both succeed,
-- and the members afterwards are the old ones and the new server. In between, adding or removing
-- any server is refused.
pub add_then_leave :
    (c : ConfState) (id : ℕ)
    → IsWellFormed c
    → in_joint c ≡ false
    → (c1 : ConfState) × (c2 : ConfState) × (apply_conf_change c (add id) ≡ ok c1)
      × (apply_conf_change c1 leave ≡ ok c2)
      × (in_joint c2 ≡ false)
      × ((j : ℕ) → contains c2.voters j ≡ (if id == j then true else contains c.voters j))
      × ((j : ℕ) → apply_conf_change c1 (add j) ≡ err conf_change_in_progress)
      × ((j : ℕ) → apply_conf_change c1 (drop_node j) ≡ err conf_change_in_progress)
unfolding apply_conf_change
add_then_leave c id w stays = (
  record { voters = insert id c.voters; joint = c.voters },
  record { voters = insert id c.voters; joint = [] },
  ground (arith, w.has_voter),
  ground (arith, w.has_voter),
  refl,
  λ j. contains-insert id j c.voters,
  λ j. ground (arith, w.has_voter),
  λ j. ground (arith, w.has_voter),
)

-- Removing a member of a stable well-formed membership that has another one, and then leaving
-- the transition, both succeed, and exactly that server is gone afterwards.
pub remove_then_leave :
    (c : ConfState) (id : ℕ)
    → IsWellFormed c
    → in_joint c ≡ false
    → contains c.voters id ≡ true
    → 1 < length c.voters
    → (c1 : ConfState) × (c2 : ConfState) × (apply_conf_change c (drop_node id) ≡ ok c1)
      × (apply_conf_change c1 leave ≡ ok c2)
      × (in_joint c2 ≡ false)
      × ((j : ℕ) → contains c2.voters j ≡ (if id == j then false else contains c.voters j))
unfolding apply_conf_change
remove_then_leave c id w stays member many = (
  record { voters = remove id c.voters; joint = c.voters },
  record { voters = remove id c.voters; joint = [] },
  ground (arith, w.has_voter),
  ground (arith, w.has_voter),
  refl,
  λ j. contains-remove id j c.voters w.voters_set,
)
