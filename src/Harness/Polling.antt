-- ===== src/Harness/Polling.antt =====
-- The waits of harness/cluster.go: loops that look, sleep and look again until a deadline.
use distkv.Prelude.{
  ℕ, zero, suc, ◌+◌, ◌-◌, Bool, true, false, List, [], ◌∷◌, ltb, leb, not, ◌&&◌, if◌then◌else◌,
  length,
}
use distkv.ConfState.{ConfState, in_joint}
use distkv.ConfState.Change.{
  ConfChange, ConfChangeType, add_node, remove_node, leave_joint, other_type,
}
use distkv.Harness.{Cluster, AppliedEntry, applied_by, is_stopped}

-- What one look gives: a result, another round, or the end of the wait with an error.
pub data Look (R : Type 0) : Type 0 where
  hit : R → Look R
  retry : Look R
  stop : Look R

-- What a wait ends with; `unfinished` is the end of the fuel.
pub data Waited (R : Type 0) : Type 0 where
  found : R → Waited R
  expired : Waited R
  unfinished : Waited R

-- `W` is the world at a moment; clocks and sleeps are in milliseconds.
module _ {W : Type 0} (clock : W → ℕ) (sleep : ℕ → W → W) where
  unfoldable pub wait_until : {R : Type 0} → (W → W × Look R) → ℕ → ℕ → ℕ → W → W × Waited R
  wait_until look_at pause zero deadline w = (w, unfinished)
  wait_until look_at pause (suc fuel) deadline w =
      let (w1, seen) = look_at w in
      let rest = wait_until look_at pause fuel deadline (sleep pause w1) in
      if not (ltb (clock w) deadline)
      then (w, expired)
      else elim seen [ hit r ↦ (w1, found r) | retry ↦ rest | stop ↦ (w1, expired) ]

  module _ (cluster : W → Cluster) (connected leads : ℕ → W → Bool) where
    -- The live nodes that lead, and of these the ones that can be reached.
    unfoldable pub leaders_among : List ℕ → W → List ℕ
    unfolding is_stopped
    leaders_among [] w = []
    leaders_among (id ∷ ids) w =
        let rest = leaders_among ids w in
        if not (is_stopped id (cluster w)) && leads id w then id ∷ rest else rest

    unfoldable pub reachable_leaders : List ℕ → W → List ℕ
    unfolding is_stopped
    reachable_leaders [] w = []
    reachable_leaders (id ∷ ids) w =
        let rest = reachable_leaders ids w in
        if not (is_stopped id (cluster w)) && (connected id w && leads id w)
        then id ∷ rest
        else rest

    -- `len(leaders) == 1`
    unfoldable pub single : List ℕ → Look ℕ
    single [] = retry
    single (id ∷ []) = hit id
    single (id ∷ j ∷ js) = retry

    unfoldable pub leader : ℕ → ℕ → W → W × Waited ℕ
    unfolding wait_until reachable_leaders single
    leader fuel timeout w =
        wait_until (λ x. (x, single (reachable_leaders (cluster x).nodes x))) 20 fuel
          (clock w + timeout) w

    unfoldable pub leader_among : List ℕ → ℕ → ℕ → W → W × Waited ℕ
    unfolding wait_until leaders_among single
    leader_among ids fuel timeout w =
        wait_until (λ x. (x, single (leaders_among ids x))) 20 fuel (clock w + timeout) w

    -- A look that asks a leader: no leader ends the wait of Propose and ProposeVia, and is another
    -- round for the waits on the membership.
    unfoldable pub ask_leader :
        {R : Type 0} → Look R → (ℕ → W → W × Look R) → W × Waited ℕ → W × Look R
    ask_leader missing call (w, found id) = call id w
    ask_leader missing call (w, expired) = (w, missing)
    ask_leader missing call (w, unfinished) = (w, missing)

    -- `propose_on` is Node(id).Propose: the index, where it succeeds.
    unfoldable pub propose_via : (ℕ → W → W × Look ℕ) → List ℕ → ℕ → ℕ → W → W × Waited ℕ
    unfolding wait_until leader_among ask_leader
    propose_via propose_on ids fuel timeout w =
        let deadline = clock w + timeout in
        wait_until (λ x. ask_leader stop propose_on (leader_among ids fuel (deadline - clock x) x))
          20 fuel deadline w

    unfoldable pub propose_to_leader : (ℕ → W → W × Look ℕ) → ℕ → ℕ → W → W × Waited ℕ
    unfolding wait_until leader ask_leader
    propose_to_leader propose_on fuel timeout w =
        let deadline = clock w + timeout in
        wait_until (λ x. ask_leader stop propose_on (leader fuel (deadline - clock x) x)) 20 fuel
          deadline w

    unfoldable pub wait_applied : ℕ → ℕ → ℕ → ℕ → W → W × Waited (List AppliedEntry)
    unfolding wait_until applied_by
    wait_applied id count fuel timeout w =
        wait_until
          (λ x. (
            x,
            if leb count (length (applied_by id (cluster x)))
                then hit (applied_by id (cluster x))
                else retry,
          ))
          10 fuel (clock w + timeout) w

    module _ (conf_of : ℕ → W → ConfState) (propose_on : ConfChange → ℕ → W → W × Look Unit) where
      unfoldable pub wait_leader_conf : (ConfState → Bool) → ℕ → W → W × Waited Unit
      unfolding wait_until leader ask_leader
      wait_leader_conf ok fuel w =
          let deadline = clock w + 5000 in
          wait_until
            (λ x.
              ask_leader retry (λ id y. (y, if ok (conf_of id y) then hit tt else retry))
                (leader fuel (deadline - clock x) x))
            20 fuel deadline w

      unfoldable pub propose_change_to_leader : ConfChange → ℕ → W → W × Waited Unit
      unfolding wait_until leader ask_leader
      propose_change_to_leader cc fuel w =
          let deadline = clock w + 5000 in
          wait_until (λ x. ask_leader retry (propose_on cc) (leader fuel (deadline - clock x) x)) 20
            fuel deadline w

      unfoldable pub wait_conf : ℕ → ℕ → ℕ → ℕ → W → W × Waited Unit
      unfolding wait_until
      wait_conf id voters fuel timeout w =
          wait_until
            (λ x. (
              x,
              if leb voters (length (conf_of id x).voters) && not (in_joint (conf_of id x))
                  then hit tt
                  else retry,
            ))
            20 fuel (clock w + timeout) w

    -- changeMembership: the change, the transition on the leader, and out of it again. False is a
    -- failure of the test.
    module _ (conf_of : ℕ → W → ConfState) (propose_on : ConfChange → ℕ → W → W × Look Unit) where
      abbrev done_in_time : Waited Unit → Bool
      done_in_time (found u) = true
      done_in_time expired = false
      done_in_time unfinished = false

      abbrev enters : ConfChangeType → Bool
      enters add_node = true
      enters remove_node = true
      enters leave_joint = false
      enters (other_type k) = false

      abbrev leaves : ConfChangeType → Bool
      leaves leave_joint = true
      leaves add_node = false
      leaves remove_node = false
      leaves (other_type k) = false

      unfoldable pub change_cluster_membership : ConfChange → ℕ → W → W × Bool
      unfolding propose_change_to_leader wait_leader_conf
      change_cluster_membership cc fuel w =
          let leaving : ConfChange = record { kind = leave_joint; node_id = 0; context = [] } in
          let (w1, first) = propose_change_to_leader conf_of propose_on cc fuel w in
          let (w2, inside) = wait_leader_conf conf_of propose_on in_joint fuel w1 in
          let w3 = if enters cc.kind then w2 else w1 in
          let (w4, second) = propose_change_to_leader conf_of propose_on leaving fuel w3 in
          let (w5, outside) = wait_leader_conf conf_of propose_on (λ c. not (in_joint c)) fuel w4 in
          if not (done_in_time first)
          then (w1, false)
          else if enters cc.kind && not (done_in_time inside)
          then (w2, false)
          else if leaves cc.kind
          then (sleep 50 w3, true)
          else if not (done_in_time second)
          then (w4, false)
          else if not (done_in_time outside)
          then (w5, false)
          else (sleep 50 w5, true)
