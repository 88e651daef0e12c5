-- ===== src/Tests/Members.antt =====
-- Memberships: the two halves of a change, quorums, and the encoding.
use distkv.Prelude.{ℕ, ◌≤◌, ◌<◌, ◌≡◌, refl, Bool, true, none, [], ◌∷◌, arith, ◌==◌, ◌||◌}
use distkv.IdSet.{contains, insert, insert_all}
use distkv.ConfState.{
  ConfState, Map, write, can_commit, max_commit_index, all_peer_ids, in_joint, read,
  has_vote_quorum,
}
use distkv.ConfState.Change.{
  IsWellFormed, stable, apply_conf_change, ok, add, apply_conf_change-IsWellFormed,
  apply_conf_change-Changed,
}
use distkv.ConfState.Quorum.{Quorum, ahead, quorums-Meet, commit_meets_election}
use distkv.ConfState.Tally.{Meet}
use distkv.ConfState.Commit.{max_commit_index-exact}
use distkv.ConfState.Encoding.{
  encode_conf_state, decode_conf_state, Encodable, decode_conf_state-encode_conf_state,
}

abbrev three : ConfState
three = record { voters = 1 ∷ 2 ∷ 3 ∷ []; joint = [] }

abbrev four : ConfState
four = record { voters = 1 ∷ 2 ∷ 3 ∷ 4 ∷ []; joint = 1 ∷ 2 ∷ 3 ∷ [] }

three-IsWellFormed : IsWellFormed three
three-IsWellFormed = record {
  voters_set = ground arith;
  joint_set = tt;
  has_voter = ground arith;
  differ = stable refl;
}

three_to_four : apply_conf_change three (add 4) ≡ ok four
unfolding apply_conf_change insert
three_to_four = refl

four-IsWellFormed : IsWellFormed four
four-IsWellFormed =
    apply_conf_change-IsWellFormed three (add 4) four three-IsWellFormed three_to_four

apply_conf_change-IsWellFormed_example : IsWellFormed four
apply_conf_change-IsWellFormed_example =
    apply_conf_change-IsWellFormed three (add 4) four three-IsWellFormed three_to_four

abbrev first_two : ℕ → Bool
first_two id = id == 1 || id == 2

abbrev last_three : ℕ → Bool
last_three id = id == 2 || (id == 3 || id == 4)

Quorum-first : Quorum three first_two
unfolding has_vote_quorum distkv.ConfState.Tally.tally all_peer_ids
Quorum-first = refl

Quorum-last : Quorum four last_three
unfolding has_vote_quorum distkv.ConfState.Tally.tally all_peer_ids insert_all insert
Quorum-last = refl

quorums-Meet_example : Meet first_two last_three
quorums-Meet_example =
    quorums-Meet three four first_two last_three three-IsWellFormed four-IsWellFormed
      (ahead (apply_conf_change-Changed three (add 4) four three_to_four)) Quorum-first Quorum-last

abbrev matched : Map
matched = write (write (λ _. none) 1 5) 2 7

matched_commit : can_commit three 5 matched ≡ true
unfolding can_commit distkv.ConfState.count_ge
matched_commit = refl

commit_meets_election_example : (id : ℕ) × (5 ≤ read matched id) × (last_three id ≡ true)
commit_meets_election_example =
    commit_meets_election three four matched 5 last_three three-IsWellFormed four-IsWellFormed
      (ahead (apply_conf_change-Changed three (add 4) four three_to_four)) matched_commit
      Quorum-last

max_commit_index-exact_example :
    (0 < max_commit_index three matched
      → can_commit three (max_commit_index three matched) matched ≡ true)
    × ((idx : ℕ) → can_commit three idx matched ≡ true → idx ≤ max_commit_index three matched)
max_commit_index-exact_example = max_commit_index-exact three matched

max_commit_index-matched : max_commit_index three matched ≡ 5
unfolding max_commit_index all_peer_ids can_commit distkv.ConfState.count_ge
max_commit_index-matched = refl

member : contains three.voters 2 ≡ true
unfolding contains
member = refl

four-Encodable : Encodable four
four-Encodable = record {
  voters_set = ground arith;
  joint_set = ground arith;
  voters_count = ground arith;
  joint_count = ground arith;
  voter_ids = ground arith;
  joint_ids = ground arith;
}

decode_conf_state-encode_conf_state_example : decode_conf_state (encode_conf_state four) ≡ ok four
decode_conf_state-encode_conf_state_example =
    decode_conf_state-encode_conf_state four four-Encodable
