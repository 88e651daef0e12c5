-- ===== src/Server/Requests/Waiting.antt =====
-- What the waiters, their channels and the calls of server/server.go have to do with each other.
use distkv.Prelude.{
  ℕ, ◌≡◌, ◌≢◌, inl, inr, refl, sym, ap, ◌∙◌, Bool, true, false, Option, none, some, List, arith,
  ◌==◌, Bool-cases, Option-cases,
}
use distkv.IdMap.{look, del, put, put_kept, put_origin, del_origin, look-put, look-put_own}
use distkv.Server.{WaitResult}
use distkv.Server.Requests.{
  Caller, proposed, waiting, replied, turned_away, crashed, Reply, ok_reply,
}

-- The index at which a call has entered its channel.
abbrev pub entered : Caller → Option ℕ
entered (proposed index term) = none
entered (waiting index term) = some index
entered (replied index term reply) = some index
entered (turned_away reply) = none
entered crashed = none

-- A waiter of an index is a call that waits there, with an empty channel; what is in a channel, and
-- what a call has answered with success, is an entry with the property P.
pub record Sound (P : ℕ → ℕ → Bool → Type 0) (waiters : List (ℕ × ℕ))
    (channels : List (ℕ × WaitResult)) (callers : List (ℕ × Caller)) : Type 0 where
  pub waits :
      (i ch : ℕ)
      → look i waiters ≡ some ch
      → (t : ℕ) × (look ch callers ≡ some (waiting i t)) × (look ch channels ≡ none)
  pub sent :
      (ch : ℕ) (res : WaitResult)
      → look ch channels ≡ some res
      → (i : ℕ) × (c : Caller) × (look ch callers ≡ some c)
        × (entered c ≡ some i)
        × P i res.term res.applied_well
  pub answered : (id i t : ℕ) → look id callers ≡ some (replied i t ok_reply) → P i t true

pub same_value : {V : Type 0} (o : Option V) (a b : V) → o ≡ some a → o ≡ some b → a ≡ b
same_value o a b h k = cc (h, k)

-- Such a call is not one that has entered a channel at an index.
proposed_apart :
    (o : Option Caller) (i t j : ℕ) (d : Caller)
    → o ≡ some (proposed i t)
    → o ≡ some d
    → entered d ≢ some j
proposed_apart o i t j d h k e =
    let gone : none ≡ some j = ap entered (same_value o (proposed i t) d h k) ∙ e in
    absurd (cc gone)

module _ (P : ℕ → ℕ → Bool → Type 0) (w : List (ℕ × ℕ)) (ch : List (ℕ × WaitResult))
    (ca : List (ℕ × Caller)) where
  pub begin_call-Sound :
      (id i t : ℕ) → look id ca ≡ none → Sound P w ch ca → Sound P w ch (put id (proposed i t) ca)
  begin_call-Sound id i t new v = record {
    waits = λ j c h.
        let (t', at_c, free) = v.waits j c h in
        (t', put_kept id c (proposed i t) (waiting j t') ca (λ e. cc (new, e)) at_c, free);
    sent = λ c res h.
        let (j, d, at_c, e, p) = v.sent c res h in
        (j, d, put_kept id c (proposed i t) d ca (λ e'. cc (new, e')) at_c, e, p);
    answered = λ k j t' h. elim (put_origin id k (proposed i t) (replied j t' ok_reply) ca h) [
      | inl (here, e) ↦ absurd (cc e)
      | inr old ↦ v.answered k j t' old
    ];
  }

  -- A call that is behind node.Propose has nothing in its channel.
  proposed_empty :
      (id i t : ℕ) → look id ca ≡ some (proposed i t) → Sound P w ch ca → look id ch ≡ none
  proposed_empty id i t at_id v = elim (Option-cases (look id ch)) [
    | inl free ↦ free
    | inr (res, full) ↦
        let (j, d, at_d, e, p) = v.sent id res full in
        absurd (proposed_apart (look id ca) i t j d at_id at_d e)
  ]

  pub register_waiter-Sound :
      (id i t : ℕ)
      → look id ca ≡ some (proposed i t)
      → Sound P w ch ca
      → Sound P (put i id w) ch (put id (waiting i t) ca)
  register_waiter-Sound id i t at_id v = record {
    waits = λ j c h. elim (put_origin i j id c w h) [
      | inl (here, e) ↦
          let own : id ≡ c = cc e in
          let at_c : look c (put id (waiting i t) ca) ≡ some (waiting j t) =
            rw (own, here) (look-put_own c (waiting j t) ca) in
          (t, at_c, ap (λ k. look k ch) (sym own) ∙ proposed_empty id i t at_id v)
      | inr old ↦
          let (t', at_c, free) = v.waits j c old in
          (t', put_kept id c (waiting i t) (waiting j t') ca (λ e. cc (at_id, e)) at_c, free)
    ];
    sent = λ c res h.
        let (j, d, at_c, e, p) = v.sent c res h in
        (
          j,
          d,
          put_kept id c (waiting i t) d ca (λ e'. proposed_apart (look id ca) i t j d at_id e' e)
              at_c,
          e,
          p,
        );
    answered = λ k j t' h. elim (put_origin id k (waiting i t) (replied j t' ok_reply) ca h) [
      | inl (here, e) ↦ absurd (cc e)
      | inr old ↦ v.answered k j t' old
    ];
  }

  pub finish_call-Sound :
      (id i t : ℕ) (r : Reply)
      → look id ca ≡ some (waiting i t)
      → (r ≡ ok_reply → P i t true)
      → Sound P w ch ca
      → Sound P (del i w) ch (put id (replied i t r) ca)
  finish_call-Sound id i t r at_id told v = record {
    waits = λ j c h.
        let (apart, old) = del_origin i j c w h in
        let (t', at_c, free) = v.waits j c old in
        (
          t',
          put_kept id c (replied i t r) (waiting j t') ca (λ e. apart (cc (at_id, e))) at_c,
          free,
        );
    sent = λ c res h.
        let (j, d, at_c, e, p) = v.sent c res h in
        elim (Bool-cases (id == c)) [
          | inl here ↦
              let own : id ≡ c = ground (arith, here) in
              let at_d : look id ca ≡ some d = ap (λ k. look k ca) own ∙ at_c in
              let at_j : some i ≡ some j =
                ap entered (same_value (look id ca) (waiting i t) d at_id at_d) ∙ e in
              (j, replied i t r, rw own (look-put_own c (replied i t r) ca), at_j, p)
          | inr there ↦ (j, d, look-put id c (replied i t r) ca ∙ rw there at_c, e, p)
        ];
    answered = λ k j t' h. elim (put_origin id k (replied i t r) (replied j t' ok_reply) ca h) [
      | inl (here, e) ↦
          let own : i ≡ j = cc e in
          let at_term : t ≡ t' = cc e in
          let good : r ≡ ok_reply = cc e in rw (sym own, sym at_term) (told good)
      | inr old ↦ v.answered k j t' old
    ];
  }

  -- Two indices have two waiters.
  other :
      (i j c d t : ℕ)
      → Sound P w ch ca
      → i ≢ j
      → look i w ≡ some c
      → look d ca ≡ some (waiting j t)
      → (c == d) ≡ false
  other i j c d t v apart at_i at_d =
      let (t', at_c, free) = v.waits i c at_i in
      elim (Bool-cases (c == d)) [
        | inr there ↦ there
        | inl here ↦
            let own : c ≡ d = ground (arith, here) in
            let at_d' : look d ca ≡ some (waiting i t') = ap (λ k. look k ca) (sym own) ∙ at_c in
            absurd (apart (cc (at_d, at_d')))
      ]

  pub send-Sound :
      (i c : ℕ) (res : WaitResult)
      → look i w ≡ some c
      → P i res.term res.applied_well
      → Sound P w ch ca
      → Sound P (del i w) (put c res ch) ca
  send-Sound i c res at_i p v = record {
    waits = λ j d h.
        let (apart, old) = del_origin i j d w h in
        let (t', at_d, free) = v.waits j d old in
        (t', at_d, look-put c d res ch ∙ rw (other i j c d t' v apart at_i at_d) free);
    sent = λ d res' h. elim (put_origin c d res res' ch h) [
      | inl (here, e) ↦
          let (t, at_c, free) = v.waits i c at_i in
          let same : res ≡ res' = cc e in
          (i, waiting i t, ap (λ k. look k ca) (sym here) ∙ at_c, refl, rw (sym same) p)
      | inr old ↦ v.sent d res' old
    ];
    answered = v.answered;
  }
