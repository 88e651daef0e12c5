-- ===== src/Server/Requests/Calls.antt =====
-- The steps of a call of server/server.go keep what is sound.
use distkv.Prelude.{
  ℕ, ◌≡◌, ◌≢◌, inl, inr, refl, sym, ap, ◌∙◌, Bool, true, Option, none, some, arith, Option-cases,
}
use distkv.IdMap.{look}
use distkv.Server.{WaitResult}
use distkv.Server.Requests.{
  Caller, System, proposed, waiting, replied, turned_away, crashed, Reply, ok_reply, reply_of,
  begin_call, register_waiter, wake, give_up, finish_call,
}
use distkv.Server.Requests.Turns.{SoundServer}
use distkv.Server.Requests.Waiting.{
  entered, same_value, begin_call-Sound, register_waiter-Sound, finish_call-Sound,
}

reply_of_ok :
    (term : ℕ) (res : WaitResult)
    → reply_of term res ≡ ok_reply
    → (res.term ≡ term) × (res.applied_well ≡ true)
unfolding reply_of
reply_of_ok term res h = ground (arith, h)

module _ {E C : Type 0} (P : ℕ → ℕ → Bool → Type 0) where
  abbrev pub SoundSystem : System E C → Type 0
  SoundSystem sys = SoundServer P sys.callers sys.server

  pub begin_call-SoundSystem :
      (id i t : ℕ) (sys : System E C)
      → SoundSystem sys
      → SoundSystem (begin_call id i t (look id sys.callers) sys)
  unfolding begin_call
  begin_call-SoundSystem id i t sys v = elim (Option-cases (look id sys.callers)) [
    | inl new ↦
        rw (begin_call, new)
          (begin_call-Sound P sys.server.waiters sys.server.channels sys.callers id i t new v)
    | inr (c, old) ↦ rw (begin_call, old) v
  ]

  pub register_waiter-SoundSystem :
      (id : ℕ) (sys : System E C)
      → SoundSystem sys
      → SoundSystem (register_waiter id (look id sys.callers) sys)
  unfolding register_waiter
  register_waiter-SoundSystem id sys v = by_caller (look id sys.callers) refl
    where
      by_caller :
          (o : Option Caller) → look id sys.callers ≡ o → SoundSystem (register_waiter id o sys)
      by_caller none h = v
      by_caller (some (proposed i t)) h =
          register_waiter-Sound P sys.server.waiters sys.server.channels sys.callers id i t h v
      by_caller (some (waiting i t)) h = v
      by_caller (some (replied i t r)) h = v
      by_caller (some (turned_away r)) h = v
      by_caller (some crashed) h = v

  pub wake-SoundSystem :
      (id : ℕ) (sys : System E C)
      → SoundSystem sys
      → SoundSystem (wake id (look id sys.callers) sys)
  unfolding wake finish_call
  wake-SoundSystem id sys v = by_caller (look id sys.callers) refl
    where
      by_caller : (o : Option Caller) → look id sys.callers ≡ o → SoundSystem (wake id o sys)
      by_caller none h = v
      by_caller (some (proposed i t)) h = v
      by_caller (some (waiting i t)) h = elim (Option-cases (look id sys.server.channels)) [
        | inl empty ↦ rw (wake, empty) v
        | inr (res, full) ↦
            let (j, c, at_id, e, p) = v.sent id res full in
            let here : some i ≡ some j =
              ap entered (same_value (look id sys.callers) (waiting i t) c h at_id) ∙ e in
            let own : i ≡ j = cc here in
            let good : reply_of t res ≡ ok_reply → P i t true = λ ok.
              (let (at_term, well) = reply_of_ok t res ok in rw (own, sym at_term, sym well) p) in
            rw (wake, full)
              (finish_call-Sound P sys.server.waiters sys.server.channels sys.callers id i t
                (reply_of t res) h good v)
      ]
      by_caller (some (replied i t r)) h = v
      by_caller (some (turned_away r)) h = v
      by_caller (some crashed) h = v

  pub give_up-SoundSystem :
      (id : ℕ) (reply : Reply) (sys : System E C)
      → reply ≢ ok_reply
      → SoundSystem sys
      → SoundSystem (give_up id reply (look id sys.callers) sys)
  unfolding give_up finish_call
  give_up-SoundSystem id reply sys bad v = by_caller (look id sys.callers) refl
    where
      by_caller :
          (o : Option Caller) → look id sys.callers ≡ o → SoundSystem (give_up id reply o sys)
      by_caller none h = v
      by_caller (some (proposed i t)) h = v
      by_caller (some (waiting i t)) h =
          finish_call-Sound P sys.server.waiters sys.server.channels sys.callers id i t reply h
            (λ ok. absurd (bad ok)) v
      by_caller (some (replied i t r)) h = v
      by_caller (some (turned_away r)) h = v
      by_caller (some crashed) h = v
