-- ===== src/Programs/MembersCmd.antt =====
-- The members command of cmd/distkv-cli.
use distkv.Prelude.{
  ◌≡◌, ◌≢◌, ◌⊎◌, ◌↔◌, refl, ap, Bool, true, List, [], ◌∷◌, arith, Bool-cases, inl, inr,
}
use distkv.Codec.{Bytes}
use distkv.Text.{same, eq_of_same}
use distkv.Programs.{
  dial_failed, index_panic, list_call, unknown_subcommand, members_cmd, list_word, add_word,
  remove_word, enough_args,
}

module _ (dials : Bytes → Bool) (addr : Bytes) (addrs : List Bytes) where
  panic_alone :
      (word : Bytes)
      → dials addr ≡ true
      → members_cmd dials (addr ∷ addrs) (word ∷ []) ≡ index_panic
      → (word ≡ add_word) ⊎ (word ≡ remove_word)
  unfolding members_cmd enough_args
  panic_alone word up h = elim (Bool-cases (same word list_word)) [
    | inl lists ↦
        let no : list_call ≡ index_panic = rw (members_cmd, up, lists) at h in absurd (cc no)
    | inr not_list ↦ elim (Bool-cases (same word add_word)) [
      | inl adds ↦ inl (eq_of_same word add_word adds)
      | inr not_add ↦ elim (Bool-cases (same word remove_word)) [
        | inl removes ↦ inr (eq_of_same word remove_word removes)
        | inr other ↦
            let no : unknown_subcommand ≡ index_panic =
              rw (members_cmd, up, not_list, not_add, other) at h in
            absurd (cc no)
      ]
    ]
  ]

  no_panic_with_argument :
      (word arg : Bytes) (args : List Bytes)
      → members_cmd dials (addr ∷ addrs) (word ∷ arg ∷ args) ≢ index_panic
  unfolding members_cmd enough_args
  no_panic_with_argument word arg args h = ground (arith, h)

  dialled :
      (word : Bytes) (args : List Bytes)
      → members_cmd dials (addr ∷ addrs) (word ∷ args) ≡ index_panic
      → dials addr ≡ true
  unfolding members_cmd
  dialled word args h = elim (Bool-cases (dials addr)) [
    | inl up ↦ up
    | inr down ↦ let no : dial_failed ≡ index_panic = rw (members_cmd, down) at h in absurd (cc no)
  ]

  -- With an address at least in -cluster, `members` ends in an index out of range exactly if a client
  -- for the first address can be made and the arguments are `add` or `remove` alone, without the
  -- argument that these need.
  pub members_cmd-panic :
      (args : List Bytes)
      → (members_cmd dials (addr ∷ addrs) args ≡ index_panic)
        ↔ ((dials addr ≡ true) × ((args ≡ add_word ∷ []) ⊎ (args ≡ remove_word ∷ [])))
  unfolding members_cmd enough_args same
  members_cmd-panic args = (only args, back)
    where
      only :
          (xs : List Bytes)
          → members_cmd dials (addr ∷ addrs) xs ≡ index_panic
          → (dials addr ≡ true) × ((xs ≡ add_word ∷ []) ⊎ (xs ≡ remove_word ∷ []))
      only [] h = absurd (cc h)
      only (word ∷ []) h =
          let up = dialled word [] h in
          (
            up,
            elim (panic_alone word up h) [
              | inl e ↦ inl (ap (λ w. w ∷ []) e)
              | inr e ↦ inr (ap (λ w. w ∷ []) e)
            ],
          )
      only (word ∷ arg ∷ rest) h = absurd (no_panic_with_argument word arg rest h)

      back :
          (dials addr ≡ true) × ((args ≡ add_word ∷ []) ⊎ (args ≡ remove_word ∷ []))
          → members_cmd dials (addr ∷ addrs) args ≡ index_panic
      back (up, inl e) = rw e (rw up refl)
      back (up, inr e) = rw e (rw up refl)
