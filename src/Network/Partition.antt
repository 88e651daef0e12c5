-- ===== src/Network/Partition.antt =====
-- Partitions of harness/network.go: which links they cut, and what crosses them.
use distkv.Prelude.{
  ℕ, suc, ◌≤◌, ◌≡◌, refl, sym, ap, ◌∙◌, Bool, true, false, none, some, List, [], ◌∷◌, ◌++◌, ◌||◌,
  arith, ◌==◌, if◌then◌else◌, not, ◌&&◌, Bool-cases, Option-cases, ◌⊎◌, inl, inr, ==_iff,
}
use distkv.IdSet.{contains}
use distkv.ConfState.{Map, read, write}
use distkv.Node.{Node}
use distkv.Network.{
  SimNetwork, Draws, no_links, number_group, number_groups, all_ids, cut_from, cut_pairs, partition,
  route, exchange, set_node,
}

contains-append : (xs ys : List ℕ) (a : ℕ) → contains (xs ++ ys) a ≡ contains xs a || contains ys a
unfolding contains
contains-append [] ys a = refl
contains-append (x ∷ xs) ys a = ground (arith, contains-append xs ys a)

-- Two different servers of the list with different numbers.
abbrev differ : Map → ℕ → ℕ → Bool
differ group a b = not (a == b) && not (read group a == read group b)

cut_from-links :
    (group : Map) (a : ℕ) (bs : List ℕ) (links : ℕ → ℕ → Bool) (x y : ℕ)
    → cut_from group a bs links x y
      ≡ (if (a == x) && (contains bs y && differ group a y) then true else links x y)
unfolding cut_from contains
cut_from-links group a [] links x y = ground arith
cut_from-links group a (b ∷ bs) links x y =
    let cut : ℕ → ℕ → Bool = λ v w. if (a == v) && (b == w) then true else links v w in
    elim (Bool-cases (differ group a b)) [
      | inl t ↦ rw t (ground (arith, cut_from-links group a bs cut x y, ==_iff a x, ==_iff b y))
      | inr f ↦ rw f (ground (arith, cut_from-links group a bs links x y, ==_iff a x, ==_iff b y))
    ]

cut_pairs-links :
    (group : Map) (ids bs : List ℕ) (links : ℕ → ℕ → Bool) (x y : ℕ)
    → cut_pairs group ids bs links x y
      ≡ (if contains ids x && (contains bs y && differ group x y) then true else links x y)
unfolding cut_pairs contains
cut_pairs-links group [] bs links x y = ground arith
cut_pairs-links group (a ∷ ids) bs links x y = ground (
  arith,
  cut_pairs-links group ids bs (cut_from group a bs links) x y,
  cut_from-links group a bs links x y,
  ==_iff a x,
)

-- Whether some group names the server.
abbrev pub named : List (List ℕ) → ℕ → Bool
named [] a = false
named (g ∷ gs) a = contains g a || named gs a

-- Whether the last group that names one of the two names both. Where no server is in two groups,
-- that is whether one group names both.
abbrev pub together : List (List ℕ) → ℕ → ℕ → Bool
together [] a b = false
together (g ∷ gs) a b =
    let later = together gs a b in
    if named gs a || named gs b then later else contains g a && contains g b

-- Whether a partition separates two servers: its groups name both, and not together.
abbrev pub apart : List (List ℕ) → ℕ → ℕ → Bool
apart groups a b = named groups a && (named groups b && not (together groups a b))

all_ids-named : (groups : List (List ℕ)) (a : ℕ) → contains (all_ids groups) a ≡ named groups a
unfolding all_ids contains
all_ids-named [] a = refl
all_ids-named (g ∷ gs) a =
    contains-append g (all_ids gs) a ∙ ap (λ t. contains g a || t) (all_ids-named gs a)

either_way : (t : Bool) (n : ℕ) → (if t then n else n) ≡ n
either_way true n = refl
either_way false n = refl

written_read : (id a gi : ℕ) (group : Map) → (id == a) ≡ true → read (write group id gi) a ≡ gi
written_read id a gi group h =
    let e : write group id gi a ≡ some gi = rw h refl in ap (λ o. read (λ x. o) 0) e

kept_read :
    (id a gi : ℕ) (group : Map) → (id == a) ≡ false → read (write group id gi) a ≡ read group a
kept_read id a gi group h =
    let e : write group id gi a ≡ group a = rw h refl in ap (λ o. read (λ x. o) 0) e

number_group-read :
    (gi : ℕ) (g : List ℕ) (group : Map) (a : ℕ)
    → read (number_group gi g group) a ≡ (if contains g a then gi else read group a)
unfolding number_group contains
number_group-read gi [] group a = refl
number_group-read gi (id ∷ ids) group a =
    number_group-read gi ids (write group id gi) a ∙ elim (Bool-cases (id == a)) [
      | inl here ↦
          ap (λ t. if contains ids a then gi else t) (written_read id a gi group here)
          ∙ either_way (contains ids a) gi
          ∙ rw here refl
      | inr other ↦
          ap (λ t. if contains ids a then gi else t) (kept_read id a gi group other) ∙ rw other refl
    ]

-- A server that no group names keeps its number; another gets one of the groups' numbers.
number_groups-unnamed :
    (gi : ℕ) (groups : List (List ℕ)) (group : Map) (a : ℕ)
    → named groups a ≡ false
    → read (number_groups gi groups group) a ≡ read group a
unfolding number_groups
number_groups-unnamed gi [] group a h = refl
number_groups-unnamed gi (g ∷ gs) group a h =
    let out : contains g a ≡ false = ground (arith, h) in
    let later : named gs a ≡ false = ground (arith, h) in
    number_groups-unnamed (suc gi) gs (number_group gi g group) a later
    ∙ number_group-read gi g group a
    ∙ rw out refl

number_groups-named :
    (gi : ℕ) (groups : List (List ℕ)) (group : Map) (a : ℕ)
    → named groups a ≡ true
    → gi ≤ read (number_groups gi groups group) a
unfolding number_groups
number_groups-named gi [] group a h = absurd (cc h)
number_groups-named gi (g ∷ gs) group a h = elim (Bool-cases (named gs a)) [
  | inl later ↦ omega (arith, number_groups-named (suc gi) gs (number_group gi g group) a later)
  | inr last ↦
      let here : contains g a ≡ true = ground (arith, h, last) in
      let number : read (number_groups (suc gi) gs (number_group gi g group)) a ≡ gi =
        number_groups-unnamed (suc gi) gs (number_group gi g group) a last
        ∙ number_group-read gi g group a
        ∙ rw here refl in
      omega (arith, number)
]

together-named :
    (groups : List (List ℕ)) (a b : ℕ)
    → together groups a b ≡ true
    → (named groups a ≡ true) × (named groups b ≡ true)
together-named [] a b h = absurd (cc h)
together-named (g ∷ gs) a b h = elim (Bool-cases (named gs a || named gs b)) [
  | inl later ↦
      let below : together gs a b ≡ true = ground (arith, h, later) in
      let (at_a, at_b) = together-named gs a b below in (ground (arith, at_a), ground (arith, at_b))
  | inr last ↦ (ground (arith, h, last), ground (arith, h, last))
]

not_together :
    (groups : List (List ℕ)) (a b : ℕ)
    → (named groups a ≡ false) ⊎ (named groups b ≡ false)
    → together groups a b ≡ false
not_together groups a b h = elim (Bool-cases (together groups a b)) [
  | inl t ↦ absurd (elim h [
    | inl out ↦ cc (out, (together-named groups a b t).0)
    | inr out ↦ cc (out, (together-named groups a b t).1)
  ])
  | inr f ↦ f
]

-- Two named servers have one number exactly if they are together.
number_groups-together :
    (gi : ℕ) (groups : List (List ℕ)) (group : Map) (a b : ℕ)
    → named groups a ≡ true
    → named groups b ≡ true
    → (read (number_groups gi groups group) a == read (number_groups gi groups group) b)
      ≡ together groups a b
unfolding number_groups
number_groups-together gi [] group a b h h' = absurd (cc h)
number_groups-together gi (g ∷ gs) group a b h h' = elim (Bool-cases (named gs a)) [
  | inl later_a ↦ elim (Bool-cases (named gs b)) [
    | inl later_b ↦
        number_groups-together (suc gi) gs group1 a b later_a later_b ∙ ground (arith, later_a)
    | inr last_b ↦
        let above = number_groups-named (suc gi) gs group1 a later_a in
        let own = last_number b last_b h' in
        let apart = not_together gs a b (inr last_b) in
        ground (arith, above, own, apart, later_a, ==_iff (number a) (number b))
  ]
  | inr last_a ↦ elim (Bool-cases (named gs b)) [
    | inl later_b ↦
        let above = number_groups-named (suc gi) gs group1 b later_b in
        let own = last_number a last_a h in
        let apart = not_together gs a b (inl last_a) in
        ground (arith, above, own, apart, later_b, ==_iff (number a) (number b))
    | inr last_b ↦
        let one = last_number a last_a h in
        let two = last_number b last_b h' in
        ground (arith, one, two, h, h', last_a, last_b, ==_iff (number a) (number b))
  ]
]
  where
    group1 : Map
    group1 = number_group gi g group

    number : ℕ → ℕ
    number x = read (number_groups (suc gi) gs group1) x

    last_number : (x : ℕ) → named gs x ≡ false → named (g ∷ gs) x ≡ true → number x ≡ gi
    last_number x out within =
        let here : contains g x ≡ true = ground (arith, within, out) in
        number_groups-unnamed (suc gi) gs group1 x out
        ∙ number_group-read gi g group x
        ∙ rw here refl

self_together :
    (groups : List (List ℕ)) (a : ℕ) → named groups a ≡ true → together groups a a ≡ true
self_together [] a h = absurd (cc h)
self_together (g ∷ gs) a h = elim (Bool-cases (named gs a)) [
  | inl later ↦ ground (arith, later, self_together gs a later)
  | inr last ↦ ground (arith, h, last)
]

partition_cuts :
    (groups : List (List ℕ)) (s : SimNetwork) (a b : ℕ)
    → (partition groups s).cut_links a b ≡ apart groups a b
unfolding partition
partition_cuts groups s a b = elim (Bool-cases (named groups a && named groups b)) [
  | inl both ↦
      let one : named groups a ≡ true = ground (arith, both) in
      let two : named groups b ≡ true = ground (arith, both) in
      let same_group = number_groups-together 0 groups (λ _. none) a b one two in
      let own : a ≡ b → together groups a b ≡ true = λ e. rw (sym e) (self_together groups a one) in
      links ∙ ground (arith, one, two, same_group, own, ==_iff a b)
  | inr missing ↦ links ∙ ground (arith, missing)
]
  where
    links : (partition groups s).cut_links a b ≡ (
        if named groups a && (named groups b && differ (number_groups 0 groups (λ _. none)) a b)
        then true
        else false)
    links =
        cut_pairs-links (number_groups 0 groups (λ _. none)) (all_ids groups) (all_ids groups)
          no_links a b
        ∙ rw (all_ids-named groups a, all_ids-named groups b) refl

together_symmetric : (groups : List (List ℕ)) (a b : ℕ) → together groups a b ≡ together groups b a
together_symmetric [] a b = refl
together_symmetric (g ∷ gs) a b = ground (arith, together_symmetric gs a b)

apart_symmetric : (groups : List (List ℕ)) (a b : ℕ) → apart groups a b ≡ apart groups b a
apart_symmetric groups a b = ground (arith, together_symmetric groups a b)

route_cut :
    (d : Draws) (from to : ℕ) (s : SimNetwork)
    → s.cut_links from to ≡ true
    → route d from to s ≡ none
unfolding route
route_cut d from to s h = ground arith

-- A link that is not cut is routed as in a network without cut links.
route_uncut :
    (d : Draws) (from to : ℕ) (s : SimNetwork)
    → s.cut_links from to ≡ false
    → route d from to s ≡ route d from to (record s { cut_links = no_links })
unfolding route
route_uncut d from to s h = rw h refl

-- The three ways through an exchange.
module _ {ℓ} {R : Type ℓ} (handle : Node → Node × R) (there back : Draws) (from peer : ℕ) where
  exchange_lost :
      (s : SimNetwork)
      → route there from peer s ≡ none
      → exchange handle there back from peer s ≡ (s, none)
  unfolding exchange
  exchange_lost s e = rw (e, exchange) refl

  exchange_silent :
      (s : SimNetwork) (n : Node) (d : ℕ)
      → route there from peer s ≡ some (n, d)
      → route back peer from (set_node peer (some (handle n).0) s) ≡ none
      → exchange handle there back from peer s ≡ (set_node peer (some (handle n).0) s, none)
  unfolding exchange
  exchange_silent s n d e f = rw (e, exchange) (rw f refl)

  exchange_heard :
      (s : SimNetwork) (n : Node) (d : ℕ) (r : Node × ℕ)
      → route there from peer s ≡ some (n, d)
      → route back peer from (set_node peer (some (handle n).0) s) ≡ some r
      → exchange handle there back from peer s
        ≡ (set_node peer (some (handle n).0) s, some (handle n).1)
  unfolding exchange
  exchange_heard s n d r e f = rw (e, exchange) (rw f refl)

  exchange_uncut :
      (s : SimNetwork)
      → s.cut_links from peer ≡ false
      → s.cut_links peer from ≡ false
      → (exchange handle there back from peer s).1
        ≡ (exchange handle there back from peer (record s { cut_links = no_links })).1
  exchange_uncut s h h' =
      let s0 : SimNetwork = record s { cut_links = no_links } in
      let same : route there from peer s ≡ route there from peer s0 =
        route_uncut there from peer s h in
      elim (Option-cases (route there from peer s)) [
        | inl lost ↦
            ap (λ t. t.1) (exchange_lost s lost)
            ∙ sym (ap (λ t. t.1) (exchange_lost s0 (sym same ∙ lost)))
        | inr ((n, d), found) ↦
            let s1 : SimNetwork = set_node peer (some (handle n).0) s in
            let same' : route back peer from s1
                ≡ route back peer from (record s1 { cut_links = no_links }) =
              route_uncut back peer from s1 h' in
            elim (Option-cases (route back peer from s1)) [
              | inl lost ↦
                  ap (λ t. t.1) (exchange_silent s n d found lost)
                  ∙ sym
                      (ap (λ t. t.1) (exchange_silent s0 n d (sym same ∙ found) (sym same' ∙ lost)))
              | inr (r, heard) ↦
                  ap (λ t. t.1) (exchange_heard s n d r found heard)
                  ∙ sym (
                      ap (λ t. t.1)
                        (exchange_heard s0 n d r (sym same ∙ found) (sym same' ∙ heard)))
            ]
      ]

-- A partition decides an exchange before any fault does. It separates two servers if its groups name
-- both, and the last group that names one of them does not name the other. Between these, in either
-- direction, no request is handled, no answer comes back, and no node changes. Between two that it
-- does not separate, an exchange has the answer that it has in a network without cut links.
pub partition-exchange {ℓ} :
    {R : Type ℓ} (handle : Node → Node × R) (groups : List (List ℕ)) (there back : Draws) (a b : ℕ)
    (s : SimNetwork)
    → (apart groups a b ≡ true
        → (exchange handle there back a b (partition groups s) ≡ (partition groups s, none))
          × (exchange handle there back b a (partition groups s) ≡ (partition groups s, none)))
      × (apart groups a b ≡ false
          → (exchange handle there back a b (partition groups s)).1
            ≡ (exchange handle there back a b (record s { cut_links = no_links })).1)
partition-exchange handle groups there back a b s = (
  λ h. (
    exchange_lost handle there back a b (partition groups s)
        (route_cut there a b (partition groups s) (partition_cuts groups s a b ∙ h)),
    exchange_lost handle there back b a (partition groups s)
        (route_cut there b a (partition groups s) (crossing ∙ h)),
  ),
  λ h.
      exchange_uncut handle there back a b (partition groups s) (partition_cuts groups s a b ∙ h)
        (crossing ∙ h)
      ∙ ap (λ t. (exchange handle there back a b t).1) whole,
)
  where
    crossing : (partition groups s).cut_links b a ≡ apart groups a b
    crossing = partition_cuts groups s b a ∙ apart_symmetric groups b a

    whole : record (partition groups s) { cut_links = no_links } ≡ record s { cut_links = no_links }
    whole = unfold partition in refl

route-nodes :
    (d : Draws) (from to : ℕ) (s : SimNetwork) (r : Node × ℕ)
    → route d from to s ≡ some r
    → s.nodes to ≡ some r.0
unfolding route
route-nodes d from to s r h = ground arith

-- An exchange is handled at most once: the network is as before and no answer comes, or the
-- target was there, has handled the request once, and the answer, if it comes, is its own. A lost
-- answer does not undo the handling.
pub exchange_once {ℓ} :
    {R : Type ℓ} (handle : Node → Node × R) (there back : Draws) (from peer : ℕ) (s : SimNetwork)
    → (exchange handle there back from peer s ≡ (s, none))
      ⊎ ((n : Node) × (s.nodes peer ≡ some n)
          × ((exchange handle there back from peer s).0 ≡ set_node peer (some (handle n).0) s)
          × (((exchange handle there back from peer s).1 ≡ none)
              ⊎ ((exchange handle there back from peer s).1 ≡ some (handle n).1)))
exchange_once handle there back from peer s = elim (Option-cases (route there from peer s)) [
  | inl lost ↦ inl (exchange_lost handle there back from peer s lost)
  | inr ((n, d), found) ↦
      let here : s.nodes peer ≡ some n = route-nodes there from peer s (n, d) found in
      elim (Option-cases (route back peer from (set_node peer (some (handle n).0) s))) [
        | inl silent ↦
            let e = exchange_silent handle there back from peer s n d found silent in
            inr (n, here, ap (λ t. t.0) e, inl (ap (λ t. t.1) e))
        | inr (r, heard) ↦
            let e = exchange_heard handle there back from peer s n d r found heard in
            inr (n, here, ap (λ t. t.0) e, inr (ap (λ t. t.1) e))
      ]
]
