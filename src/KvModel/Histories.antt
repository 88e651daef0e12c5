-- ===== src/KvModel/Histories.antt =====
-- The partition of a history by key, of linearizability/model.go: one part for each key, which the
-- checker then looks at alone.
use distkv.Prelude.{ℕ, ◌≡◌, refl, ap, ◌∙◌, Option, none, some, List, [], ◌∷◌, map}
use distkv.Codec.{Bytes}
use distkv.IdMap.{look, put}
use distkv.KvModel.{KvInput, KvOutput}
use distkv.KvModel.Groups.{
  has, sort_strings, members, append_to, keys, belonging, names, collect, members-collect,
  has-collect, collect-Distinct, Distinct, Ascending, has-sort_strings, sort_strings-Ascending,
}

-- porcupine's Operation and Event, of which the source reads the input and the pairing of calls and
-- returns.
pub record Operation : Type 0 where
  pub client_id : ℕ
  pub input : KvInput
  pub call : ℕ
  pub output : KvOutput
  pub return_time : ℕ

pub data HistoryEvent : Type 0 where
  call_event : ℕ → KvInput → HistoryEvent
  return_event : ℕ → KvOutput → HistoryEvent

unfoldable pub parts : {A : Type 0} → List (Bytes × List A) → List Bytes → List (List A)
parts m [] = []
parts m (k ∷ ks) = members k m ∷ parts m ks

-- The first loop of Partition.
unfoldable pub collect_operations :
    List Operation → List (Bytes × List Operation) → List (Bytes × List Operation)
unfolding append_to
collect_operations [] m = m
collect_operations (op ∷ history) m = collect_operations history (append_to op.input.key op m)

unfoldable pub partition_history : List Operation → List (List Operation)
unfolding collect_operations parts sort_strings keys
partition_history history = let m = collect_operations history [] in parts m (sort_strings (keys m))

-- `match[id]`: a missing id gives the empty key.
abbrev pub key_or_empty : Option Bytes → Bytes
key_or_empty none = []
key_or_empty (some k) = k

-- The loop of PartitionEvent, with `m` and `match`.
unfoldable pub collect_events :
    List HistoryEvent
    → List (Bytes × List HistoryEvent)
    → List (ℕ × Bytes)
    → List (Bytes × List HistoryEvent)
unfolding append_to
collect_events [] m matches = m
collect_events (call_event id input ∷ history) m matches =
    collect_events history (append_to input.key (call_event id input) m) (put id input.key matches)
collect_events (return_event id output ∷ history) m matches =
    collect_events history (append_to (key_or_empty (look id matches)) (return_event id output) m)
      matches

-- The source goes through the map in no particular order: here in that of the first events.
unfoldable pub partition_event : List HistoryEvent → List (List HistoryEvent)
unfolding collect_events parts keys
partition_event history = let m = collect_events history [] [] in parts m (keys m)

-- Each operation with its key.
abbrev pub tag_operations : List Operation → List (Bytes × Operation)
tag_operations [] = []
tag_operations (op ∷ history) = (op.input.key, op) ∷ tag_operations history

-- Each event with the key of its call: a return is that of the last call with its id before it.
abbrev pub tag_events : List HistoryEvent → List (ℕ × Bytes) → List (Bytes × HistoryEvent)
tag_events [] matches = []
tag_events (call_event id input ∷ history) matches =
    (input.key, call_event id input) ∷ tag_events history (put id input.key matches)
tag_events (return_event id output ∷ history) matches =
    (key_or_empty (look id matches), return_event id output) ∷ tag_events history matches

collect_operations-tags :
    (history : List Operation) (m : List (Bytes × List Operation))
    → collect_operations history m ≡ collect (tag_operations history) m
unfolding collect_operations collect
collect_operations-tags [] m = refl
collect_operations-tags (op ∷ history) m =
    collect_operations-tags history (append_to op.input.key op m)

collect_events-tags :
    (history : List HistoryEvent) (m : List (Bytes × List HistoryEvent))
    (matches : List (ℕ × Bytes))
    → collect_events history m matches ≡ collect (tag_events history matches) m
unfolding collect_events collect
collect_events-tags [] m matches = refl
collect_events-tags (call_event id input ∷ history) m matches =
    collect_events-tags history (append_to input.key (call_event id input) m)
      (put id input.key matches)
collect_events-tags (return_event id output ∷ history) m matches =
    collect_events-tags history
      (append_to (key_or_empty (look id matches)) (return_event id output) m) matches

parts-belonging :
    {A : Type 0} (ps : List (Bytes × A)) (ks : List Bytes)
    → parts (collect ps []) ks ≡ map (λ k. belonging k ps) ks
unfolding parts members
parts-belonging ps [] = refl
parts-belonging ps (k ∷ ks) = cong_cons (members-collect ps [] k) (parts-belonging ps ks)
  where
    cong_cons : {B : Type 0} {x y : B} {xs ys : List B} → x ≡ y → xs ≡ ys → (x ∷ xs) ≡ (y ∷ ys)
    cong_cons e f = cc (e, f)

-- Partition gives one part for each key of the history, in the order of the keys, and the part of a
-- key has exactly the operations on it, in the order of the history: none is lost, doubled or moved.
pub partition_history-belonging :
    (history : List Operation)
    → (ks : List Bytes) × (partition_history history
        ≡ map (λ k. belonging k (tag_operations history)) ks)
      × Ascending ks
      × ((k : Bytes) → has k ks ≡ names k (tag_operations history))
unfolding partition_history has keys
partition_history-belonging history =
    let m = collect_operations history [] in
    let ps = tag_operations history in
    let same_map : m ≡ collect ps [] = collect_operations-tags history [] in
    (
      sort_strings (keys m),
      ap (λ x. parts x (sort_strings (keys m))) same_map
          ∙ parts-belonging ps (sort_strings (keys m)),
      sort_strings-Ascending (keys m) (rw same_map (collect-Distinct ps [] tt)),
      λ k. has-sort_strings (keys m) k ∙ ap (λ x. has k (keys x)) same_map ∙ has-collect ps [] k,
    )

-- PartitionEvent gives one part for each key, and the part of a key has exactly the calls on it and
-- the returns of those calls, in the order of the history. A return belongs to the last call with
-- its id before it.
pub partition_event-belonging :
    (history : List HistoryEvent)
    → (ks : List Bytes) × (partition_event history
        ≡ map (λ k. belonging k (tag_events history [])) ks)
      × Distinct ks
      × ((k : Bytes) → has k ks ≡ names k (tag_events history []))
unfolding partition_event has keys
partition_event-belonging history =
    let m = collect_events history [] [] in
    let ps = tag_events history [] in
    let same_map : m ≡ collect ps [] = collect_events-tags history [] [] in
    (
      keys m,
      ap (λ x. parts x (keys m)) same_map ∙ parts-belonging ps (keys m),
      rw same_map (collect-Distinct ps [] tt),
      λ k. ap (λ x. has k (keys x)) same_map ∙ has-collect ps [] k,
    )
