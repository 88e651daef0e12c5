-- ===== src/Engine/Steps.antt =====
-- The steps that a flush, a compaction and a reset of storage/engine.go are made of: what each
-- leaves alone when it succeeds and when it fails.
use distkv.Prelude.{ℕ, zero, suc, ◌≡◌, refl, ◌∙◌, List, [], ◌∷◌, ◌⊎◌, inl, inr}
use distkv.Wal.{Outcome, done, failed, close}
use distkv.KeyMap.{KvEntry}
use distkv.SsTable.{SsTable}
use distkv.SsTable.Opening.{TableFits, table_of}
use distkv.SsTable.RoundTrip.{open_ss_table-table_file}
use distkv.Engine.{
  Engine, Status, make_table, then_table, remove_tables, new_log, spend, without_file,
}

-- The same buffer and the same tables.
pub record Same (a b : Engine) : Type 0 where
  pub same_mem : b.mem ≡ a.mem
  pub same_tables : b.tables ≡ a.tables

pub Same-refl : (a : Engine) → Same a a
Same-refl a = record { same_mem = refl; same_tables = refl }

pub Same-trans : {a b c : Engine} → Same a b → Same b c → Same a c
Same-trans p q = record {
  same_mem = q.same_mem ∙ p.same_mem;
  same_tables = q.same_tables ∙ p.same_tables;
}

-- Either the write fails, or the table is open.
pub make_table_lem :
    (es : List KvEntry) (en : Engine)
    → TableFits es
    → Same en (make_table es en).0
      × (((make_table es en).1 ≡ failed) ⊎ ((make_table es en).1 ≡ done (table_of en.next_sst es)))
unfolding make_table spend
make_table_lem es en f = by_calls en.wal.io refl
  where
    by_calls :
        (n : ℕ)
        → en.wal.io ≡ n
        → Same en (make_table es en).0
          × (((make_table es en).1 ≡ failed)
              ⊎ ((make_table es en).1 ≡ done (table_of en.next_sst es)))
    by_calls zero h =
        rw (make_table, spend, h) (record { same_mem = refl; same_tables = refl }, inl refl)
    by_calls (suc n) h =
        rw (make_table, spend, h, open_ss_table-table_file en.next_sst es f)
          (record { same_mem = refl; same_tables = refl }, inr refl)

-- Either of the two ways on, for what both preserve.
pub then_table_lem {ℓ} :
    (P : Engine → Type ℓ) (r : Engine × Outcome SsTable) (t : SsTable)
    (rest : SsTable → Engine → Engine × Status)
    → (r.1 ≡ failed) ⊎ (r.1 ≡ done t)
    → P r.0
    → P (rest t r.0).0
    → P (then_table r rest).0
unfolding then_table
then_table_lem P r t rest (inl h) p q = rw (then_table, h) p
then_table_lem P r t rest (inr h) p q = rw (then_table, h) q

pub remove_tables-Same : (ts : List SsTable) (en : Engine) → Same en (remove_tables ts en)
unfolding remove_tables spend
remove_tables-Same [] en = Same-refl en
remove_tables-Same (t ∷ ts) en = by_calls (λ en'. remove_tables-Same ts en') en.wal.io refl
  where
    by_calls :
        ((en' : Engine) → Same en' (remove_tables ts en'))
        → (n : ℕ) → en.wal.io ≡ n
        → Same en (remove_tables (t ∷ ts) en)
    by_calls rest zero h = simp (remove_tables, spend, h) (rest en)
    by_calls rest (suc n) h =
        let en' : Engine = record en {
          wal = record (en.wal) { io = n };
          files = without_file t.seq en.files;
        } in
        rw (remove_tables, spend, h)
          (Same-trans (record { same_mem = refl; same_tables = refl }) (rest en'))

pub new_log-Same : (en : Engine) → Same en (new_log en).0
unfolding new_log close spend
new_log-Same en = by_calls en.wal.io refl
  where
    by_calls : (n : ℕ) → en.wal.io ≡ n → Same en (new_log en).0
    by_calls zero h = rw (new_log, close, h) (record { same_mem = refl; same_tables = refl })
    by_calls (suc zero) h = rw (new_log, close, h) (record { same_mem = refl; same_tables = refl })
    by_calls (suc (suc zero)) h =
        rw (new_log, close, h) (record { same_mem = refl; same_tables = refl })
    by_calls (suc (suc (suc n))) h =
        rw (new_log, close, h) (record { same_mem = refl; same_tables = refl })
