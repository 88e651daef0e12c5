-- ===== src/DiskStorage/Backed.antt =====
-- The log file of raft/storage.go against the memory: replaying it gives the memory back.
use distkv.Prelude.{
  ℕ, ◌≡◌, ◌∙◌, refl, sym, ap, false, List, [], ◌∷◌, ◌++◌, arith, length, append-nil, append_assoc,
  All, All-append,
}
use distkv.Codec.{Bytes}
use distkv.Wal.{
  open_wal, frame, Outcome, done, bind_congr, bind_assoc, ◌>>=◌, replay_wal, fold_records, frames,
}
use distkv.Wal.Frames.{Fits}
use distkv.Wal.Recovery.{frames-append, replay_wal-frames, length-frames, next_record-nil}
use distkv.Wal.Crash.{frames_one}
use mathlib.Core.Path.{subst}
use distkv.DiskStorage.{DiskStorage, EntryProto}
use distkv.DiskStorage.Restart.{Files, fresh, load_snapshot, replay_record, open_disk_storage}

-- The memory without the handle of the log.
abbrev pub mirror : DiskStorage → DiskStorage
mirror s = record s { wal = open_wal [] 0; dirty = false }

abbrev pub files_of : DiskStorage → Bytes → Files
files_of m file = record {
  raft_wal = file;
  snapshot_bin = m.bin_file;
  snapshot_meta = m.meta_file;
  snapshot_conf = m.conf_file;
}

abbrev pub SameFiles : DiskStorage → DiskStorage → Type 0
SameFiles m m' =
    (m.bin_file ≡ m'.bin_file) × (m.meta_file ≡ m'.meta_file) × (m.conf_file ≡ m'.conf_file)

fold_records-append {ℓ} :
    {S : Type ℓ} (fn : S → Bytes → Outcome S) (ps qs : List Bytes) (s : S)
    → fold_records fn (ps ++ qs) s ≡ (fold_records fn ps s >>= λ s'. fold_records fn qs s')
unfolding fold_records
fold_records-append fn [] qs s = refl
fold_records-append fn (p ∷ ps) qs s =
    bind_congr (fn s p) (fold_records fn (ps ++ qs))
      (λ s'. fold_records fn ps s' >>= λ t. fold_records fn qs t) (fold_records-append fn ps qs)
    ∙ sym (bind_assoc (fn s p) (fold_records fn ps) (fold_records fn qs))

fold_records-snoc {ℓ} :
    {S : Type ℓ} (fn : S → Bytes → Outcome S) (ps : List Bytes) (p : Bytes) (s t u : S)
    → fold_records fn ps s ≡ done t
    → fn t p ≡ done u
    → fold_records fn (ps ++ p ∷ []) s ≡ done u
fold_records-snoc fn ps p s t u e f =
    fold_records-append fn ps (p ∷ []) s ∙ rw e (unfold fold_records in rw f)

same_files :
    (m m' : DiskStorage) (file : Bytes) → SameFiles m m' → files_of m file ≡ files_of m' file
same_files m m' file h = ground arith

load_any_log :
    (m : DiskStorage) (file : Bytes) (bootstrap : List ℕ)
    → load_snapshot (files_of m file) (fresh (files_of m file) bootstrap)
      ≡ load_snapshot (files_of m []) (fresh (files_of m []) bootstrap)
unfolding load_snapshot fresh
load_any_log m file bootstrap = refl

frames-eq-nil : (ps : List Bytes) → [] ≡ frames ps → ps ≡ []
frames-eq-nil [] e = refl
frames-eq-nil (p ∷ ps) e = absurd (omega (arith, length-frames (p ∷ ps), ap length e))

-- What the file holds: `synced` and `pending` are whole records, which replay to the memory `m`
-- from the snapshot's files.
module _ (proto : EntryProto) (bootstrap : List ℕ) where
  pub record Backed (synced pending : Bytes) (m : DiskStorage) : Type 0 where
    pub durable : List Bytes
    pub buffered : List Bytes
    pub on_disk : synced ≡ frames durable
    pub waiting : pending ≡ frames buffered
    pub durable_fit : All Fits durable
    pub buffered_fit : All Fits buffered
    pub base : DiskStorage
    pub loaded : load_snapshot (files_of m []) (fresh (files_of m []) bootstrap) ≡ done base
    pub replays : fold_records (replay_record proto) (durable ++ buffered) base ≡ done m

  -- One more record, written behind the others.
  pub push :
      (synced pending : Bytes) (m m' : DiskStorage) (p : Bytes)
      → Fits p
      → replay_record proto m p ≡ done m'
      → SameFiles m m'
      → Backed synced pending m
      → Backed synced (pending ++ frame p) m'
  push synced pending m m' p f step same b = record {
    durable = b.durable;
    buffered = b.buffered ++ p ∷ [];
    on_disk = b.on_disk;
    waiting =
        ap (λ t. t ++ frame p) b.waiting
        ∙ ap (λ t. frames b.buffered ++ t) (sym (frames_one p))
        ∙ sym (frames-append b.buffered (p ∷ []));
    durable_fit = b.durable_fit;
    buffered_fit = All-append Fits b.buffered (p ∷ []) b.buffered_fit (f, tt);
    base = b.base;
    loaded =
        subst (λ f. load_snapshot f (fresh f bootstrap) ≡ done b.base) (same_files m m' [] same)
          b.loaded;
    replays =
        ap (λ l. fold_records (replay_record proto) l b.base)
          (sym (append_assoc b.durable b.buffered (p ∷ [])))
        ∙ fold_records-snoc (replay_record proto) (b.durable ++ b.buffered) p b.base m m' b.replays
            step;
  }

  -- An fsync moves every record to the disk.
  pub flush :
      (synced pending : Bytes) (m : DiskStorage)
      → Backed synced pending m
      → Backed (synced ++ pending) [] m
  flush synced pending m b = record {
    durable = b.durable ++ b.buffered;
    buffered = [];
    on_disk = cc (b.on_disk, b.waiting, frames-append b.durable b.buffered);
    waiting = unfold frames in refl;
    durable_fit = All-append Fits b.durable b.buffered b.durable_fit b.buffered_fit;
    buffered_fit = tt;
    base = b.base;
    loaded = b.loaded;
    replays = rw append-nil b.replays;
  }

  -- A directory whose log is synced opens as the memory that wrote it.
  pub reopen :
      (synced : Bytes) (m : DiskStorage) (io : ℕ)
      → Backed synced [] m
      → open_disk_storage proto (files_of m synced) bootstrap io
        ≡ done (record m { wal = open_wal synced io })
  unfolding open_disk_storage
  reopen synced m io b = rw (load_any_log m synced bootstrap ∙ b.loaded) (rw replayed)
    where
      file : synced ≡ frames b.durable ++ []
      file = b.on_disk ∙ sym (append-nil (frames b.durable))

      records : b.durable ++ b.buffered ≡ b.durable
      records = ap (λ t. b.durable ++ t) (frames-eq-nil b.buffered b.waiting) ∙ append-nil b.durable

      replayed : replay_wal (replay_record proto) synced b.base ≡ done m
      replayed =
          ap (λ f. replay_wal (replay_record proto) f b.base) file
          ∙ replay_wal-frames (replay_record proto) b.durable [] b.base b.durable_fit
              next_record-nil
          ∙ ap (λ l. fold_records (replay_record proto) l b.base) (sym records)
          ∙ b.replays
