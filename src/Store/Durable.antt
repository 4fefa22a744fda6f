-- ===== src/Store/Durable.antt =====
-- crates/toroidal-store/store.rs: a write that was acknowledged is in the log, and the replay of the
-- log is the active table.
use toroidal_db.Base.{
  ℕ, ◌≡◌, ◌<◌, refl, sym, ap, subst, ◌∙◌, List, [], ◌∷◌, ◌++◌, append-nil, Result, ok, ◌>>=◌,
  Result-cases, inl, inr,
}
use toroidal_db.Base.Bytes.{Bytes, u32_mod}
use toroidal_db.Wal.Frame.{WalFrameKind, WalFrame, standalone}
use toroidal_db.Wal.Read.{replay, replay_kind, replay_op}
use toroidal_db.Wal.Stream.{replay_frames}
use toroidal_db.Wal.Append.{IsLog, Extends-IsLog, op_frames}
use toroidal_db.Wal.Group.{append_one-Extends}
use toroidal_db.Wal.Crash.{settled, replay_frames-append}
use toroidal_db.Wal.Recovery.{replay-Frames}
use toroidal_db.Wal.Crash.{read_next_frame-nil}
use toroidal_db.MemTable.{MemTable, new}
use toroidal_db.Recovery.{insert_frame, insert_frames, replay_into_memtable}
use toroidal_db.Store.{FailurePoint, ToroidalStore, apply_op, put, delete}
use toroidal_db.Store.Reads.{Operation, Written, put-Written, delete-Written}

apply_op-insert_frame :
    (m : MemTable) (kind : WalFrameKind) (seq : ℕ)
    → Operation kind
    → insert_frame m kind seq ≡ apply_op m kind seq
unfolding insert_frame apply_op
apply_op-insert_frame m (WalFrameKind.begin b) seq h = elim h [ ]
apply_op-insert_frame m (WalFrameKind.put key value) seq h = refl
apply_op-insert_frame m (WalFrameKind.delete key) seq h = refl
apply_op-insert_frame m (WalFrameKind.commit b) seq h = elim h [ ]

insert_frames-append :
    (m : MemTable) (fs gs : List WalFrame)
    → insert_frames m (fs ++ gs) ≡ (do n ← insert_frames m fs; insert_frames n gs)
unfolding insert_frames
insert_frames-append m [] gs = refl
insert_frames-append m (f ∷ fs) gs = elim (Result-cases (insert_frame m f.kind f.sequence)) [
  | inl (n, q) ↦ rw q (insert_frames-append n fs gs)
  | inr (e, q) ↦ rw q refl
]

insert_frames_one :
    (m m' : MemTable) (kind : WalFrameKind) (seq bid : ℕ)
    → Operation kind
    → apply_op m kind seq ≡ ok m'
    → insert_frames m (op_frames seq bid (kind ∷ [])) ≡ ok m'
unfolding insert_frames op_frames
insert_frames_one m m' kind seq bid h e = rw (apply_op-insert_frame m kind seq h, e) refl

replay_frames_one :
    (c : List WalFrame) (kind : WalFrameKind) (seq : ℕ)
    → Operation kind
    → replay_frames (op_frames seq standalone (kind ∷ [])) (settled c)
      ≡ ok (settled (c ++ op_frames seq standalone (kind ∷ [])))
unfolding replay_frames replay_kind replay_op op_frames
replay_frames_one c (WalFrameKind.begin b) seq h = elim h [ ]
replay_frames_one c (WalFrameKind.put key value) seq h = refl
replay_frames_one c (WalFrameKind.delete key) seq h = refl
replay_frames_one c (WalFrameKind.commit b) seq h = elim h [ ]

module _ (crc32 : Bytes → ℕ) where
  -- The log of the store holds the active table: its committed frames, inserted into a fresh table,
  -- give it.
  pub record Durable (s : ToroidalStore) : Type 0 where
    pub frames : List WalFrame
    pub committed : List WalFrame
    pub is_log : IsLog crc32 s.wal frames
    pub replayed : replay_frames frames (settled []) ≡ ok (settled committed)
    pub inserted : insert_frames new committed ≡ ok s.active

  module _ (crc32_fits : (b : Bytes) → crc32 b < u32_mod) where
    Durable-replay :
        (s : ToroidalStore) → Durable s → replay_into_memtable crc32 s.wal ≡ ok s.active
    unfolding replay_into_memtable
    Durable-replay s d = rw (read, d.inserted) refl
      where
        read : replay crc32 s.wal.file ≡ ok d.committed
        read =
            ap (replay crc32) (d.is_log.file_lem ∙ sym (append-nil _))
            ∙ replay-Frames crc32 crc32_fits d.is_log.frames d.frames [] d.is_log.stands
                (inl (read_next_frame-nil crc32 crc32_fits))
            ∙ ap (λ r. r >>= λ t. ok t.committed) d.replayed

    module _ (check : FailurePoint → Result (Unit {0})) where
      Written-Durable :
          (s s' : ToroidalStore) (kind : WalFrameKind)
          → Operation kind
          → Durable s
          → Written crc32 check s kind s'
          → Durable s'
      Written-Durable s s' kind op d w =
          let next = s.wal.next_sequence in
          let fs = op_frames next standalone (kind ∷ []) in
          let (first, x) = append_one-Extends crc32 s.wal kind w.appended d.is_log.fits in
          subst Durable (sym w.after) (record {
            frames = d.frames ++ fs;
            committed = d.committed ++ fs;
            is_log = Extends-IsLog crc32 s.wal w.wal_after d.frames fs d.is_log x;
            replayed =
                replay_frames-append d.frames fs (settled [])
                ∙ ap (λ r. r >>= replay_frames fs) d.replayed
                ∙ replay_frames_one d.committed kind next op;
            inserted =
                insert_frames-append new d.committed fs
                ∙ ap (λ r. r >>= λ m. insert_frames m fs) d.inserted
                ∙ insert_frames_one s.active w.mem_after kind next standalone op
                    (ap (apply_op s.active kind) (sym first) ∙ w.applied);
          })

      -- A successful put keeps the store durable, and then the recovery of its log gives back the
      -- active table, with the put.
      pub put-Durable :
          (s s' : ToroidalStore) (key value : Bytes)
          → Durable s
          → put crc32 check s key value ≡ (ok tt, s')
          → Durable s' × (replay_into_memtable crc32 s'.wal ≡ ok s'.active)
      put-Durable s s' key value d e =
          let d' =
            Written-Durable s s' (WalFrameKind.put key value) tt d
              (put-Written crc32 check s s' key value e) in
          (d', Durable-replay s' d')

      -- The same of a successful delete.
      pub delete-Durable :
          (s s' : ToroidalStore) (key : Bytes)
          → Durable s
          → delete crc32 check s key ≡ (ok tt, s')
          → Durable s' × (replay_into_memtable crc32 s'.wal ≡ ok s'.active)
      delete-Durable s s' key d e =
          let d' =
            Written-Durable s s' (WalFrameKind.delete key) tt d
              (delete-Written crc32 check s s' key e) in
          (d', Durable-replay s' d')
