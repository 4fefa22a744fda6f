-- ===== src/Segment/File/Blocks.antt =====
-- crates/toroidal-store/segment.rs: how the entries of a segment are divided into blocks, and where the blocks lie.
use toroidal_db.Base.{
  ℕ, suc, ◌+◌, ◌%◌, ◌≡◌, ◌≤◌, ◌<◌, refl, sym, ap, ◌∙◌, List, [], ◌∷◌, ◌++◌, length, ltb, All,
  append_assoc, append-nil, arith, Bool-cases, inl, inr,
}
use toroidal_db.Base.Bytes.{Bytes, u32_mod}
use toroidal_db.Snapshot.{VersionedEntry}
use toroidal_db.MemTable.{Entries}
use toroidal_db.Segment.Block.{encode_block, default_block_size}
use toroidal_db.Segment.Index.{IndexEntry}
use toroidal_db.Segment.File.{
  segment_header_size, total_length, Writer, new_writer, entry_size, push_block, add_entry,
  add_entries,
}

-- The index entries of the blocks that follow each other from an offset on.
pub data Spans : ℕ → List Bytes → List IndexEntry → Type 0 where
  done : {off : ℕ} → Spans off [] []
  span :
      {off : ℕ} {b : Bytes} {bs : List Bytes} {e : IndexEntry} {es : List IndexEntry}
      → e.block_offset ≡ off
      → e.block_size ≡ length b % u32_mod
      → Spans (off + length b) bs es
      → Spans off (b ∷ bs) (e ∷ es)

Spans-push :
    {off : ℕ} {bs : List Bytes} {es : List IndexEntry} (b : Bytes) (e : IndexEntry)
    → Spans off bs es
    → e.block_offset ≡ off + total_length bs
    → e.block_size ≡ length b % u32_mod
    → Spans off (bs ++ (b ∷ [])) (es ++ (e ∷ []))
unfolding total_length
Spans-push b e Spans.done p q = Spans.span (omega arith) q Spans.done
Spans-push b e (Spans.span o s rest) p q = Spans.span o s (Spans-push b e rest (omega arith) q)

pub length-Spans :
    {off : ℕ} {bs : List Bytes} {es : List IndexEntry} → Spans off bs es → length es ≡ length bs
length-Spans Spans.done = refl
length-Spans (Spans.span o s rest) = ap suc (length-Spans rest)

-- An index entry whose block lies between two offsets.
abbrev pub Within : ℕ → ℕ → IndexEntry → Type 0
Within low high e =
    (low ≤ e.block_offset) × (e.block_offset + e.block_size ≤ high) × (e.block_size < u32_mod)

All-Within :
    (low other high : ℕ) (es : List IndexEntry)
    → low ≤ other
    → All (Within other high) es
    → All (Within low high) es
All-Within low other high [] h a = tt
All-Within low other high (e ∷ es) h ((o, s, m), more) =
    ((omega arith, s, m), All-Within low other high es h more)

pub Spans-Within :
    {off : ℕ} (high : ℕ) {bs : List Bytes} {es : List IndexEntry}
    → Spans off bs es
    → off + total_length bs ≤ high
    → All (Within off high) es
unfolding total_length
Spans-Within high Spans.done h = tt
Spans-Within {off} high (Spans.span {b = b} {bs = bs} {e = e} {es = es} o s rest) h = (
  (omega arith, omega arith, omega arith),
  All-Within off (off + length b) high es (omega arith) (Spans-Within high rest (omega arith)),
)

-- The key of the first entry of a group.
abbrev pub head_key : Entries → Bytes
head_key [] = []
head_key ((key, ve) ∷ rest) = key

unfoldable pub flatten : List Entries → Entries
flatten [] = []
flatten (g ∷ gs) = g ++ flatten gs

flatten-push : (gs : List Entries) (g : Entries) → flatten (gs ++ (g ∷ [])) ≡ flatten gs ++ g
unfolding flatten
flatten-push [] g = append-nil g
flatten-push (h ∷ gs) g = ap (λ t. h ++ t) (flatten-push gs g) ∙ sym (append_assoc h (flatten gs) g)

All-push :
    (gs : List Entries) (g : Entries)
    → All (λ x. 0 < length x) gs
    → 0 < length g
    → All (λ x. 0 < length x) (gs ++ (g ∷ []))
All-push [] g h k = (k, tt)
All-push (x ∷ gs) g (h, hs) k = (h, All-push gs g hs k)

module _ (crc32 : Bytes → ℕ) where
  unfoldable pub encode_all : List Entries → List Bytes
  encode_all [] = []
  encode_all (g ∷ gs) = encode_block crc32 g ∷ encode_all gs

  encode_all-push :
      (gs : List Entries) (g : Entries)
      → encode_all (gs ++ (g ∷ [])) ≡ encode_all gs ++ (encode_block crc32 g ∷ [])
  unfolding encode_all
  encode_all-push [] g = refl
  encode_all-push (h ∷ gs) g = ap (◌∷◌ (encode_block crc32 h)) (encode_all-push gs g)

  -- The index entry of a group whose block stands at an offset.
  abbrev pub entry_of : ℕ → Entries → IndexEntry
  entry_of off g = record {
    first_key = head_key g;
    block_offset = off;
    block_size = length (encode_block crc32 g) % u32_mod;
  }

  -- The index of the groups whose blocks follow each other from an offset on.
  unfoldable pub index_of : ℕ → List Entries → List IndexEntry
  index_of off [] = []
  index_of off (g ∷ gs) = entry_of off g ∷ index_of (off + length (encode_block crc32 g)) gs

  index_of-push :
      (off : ℕ) (gs : List Entries) (g : Entries)
      → index_of off (gs ++ (g ∷ []))
        ≡ index_of off gs ++ (entry_of (off + total_length (encode_all gs)) g ∷ [])
  unfolding index_of encode_all total_length
  index_of-push off [] g = ap (λ n. entry_of n g ∷ []) (omega arith)
  index_of-push off (h ∷ gs) g =
      let len = length (encode_block crc32 h) in
      let rest = index_of-push (off + len) gs g in
      ap (◌∷◌ (entry_of off h))
        (rest ∙ ap (λ n. index_of (off + len) gs ++ (entry_of n g ∷ [])) (omega arith))

  -- The writer has divided the entries in order into encoded blocks, which its index lists, and the current block.
  pub record IsDivided (entries : Entries) (w : Writer) : Type 0 where
    pub groups : List Entries
    pub encoded : w.blocks ≡ encode_all groups
    pub whole : flatten groups ++ w.current_block ≡ entries
    pub spans : Spans segment_header_size w.blocks w.block_index
    pub indexed : w.block_index ≡ index_of segment_header_size groups
    pub filled : All (λ g. 0 < length g) groups

  new_writer-IsDivided : IsDivided [] new_writer
  unfolding encode_all flatten index_of
  new_writer-IsDivided = record {
    groups = [];
    encoded = refl;
    whole = refl;
    spans = Spans.done;
    indexed = refl;
    filled = tt;
  }

  pub push_block-IsDivided :
      (entries : Entries) (w : Writer)
      → IsDivided entries w
      → IsDivided entries (push_block crc32 w) × ((push_block crc32 w).current_block ≡ [])
  unfolding push_block
  push_block-IsDivided entries w d = go w.current_block refl
    where
      go :
          (current : Entries)
          → w.current_block ≡ current
          → IsDivided entries (push_block crc32 w) × ((push_block crc32 w).current_block ≡ [])
      go [] e = rw (push_block, e) (d, e)
      go ((key, ve) ∷ rest) e =
          let group = (key, ve) ∷ rest in
          let entry : IndexEntry = record {
            first_key = key;
            block_offset = segment_header_size + total_length w.blocks;
            block_size = length (encode_block crc32 group) % u32_mod;
          } in
          rw (push_block, e)
            (
              record {
                groups = d.groups ++ (group ∷ []);
                encoded =
                    ap (λ t. t ++ (encode_block crc32 group ∷ [])) d.encoded
                    ∙ sym (encode_all-push d.groups group);
                whole =
                    append-nil _
                    ∙ flatten-push d.groups group
                    ∙ ap (λ t. flatten d.groups ++ t) (sym e)
                    ∙ d.whole;
                spans = Spans-push (encode_block crc32 group) entry d.spans refl refl;
                indexed =
                    ap (λ t. t ++ (entry ∷ [])) d.indexed
                    ∙ ap
                        (λ t.
                          index_of segment_header_size d.groups
                          ++ (entry_of (segment_header_size + total_length t) group ∷ []))
                        d.encoded
                    ∙ sym (index_of-push segment_header_size d.groups group);
                filled = All-push d.groups group d.filled (omega arith);
              },
              refl,
            )

  add_entry-IsDivided :
      (entries : Entries) (key : Bytes) (ve : VersionedEntry) (w : Writer)
      → IsDivided entries w
      → IsDivided (entries ++ ((key, ve) ∷ [])) (add_entry crc32 key ve w)
  unfolding add_entry
  add_entry-IsDivided entries key ve w d =
      elim (Bool-cases (ltb default_block_size (w.current_size + entry_size key ve))) [
        | inr room ↦
            rw (add_entry, room)
              (record {
                groups = d.groups;
                encoded = d.encoded;
                whole =
                    sym (append_assoc (flatten d.groups) w.current_block ((key, ve) ∷ []))
                    ∙ ap (λ t. t ++ ((key, ve) ∷ [])) d.whole;
                spans = d.spans;
                indexed = d.indexed;
                filled = d.filled;
              })
        | inl full ↦
            let (v, empty) = push_block-IsDivided entries w d in
            rw (add_entry, full)
              (record {
                groups = v.groups;
                encoded = v.encoded;
                whole =
                    sym (
                      append_assoc (flatten v.groups) (push_block crc32 w).current_block
                        ((key, ve) ∷ []))
                    ∙ ap (λ t. t ++ ((key, ve) ∷ [])) v.whole;
                spans = v.spans;
                indexed = v.indexed;
                filled = v.filled;
              })
      ]

  add_entries-IsDivided :
      (before entries : Entries) (w : Writer)
      → IsDivided before w
      → IsDivided (before ++ entries) (add_entries crc32 entries w)
  unfolding add_entries
  add_entries-IsDivided before [] w d = rw append-nil d
  add_entries-IsDivided before ((key, ve) ∷ rest) w d =
      rw (← append_assoc before ((key, ve) ∷ []) rest) (
        add_entries-IsDivided (before ++ ((key, ve) ∷ [])) rest (add_entry crc32 key ve w)
          (add_entry-IsDivided before key ve w d))

  -- What is written: all entries, in their order, in blocks that the index lists.
  pub all-IsDivided :
      (entries : Entries)
      → IsDivided entries (push_block crc32 (add_entries crc32 entries new_writer))
        × ((push_block crc32 (add_entries crc32 entries new_writer)).current_block ≡ [])
  all-IsDivided entries =
      push_block-IsDivided entries (add_entries crc32 entries new_writer)
        (add_entries-IsDivided [] entries new_writer new_writer-IsDivided)
