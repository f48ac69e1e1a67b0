-- ===== src/Reactor/Order/Fill.antt =====
-- One round of the ordering loops (reactor/lib/checkpoint.c).
use arthas.Prelude.{
  ℕ, zero, suc, ◌+◌, ◌≤◌, ◌<◌, ◌≡◌, refl, pos, some, arith, get_or, set, length, length-set,
  get_elem?-get_or, get_or-set_self, get_or-set_ne, ◌∙◌, ap, List, subst,
}
use native.Mathlib.Decide.{ℕ_discrete}
use arthas.Memory.{Heap}
use arthas.Reactor.Types.{SingleData, CheckpointData, Node, max_versions}
use arthas.Reactor.Order.{store?, copy_old, fill}
use arthas.Reactor.Order.Copies.{
  extent, old_copy, IsShaped, HasSlots, SourcesBelow, Extends, IsCopy, HasCopies, Extends-refl,
  Extends-trans, after_copy, after_copy-Extends, after_copy-IsCopy, IsCopy-Extends, IsCopy-earlier,
}

store?-set : (xs : List ℕ) (i v : ℕ) → i < length xs → store? xs i v ≡ some (set xs i v)
unfolding store?
store?-set xs i v h = ground arith

module _ (c : CheckpointData) (shaped : IsShaped c) where
  -- The structure after a copy at `block` is noted for the version `k`.
  abbrev noted : ℕ → ℕ → SingleData → SingleData
  noted k block d = record d {
    old_data = set d.old_data k block;
    old_size = set d.old_size k (extent c k);
  }

  noted-HasSlots : (k block : ℕ) (d : SingleData) → HasSlots d → HasSlots (noted k block d)
  noted-HasSlots k block d s = record {
    data_slots = rw length-set s.data_slots;
    size_slots = rw length-set s.size_slots;
  }

  copy_old-suc :
      (n k : ℕ) (d : SingleData) (h : Heap)
      → HasSlots d
      → k < max_versions
      → copy_old c (suc n) k d h ≡ copy_old c n (k + 1) (noted k h.brk d) (after_copy c k h)
  unfolding copy_old
  copy_old-suc n k d h s lt = rw (
    get_elem?-get_or c.content k 0 (omega (arith, shaped.content_slots)),
    get_elem?-get_or c.size k 0 (omega (arith, shaped.size_slots)),
    store?-set d.old_data k h.brk (omega (arith, s.data_slots)),
    store?-set d.old_size k (extent c k) (omega (arith, s.size_slots)),
  )

  pub copy_old-HasCopies :
      (n k : ℕ) (d : SingleData) (h : Heap)
      → HasSlots d
      → k + n ≤ max_versions
      → SourcesBelow c (k + n) h.brk
      → (d' : SingleData) × (h' : Heap) × (copy_old c n k d h ≡ some (d', h'))
        × HasCopies c k (k + n) d h d' h'
  unfolding copy_old
  copy_old-HasCopies zero k d h s fits below = (
    d,
    h,
    refl,
    record {
      extends = Extends-refl h;
      shape = s;
      rest = refl;
      before = λ i l. refl;
      before_size = λ i l. refl;
      copied = λ i a b. absurd (omega arith);
      copied_size = λ i a b. absurd (omega arith);
    },
  )
  copy_old-HasCopies (suc n) k d h s fits below =
      let h1 = after_copy c k h in
      let d1 = noted k h.brk d in
      let ext = after_copy-Extends c k h in
      let (d', h', ran, r) =
        copy_old-HasCopies n (k + 1) d1 h1 (noted-HasSlots k h.brk d s) (omega arith)
          (λ i l. omega (arith, below i (omega arith), ext.grows)) in
      (
        d',
        h',
        copy_old-suc n k d h s (omega arith) ∙ ran,
        record {
          extends = Extends-trans h h1 h' ext r.extends;
          shape = r.shape;
          rest = r.rest;
          before =
              λ i l. r.before i (omega arith) ∙ get_or-set_ne d.old_data k i h.brk 0 (omega arith);
          before_size = λ i l.
              r.before_size i (omega arith)
              ∙ get_or-set_ne d.old_size k i (extent c k) 0 (omega arith);
          copied = λ i a b. elim (ℕ_discrete k i) [
            | yes e ↦
                let here =
                  r.before k (omega arith)
                  ∙ get_or-set_self d.old_data k h.brk 0 (omega (arith, s.data_slots)) in
                subst (λ t. IsCopy c h h' t (old_copy d' t)) e
                  (rw here (IsCopy-Extends c h h1 h' k h.brk (after_copy-IsCopy c k h) r.extends))
            | no ne ↦
                IsCopy-earlier c h h1 h' i (old_copy d' i) (below i b) ext
                  (r.copied i (omega arith) (omega arith))
          ];
          copied_size = λ i a b. elim (ℕ_discrete k i) [
            | yes e ↦
                subst (λ t. get_or d'.old_size t 0 ≡ extent c t) e
                  (r.before_size k (omega arith)
                    ∙ get_or-set_self d.old_size k (extent c k) 0 (omega (arith, s.size_slots)))
            | no ne ↦ r.copied_size i (omega arith) (omega arith)
          ];
        },
      )

-- `ordered_data` for the version `j` of a node: the fields, a copy of the bytes, and copies of the
-- older versions.
pub record IsVersion (n : Node) (j : ℕ) (h : Heap) (d : SingleData) (h' : Heap) : Type 0 where
  pub address : d.address ≡ n.c_data.address
  pub offset : d.offset ≡ n.offset
  pub size : d.size ≡ extent n.c_data j
  pub version : d.version ≡ pos j
  pub sequence_number : d.sequence_number ≡ get_or n.c_data.sequence_number j (pos 0)
  pub old_entry : d.old_checkpoint_entry ≡ n.c_data.old_checkpoint_entry
  pub tx_id : d.tx_id ≡ get_or n.c_data.tx_id j (pos 0)
  pub content : IsCopy n.c_data h h' j d.content
  pub shape : HasSlots d
  pub older : (i : ℕ) → i < j → IsCopy n.c_data h h' i (old_copy d i)
  pub older_size : (i : ℕ) → i < j → get_or d.old_size i 0 ≡ extent n.c_data i

module _ (n : Node) (shaped : IsShaped n.c_data) where
  abbrev c : CheckpointData
  c = n.c_data

  -- The structure before the loop over the older versions.
  abbrev header : ℕ → ℕ → SingleData → SingleData
  header j block d = record d {
    address = c.address;
    offset = n.offset;
    content = block;
    size = extent c j;
    version = pos j;
    sequence_number = get_or c.sequence_number j (pos 0);
    old_checkpoint_entry = c.old_checkpoint_entry;
    tx_id = get_or c.tx_id j (pos 0);
  }

  fill-header :
      (j : ℕ) (d : SingleData) (h : Heap)
      → j < max_versions
      → fill n j d h ≡ copy_old c j 0 (header j h.brk d) (after_copy c j h)
  unfolding fill
  fill-header j d h lt = rw (
    get_elem?-get_or c.sequence_number j (pos 0) (omega (arith, shaped.seq_slots)),
    get_elem?-get_or c.content j 0 (omega (arith, shaped.content_slots)),
    get_elem?-get_or c.size j 0 (omega (arith, shaped.size_slots)),
    get_elem?-get_or c.tx_id j (pos 0) (omega (arith, shaped.tx_slots)),
  )

  pub fill-IsVersion :
      (j : ℕ) (d : SingleData) (h : Heap)
      → HasSlots d
      → j < max_versions
      → SourcesBelow c (suc j) h.brk
      → (d' : SingleData) × (h' : Heap) × (fill n j d h ≡ some (d', h'))
        × IsVersion n j h d' h'
        × Extends h h'
  fill-IsVersion j d h s lt below =
      let h1 = after_copy c j h in
      let ext = after_copy-Extends c j h in
      let (d', h', ran, r) =
        copy_old-HasCopies c shaped j 0 (header j h.brk d) h1
          (record { data_slots = s.data_slots; size_slots = s.size_slots }) (omega arith)
          (λ i l. omega (arith, below i (omega arith), ext.grows)) in
      (
        d',
        h',
        fill-header j d h lt ∙ ran,
        record {
          address = ap (λ (x : SingleData). x.address) r.rest;
          offset = ap (λ (x : SingleData). x.offset) r.rest;
          size = ap (λ (x : SingleData). x.size) r.rest;
          version = ap (λ (x : SingleData). x.version) r.rest;
          sequence_number = ap (λ (x : SingleData). x.sequence_number) r.rest;
          old_entry = ap (λ (x : SingleData). x.old_checkpoint_entry) r.rest;
          tx_id = ap (λ (x : SingleData). x.tx_id) r.rest;
          content =
              rw (ap (λ (x : SingleData). x.content) r.rest)
                (IsCopy-Extends c h h1 h' j h.brk (after_copy-IsCopy c j h) r.extends);
          shape = r.shape;
          older = λ i l.
              IsCopy-earlier c h h1 h' i (old_copy d' i) (below i (omega arith)) ext
                (r.copied i (omega arith) (omega arith));
          older_size = λ i l. r.copied_size i (omega arith) (omega arith);
        },
        Extends-trans h h1 h' ext r.extends,
      )

-- A version that was copied stays so when more memory is used, and could have been copied before.
pub IsVersion-Extends :
    (n : Node) (j : ℕ) (h h1 h2 : Heap) (d : SingleData)
    → IsVersion n j h d h1
    → Extends h1 h2
    → IsVersion n j h d h2
IsVersion-Extends n j h h1 h2 d v e = record {
  address = v.address;
  offset = v.offset;
  size = v.size;
  version = v.version;
  sequence_number = v.sequence_number;
  old_entry = v.old_entry;
  tx_id = v.tx_id;
  shape = v.shape;
  older_size = v.older_size;
  content = IsCopy-Extends n.c_data h h1 h2 j d.content v.content e;
  older = λ i l. IsCopy-Extends n.c_data h h1 h2 i (old_copy d i) (v.older i l) e;
}

pub IsVersion-earlier :
    (n : Node) (j : ℕ) (h h1 h2 : Heap) (d : SingleData)
    → SourcesBelow n.c_data (suc j) h.brk
    → Extends h h1
    → IsVersion n j h1 d h2
    → IsVersion n j h d h2
IsVersion-earlier n j h h1 h2 d below e v = record {
  address = v.address;
  offset = v.offset;
  size = v.size;
  version = v.version;
  sequence_number = v.sequence_number;
  old_entry = v.old_entry;
  tx_id = v.tx_id;
  content = IsCopy-earlier n.c_data h h1 h2 j d.content (below j (omega arith)) e v.content;
  shape = v.shape;
  older = λ i l.
      IsCopy-earlier n.c_data h h1 h2 i (old_copy d i) (below i (omega arith)) e (v.older i l);
  older_size = v.older_size;
}
