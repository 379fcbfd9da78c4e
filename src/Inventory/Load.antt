-- ===== src/Inventory/Load.antt =====
-- What a loaded inventory holds: one entry for each line of the file, in order, no CID twice.
use yataverse_distribution.Prelude.{
  ℕ, suc, ◌+◌, ◌≡◌, refl, sym, ap, ◌∙◌, subst, Bool-cases, false, ◌&&◌, ◌==◌, Option, List, [], ◌∷◌,
  ◌++◌, String, arith, length, Bytes, ok, require, ◌>>◌, Result-cases, inl, inr, append-nil,
  append_assoc, length-append,
}
use text.Mathlib.TextEquality.{eq_iff}
use text.Mathlib.Text.{◌==◌ as text_eq}
use yataverse_distribution.Json.{Dict, has_key}
use yataverse_distribution.Inventory.{
  Item, File, Inventory, empty_inventory, read_item, load_lines, load, concat_lines,
  snapshot_differs,
}

-- The entries of `sizes`, of `positions` from row `n` on, and of `offsets` from byte `at` on.
abbrev pub sizes_of : List Item → List (String × ℕ)
sizes_of [] = []
sizes_of (item ∷ items) = (item.cid, item.size) ∷ sizes_of items

abbrev pub positions_of : ℕ → List Item → List (String × ℕ)
positions_of n [] = []
positions_of n (item ∷ items) = (item.cid, n) ∷ positions_of (n + 1) items

abbrev pub starts_of : ℕ → List Bytes → List ℕ
starts_of at [] = []
starts_of at (line ∷ lines) = at ∷ starts_of (at + length line) lines

abbrev pub total_of : List Item → ℕ
total_of [] = 0
total_of (item ∷ items) = item.size + total_of items

-- No key twice.
abbrev pub NodupKeys : List (String × ℕ) → Type 0
NodupKeys [] = Unit
NodupKeys ((key, v) ∷ d) = (has_key key d ≡ false) × NodupKeys d

has_key-snoc :
    (k j : String) (v : ℕ) (d : List (String × ℕ))
    → has_key k d ≡ false
    → text_eq j k ≡ false
    → has_key k (d ++ ((j, v) ∷ [])) ≡ false
unfolding has_key
has_key-snoc k j v [] h e = ground arith
has_key-snoc k j v ((i, w) ∷ d) h e = ground (arith, has_key-snoc k j v d)

has_key-head :
    (i k : String) (w : ℕ) (d : List (String × ℕ))
    → has_key k ((i, w) ∷ d) ≡ false
    → (text_eq k i ≡ false) × (has_key k d ≡ false)
unfolding has_key
has_key-head i k w d h = ground (arith, eq_iff i k, eq_iff k i)

NodupKeys-snoc :
    (k : String) (v : ℕ) (d : List (String × ℕ))
    → NodupKeys d
    → has_key k d ≡ false
    → NodupKeys (d ++ ((k, v) ∷ []))
NodupKeys-snoc k v [] u h = (unfold has_key in refl, tt)
NodupKeys-snoc k v ((i, w) ∷ d) (fresh, u) h =
    let (differ, rest) = has_key-head i k w d h in
    (has_key-snoc i k v d fresh differ, NodupKeys-snoc k v d u rest)

module _ (loads : Bytes → Option Dict) (hexdigest : Bytes → String) where
  -- The lines hold these items.
  abbrev pub Reads : List Bytes → List Item → Type 0
  Reads [] [] = Unit
  Reads (line ∷ lines) (item ∷ items) =
      (read_item loads hexdigest line ≡ ok item) × Reads lines items
  Reads _ _ = ⊥

  -- What the loop added to the inventory that it began with.
  pub record Added (lines : List Bytes) (at : ℕ) (inv inv' : Inventory) : Type 0 where
    pub items : List Item
    pub reads : Reads lines items
    pub offsets : inv'.offsets ≡ inv.offsets ++ starts_of at lines
    pub sizes : inv'.sizes ≡ inv.sizes ++ sizes_of items
    pub positions : inv'.positions ≡ inv.positions ++ positions_of (length inv.offsets) items
    pub total : inv'.total_bytes ≡ inv.total_bytes + total_of items
    pub identity : inv'.file_identity ≡ inv.file_identity
    pub nodup : NodupKeys inv.sizes → NodupKeys inv'.sizes

  load_lines-Added :
      (lines : List Bytes) (at : ℕ) (inv inv' : Inventory)
      → load_lines loads hexdigest lines at inv ≡ ok inv'
      → Added lines at inv inv'
  unfolding load_lines
  load_lines-Added [] at inv inv' h =
      let same : inv' ≡ inv = cc in
      record {
        items = [];
        reads = tt;
        offsets = ap (λ (i : Inventory). i.offsets) same ∙ sym (append-nil inv.offsets);
        sizes = ap (λ (i : Inventory). i.sizes) same ∙ sym (append-nil inv.sizes);
        positions = ap (λ (i : Inventory). i.positions) same ∙ sym (append-nil inv.positions);
        total = omega (arith, ap (λ (i : Inventory). i.total_bytes) same);
        identity = ap (λ (i : Inventory). i.file_identity) same;
        nodup = λ u. subst (λ (i : Inventory). NodupKeys i.sizes) (sym same) u;
      }
  load_lines-Added (line ∷ lines) at inv inv' h =
      elim (Result-cases (read_item loads hexdigest line)) [
        | inr (x, e) ↦ cc (rw e at h)
        | inl (item, e) ↦ elim (Bool-cases (has_key item.cid inv.sizes)) [
          | inl old ↦ cc (rw (e, old) at h)
          | inr new ↦
              let h' = rw (e, new) at h in
              cons item e new (load_lines-Added lines (at + length line) _ inv' h')
        ]
      ]
    where
      cons :
          (item : Item)
          → read_item loads hexdigest line ≡ ok item
          → has_key item.cid inv.sizes ≡ false
          → Added lines
              (at + length line)
              (record inv {
                offsets = inv.offsets ++ (at ∷ []);
                sizes = inv.sizes ++ ((item.cid, item.size) ∷ []);
                positions = inv.positions ++ ((item.cid, length inv.offsets) ∷ []);
                total_bytes = inv.total_bytes + item.size;
              })
              inv'
          → Added (line ∷ lines) at inv inv'
      cons item e new r = record {
        items = item ∷ r.items;
        reads = (e, r.reads);
        offsets =
            r.offsets ∙ append_assoc inv.offsets (at ∷ []) (starts_of (at + length line) lines);
        sizes = r.sizes ∙ append_assoc inv.sizes ((item.cid, item.size) ∷ []) (sizes_of r.items);
        positions =
            r.positions
            ∙ append_assoc inv.positions ((item.cid, length inv.offsets) ∷ []) _
            ∙ ap
                (λ (n : ℕ).
                  inv.positions ++ ((item.cid, length inv.offsets) ∷ positions_of n r.items))
                (length-append inv.offsets (at ∷ []));
        total = omega (arith, r.total);
        identity = r.identity;
        nodup = λ u. r.nodup (NodupKeys-snoc item.cid item.size inv.sizes u new);
      }

  -- The inventory is that of the file, and holds these items.
  pub record Snapshot (file : File) (inv : Inventory) (items : List Item) : Type 0 where
    pub reads : Reads file.lines items
    pub offsets : inv.offsets ≡ starts_of 0 file.lines
    pub sizes : inv.sizes ≡ sizes_of items
    pub positions : inv.positions ≡ positions_of 0 items
    pub total : inv.total_bytes ≡ total_of items
    pub identity : inv.file_identity ≡ file.identity
    pub nodup : NodupKeys inv.sizes

  Added-Snapshot :
      (file : File) (sha : String) (inv : Inventory)
      (a : Added file.lines 0 (empty_inventory file sha) inv)
      → Snapshot file inv a.items
  Added-Snapshot file sha inv a = record {
    reads = a.reads;
    offsets = a.offsets;
    sizes = a.sizes;
    positions = a.positions;
    total = omega (arith, a.total);
    identity = a.identity;
    nodup = a.nodup tt;
  }

  length-starts_of : (at : ℕ) (lines : List Bytes) → length (starts_of at lines) ≡ length lines
  length-starts_of at [] = refl
  length-starts_of at (line ∷ lines) = ap suc (length-starts_of (at + length line) lines)

  pub length-Reads :
      (lines : List Bytes) (items : List Item) → Reads lines items → length lines ≡ length items
  length-Reads [] [] r = refl
  length-Reads [] (item ∷ items) r = absurd r
  length-Reads (line ∷ lines) [] r = absurd r
  length-Reads (line ∷ lines) (item ∷ items) (e, r) = ap suc (length-Reads lines items r)

  pub length-offsets :
      (file : File) (inv : Inventory) (items : List Item)
      → Snapshot file inv items
      → length inv.offsets ≡ length items
  length-offsets file inv items s =
      ap length s.offsets ∙ length-starts_of 0 file.lines ∙ length-Reads file.lines items s.reads

  -- A snapshot that loads has an item for each line of the file, as many as declared, with the
  -- entries of all three tables in file order, no CID twice, the total of the sizes, and the
  -- declared digest.
  pub load-Snapshot :
      (file : File) (sha : String) (count : ℕ) (inv : Inventory)
      → load loads hexdigest file sha count ≡ ok inv
      → (items : List Item) × Snapshot file inv items
        × (length items ≡ count)
        × (hexdigest (concat_lines file.lines) ≡ sha)
  unfolding load
  load-Snapshot file sha count inv h =
      elim (Result-cases (load_lines loads hexdigest file.lines 0 (empty_inventory file sha))) [
        | inr (x, e) ↦ cc (rw e at h)
        | inl (inv', e) ↦ close inv' e (rw e at h)
      ]
    where
      close :
          (inv' : Inventory)
          → load_lines loads hexdigest file.lines 0 (empty_inventory file sha) ≡ ok inv'
          → (require
                (text_eq (hexdigest (concat_lines file.lines)) sha && length inv'.offsets == count)
                snapshot_differs
              >> ok inv')
            ≡ ok inv
          → (items : List Item) × Snapshot file inv items
            × (length items ≡ count)
            × (hexdigest (concat_lines file.lines) ≡ sha)
      close inv' e k =
          let same : inv' ≡ inv = ground (arith) in
          let a = load_lines-Added file.lines 0 (empty_inventory file sha) inv (e ∙ ap ok same) in
          let s = Added-Snapshot file sha inv a in
          let n = length-offsets file inv a.items s in
          (
            a.items,
            s,
            ground (arith, n, ap (λ (i : Inventory). length i.offsets) same),
            ground (arith, eq_iff (hexdigest (concat_lines file.lines)) sha),
          )
