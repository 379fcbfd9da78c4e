-- ===== src/Audit/Roots/Evidence.antt =====
-- Which rows are covered, and by what.
use yataverse_distribution.Prelude.{
  ℕ, ◌+◌, ◌-◌, ◌≡◌, ◌≤◌, ◌<◌, ◌⊎◌, inl, inr, refl, ap, ap₂, ◌∙◌, subst, Bool, true, ◌||◌, ◌&&◌, leb,
  require, ◌>>=◌, ◌>>◌, Option, none, some, List, [], ◌∷◌, String, ltb, length, All, Bytes, Result,
  ok, ok_inj, err, Result-cases, Bool-cases, arith, if◌then◌else◌, ◌==◌,
}
use yataverse_distribution.Json.{Dict, lookup, text_of, is_text, codes}
use text.Mathlib.TextEquality.{eq_iff}
use yataverse_distribution.Inventory.{Item, File, Inventory, rows}
use yataverse_distribution.RawStore.{RawBlockStoreError, sha256_digest}
use yataverse_distribution.RawStore.Store as Store
use yataverse_distribution.Receipts.{Range, ReceiptFile, loaded_record, in_inventory}
use yataverse_distribution.Replicate.Put.{contains}
use yataverse_distribution.Audit.{
  AuditError, receipt_differs, root_differs, RawBlocks, complete, partial, checked_body,
  add_missing,
}
use yataverse_distribution.Audit.Roots.{
  from_inventory, Node, is_node, same_links, names_rows, Coverage, Report, mark_rows, mark_row,
  is_marked, has_car_sha, has_peer, union, add_car, add_native, audit_range, audit_cars,
  audit_natives, add_large, audit_large, audit_larges, add_direct, audit_pins, size_in, add_raw,
  audit_raw_cids, audit_raw, tally, report, nothing_covered, audit_receipts, checked_large,
  large_row, range_in_name, row_in_name, names_item, text_or_none,
}
use yataverse_distribution.Audit.Roots.Marks.{is_marked-mark, none_marked, union-All}

abbrev pub Among : ReceiptFile → List ReceiptFile → Type 0
Among f [] = ⊥
Among f (g ∷ gs) = (f ≡ g) ⊎ Among f gs

abbrev pub cids : List Item → List String
cids [] = []
cids (item ∷ items) = item.cid ∷ cids items

same_links-eq :
    (items : List Item) (links : List String) → same_links items links ≡ true → links ≡ cids items
unfolding same_links
same_links-eq [] [] h = refl
same_links-eq [] (link ∷ links) h = cc
same_links-eq (item ∷ items) [] h = cc
same_links-eq (item ∷ items) (link ∷ links) h =
    let first : link ≡ item.cid = ground (arith, h, eq_iff link item.cid) in
    ap₂ (λ x xs. x ∷ xs) first (same_links-eq items links (ground (arith, h)))

text_or_none-eq_ok :
    (found : Option String) (s : String) → text_or_none found ≡ ok s → found ≡ some s
unfolding text_or_none
text_or_none-eq_ok none s h = cc
text_or_none-eq_ok (some t) s h = ap some (ok_inj h)

module _ (sha256 : Bytes → Bytes) (b32decode : List ℕ → Option Bytes) (hexdigest : Bytes → String)
    (hex : Bytes → String) (loads : Bytes → Option Dict) (decimal : ℕ → Option ℕ) (inv : Inventory)
    (file : File) (repository : String) (recursive direct : List String)
    (root_reader : String → Result AuditError (Option Node)) (raw : Option RawBlocks)
    (cars natives : List ReceiptFile) where
  -- A receipt file whose name gives a range and whose root is pinned as recursive: the node of the
  -- root names this inventory and the range, and its links are the CIDs of the range's rows.
  pub record Rooted (suffix : String) (f : ReceiptFile) (r : Range) : Type 0 where
    pub items : List Item
    pub end : ℕ
    pub d : Dict
    pub root : String
    pub node : Node
    pub named : range_in_name decimal suffix f.name ≡ ok r
    pub listed : rows loads hexdigest inv file r.start (r.end - r.start) ≡ ok (items, end)
    pub contents : loaded_record f.contents ≡ ok d
    pub names_root : text_of (lookup "root" d) ≡ some root
    pub names_inventory : is_text inv.sha256 (lookup "inventory_sha256" d) ≡ true
    pub pinned : contains root recursive ≡ true
    pub node_of : root_reader root ≡ ok (some node)
    pub node_inventory : node.inventory_sha256 ≡ inv.sha256
    pub node_start : node.start_row ≡ r.start
    pub node_end : node.end_row ≡ r.end
    pub node_links : node.links ≡ cids items

  -- What may cover a row: one of the receipts of CAR files or of native roots, whose range has the
  -- row, the pin of the CID at the row, or a raw block of that CID.
  pub data Held (row : ℕ) : Type 0 where
    by_car :
        (f : ReceiptFile) (r : Range)
        → Among f cars
        → Rooted "-import.json" f r
        → r.start ≤ row
        → row < r.end
        → Held row
    by_native :
        (f : ReceiptFile) (r : Range)
        → Among f natives
        → Rooted "-native.json" f r
        → r.start ≤ row
        → row < r.end
        → Held row
    by_large :
        (item : Item) (later : List Item) (end : ℕ)
        → rows loads hexdigest inv file row 1 ≡ ok (item ∷ later, end)
        → (contains item.cid direct || contains item.cid recursive) ≡ true
        → Held row
    by_pin :
        (cid : String)
        → lookup cid inv.positions ≡ some row
        → (contains cid direct || contains cid recursive) ≡ true
        → Held row
    by_raw :
        (blocks : RawBlocks) (cid : String) (body : Bytes)
        → raw ≡ some blocks
        → lookup cid inv.positions ≡ some row
        → Store.read sha256 b32decode hexdigest cid (length body) (blocks.slots cid)
          ≡ ok (some body)
        → Held row

  abbrev pub Justified : Coverage → Type 0
  Justified c = (row : ℕ) → is_marked c.covered row ≡ true → Held row

  -- A row that is marked in addition.
  marked_row :
      (at row : ℕ) (covered : List Bool)
      → ((k : ℕ) → is_marked covered k ≡ true → Held k)
      → Held at
      → is_marked (mark_row at covered) row ≡ true
      → Held row
  marked_row at row covered before held h = elim (is_marked-mark at (at + 1) 0 covered row h) [
    | inl m ↦ before row m
    | inr inside ↦ let e : row ≡ at = omega (arith, inside) in rw e held
  ]

  is_node-eq :
      (r : Range) (items : List Item) (found : Option Node)
      → is_node inv r items found ≡ true
      → (node : Node) × (found ≡ some node)
        × (node.inventory_sha256 ≡ inv.sha256)
        × (node.start_row ≡ r.start)
        × (node.end_row ≡ r.end)
        × (node.links ≡ cids items)
  unfolding is_node
  is_node-eq r items none h = cc
  is_node-eq r items (some node) h = (
    node,
    refl,
    ground (arith, h, eq_iff node.inventory_sha256 inv.sha256),
    ground (arith, h),
    ground (arith, h),
    same_links-eq items node.links (ground (arith, h)),
  )

  names_rows-inventory :
      (r : Range) (items : List Item) (end : ℕ) (d : Dict) (has_rest : Dict → Bool)
      → (names_rows inv repository r items end d && has_rest d) ≡ true
      → is_text inv.sha256 (lookup "inventory_sha256" d) ≡ true
  unfolding names_rows
  names_rows-inventory r items end d has_rest h = ground (arith, h)

  audit_range-Rooted :
      (suffix : String) (has_rest : Dict → Bool) (f : ReceiptFile) (r : Range) (items : List Item)
      → audit_range sha256 b32decode hexdigest hex loads decimal inv file repository recursive
          direct root_reader suffix has_rest f
        ≡ ok (some (r, items))
      → Rooted suffix f r
  unfolding audit_range
  audit_range-Rooted suffix has_rest f r items h =
      elim (Result-cases (range_in_name decimal suffix f.name)) [
        | inr (x, bad) ↦ cc (rw bad at h)
        | inl (r', named) ↦
            elim (Bool-cases (in_inventory inv r' && leb (r'.end - r'.start) 1000)) [
              | inr bad ↦ cc (rw (named, bad) at h)
              | inl inside ↦
                  elim (Result-cases (rows loads hexdigest inv file r'.start (r'.end - r'.start))) [
                    | inr (x, bad) ↦ cc (rw (named, inside, bad) at h)
                    | inl ((items', end), listed) ↦
                        checked r' items' end inside named listed (rw (named, inside, listed) at h)
                  ]
            ]
      ]
    where
      checked :
          (r' : Range) (items' : List Item) (end : ℕ)
          → (in_inventory inv r' && leb (r'.end - r'.start) 1000) ≡ true
          → range_in_name decimal suffix f.name ≡ ok r'
          → rows loads hexdigest inv file r'.start (r'.end - r'.start) ≡ ok (items', end)
          → ◌≡◌ {A = Result AuditError (Option (Range × List Item))}
              (do
                d ← from_inventory (loaded_record f.contents)
                require (names_rows inv repository r' items' end d && has_rest d) receipt_differs
                root ← text_or_none (text_of (lookup "root" d))
                let pinned : Result AuditError (Option (Range × List Item)) = (do
                  node ← root_reader root
                  require (is_node inv r' items' node) root_differs
                  ok (some (r', items')))
                if contains root recursive then pinned else ok none)
              (ok (some (r, items)))
          → Rooted suffix f r
      checked r' items' end inside named listed h' =
          elim (Result-cases (loaded_record f.contents)) [
            | inr (x, bad) ↦ cc (rw bad at h')
            | inl (d, got) ↦
                elim (Bool-cases (names_rows inv repository r' items' end d && has_rest d)) [
                  | inr bad ↦ cc (rw (got, bad) at h')
                  | inl fits ↦ elim (Result-cases (text_or_none (text_of (lookup "root" d)))) [
                    | inr (x, bad) ↦ cc (rw (got, fits, bad) at h')
                    | inl (root, is_root) ↦ elim (Bool-cases (contains root recursive)) [
                      | inr loose ↦ cc (rw (got, fits, is_root, loose) at h')
                      | inl pinned ↦ elim (Result-cases (root_reader root)) [
                        | inr (x, bad) ↦ cc (rw (got, fits, is_root, pinned, bad) at h')
                        | inl (found, read) ↦ elim (Bool-cases (is_node inv r' items' found)) [
                          | inr bad ↦ cc (rw (got, fits, is_root, pinned, read, bad) at h')
                          | inl good ↦
                              let is = ok_inj (rw (got, fits, is_root, pinned, read, good) at h') in
                              let same : r' ≡ r = cc is in
                              let (node, there, sha, start, stop, links) =
                                is_node-eq r' items' found good in
                              subst (Rooted suffix f) same (record {
                                items = items';
                                end = end;
                                d = d;
                                root = root;
                                node = node;
                                named = named;
                                listed = listed;
                                contents = got;
                                names_root = text_or_none-eq_ok _ root is_root;
                                names_inventory =
                                    names_rows-inventory r' items' end d has_rest fits;
                                pinned = pinned;
                                node_of = read ∙ ap ok there;
                                node_inventory = sha;
                                node_start = start;
                                node_end = stop;
                                node_links = links;
                              })
                        ]
                      ]
                    ]
                  ]
                ]
          ]

  marked_range :
      (r : Range) (row : ℕ) (covered : List Bool)
      → (r.start ≤ row → row < r.end → Held row)
      → ((k : ℕ) → is_marked covered k ≡ true → Held k)
      → is_marked (mark_rows r covered) row ≡ true
      → Held row
  marked_range r row covered held before h = elim (is_marked-mark r.start r.end 0 covered row h) [
    | inl m ↦ before row m
    | inr (low, high) ↦ held (omega (arith, low)) (omega (arith, high))
  ]

  add_car-Justified :
      (f : ReceiptFile) (found : Option (Range × List Item)) (c : Coverage)
      → Among f cars
      → audit_range sha256 b32decode hexdigest hex loads decimal inv file repository recursive
          direct root_reader "-import.json" has_car_sha f
        ≡ ok found
      → Justified c
      → Justified (add_car found c)
  unfolding add_car
  add_car-Justified f none c here e j = j
  add_car-Justified f (some (r, items)) c here e j = λ row h.
      marked_range r row c.covered
        (by_car f r here (audit_range-Rooted "-import.json" has_car_sha f r items e)) j h

  add_native-Justified :
      (f : ReceiptFile) (found : Option (Range × List Item)) (c : Coverage)
      → Among f natives
      → audit_range sha256 b32decode hexdigest hex loads decimal inv file repository recursive
          direct root_reader "-native.json" has_peer f
        ≡ ok found
      → Justified c
      → Justified (add_native found c)
  unfolding add_native
  add_native-Justified f none c here e j = j
  add_native-Justified f (some (r, items)) c here e j = λ row h.
      marked_range r row c.covered
        (by_native f r here (audit_range-Rooted "-native.json" has_peer f r items e)) j h

  audit_cars-Justified :
      (fs : List ReceiptFile) (c c' : Coverage)
      → ((f : ReceiptFile) → Among f fs → Among f cars)
      → audit_cars sha256 b32decode hexdigest hex loads decimal inv file repository recursive direct
          root_reader fs c
        ≡ ok c'
      → Justified c
      → Justified c'
  unfolding audit_cars
  audit_cars-Justified [] c c' all h j = rw (← ok_inj h) j
  audit_cars-Justified (f ∷ fs) c c' all h j =
      elim (Result-cases (
        audit_range sha256 b32decode hexdigest hex loads decimal inv file repository recursive
          direct root_reader "-import.json" has_car_sha f)) [
            | inr (x, e) ↦ cc (rw e at h)
            | inl (found, e) ↦
                audit_cars-Justified fs (add_car found c) c' (λ g m. all g (inr m)) (rw e at h)
                  (add_car-Justified f found c (all f (inl refl)) e j)
          ]

  audit_natives-Justified :
      (fs : List ReceiptFile) (c c' : Coverage)
      → ((f : ReceiptFile) → Among f fs → Among f natives)
      → audit_natives sha256 b32decode hexdigest hex loads decimal inv file repository recursive
          direct root_reader fs c
        ≡ ok c'
      → Justified c
      → Justified c'
  unfolding audit_natives
  audit_natives-Justified [] c c' all h j = rw (← ok_inj h) j
  audit_natives-Justified (f ∷ fs) c c' all h j =
      elim (Result-cases (
        audit_range sha256 b32decode hexdigest hex loads decimal inv file repository recursive
          direct root_reader "-native.json" has_peer f)) [
            | inr (x, e) ↦ cc (rw e at h)
            | inl (found, e) ↦
                audit_natives-Justified fs (add_native found c) c' (λ g m. all g (inr m))
                  (rw e at h) (add_native-Justified f found c (all f (inl refl)) e j)
          ]

  add_direct-Justified :
      (cid : String) (found : Option ℕ) (c : Coverage)
      → lookup cid inv.positions ≡ found
      → (contains cid direct || contains cid recursive) ≡ true
      → Justified c
      → Justified (
          add_direct sha256 b32decode hexdigest hex loads decimal inv file repository recursive
            direct root_reader found c)
  unfolding add_direct
  add_direct-Justified cid none c e pinned j = j
  add_direct-Justified cid (some at) c e pinned j =
      λ row h. marked_row at row c.covered j (by_pin cid e pinned) h

  audit_pins-Justified :
      (cids : List String) (c : Coverage)
      → All (λ cid. (contains cid direct || contains cid recursive) ≡ true) cids
      → Justified c
      → Justified (
          audit_pins sha256 b32decode hexdigest hex loads decimal inv file repository recursive
            direct root_reader cids c)
  unfolding audit_pins
  audit_pins-Justified [] c all j = j
  audit_pins-Justified (cid ∷ cids) c (pinned, all) j =
      audit_pins-Justified cids
        (add_direct sha256 b32decode hexdigest hex loads decimal inv file repository recursive
          direct root_reader (lookup cid inv.positions) c)
        all (add_direct-Justified cid (lookup cid inv.positions) c refl pinned j)

  add_large-Justified :
      (root : String) (at : ℕ) (item : Item) (later : List Item) (end : ℕ) (c : Coverage)
      → rows loads hexdigest inv file at 1 ≡ ok (item ∷ later, end)
      → Justified c
      → Justified (
          add_large sha256 b32decode hexdigest hex loads decimal inv file repository recursive
            direct root_reader root at item c)
  unfolding add_large
  add_large-Justified root at item later end c e j = elim (Bool-cases (contains root recursive)) [
    | inr loose ↦ rw loose j
    | inl kept ↦ elim (Bool-cases (contains item.cid direct || contains item.cid recursive)) [
      | inr gone ↦ rw (kept, gone) j
      | inl pinned ↦
          rw (kept, pinned)
            (λ row h. marked_row at row c.covered j (by_large item later end e pinned) h)
    ]
  ]

  checked_large-Justified :
      (f : ReceiptFile) (at : ℕ) (item : Item) (later : List Item) (end : ℕ) (c c' : Coverage)
      → rows loads hexdigest inv file at 1 ≡ ok (item ∷ later, end)
      → checked_large sha256 b32decode hexdigest hex loads decimal inv file repository recursive
          direct root_reader f at item c
        ≡ ok c'
      → Justified c
      → Justified c'
  unfolding checked_large
  checked_large-Justified f at item later end c c' e h j =
      elim (Result-cases (loaded_record f.contents)) [
        | inr (x, bad) ↦ cc (rw bad at h)
        | inl (d, got) ↦ elim (Result-cases (sha256_digest sha256 b32decode (codes item.cid))) [
          | inr (x, bad) ↦ cc (rw (got, bad) at h)
          | inl (digest, of_cid) ↦
              elim (Bool-cases (
                names_item sha256 b32decode hexdigest hex loads decimal inv file repository
                  recursive direct root_reader at item digest d)) [
                    | inr bad ↦ cc (rw (got, of_cid, bad) at h)
                    | inl fits ↦
                        elim (Result-cases (text_or_none (text_of (lookup "recovery_root" d)))) [
                          | inr (x, bad) ↦ cc (rw (got, of_cid, fits, bad) at h)
                          | inl (root, named) ↦
                              rw (← ok_inj (rw (got, of_cid, fits, named) at h))
                                (add_large-Justified root at item later end c e j)
                        ]
                  ]
        ]
      ]

  large_row-Justified :
      (f : ReceiptFile) (at : ℕ) (items : List Item) (end : ℕ) (c c' : Coverage)
      → rows loads hexdigest inv file at 1 ≡ ok (items, end)
      → large_row sha256 b32decode hexdigest hex loads decimal inv file repository recursive direct
          root_reader f at items c
        ≡ ok c'
      → Justified c
      → Justified c'
  unfolding large_row
  large_row-Justified f at [] end c c' e h j = cc
  large_row-Justified f at (item ∷ later) end c c' e h j =
      checked_large-Justified f at item later end c c' e h j

  audit_large-Justified :
      (f : ReceiptFile) (c c' : Coverage)
      → audit_large sha256 b32decode hexdigest hex loads decimal inv file repository recursive
          direct root_reader f c
        ≡ ok c'
      → Justified c
      → Justified c'
  unfolding audit_large
  audit_large-Justified f c c' h j = elim (Result-cases (row_in_name decimal f.name)) [
    | inr (x, bad) ↦ cc (rw bad at h)
    | inl (at, named) ↦ elim (Bool-cases (ltb at (length inv.offsets))) [
      | inr bad ↦ cc (rw (named, bad) at h)
      | inl below ↦ elim (Result-cases (rows loads hexdigest inv file at 1)) [
        | inr (x, bad) ↦ cc (rw (named, below, bad) at h)
        | inl ((items, end), e) ↦
            large_row-Justified f at items end c c' e (rw (named, below, e) at h) j
      ]
    ]
  ]

  audit_larges-Justified :
      (fs : List ReceiptFile) (c c' : Coverage)
      → audit_larges sha256 b32decode hexdigest hex loads decimal inv file repository recursive
          direct root_reader fs c
        ≡ ok c'
      → Justified c
      → Justified c'
  unfolding audit_larges
  audit_larges-Justified [] c c' h j = rw (← ok_inj h) j
  audit_larges-Justified (f ∷ fs) c c' h j =
      elim (Result-cases (
        audit_large sha256 b32decode hexdigest hex loads decimal inv file repository recursive
          direct root_reader f c)) [
            | inr (x, e) ↦ cc (rw e at h)
            | inl (next, e) ↦
                audit_larges-Justified fs next c' (rw e at h) (audit_large-Justified f c next e j)
          ]

  checked_body-eq_ok :
      (size : ℕ) (r : Result RawBlockStoreError (Option Bytes))
      → checked_body sha256 b32decode hexdigest loads size r ≡ ok tt
      → (body : Bytes) × (r ≡ ok (some body)) × (length body ≡ size)
  unfolding checked_body
  checked_body-eq_ok size (err e) h = cc
  checked_body-eq_ok size (ok none) h = cc
  checked_body-eq_ok size (ok (some body)) h = elim (Bool-cases (length body == size)) [
    | inl e ↦ (body, refl, ground arith)
    | inr e ↦ cc (rw e at h)
  ]

  add_raw-Justified :
      (blocks : RawBlocks) (cid : String) (found : Option ℕ) (c c' : Coverage)
      → raw ≡ some blocks
      → lookup cid inv.positions ≡ found
      → add_raw sha256 b32decode hexdigest hex loads decimal inv file repository recursive direct
          root_reader blocks cid found c
        ≡ ok c'
      → Justified c
      → Justified c'
  unfolding add_raw
  add_raw-Justified blocks cid none c c' has e h j = rw (← ok_inj h) j
  add_raw-Justified blocks cid (some at) c c' has e h j =
      let size =
        size_in sha256 b32decode hexdigest hex loads decimal inv file repository recursive direct
          root_reader cid in
      elim (Result-cases (
        checked_body sha256 b32decode hexdigest loads size
          (Store.read sha256 b32decode hexdigest cid size (blocks.slots cid)))) [
            | inr (x, bad) ↦ cc (rw bad at h)
            | inl (u, good) ↦
                let (body, read, long) =
                  checked_body-eq_ok size
                    (Store.read sha256 b32decode hexdigest cid size (blocks.slots cid)) good in
                rw (← ok_inj (rw good at h)) (λ row m.
                  marked_row at row c.covered j (by_raw blocks cid body has e (rw long read)) m)
          ]

  audit_raw_cids-Justified :
      (blocks : RawBlocks) (cids : List String) (c c' : Coverage)
      → raw ≡ some blocks
      → audit_raw_cids sha256 b32decode hexdigest hex loads decimal inv file repository recursive
          direct root_reader blocks cids c
        ≡ ok c'
      → Justified c
      → Justified c'
  unfolding audit_raw_cids
  audit_raw_cids-Justified blocks [] c c' has h j = rw (← ok_inj h) j
  audit_raw_cids-Justified blocks (cid ∷ cids) c c' has h j =
      elim (Result-cases (
        add_raw sha256 b32decode hexdigest hex loads decimal inv file repository recursive direct
          root_reader blocks cid (lookup cid inv.positions) c)) [
            | inr (x, e) ↦ cc (rw e at h)
            | inl (next, e) ↦
                audit_raw_cids-Justified blocks cids next c' has (rw e at h)
                  (add_raw-Justified blocks cid (lookup cid inv.positions) c next has refl e j)
          ]

  audit_raw-Justified :
      (found : Option RawBlocks) (c c' : Coverage)
      → raw ≡ found
      → audit_raw sha256 b32decode hexdigest hex loads decimal inv file repository recursive direct
          root_reader found c
        ≡ ok c'
      → Justified c
      → Justified c'
  unfolding audit_raw
  audit_raw-Justified none c c' has h j = rw (← ok_inj h) j
  audit_raw-Justified (some blocks) c c' has h j =
      audit_raw_cids-Justified blocks blocks.cids c c' has h j

  -- The rows of the inventory that are marked.
  abbrev pub marked_entries : List Bool → List (String × ℕ) → ℕ
  marked_entries covered [] = 0
  marked_entries covered ((cid, row) ∷ entries) =
      (if is_marked covered row then 1 else 0) + marked_entries covered entries

  tally-marked_entries :
      (covered : List Bool) (entries : List (String × ℕ)) (n bytes : ℕ) (missing : List String)
      → (tally sha256 b32decode hexdigest hex loads decimal inv file repository recursive direct
          root_reader covered entries n bytes missing).0
        ≡ n + marked_entries covered entries
  unfolding tally
  tally-marked_entries covered [] n bytes missing = omega arith
  tally-marked_entries covered ((cid, row) ∷ entries) n bytes missing =
      elim (Bool-cases (is_marked covered row)) [
        | inl e ↦
            rw (tally, e)
              (omega (
                arith,
                tally-marked_entries covered entries (n + 1)
                    (bytes
                      + size_in sha256 b32decode hexdigest hex loads decimal inv file repository
                          recursive direct root_reader cid)
                    missing,
              ))
        | inr e ↦
            rw (tally, e)
              (omega
                (arith, tally-marked_entries covered entries n bytes (add_missing missing cid)))
      ]

  few_marked :
      (covered : List Bool) (entries : List (String × ℕ))
      → marked_entries covered entries ≤ length entries
  few_marked covered [] = omega arith
  few_marked covered ((cid, row) ∷ entries) = ground (arith, few_marked covered entries)

  marked_entries-full :
      (covered : List Bool) (entries : List (String × ℕ))
      → marked_entries covered entries ≡ length entries
      → All (λ (entry : String × ℕ). is_marked covered entry.1 ≡ true) entries
  marked_entries-full covered [] h = tt
  marked_entries-full covered ((cid, row) ∷ entries) h = elim (Bool-cases (is_marked covered row)) [
    | inl e ↦ (e, marked_entries-full covered entries (ground (arith, e, h)))
    | inr e ↦ absurd (omega (arith, few_marked covered entries, rw e at h))
  ]

  justify :
      (c : Coverage) (entries : List (String × ℕ))
      → Justified c
      → All (λ (entry : String × ℕ). is_marked c.covered entry.1 ≡ true) entries
      → All (λ (entry : String × ℕ). Held entry.1) entries
  justify c [] j all = tt
  justify c ((cid, row) ∷ entries) j (m, all) = (j row m, justify c entries j all)

  nothing_covered-Justified : Justified (
      nothing_covered sha256 b32decode hexdigest hex loads decimal inv file repository recursive
        direct root_reader)
  nothing_covered-Justified = λ row h. absurd (none_marked (length inv.offsets) row h)

  -- Each row that is marked is held by what the audit has seen, the covered rows are the marked
  -- ones of the inventory, the missing ones are the others, and a complete report has each row
  -- held.
  pub record Proves (r : Report) : Type 0 where
    pub justified : (row : ℕ) → is_marked r.coverage.covered row ≡ true → Held row
    pub covered_rows : r.covered_rows ≡ marked_entries r.coverage.covered inv.positions
    pub missing_rows : r.covered_rows + r.missing_rows ≡ length inv.offsets
    pub when_complete :
        r.status ≡ complete → All (λ (entry : String × ℕ). Held entry.1) inv.positions

  full : (m k : ℕ) → (if m == k then complete else partial) ≡ complete → m ≡ k
  full m k e = ground arith

  report-Proves :
      (c : Coverage)
      → length inv.positions ≡ length inv.offsets
      → Justified c
      → Proves (
          report sha256 b32decode hexdigest hex loads decimal inv file repository recursive direct
            root_reader c)
  unfolding report
  report-Proves c same j =
      let n = tally-marked_entries c.covered inv.positions 0 0 [] in
      let few = few_marked c.covered inv.positions in
      record {
        justified = j;
        covered_rows = omega (arith, n);
        missing_rows = omega (arith, n, few, same);
        when_complete = λ e. justify c inv.positions j (
            marked_entries-full c.covered inv.positions (
              omega (
                arith,
                n,
                same,
                full
                    ((tally sha256 b32decode hexdigest hex loads decimal inv file repository
                      recursive direct root_reader c.covered inv.positions 0 0 []).0)
                    (length inv.offsets) e,
              )));
      }

  -- A report of `audit_receipts`, over an inventory that has a position for each row, marks a row
  -- only if one of the audited receipts has it in its range, with a pinned root whose node lists
  -- the rows of the range, or the pin of its block, or a raw block. It counts those rows, and if it
  -- says `complete` each row of the inventory is held so.
  pub audit_receipts-Proves :
      (larges : List ReceiptFile) (r : Report)
      → length inv.positions ≡ length inv.offsets
      → audit_receipts sha256 b32decode hexdigest hex loads decimal inv file repository recursive
          direct root_reader cars natives larges raw
        ≡ ok r
      → Proves r
  unfolding audit_receipts
  audit_receipts-Proves larges r same h =
      elim (Result-cases (
        audit_cars sha256 b32decode hexdigest hex loads decimal inv file repository recursive direct
          root_reader cars
          (nothing_covered sha256 b32decode hexdigest hex loads decimal inv file repository
            recursive direct root_reader))) [
              | inr (x, bad) ↦ cc (rw bad at h)
              | inl (c, e) ↦
                  elim (Result-cases (
                    audit_natives sha256 b32decode hexdigest hex loads decimal inv file repository
                      recursive direct root_reader natives c)) [
                        | inr (x, bad) ↦ cc (rw (e, bad) at h)
                        | inl (c', e') ↦
                            elim (Result-cases (
                              audit_larges sha256 b32decode hexdigest hex loads decimal inv file
                                repository recursive direct root_reader larges c')) [
                                  | inr (x, bad) ↦ cc (rw (e, e', bad) at h)
                                  | inl (c'', e'') ↦
                                      let pins =
                                        audit_pins sha256 b32decode hexdigest hex loads decimal inv
                                          file repository recursive direct root_reader
                                          (union direct recursive) c'' in
                                      elim (Result-cases (
                                        audit_raw sha256 b32decode hexdigest hex loads decimal inv
                                          file repository recursive direct root_reader raw pins)) [
                                            | inr (x, bad) ↦ cc (rw (e, e', e'', bad) at h)
                                            | inl (all, last) ↦
                                                let j = audit_larges-Justified larges c' c'' e'' (
                                                  audit_natives-Justified natives c c' (λ f m. m) e'
                                                    (audit_cars-Justified cars
                                                      (nothing_covered sha256 b32decode hexdigest
                                                        hex loads decimal inv file repository
                                                        recursive direct root_reader)
                                                      c (λ f m. m) e nothing_covered-Justified)) in
                                                let by_pins =
                                                  audit_pins-Justified (union direct recursive) c''
                                                    (union-All
                                                      (λ cid.
                                                        (contains cid direct
                                                          || contains cid recursive)
                                                        ≡ true)
                                                      direct recursive (λ cid p. p))
                                                    j in
                                                rw (← ok_inj (rw (e, e', e'', last) at h)) (
                                                  report-Proves all same (
                                                    audit_raw-Justified raw pins all refl last
                                                      by_pins))
                                          ]
                                ]
                      ]
            ]
