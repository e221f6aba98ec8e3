-- ===== src/ConfigTree/Keys.antt =====
-- pkg/ctree/tree.go: GetAll, with the slices that its keys are. An append writes into the array of
-- its slice where there is room, and else into a copy; how much room a new array has is the
-- runtime's choice, `grow`, a function of the old capacity.
use snap.Base.{
  ℕ, zero, suc, ◌<◌, ◌≤◌, ◌≡◌, refl, sym, ap, ◌∙◌, List, [], ◌∷◌, ◌++◌, none, some, Text, length,
  take, get_elem?, ltb, if◌then◌else◌, arith,
}
use snap.ConfigTree.{Tree, node, Forest, nil, cons, ConfigTree, no_root, empty_root, root}

pub record Slice : Type 0 where
  pub array : ℕ
  pub len : ℕ
  pub capacity : ℕ

-- The arrays, each as far as it was written.
abbrev pub Memory : Type 0
Memory = List (List Text)

abbrev write : ℕ → Text → List Text → List Text
write i x [] = x ∷ []
write zero x (y ∷ cells) = x ∷ cells
write (suc i) x (y ∷ cells) = y ∷ write i x cells

abbrev write_array : ℕ → ℕ → Text → Memory → Memory
write_array a i x [] = []
write_array zero i x (cells ∷ m) = write i x cells ∷ m
write_array (suc a) i x (cells ∷ m) = cells ∷ write_array a i x m

abbrev pub cells_of : Memory → Slice → List Text
cells_of m s = elim (get_elem? m s.array) [ none ↦ [] | some cells ↦ take s.len cells ]

module _ (grow : ℕ → ℕ) where
  unfoldable pub append : Memory → Slice → Text → Memory × Slice
  append m s x =
      if ltb s.len s.capacity
      then (write_array s.array s.len x m, record s { len = suc s.len })
      else (
        m ++ (cells_of m s ++ x ∷ []) ∷ [],
        record { array = length m; len = suc s.len; capacity = grow s.capacity },
      )

module _ {N : Type 0} (grow : ℕ → ℕ) where
  unfoldable mutual
    -- The recursion of GetAll over a node; the keys found so far come first.
    pub collect : Tree N → Slice → Memory → List (Slice × N) → Memory × List (Slice × N)
    collect (node k o kids) key m found =
        let (m', key') = append grow m key k in
        collect_children kids key' m' (elim o [ none ↦ found | some n ↦ found ++ (key', n) ∷ [] ])

    pub collect_children : Forest N → Slice → Memory → List (Slice × N) → Memory × List (Slice × N)
    collect_children nil key m found = (m, found)
    collect_children (cons t kids) key m found =
        let (m', found') = collect t key m found in collect_children kids key m' found'

  -- GetAll; the empty slice literal has no room and no array of its own.
  unfoldable pub get_all : ConfigTree N → Memory × List (Slice × N)
  get_all no_root = ([], [])
  get_all empty_root = ([], [])
  get_all (root t) = collect t (record { array = 0; len = 0; capacity = 0 }) ([] ∷ []) []

get_elem?-write_array :
    (a i : ℕ) (x : Text) (m : Memory) (cells : List Text)
    → get_elem? m a ≡ some cells
    → get_elem? (write_array a i x m) a ≡ some (write i x cells)
get_elem?-write_array a i x [] cells h = absurd (ground arith)
get_elem?-write_array zero i x (c ∷ m) cells h = ground arith
get_elem?-write_array (suc a) i x (c ∷ m) cells h = get_elem?-write_array a i x m cells h

take-write :
    (i : ℕ) (x : Text) (cells : List Text)
    → i ≤ length cells
    → take (suc i) (write i x cells) ≡ take i cells ++ x ∷ []
take-write zero x [] h = refl
take-write (suc i) x [] h = absurd (omega arith)
take-write zero x (c ∷ cells) h = refl
take-write (suc i) x (c ∷ cells) h = ap (λ l. c ∷ l) (take-write i x cells (omega arith))

take-write_same :
    (i : ℕ) (x : Text) (cells : List Text)
    → i ≤ length cells
    → take i (write i x cells) ≡ take i cells
take-write_same zero x cells h = refl
take-write_same (suc i) x [] h = absurd (omega arith)
take-write_same (suc i) x (c ∷ cells) h = ap (λ l. c ∷ l) (take-write_same i x cells (omega arith))

le-write : (i : ℕ) (x : Text) (cells : List Text) → i ≤ length cells → i ≤ length (write i x cells)
le-write zero x [] h = omega arith
le-write (suc i) x [] h = absurd (omega arith)
le-write zero x (c ∷ cells) h = omega arith
le-write (suc i) x (c ∷ cells) h = omega (arith, le-write i x cells (omega arith))

-- The slice's array is in memory and is written as far as the slice reaches.
unfoldable pub Backed : Memory → Slice → Type 0
Backed m s = (cells : List Text) × (get_elem? m s.array ≡ some cells) × (s.len ≤ length cells)

cells_of-elem :
    (m : Memory) (s : Slice) (cells : List Text)
    → get_elem? m s.array ≡ some cells
    → cells_of m s ≡ take s.len cells
cells_of-elem m s cells h = ground arith

cells_of-write_array :
    (m : Memory) (s : Slice) (x : Text)
    → Backed m s
    → cells_of (write_array s.array s.len x m) (record s { len = suc s.len })
      ≡ cells_of m s ++ x ∷ []
unfolding Backed
cells_of-write_array m s x (cells, h, le) =
    cells_of-elem (write_array s.array s.len x m) (record s { len = suc s.len })
      (write s.len x cells) (get_elem?-write_array s.array s.len x m cells h)
    ∙ take-write s.len x cells le
    ∙ sym (ap (λ l. l ++ x ∷ []) (cells_of-elem m s cells h))

cells_of-overwrite :
    (m : Memory) (s : Slice) (x y : Text)
    → Backed m s
    → cells_of
        (write_array s.array s.len y (write_array s.array s.len x m))
        (record s { len = suc s.len })
      ≡ cells_of m s ++ y ∷ []
unfolding Backed
cells_of-overwrite m s x y (cells, h, le) =
    cells_of-write_array (write_array s.array s.len x m) s y (
      write s.len x cells,
      get_elem?-write_array s.array s.len x m cells h,
      le-write s.len x cells le,
    )
    ∙ ap (λ l. l ++ y ∷ [])
        (cells_of-elem (write_array s.array s.len x m) s (write s.len x cells)
            (get_elem?-write_array s.array s.len x m cells h)
          ∙ take-write_same s.len x cells le
          ∙ sym (cells_of-elem m s cells h))

append-room :
    (grow : ℕ → ℕ) (m : Memory) (s : Slice) (x : Text)
    → s.len < s.capacity
    → append grow m s x ≡ (write_array s.array s.len x m, record s { len = suc s.len })
unfolding append
append-room grow m s x room = ground arith

leaf : {N : Type 0} → Text → N → Tree N
leaf k n = node k (some n) nil

module _ {N : Type 0} (grow : ℕ → ℕ) (m : Memory) (key : Slice) (d e : Text) (n p : N)
    (found : List (Slice × N)) where
  pub SharedKey : Type 0
  SharedKey =
      (m' : Memory) × (s : Slice) × (collect_children grow (cons (leaf d n) (cons (leaf e p) nil))
          key m found
        ≡ (m', (found ++ (s, n) ∷ []) ++ (s, p) ∷ []))
      × (cells_of m' s ≡ cells_of m key ++ e ∷ [])

  -- Where the slice of a node's key has room left, the keys that GetAll returns for two leaves
  -- below the node are one and the same slice, which holds the path of the second leaf: the first
  -- leaf's own path is lost.
  pub collect_children-shared : Backed m key → key.len < key.capacity → SharedKey
  unfolding SharedKey collect_children leaf
  collect_children-shared b room = (
    write_array key.array key.len e (write_array key.array key.len d m),
    record key { len = suc key.len },
    rw
        (
          append-room grow m key d room,
          append-room grow (write_array key.array key.len d m) key e room,
        )
        refl,
    cells_of-overwrite m key d e b,
  )
