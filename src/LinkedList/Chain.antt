-- ===== src/LinkedList/Chain.antt =====
-- What a list stands for: its cells, in order.
use helix_os.Common.{
  ℕ, zero, suc, ◌<◌, ◌≡◌, ◌≢◌, refl, sym, ap, ◌∙◌, Bool, true, false, Option, some, List, [], ◌∷◌,
  ◌++◌, arith, ◌==◌, if◌then◌else◌, length,
}
use helix_os.LinkedList.{
  Node, Head, Nodes, write, find_last, link_after, list_add_node, list_add_data_node, list_add_data,
  set_last, find_val, list_get_val,
}

-- Address, value and object of a node.
abbrev pub Cell : Type 0
Cell = ℕ × ℕ × ℕ

abbrev pub Absent : ℕ → List Cell → Type 0
Absent a [] = Unit {0}
Absent a (c ∷ cells) = (a ≢ c.0) × Absent a cells

-- From `p` the nodes of the cells follow one another, each with the one before as its `prev`, at
-- different addresses.
abbrev pub Chain : Nodes → ℕ → ℕ → List Cell → Type 0
Chain nodes prev p [] = p ≡ 0
Chain nodes prev p ((a, v, d) ∷ cells) =
    (p ≡ a)
    × (a ≢ 0)
    × Absent a cells
    × ((q : ℕ) × (nodes a ≡ some (record { next = q; prev = prev; val = v; object = d }))
        × Chain nodes a q cells)

abbrev pub last_of : ℕ → List Cell → ℕ
last_of prev [] = prev
last_of prev ((a, v, d) ∷ cells) = last_of a cells

abbrev pub IsList : Nodes → Head → List Cell → Type 0
IsList nodes list cells = Chain nodes 0 list.base cells × (list.last ≡ last_of 0 cells)

-- A change elsewhere leaves the chain as it is.
pub Chain-frame :
    (nodes nodes' : Nodes) (prev p : ℕ) (cells : List Cell)
    → ((a : ℕ) → (Absent a cells → ⊥) → nodes' a ≡ nodes a)
    → Chain nodes prev p cells
    → Chain nodes' prev p cells
Chain-frame nodes nodes' prev p [] same c = c
Chain-frame nodes nodes' prev p ((a, v, d) ∷ cells) same (e, ne, out, (q, at, rest)) = (
  e,
  ne,
  out,
  (
    q,
    same a (λ abs. abs.0 refl) ∙ at,
    Chain-frame nodes nodes' a q cells (λ b there. same b (λ abs. there abs.1)) rest,
  ),
)

-- The first object with the value, NULL if there is none.
unfoldable pub first_val : ℕ → List Cell → ℕ
first_val val [] = 0
first_val val ((a, v, d) ∷ cells) = let rest = first_val val cells in if v == val then a else rest

pub find_val-first_val :
    (fuel : ℕ) (nodes : Nodes) (prev p val : ℕ) (cells : List Cell)
    → Chain nodes prev p cells
    → length cells < fuel
    → find_val fuel nodes p val ≡ some (first_val val cells)
unfolding find_val first_val
find_val-first_val zero nodes prev p val cells c enough = absurd (omega arith)
find_val-first_val (suc fuel) nodes prev p val [] c enough =
    let z : (p == 0) ≡ true = ground arith in rw z refl
find_val-first_val (suc fuel) nodes prev p val ((a, v, d) ∷ cells) (e, ne, out, (q, at, rest))
      enough =
    let z : (p == 0) ≡ false = ground arith in
    let later = find_val-first_val fuel nodes a q val cells rest (omega arith) in
    rw (z, e, at, later) (choose (v == val))
  where
    choose :
        (b : Bool)
        → (if b then some a else some (first_val val cells))
          ≡ some (if b then a else first_val val cells)
    choose true = refl
    choose false = refl

Absent-last :
    (a prev : ℕ) (c : Cell) (cells : List Cell)
    → Absent a (c ∷ cells)
    → a ≢ last_of prev (c ∷ cells)
Absent-last a prev (b, v, d) [] out = out.0
Absent-last a prev (b, v, d) (c ∷ cells) out = Absent-last a b c cells out.1

Absent-snoc :
    (a b v d : ℕ) (cells : List Cell) → Absent a cells → a ≢ b → Absent a (cells ++ (b, v, d) ∷ [])
Absent-snoc a b v d [] out ne = (ne, tt)
Absent-snoc a b v d (c ∷ cells) out ne = (out.0, Absent-snoc a b v d cells out.1 ne)

-- The node of the last cell points nowhere.
last_node :
    (nodes : Nodes) (prev p : ℕ) (c : Cell) (cells : List Cell)
    → Chain nodes prev p (c ∷ cells)
    → (last_of prev (c ∷ cells) ≢ 0)
      × ((m : Node) × (nodes (last_of prev (c ∷ cells)) ≡ some m) × (m.next ≡ 0))
last_node nodes prev p (a, v, d) [] (e, ne, out, (q, at, rest)) =
    (ne, (record { next = q; prev = prev; val = v; object = d }, at, rest))
last_node nodes prev p (a, v, d) (c ∷ cells) (e, ne, out, (q, at, rest)) =
    last_node nodes a q c cells rest

-- A node that the last one of a chain is made to point to.
Chain-snoc :
    (nodes nodes' : Nodes) (prev p fresh v d : ℕ) (c : Cell) (cells : List Cell)
    → Chain nodes prev p (c ∷ cells)
    → fresh ≢ 0
    → Absent fresh (c ∷ cells)
    → ((m : Node)
        → nodes (last_of prev (c ∷ cells)) ≡ some m
        → nodes' (last_of prev (c ∷ cells)) ≡ some (record m { next = fresh }))
    → nodes' fresh
      ≡ some (record { next = 0; prev = last_of prev (c ∷ cells); val = v; object = d })
    → ((a : ℕ) → a ≢ last_of prev (c ∷ cells) → a ≢ fresh → nodes' a ≡ nodes a)
    → Chain nodes' prev p (c ∷ (cells ++ (fresh, v, d) ∷ []))
Chain-snoc nodes nodes' prev p fresh v d (a, w, b) [] (e, ne, out, (q, at, rest)) some_fresh apart
      at_last at_fresh same =
    (
      e,
      ne,
      (λ z. apart.0 (sym z), tt),
      (fresh, at_last _ at, (refl, some_fresh, tt, (0, at_fresh, refl))),
    )
Chain-snoc nodes nodes' prev p fresh v d (a, w, b) (c ∷ cells) (e, ne, out, (q, at, rest))
      some_fresh apart at_last at_fresh same =
    (
      e,
      ne,
      Absent-snoc a fresh v d (c ∷ cells) out (λ z. apart.0 (sym z)),
      (
        q,
        same a (Absent-last a a c cells out) (λ z. apart.0 (sym z)) ∙ at,
        Chain-snoc nodes nodes' a q fresh v d c cells rest some_fresh apart.1 at_last at_fresh same,
      ),
    )

last_of-snoc :
    (prev fresh v d : ℕ) (cells : List Cell) → last_of prev (cells ++ (fresh, v, d) ∷ []) ≡ fresh
last_of-snoc prev fresh v d [] = refl
last_of-snoc prev fresh v d ((a, w, b) ∷ cells) = last_of-snoc a fresh v d cells

-- The node that `list_add_data` made, with another value.
abbrev pub set_node_val : Nodes → ℕ → ℕ → Node → Nodes
set_node_val nodes fresh hash node = write nodes fresh (some (record node { val = hash }))

abbrev pointing : ℕ → Node → Option Node
pointing next node = some (record node { next = next })

abbrev end_node : ℕ → ℕ → ℕ → Option Node
end_node val object prev = some (record { next = 0; prev = prev; val = val; object = object })

-- `list_add_data` to a list, of a node at an address that is none of its nodes', puts it behind the
-- others and returns it. The node then holds the object, and may be given another value.
pub list_add_data-IsList :
    (fuel fresh object : ℕ) (nodes : Nodes) (list : Head) (cells : List Cell)
    → IsList nodes list cells
    → fresh ≢ 0
    → Absent fresh cells
    → (list' : Head) × (nodes' : Nodes) × (node : Node) × (list_add_data
          (suc fuel)
          fresh
          nodes
          list
          object
        ≡ some (fresh, list', nodes'))
      × (nodes' fresh ≡ some node)
      × (node.object ≡ object)
      × ((hash : ℕ)
          → IsList
              (set_node_val nodes' fresh hash node)
              list'
              (cells ++ (fresh, hash, object) ∷ []))
unfolding list_add_data list_add_data_node list_add_node find_last link_after
list_add_data-IsList fuel fresh object nodes list [] (base, last) some_fresh apart =
    let e : (list.last == 0) ≡ true = ground arith in
    let b : (list.base == 0) ≡ true = ground arith in
    let same : (fresh == fresh) ≡ true = ground arith in
    let made : Node = record { next = 0; prev = 0; val = 0; object = object } in
    (
      set_last list fresh,
      write nodes fresh (some made),
      made,
      rw e refl,
      rw same refl,
      refl,
      λ hash. (rw b (refl, some_fresh, tt, (0, rw same refl, refl)), refl),
    )
list_add_data-IsList fuel fresh object nodes list ((a, v, d) ∷ cells) (chain, last) some_fresh
      apart =
    let l = last_of a cells in
    let (ne, (m, at, end)) = last_node nodes 0 list.base (a, v, d) cells chain in
    let (first, some_first, _, _) = chain in
    let e : (list.last == 0) ≡ false = ground arith in
    let z : (m.next == 0) ≡ true = ground arith in
    let b : (list.base == 0) ≡ false = ground arith in
    let same : (fresh == fresh) ≡ true = ground arith in
    let apart_last : fresh ≢ l = Absent-last fresh 0 (a, v, d) cells apart in
    let far : (l == fresh) ≡ false = ground arith in
    let here : (l == list.last) ≡ true = ground (arith, last) in
    let at' : nodes list.last ≡ some m = ap nodes last ∙ at in
    let made : Node = record { next = 0; prev = list.last; val = 0; object = object } in
    (
      set_last list fresh,
      write (write nodes list.last (some (record m { next = fresh }))) fresh (some made),
      made,
      rw (e, at', z, at') refl,
      rw same refl,
      refl,
      λ hash. (
        rw b (
            Chain-snoc nodes _ 0 list.base fresh hash object (a, v, d) cells chain some_fresh apart
              (λ m' is_m'.
                let n : m ≡ m' = let f : some m ≡ some m' = sym at ∙ is_m' in cc in
                rw (far, here) (ap (pointing fresh) n))
              (rw same (ap (end_node hash object) last))
              (λ x other new.
                let x_far : (x == fresh) ≡ false = ground arith in
                let x_other : (x == list.last) ≡ false = ground (arith, last) in
                rw (x_far, x_other) refl)),
        sym (last_of-snoc a fresh hash object cells),
      ),
    )

-- `list_get_val` returns the first node with the value, NULL if there is none.
pub list_get_val-first_val :
    (fuel : ℕ) (nodes : Nodes) (list : Head) (val : ℕ) (cells : List Cell)
    → IsList nodes list cells
    → length cells < fuel
    → list_get_val fuel nodes list val ≡ some (first_val val cells)
unfolding list_get_val
list_get_val-first_val fuel nodes list val cells is enough =
    find_val-first_val fuel nodes 0 list.base val cells is.0 enough
