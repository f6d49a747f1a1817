-- ===== src/LinkedList.antt =====
-- kernel/base/datastructs/list.c: doubly linked lists over a store of nodes. A pointer is a number and
-- NULL is 0; an address with no node is `none`, and so is a call that reads there. A loop that runs to
-- the end of a list takes fuel.
pub mod Hashmap
pub mod Chain
mod Tests
use helix_os.Common.{
  ℕ, zero, suc, ◌+◌, ◌-◌, ◌^◌, Bool, true, false, Option, none, some, ltb, ◌==◌, if◌then◌else◌,
  ◌+w◌, ◌>>=◌,
}

-- `list_node_t`; `object` is its `data`.
pub record Node : Type 0 where
  pub next : ℕ
  pub prev : ℕ
  pub val : ℕ
  pub object : ℕ

-- `list_head_t`
pub record Head : Type 0 where
  pub base : ℕ
  pub last : ℕ
  pub length : ℕ
  pub flags : ℕ

abbrev pub Nodes : Type 0
Nodes = ℕ → Option Node

abbrev pub write : Nodes → ℕ → Option Node → Nodes
write nodes ptr node p = if p == ptr then node else nodes p

pub list_create : ℕ → Head
list_create flags = record { base = 0; last = 0; length = 0; flags = flags }

-- `for ( move = list; move->next; move = move->next );`
pub find_last : ℕ → Nodes → ℕ → Option ℕ
find_last zero nodes move = none
find_last (suc fuel) nodes move = nodes move >>= λ node.
    let rest = find_last fuel nodes node.next in if node.next == 0 then some move else rest

-- The new node behind the one that `move` points to.
pub link_after : ℕ → ℕ → ℕ → Nodes → ℕ → Option (ℕ × Nodes)
link_after fresh val object nodes move = do
  node ← nodes move
  some (
    fresh,
    write (write nodes move (some (record node { next = fresh }))) fresh
        (some (record { next = 0; prev = move; val = val; object = object })),
  )

-- `fresh` is the block that `kmalloc` returns.
pub list_add_node : ℕ → ℕ → Nodes → ℕ → ℕ → ℕ → Option (ℕ × Nodes)
list_add_node fuel fresh nodes list val object =
    if list == 0
    then some (
      fresh,
      write nodes fresh (some (record { next = 0; prev = 0; val = val; object = object })),
    )
    else (find_last fuel nodes list >>= link_after fresh val object nodes)

pub list_add_int_node : ℕ → ℕ → Nodes → ℕ → ℕ → Option (ℕ × Nodes)
list_add_int_node fuel fresh nodes list val = list_add_node fuel fresh nodes list val 0

pub list_add_data_node : ℕ → ℕ → Nodes → ℕ → ℕ → Option (ℕ × Nodes)
list_add_data_node fuel fresh nodes list object = list_add_node fuel fresh nodes list 0 object

-- `list->last = …; if ( !list->base ) list->base = list->last;`
abbrev pub set_last : Head → ℕ → Head
set_last list node = record list { last = node; base = if list.base == 0 then node else list.base }

pub list_add_int : ℕ → ℕ → Nodes → Head → ℕ → Option (ℕ × Head × Nodes)
list_add_int fuel fresh nodes list val = do
  (node, nodes') ← list_add_int_node fuel fresh nodes list.last val
  some (node, set_last list node, nodes')

unfoldable pub list_add_data : ℕ → ℕ → Nodes → Head → ℕ → Option (ℕ × Head × Nodes)
list_add_data fuel fresh nodes list object = do
  (node, nodes') ← list_add_data_node fuel fresh nodes list.last object
  some (node, set_last list node, nodes')

-- The loop of `list_get_val`; NULL where no node has the value.
pub find_val : ℕ → Nodes → ℕ → ℕ → Option ℕ
find_val zero nodes move val = none
find_val (suc fuel) nodes move val =
    let body = nodes move >>= λ node.
    let rest = find_val fuel nodes node.next val in if node.val == val then some move else rest in
    if move == 0 then some 0 else body

pub list_get_val : ℕ → Nodes → Head → ℕ → Option ℕ
list_get_val fuel nodes list val = find_val fuel nodes list.base val

-- The loop of `list_get_index`, in one of its two directions; the first argument is how many steps
-- are left.
pub move_by : (Node → ℕ) → ℕ → Nodes → ℕ → Option ℕ
move_by direction zero nodes move = some move
move_by direction (suc left) nodes move =
    let step = nodes move >>= λ node. move_by direction left nodes (direction node) in
    if move == 0 then some 0 else step

-- `i` is an `int` by its 32-bit pattern. With no last node, a negative index gives the base.
pub list_get_index : Nodes → Head → ℕ → Option ℕ
list_get_index nodes list i =
    if i == 0
    then some list.base
    else (if ltb i (2 ^ 31)
        then move_by (λ node. node.next) i nodes list.base
        else (if list.last == 0
            then some list.base
            else move_by (λ node. node.prev) (2 ^ 32 - i) nodes list.last))

-- A neighbour takes over the pointer; NULL is no neighbour.
unfoldable pub unlink : (Node → Node) → Nodes → ℕ → Option Nodes
unlink change nodes ptr =
    let changed = nodes ptr >>= λ node. some (write nodes ptr (some (change node))) in
    if ptr == 0 then some nodes else changed

-- The neighbours of the node are joined, and it is freed.
unfoldable pub remove_linked : Nodes → ℕ → Node → Option (ℕ × Nodes)
remove_linked nodes ptr node = do
  nodes1 ← unlink (λ n. record n { next = node.next }) nodes node.prev
  nodes2 ← unlink (λ n. record n { prev = node.prev }) nodes1 node.next
  some (if node.prev == 0 then node.next else node.prev, write nodes2 ptr none)

-- The head of the list, if there is one, is not told.
unfoldable pub list_remove_node : Nodes → ℕ → Option (ℕ × Nodes)
list_remove_node nodes ptr =
    let removed = nodes ptr >>= remove_linked nodes ptr in
    if ptr == 0 then some (0, nodes) else removed

pub list_remove_index : Nodes → Head → ℕ → Option (ℕ × Nodes)
list_remove_index nodes list index = list_get_index nodes list index >>= list_remove_node nodes

pub listlen_loop : ℕ → Nodes → ℕ → ℕ → Option ℕ
listlen_loop zero nodes move i = none
listlen_loop (suc fuel) nodes move i =
    let more = nodes move >>= λ node. listlen_loop fuel nodes node.next (i +w 1) in
    if move == 0 then some i else more

pub listlen : ℕ → Nodes → ℕ → Option ℕ
listlen fuel nodes node = listlen_loop fuel nodes node 0
