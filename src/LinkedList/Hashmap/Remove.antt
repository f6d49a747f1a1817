-- ===== src/LinkedList/Hashmap/Remove.antt =====
-- `hashmap_remove` of the first node of a bucket.
use helix_os.Common.{
  ℕ, zero, suc, ◌<◌, ◌≡◌, refl, ap, ◌∙◌, true, false, none, some, List, [], ◌∷◌, arith, ◌==◌,
  length,
}
use helix_os.LinkedList.{
  Head, Nodes, write, list_get_val, find_val, unlink, remove_linked, list_remove_node,
}
use helix_os.LinkedList.Chain.{Cell, IsList, first_val, list_get_val-first_val}
use helix_os.LinkedList.Hashmap.{Hashmap, bucket_of, hashmap_get, hashmap_remove}

module _ (fuel : ℕ) (nodes : Nodes) (map : Hashmap) (hash a d : ℕ) (cells : List Cell)
    (is : IsList nodes (map.buckets (bucket_of map hash)) ((a, hash, d) ∷ cells))
    (enough : length ((a, hash, d) ∷ cells) < fuel) where
  list : Head
  list = map.buckets (bucket_of map hash)

  get_gone :
      (nodes' : Nodes) (fuel' : ℕ) → nodes' a ≡ none → hashmap_get fuel' nodes' map hash ≡ none
  unfolding hashmap_get list_get_val find_val
  get_gone nodes' zero gone = refl
  get_gone nodes' (suc fuel') gone =
      let ((base, ne, _, _), _) = is in
      let some_base : ((map.buckets (bucket_of map hash)).base == 0) ≡ false = ground arith in
      rw (some_base, base, gone) refl

  get_first : list_get_val fuel nodes (map.buckets (bucket_of map hash)) hash ≡ some a
  unfolding first_val
  get_first =
      let same : (hash == hash) ≡ true = ground arith in
      list_get_val-first_val fuel nodes (map.buckets (bucket_of map hash)) hash
        ((a, hash, d) ∷ cells) is enough
      ∙ rw same refl

-- `hashmap_remove` of a hash whose node is the first of its bucket frees the node and leaves the head of
-- the bucket pointing to it: every later `hashmap_get` in the bucket reads a node that is gone. (The
-- fuel is more than the nodes of the bucket.)
pub hashmap_remove_dangles :
    (fuel : ℕ) (nodes : Nodes) (map : Hashmap) (hash a d : ℕ) (cells : List Cell)
    → IsList nodes (map.buckets (bucket_of map hash)) ((a, hash, d) ∷ cells)
    → length ((a, hash, d) ∷ cells) < fuel
    → (nodes' : Nodes) × (hashmap_remove fuel nodes map hash ≡ some nodes')
      × ((map.buckets (bucket_of map hash)).base ≡ a)
      × (nodes' a ≡ none)
      × ((fuel' : ℕ) → hashmap_get fuel' nodes' map hash ≡ none)
unfolding hashmap_remove list_remove_node remove_linked unlink
hashmap_remove_dangles fuel nodes map hash a d [] is enough =
    let ((base, ne, _, (q, at, q_null)), _) = is in
    let some_a : (a == 0) ≡ false = ground arith in
    let no_next : (q == 0) ≡ true = ground arith in
    let same : (a == a) ≡ true = ground arith in
    let gone : write nodes a none a ≡ none = rw same refl in
    (
      write nodes a none,
      rw (get_first fuel nodes map hash a d [] is enough, some_a, at, no_next) refl,
      base,
      gone,
      λ fuel'. get_gone fuel nodes map hash a d [] is enough (write nodes a none) fuel' gone,
    )
hashmap_remove_dangles fuel nodes map hash a d ((b, v, o) ∷ cells) is enough =
    let ((base, ne, _, (q, at, (q_b, some_b, _, (r, at_b, _)))), _) = is in
    let some_a : (a == 0) ≡ false = ground arith in
    let some_next : (q == 0) ≡ false = ground arith in
    let same : (a == a) ≡ true = ground arith in
    let at_q : nodes q ≡ some (record { next = r; prev = a; val = v; object = o }) =
      ap nodes q_b ∙ at_b in
    let nodes' =
      write (write nodes q (some (record { next = r; prev = 0; val = v; object = o }))) a none in
    let gone : nodes' a ≡ none = rw same refl in
    (
      nodes',
      rw
          (
            get_first fuel nodes map hash a d ((b, v, o) ∷ cells) is enough,
            some_a,
            at,
            some_next,
            at_q,
          )
          refl,
      base,
      gone,
      λ fuel'. get_gone fuel nodes map hash a d ((b, v, o) ∷ cells) is enough nodes' fuel' gone,
    )
