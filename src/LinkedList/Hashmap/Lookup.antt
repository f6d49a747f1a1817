-- ===== src/LinkedList/Hashmap/Lookup.antt =====
-- What `hashmap_get` finds after `hashmap_add`.
use mathlib.Core.Path.{subst}
use helix_os.Common.{
  ℕ, suc, ◌<◌, ◌≡◌, ◌≢◌, refl, sym, ap, true, false, some, List, [], ◌∷◌, ◌++◌, arith, ◌==◌,
  if◌then◌else◌, length, length-append, Bool-cases, inl, inr,
}
use helix_os.LinkedList.{Nodes}
use helix_os.LinkedList.Chain.{
  Cell, Absent, Chain, IsList, first_val, list_add_data-IsList, list_get_val-first_val,
  set_node_val,
}
use helix_os.LinkedList.Hashmap.{
  Hashmap, bucket_of, put_bucket, store_hash, hashmap_add, hashmap_get, object_at,
}

-- What the cells of a bucket give for a hash: the object of the first with that hash, NULL if none.
pub lookup : ℕ → List Cell → ℕ
lookup hash [] = 0
lookup hash ((a, v, d) ∷ cells) = let rest = lookup hash cells in if v == hash then d else rest

object_at-first_val :
    (nodes : Nodes) (prev p hash : ℕ) (cells : List Cell)
    → Chain nodes prev p cells
    → object_at nodes (first_val hash cells) ≡ some (lookup hash cells)
unfolding object_at lookup first_val
object_at-first_val nodes prev p hash [] c = refl
object_at-first_val nodes prev p hash ((a, v, d) ∷ cells) (e, ne, out, (q, at, rest)) =
    elim (Bool-cases (v == hash)) [
      | inl here ↦ let z : (a == 0) ≡ false = ground arith in rw (here, z, at) refl
      | inr there ↦ rw there (object_at-first_val nodes a q hash cells rest)
    ]

pub hashmap_get-lookup :
    (fuel : ℕ) (nodes : Nodes) (map : Hashmap) (hash : ℕ) (cells : List Cell)
    → IsList nodes (map.buckets (bucket_of map hash)) cells
    → length cells < fuel
    → hashmap_get fuel nodes map hash ≡ some (lookup hash cells)
unfolding hashmap_get
hashmap_get-lookup fuel nodes map hash cells is enough =
    rw (list_get_val-first_val fuel nodes (map.buckets (bucket_of map hash)) hash cells is enough)
      (object_at-first_val nodes 0 _ hash cells is.0)

-- `hashmap_add` of an object to a map whose bucket for the hash is a list, with a new node at an address
-- that is none of the list's, returns the object, and makes the bucket the list with the new cell at its
-- end. `hashmap_get` then finds the object that was found before under the same hash, if any was, and
-- else the new one. (The fuel is more than the nodes of the bucket.)
pub hashmap_get-add :
    (fuel fresh hash val : ℕ) (nodes : Nodes) (map : Hashmap) (cells : List Cell)
    → IsList nodes (map.buckets (bucket_of map hash)) cells
    → fresh ≢ 0
    → Absent fresh cells
    → length cells < fuel
    → (map' : Hashmap) × (nodes' : Nodes) × (hashmap_add (suc fuel) fresh nodes map hash val
        ≡ some (val, map', nodes'))
      × IsList nodes' (map'.buckets (bucket_of map' hash)) (cells ++ (fresh, hash, val) ∷ [])
      × (hashmap_get (suc fuel) nodes' map' hash
          ≡ some (lookup hash (cells ++ (fresh, hash, val) ∷ [])))
unfolding hashmap_add store_hash
hashmap_get-add fuel fresh hash val nodes map cells is some_fresh apart enough =
    let (list', made, node, added, there, stored, is') =
      list_add_data-IsList fuel fresh val nodes (map.buckets (bucket_of map hash)) cells is
        some_fresh apart in
    let map' = put_bucket map (bucket_of map hash) list' in
    let same : (bucket_of map hash == bucket_of map hash) ≡ true = ground arith in
    let bucket : map'.buckets (bucket_of map' hash) ≡ list' = rw same refl in
    let nodes' = set_node_val made fresh hash node in
    let is_list =
      subst (λ l. IsList nodes' l (cells ++ (fresh, hash, val) ∷ [])) (sym bucket) (is' hash) in
    (
      map',
      nodes',
      rw (added, there) (ap (λ o. some (o, map', nodes')) stored),
      is_list,
      hashmap_get-lookup (suc fuel) nodes' map' hash _ is_list
          (omega (arith, length-append cells ((fresh, hash, val) ∷ []))),
    )
