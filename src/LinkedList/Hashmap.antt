-- ===== src/LinkedList/Hashmap.antt =====
-- kernel/base/datastructs/hashmap.c: a bucket is a list, whose nodes hold the hash as their value.
pub mod Lookup
pub mod Remove
use helix_os.Common.{ℕ, ◌%◌, Option, none, some, ◌==◌, if◌then◌else◌, ◌>>=◌}
use helix_os.LinkedList.{
  Node, Head, Nodes, write, list_create, list_add_data, list_get_val, list_remove_node,
}

-- `hashmap_t`; the array of heads by index.
pub record Hashmap : Type 0 where
  pub buckets : ℕ → Head
  pub nbuckets : ℕ

pub hashmap_create : ℕ → Hashmap
hashmap_create n = record { buckets = λ i. list_create 0; nbuckets = n }

abbrev pub bucket_of : Hashmap → ℕ → ℕ
bucket_of map hash = hash % map.nbuckets

abbrev pub put_bucket : Hashmap → ℕ → Head → Hashmap
put_bucket map b list = record map { buckets = λ i. if i == b then list else map.buckets i }

-- `node->val = hash;`, and what the call returns.
pub store_hash : Hashmap → ℕ → ℕ × Head × Nodes → Option (ℕ × Hashmap × Nodes)
store_hash map hash (ptr, list, nodes) = do
  node ← nodes ptr
  some (
    node.object,
    put_bucket map (bucket_of map hash) list,
    write nodes ptr (some (record node { val = hash })),
  )

-- `fresh` is the block of the new node, which is there.
pub hashmap_add : ℕ → ℕ → Nodes → Hashmap → ℕ → ℕ → Option (ℕ × Hashmap × Nodes)
hashmap_add fuel fresh nodes map hash val =
    list_add_data fuel fresh nodes (map.buckets (bucket_of map hash)) val >>= store_hash map hash

pub object_at : Nodes → ℕ → Option ℕ
object_at nodes ptr =
    let there = nodes ptr >>= λ node. some node.object in if ptr == 0 then some 0 else there

pub hashmap_get : ℕ → Nodes → Hashmap → ℕ → Option ℕ
hashmap_get fuel nodes map hash =
    list_get_val fuel nodes (map.buckets (bucket_of map hash)) hash >>= object_at nodes

pub hashmap_remove : ℕ → Nodes → Hashmap → ℕ → Option Nodes
hashmap_remove fuel nodes map hash =
    list_get_val fuel nodes (map.buckets (bucket_of map hash)) hash >>= λ ptr.
    (list_remove_node nodes ptr >>= λ r. some r.1)
