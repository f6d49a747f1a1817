-- ===== src/LinkedList/Tests.antt =====
-- Runs of the lists and the hashmap, and their theorems at a map with one node.
use helix_os.Common.{ℕ, ◌≡◌, refl, none, some, [], ◌∷◌, arith, ◌==◌, if◌then◌else◌}
use helix_os.LinkedList.{Head, Nodes, write, list_create}
use helix_os.LinkedList.Chain.{IsList}
use helix_os.LinkedList.Hashmap.{Hashmap, bucket_of, hashmap_add, hashmap_get, hashmap_remove}
use helix_os.LinkedList.Hashmap.Lookup.{lookup, hashmap_get-add}
use helix_os.LinkedList.Hashmap.Remove.{hashmap_remove_dangles}

abbrev nodes : Nodes
nodes = write (λ p. none) 100 (some (record { next = 0; prev = 0; val = 12; object = 7 }))

abbrev head : Head
head = record { base = 100; last = 100; length = 0; flags = 0 }

-- The hashes 12 and 2 share a bucket.
abbrev map : Hashmap
map = record { buckets = λ i. if i == 2 then head else list_create 0; nbuckets = 5 }

head-IsList : IsList nodes head ((100, 12, 7) ∷ [])
head-IsList = ((refl, omega arith, tt, (0, refl, refl)), refl)

hashmap_get-add_example :
    (map' : Hashmap) × (nodes' : Nodes) × (hashmap_add 3 200 nodes map 2 8 ≡ some (8, map', nodes'))
    × IsList nodes' (map'.buckets (bucket_of map' 2)) ((100, 12, 7) ∷ (200, 2, 8) ∷ [])
    × (hashmap_get 3 nodes' map' 2 ≡ some (lookup 2 ((100, 12, 7) ∷ (200, 2, 8) ∷ [])))
hashmap_get-add_example =
    hashmap_get-add 2 200 2 8 nodes map ((100, 12, 7) ∷ []) head-IsList (omega arith)
      (omega arith, tt) (omega arith)

hashmap_remove_dangles_example :
    (nodes' : Nodes) × (hashmap_remove 2 nodes map 12 ≡ some nodes')
    × ((map.buckets (bucket_of map 12)).base ≡ 100)
    × (nodes' 100 ≡ none)
    × ((fuel' : ℕ) → hashmap_get fuel' nodes' map 12 ≡ none)
hashmap_remove_dangles_example =
    hashmap_remove_dangles 2 nodes map 12 100 7 [] head-IsList (omega arith)
