-- ===== src/Merkle.antt =====
-- internal/merkle/tree.go. The hash function is a parameter, and so is the order in which range visits
-- the map of node hashes. Each method holds the tree's mutex throughout.
pub mod Proofs
use memory3d.Prelude.{
  ℕ, ◌+◌, ◌%◌, ◌^◌, Bool, true, false, Option, none, some, List, [], ◌∷◌, ◌++◌, ◌==◌, if◌then◌else◌,
  length, replicate, u64,
}
use memory3d.Types.Address.{Address3D, same_address}

-- TreeHasher.
pub record TreeHasher : Type 0 where
  pub hash : List ℕ → List ℕ
  pub combine_hashes : List ℕ → List ℕ → List ℕ

-- SHA256Hasher over the function of crypto/sha256.
unfoldable pub sha256_hasher : (List ℕ → List ℕ) → TreeHasher
sha256_hasher sha256 = record {
  hash = sha256;
  combine_hashes = λ left right. sha256 (left ++ right);
}

abbrev pub Nodes : Type 0
Nodes = List (Address3D × List ℕ)

-- The field `hasher` is an argument of the methods.
pub record Tree3D : Type 0 where
  pub root : List ℕ
  pub node_cache : Nodes
  pub updates : ℕ

unfoldable pub new_tree3d : Tree3D
new_tree3d = record { root = replicate 32 0; node_cache = []; updates = 0 }

unfoldable pub node_at : Address3D → Nodes → Option (List ℕ)
node_at addr [] = none
node_at addr ((a, h) ∷ nodes) = if same_address a addr then some h else node_at addr nodes

unfoldable pub put_node : Address3D → List ℕ → Nodes → Nodes
put_node addr h [] = (addr, h) ∷ []
put_node addr h ((a, g) ∷ nodes) =
    if same_address a addr then (addr, h) ∷ nodes else (a, g) ∷ put_node addr h nodes

unfoldable pub combine_all : TreeHasher → List ℕ → Nodes → List ℕ
combine_all hasher root [] = root
combine_all hasher root ((a, h) ∷ nodes) =
    combine_all hasher (TreeHasher.combine_hashes hasher root h) nodes

-- An empty map leaves the root of zeros, as the loop does.
unfoldable pub recompute_root : TreeHasher → Nodes → List ℕ
recompute_root hasher visited = combine_all hasher (replicate 32 0) visited

-- `order` gives the nodes in the order of the visit.
unfoldable pub update_tree : TreeHasher → (Nodes → Nodes) → Tree3D → Address3D → List ℕ → Tree3D
update_tree hasher order t addr content =
    let nodes = put_node addr (TreeHasher.hash hasher content) t.node_cache in
    record {
      node_cache = nodes;
      root = recompute_root hasher (order nodes);
      updates = u64 (t.updates + 1);
    }

abbrev pub get_root : Tree3D → List ℕ
get_root t = t.root

unfoldable pub generate_proof : Tree3D → Address3D → List (List ℕ)
generate_proof t addr = elim (node_at addr t.node_cache) [ none ↦ [] | some h ↦ h ∷ [] ]

-- The test on the lengths and the loop over the bytes.
unfoldable pub same_bytes : List ℕ → List ℕ → Bool
same_bytes [] [] = true
same_bytes [] (b ∷ bs) = false
same_bytes (a ∷ xs) [] = false
same_bytes (a ∷ xs) (b ∷ bs) = let rest = same_bytes xs bs in if a == b then rest else false

-- Neither the tree nor the address is looked at.
unfoldable pub verify_proof : TreeHasher → Tree3D → Address3D → List (List ℕ) → List ℕ → Bool
verify_proof hasher t addr [] content = false
verify_proof hasher t addr (actual ∷ more) content =
    same_bytes (TreeHasher.hash hasher content) actual

abbrev pub clear_tree : Tree3D → Tree3D
clear_tree t = record { node_cache = []; root = replicate 32 0; updates = 0 }

-- GetStatistics: the map's keys `updates`, `cached_nodes` and `root_hash`.
pub record TreeStatistics : Type 0 where
  pub updates : ℕ
  pub cached_nodes : ℕ
  pub root_hash : List ℕ

unfoldable pub get_statistics : Tree3D → TreeStatistics
get_statistics t = record {
  updates = t.updates;
  cached_nodes = length t.node_cache;
  root_hash = t.root;
}
