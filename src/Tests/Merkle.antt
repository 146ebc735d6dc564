-- ===== src/Tests/Merkle.antt =====
-- The Merkle tree on concrete inputs, with a checksum for the hash function.
use memory3d.Prelude.{ℕ, ◌+◌, ◌%◌, ◌≡◌, ◌↔◌, true, List, [], ◌∷◌}
use memory3d.Types.Address.{Address3D}
use memory3d.Merkle.{
  TreeHasher, Nodes, sha256_hasher, new_tree3d, update_tree, generate_proof, verify_proof,
}
use memory3d.Merkle.Proofs.{verify_proof-generate_proof}

abbrev total : List ℕ → ℕ
total [] = 0
total (b ∷ bs) = b + total bs

abbrev checksum : TreeHasher
checksum = sha256_hasher λ bs. total bs % 256 ∷ []

abbrev here : Address3D
here = record { x = 1; y = 2; z = 3 }

abbrev there : Address3D
there = record { x = 1; y = 2; z = 4 }

abbrev in_order : Nodes → Nodes
in_order nodes = nodes

verify_proof-generate_proof_example :
    let after = update_tree checksum in_order new_tree3d here (5 ∷ 6 ∷ []) in
    (verify_proof checksum after here (generate_proof after here) (6 ∷ 5 ∷ []) ≡ true)
    ↔ (TreeHasher.hash checksum (6 ∷ 5 ∷ []) ≡ TreeHasher.hash checksum (5 ∷ 6 ∷ []))
verify_proof-generate_proof_example =
    verify_proof-generate_proof checksum in_order new_tree3d here (5 ∷ 6 ∷ []) (6 ∷ 5 ∷ [])
