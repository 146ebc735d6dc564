-- ===== src/Merkle/Proofs.antt =====
-- What a proof of a node proves.
use memory3d.Prelude.{
  ℕ, ◌≡◌, refl, ap₂, ◌↔◌, true, some, List, [], ◌∷◌, arith, ◌==◌, ==→eq, ==_refl, if◌then◌else◌,
  inl, inr, Bool-cases,
}
use memory3d.Types.Address.Laws.{same_address_refl}
use memory3d.Types.Address.{Address3D, same_address}
use memory3d.Merkle.{
  TreeHasher, Tree3D, Nodes, node_at, put_node, update_tree, generate_proof, same_bytes,
  verify_proof,
}

same_bytes_refl : (bs : List ℕ) → same_bytes bs bs ≡ true
unfolding same_bytes
same_bytes_refl [] = refl
same_bytes_refl (b ∷ bs) = rw (==_refl b) (same_bytes_refl bs)

same_bytes-eq : (xs bs : List ℕ) → same_bytes xs bs ≡ true → xs ≡ bs
unfolding same_bytes
same_bytes-eq [] [] e = refl
same_bytes-eq [] (b ∷ bs) e = cc
same_bytes-eq (a ∷ xs) [] e = cc
same_bytes-eq (a ∷ xs) (b ∷ bs) e = elim (Bool-cases (a == b)) [
  | inl same ↦ ap₂ ◌∷◌ (==→eq a b same) (same_bytes-eq xs bs (ground (arith, e, same)))
  | inr other ↦ absurd (ground (arith, e, other))
]

node_at-put_node :
    (a b : Address3D) (h : List ℕ) (nodes : Nodes)
    → node_at b (put_node a h nodes) ≡ (if same_address a b then some h else node_at b nodes)
unfolding node_at put_node
node_at-put_node a b h [] = refl
node_at-put_node a b h ((c, g) ∷ nodes) = ground (arith, node_at-put_node a b h nodes)

module _ (hasher : TreeHasher) (order : Nodes → Nodes) (t : Tree3D) (addr : Address3D)
    (content : List ℕ) where
  -- After an Update the proof generated for that address is the hash of the content, and the
  -- proof for every other address is as before.
  pub generate_proof-update_tree :
      (other : Address3D)
      → generate_proof (update_tree hasher order t addr content) other ≡ (
          if same_address addr other
          then TreeHasher.hash hasher content ∷ []
          else generate_proof t other)
  unfolding generate_proof update_tree
  generate_proof-update_tree other =
      let there = node_at-put_node addr other (TreeHasher.hash hasher content) t.node_cache in
      elim (Bool-cases (same_address addr other)) [
        | inl e ↦ rw (there, generate_proof, e) refl
        | inr e ↦ rw (there, generate_proof, e) refl
      ]

  -- After an Update the proof generated for that address verifies exactly the contents that have
  -- the hash of the content written.
  pub verify_proof-generate_proof :
      (claimed : List ℕ)
      → let after = update_tree hasher order t addr content in
        (verify_proof hasher after addr (generate_proof after addr) claimed ≡ true)
        ↔ (TreeHasher.hash hasher claimed ≡ TreeHasher.hash hasher content)
  unfolding verify_proof
  verify_proof-generate_proof claimed =
      rw (generate_proof-update_tree addr, same_address_refl addr)
        (
          same_bytes-eq (TreeHasher.hash hasher claimed) (TreeHasher.hash hasher content),
          λ e. rw (e) (same_bytes_refl (TreeHasher.hash hasher content)),
        )
