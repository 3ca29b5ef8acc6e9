-- ===== src/Merkle/Binding.antt =====
-- A root binds its leaves: two logs of one length with one root are equal, or two different pairs at one
-- place of their trees have one hash (merkle.rs).
use graph_privacy_showcase_d.Common.{
  ℕ, zero, suc, ◌<◌, some, List, [], ◌∷◌, map, get_elem?, ◌≡◌, refl, sym, ap, ◌∙◌, ◌⊎◌, inl, inr,
  arith, length, ok, ℕ_discrete,
}
use graph_privacy_showcase_d.Field.{FieldOps, hash_pair}
use graph_privacy_showcase_d.Field.Codec.{FieldLaws, fr_value}
use graph_privacy_showcase_d.Merkle.{next_level, reduce, build_merkle_root}

-- The pairs of a level that are hashed; a node without a sibling is its own.
abbrev pub pairs {ℓ} : {A : Type ℓ} → List A → List (A × A)
pairs [] = []
pairs (a ∷ []) = (a, a) ∷ []
pairs (a ∷ b ∷ rest) = (a, b) ∷ pairs rest

module _ (F : FieldOps) where
  open F use {Fr}

  -- The nodes of a tree at a height above its leaves.
  abbrev pub nodes_at : ℕ → List Fr → List Fr
  nodes_at zero leaves = leaves
  nodes_at (suc height) leaves =
      nodes_at height (map (λ (p : Fr × Fr). hash_pair F p.0 p.1) (pairs leaves))

  -- At one place in the trees of two logs, below their roots, two different pairs have one hash.
  pub record Collision (xs ys : List Fr) : Type 0 where
    pub height : ℕ
    pub position : ℕ
    pub p : Fr × Fr
    pub q : Fr × Fr
    pub below_root : 1 < length (nodes_at height xs)
    pub in_first : get_elem? (pairs (nodes_at height xs)) position ≡ some p
    pub in_second : get_elem? (pairs (nodes_at height ys)) position ≡ some q
    pub same_hash : hash_pair F p.0 p.1 ≡ hash_pair F q.0 q.1
    pub differ : ¬ ((p.0 ≡ q.0) × (p.1 ≡ q.1))

module _ (F : FieldOps) (L : FieldLaws F) where
  open F use {Fr}

  pub fr_discrete : Discrete Fr
  fr_discrete f g = elim (ℕ_discrete (fr_value F f) (fr_value F g)) [
    | yes same ↦ yes (L.repr_injective f g same)
    | no other ↦ no (λ e. other (ap (fr_value F) e))
  ]

  -- Two lists of pairs have different pairs with one hash at one position.
  record Clash (ps qs : List (Fr × Fr)) : Type 0 where
    position : ℕ
    p : Fr × Fr
    q : Fr × Fr
    in_first : get_elem? ps position ≡ some p
    in_second : get_elem? qs position ≡ some q
    same_hash : hash_pair F p.0 p.1 ≡ hash_pair F q.0 q.1
    differ : ¬ ((p.0 ≡ q.0) × (p.1 ≡ q.1))

  pair_binding :
      (a b c d : Fr) (ps qs : List (Fr × Fr))
      → hash_pair F a b ≡ hash_pair F c d
      → ((a ≡ c) × (b ≡ d)) ⊎ Clash ((a, b) ∷ ps) ((c, d) ∷ qs)
  pair_binding a b c d ps qs e = elim (fr_discrete a c) [
    | yes same ↦ elim (fr_discrete b d) [
      | yes also ↦ inl (same, also)
      | no other ↦ inr (found (λ s. other s.1))
    ]
    | no other ↦ inr (found (λ s. other s.0))
  ]
    where
      found : ¬ ((a ≡ c) × (b ≡ d)) → Clash ((a, b) ∷ ps) ((c, d) ∷ qs)
      found differ = record {
        position = 0;
        p = (a, b);
        q = (c, d);
        in_first = refl;
        in_second = refl;
        same_hash = e;
        differ = differ;
      }

  next-Clash : (x y : Fr × Fr) (ps qs : List (Fr × Fr)) → Clash ps qs → Clash (x ∷ ps) (y ∷ qs)
  next-Clash x y ps qs c = record {
    position = suc c.position;
    p = c.p;
    q = c.q;
    in_first = c.in_first;
    in_second = c.in_second;
    same_hash = c.same_hash;
    differ = c.differ;
  }

  both :
      {a b c d : Fr} {xs ys : List Fr}
      → ((a ≡ c) × (b ≡ d)) ⊎ Clash ((a, b) ∷ pairs xs) ((c, d) ∷ pairs ys)
      → (xs ≡ ys) ⊎ Clash (pairs xs) (pairs ys)
      → (a ∷ b ∷ xs ≡ c ∷ d ∷ ys) ⊎ Clash ((a, b) ∷ pairs xs) ((c, d) ∷ pairs ys)
  both (inl (p, q)) (inl r) = inl (cc)
  both (inl p) (inr c) = inr (next-Clash _ _ _ _ c)
  both (inr c) r = inr c

  next_level_binding :
      (xs ys : List Fr)
      → length xs ≡ length ys
      → next_level F xs ≡ next_level F ys
      → (xs ≡ ys) ⊎ Clash (pairs xs) (pairs ys)
  unfolding next_level
  next_level_binding [] [] n e = inl refl
  next_level_binding [] (c ∷ ys) n e = absurd (omega arith)
  next_level_binding (a ∷ xs) [] n e = absurd (omega arith)
  next_level_binding (a ∷ []) (c ∷ []) n e = single (pair_binding a a c c [] [] (cc))
    where
      single :
          ((a ≡ c) × (a ≡ c)) ⊎ Clash ((a, a) ∷ []) ((c, c) ∷ [])
          → (a ∷ [] ≡ c ∷ []) ⊎ Clash ((a, a) ∷ []) ((c, c) ∷ [])
      single (inl (p, q)) = inl (cc)
      single (inr k) = inr k
  next_level_binding (a ∷ []) (c ∷ d ∷ ys) n e = absurd (omega arith)
  next_level_binding (a ∷ b ∷ xs) (c ∷ []) n e = absurd (omega arith)
  next_level_binding (a ∷ b ∷ xs) (c ∷ d ∷ ys) n e =
      both (pair_binding a b c d (pairs xs) (pairs ys) (cc))
        (next_level_binding xs ys (omega arith) (cc))

  next_level-eq-pairs :
      (xs : List Fr) → next_level F xs ≡ map (λ (p : Fr × Fr). hash_pair F p.0 p.1) (pairs xs)
  unfolding next_level
  next_level-eq-pairs [] = refl
  next_level-eq-pairs (a ∷ []) = refl
  next_level-eq-pairs (a ∷ b ∷ xs) = ap (λ t. hash_pair F a b ∷ t) (next_level-eq-pairs xs)

  length-next_level_eq :
      (xs ys : List Fr)
      → length xs ≡ length ys
      → length (next_level F xs) ≡ length (next_level F ys)
  unfolding next_level
  length-next_level_eq [] [] n = refl
  length-next_level_eq [] (c ∷ ys) n = absurd (omega arith)
  length-next_level_eq (a ∷ xs) [] n = absurd (omega arith)
  length-next_level_eq (a ∷ []) (c ∷ []) n = refl
  length-next_level_eq (a ∷ []) (c ∷ d ∷ ys) n = absurd (omega arith)
  length-next_level_eq (a ∷ b ∷ xs) (c ∷ []) n = absurd (omega arith)
  length-next_level_eq (a ∷ b ∷ xs) (c ∷ d ∷ ys) n =
      ap suc (length-next_level_eq xs ys (omega arith))

  -- A clash in a level is a collision in the trees above it.
  at_leaves : (xs ys : List Fr) → 1 < length xs → Clash (pairs xs) (pairs ys) → Collision F xs ys
  at_leaves xs ys more c = record {
    height = 0;
    position = c.position;
    p = c.p;
    q = c.q;
    below_root = more;
    in_first = c.in_first;
    in_second = c.in_second;
    same_hash = c.same_hash;
    differ = c.differ;
  }

  one_higher :
      (xs ys : List Fr) → Collision F (next_level F xs) (next_level F ys) → Collision F xs ys
  one_higher xs ys c =
      let up = λ (zs : List Fr). ap (nodes_at F c.height) (next_level-eq-pairs zs) in
      record {
        height = suc c.height;
        position = c.position;
        p = c.p;
        q = c.q;
        below_root = rw (← up xs) c.below_root;
        in_first = ap (λ l. get_elem? (pairs l) c.position) (sym (up xs)) ∙ c.in_first;
        in_second = ap (λ l. get_elem? (pairs l) c.position) (sym (up ys)) ∙ c.in_second;
        same_hash = c.same_hash;
        differ = c.differ;
      }

  reduce_binding :
      (fuel : ℕ) (xs ys : List Fr) (root : Fr)
      → length xs ≡ length ys
      → reduce F fuel xs ≡ ok root
      → reduce F fuel ys ≡ ok root
      → (xs ≡ ys) ⊎ Collision F xs ys
  unfolding reduce
  reduce_binding fuel [] ys root n e k = absurd (cc)
  reduce_binding fuel (a ∷ xs) [] root n e k = absurd (omega arith)
  reduce_binding fuel (a ∷ []) (c ∷ []) root n e k = inl (cc)
  reduce_binding fuel (a ∷ []) (c ∷ d ∷ ys) root n e k = absurd (omega arith)
  reduce_binding fuel (a ∷ b ∷ xs) (c ∷ []) root n e k = absurd (omega arith)
  reduce_binding zero (a ∷ b ∷ xs) (c ∷ d ∷ ys) root n e k = absurd (cc)
  reduce_binding (suc fuel) (a ∷ b ∷ xs) (c ∷ d ∷ ys) root n e k = below (
      reduce_binding fuel (next_level F (a ∷ b ∷ xs)) (next_level F (c ∷ d ∷ ys)) root
        (length-next_level_eq (a ∷ b ∷ xs) (c ∷ d ∷ ys) n) e k)
    where
      at_bottom :
          (a ∷ b ∷ xs ≡ c ∷ d ∷ ys) ⊎ Clash (pairs (a ∷ b ∷ xs)) (pairs (c ∷ d ∷ ys))
          → (a ∷ b ∷ xs ≡ c ∷ d ∷ ys) ⊎ Collision F (a ∷ b ∷ xs) (c ∷ d ∷ ys)
      at_bottom (inl same) = inl same
      at_bottom (inr k) = inr (at_leaves (a ∷ b ∷ xs) (c ∷ d ∷ ys) (omega arith) k)

      below :
          (next_level F (a ∷ b ∷ xs) ≡ next_level F (c ∷ d ∷ ys))
            ⊎ Collision F (next_level F (a ∷ b ∷ xs)) (next_level F (c ∷ d ∷ ys))
          → (a ∷ b ∷ xs ≡ c ∷ d ∷ ys) ⊎ Collision F (a ∷ b ∷ xs) (c ∷ d ∷ ys)
      below (inl same) = at_bottom (next_level_binding (a ∷ b ∷ xs) (c ∷ d ∷ ys) n same)
      below (inr k) = inr (one_higher (a ∷ b ∷ xs) (c ∷ d ∷ ys) k)

  -- Two logs of the same length that have the same root are the same log, or at one place of their
  -- trees, at the same height below the root and the same position, two different pairs of nodes have
  -- the same hash.
  pub build_merkle_root_binding :
      (xs ys : List Fr) (root : Fr)
      → length xs ≡ length ys
      → build_merkle_root F xs ≡ ok root
      → build_merkle_root F ys ≡ ok root
      → (xs ≡ ys) ⊎ Collision F xs ys
  unfolding build_merkle_root
  build_merkle_root_binding [] ys root n e k = absurd (cc)
  build_merkle_root_binding (a ∷ xs) [] root n e k = absurd (omega arith)
  build_merkle_root_binding (a ∷ xs) (c ∷ ys) root n e k =
      reduce_binding (length (a ∷ xs)) (a ∷ xs) (c ∷ ys) root n e (rw n k)
