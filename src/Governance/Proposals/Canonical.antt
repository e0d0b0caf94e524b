-- ===== src/Governance/Proposals/Canonical.antt =====
-- The order in which a ratified transition lists its signers: `canonicalize_signers` of
-- crates/myownmesh-core/src/engine/governance.rs.
use mathlib.Core.List.{Permᴰ}
use my_own_mesh.Base.{
  ◌≡◌, refl, sym, ap, ◌∙◌, Bool, true, inl, inr, List, [], ◌∷◌, map, length, ◌==◌, ==_iff,
  Bool-cases, arith,
}
use my_own_mesh.Base.Sorting.{sort, place, IsLinear, sort-Permᴰ}
use my_own_mesh.Base.Text.{Text, text_eq_iff, text_le_total, text_le_trans, text_le_antisymm}
use my_own_mesh.Governance.Proposals.{zip, unzip, signer_le, canonicalize_signers}

signer_le-IsLinear : (proposer : Text) → IsLinear (signer_le proposer)
unfolding signer_le
signer_le-IsLinear proposer = record {
  total = λ a b. ground (arith, text_le_total a b);
  trans = λ a b c h k. ground (arith, text_le_trans a b c, h, k);
  antisymm = λ a b h k.
      ground (arith, text_le_antisymm a b, text_eq_iff a proposer, text_eq_iff b proposer, h, k);
}

module _ (proposer : Text) (signature_of : Text → Text) where
  abbrev pair : Text → Text × Text
  pair s = (s, signature_of s)

  zip-map : (xs : List Text) → zip xs (map signature_of xs) ≡ map pair xs
  zip-map [] = refl
  zip-map (x ∷ xs) = ap (λ (ps : List (Text × Text)). pair x ∷ ps) (zip-map xs)

  abbrev pair_le : Text × Text → Text × Text → Bool
  pair_le a b = signer_le proposer a.0 b.0

  place-map :
      (x : Text) (xs : List Text)
      → place pair_le (pair x) (map pair xs) ≡ map pair (place (signer_le proposer) x xs)
  unfolding place
  place-map x [] = refl
  place-map x (y ∷ xs) = elim (Bool-cases (signer_le proposer x y)) [
    | inl e ↦ rw e refl
    | inr e ↦ rw e (ap (λ (ps : List (Text × Text)). pair y ∷ ps) (place-map x xs))
  ]

  sort-map : (xs : List Text) → sort pair_le (map pair xs) ≡ map pair (sort (signer_le proposer) xs)
  unfolding sort
  sort-map [] = refl
  sort-map (x ∷ xs) =
      ap (place pair_le (pair x)) (sort-map xs) ∙ place-map x (sort (signer_le proposer) xs)

  length-map : (xs : List Text) → length xs ≡ length (map signature_of xs)
  length-map [] = refl
  length-map (x ∷ xs) = omega (arith, length-map xs)

  canonicalize_signers-sorted :
      (xs : List Text)
      → canonicalize_signers proposer xs (map signature_of xs)
        ≡ unzip (map pair (sort (signer_le proposer) xs))
  unfolding canonicalize_signers
  canonicalize_signers-sorted xs =
      let same : (length xs == length (map signature_of xs)) ≡ true =
        (==_iff (length xs) (length (map signature_of xs))).1 (length-map xs) in
      rw same (ap unzip (ap (sort pair_le) (zip-map xs) ∙ sort-map xs))

  -- When a signer's signature is determined, as an ed25519 signature is, two peers that gathered the
  -- same signatures in different orders list them in the same order.
  pub canonicalize_signers-Permᴰ :
      (xs ys : List Text)
      → Permᴰ xs ys
      → canonicalize_signers proposer xs (map signature_of xs)
        ≡ canonicalize_signers proposer ys (map signature_of ys)
  canonicalize_signers-Permᴰ xs ys perm =
      canonicalize_signers-sorted xs
      ∙ ap (λ (signers : List Text). unzip (map pair signers))
          (sort-Permᴰ (signer_le proposer) (signer_le-IsLinear proposer) perm)
      ∙ sym (canonicalize_signers-sorted ys)
