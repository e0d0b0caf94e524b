-- ===== src/Tests/Keys.antt =====
-- A concrete key of a log entry, in place of its JSON text: every field is written out so that it can
-- be read back, hence only equal entries share a key.
use my_own_mesh.Base.{ℕ, ◌≡◌, refl, Option, none, some, List, [], ◌∷◌, arith}
use my_own_mesh.Base.Text.{Text}
use my_own_mesh.Governance.{
  NetworkKind, open_kind, closed, silent, Role, member, controller, owner, TopologyMode, ring, star,
  hubs, full_mesh, TransitionVariant, kind_change, role_grant, role_revoke, evict, split,
  topology_change, unknown, Transition,
}

put_list : {A : Type 0} → (A → List ℕ → List ℕ) → List A → List ℕ → List ℕ
put_list put [] k = 0 ∷ k
put_list put (x ∷ xs) k = 1 ∷ put x (put_list put xs k)

abbrev IsReadable : {A : Type 0} → (A → List ℕ → List ℕ) → Type 0
IsReadable put = (x y : _) (k l : List ℕ) → put x k ≡ put y l → (x ≡ y) × (k ≡ l)

put_list-IsReadable :
    {A : Type 0} (put : A → List ℕ → List ℕ) → IsReadable put → IsReadable (put_list put)
unfolding put_list
put_list-IsReadable put r [] [] k l e = (refl, cc)
put_list-IsReadable put r [] (y ∷ ys) k l e = cc
put_list-IsReadable put r (x ∷ xs) [] k l e = cc
put_list-IsReadable put r (x ∷ xs) (y ∷ ys) k l e =
    let head : put x (put_list put xs k) ≡ put y (put_list put ys l) = cc in
    let (p, rest) = r x y (put_list put xs k) (put_list put ys l) head in
    let (q, end) = put_list-IsReadable put r xs ys k l rest in (cc, end)

put_nat : ℕ → List ℕ → List ℕ
put_nat n k = n ∷ k

put_text : Text → List ℕ → List ℕ
unfolding put_list put_nat
put_text = put_list put_nat

put_option : Option ℕ → List ℕ → List ℕ
put_option none k = 0 ∷ k
put_option (some n) k = 1 ∷ n ∷ k

put_kind : NetworkKind → List ℕ → List ℕ
put_kind open_kind k = 0 ∷ k
put_kind closed k = 1 ∷ k
put_kind silent k = 2 ∷ k

put_role : Role → List ℕ → List ℕ
put_role member k = 0 ∷ k
put_role controller k = 1 ∷ k
put_role owner k = 2 ∷ k

put_texts : List Text → List ℕ → List ℕ
unfolding put_text
put_texts = put_list put_text

put_topology : TopologyMode → List ℕ → List ℕ
unfolding put_texts put_option
put_topology (ring n) k = 0 ∷ put_option n k
put_topology (star h) k = 1 ∷ put_text h k
put_topology (hubs hs r) k = 2 ∷ put_texts hs (put_option r k)
put_topology full_mesh k = 3 ∷ k

put_variant : TransitionVariant → List ℕ → List ℕ
unfolding put_topology
put_variant (kind_change to) k = 0 ∷ put_kind to k
put_variant (role_grant target r) k = 1 ∷ put_role r (put_text target k)
put_variant (role_revoke target) k = 2 ∷ put_text target k
put_variant (evict target) k = 3 ∷ put_text target k
put_variant (split id ms) k = 4 ∷ put_text id (put_texts ms k)
put_variant (topology_change to) k = 5 ∷ put_topology to k
put_variant unknown k = 6 ∷ k

put_nat-IsReadable : IsReadable put_nat
unfolding put_nat
put_nat-IsReadable x y k l e = (cc, cc)

put_text-IsReadable : IsReadable put_text
unfolding put_text
put_text-IsReadable = put_list-IsReadable put_nat put_nat-IsReadable

put_texts-IsReadable : IsReadable put_texts
unfolding put_texts
put_texts-IsReadable = put_list-IsReadable put_text put_text-IsReadable

put_option-IsReadable : IsReadable put_option
unfolding put_option
put_option-IsReadable none none k l e = (refl, cc)
put_option-IsReadable none (some n') k l e = cc
put_option-IsReadable (some n) none k l e = cc
put_option-IsReadable (some n) (some n') k l e = (cc, cc)

put_kind-IsReadable : IsReadable put_kind
unfolding put_kind
put_kind-IsReadable open_kind open_kind k l e = (refl, cc)
put_kind-IsReadable open_kind closed k l e = cc
put_kind-IsReadable open_kind silent k l e = cc
put_kind-IsReadable closed open_kind k l e = cc
put_kind-IsReadable closed closed k l e = (refl, cc)
put_kind-IsReadable closed silent k l e = cc
put_kind-IsReadable silent open_kind k l e = cc
put_kind-IsReadable silent closed k l e = cc
put_kind-IsReadable silent silent k l e = (refl, cc)

put_role-IsReadable : IsReadable put_role
unfolding put_role
put_role-IsReadable member member k l e = (refl, cc)
put_role-IsReadable member controller k l e = cc
put_role-IsReadable member owner k l e = cc
put_role-IsReadable controller member k l e = cc
put_role-IsReadable controller controller k l e = (refl, cc)
put_role-IsReadable controller owner k l e = cc
put_role-IsReadable owner member k l e = cc
put_role-IsReadable owner controller k l e = cc
put_role-IsReadable owner owner k l e = (refl, cc)

put_topology-IsReadable : IsReadable put_topology
unfolding put_topology
put_topology-IsReadable (ring n) (ring n') k l e =
    let start : put_option n k ≡ put_option n' l = cc in
    let (p0, rest0) = put_option-IsReadable n n' k l start in (cc, rest0)
put_topology-IsReadable (ring n) (star h') k l e = cc
put_topology-IsReadable (ring n) (hubs hs' r') k l e = cc
put_topology-IsReadable (ring n) full_mesh k l e = cc
put_topology-IsReadable (star h) (ring n') k l e = cc
put_topology-IsReadable (star h) (star h') k l e =
    let start : put_text h k ≡ put_text h' l = cc in
    let (p0, rest0) = put_text-IsReadable h h' k l start in (cc, rest0)
put_topology-IsReadable (star h) (hubs hs' r') k l e = cc
put_topology-IsReadable (star h) full_mesh k l e = cc
put_topology-IsReadable (hubs hs r) (ring n') k l e = cc
put_topology-IsReadable (hubs hs r) (star h') k l e = cc
put_topology-IsReadable (hubs hs r) (hubs hs' r') k l e =
    let start : put_texts hs (put_option r k) ≡ put_texts hs' (put_option r' l) = cc in
    let (p0, rest0) = put_texts-IsReadable hs hs' (put_option r k) (put_option r' l) start in
    let (p1, rest1) = put_option-IsReadable r r' k l rest0 in (cc, rest1)
put_topology-IsReadable (hubs hs r) full_mesh k l e = cc
put_topology-IsReadable full_mesh (ring n') k l e = cc
put_topology-IsReadable full_mesh (star h') k l e = cc
put_topology-IsReadable full_mesh (hubs hs' r') k l e = cc
put_topology-IsReadable full_mesh full_mesh k l e = (refl, cc)

put_variant-IsReadable : IsReadable put_variant
unfolding put_variant
put_variant-IsReadable (kind_change to) (kind_change to') k l e =
    let start : put_kind to k ≡ put_kind to' l = cc in
    let (p0, rest0) = put_kind-IsReadable to to' k l start in (cc, rest0)
put_variant-IsReadable (kind_change to) (role_grant target' r') k l e = cc
put_variant-IsReadable (kind_change to) (role_revoke target') k l e = cc
put_variant-IsReadable (kind_change to) (evict target') k l e = cc
put_variant-IsReadable (kind_change to) (split id' ms') k l e = cc
put_variant-IsReadable (kind_change to) (topology_change to') k l e = cc
put_variant-IsReadable (kind_change to) unknown k l e = cc
put_variant-IsReadable (role_grant target r) (kind_change to') k l e = cc
put_variant-IsReadable (role_grant target r) (role_grant target' r') k l e =
    let start : put_role r (put_text target k) ≡ put_role r' (put_text target' l) = cc in
    let (p0, rest0) = put_role-IsReadable r r' (put_text target k) (put_text target' l) start in
    let (p1, rest1) = put_text-IsReadable target target' k l rest0 in (cc, rest1)
put_variant-IsReadable (role_grant target r) (role_revoke target') k l e = cc
put_variant-IsReadable (role_grant target r) (evict target') k l e = cc
put_variant-IsReadable (role_grant target r) (split id' ms') k l e = cc
put_variant-IsReadable (role_grant target r) (topology_change to') k l e = cc
put_variant-IsReadable (role_grant target r) unknown k l e = cc
put_variant-IsReadable (role_revoke target) (kind_change to') k l e = cc
put_variant-IsReadable (role_revoke target) (role_grant target' r') k l e = cc
put_variant-IsReadable (role_revoke target) (role_revoke target') k l e =
    let start : put_text target k ≡ put_text target' l = cc in
    let (p0, rest0) = put_text-IsReadable target target' k l start in (cc, rest0)
put_variant-IsReadable (role_revoke target) (evict target') k l e = cc
put_variant-IsReadable (role_revoke target) (split id' ms') k l e = cc
put_variant-IsReadable (role_revoke target) (topology_change to') k l e = cc
put_variant-IsReadable (role_revoke target) unknown k l e = cc
put_variant-IsReadable (evict target) (kind_change to') k l e = cc
put_variant-IsReadable (evict target) (role_grant target' r') k l e = cc
put_variant-IsReadable (evict target) (role_revoke target') k l e = cc
put_variant-IsReadable (evict target) (evict target') k l e =
    let start : put_text target k ≡ put_text target' l = cc in
    let (p0, rest0) = put_text-IsReadable target target' k l start in (cc, rest0)
put_variant-IsReadable (evict target) (split id' ms') k l e = cc
put_variant-IsReadable (evict target) (topology_change to') k l e = cc
put_variant-IsReadable (evict target) unknown k l e = cc
put_variant-IsReadable (split id ms) (kind_change to') k l e = cc
put_variant-IsReadable (split id ms) (role_grant target' r') k l e = cc
put_variant-IsReadable (split id ms) (role_revoke target') k l e = cc
put_variant-IsReadable (split id ms) (evict target') k l e = cc
put_variant-IsReadable (split id ms) (split id' ms') k l e =
    let start : put_text id (put_texts ms k) ≡ put_text id' (put_texts ms' l) = cc in
    let (p0, rest0) = put_text-IsReadable id id' (put_texts ms k) (put_texts ms' l) start in
    let (p1, rest1) = put_texts-IsReadable ms ms' k l rest0 in (cc, rest1)
put_variant-IsReadable (split id ms) (topology_change to') k l e = cc
put_variant-IsReadable (split id ms) unknown k l e = cc
put_variant-IsReadable (topology_change to) (kind_change to') k l e = cc
put_variant-IsReadable (topology_change to) (role_grant target' r') k l e = cc
put_variant-IsReadable (topology_change to) (role_revoke target') k l e = cc
put_variant-IsReadable (topology_change to) (evict target') k l e = cc
put_variant-IsReadable (topology_change to) (split id' ms') k l e = cc
put_variant-IsReadable (topology_change to) (topology_change to') k l e =
    let start : put_topology to k ≡ put_topology to' l = cc in
    let (p0, rest0) = put_topology-IsReadable to to' k l start in (cc, rest0)
put_variant-IsReadable (topology_change to) unknown k l e = cc
put_variant-IsReadable unknown (kind_change to') k l e = cc
put_variant-IsReadable unknown (role_grant target' r') k l e = cc
put_variant-IsReadable unknown (role_revoke target') k l e = cc
put_variant-IsReadable unknown (evict target') k l e = cc
put_variant-IsReadable unknown (split id' ms') k l e = cc
put_variant-IsReadable unknown (topology_change to') k l e = cc
put_variant-IsReadable unknown unknown k l e = (refl, cc)

pub key : Transition → Text
unfolding put_variant put_texts
key t = t.at ∷ put_variant t.variant (put_texts t.signers (put_texts t.signatures []))

pub key_injective : (a b : Transition) → key a ≡ key b → a ≡ b
unfolding key
key_injective a b e =
    let rest = λ (t : Transition). put_texts t.signers (put_texts t.signatures []) in
    let start : put_variant a.variant (rest a) ≡ put_variant b.variant (rest b) = cc in
    let (v, after) = put_variant-IsReadable a.variant b.variant (rest a) (rest b) start in
    let (s, last) =
      put_texts-IsReadable a.signers b.signers (put_texts a.signatures [])
        (put_texts b.signatures []) after in
    let (g, end) = put_texts-IsReadable a.signatures b.signatures [] [] last in
    ground (arith, v, s, g)
