-- ===== src/Custody/Lock.antt =====
-- What the custody lock guards: crates/myownmesh-core/src/custody.rs, and `propose` of
-- crates/myownmesh-core/src/engine/governance.rs behind it.
use my_own_mesh.Base.{ℕ, suc, Option, none, some, List, [], ◌∷◌, if◌then◌else◌}
use my_own_mesh.Base.Text.{Text, text_ordered}
use my_own_mesh.Custody.{Enrollment, constant_eq}

-- How many of the unused recovery hashes are equal to `h`.
abbrev pub uses_left : Text → List Text → ℕ
uses_left h [] = 0
uses_left h (x ∷ xs) = let rest = uses_left h xs in if constant_eq x h then suc rest else rest

abbrev pub uses_of : Text → Option Enrollment → ℕ
uses_of h none = 0
uses_of h (some enrollment) = uses_left h enrollment.recovery_hashes
