-- ===== src/Policy/Registry.antt =====
-- The registry of a policy engine: policy.py's `PolicyEngine.__init__`.
use helpdesktool.Prelude.{
  suc, ◌+◌, ◌≤◌, String, ◌≡◌, refl, Option, none, some, List, [], ◌∷◌, arith, ◌==◌, eq_iff, length,
  is_some, if◌then◌else◌,
}
use helpdesktool.Prelude.Dict.{Dict, get, put, get-put}
use helpdesktool.Models.{SkillDefinition}
use helpdesktool.Policy.{PolicyEngine, by_id, make_engine}

-- the first skill of the list with the id
abbrev pub find_skill : String → List SkillDefinition → Option SkillDefinition
find_skill k [] = none
find_skill k (s ∷ ss) = if s.skill_id == k then some s else find_skill k ss

length-put {ℓ} :
    {V : Type ℓ} (k : String) (v : V) (d : Dict V)
    → length (put k v d) ≡ (if is_some (get k d) then length d else suc (length d))
unfolding get put
length-put k v [] = refl
length-put k v ((j, w) ∷ d) = ground (arith, length-put k v d)

length-by_id :
    (d : PolicyEngine) (ss : List SkillDefinition) → length (by_id d ss) ≤ length d + length ss
unfolding by_id
length-by_id d [] = omega arith
length-by_id d (s ∷ ss) =
    ground (arith, length-by_id (put s.skill_id s d) ss, length-put s.skill_id s d)

-- with no duplicate, an id is found where it was, or is the first in the list
get-by_id :
    (k : String) (d : PolicyEngine) (ss : List SkillDefinition)
    → length (by_id d ss) ≡ length d + length ss
    → get k (by_id d ss) ≡ (if is_some (get k d) then get k d else find_skill k ss)
unfolding by_id
get-by_id k d [] h = ground arith
get-by_id k d (s ∷ ss) h = ground (
  arith,
  get-by_id k (put s.skill_id s d) ss,
  length-by_id (put s.skill_id s d) ss,
  length-put s.skill_id s d,
  get-put s.skill_id k s d,
  eq_iff s.skill_id k,
)

pub get-make_engine :
    (k : String) (ss : List SkillDefinition) (e : PolicyEngine)
    → make_engine ss ≡ some e
    → get k e ≡ find_skill k ss
unfolding make_engine get
get-make_engine k ss e h = ground (arith, get-by_id k [] ss)
