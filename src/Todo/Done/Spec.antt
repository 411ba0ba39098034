-- ===== src/Todo/Done/Spec.antt =====
-- What "done" means for an item whose status is computed, with no fuel and no order of evaluation.
use agent_squire.Base.{◌≡◌, ◌∈◌, String, true, some, List, contains}
use agent_squire.Base.Dict.{Dict, lookup}

-- An item is done if it is marked, or has an entry among the edges and each of its children is done.
pub data IsDone (marked : List String) (outgoing : Dict (List String)) : String → Type 0 where
  by_mark : {id : String} → contains marked id ≡ true → IsDone marked outgoing id
  by_children :
      {id : String} (children : List String)
      → lookup id outgoing ≡ some children
      → ((c : String) → c ∈ children → IsDone marked outgoing c)
      → IsDone marked outgoing id

-- More marks leave done what was done.
pub IsDone-mono :
    {marked more : List String} {outgoing : Dict (List String)}
    → ((a : String) → contains marked a ≡ true → contains more a ≡ true)
    → {id : String} → IsDone marked outgoing id
    → IsDone more outgoing id
IsDone-mono sub (by_mark h) = by_mark (sub _ h)
IsDone-mono sub (by_children cs e all) = by_children cs e (λ c m. IsDone-mono sub (all c m))
