-- ===== src/Tests/Decision.antt =====
-- The decision-tree tool on the sample store.
use agent_squire.Base.{
  ℕ, ◌≤◌, ◌++◌, String, ◌||◌, none, some, List, [], ◌∷◌, ◌≡◌, ◌∈◌, refl, subst, ◌==◌, eq_iff,
  contains, append, if◌then◌else◌, false, arith, inl, inr, Bool-cases,
}
use agent_squire.Base.Dict.{lookup}
use agent_squire.Graph.{IsRanked, Under}
use agent_squire.Store.Types.{Relationship, considers, selects}
use agent_squire.Store.Ops.{SquireState, token_exists, get_relationships, token_detail, detail_of}
use agent_squire.Tool.{Args, succeeded}
use agent_squire.Todo.Token.{edge}
use agent_squire.Todo.Tree.{Items, item}
use agent_squire.Decision.Tree.{
  parent_of, dt_children, dt_build_tree, find_dt_root, status_of, no_sets,
}
use agent_squire.Decision.Laws.{sets_of}
use agent_squire.Decision.Select.{op_select-root_diverges, op_select-parent}
use agent_squire.Decision.Root.{dt_kids, find_dt_root_correct, dt_build_tree_total}
use agent_squire.Decision.Ops.{
  all_relationships, op_select, op_resolve, op_get, selected, resolved, op_consider, added,
}
use agent_squire.Decision.Status.{shown, op_resolve-status, op_consider-children}
use agent_squire.Slug.Chars.{trim}
use agent_squire.Slug.Defs.{dt_slugify}
use agent_squire.Slug.Fresh.{IsNumbered}
use agent_squire.Tests.Sample.{token, sample, no_args, dt_rank}

abbrev on_root : Args
on_root = record no_args { id = some "CONCEPT_DT_db" }

abbrev on_option : Args
on_option = record no_args { id = some "CONCEPT_DT_sql" }

abbrev option_edge : Relationship
option_edge = edge "CONCEPT_DT_db" considers "CONCEPT_DT_sql"

op_select-root_diverges_example :
    (s' : SquireState) × (op_select 5 "s" "c" on_root sample
      ≡ some (s', succeeded "c" (selected "CONCEPT_DT_db")))
    × ("CONCEPT_DT_db" ∈ dt_children "CONCEPT_DT_db" (all_relationships s'))
    × ((fuel' : ℕ) → op_resolve fuel' "s" "c" on_root s' ≡ none)
    × ((fuel' : ℕ) → op_get fuel' "s" "c" on_root s' ≡ none)
    × ((fuel' : ℕ)
        → dt_build_tree (all_relationships s') s' (sets_of s') fuel' "CONCEPT_DT_db" ≡ none)
op_select-root_diverges_example =
    op_select-root_diverges "s" "c" 5 on_root "CONCEPT_DT_db" (detail_of (token "db")) sample refl
      refl (unfold token_detail lookup in refl) (unfold parent_of get_relationships in refl)

op_select-parent_example :
    (s' : SquireState) × (op_select 5 "s" "c" on_option sample
      ≡ some (s', succeeded "c" (selected "CONCEPT_DT_sql")))
    × ((k : String)
        → contains (sets_of s').selects_set k
          ≡ (contains (sets_of sample).selects_set k || "CONCEPT_DT_db" == k))
    × (s'.relationships
        ≡ sample.relationships ++ edge "CONCEPT_DT_db" selects "CONCEPT_DT_sql" ∷ [])
    × (status_of (sets_of s') "CONCEPT_DT_sql" ≡ status_of (sets_of sample) "CONCEPT_DT_sql")
op_select-parent_example =
    op_select-parent "s" "c" 5 on_option "CONCEPT_DT_sql" option_edge sample refl refl
      (unfold parent_of get_relationships in refl)
      (ground (arith, eq_iff "CONCEPT_DT_db" "CONCEPT_DT_sql"))

abbrev option_rels : List Relationship
option_rels = option_edge ∷ []

option-IsRanked : IsRanked (dt_kids option_rels) dt_rank
unfolding dt_children
option-IsRanked p c m = elim (Bool-cases ("CONCEPT_DT_db" == p)) [
  | inl e ↦
      let step : c ∈ ("CONCEPT_DT_sql" ∷ []) = rw e at m in
      elim step [
        | inl f ↦ rw (← (eq_iff "CONCEPT_DT_db" p).0 e, ← f) (omega arith)
        | inr nowhere ↦ absurd nowhere
      ]
  | inr e ↦ absurd (rw e at m)
]

dt_rank_bound : (k : String) → dt_rank k ≤ 1
dt_rank_bound k = ground arith

dt_children-sample :
    (p : String) → dt_children p (all_relationships sample) ≡ dt_children p option_rels
unfolding dt_children get_relationships
dt_children-sample p = ground arith

sample-IsRanked : IsRanked (dt_kids (all_relationships sample)) dt_rank
sample-IsRanked p c m = option-IsRanked p c (subst (λ l. c ∈ l) (dt_children-sample p) m)

find_dt_root_correct_example :
    (root : String) × (find_dt_root 2 "CONCEPT_DT_sql" option_rels ≡ some root)
    × (parent_of root option_rels ≡ none)
    × Under (dt_kids option_rels) root "CONCEPT_DT_sql"
find_dt_root_correct_example =
    find_dt_root_correct option_rels dt_rank 1 option-IsRanked dt_rank_bound 2 "CONCEPT_DT_sql"
      (omega arith)

dt_build_tree_total_example :
    (title : String) × (children : Items) × (dt_build_tree option_rels sample no_sets 2
        "CONCEPT_DT_db"
      ≡ some (item "CONCEPT_DT_db" title (status_of no_sets "CONCEPT_DT_db") children))
dt_build_tree_total_example =
    dt_build_tree_total option_rels sample no_sets dt_rank option-IsRanked 2 "CONCEPT_DT_db"
      (omega arith)

op_resolve-status_example :
    (s' : SquireState) × (root : String) × (op_resolve 2 "s" "c" on_option sample
      ≡ some (s', succeeded "c" (resolved root "CONCEPT_DT_sql")))
    × (parent_of root (all_relationships sample) ≡ none)
    × Under (dt_kids (all_relationships sample)) root "CONCEPT_DT_sql"
    × (shown s' "CONCEPT_DT_sql" ≡ "resolved")
op_resolve-status_example =
    op_resolve-status "s" "c" 2 on_option "CONCEPT_DT_sql" sample dt_rank 1 refl sample-IsRanked
      dt_rank_bound (omega arith)

abbrev option_args : Args
option_args = record no_args { parent_id = some "CONCEPT_DT_db"; title = some "no sql" }

op_consider-children_example :
    (s' : SquireState) × (id : String) × (op_consider 0 "s" "c" option_args sample
      ≡ some (s', succeeded "c" (added "CONCEPT_DT_db" (trim "no sql") id)))
    × (token_exists sample id ≡ false)
    × IsNumbered (append "CONCEPT_DT_" (dt_slugify (trim "no sql"))) id
    × ((k : String)
        → dt_children k (all_relationships s')
          ≡ dt_children k (all_relationships sample)
            ++ (if "CONCEPT_DT_db" == k then id ∷ [] else []))
op_consider-children_example =
    op_consider-children "s" "c" 0 option_args "CONCEPT_DT_db" "no sql" sample refl refl
      (unfold trim in refl)
