-- ===== src/Todo/Token/Forest.antt =====
-- When the subtask relationships of a store are a forest of its tokens, and that `token_create` under
-- a known parent keeps them one.
use agent_squire.Base.{
  ℕ, ◌+◌, ◌<◌, String, ◌==◌, eq_iff, ◌≡◌, ◌≢◌, sym, ap, ◌∙◌, ◌⊎◌, inl, inr, ◌∈◌, true, false,
  Option, none, some, List, ◌++◌, if◌then◌else◌, mem-append_cases, arith,
}
use agent_squire.Store.Ops.{SquireState, token_exists}
use agent_squire.Slug.Chars.{trim}
use agent_squire.Tool.{Args, succeeded}
use agent_squire.Todo.Done.{kids_of}
use agent_squire.Todo.Index.Laws.{edges_of}
use agent_squire.Todo.Token.{token_create, created, is_blank}
use agent_squire.Todo.Token.Create.{Created, new_child, token_create_lem}

-- The children of an item in a store.
abbrev pub kids_in : SquireState → String → List String
kids_in s = kids_of (edges_of s).outgoing

-- Both ends of a subtask relationship are tokens, and some rank below `b` falls along each of them.
pub record IsTodoForest (b : ℕ) (s : SquireState) : Type 0 where
  pub rank : String → ℕ
  pub rank_lt : (k : String) → rank k < b
  pub falls : (p c : String) → c ∈ kids_in s p → rank c < rank p
  pub upper : (p c : String) → c ∈ kids_in s p → token_exists s p ≡ true
  pub lower : (p c : String) → c ∈ kids_in s p → token_exists s c ≡ true

mem-new_child :
    (parent : Option String) (id p c : String)
    → c ∈ new_child parent id p
    → (parent ≡ some p) × (id ≡ c)
mem-new_child none id p c m = absurd m
mem-new_child (some pid) id p c m = ground (arith, eq_iff pid p)

exists_after :
    (s s' : SquireState) (id title : String) (parent : Option String) (k : String)
    → Created s s' id title parent
    → (id ≡ k) ⊎ (token_exists s k ≡ true)
    → token_exists s' k ≡ true
unfolding token_exists
exists_after s s' id title parent k made h = ground (arith, made.tokens k, eq_iff id k)

module _ (b : ℕ) (s s' : SquireState) (id title : String) (parent : Option String) where
  module _ (f : IsTodoForest b s) (made : Created s s' id title parent)
      (known : (pid : String) → parent ≡ some pid → token_exists s pid ≡ true)
      (kids : (k : String) → kids_in s' k ≡ kids_in s k ++ new_child parent id k) where
    not_new : (k : String) → token_exists s k ≡ true → id ≢ k
    not_new k h e = cc (sym made.fresh ∙ ap (token_exists s) e ∙ h)

    kid_cases :
        (p c : String)
        → c ∈ kids_in s' p
        → (c ∈ kids_in s p) ⊎ ((token_exists s p ≡ true) × (id ≡ c))
    kid_cases p c m = elim (mem-append_cases c (kids_in s p) _ (rw (kids p) at m)) [
      | inl old ↦ inl old
      | inr added ↦ let (e, at) = mem-new_child parent id p c added in inr (known p e, at)
    ]

    rank_after : String → ℕ
    rank_after k = if id == k then 0 else 1 + f.rank k

    falls_after : (p c : String) → c ∈ kids_in s' p → rank_after c < rank_after p
    unfolding rank_after
    falls_after p c m = elim (kid_cases p c m) [
      | inl old ↦
          let lt = f.falls p c old in
          let np = not_new p (f.upper p c old) in
          let nc = not_new c (f.lower p c old) in ground (arith, eq_iff id p, eq_iff id c)
      | inr (there, at) ↦ let np = not_new p there in ground (arith, eq_iff id p, eq_iff id c)
    ]

    pub Created-IsTodoForest : IsTodoForest (1 + b) s'
    unfolding rank_after
    Created-IsTodoForest = record {
      rank = rank_after;
      rank_lt = λ k. ground (arith, f.rank_lt k);
      falls = falls_after;
      upper = λ p c m. elim (kid_cases p c m) [
        | inl old ↦ exists_after s s' id title parent p made (inr (f.upper p c old))
        | inr (there, at) ↦ exists_after s s' id title parent p made (inr there)
      ];
      lower = λ p c m. elim (kid_cases p c m) [
        | inl old ↦ exists_after s s' id title parent c made (inr (f.lower p c old))
        | inr (there, at) ↦ exists_after s s' id title parent c made (inl at)
      ];
    }

-- `token_create` with a title that is not blank, under no parent or under one that is a token, keeps
-- the subtask relationships a forest of tokens, whose ranks grow by one at most.
pub token_create-IsTodoForest :
    (fuel : ℕ) (session : Option String) (call_id : String) (args : Args) (raw : String)
    (s : SquireState) (b : ℕ)
    → args.title ≡ some raw
    → is_blank (trim raw) ≡ false
    → ((pid : String) → args.parent_id ≡ some pid → token_exists s pid ≡ true)
    → IsTodoForest b s
    → (s' : SquireState) × (id : String) × (token_create fuel session call_id args s
        ≡ some (s', succeeded call_id (created (trim raw) id)))
      × IsTodoForest (1 + b) s'
token_create-IsTodoForest fuel session call_id args raw s b e blank known f =
    let (s', id, done, _, made, kids) = token_create_lem fuel session call_id args raw s e blank in
    (s', id, done, Created-IsTodoForest b s s' id (trim raw) args.parent_id f made known kids)
