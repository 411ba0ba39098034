-- ===== src/Graph/Sound.antt =====
-- What the worklist returns is exactly the node and its descendants.
use agent_squire.Base.{
  ℕ, zero, suc, ◌+◌, ◌≤◌, ◌≡◌, refl, subst, ◌↔◌, ◌⊎◌, inl, inr, ◌∈◌, String, eq_iff, true, false,
  some, List, [], ◌∷◌, Bool-cases, contains, contains-insert_set, insert_set, arith,
}
use mathlib.Core.Option.{some-injective}
use agent_squire.Graph.{Edges, Under, here, below}
use agent_squire.Graph.Collect.{push_all, collect, weight, Covers, collect_total}

pub mem-push_all :
    (cs stack : List String) (a : String) → (a ∈ push_all cs stack) ↔ ((a ∈ cs) ⊎ (a ∈ stack))
mem-push_all [] stack a = (λ h. inr h, λ h. ground arith)
mem-push_all (c ∷ cs) stack a = (
  λ h. ground (arith, (mem-push_all cs (c ∷ stack) a).0 h),
  λ h. (mem-push_all cs (c ∷ stack) a).1 (ground arith),
)

module _ (kids : Edges) (root : String) where
  IsSeen : List String → List String → String → Type 0
  IsSeen set stack a = (contains set a ≡ true) ⊎ (a ∈ stack)

  record Inv (stack set : List String) : Type 0 where
    begun : IsSeen set stack root
    under : (a : String) → IsSeen set stack a → Under kids root a
    closed : (p c : String) → contains set p ≡ true → c ∈ kids p → IsSeen set stack c

  Inv-skip :
      (cur : String) (stack set : List String)
      → contains set cur ≡ true
      → Inv (cur ∷ stack) set
      → Inv stack set
  unfolding IsSeen
  Inv-skip cur stack set old i = record {
    begun = drop root i.begun;
    under = λ a s. i.under a (ground arith);
    closed = λ p c h m. drop c (i.closed p c h m);
  }
    where
      drop : (a : String) → IsSeen set (cur ∷ stack) a → IsSeen set stack a
      drop a (inl h) = inl h
      drop a (inr (inl e)) = inl (rw e at old)
      drop a (inr (inr m)) = inr m

  Inv-push :
      (cur : String) (stack set : List String)
      → contains set cur ≡ false
      → Inv (cur ∷ stack) set
      → Inv (push_all (kids cur) stack) (insert_set set cur)
  unfolding IsSeen
  Inv-push cur stack set new i = record {
    begun = keep root i.begun;
    under = reached;
    closed = kept;
  }
    where
      inside :
          (a : String)
          → (contains (insert_set set cur) a ≡ true) ↔ ((contains set a ≡ true) ⊎ (cur ≡ a))
      inside a = (
        λ h. ground (arith, contains-insert_set set cur a, eq_iff cur a),
        λ h. ground (arith, contains-insert_set set cur a, eq_iff cur a),
      )

      keep :
          (a : String)
          → IsSeen set (cur ∷ stack) a
          → IsSeen (insert_set set cur) (push_all (kids cur) stack) a
      keep a (inl h) = inl ((inside a).1 (inl h))
      keep a (inr (inl e)) = inl ((inside a).1 (inr e))
      keep a (inr (inr m)) = inr ((mem-push_all (kids cur) stack a).1 (inr m))

      reached :
          (a : String)
          → IsSeen (insert_set set cur) (push_all (kids cur) stack) a
          → Under kids root a
      reached a (inl h) = elim ((inside a).0 h) [
        | inl old ↦ i.under a (inl old)
        | inr e ↦ i.under a (inr (inl e))
      ]
      reached a (inr m) = elim ((mem-push_all (kids cur) stack a).0 m) [
        | inl child ↦ below (i.under cur (inr (inl refl))) child
        | inr rest ↦ i.under a (inr (inr rest))
      ]

      kept :
          (p c : String)
          → contains (insert_set set cur) p ≡ true
          → c ∈ kids p
          → IsSeen (insert_set set cur) (push_all (kids cur) stack) c
      kept p c h m = elim ((inside p).0 h) [
        | inl old ↦ keep c (i.closed p c old m)
        | inr e ↦ inr ((mem-push_all (kids cur) stack c).1 (inl (rw (← e) at m)))
      ]

  Inv-collect :
      (fuel : ℕ) (stack set out : List String)
      → Inv stack set
      → collect kids fuel stack set ≡ some out
      → Inv [] out
  unfolding collect
  Inv-collect fuel [] set out i e = subst (Inv []) (some-injective set out e) i
  Inv-collect zero (cur ∷ stack) set out i e = cc
  Inv-collect (suc fuel) (cur ∷ stack) set out i e = elim (Bool-cases (contains set cur)) [
    | inl old ↦ Inv-collect fuel stack set out (Inv-skip cur stack set old i) (rw old at e)
    | inr new ↦
        Inv-collect fuel (push_all (kids cur) stack) (insert_set set cur) out
          (Inv-push cur stack set new i) (rw new at e)
  ]

  Inv-init : Inv (root ∷ []) []
  unfolding IsSeen
  Inv-init = record {
    begun = inr (inl refl);
    under = λ a s. elim s [
      | inl h ↦ cc
      | inr m ↦ elim m [ inl e ↦ rw (← e) here | inr nowhere ↦ absurd nowhere ]
    ];
    closed = λ p c h m. cc;
  }

  complete :
      (out : List String) → Inv [] out → (d : String) → Under kids root d → contains out d ≡ true
  unfolding IsSeen
  complete out i d here = elim i.begun [ inl h ↦ h | inr nowhere ↦ absurd nowhere ]
  complete out i d (below {p} {c} u m) = elim (i.closed p c (complete out i p u) m) [
    | inl h ↦ h
    | inr nowhere ↦ absurd nowhere
  ]

  -- With fuel for every child and the node itself, the loop returns, and its set holds the node and
  -- its descendants and nothing else.
  pub collect_correct :
      (ks : List String)
      → Covers kids ks
      → (fuel : ℕ) → 1 + weight kids ks [] ≤ fuel
      → (out : List String) × (collect kids fuel (root ∷ []) [] ≡ some out)
        × ((d : String) → (contains out d ≡ true) ↔ Under kids root d)
  unfolding IsSeen
  collect_correct ks cov fuel h =
      let (out, e) = collect_total kids ks cov fuel (root ∷ []) [] h in
      let inv = Inv-collect fuel (root ∷ []) [] out Inv-init e in
      (out, e, λ d. (λ m. inv.under d (inl m), complete out inv d))
