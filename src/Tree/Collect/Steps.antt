-- ===== src/Tree/Collect/Steps.antt =====
-- What holds of the engine and of m_putBlocks throughout collectBlocksRec.
use libbruce.Base.{
  ℕ, zero, suc, ◌≡◌, [], ◌∷◌, List, inl, inr, Bool-cases, Option-cases, ◌==◌, Result, ok, err,
  ◌>>=◌, subst,
}
use libbruce.Memory.{NodeId}
use libbruce.Overflow.{Overflow, absent, present}
use libbruce.Leaf.{LeafNode}
use libbruce.Internal.{Branch, InternalNode}
use libbruce.Page.{Page}
use libbruce.Page.Write.{serialize_leaf, serialize_overflow, serialize_internal}
use libbruce.Tree.Nodes.{Tree}
use libbruce.Tree.Collect.{
  Puts, put_later, collect_overflow, collect_leaf, collect_branches, collect_internal,
  collect_blocks_rec,
}

-- A call that gives a value gives one with a property.
abbrev pub Gives : {A : Type 0} → (A → Type 0) → Result A → Type 0
Gives P (ok a) = P a
Gives P (err fault) = Unit

pub Gives-any : {A : Type 0} (m : Result A) → Gives (λ _. Unit) m
Gives-any (ok a) = tt
Gives-any (err fault) = tt

pub Gives-bind :
    {A B : Type 0} (P : A → Type 0) (Q : B → Type 0) (m : Result A) (f : A → Result B)
    → Gives P m
    → ((a : A) → P a → Gives Q (f a))
    → Gives Q (m >>= f)
Gives-bind P Q (ok a) f h next = next a h
Gives-bind P Q (err fault) f h next = tt

pub Gives-ok : {A : Type 0} (P : A → Type 0) (m : Result A) (a : A) → Gives P m → m ≡ ok a → P a
Gives-ok P m a h e = subst (Gives P) e h

module _ {S : Type 0} (new_id : S → Page → NodeId × S) (P : Puts new_id → Type 0)
    (step : (puts : Puts new_id) (page : Page) → P puts → P (put_later new_id puts page).1) where
  collect_overflow-Gives :
      (o : Overflow) (puts : Puts new_id)
      → P puts
      → Gives (λ r. P r.1) (collect_overflow new_id o puts)
  unfolding collect_overflow
  collect_overflow-Gives (absent c id) puts h = h
  collect_overflow-Gives (present c id values next) puts h = elim (Bool-cases (c == 0)) [
    | inl z ↦ rw z h
    | inr z ↦ rw z (
        Gives-bind (λ r. P r.1) (λ r. P r.1) (collect_overflow new_id next puts) _
          (collect_overflow-Gives next puts h)
          (λ r hr.
            Gives-bind (λ _. Unit) (λ r. P r.1) (serialize_overflow values r.0) _
              (Gives-any (serialize_overflow values r.0)) (λ page _. step r.1 page hr)))
  ]

  collect_leaf-Gives :
      (leaf : LeafNode) (puts : Puts new_id)
      → P puts
      → Gives (λ r. P r.1) (collect_leaf new_id leaf puts)
  unfolding collect_leaf
  collect_leaf-Gives leaf puts h =
      Gives-bind (λ r. P r.1) (λ r. P r.1) (collect_overflow new_id leaf.overflow puts) _
        (collect_overflow-Gives leaf.overflow puts h)
        (λ r hr.
          Gives-bind (λ _. Unit) (λ r. P r.1) (serialize_leaf (record leaf { overflow = r.0 })) _
            (Gives-any (serialize_leaf (record leaf { overflow = r.0 })))
            (λ page _. step r.1 page hr))

  module _ {C : Type 0} (collect : C → Puts new_id → Result ((NodeId × C) × Puts new_id))
      (each : (c : C) (puts : Puts new_id) → P puts → Gives (λ r. P r.1) (collect c puts)) where
    collect_branches-Gives :
        (bs : List (Branch C)) (puts : Puts new_id)
        → P puts
        → Gives (λ r. P r.1) (collect_branches new_id collect bs puts)
    unfolding collect_branches
    collect_branches-Gives [] puts h = h
    collect_branches-Gives (b ∷ bs) puts h = elim (Option-cases b.child) [
      | inl missing ↦ rw missing (
          Gives-bind (λ r. P r.1) (λ r. P r.1) (collect_branches new_id collect bs puts) _
            (collect_branches-Gives bs puts h) (λ r hr. hr))
      | inr (c, held) ↦ rw held (
          Gives-bind (λ r. P r.1) (λ r. P r.1) (collect c puts) _ (each c puts h)
            (λ q hq.
              Gives-bind (λ r. P r.1) (λ r. P r.1) (collect_branches new_id collect bs q.1) _
                (collect_branches-Gives bs q.1 hq) (λ r hr. hr)))
    ]

    collect_internal-Gives :
        (node : InternalNode C) (puts : Puts new_id)
        → P puts
        → Gives (λ r. P r.1) (collect_internal new_id collect node puts)
    unfolding collect_internal
    collect_internal-Gives node puts h =
        Gives-bind (λ r. P r.1) (λ r. P r.1) (collect_branches new_id collect node.branches puts) _
          (collect_branches-Gives node.branches puts h)
          (λ r hr.
            Gives-bind (λ _. Unit) (λ r. P r.1)
              (serialize_internal (record node { branches = r.0 })) _
              (Gives-any (serialize_internal (record node { branches = r.0 })))
              (λ page _. step r.1 page hr))

  -- What every block to put keeps holds after the collection, if it ends without an error.
  pub collect_blocks_rec-Gives :
      (h : ℕ) (tree : Tree h) (puts : Puts new_id)
      → P puts
      → Gives (λ r. P r.1) (collect_blocks_rec new_id h tree puts)
  unfolding collect_blocks_rec
  collect_blocks_rec-Gives zero leaf puts p = collect_leaf-Gives leaf puts p
  collect_blocks_rec-Gives (suc h) node puts p =
      collect_internal-Gives (collect_blocks_rec new_id h) (collect_blocks_rec-Gives h) node puts p
