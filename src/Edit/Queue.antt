-- ===== src/Edit/Queue.antt =====
-- Where an edit goes in the queue of an inner node.
use libbruce.Base.{
  ℕ, zero, suc, ◌≡◌, refl, ap, inl, inr, Bool-cases, List, [], ◌∷◌, ◌++◌, All, All-imp, insert_at,
  upper_bound,
}
use libbruce.Functions.{TreeFunctions, IsLawful, IsKey, Le, Lt, before}
use libbruce.Functions.Order.{lt-le_trans, lt→le}
use libbruce.Leaf.Order.{before→lt, not_before→le}
use libbruce.Edit.{PendingEdit, enqueue, IsQueue}

module _ (fns : TreeFunctions) (lawful : IsLawful fns) where
  -- The edits before the place, and those behind it.
  record IsQueuedAt (edit : PendingEdit) (queue after : List PendingEdit) : Type 0 where
    front : List PendingEdit
    back : List PendingEdit
    parts : queue ≡ front ++ back
    result : after ≡ front ++ edit ∷ back
    not_after : All (λ x. Le fns x.key edit.key) front
    behind : All (λ x. Lt fns edit.key x.key) back

  queued :
      (edit : PendingEdit) (queue : List PendingEdit)
      → IsKey edit.key
      → IsQueue fns queue
      → IsQueuedAt edit queue (enqueue fns edit queue)
  unfolding enqueue
  queued edit [] k q = record {
    front = [];
    back = [];
    parts = refl;
    result = refl;
    not_after = tt;
    behind = tt;
  }
  queued edit (x ∷ xs) k q = elim (Bool-cases (before fns edit.key x.key)) [
    | inl b ↦
        let first = before→lt fns lawful edit.key x.key k q.0 b in
        record {
          front = [];
          back = x ∷ xs;
          parts = refl;
          result = rw b refl;
          not_after = tt;
          behind = (
            first,
            All-imp (λ y. Le fns x.key y.key) (λ y. Lt fns edit.key y.key)
                (λ y h. lt-le_trans fns lawful edit.key x.key y.key first h) xs q.1,
          );
        }
    | inr b ↦
        let rest = queued edit xs k q.2 in
        record {
          front = x ∷ rest.front;
          back = rest.back;
          parts = ap (◌∷◌ x) rest.parts;
          result = rw b (ap (◌∷◌ x) rest.result);
          not_after = (not_before→le fns lawful edit.key x.key k q.0 b, rest.not_after);
          behind = rest.behind;
        }
  ]

  insert_at-All :
      (P : PendingEdit → Type 0) (i : ℕ) (edit : PendingEdit) (es : List PendingEdit)
      → P edit
      → All P es
      → All P (insert_at i edit es)
  insert_at-All P zero edit es p h = (p, h)
  insert_at-All P (suc i) edit [] p h = (p, tt)
  insert_at-All P (suc i) edit (e ∷ es) p h = (h.0, insert_at-All P i edit es p h.1)

  stays-IsQueue :
      (edit : PendingEdit) (queue : List PendingEdit)
      → IsKey edit.key
      → IsQueue fns queue
      → IsQueue fns (enqueue fns edit queue)
  unfolding enqueue
  stays-IsQueue edit [] k q = (k, tt, tt)
  stays-IsQueue edit (x ∷ xs) k q = elim (Bool-cases (before fns edit.key x.key)) [
    | inl b ↦
        let first = before→lt fns lawful edit.key x.key k q.0 b in
        rw b (
          k,
          (
            lt→le fns lawful edit.key x.key first,
            All-imp (λ y. Le fns x.key y.key) (λ y. Le fns edit.key y.key)
                (λ y h.
                  lt→le fns lawful edit.key y.key
                    (lt-le_trans fns lawful edit.key x.key y.key first h))
                xs q.1,
          ),
          q,
        )
    | inr b ↦ rw b (
      q.0,
      insert_at-All (λ y. Le fns x.key y.key) (upper_bound (λ e. before fns edit.key e.key) xs) edit
          xs (not_before→le fns lawful edit.key x.key k q.0 b) q.1,
      stays-IsQueue edit xs k q.2,
    )
  ]

  -- Under a lawful comparator, an edit with a non-empty key goes into a sorted queue behind the edits
  -- of its key and of lesser keys and before those of greater keys, with all others in their order,
  -- and the queue stays sorted.
  pub enqueue-IsQueue :
      (edit : PendingEdit) (queue : List PendingEdit)
      → IsKey edit.key
      → IsQueue fns queue
      → IsQueue fns (enqueue fns edit queue)
        × (front : List PendingEdit) × (back : List PendingEdit) × (queue ≡ front ++ back)
        × (enqueue fns edit queue ≡ front ++ edit ∷ back)
        × All (λ x. Le fns x.key edit.key) front
        × All (λ x. Lt fns edit.key x.key) back
  enqueue-IsQueue edit queue k q =
      let at = queued edit queue k q in
      (
        stays-IsQueue edit queue k q,
        at.front,
        at.back,
        at.parts,
        at.result,
        at.not_after,
        at.behind,
      )
