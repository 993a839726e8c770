-- ===== src/RunQueue/Refine.antt =====
-- Kernel/Core/Scheduler/RunQueue.hpp: `Push` and `PopFront` on the list that the links describe.
use objective_hail_os.Prelude.{
  ℕ, ◌≡◌, ◌≢◌, refl, true, false, ◌||◌, List, [], ◌∷◌, ◌++◌, arith, ◌==◌,
}
use objective_hail_os.RunQueue.{Threads, RunQueue, null, set_next, set_prev, push, pop_front}
use objective_hail_os.RunQueue.Chain.{has, Distinct, Chain, IsQueue, tail-mem, Chain-frame}

pub has-snoc : (a t : ℕ) (xs : List ℕ) → has a (xs ++ t ∷ []) ≡ (has a xs || (a == t))
has-snoc a t [] = ground arith
has-snoc a t (x ∷ xs) = ground (arith, has-snoc a t xs)

pub Distinct-snoc : (t : ℕ) (xs : List ℕ) → Distinct xs → has t xs ≡ false → Distinct (xs ++ t ∷ [])
Distinct-snoc t [] d out = (refl, tt)
Distinct-snoc t (x ∷ xs) d out =
    (rw (has-snoc x t xs) (ground arith), Distinct-snoc t xs d.1 (ground arith))

module _ (th th' : Threads) (t tail : ℕ) (not_null : t ≢ null) (own : (th' t).next ≡ null)
    (back : (th' t).prev ≡ tail) (link : (th' tail).next ≡ t)
    (nexts : (a : ℕ) → a ≢ t → a ≢ tail → (th' a).next ≡ (th a).next)
    (prevs : (a : ℕ) → a ≢ t → (th' a).prev ≡ (th a).prev) where
  Chain-snoc :
      (prev p x : ℕ) (xs : List ℕ)
      → Chain th prev p tail (x ∷ xs)
      → Distinct (x ∷ xs)
      → has t (x ∷ xs) ≡ false
      → Chain th' prev p t ((x ∷ xs) ++ t ∷ [])
  Chain-snoc prev p x [] c d out =
      let last : tail ≡ x = c.3.1 in
      (
        c.0,
        c.1,
        ground (arith, prevs x),
        (rw (← last) link, not_null, rw (← last) back, (own, refl)),
      )
  Chain-snoc prev p x (y ∷ xs) c d out =
      let in_rest = tail-mem th x (th x).next tail y xs c.3 in
      let inner : x ≢ tail = ground arith in
      let same : (th' x).next ≡ (th x).next = nexts x (ground arith) inner in
      (
        c.0,
        c.1,
        ground (arith, prevs x),
        rw same (Chain-snoc x (th x).next y xs c.3 d.1 (ground arith)),
      )

ne_null_of_mem :
    (th : Threads) (prev p tail a : ℕ) (xs : List ℕ)
    → Chain th prev p tail xs
    → has a xs ≡ true
    → a ≢ null
ne_null_of_mem th prev p tail a [] c m = cc
ne_null_of_mem th prev p tail a (x ∷ xs) c m =
    ground (arith, ne_null_of_mem th x (th x).next tail a xs c.3)

push_nonempty :
    (th : Threads) (q : RunQueue) (t : ℕ)
    → q.tail ≢ null
    → push th q t ≡ (
      set_next (set_prev (set_next th t null) t q.tail) q.tail t,
      record { head = q.head; tail = t },
    )
unfolding push
push_nonempty th q t h = ground arith

push_empty :
    (th : Threads) (q : RunQueue) (t : ℕ)
    → q.tail ≡ null
    → push th q t ≡ (set_prev (set_next th t null) t null, record { head = t; tail = t })
unfolding push
push_empty th q t h = ground arith

-- `Push` of a thread that is not null and not in the queue appends it.
pub push-IsQueue :
    (th : Threads) (q : RunQueue) (t : ℕ) (xs : List ℕ)
    → IsQueue th q xs
    → t ≢ null
    → has t xs ≡ false
    → IsQueue (push th q t).0 (push th q t).1 (xs ++ t ∷ [])
push-IsQueue th q t [] is not_null out = rw (push_empty th q t is.chain.1) (record {
  chain = unfold set_next set_prev in (refl, not_null, ground arith, (ground arith, refl));
  distinct = Distinct-snoc t [] is.distinct out;
})
push-IsQueue th q t (x ∷ xs) is not_null out =
    let th' = set_next (set_prev (set_next th t null) t q.tail) q.tail t in
    let m = tail-mem th null q.head q.tail x xs is.chain in
    let other : q.tail ≢ t = ground arith in
    rw (push_nonempty th q t (ne_null_of_mem th null q.head q.tail q.tail (x ∷ xs) is.chain m))
      (record {
        chain =
            Chain-snoc th th' t q.tail not_null (unfold set_next set_prev in ground arith)
              (unfold set_next set_prev in ground arith) (unfold set_next set_prev in ground arith)
              (λ a h k. unfold set_next set_prev in ground arith)
              (λ a h. unfold set_next set_prev in ground arith) null q.head x xs is.chain
              is.distinct out;
        distinct = Distinct-snoc t (x ∷ xs) is.distinct out;
      })

pop_last :
    (th : Threads) (q : RunQueue)
    → q.head ≢ null
    → (th q.head).next ≡ null
    → pop_front th q ≡ (
      q.head,
      set_next (set_prev th q.head null) q.head null,
      record { head = (th q.head).next; tail = null },
    )
unfolding pop_front
pop_last th q h e = ground arith

pop_more :
    (th : Threads) (q : RunQueue)
    → q.head ≢ null
    → (th q.head).next ≢ null
    → pop_front th q ≡ (
      q.head,
      set_next (set_prev (set_prev th (th q.head).next null) q.head null) q.head null,
      record { head = (th q.head).next; tail = q.tail },
    )
unfolding pop_front
pop_more th q h e = ground arith

-- `PopFront` of an empty queue returns the null pointer and changes nothing.
pub pop_front-nil : (th : Threads) (q : RunQueue) → IsQueue th q [] → pop_front th q ≡ (null, th, q)
unfolding pop_front
pop_front-nil th q is = ground arith

-- `PopFront` of a queue that is not empty returns the first thread, with its links cleared, and
-- leaves the queue of the others in their order.
pub pop_front-cons :
    (th : Threads) (q : RunQueue) (x : ℕ) (xs : List ℕ)
    → IsQueue th q (x ∷ xs)
    → let r = pop_front th q in
      (r.0 ≡ x) × IsQueue r.1 r.2 xs × ((r.1 x).next ≡ null) × ((r.1 x).prev ≡ null)
pop_front-cons th q x [] is = rw (pop_last th q (ground arith) (ground arith)) (
  ground arith,
  record { chain = (ground arith, refl); distinct = tt },
  unfold set_next set_prev in ground arith,
  unfold set_next set_prev in ground arith,
)
pop_front-cons th q x (y ∷ xs) is =
    let head : q.head ≡ x = is.chain.0 in
    let second : (th q.head).next ≡ y = ground arith in
    let th' = set_next (set_prev (set_prev th (th q.head).next null) q.head null) q.head null in
    let rest =
      Chain-frame th th' y (th y).next q.tail xs
        (λ a m.
          (unfold set_next set_prev in ground arith, unfold set_next set_prev in ground arith))
        is.chain.3.3 in
    let kept : (th' y).next ≡ (th y).next = unfold set_next set_prev in ground arith in
    rw (pop_more th q (ground arith) (ground arith)) (
      head,
      record {
        chain = (second, is.chain.3.1, unfold set_next set_prev in ground arith, rw kept rest);
        distinct = is.distinct.1;
      },
      unfold set_next set_prev in ground arith,
      unfold set_next set_prev in ground arith,
    )

-- The operations touch nothing of a thread but its links.
module _ (th : Threads) (q : RunQueue) where
  pub push-state : (t a : ℕ) → ((push th q t).0 a).state ≡ (th a).state
  unfolding push
  push-state t a = ground arith

  pub pop_front-state : (a : ℕ) → ((pop_front th q).1 a).state ≡ (th a).state
  unfolding pop_front
  pop_front-state a = ground arith
