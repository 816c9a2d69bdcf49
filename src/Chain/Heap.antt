-- ===== src/Chain/Heap.antt =====
-- Entering a chain and leaving it.
use mavtables.Prelude.{
  ℕ, zero, suc, ◌≤◌, ◌≡◌, refl, ap, ◌∙◌, false, some, List, [], ◌∷◌, arith, length, get_elem?, set,
  get_elem?-set_self, set-set, set-get_elem?, if◌then◌else◌,
}
use mavtables.Chain.{Chain, Heap, contains_thread, erase_thread, enter, leave}

erase_thread-absent : (t : ℕ) (us : List ℕ) → contains_thread t us ≡ false → erase_thread t us ≡ us
unfolding contains_thread erase_thread
erase_thread-absent t [] h = refl
erase_thread-absent t (u ∷ us) h = ground (arith, erase_thread-absent t us)

-- What the destructor of the guard undoes is what its constructor did.
pub leave-enter :
    (t : ℕ) (h : Heap) (c : ℕ) (chain : Chain)
    → get_elem? h c ≡ some chain
    → contains_thread t chain.calling_threads ≡ false
    → leave t (enter t h c chain) c ≡ h
unfolding enter leave
leave-enter t h c chain at absent =
    rw
      (
        get_elem?-set_self h c (record chain { calling_threads = t ∷ chain.calling_threads }) at,
        leave,
      )
      (set-set h c _ _
        ∙ ap (set h c) (ap (λ us. record chain { calling_threads = us }) erased)
        ∙ set-get_elem? h c chain at)
  where
    erased : erase_thread t (t ∷ chain.calling_threads) ≡ chain.calling_threads
    erased =
        unfold erase_thread in ground (arith, erase_thread-absent t chain.calling_threads absent)

-- The number of chains that a thread is not evaluating.
unfoldable pub free : ℕ → Heap → ℕ
unfolding contains_thread
free t [] = 0
free t (chain ∷ h) = if contains_thread t chain.calling_threads then free t h else suc (free t h)

pub free-le-length : (t : ℕ) (h : Heap) → free t h ≤ length h
unfolding free
free-le-length t [] = omega arith
free-le-length t (chain ∷ h) = ground (arith, free-le-length t h)

-- Entering a chain uses one of them up.
pub free-enter :
    (t : ℕ) (h : Heap) (c : ℕ) (chain : Chain)
    → get_elem? h c ≡ some chain
    → contains_thread t chain.calling_threads ≡ false
    → suc (free t (enter t h c chain)) ≡ free t h
unfolding free enter
free-enter t [] c chain at absent = cc
free-enter t (x ∷ h) zero chain at absent = ground arith
free-enter t (x ∷ h) (suc c) chain at absent = ground (arith, free-enter t h c chain at absent)
