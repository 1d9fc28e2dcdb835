-- ===== src/Overlapped/Pool.antt =====
-- What the pool holds.
use outgame_lobby_server.Prelude.{
  ap, ℕ, zero, suc, ◌+◌, ◌≤◌, ◌<◌, ◌≡◌, refl, List, [], ◌∷◌, ◌++◌, All, All-append, length,
  length-append, arith,
}
use outgame_lobby_server.Overlapped.{
  delete_all, destroy, Address, heap, Overlapped, zeroed, OverLappedManager, fill, init,
  overlapped_queue_size,
}

-- A pooled object that `delete` may free: zeroed, and allocated by `new`.
unfoldable pub IsPooled : ℕ → Overlapped → Type 0
IsPooled allocated o = (n : ℕ) × (n < allocated) × (o ≡ zeroed (heap n))

abbrev pub IsClean : OverLappedManager → Type 0
IsClean m = All (IsPooled m.allocated) m.ov_lap_pool

IsPooled-mono :
    (a b : ℕ) → a ≤ b → (os : List Overlapped) → All (IsPooled a) os → All (IsPooled b) os
unfolding IsPooled
IsPooled-mono a b h [] p = tt
IsPooled-mono a b h (o ∷ os) ((n, lt, e), p) = ((n, omega arith, e), IsPooled-mono a b h os p)

fill-IsClean : (n : ℕ) (m : OverLappedManager) → IsClean m → IsClean (fill n m)
unfolding fill IsPooled
fill-IsClean zero m c = c
fill-IsClean (suc n) m c = fill-IsClean n _ (
    All-append _ m.ov_lap_pool _
      (unfold IsPooled in IsPooled-mono m.allocated (m.allocated + 1) (omega arith) m.ov_lap_pool c)
      ((m.allocated, omega arith, refl), tt))

length-fill :
    (n : ℕ) (m : OverLappedManager) → length (fill n m).ov_lap_pool ≡ length m.ov_lap_pool + n
unfolding fill
length-fill zero m = omega arith
length-fill (suc n) m = omega (
  arith,
  length-fill n (record m {
    allocated = m.allocated + 1;
    ov_lap_pool = m.ov_lap_pool ++ zeroed (heap m.allocated) ∷ [];
  }),
  length-append m.ov_lap_pool (zeroed (heap m.allocated) ∷ []),
)

-- On a pool of clean objects, `init` adds `OVERLAPPED_QUEUE_SIZE` objects, and all are clean.
pub init_lem :
    (m : OverLappedManager)
    → IsClean m
    → IsClean (init m)
      × (length (init m).ov_lap_pool ≡ length m.ov_lap_pool + overlapped_queue_size)
unfolding init
init_lem m c = (fill-IsClean overlapped_queue_size m c, length-fill overlapped_queue_size m)

IsAllocated : ℕ → Address → Type 0
IsAllocated allocated a = (n : ℕ) × (n < allocated) × (a ≡ heap n)

delete_all-IsAllocated :
    (os : List Overlapped) (m : OverLappedManager)
    → m.ov_lap_pool ≡ os
    → All (IsPooled m.allocated) os
    → All (IsAllocated m.allocated) (delete_all os m).0 × ((delete_all os m).1.ov_lap_pool ≡ [])
unfolding delete_all IsPooled IsAllocated
delete_all-IsAllocated [] m e clean = (tt, e)
delete_all-IsAllocated (o ∷ os) m e ((n, lt, same), clean) =
    let (all, empty) = delete_all-IsAllocated os (record m { ov_lap_pool = os }) refl clean in
    (((n, lt, ap (λ (x : Overlapped). x.address) same), all), empty)

-- On a pool of clean objects the destructor deletes objects that `new` made only, and leaves the pool empty.
destroy-IsAllocated :
    (m : OverLappedManager)
    → IsClean m
    → All (IsAllocated m.allocated) (destroy m).0 × ((destroy m).1.ov_lap_pool ≡ [])
unfolding destroy
destroy-IsAllocated m clean = delete_all-IsAllocated m.ov_lap_pool m refl clean
