-- ===== src/Cstr/Stored/Heap.antt =====
-- An instance of the allocator's interface, for runs and examples.
use tiny_utils.Base.{
  ℕ, ◌-◌, ◌≤◌, ◌≡◌, refl, sym, ap, ◌∙◌, some, List, [], ◌++◌, length, take, replicate, arith,
  length-append, length-take, length-replicate, take-append_le, take-take,
}
use tiny_utils.Cstr.Block.{Allocator}
use tiny_utils.Cstr.Stored.{HasMemory}

-- An allocator that never fails; new bytes hold 170.
unfoldable pub heap_block : List ℕ → ℕ → List ℕ
heap_block b n = take (n - 8) (b ++ replicate (n - 8) 170)

pub length-heap_block : (b : List ℕ) (n : ℕ) → length (heap_block b n) ≡ n - 8
unfolding heap_block
length-heap_block b n = omega (
  arith,
  length-take (n - 8) (b ++ replicate {A = ℕ} (n - 8) 170),
  length-append b (replicate {A = ℕ} (n - 8) 170),
  length-replicate {A = ℕ} (n - 8) 170,
)

pub take-heap_block :
    (b : List ℕ) (n k : ℕ) → k ≤ length b → k ≤ n - 8 → take k (heap_block b n) ≡ take k b
unfolding heap_block
take-heap_block b n k h h' = take-take k (n - 8) _ h' ∙ take-append_le k b _ h

abbrev pub heap : Allocator
unfolding heap_block
heap = record {
  malloc = λ n. some (heap_block [] n);
  realloc = λ b n. some (heap_block b n);
  malloc_size = λ n b e. ap length (sym (from_some e)) ∙ length-heap_block [] n;
  realloc_size = λ b b' n e. ap length (sym (from_some e)) ∙ length-heap_block b n;
  realloc_keeps = λ b b' n k e h h'.
      ap (λ (t : List ℕ). take k t) (sym (from_some e)) ∙ take-heap_block b n k h h';
}
  where
    from_some : {x y : List ℕ} → some x ≡ some y → x ≡ y
    from_some e = cc

pub heap-HasMemory : HasMemory heap
unfolding heap_block
heap-HasMemory = (λ n h. (_, refl), λ b n h. (_, refl))
