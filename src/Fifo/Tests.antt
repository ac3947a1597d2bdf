-- ===== src/Fifo/Tests.antt =====
-- The allocator at small inputs.
use zhangxy.Base.{ℕ, ◌+◌, ◌<◌, ◌≡◌, refl, ◌⊎◌, inl, true, false, none, some, [], ◌∷◌, arith}
use zhangxy.Fifo.{Fifo, word_at, p_end, alloc, alloc_tail, free, get_max_size}
use zhangxy.Fifo.Blocks.{Block, Straight, Wrapped, Holds}
use zhangxy.Fifo.Alloc.{alloc_appends}
use zhangxy.Fifo.Free.{free_oldest, free_out_of_turn}

-- One block of four bytes, with its header, in twelve.
abbrev one_block : Fifo
one_block = record {
  mem = 8 ∷ 0 ∷ 0 ∷ 0 ∷ 1 ∷ 2 ∷ 3 ∷ 4 ∷ 0 ∷ 0 ∷ 0 ∷ 0 ∷ [];
  p_read = 0;
  p_write = 8;
  is_full = false;
}

abbrev first : Block
first = record { at = 0; total = 8 }

one_block-Straight : Straight one_block (first ∷ [])
unfolding word_at
one_block-Straight = record {
  chain = (refl, omega arith, refl, refl);
  not_full = refl;
  inside = omega arith;
}

-- An older block at 6, with a gap behind it, and a newer one at the start.
abbrev turned : Fifo
turned = record {
  mem = 5 ∷ 0 ∷ 0 ∷ 0 ∷ 9 ∷ 0 ∷ 6 ∷ 0 ∷ 0 ∷ 0 ∷ 1 ∷ 2 ∷ 0 ∷ 0 ∷ [];
  p_read = 6;
  p_write = 5;
  is_full = false;
}

abbrev older_block : Block
older_block = record { at = 6; total = 6 }

abbrev newer_block : Block
newer_block = record { at = 0; total = 5 }

turned-Wrapped : Wrapped turned (older_block ∷ []) (newer_block ∷ []) 12
unfolding word_at
turned-Wrapped = record {
  older = (refl, omega arith, refl, refl);
  newer = (refl, omega arith, refl, refl);
  behind = omega arith;
  full = ((λ e. cc), (λ e. absurd (omega arith)));
  inside = omega arith;
  read_inside = omega arith;
}

second_block : (alloc one_block 0).1 ≡ some 12
unfolding alloc alloc_tail
second_block = refl

alloc_appends_example :
    ((alloc one_block 0 ≡ (one_block, none))
      × ((false ≡ true)
          ⊎ ((get_max_size one_block < 0 + 4)
              ⊎ ((one_block.p_read ≡ one_block.p_write) × (12 < 8 + 0 + 4)))))
    ⊎ ((f' : Fifo) × (p : ℕ) × (alloc one_block 0 ≡ (f', some (p + 4)))
        × Holds f' (first ∷ record { at = p; total = 0 + 4 } ∷ [])
        × (p_end f' ≡ 12))
alloc_appends_example =
    alloc_appends one_block (first ∷ []) 0 (inl one_block-Straight) (omega arith)

free_oldest_example :
    (f' : Fifo) × (free one_block (0 + 4) ≡ (f', true)) × Holds f' [] × (f'.mem ≡ one_block.mem)
free_oldest_example = free_oldest one_block first [] (inl one_block-Straight)

free_out_of_turn_example :
    (f' : Fifo) × (free turned (0 + 4) ≡ (f', true)) × Holds f' [] × (f'.mem ≡ turned.mem)
free_out_of_turn_example =
    free_out_of_turn turned newer_block (older_block ∷ []) [] 12 turned-Wrapped
