-- ===== src/Fifo/Tests.antt =====
-- The FIFO's theorems at concrete inputs, and tests of src/fifo/fifo.c's functions.
use picore.Base.{ℕ, ◌+◌, ◌-◌, ◌≤◌, ◌⊎◌, ◌≡◌, refl, arith, min, Option, some, List, [], ◌∷◌, ◌++◌}
use picore.Fifo.{Fifo, peek, read_prepare, write_prepare, write, read, store, write_done, read_done}
use picore.Fifo.Inv.{IsValid}
use picore.Fifo.Contents.{contents}
use picore.Fifo.Write.{Done, write-Done}
use picore.Fifo.Read.{Delivered, read-Delivered, read_one_piece}
use picore.Fifo.Short.{short_done}
use picore.Fifo.Steps.{
  Reach, here, next, reserve, fill, claim, start, System, reserved, filled, claimed, released,
  release, sent-received, held_disjoint,
}

-- The scheduler here records which tasks it is told to run.
abbrev log : Option ℕ → List (Option ℕ) → List (Option ℕ)
log task w = task ∷ w

abbrev fresh : Fifo
fresh = record {
  consumer = some 1;
  producer = some 2;
  buffer = 0 ∷ 0 ∷ 0 ∷ 0 ∷ [];
  size = 4;
  wptr = 0;
  rptr = 0;
  free = 4;
  used = 0;
}

-- 7, 8, then 9, round the end of the storage.
abbrev wrapped : Fifo
wrapped = record {
  consumer = some 1;
  producer = some 2;
  buffer = 9 ∷ 0 ∷ 7 ∷ 8 ∷ [];
  size = 4;
  wptr = 1;
  rptr = 2;
  free = 1;
  used = 3;
}

fresh-IsValid : IsValid fresh 0 0
fresh-IsValid = omega arith

wrapped-IsValid : IsValid wrapped 0 0
wrapped-IsValid = omega arith

contents-wrapped : contents wrapped ≡ 7 ∷ 8 ∷ 9 ∷ []
contents-wrapped = refl

-- Two chunks, so the consumer is woken twice.
write_wraps :
    write log (record wrapped { used = 1; free = 3; wptr = 3 }) [] (1 ∷ 2 ∷ 3 ∷ 4 ∷ []) 4
    ≡ some (
      3,
      record wrapped { buffer = 2 ∷ 3 ∷ 7 ∷ 1 ∷ []; used = 4; free = 0; wptr = 2 },
      some 1 ∷ some 1 ∷ [],
    )
unfolding write
write_wraps = refl

peek-wrapped : peek wrapped 3 ≡ 7 ∷ 8 ∷ 9 ∷ []
unfolding peek
peek-wrapped = refl

write-Done_example :
    Done log wrapped [] (1 ∷ 2 ∷ []) 0 (min 2 1) 0 (write log wrapped [] (1 ∷ 2 ∷ []) 2)
write-Done_example =
    write-Done log wrapped [] (1 ∷ 2 ∷ []) 2 wrapped-IsValid (omega arith) (omega arith)

read-Delivered_example : Delivered log wrapped 3 0 [] (read log (λ i. 1 - i) 2 wrapped [] 3)
read-Delivered_example =
    read-Delivered log (λ i. 1 - i) wrapped [] 3 1 wrapped-IsValid (omega arith) refl

-- Three bytes are asked for and stored, and two are returned.
read_one_piece_example :
    (f : Fifo) × (w : List (Option ℕ)) × (read log (λ i. 0) 1 wrapped [] 3
      ≡ some (7 ∷ 8 ∷ [], f, w))
    × (contents f ≡ 9 ∷ [])
read_one_piece_example = read_one_piece log (λ i. 0) wrapped [] 3 wrapped-IsValid (omega arith) refl

peek_two : peek wrapped 2 ≡ 7 ∷ 8 ∷ []
unfolding peek
peek_two = refl

-- Two bytes are written, and the reader claims one of them while the writer reserves again.
abbrev busy : System (List (Option ℕ))
busy = record {
  fifo = record fresh { buffer = 5 ∷ 6 ∷ 0 ∷ 0 ∷ []; wptr = 3; rptr = 1; used = 1; free = 1 };
  world = some 1 ∷ [];
  writer = some (2, 1);
  reader = some (0, 1);
  sent = 5 ∷ 6 ∷ [];
  received = [];
}

busy_reached : Reach log (start log fresh []) busy
unfolding start reserved filled claimed read_prepare write_prepare store write_done
busy_reached =
    let s0 = start log fresh [] in
    let s1 = reserved log s0 2 in
    let s2 = filled log s1 0 (5 ∷ 6 ∷ []) in
    let s3 = claimed log s2 1 in
    let r1 : Reach log s0 s1 = next here (reserve s0 2 refl) in
    let r2 : Reach log s0 s2 = next r1 (fill s1 0 (5 ∷ 6 ∷ []) refl) in
    let r3 : Reach log s0 s3 = next r2 (claim s2 1 refl) in next r3 (reserve s3 1 refl)

-- The same run after the reader has given its byte back.
sent-received_example : 5 ∷ 6 ∷ [] ≡ (5 ∷ []) ++ contents (released log busy 0 1).fifo
unfolding released read_done
sent-received_example =
    sent-received log fresh [] fresh-IsValid refl (next busy_reached (release busy 0 1 refl)) refl

held_disjoint_example : (0 + 1 ≤ 4) × (2 + 1 ≤ 4) × ((0 + 1 ≤ 2) ⊎ (2 + 1 ≤ 0))
held_disjoint_example = held_disjoint log fresh [] 0 1 2 1 fresh-IsValid refl busy_reached refl refl

-- Two of four bytes are stored. Two more are reserved and one is written; two are claimed and one is
-- consumed.
abbrev half_full : Fifo
half_full = record fresh { wptr = 2; used = 2; free = 2 }

half_full-IsValid : IsValid half_full 0 0
half_full-IsValid = omega arith

short_done_example :
    (let f' = (write_done log (store (write_prepare half_full 2).fifo 2 (5 ∷ [])) 1 []).0 in
      IsValid f' 0 1 × ¬ IsValid f' 0 0)
    × (let f' = (read_done log (read_prepare half_full 2).fifo 1 []).0 in
        IsValid f' 1 0 × ¬ IsValid f' 0 0)
unfolding write_prepare read_prepare
short_done_example =
    short_done log half_full [] 2 2 (5 ∷ []) 1 half_full-IsValid (omega arith) (omega arith)
