-- ===== src/Tests/Stores.antt =====
-- src/lib.rs: the operations on an ID, in a store of one slot.
use read_write_store.Prelude.{ℕ, ◌+◌, ◌*◌, ◌^◌, ◌≡◌, refl, inl, inr, ok, some, none, arith}
use read_write_store.Timeout.{dont_block, block_indefinitely, done}
use read_write_store.Id.{ElementId}
use read_write_store.Slot.{returns}
use read_write_store.Slot.Results.{IsCallable}
use read_write_store.Queue
use read_write_store.Store.{
  remove_locked, Store, insert, location, remove_with_timeout, read_with_timeout,
}
use read_write_store.Store.View.{view, updated}
use read_write_store.Store.Insertion.{insert_present}
use read_write_store.Store.Removal.{remove_present, remove_absent}
use read_write_store.Lock.{drop_read, drop_write}
use read_write_store.Store.Guards.{remove_locked_present, drop_read_lem, drop_write_lem}
use read_write_store.Store.Access.{read_granted}
use read_write_store.Tests.Samples.{
  address, id_of, store_of, unlocked, read_twice, written, vacated, store_to_fill,
}

unlocked_call : IsCallable 5 unlocked
unlocked_call = record {
  word = record { fits = omega arith; live = inr (omega arith) };
  given = omega arith;
  room = inl (omega arith);
}

read_twice_call : IsCallable 5 read_twice
read_twice_call = record {
  word = record { fits = omega arith; live = inr (omega arith) };
  given = omega arith;
  room = inl (omega arith);
}

written_call : IsCallable 5 written
written_call = record {
  word = record { fits = omega arith; live = inr (omega arith) };
  given = omega arith;
  room = inr refl;
}

vacated_call : IsCallable 5 vacated
vacated_call = record {
  word = record { fits = omega arith; live = inl (omega arith) };
  given = omega arith;
  room = inl (omega arith);
}

-- the store, once its erasure is taken
abbrev emptied : Store ℕ
emptied = store_of vacated

insert_present_example :
    (t : Store ℕ) × (insert 7 43 store_to_fill ≡ ok (7, (t, id_of 6)))
    × (view emptied (id_of 6) ≡ none)
    × ((other : ElementId) → view t other ≡ updated (id_of 6) (some 43) (view emptied) other)
unfolding location Queue.pop
insert_present_example =
    insert_present 7 7 store_to_fill emptied address vacated refl refl (omega arith) 43

remove_present_example :
    (t : Store ℕ) × (remove_with_timeout (id_of 5) dont_block (store_of unlocked)
      ≡ ok (t, returns (done (some 42))))
    × (view (store_of unlocked) (id_of 5) ≡ some 42)
    × ((other : ElementId) → view t other ≡ updated (id_of 5) none (view (store_of unlocked)) other)
remove_present_example =
    remove_present (store_of unlocked) (id_of 5) unlocked refl refl unlocked_call dont_block 42 refl
      refl

remove_absent_example :
    (t : Store ℕ) × (remove_with_timeout (id_of 5) dont_block (store_of vacated)
      ≡ ok (t, returns (done none)))
    × (view (store_of vacated) (id_of 5) ≡ none)
    × ((other : ElementId) → view t other ≡ view (store_of vacated) other)
remove_absent_example =
    remove_absent (store_of vacated) (id_of 5) vacated refl refl vacated_call dont_block 42 refl
      (omega arith)

read_granted_example :
    (t : Store ℕ) × (read_with_timeout (id_of 5) block_indefinitely (store_of read_twice)
      ≡ ok (t, returns (done (some (record { id = id_of 5 })))))
    × (t.heap.cell 0 0 ≡ some (record { header = 2 ^ 63 + 3 * 2 ^ 32 + 5; value = some 42 }))
    × ((other : ElementId) → view t other ≡ view (store_of read_twice) other)
read_granted_example =
    read_granted (store_of read_twice) (id_of 5) read_twice refl refl read_twice_call
      block_indefinitely refl (omega arith)

remove_locked_present_example :
    (t : Store ℕ) × (remove_locked (record { id = id_of 5 }) (store_of written) ≡ ok (t, 42))
    × (view (store_of written) (id_of 5) ≡ some 42)
    × ((other : ElementId) → view t other ≡ updated (id_of 5) none (view (store_of written)) other)
remove_locked_present_example =
    remove_locked_present (store_of written) (id_of 5) written refl
      (record { fits = omega arith; live = inr (omega arith) }) refl 42 refl refl refl

drop_read_lem_example :
    (t : Store ℕ) × (drop_read (record { id = id_of 5 }) (store_of read_twice).heap
      ≡ ok (t.heap, tt))
    × (t.heap.cell 0 0 ≡ some (record { header = 2 ^ 63 + 2 ^ 32 + 5; value = some 42 }))
    × ((other : ElementId) → view t other ≡ view (store_of read_twice) other)
drop_read_lem_example =
    drop_read_lem (store_of read_twice) (id_of 5) read_twice refl
      (record { fits = omega arith; live = inr (omega arith) }) refl (omega arith) (omega arith)

drop_write_lem_example :
    (t : Store ℕ) × (drop_write (record { id = id_of 5 }) (store_of written).heap ≡ ok (t.heap, tt))
    × (t.heap.cell 0 0 ≡ some (record { header = 2 ^ 63 + 5; value = some 42 }))
    × ((other : ElementId) → view t other ≡ view (store_of written) other)
drop_write_lem_example =
    drop_write_lem (store_of written) (id_of 5) written refl
      (record { fits = omega arith; live = inr (omega arith) }) refl refl
