-- ===== src/Tests/Drops.antt =====
-- A store of one element, whose elements are moved out or dropped.
use read_write_store.Prelude.Panic.{uninitialized}
use read_write_store.Prelude.{Option, Check, unwrap, refl, ℕ, ◌+◌, ◌≡◌, inr, List, [], ok, arith}
use read_write_store.Id.{ElementId}
use read_write_store.Iter.{new_iter, owned_take, mut_take}
use read_write_store.Iter.Yields.{collect, count}
use read_write_store.Iter.Contents.{lookup}
use read_write_store.Iter.Once.{NoTwice}
use read_write_store.Iter.Owned.{IsUnlocked, into_iter-iter_mut}
use read_write_store.Store.{drop_store}
use read_write_store.Store.Dropped.{drop_store-view}
use read_write_store.Store.View.{view}
use read_write_store.Tests.Samples.{unlocked, store_of}
use read_write_store.Tests.Filled.{filled_buckets, filled_store, unlocked-IsStore, one_slot}

unlocked-IsUnlocked : IsUnlocked (store_of unlocked).heap
unlocked-IsUnlocked base index slot at =
    let (lt, eb, ei, same) = one_slot unlocked slot base index at in rw (← same) (inr (omega arith))

into_iter-iter_mut_example :
    (es : List (ElementId × ℕ)) × (collect owned_take
        (count es + 1)
        (new_iter filled_buckets)
        (store_of unlocked).heap
      ≡ ok es)
    × (collect mut_take (count es + 1) (new_iter filled_buckets) (store_of unlocked).heap ≡ ok es)
    × ((id : ElementId) → lookup es id ≡ view (filled_store unlocked []) id)
    × NoTwice es
into_iter-iter_mut_example = into_iter-iter_mut unlocked-IsStore unlocked-IsUnlocked

-- An element whose option has its representation.
abbrev as_element : Option ℕ → Check ℕ
as_element value = unwrap value uninitialized

drop_store-view_example :
    (es : List (ElementId × ℕ)) × (drop_store as_element (filled_store unlocked []) ≡ ok es)
    × ((id : ElementId) → lookup es id ≡ view (filled_store unlocked []) id)
    × NoTwice es
drop_store-view_example =
    drop_store-view unlocked-IsStore unlocked-IsUnlocked as_element (λ e. refl)
