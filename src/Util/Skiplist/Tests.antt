-- ===== src/Util/Skiplist/Tests.antt =====
-- Runs of src/util/skiplist.c: three nodes, one of them on level 1, too.
use Prim.Native.Nat.{compare}
use libvfn.Base.{ℕ, zero, suc, ◌≤◌, ◌<◌, ◌≡◌, ◌⊎◌, refl, some, List, [], ◌∷◌, arith, inl, inr}
use libvfn.Util.Links.{plain, remove}
use libvfn.Util.Skiplist.{
  sentinel, Cmp, is_gt, LevelPath, Skiplist, skiplist_find, skiplist_link, skiplist_erase,
}
use libvfn.Util.Skiplist.Order.{Sub, keep, skip, done, last_passed}
use libvfn.Util.Skiplist.Search.{Valid}
use libvfn.Util.Skiplist.Scan.{Ordered, skiplist_find-scan}
use libvfn.Util.Skiplist.Link.{linked, skiplist_link-Valid}
use libvfn.Util.Skiplist.Erase.{skiplist_erase-Valid}

abbrev lanes : ℕ → List ℕ
lanes zero = 2 ∷ 4 ∷ 6 ∷ []
lanes (suc zero) = 4 ∷ []
lanes (suc (suc k)) = []

abbrev list : Skiplist plain
list = record { height = 1; heads = λ k. sentinel ∷ lanes k }

lanes-Sub : (k : ℕ) → Sub (lanes (suc k)) (lanes k)
lanes-Sub zero = skip 2 (keep 4 (skip 6 done))
lanes-Sub (suc zero) = skip 4 done
lanes-Sub (suc (suc k)) = done

lanes_above : (k : ℕ) → 1 < k → lanes k ≡ []
lanes_above zero h = absurd (omega arith)
lanes_above (suc zero) h = absurd (omega arith)
lanes_above (suc (suc k)) h = refl

list-Valid : Valid plain list lanes
list-Valid = record {
  heads_lem = λ k. refl;
  sub = lanes-Sub;
  distinct = ground arith;
  above = lanes_above;
}

abbrev key : ℕ → Cmp
key a n = compare a n

four-Ordered : Ordered (key 4) (lanes 0)
four-Ordered = (inl (refl, inr (refl, (refl, tt))), inl (refl, inl (refl, inr (refl, tt))))

five-Ordered : Ordered (key 5) (lanes 0)
five-Ordered = (inl (refl, inl (refl, inr (refl, tt))), inl (refl, inl (refl, inr (refl, tt))))

skiplist_find-scan_example :
    (path : LevelPath) × ((skiplist_find plain list (key 4) 4 ≡ some (some 4, path))
      × ((k : ℕ) → k ≤ 1 → path k ≡ last_passed (λ n. is_gt (key 4 n)) sentinel (lanes k)))
skiplist_find-scan_example =
    skiplist_find-scan plain list lanes (key 4) 4 list-Valid four-Ordered (omega arith)

-- The path to node 4, and the path to the place of 5.
abbrev four_path : LevelPath
four_path zero = 2
four_path (suc k) = sentinel

abbrev five_path : LevelPath
five_path k = 4

four_path_lem :
    (k : ℕ) → k ≤ 1 → four_path k ≡ last_passed (λ n. is_gt (key 4 n)) sentinel (lanes k)
four_path_lem zero h = refl
four_path_lem (suc zero) h = refl
four_path_lem (suc (suc k)) h = refl

five_path_lem :
    (k : ℕ) → k ≤ 1 → five_path k ≡ last_passed (λ n. is_gt (key 5 n)) sentinel (lanes k)
five_path_lem zero h = refl
five_path_lem (suc zero) h = refl
five_path_lem (suc (suc k)) h = absurd (omega arith)

skiplist_link-Valid_example :
    Valid plain (skiplist_link plain list 5 five_path 7) (linked (λ n. is_gt (key 5 n)) 5 2 lanes)
    × (((1 < 7) × ((skiplist_link plain list 5 five_path 7).height ≡ 2))
        ⊎ ((7 ≤ 1) × ((skiplist_link plain list 5 five_path 7).height ≡ 1)))
skiplist_link-Valid_example =
    skiplist_link-Valid plain list lanes (λ n. is_gt (key 5 n)) 5 7 five_path list-Valid
      five-Ordered.0 (ground arith) five_path_lem

skiplist_erase-Valid_example :
    Valid plain (skiplist_erase plain list 4 four_path) (λ k. remove 4 (lanes k))
skiplist_erase-Valid_example =
    skiplist_erase-Valid plain list lanes (λ n. is_gt (key 4 n)) 4 four_path list-Valid
      four-Ordered.0 refl four_path_lem
