-- ===== src/Santa/Knowledge.antt =====
-- What is known at each point of cw10/main.c, as long as no wait on a condition ends by itself: who
-- has the mutex, and how many reindeer are counted.
use sysops.Common.{
  ℕ, suc, ◌+◌, ◌≤◌, ◌≡◌, refl, ap, true, List, [], ◌∷◌, map, length, total, arith, ltb,
}
use sysops.Santa.{
  reindeer_count, total_deliveries, Reindeer, leaving, arrived, counted, signalled, waiting, Santa,
  locking, checking, asleep, roused, delivering, freeing, unlocking, finished, Shared, rouse, wake,
}

-- A reindeer with the mutex.
abbrev pub holds : Reindeer → ℕ
holds leaving = 1
holds arrived = 1
holds counted = 1
holds signalled = 1
holds _ = 0

-- A reindeer that is counted in `reindeer_ready_count`.
abbrev pub is_ready : Reindeer → ℕ
is_ready counted = 1
is_ready signalled = 1
is_ready waiting = 1
is_ready _ = 0

abbrev pub waits : Reindeer → ℕ
waits waiting = 1
waits _ = 0

abbrev pub santa_holds : Santa → ℕ
santa_holds (checking i) = 1
santa_holds (delivering i) = 1
santa_holds (freeing i) = 1
santa_holds (unlocking i) = 1
santa_holds _ = 0

-- What Santa knows of the count and the reindeer. Behind the last delivery nobody is freed, and
-- nothing is known.
abbrev pub Knows : Santa → ℕ → List Reindeer → Type 0
Knows (delivering i) c rs = total waits rs ≡ length rs
Knows (freeing i) c rs = (c ≡ 0) × (total waits rs ≡ length rs)
Knows (unlocking i) c rs = ltb (i + 1) total_deliveries ≡ true → c ≡ total is_ready rs
Knows finished c rs = Unit {0}
Knows _ c rs = c ≡ total is_ready rs

pub record Inv (s : Shared) (rs : List Reindeer) : Type 0 where
  pub size : length rs ≡ reindeer_count
  pub lock : s.mutex + total holds rs + santa_holds s.santa ≡ 1
  pub know : Knows s.santa s.ready_count rs

one_ready : (r : Reindeer) → is_ready r ≤ waits r + holds r
one_ready r = ground arith

ready_waits : (rs : List Reindeer) → total is_ready rs ≤ total waits rs + total holds rs
unfolding total
ready_waits [] = omega arith
ready_waits (r ∷ rs) = omega (arith, one_ready r, ready_waits rs)

pub waits_le : (rs : List Reindeer) → total waits rs ≤ length rs
unfolding total
waits_le [] = omega arith
waits_le (waiting ∷ rs) = omega (arith, waits_le rs)
waits_le (r ∷ rs) = omega (arith, waits_le rs)

-- A broadcast to reindeer that all wait.
pub total-wake :
    (rs : List Reindeer) → total waits rs ≡ length rs → total is_ready (map wake rs) ≡ 0
unfolding total
total-wake [] e = refl
total-wake (waiting ∷ rs) e = omega (arith, total-wake rs (omega arith))
total-wake (r ∷ rs) e = absurd (omega (arith, waits_le rs))

pub holds-wake : (rs : List Reindeer) → total holds (map wake rs) ≡ total holds rs
unfolding total
holds-wake [] = refl
holds-wake (r ∷ rs) = ground (arith, holds-wake rs)

pub length-wake : (rs : List Reindeer) → length (map wake rs) ≡ length rs
length-wake [] = refl
length-wake (r ∷ rs) = ap suc (length-wake rs)

-- While Santa has the mutex and the count has come to nine, all nine wait for the condition.
pub all_wait :
    (n c : ℕ) (rs : List Reindeer)
    → length rs ≡ reindeer_count
    → n + total holds rs + 1 ≡ 1
    → c ≡ total is_ready rs
    → reindeer_count ≤ c
    → total waits rs ≡ length rs
all_wait n c rs z l k h = omega (arith, ready_waits rs, waits_le rs)

-- Without the mutex Santa knows at most that the count is right.
pub Knows-unlocked :
    (p : Santa) (c d : ℕ) (rs qs : List Reindeer)
    → santa_holds p ≡ 0
    → (c ≡ total is_ready rs → d ≡ total is_ready qs)
    → Knows p c rs
    → Knows p d qs
Knows-unlocked (locking i) c d rs qs e f k = f k
Knows-unlocked (asleep i) c d rs qs e f k = f k
Knows-unlocked (roused i) c d rs qs e f k = f k
Knows-unlocked finished c d rs qs e f k = tt
Knows-unlocked p c d rs qs e f k = absurd (omega arith)

Knows-rouse : (p : Santa) (c : ℕ) (rs : List Reindeer) → Knows p c rs → Knows (rouse p) c rs
Knows-rouse (asleep i) c rs k = k
Knows-rouse p c rs k = k

santa_holds-rouse : (p : Santa) → santa_holds (rouse p) ≡ santa_holds p
santa_holds-rouse (asleep i) = refl
santa_holds-rouse p = refl

pub rouse-Inv :
    (s : Shared) (rs : List Reindeer) → Inv s rs → Inv (record s { santa = rouse s.santa }) rs
rouse-Inv s rs v = record {
  size = v.size;
  lock = omega (arith, v.lock, santa_holds-rouse s.santa);
  know = Knows-rouse s.santa s.ready_count rs v.know;
}
