-- ===== src/Tests/Laws.antt =====
-- The laws of the order of the concrete numbers.
use autopilot_manager.Common.{◌≡◌, refl, true, false, none, some, pos, negsuc, arith, IsOrder}
use autopilot_manager.Tests.Fixtures.{Milli, milli}

irrefl : (x : Milli) → milli.lt x x ≡ false
irrefl none = refl
irrefl (some (pos n)) = ground arith
irrefl (some (negsuc n)) = ground arith

trans : (x y z : Milli) → milli.lt x y ≡ true → milli.lt y z ≡ true → milli.lt x z ≡ true
trans (some (pos a)) (some (pos b)) (some (pos c)) h g = ground arith
trans (some (pos a)) (some (pos b)) (some (negsuc c)) h g = ground arith
trans (some (pos a)) (some (negsuc b)) (some z) h g = ground arith
trans (some (negsuc a)) (some (pos b)) (some (pos c)) h g = ground arith
trans (some (negsuc a)) (some (pos b)) (some (negsuc c)) h g = ground arith
trans (some (negsuc a)) (some (negsuc b)) (some (pos c)) h g = ground arith
trans (some (negsuc a)) (some (negsuc b)) (some (negsuc c)) h g = ground arith
trans none y z h g = ground arith
trans (some x) none z h g = ground arith
trans (some x) (some y) none h g = ground arith

not_trans :
    (x y z : Milli)
    → milli.is_finite y ≡ true
    → milli.lt x y ≡ false
    → milli.lt y z ≡ false
    → milli.lt x z ≡ false
not_trans none y z n h g = refl
not_trans (some x) y none n h g = refl
not_trans (some x) none (some z) n h g = ground arith
not_trans (some (pos a)) (some (pos b)) (some (pos c)) n h g = ground arith
not_trans (some (pos a)) (some (pos b)) (some (negsuc c)) n h g = ground arith
not_trans (some (pos a)) (some (negsuc b)) (some (pos c)) n h g = ground arith
not_trans (some (pos a)) (some (negsuc b)) (some (negsuc c)) n h g = ground arith
not_trans (some (negsuc a)) (some (pos b)) (some z) n h g = ground arith
not_trans (some (negsuc a)) (some (negsuc b)) (some (pos c)) n h g = ground arith
not_trans (some (negsuc a)) (some (negsuc b)) (some (negsuc c)) n h g = ground arith

pub milli-IsOrder : IsOrder milli
milli-IsOrder = record { lt_irrefl = irrefl; lt_trans = trans; not_lt_trans = not_trans }
