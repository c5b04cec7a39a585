-- ===== src/Engine/Park/Category.antt =====
-- Tags on the errors of workflow/park_category.go.
use nsw_core.Common.{◌≡◌, some, arith}
use nsw_core.Engine.Park.{
  ParkCategory, Failure, with_category, category_of, is_terminal_admin_error, tagged,
}

-- withCategory as the engine calls it: nil stays nil, and an error is tagged.
pub with_category-tagged :
    (p : ParkCategory) (e : Failure) → with_category p (some e) ≡ some (tagged p e)
unfolding with_category tagged
with_category-tagged p e = ground arith

-- Tagging an error that was tagged before keeps the category of the inner tag.
category_of-tagged-tagged :
    (p q : ParkCategory) (e : Failure)
    → category_of (tagged p (tagged q e)) ≡ category_of (tagged q e)
unfolding category_of tagged
category_of-tagged-tagged p q e = ground arith

-- Tagging an error with a category does not change whether it counts as a terminal admin error.
is_terminal-tagged :
    (p : ParkCategory) (e : Failure)
    → is_terminal_admin_error (tagged p e) ≡ is_terminal_admin_error e
unfolding is_terminal_admin_error tagged
is_terminal-tagged p e = ground arith
