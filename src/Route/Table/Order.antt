-- ===== src/Route/Table/Order.antt =====
-- The comparison of ranges of route/IP_TABLE.h.
use erizo_controller.Base.{◌≤◌, ◌≡◌, arith}
use erizo_controller.Route.Table.{IpTableKey, key_eq, key_gt, key_lt}

-- For ranges whose ends are in order, `a > b` says what `b < a` says, although the first compares
-- the upper ends and the second the lower ones.
pub key_gt-key_lt : (a b : IpTableKey) → a.from ≤ a.to → b.from ≤ b.to → key_gt a b ≡ key_lt b a
unfolding key_gt key_lt key_eq
key_gt-key_lt a b h k = ground arith
